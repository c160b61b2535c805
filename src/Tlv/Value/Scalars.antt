-- ===== src/Tlv/Value/Scalars.antt =====
-- zipc/zipc_tlv.c: booleans and int32_t, there and back.
use zcrt.Base.{
  if◌then◌else◌, ◌>>=◌, length, ℕ, ◌+◌, ◌^◌, ◌<◌, ◌≡◌, ap, ◌∙◌, Bool, true, false, some, List, [],
  ◌∷◌, ◌++◌, arith,
}
use zcrt.Buf.{Allocator, ZBuf, IsValid, u32, unread}
use zcrt.Buf.Reading.{skip}
use zcrt.Buf.Append.{Appended-trans}
use zcrt.Tlv.Ty
use zcrt.Tlv.Zigzag.{zigzag_encode32}
use zcrt.Tlv.Len.Groups.{groups}
use zcrt.Tlv.Len.Write.{write_var_int-Appended}
use zcrt.Tlv.Len.Read.{read_var_int-groups}
use zcrt.Tlv.Value.{get_bool, get_int, put_bool, put_int}
use zcrt.Tlv.Value.Cursor.{
  Puts, get_type_lem, put_type_lem, skip_one-IsValid, unread-skip_one, skip-skip,
}

-- The encodings.
abbrev pub bool_bytes : Bool → List ℕ
bool_bytes b = (if b then Ty.bool_true else Ty.bool_false) ∷ []

abbrev pub int_bytes : ℕ → List ℕ
int_bytes n = Ty.int ∷ groups 4 (zigzag_encode32 n)

module _ (v : ZBuf) (valid : IsValid v) (int : v.len < 2 ^ 31) (rest : List ℕ) where
  pub get_bool_lem :
      (b : Bool) → unread v ≡ bool_bytes b ++ rest → get_bool v ≡ some (skip v 1, some b)
  unfolding get_bool
  get_bool_lem true at = rw (get_type_lem v Ty.bool_true rest valid at, ◌>>=◌)
  get_bool_lem false at = rw (get_type_lem v Ty.bool_false rest valid at, ◌>>=◌)

  module _ (n : ℕ) (small : n < u32) where
    pub get_int_lem :
        unread v ≡ int_bytes n ++ rest → get_int v ≡ some (skip v (length (int_bytes n)), some n)
    unfolding get_int
    get_int_lem at =
        let after = groups 4 (zigzag_encode32 n) ++ rest in
        rw (get_type_lem v Ty.int after valid at, ◌>>=◌)
          (read_var_int-groups (skip v 1) n rest (skip_one-IsValid v Ty.int after valid at) int
              small (unread-skip_one v Ty.int after valid at)
            ∙ ap (λ u. some (u, some n)) (skip-skip v (length (groups 4 (zigzag_encode32 n)))))

module _ ⦃alloc : Allocator⦄ (granted : (n : ℕ) → alloc.grants n ≡ true) (v : ZBuf)
    (valid : IsValid v) where
  pub put_bool_lem : (b : Bool) → v.len + 2 < 2 ^ 31 → Puts (put_bool v b) v (bool_bytes b)
  unfolding put_bool
  put_bool_lem b room =
      put_type_lem granted v (if b then Ty.bool_true else Ty.bool_false) valid room

  pub put_int_lem : (n : ℕ) → n < u32 → v.len + 7 < 2 ^ 31 → Puts (put_int v n) v (int_bytes n)
  unfolding put_int
  put_int_lem n small room =
      let (w, run, a) = put_type_lem granted v Ty.int valid (omega arith) in
      let (u, run', b) =
        write_var_int-Appended granted w n a.valid small (omega (arith, a.longer)) in
      (u, rw (run, ◌>>=◌) run', Appended-trans (Ty.int ∷ []) (groups 4 (zigzag_encode32 n)) a b)
