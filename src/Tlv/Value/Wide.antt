-- ===== src/Tlv/Value/Wide.antt =====
-- zipc/zipc_tlv.c: uint32_t and int64_t, which are written in the short form where they fit it.
use zcrt.Base.{
  leb, if◌then◌else◌, Bool-cases, ◌>>=◌, length, ℕ, ◌+◌, ◌-◌, ◌%◌, ◌^◌, ◌<◌, ◌≡◌, ap, ◌∙◌, inl, inr,
  Bool, true, ◌||◌, some, List, [], ◌∷◌, ◌++◌, arith,
}
use zcrt.Buf.{Allocator, ZBuf, IsValid, u32, unread}
use zcrt.Buf.Reading.{skip}
use zcrt.Buf.Append.{Appended-trans}
use zcrt.Tlv.Ty
use zcrt.Tlv.Zigzag.{u64, zigzag_encode32, encode64}
use zcrt.Tlv.Len.Groups.{groups}
use zcrt.Tlv.Len.{write_var_int}
use zcrt.Tlv.Len64.{write_var_int64}
use zcrt.Tlv.Len.Read.{read_var_int-groups}
use zcrt.Tlv.Len64.Write.{write_var_int64-Appended}
use zcrt.Tlv.Len64.Read.{read_var_int64-groups}
use zcrt.Tlv.Value.{get_int, put_int, put_type, get_uint32, get_int64, put_uint32, put_int64, widen}
use zcrt.Tlv.Value.Cursor.{
  Puts, get_type_lem, put_type_lem, skip_one-IsValid, unread-skip_one, skip-skip,
}
use zcrt.Tlv.Value.Scalars.{int_bytes, get_int_lem, put_int_lem}

abbrev pub long_bytes : ℕ → List ℕ
long_bytes n = Ty.int64 ∷ groups 9 (encode64 n)

abbrev pub fits_int : ℕ → Bool
fits_int n = leb n 2147483647 || leb (u64 - 2147483647) n

abbrev pub uint32_bytes : ℕ → List ℕ
uint32_bytes n = if leb n 2147483647 then int_bytes n else long_bytes n

abbrev pub int64_bytes : ℕ → List ℕ
int64_bytes n = if fits_int n then int_bytes (n % u32) else long_bytes n

module _ (v : ZBuf) (valid : IsValid v) (int : v.len < 2 ^ 31) (rest : List ℕ) (n : ℕ) where
  get_uint32_long :
      n < u32
      → unread v ≡ long_bytes n ++ rest
      → get_uint32 v ≡ some (skip v (length (long_bytes n)), some n)
  unfolding get_int
  get_uint32_long small at =
      let after = groups 9 (encode64 n) ++ rest in
      let same : n % u32 ≡ n = omega arith in
      rw
        (
          get_type_lem v Ty.int64 after valid at,
          ◌>>=◌,
          read_var_int64-groups (skip v 1) n rest (skip_one-IsValid v Ty.int64 after valid at) int
              (omega arith) (unread-skip_one v Ty.int64 after valid at),
          same,
        )
        (ap (λ u. some (u, some n)) (skip-skip v (length (groups 9 (encode64 n)))))

  pub get_uint32_lem :
      n < u32
      → unread v ≡ uint32_bytes n ++ rest
      → get_uint32 v ≡ some (skip v (length (uint32_bytes n)), some n)
  get_uint32_lem small at = elim (Bool-cases (leb n 2147483647)) [
    | inl fits ↦ rw fits (get_int_lem v valid int rest n small (rw fits at at))
    | inr big ↦ rw big (get_uint32_long small (rw big at at))
  ]

  get_int64_short :
      (k : ℕ)
      → k < u32
      → unread v ≡ int_bytes k ++ rest
      → get_int64 v ≡ some (skip v (length (int_bytes k)), some (widen k))
  unfolding get_int64
  get_int64_short k small at =
      let after = groups 4 (zigzag_encode32 k) ++ rest in
      rw
        (
          get_type_lem v Ty.int after valid at,
          ◌>>=◌,
          read_var_int-groups (skip v 1) k rest (skip_one-IsValid v Ty.int after valid at) int small
              (unread-skip_one v Ty.int after valid at),
        )
        (ap (λ u. some (u, some (widen k))) (skip-skip v (length (groups 4 (zigzag_encode32 k)))))

  get_int64_long :
      n < u64
      → unread v ≡ long_bytes n ++ rest
      → get_int64 v ≡ some (skip v (length (long_bytes n)), some n)
  unfolding get_int64
  get_int64_long small at =
      let after = groups 9 (encode64 n) ++ rest in
      rw (get_type_lem v Ty.int64 after valid at, ◌>>=◌)
        (read_var_int64-groups (skip v 1) n rest (skip_one-IsValid v Ty.int64 after valid at) int
            small (unread-skip_one v Ty.int64 after valid at)
          ∙ ap (λ u. some (u, some n)) (skip-skip v (length (groups 9 (encode64 n)))))

  pub get_int64_lem :
      n < u64
      → unread v ≡ int64_bytes n ++ rest
      → get_int64 v ≡ some (skip v (length (int64_bytes n)), some n)
  get_int64_lem small at = elim (Bool-cases (fits_int n)) [
    | inl fits ↦
        let back : widen (n % u32) ≡ n = ground arith in
        rw fits (
          get_int64_short (n % u32) (omega arith) (rw fits at at)
          ∙ ap (λ k. some (skip v (length (int_bytes (n % u32))), some k)) back)
    | inr big ↦ rw big (get_int64_long small (rw big at at))
  ]

module _ ⦃alloc : Allocator⦄ (granted : (n : ℕ) → alloc.grants n ≡ true) (v : ZBuf)
    (valid : IsValid v) (n : ℕ) where
  long_Puts :
      n < u64
      → v.len + 13 < 2 ^ 31
      → Puts (put_type v Ty.int64 >>= λ w. write_var_int64 w n) v (long_bytes n)
  long_Puts small room =
      let (w, run, a) = put_type_lem granted v Ty.int64 valid (omega arith) in
      let (u, run', b) =
        write_var_int64-Appended granted w n a.valid small (omega (arith, a.longer)) in
      (u, rw (run, ◌>>=◌) run', Appended-trans (Ty.int64 ∷ []) (groups 9 (encode64 n)) a b)

  short_Puts :
      (k : ℕ)
      → k < u32
      → v.len + 7 < 2 ^ 31
      → Puts (put_type v Ty.int >>= λ w. write_var_int w k) v (int_bytes k)
  unfolding put_int
  short_Puts k small room = put_int_lem granted v valid k small room

  pub put_uint32_lem : n < u32 → v.len + 13 < 2 ^ 31 → Puts (put_uint32 v n) v (uint32_bytes n)
  unfolding put_uint32
  put_uint32_lem small room = elim (Bool-cases (leb n 2147483647)) [
    | inl fits ↦ rw fits (short_Puts n small (omega arith))
    | inr big ↦ rw big (long_Puts (omega arith) room)
  ]

  pub put_int64_lem : n < u64 → v.len + 13 < 2 ^ 31 → Puts (put_int64 v n) v (int64_bytes n)
  unfolding put_int64
  put_int64_lem small room = elim (Bool-cases (fits_int n)) [
    | inl fits ↦ rw fits (short_Puts (n % u32) (omega arith) (omega arith))
    | inr big ↦ rw big (long_Puts small room)
  ]
