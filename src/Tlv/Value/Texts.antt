-- ===== src/Tlv/Value/Texts.antt =====
-- zipc/zipc_tlv.c: strings and table headers.
use zcrt.Base.{
  le→ltb, ◌>>=◌, length, take, drop, length-append, take-append, take_all, ℕ, ◌+◌, ◌%◌, ◌^◌, ◌≤◌,
  ◌<◌, ◌≡◌, refl, ap, ◌∙◌, true, some, List, [], ◌∷◌, ◌++◌, append_assoc, arith,
}
use zcrt.Buf.{Allocator, ZBuf, ZStr, IsValid, u32, unread, buf_getstr}
use zcrt.Buf.Reading.{skip, unread_fits, unread_block, skip-IsValid, unread-skip}
use zcrt.Buf.Append.{Appended-trans, buf_append-Appended}
use zcrt.Tlv.Ty
use zcrt.Tlv.Len.Groups.{groups, length-groups}
use zcrt.Tlv.Len.Write.{put_len-Appended}
use zcrt.Tlv.Len.Read.{get_len-groups}
use zcrt.Tlv.Value.{get_string, get_table_cnt, put_lstring, put_table_cnt}
use zcrt.Tlv.Value.Cursor.{
  Puts, get_type_lem, put_type_lem, skip_one-IsValid, unread-skip_one, skip-skip,
}

abbrev pub str_bytes : List ℕ → List ℕ
str_bytes s = Ty.str ∷ (groups 4 (length s) ++ s)

abbrev pub cnt_bytes : ℕ → List ℕ
cnt_bytes n = Ty.table ∷ groups 4 n

-- The bytes that a string shows in a block.
abbrev pub Shows : List ℕ → ZStr → List ℕ → Type 0
Shows block text s =
    (p : ℕ) × (text.ptr ≡ some p) × (text.len ≡ length s) × (take (length s) (drop p block) ≡ s)

getstr_inside :
    (v : ZBuf) (n : ℕ)
    → IsValid v
    → v.offset + n ≤ v.len
    → buf_getstr v n ≡ (skip v n, record { len = n; ptr = some v.offset }, true)
unfolding buf_getstr
getstr_inside v n valid fits =
    let same : (v.offset + n) % u32 ≡ v.offset + n = omega (arith, valid.fits, valid.narrow) in
    rw (same, le→ltb v.len (v.offset + n) fits)

module _ (v : ZBuf) (valid : IsValid v) (int : v.len < 2 ^ 31) (rest : List ℕ) where
  module _ (s : List ℕ) (small : length s < u32) (at : unread v ≡ str_bytes s ++ rest) where
    -- Where the text starts.
    abbrev start : ℕ
    start = v.offset + 1 + length (groups 4 (length s))

    after : List ℕ
    after = groups 4 (length s) ++ (s ++ rest)

    at_type : unread v ≡ Ty.str ∷ after
    unfolding after
    at_type = at ∙ ap (λ l. Ty.str ∷ l) (append_assoc (groups 4 (length s)) s rest)

    IsValid-len : IsValid (skip v 1)
    IsValid-len = skip_one-IsValid v Ty.str after valid at_type

    at_len : unread (skip v 1) ≡ groups 4 (length s) ++ (s ++ rest)
    unfolding after
    at_len = unread-skip_one v Ty.str after valid at_type

    -- The buffer behind the length.
    abbrev text_at : ZBuf
    text_at = skip (skip v 1) (length (groups 4 (length s)))

    IsValid-text : IsValid text_at
    IsValid-text = skip-IsValid (skip v 1) IsValid-len (groups 4 (length s)) (s ++ rest) at_len

    at_text : unread text_at ≡ s ++ rest
    at_text = unread-skip (skip v 1) IsValid-len (groups 4 (length s)) (s ++ rest) at_len

    get_string_run :
        get_string v
        ≡ some (
          skip v (length (str_bytes s)),
          some (record { len = length s; ptr = some text_at.offset }),
        )
    unfolding get_string
    get_string_run =
        let n = length s in
        let size : text_at.offset + n ≡ v.offset + length (str_bytes s) =
          omega (arith, length-append (groups 4 n) s) in
        rw (
          get_type_lem v Ty.str after valid at_type,
          ◌>>=◌,
          get_len-groups (skip v 1) n (s ++ rest) IsValid-len int small at_len,
          getstr_inside text_at n IsValid-text (unread_fits text_at IsValid-text s rest at_text),
          size,
        )

    pub get_string_lem :
        (text : ZStr) × (get_string v ≡ some (skip v (length (str_bytes s)), some text))
        × Shows v.buf text s
    get_string_lem =
        let n = length s in
        let block = unread_block text_at IsValid-text s rest at_text in
        (
          record { len = n; ptr = some text_at.offset },
          get_string_run,
          (
            text_at.offset,
            refl,
            refl,
            ap (take n) block
                ∙ take-append n s (rest ++ drop v.len v.buf) (omega arith)
                ∙ take_all n s (omega arith),
          ),
        )

  pub get_table_cnt_lem :
      (n : ℕ)
      → n < u32
      → unread v ≡ cnt_bytes n ++ rest
      → get_table_cnt v ≡ some (skip v (length (cnt_bytes n)), some n)
  unfolding get_table_cnt
  get_table_cnt_lem n small at =
      let after = groups 4 n ++ rest in
      rw
        (
          get_type_lem v Ty.table after valid at,
          ◌>>=◌,
          get_len-groups (skip v 1) n rest (skip_one-IsValid v Ty.table after valid at) int small
              (unread-skip_one v Ty.table after valid at),
        )
        (ap (λ u. some (u, some n)) (skip-skip v (length (groups 4 n))))

module _ ⦃alloc : Allocator⦄ (granted : (n : ℕ) → alloc.grants n ≡ true) (v : ZBuf)
    (valid : IsValid v) where
  pub put_lstring_lem :
      (s : List ℕ) → length s + v.len + 10 < 2 ^ 31 → Puts (put_lstring v (some s)) v (str_bytes s)
  unfolding put_lstring
  put_lstring_lem s room =
      let n = length s in
      let (w, run, a) = put_type_lem granted v Ty.str valid (omega arith) in
      let (u, run', b) =
        put_len-Appended granted w n a.valid (omega arith) (omega (arith, a.longer)) in
      let (t, run'', c) =
        buf_append-Appended granted u s b.valid
          (omega (arith, a.longer, b.longer, length-groups 4 n)) in
      (
        t,
        rw (run, ◌>>=◌, run', run''),
        Appended-trans (Ty.str ∷ []) (groups 4 n ++ s) a (Appended-trans (groups 4 n) s b c),
      )

  pub put_table_cnt_lem :
      (n : ℕ) → n < u32 → v.len + 8 < 2 ^ 31 → Puts (put_table_cnt v n) v (cnt_bytes n)
  unfolding put_table_cnt
  put_table_cnt_lem n small room =
      let (w, run, a) = put_type_lem granted v Ty.table valid (omega arith) in
      let (u, run', b) = put_len-Appended granted w n a.valid small (omega (arith, a.longer)) in
      (u, rw (run, ◌>>=◌) run', Appended-trans (Ty.table ∷ []) (groups 4 n) a b)
