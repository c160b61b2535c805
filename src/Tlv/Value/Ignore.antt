-- ===== src/Tlv/Value/Ignore.antt =====
-- zipc/zipc_tlv.c: `ztlv_get_ignore`, which reads the type byte and then calls a get function that
-- reads a type byte too.
use zcrt.Base.{
  ltb, ◌==◌, ltb→lt, Bool-cases, ◌>>=◌, length, length-append, ℕ, ◌+◌, ◌/◌, ◌%◌, ◌≤◌, ◌<◌, ◌≡◌, ap,
  ◌∙◌, ◌≢◌, inl, inr, true, false, none, some, List, [], ◌∷◌, ◌++◌, append_assoc, arith,
}
use zcrt.Buf.{ZBuf, IsValid, unread}
use zcrt.Buf.Reading.{skip}
use zcrt.Tlv.Ty
use zcrt.Tlv.Len.Groups.{groups, groups_small, groups_big}
use zcrt.Tlv.Value.{get_string, get_ignore}
use zcrt.Tlv.Value.Cursor.{get_type_lem, skip_one-IsValid, unread-skip_one, skip-skip}
use zcrt.Tlv.Value.Texts.{str_bytes}

-- The first byte of a length other than 17 is no string type.
groups_head :
    (n : ℕ) → n ≢ Ty.str → (b : ℕ) × (bs : List ℕ) × (groups 4 n ≡ b ∷ bs) × ((b == Ty.str) ≡ false)
groups_head n other = elim (Bool-cases (ltb n 128)) [
  | inl small ↦ (n, [], groups_small 4 n (ltb→lt n 128 small), ground arith)
  | inr big ↦ (n % 128 + 128, groups 3 (n / 128), groups_big 3 n (ground arith), ground arith)
]

module _ (v : ZBuf) (valid : IsValid v) (b : ℕ) (rest : List ℕ) (at : unread v ≡ b ∷ rest) where
  get_string_other : (b == Ty.str) ≡ false → get_string v ≡ some (skip v 1, none)
  unfolding get_string
  get_string_other other = rw (get_type_lem v b rest valid at, ◌>>=◌, other)

-- Where a nonempty string whose length is not 17 is next in a well-formed buffer, `ztlv_get_ignore`
-- returns true but steps over two bytes only, fewer than the value has.
pub get_ignore-string :
    (v : ZBuf) (s rest : List ℕ)
    → IsValid v
    → unread v ≡ str_bytes s ++ rest
    → length s ≢ Ty.str
    → 1 ≤ length s
    → (get_ignore v ≡ some (skip v 2, true)) × (2 < length (str_bytes s))
unfolding get_ignore
get_ignore-string v s rest valid at other some_text =
    let (b, bs, bytes, differs) = groups_head (length s) other in
    let at' : unread v ≡ Ty.str ∷ (b ∷ (bs ++ (s ++ rest))) =
      at
      ∙ ap (λ l. Ty.str ∷ ((l ++ s) ++ rest)) bytes
      ∙ ap (λ l. Ty.str ∷ (b ∷ l)) (append_assoc bs s rest) in
    let after = b ∷ (bs ++ (s ++ rest)) in
    let valid' = skip_one-IsValid v Ty.str after valid at' in
    let next = unread-skip_one v Ty.str after valid at' in
    let run = get_string_other (skip v 1) valid' b (bs ++ (s ++ rest)) next differs in
    (
      rw (get_type_lem v Ty.str after valid at', ◌>>=◌, run)
          (ap (λ u. some (u, true)) (skip-skip v 1)),
      rw bytes (omega (arith, length-append bs s)),
    )
