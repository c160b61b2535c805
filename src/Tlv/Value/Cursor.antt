-- ===== src/Tlv/Value/Cursor.antt =====
-- zipc/zipc_tlv.c: the type byte that precedes each value.
use zcrt.Base.{
  le→ltb, Run, ◌>>=◌, get_elem?-drop, ℕ, suc, ◌+◌, ◌%◌, ◌^◌, ◌≤◌, ◌<◌, ◌≡◌, ap, true, some, List,
  [], ◌∷◌, arith,
}
use zcrt.Buf.{Allocator, ZBuf, IsValid, u32, unread, buf_get}
use zcrt.Buf.Reading.{skip, unread_fits, unread_block, skip-IsValid, unread-skip}
use zcrt.Buf.Append.{Appended, buf_append-Appended}
use zcrt.Tlv.Value.{get_type, put_type}

buf_get_one :
    (v : ZBuf) → IsValid v → v.offset + 1 ≤ v.len → buf_get v 1 ≡ (skip v 1, some v.offset)
unfolding buf_get
buf_get_one v valid fits =
    let same : (v.offset + 1) % u32 ≡ v.offset + 1 = omega (arith, valid.fits, valid.narrow) in
    rw (same, le→ltb v.len (v.offset + 1) fits)

-- A byte at the read position is taken.
pub get_type_lem :
    (v : ZBuf) (b : ℕ) (rest : List ℕ)
    → IsValid v
    → unread v ≡ b ∷ rest
    → get_type v ≡ some (skip v 1, b)
unfolding get_type
get_type_lem v b rest valid at =
    let got = buf_get_one v valid (unread_fits v valid (b ∷ []) rest at) in
    let here = get_elem?-drop v.offset v.buf (unread_block v valid (b ∷ []) rest at) in
    rw (got, get_type) (rw (got, here))

pub skip_one-IsValid :
    (v : ZBuf) (b : ℕ) (rest : List ℕ) → IsValid v → unread v ≡ b ∷ rest → IsValid (skip v 1)
skip_one-IsValid v b rest valid at = skip-IsValid v valid (b ∷ []) rest at

pub unread-skip_one :
    (v : ZBuf) (b : ℕ) (rest : List ℕ) → IsValid v → unread v ≡ b ∷ rest → unread (skip v 1) ≡ rest
unread-skip_one v b rest valid at = unread-skip v valid (b ∷ []) rest at

pub skip-skip : (v : ZBuf) (n : ℕ) → skip (skip v 1) n ≡ skip v (suc n)
skip-skip v n =
    let same : v.offset + 1 + n ≡ v.offset + suc n = omega arith in
    ap (λ o. record v { offset = o }) same

-- What a put function does to a buffer: it writes `bytes`, and does not fault.
abbrev pub Puts : Run ZBuf → ZBuf → List ℕ → Type 0
Puts run v bytes = (w : ZBuf) × (run ≡ some w) × Appended v bytes w

module _ ⦃alloc : Allocator⦄ (granted : (n : ℕ) → alloc.grants n ≡ true) where
  pub put_type_lem :
      (v : ZBuf) (ty : ℕ) → IsValid v → v.len + 2 < 2 ^ 31 → Puts (put_type v ty) v (ty ∷ [])
  unfolding put_type
  put_type_lem v ty valid room =
      let (w, run, a) = buf_append-Appended granted v (ty ∷ []) valid (omega arith) in
      (w, rw (run, ◌>>=◌), a)
