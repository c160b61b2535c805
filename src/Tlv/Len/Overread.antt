-- ===== src/Tlv/Len/Overread.antt =====
-- zipc/zipc_tlv.c: how far `_zcrt_tlv_read_len` reads. The test `0 > limit--` lets one read too
-- many through.
use zcrt.Base.{
  ltb, ◌==◌, Bool-cases, Option-cases, ◌>>=◌, length, get_elem?, ℕ, zero, suc, ◌+◌, ◌-◌, ◌*◌, ◌^◌,
  ◌≤◌, ◌<◌, bit_and, bit_or, ◌≡◌, refl, ◌∙◌, inl, inr, Bool, true, false, Option, none, some, List,
  [], ◌∷◌, arith,
}
use zcrt.Base.Bits.{or_shifted, and_low, and_top}
use zcrt.Buf.{ZBuf, IsValid}
use mathlib.Core.Path.{subst}
use zcrt.Tlv.Len.{group, read_stages, allowed_reads, tlv_read_len, left, get_len}

-- Where the pointer that is returned stands, if it is not NULL.
abbrev Within : ℕ → Option ℕ → Type 0
Within bound none = Unit
Within bound (some p) = p ≤ bound

get_elem?-inside {ℓ} :
    {A : Type ℓ} (xs : List A) (i : ℕ) → i < length xs → (x : A) × (get_elem? xs i ≡ some x)
get_elem?-inside [] i h = absurd (omega arith)
get_elem?-inside (x ∷ xs) zero h = (x, refl)
get_elem?-inside (x ∷ xs) (suc i) h = get_elem?-inside xs i (omega arith)

read_stages_total :
    (k : ℕ) (block : List ℕ) (pos reads shift acc : ℕ)
    → pos + reads ≤ length block
    → (r : ℕ × Option ℕ) × (read_stages k block pos reads shift acc ≡ some r)
      × Within (pos + reads) r.1
unfolding read_stages
read_stages_total zero block pos reads shift acc h = ((0, none), refl, tt)
read_stages_total (suc k) block pos zero shift acc h = ((0, none), refl, tt)
read_stages_total (suc k) block pos (suc n) shift acc h =
    let (b, at) = get_elem?-inside block pos (omega arith) in
    let acc' = bit_or acc (group k b shift) in
    elim (Bool-cases (bit_and b 0x80 == 0)) [
      | inl last ↦ ((acc', some (pos + 1)), rw (at, last) (ground arith), omega arith)
      | inr inner ↦
          let same : pos + 1 + (suc n - 1) ≡ pos + suc n = omega arith in
          let (r, run, near) =
            read_stages_total k block (pos + 1) (suc n - 1) (shift + 7) acc' (omega arith) in
          (r, rw (at, inner) (ground (arith, run)), subst (λ bound. Within bound r.1) same near)
    ]

pub left_reads :
    (v : ZBuf) → IsValid v → v.len < 2 ^ 31 → v.offset + allowed_reads (left v) ≡ v.len + 1
unfolding allowed_reads
left_reads v valid int =
    let behind = valid.behind in
    let same : left v ≡ v.len - v.offset = omega (arith, valid.fits, valid.narrow) in
    let small : ltb (v.len - v.offset) (2 ^ 31) ≡ true = ground arith in
    rw (same, small) (omega arith)

-- In a well-formed buffer with contents below 2 ^ 31 bytes that do not fill the block,
-- `ztlv_get_len` reads nothing outside the block, whatever the bytes are: it returns, and leaves
-- the read position at most one byte behind the contents.
pub get_len_total :
    (v : ZBuf)
    → IsValid v
    → v.len < 2 ^ 31
    → v.len < length v.buf
    → (r : ZBuf × ℕ × Bool) × (get_len v ≡ some r) × (r.0.offset ≤ v.len + 1)
unfolding get_len tlv_read_len
get_len_total v valid int spare =
    let behind = valid.behind in
    let reads = left_reads v valid int in
    let (r, run, near) =
      read_stages_total 5 v.buf v.offset (allowed_reads (left v)) 0 0 (omega arith) in
    elim (Option-cases r.1) [
      | inl null ↦ ((v, r.0, false), rw (run, ◌>>=◌, null), omega arith)
      | inr (off, at) ↦ (
        (record v { offset = off }, r.0, true),
        rw (run, ◌>>=◌, at),
        subst (λ o. Within o (some off)) reads
            (subst (Within (v.offset + allowed_reads (left v))) at near),
      )
    ]

-- When every byte has been read and the stale byte of the block behind the contents is below 128,
-- `ztlv_get_len` does not return false: it returns true with that stale byte as the value, and
-- moves the read position past the end of the contents.
pub get_len_overread :
    (v : ZBuf) (b : ℕ)
    → IsValid v
    → v.len < 2 ^ 31
    → v.offset ≡ v.len
    → get_elem? v.buf v.len ≡ some b
    → b < 128
    → get_len v ≡ some (record v { offset = v.len + 1 }, b, true)
unfolding get_len tlv_read_len read_stages
get_len_overread v b valid int at_end stale small =
    let reads : allowed_reads (left v) ≡ 1 = omega (arith, left_reads v valid int) in
    let last : (bit_and b 0x80 == 0) ≡ true = ground (arith, and_top b) in
    let value : bit_or 0 (bit_and b 0x7f * 2 ^ 0) ≡ b =
      or_shifted 0 0 (bit_and b 0x7f) (omega arith) ∙ omega (arith, and_low b (omega arith)) in
    rw (reads, at_end, stale, last, value)
