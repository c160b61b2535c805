-- ===== src/Tlv/Len.antt =====
-- zipc/zipc_tlv.c: variable-length uint32_t, read and written a byte at a time. `char` may be
-- signed: the sign extension of `b` touches no bit that is used.
pub mod Groups
pub mod Write
pub mod Read
pub mod Overread
use zcrt.Base.{
  ltb, leb, ◌==◌, if◌then◌else◌, Run, ◌>>=◌, length, get_elem?, ℕ, zero, suc, ◌+◌, ◌-◌, ◌*◌, ◌/◌,
  ◌%◌, ◌^◌, bit_and, bit_or, Bool, true, false, Option, none, some, List, [], ◌∷◌,
}
use zcrt.Buf.{Allocator, ZBuf, u32, store, buf_realloc}
use zcrt.Tlv.Zigzag.{zigzag_encode32, zigzag_decode32}

-- What a byte adds to `result`: seven bits, but of the fifth byte the bits that fit.
abbrev pub group : ℕ → ℕ → ℕ → ℕ
group zero b shift = b * 2 ^ shift % u32
group (suc k) b shift = bit_and b 0x7f * 2 ^ shift

-- The unrolled steps of `_zcrt_tlv_read_len`, of which `stages` are left. `reads` counts how often
-- the test `0 > limit--` will still pass.
unfoldable pub read_stages : ℕ → List ℕ → ℕ → ℕ → ℕ → ℕ → Run (ℕ × Option ℕ)
read_stages zero block pos reads shift result = some (0, none)
read_stages (suc k) block pos reads shift result =
    let next = get_elem? block pos >>= λ b.
    let result' = bit_or result (group k b shift) in
    let more = read_stages k block (pos + 1) (reads - 1) (shift + 7) result' in
    if bit_and b 0x80 == 0 then some (result', some (pos + 1)) else more in
    if reads == 0 then some (0, none) else next

-- `0 > limit--` passes `limit + 1` times, and never for a negative int.
unfoldable pub allowed_reads : ℕ → ℕ
allowed_reads limit = if ltb limit (2 ^ 31) then limit + 1 else 0

-- The value stored through `value`, and the pointer returned, as an index.
unfoldable pub tlv_read_len : List ℕ → ℕ → ℕ → Run (ℕ × Option ℕ)
unfolding read_stages allowed_reads
tlv_read_len block pos limit = read_stages 5 block pos (allowed_reads limit) 0 0

-- `buf->len - buf->offset`, passed as an int.
abbrev pub left : ZBuf → ℕ
left v = (v.len + u32 - v.offset) % u32

unfoldable pub get_len : ZBuf → Run (ZBuf × ℕ × Bool)
unfolding tlv_read_len
get_len v = tlv_read_len v.buf v.offset (left v) >>= λ r. elim r.1 [
  | none ↦ some (v, r.0, false)
  | some off ↦ some (record v { offset = off }, r.0, true)
]

-- `none` for false, which leaves `*value` as it was.
unfoldable pub read_var_int : ZBuf → Run (ZBuf × Option ℕ)
unfolding tlv_read_len zigzag_decode32
read_var_int v = tlv_read_len v.buf v.offset (left v) >>= λ r. elim r.1 [
  | none ↦ some (v, none)
  | some off ↦ some (record v { offset = off }, some (zigzag_decode32 r.0))
]

abbrev pub marked : ℕ → ℕ
marked v = bit_or v 0x80 % 256

abbrev pub unmarked : ℕ → ℕ
unmarked v = bit_and (marked v) 0x7f

-- The bytes that `_zcrt_tlv_write_len` leaves in `target`.
unfoldable pub tlv_write_len : ℕ → List ℕ
tlv_write_len value =
    if leb (2 ^ 7) value
    then (if leb (2 ^ 14) value
        then (if leb (2 ^ 21) value
            then (if leb (2 ^ 28) value
                then marked value
                  ∷ marked (value / 2 ^ 7)
                  ∷ marked (value / 2 ^ 14)
                  ∷ marked (value / 2 ^ 21)
                  ∷ (value / 2 ^ 28 % 256)
                  ∷ []
                else marked value
                  ∷ marked (value / 2 ^ 7)
                  ∷ marked (value / 2 ^ 14)
                  ∷ unmarked (value / 2 ^ 21)
                  ∷ [])
            else marked value ∷ marked (value / 2 ^ 7) ∷ unmarked (value / 2 ^ 14) ∷ [])
        else marked value ∷ unmarked (value / 2 ^ 7) ∷ [])
    else unmarked value ∷ []

module _ ⦃alloc : Allocator⦄ where
  unfoldable pub put_len : ZBuf → ℕ → Run ZBuf
  unfolding tlv_write_len buf_realloc store
  put_len v value = do
    (w, _) ← buf_realloc v ((v.len + 5) % u32)
    block ← store w.buf w.len (tlv_write_len value)
    some (record w { buf = block; len = (w.len + length (tlv_write_len value)) % u32 })

  unfoldable pub write_var_int : ZBuf → ℕ → Run ZBuf
  unfolding put_len zigzag_encode32
  write_var_int v value = put_len v (zigzag_encode32 value)
