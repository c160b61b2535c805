-- ===== src/Tlv/Len64.antt =====
-- zipc/zipc_tlv.c: variable-length uint64_t. Value and bytes go through three words of 28, 28 and
-- 8 bits.
pub mod Write
pub mod Words
pub mod Read
use zcrt.Base.{
  ltb, ◌==◌, if◌then◌else◌, Run, ◌>>=◌, length, get_elem?, ℕ, zero, suc, ◌+◌, ◌-◌, ◌*◌, ◌/◌, ◌%◌,
  ◌^◌, bit_and, bit_or, Option, none, some, List, [], ◌∷◌,
}
use zcrt.Buf.{Allocator, ZBuf, u32, store, buf_realloc}
use zcrt.Tlv.Zigzag.{u64, encode64, decode64}
use zcrt.Tlv.Len.{marked, allowed_reads, left}

-- After the steps of one word: the number has ended, there are further bytes, or the reads are used
-- up. The word read so far, the position, and the reads left.
pub data Word : Type 0 where
  ended : ℕ → ℕ → Word
  further : ℕ → ℕ → ℕ → Word
  short : Word

-- The unrolled steps for one of `result0`, `result1` and `result2`; `stages` are left of it.
unfoldable pub read_word : ℕ → List ℕ → ℕ → ℕ → ℕ → ℕ → Run Word
read_word zero block pos reads shift result = some (further result pos reads)
read_word (suc k) block pos reads shift result =
    let next = get_elem? block pos >>= λ b.
    let result' = bit_or result (bit_and b 0x7f * 2 ^ shift) in
    let more = read_word k block (pos + 1) (reads - 1) (shift + 7) result' in
    if bit_and b 0x80 == 0 then some (ended result' (pos + 1)) else more in
    if reads == 0 then some short else next

-- The first step for `result2` makes no test of `limit` and does not count it down.
unfoldable pub read_top : List ℕ → ℕ → ℕ → Run Word
read_top block pos reads = get_elem? block pos >>= λ b.
    if bit_and b 0x80 == 0
    then some (ended (bit_and b 0x7f) (pos + 1))
    else read_word 1 block (pos + 1) reads 7 (bit_and b 0x7f)

-- The three words put together, as the label `done` does.
abbrev pub join_words : ℕ → ℕ → ℕ → ℕ
join_words r0 r1 r2 = bit_or (bit_or r0 (r1 * 2 ^ 28)) (r2 * 2 ^ 56 % u64)

-- The value and the position behind it; `none` inside is the result -1.
unfoldable pub read_len64 : List ℕ → ℕ → ℕ → Run (Option (ℕ × ℕ))
read_len64 block pos limit = read_word 4 block pos (allowed_reads limit) 0 0 >>= elim [
  | short ↦ some none
  | ended r0 off ↦ some (some (join_words r0 0 0, off))
  | further r0 pos₁ reads₁ ↦ read_word 4 block pos₁ reads₁ 0 0 >>= elim [
    | short ↦ some none
    | ended r1 off ↦ some (some (join_words r0 r1 0, off))
    | further r1 pos₂ reads₂ ↦ read_top block pos₂ reads₂ >>= elim [
      | short ↦ some none
      | ended r2 off ↦ some (some (join_words r0 r1 r2, off))
      | further r2 pos₃ reads₃ ↦ some none
    ]
  ]
]

-- `none` for false, which leaves `*value` as it was.
unfoldable pub read_var_int64 : ZBuf → Run (ZBuf × Option ℕ)
read_var_int64 v = read_len64 v.buf v.offset (left v) >>= elim [
  | none ↦ some (v, none)
  | some r ↦ some (record v { offset = r.1 }, some (decode64 r.0))
]

-- The search tree that finds the number of bytes.
unfoldable pub size_of : ℕ → ℕ → ℕ → ℕ
size_of part0 part1 part2 =
    if part2 == 0
    then (if part1 == 0
        then (if ltb part0 (2 ^ 14)
            then (if ltb part0 (2 ^ 7) then 1 else 2)
            else (if ltb part0 (2 ^ 21) then 3 else 4))
        else (if ltb part1 (2 ^ 14)
            then (if ltb part1 (2 ^ 7) then 5 else 6)
            else (if ltb part1 (2 ^ 21) then 7 else 8)))
    else (if ltb part2 (2 ^ 7) then 9 else 10)

-- `target[size - 1] &= 0x7F` on the bytes below `size`.
unfoldable pub unmark_last : ℕ → List ℕ → List ℕ
unmark_last zero bytes = []
unmark_last (suc n) [] = []
unmark_last (suc zero) (b ∷ bs) = bit_and b 0x7f ∷ []
unmark_last (suc (suc n)) (b ∷ bs) = b ∷ unmark_last (suc n) bs

-- The bytes that `zcdr_WriteLEN64` leaves in the buffer.
unfoldable pub write_len64 : ℕ → List ℕ
unfolding size_of unmark_last
write_len64 value =
    let part0 = value % u32 in
    let part1 = value / 2 ^ 28 % u32 in
    let part2 = value / 2 ^ 56 % u32 in
    unmark_last (size_of part0 part1 part2) (
      marked part0
      ∷ marked (part0 / 2 ^ 7)
      ∷ marked (part0 / 2 ^ 14)
      ∷ marked (part0 / 2 ^ 21)
      ∷ marked part1
      ∷ marked (part1 / 2 ^ 7)
      ∷ marked (part1 / 2 ^ 14)
      ∷ marked (part1 / 2 ^ 21)
      ∷ marked part2
      ∷ marked (part2 / 2 ^ 7)
      ∷ [])

module _ ⦃alloc : Allocator⦄ where
  unfoldable pub write_var_int64 : ZBuf → ℕ → Run ZBuf
  unfolding write_len64 buf_realloc store encode64
  write_var_int64 v value = do
    (w, _) ← buf_realloc v ((v.len + 10) % u32)
    block ← store w.buf w.len (write_len64 (encode64 value))
    some (record w { buf = block; len = (w.len + length (write_len64 (encode64 value))) % u32 })
