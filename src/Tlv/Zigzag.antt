-- ===== src/Tlv/Zigzag.antt =====
-- zipc/zipc_tlv.c: the zigzag maps, which give numbers near zero small codes.
use zcrt.Base.{
  ltb, ◌==◌, if◌then◌else◌, Bool-cases, ℕ, ◌-◌, ◌*◌, ◌/◌, ◌%◌, ◌^◌, ◌<◌, bit_xor, ◌≡◌, inl, inr,
  arith,
}
use zcrt.Base.Bits.{xor_zero, xor_ones}
use zcrt.Buf.{u32}

abbrev pub u64 : ℕ
u64 = 2 ^ 64

-- `(n << 1) ^ (n >> 31)`, where the right shift copies the sign bit.
unfoldable pub zigzag_encode32 : ℕ → ℕ
zigzag_encode32 n = bit_xor (n * 2 % u32) (if ltb n (2 ^ 31) then 0 else u32 - 1)

-- `(n >> 1) ^ -(int)(n & 1)`
unfoldable pub zigzag_decode32 : ℕ → ℕ
zigzag_decode32 n = bit_xor (n / 2) ((u32 - n % 2) % u32)

unfoldable pub encode64 : ℕ → ℕ
encode64 n = bit_xor (n * 2 % u64) (if ltb n (2 ^ 63) then 0 else u64 - 1)

unfoldable pub decode64 : ℕ → ℕ
decode64 n = bit_xor (n / 2) ((u64 - n % 2) % u64)

-- The code in plain arithmetic: 2 n for n ≥ 0, and 2 (-n) - 1 for n < 0.
zigzag_encode32_lem :
    (n : ℕ) → n < u32 → zigzag_encode32 n ≡ (if ltb n (2 ^ 31) then 2 * n else 2 * (u32 - n) - 1)
unfolding zigzag_encode32
zigzag_encode32_lem n h = ground (arith, xor_zero (n * 2 % u32), xor_ones 32 (n * 2 % u32))

zigzag_decode32_lem :
    (n : ℕ) → n < u32 → zigzag_decode32 n ≡ (if n % 2 == 0 then n / 2 else u32 - 1 - n / 2)
unfolding zigzag_decode32
zigzag_decode32_lem n h = elim (Bool-cases (n % 2 == 0)) [
  | inl even ↦
      let zeros : (u32 - n % 2) % u32 ≡ 0 = ground arith in rw (zeros, even) (xor_zero (n / 2))
  | inr odd ↦
      let ones : (u32 - n % 2) % u32 ≡ 2 ^ 32 - 1 = ground arith in
      rw (ones, odd) (omega (arith, xor_ones 32 (n / 2) (omega arith)))
]

pub zigzag_encode32-lt : (n : ℕ) → n < u32 → zigzag_encode32 n < u32
zigzag_encode32-lt n h = ground (arith, zigzag_encode32_lem n h)

-- For every int32_t the zigzag code decodes to it, and every uint32_t is the code of what it
-- decodes to: the two maps are inverse to one another.
pub zigzag32_inverse :
    (n : ℕ)
    → n < u32
    → (zigzag_decode32 (zigzag_encode32 n) ≡ n) × (zigzag_encode32 (zigzag_decode32 n) ≡ n)
zigzag32_inverse n h = (
  ground (arith, zigzag_encode32_lem n h, zigzag_decode32_lem (zigzag_encode32 n)),
  ground (arith, zigzag_decode32_lem n h, zigzag_encode32_lem (zigzag_decode32 n)),
)

-- The same for 64 bits.
encode64_lem :
    (n : ℕ) → n < u64 → encode64 n ≡ (if ltb n (2 ^ 63) then 2 * n else 2 * (u64 - n) - 1)
unfolding encode64
encode64_lem n h = ground (arith, xor_zero (n * 2 % u64), xor_ones 64 (n * 2 % u64))

decode64_lem : (n : ℕ) → n < u64 → decode64 n ≡ (if n % 2 == 0 then n / 2 else u64 - 1 - n / 2)
unfolding decode64
decode64_lem n h = elim (Bool-cases (n % 2 == 0)) [
  | inl even ↦
      let zeros : (u64 - n % 2) % u64 ≡ 0 = ground arith in rw (zeros, even) (xor_zero (n / 2))
  | inr odd ↦
      let ones : (u64 - n % 2) % u64 ≡ 2 ^ 64 - 1 = ground arith in
      rw (ones, odd) (omega (arith, xor_ones 64 (n / 2) (omega arith)))
]

pub encode64-lt : (n : ℕ) → n < u64 → encode64 n < u64
encode64-lt n h = ground (arith, encode64_lem n h)

-- For every int64_t the zigzag code decodes to it, and every uint64_t is the code of what it
-- decodes to: the two maps are inverse to one another.
pub zigzag64_inverse : (n : ℕ) → n < u64 → (decode64 (encode64 n) ≡ n) × (encode64 (decode64 n) ≡ n)
zigzag64_inverse n h = (
  ground (arith, encode64_lem n h, decode64_lem (encode64 n)),
  ground (arith, decode64_lem n h, encode64_lem (decode64 n)),
)
