-- ===== src/Base/Bits.antt =====
-- Bit operations as arithmetic, at every width.
use Prim.Native.Nat.{
  ℕ, zero, suc, ◌+◌, ◌-◌, ◌*◌, ◌/◌, ◌%◌, ◌^◌, ◌≤◌, ◌<◌, max, bit_and, bit_or, bit_xor,
}
use Prim.Native.Nat.{digits, differ, bit_or-bitwise, bit_xor-bitwise}
use mathlib.Core.Path.{◌≡◌, refl, ap}
use mathlib.Core.Bool.{Bool, true, ◌&&◌}
use native.Mathlib.Omega.{arith}
use native.Mathlib.Nat.{pow-suc, one-le-pow}
use zcrt.Base.Tests.{◌==◌}

-- Two runs of the digit recursion agree when both have fuel for the first number.
module _ (rest : ℕ → ℕ) (op : ℕ → ℕ → ℕ) where
  digits_enough : (n m a b : ℕ) → a ≤ n → a ≤ m → digits rest op n a b ≡ digits rest op m a b
  digits_enough n m zero b p q = agree n m
    where
      agree : (n m : ℕ) → digits rest op n zero b ≡ digits rest op m zero b
      agree zero zero = refl
      agree zero (suc m) = refl
      agree (suc n) zero = refl
      agree (suc n) (suc m) = refl
  digits_enough zero m (suc a) b p q = absurd (omega arith)
  digits_enough (suc n) zero (suc a) b p q = absurd (omega arith)
  digits_enough (suc n) (suc m) (suc a) b p q =
      omega (arith, digits_enough n m (suc a / 2) (b / 2) (omega arith) (omega arith))

-- The lowest bit, and the bits above it.
pub or_halves : (a b : ℕ) → bit_or a b ≡ 2 * bit_or (a / 2) (b / 2) + max (a % 2) (b % 2)
or_halves zero b = omega (arith, bit_or-bitwise 0 b, bit_or-bitwise 0 (b / 2))
or_halves (suc a) b = omega (
  arith,
  bit_or-bitwise (suc a) b,
  bit_or-bitwise (suc a / 2) (b / 2),
  digits_enough (λ y. y) max a (suc a / 2) (suc a / 2) (b / 2) (omega arith) (omega arith),
)

pub xor_halves : (a b : ℕ) → bit_xor a b ≡ 2 * bit_xor (a / 2) (b / 2) + differ (a % 2) (b % 2)
xor_halves zero b = omega (arith, bit_xor-bitwise 0 b, bit_xor-bitwise 0 (b / 2))
xor_halves (suc a) b = omega (
  arith,
  bit_xor-bitwise (suc a) b,
  bit_xor-bitwise (suc a / 2) (b / 2),
  digits_enough (λ y. y) differ a (suc a / 2) (suc a / 2) (b / 2) (omega arith) (omega arith),
)

differ_zero : (a : ℕ) → differ a 0 ≡ a
differ_zero zero = refl
differ_zero (suc a) = refl

differ_one : (a : ℕ) → a < 2 → differ a 1 ≡ 1 - a
differ_one zero h = refl
differ_one (suc zero) h = refl
differ_one (suc (suc a)) h = absurd (omega arith)

-- By recursion on a bound, since the halves are not subterms.
or_zero_below : (n a : ℕ) → a ≤ n → bit_or a 0 ≡ a
or_zero_below n zero h = refl
or_zero_below zero (suc a) h = absurd (omega arith)
or_zero_below (suc n) (suc a) h =
    omega (arith, or_halves (suc a) 0, or_zero_below n (suc a / 2) (omega arith))

pub or_zero : (a : ℕ) → bit_or a 0 ≡ a
or_zero a = or_zero_below a a (omega arith)

xor_zero_below : (n a : ℕ) → a ≤ n → bit_xor a 0 ≡ a
xor_zero_below n zero h = refl
xor_zero_below zero (suc a) h = absurd (omega arith)
xor_zero_below (suc n) (suc a) h = omega (
  arith,
  xor_halves (suc a) 0,
  differ_zero (suc a % 2),
  xor_zero_below n (suc a / 2) (omega arith),
)

pub xor_zero : (a : ℕ) → bit_xor a 0 ≡ a
xor_zero a = xor_zero_below a a (omega arith)

double_pow : (c k : ℕ) → c * 2 ^ suc k ≡ 2 * (c * 2 ^ k)
double_pow c k = omega (arith, ap (λ (t : ℕ). c * t) (pow-suc 2 k))

-- `low | (c << k)` is a sum when `low` fits `k` bits.
pub or_shifted : (k low c : ℕ) → low < 2 ^ k → bit_or low (c * 2 ^ k) ≡ low + c * 2 ^ k
or_shifted zero zero c h = omega (arith, bit_or-bitwise 0 (c * 2 ^ 0))
or_shifted zero (suc a) c h = absurd (omega arith)
or_shifted (suc k) low c h = ground (
  arith,
  or_halves low (c * 2 ^ suc k),
  double_pow c k,
  double_pow 1 k,
  or_shifted k (low / 2) c (omega (arith, double_pow 1 k)),
)

-- `x ^ ~0` in a word of `k` bits is the complement.
pub xor_ones : (k x : ℕ) → x < 2 ^ k → bit_xor x (2 ^ k - 1) + x ≡ 2 ^ k - 1
xor_ones zero zero h = refl
xor_ones zero (suc x) h = absurd (omega arith)
xor_ones (suc k) x h =
    let pow : 2 ^ suc k ≡ 2 * 2 ^ k = omega (arith, double_pow 1 k) in
    let pos : 1 ≤ 2 ^ k = one-le-pow k 2 (omega arith) in
    let upper : (2 ^ suc k - 1) / 2 ≡ 2 ^ k - 1 = omega arith in
    let lowest : (2 ^ suc k - 1) % 2 ≡ 1 = omega arith in
    rw (xor_halves, upper, lowest, differ_one (x % 2) (omega arith))
      (omega (arith, xor_ones k (x / 2) (omega arith)))

or_even : (a c : ℕ) → bit_or a (2 * c) ≡ 2 * bit_or (a / 2) c + a % 2
or_even a c = let half : 2 * c / 2 ≡ c = omega arith in rw (or_halves a (2 * c), half) (omega arith)

or_one : (a : ℕ) → bit_or a 1 ≡ a / 2 * 2 + 1
or_one a = rw (or_halves, or_zero) (omega arith)

-- A byte with its top bit set, of a number of any width.
pub or_top_bit : (v : ℕ) → bit_or v 0x80 % 256 ≡ v % 128 + 128
or_top_bit v = omega (
  arith,
  or_even (v) 64,
  or_even (v / 2) 32,
  or_even (v / 2 / 2) 16,
  or_even (v / 2 / 2 / 2) 8,
  or_even (v / 2 / 2 / 2 / 2) 4,
  or_even (v / 2 / 2 / 2 / 2 / 2) 2,
  or_even (v / 2 / 2 / 2 / 2 / 2 / 2) 1,
  or_one (v / 2 / 2 / 2 / 2 / 2 / 2 / 2),
)

module _ (f g : ℕ → ℕ) where
  same_below : ℕ → Bool
  same_below zero = true
  same_below (suc n) = (f n == g n) && same_below n

  same_below→eq : (n x : ℕ) → same_below n ≡ true → x < n → f x ≡ g x
  unfolding same_below
  same_below→eq zero x e h = absurd (omega arith)
  same_below→eq (suc n) x e h = ground (arith, same_below→eq n x)

pub and_low : (b : ℕ) → b < 256 → bit_and b 0x7f ≡ b % 128
unfolding same_below
and_low b h = same_below→eq (λ x. bit_and x 0x7f) (λ x. x % 128) 256 b refl h

pub and_top : (b : ℕ) → b < 256 → bit_and b 0x80 ≡ b / 128 * 128
unfolding same_below
and_top b h = same_below→eq (λ x. bit_and x 0x80) (λ x. x / 128 * 128) 256 b refl h
