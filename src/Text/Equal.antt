-- ===== src/Text/Equal.antt =====
-- zcrtlib/zstr.c: when two strings compare equal.
use zcrt.Base.{
  ltb, ◌==◌, if◌then◌else◌, Bool-cases, length, get_or, take, drop, length-take, All, ℕ, suc, ◌+◌,
  ◌-◌, ◌%◌, ◌^◌, ◌≤◌, ◌<◌, ◌≡◌, refl, sym, ap, ◌∙◌, ◌≢◌, ◌↔◌, inl, inr, Bool, true, false, some,
  List, [], ◌∷◌, ◌++◌, arith,
}
use Prim.Native.Nat.{Ordering, lt, eq, gt}
use zcrt.Buf.{u32}
use zcrt.Text.{strncmp, sign_int, str_cmp, str_buf_cmp, is_eq}

abbrev pub NonZero : ℕ → Type 0
NonZero c = c ≢ 0

-- Against a C string, strncmp finds equality exactly if the first bytes are those of the string.
strncmp-take :
    (buf ptr : List ℕ)
    → All NonZero buf
    → length buf ≤ length ptr
    → (o : Ordering) × (strncmp (length buf) ptr (buf ++ (0 ∷ [])) ≡ some o)
      × ((is_eq o ≡ true) ↔ (take (length buf) ptr ≡ buf))
unfolding strncmp
strncmp-take [] ptr h fits = (eq, refl, ((λ e. refl), (λ e. refl)))
strncmp-take (c ∷ buf) [] h fits = absurd (omega arith)
strncmp-take (c ∷ buf) (x ∷ ptr) h fits = elim (Bool-cases (x == c)) [
  | inl same ↦
      let given = h.0 in
      let e : x ≡ c = ground arith in
      let nonzero : (x == 0) ≡ false = ground arith in
      let (o, run, (to, from)) = strncmp-take buf ptr h.1 (omega arith) in
      (
        o,
        rw (same, nonzero, run),
        ((λ y. rw e (ap (λ l. c ∷ l) (to y))), (λ y. from (ap (drop 1) y))),
      )
  | inr other ↦ (
    (if ltb x c then lt else gt),
    rw other,
    ((λ y. not_eq (ltb x c) y), (λ y. let e : x ≡ c = ap (λ l. get_or l 0 0) y in ground arith)),
  )
]
  where
    not_eq : {P : Type 0} (b : Bool) → is_eq (if b then lt else gt) ≡ true → P
    not_eq true e = cc
    not_eq false e = cc

-- A counted string equals a C string, whose bytes are not 0, exactly if it has the same bytes; then
-- the comparison reads nothing outside the block.
pub str_buf_cmp-eq :
    (len : ℕ) (ptr buf : List ℕ)
    → All NonZero buf
    → len ≤ length ptr
    → len < u32
    → length buf < u32
    → (o : Ordering) × (str_buf_cmp len ptr buf ≡ some o)
      × ((is_eq o ≡ true) ↔ (take len ptr ≡ buf))
unfolding str_buf_cmp
str_buf_cmp-eq len ptr buf h fits small small' = elim (Bool-cases (len == length buf)) [
  | inl same ↦
      let e : len ≡ length buf = ground arith in
      let (o, run, (to, from)) = strncmp-take buf ptr h (omega arith) in
      (
        o,
        rw same (ap (λ n. strncmp n ptr (buf ++ (0 ∷ []))) e ∙ run),
        ((λ y. ap (λ n. take n ptr) e ∙ to y), (λ y. from (ap (λ n. take n ptr) (sym e) ∙ y))),
      )
  | inr other ↦
      let n = (len + u32 - length buf) % u32 in
      let nonzero : (n == 0) ≡ false = ground arith in
      (
        sign_int n,
        rw other,
        (
          (λ y. sign_not_eq n nonzero y),
          (λ y. let size = ap length y in let cut = length-take len ptr in ground arith),
        ),
      )
]
  where
    not_eq :
        {P : Type 0} (b c : Bool)
        → b ≡ false
        → is_eq (if b then eq else if c then gt else lt) ≡ true
        → P
    not_eq true c e y = cc
    not_eq false true e y = cc
    not_eq false false e y = cc

    sign_not_eq : {P : Type 0} (n : ℕ) → (n == 0) ≡ false → is_eq (sign_int n) ≡ true → P
    sign_not_eq n e y = not_eq (n == 0) (ltb n (2 ^ 31)) e y

-- What stands behind a common 0 is not looked at.
strncmp-zero :
    (xs ys zs : List ℕ) (k : ℕ)
    → All NonZero xs
    → strncmp (suc (length xs + k)) (xs ++ (0 ∷ ys)) (xs ++ (0 ∷ zs)) ≡ some eq
unfolding strncmp
strncmp-zero [] ys zs k h = refl
strncmp-zero (x ∷ xs) ys zs k h =
    let given = h.0 in
    let same : (x == x) ≡ true = ground arith in
    let nonzero : (x == 0) ≡ false = ground arith in
    let next : length (x ∷ xs) + k ≡ suc (length xs + k) = omega arith in
    rw (same, nonzero, next) (strncmp-zero xs ys zs k h.1)

-- Two counted strings of the same length that agree up to a common 0 byte compare equal, whatever
-- stands behind it.
pub str_cmp-zero :
    (front back back' : List ℕ)
    → All NonZero front
    → length back ≡ length back'
    → let n = length front + 1 + length back in
      str_cmp n (front ++ (0 ∷ back)) n (front ++ (0 ∷ back')) ≡ some eq
unfolding str_cmp
str_cmp-zero front back back' h same =
    let n = length front + 1 + length back in
    let self : (n == n) ≡ true = ground arith in
    let split : n ≡ suc (length front + length back) = omega arith in
    rw (self, split) (strncmp-zero front back back' (length back) h)
