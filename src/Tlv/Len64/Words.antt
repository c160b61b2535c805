-- ===== src/Tlv/Len64/Words.antt =====
-- zipc/zipc_tlv.c, `zcdr_ReadLEN64`: the steps for one word, over the groups of a number.
use zcrt.Base.{
  ltb, ◌==◌, ltb→lt, Bool-cases, length, drop, get_elem?-drop, drop_next, ℕ, zero, suc, ◌+◌, ◌-◌,
  ◌*◌, ◌/◌, ◌%◌, ◌^◌, ◌≤◌, ◌<◌, bit_and, ◌≡◌, sym, ap, ◌∙◌, inl, inr, true, false, some, List, ◌∷◌,
  ◌++◌, arith,
}
use zcrt.Base.Bits.{or_shifted, and_low, and_top}
use native.Mathlib.Nat.{pow-suc, one-le-pow, add-zero}
use mathlib.Core.Path.{ap₂}
use zcrt.Tlv.Len.Groups.{groups, groups_small, groups_big, length-groups}
use zcrt.Tlv.Len.Read.{split_low, low_fits}
use zcrt.Tlv.Len64.{ended, further, read_word}

-- One step on a last byte, and on one with the top bit set over `g`.
word_last :
    (k : ℕ) (block : List ℕ) (pos reads shift acc w : ℕ) (rest : List ℕ)
    → drop pos block ≡ w ∷ rest
    → 1 ≤ reads
    → w < 128
    → acc < 2 ^ shift
    → read_word (suc k) block pos reads shift acc ≡ some (ended (acc + w * 2 ^ shift) (pos + 1))
unfolding read_word
word_last k block pos reads shift acc w rest at more small low =
    let last : (bit_and w 0x80 == 0) ≡ true = ground (arith, and_top w) in
    let seven : bit_and w 0x7f ≡ w = and_low w (omega arith) ∙ omega arith in
    rw (get_elem?-drop pos block at, last, seven, or_shifted shift acc w low) (ground arith)

word_inner :
    (k : ℕ) (block : List ℕ) (pos reads shift acc g : ℕ) (rest : List ℕ)
    → drop pos block ≡ (g + 128) ∷ rest
    → 1 ≤ reads
    → g < 128
    → acc < 2 ^ shift
    → read_word (suc k) block pos reads shift acc
      ≡ read_word k block (pos + 1) (reads - 1) (shift + 7) (acc + g * 2 ^ shift)
unfolding read_word
word_inner k block pos reads shift acc g rest at more small low =
    let last : (bit_and (g + 128) 0x80 == 0) ≡ false = ground (arith, and_top (g + 128)) in
    let seven : bit_and (g + 128) 0x7f ≡ g = and_low (g + 128) (omega arith) ∙ omega arith in
    rw (get_elem?-drop pos block at, last, seven, or_shifted shift acc g low) (ground arith)

-- A number in one byte.
word_small :
    (k m w : ℕ) (block : List ℕ) (pos reads shift acc : ℕ) (rest : List ℕ)
    → w < 128
    → drop pos block ≡ groups m w ++ rest
    → length (groups m w) ≤ reads
    → acc < 2 ^ shift
    → read_word (suc k) block pos reads shift acc
      ≡ some (ended (acc + w * 2 ^ shift) (pos + length (groups m w)))
word_small k m w block pos reads shift acc rest small at enough low =
    let bytes = groups_small m w small in
    word_last k block pos reads shift acc w rest (at ∙ ap (λ l. l ++ rest) bytes)
      (omega (arith, length-groups m w)) small low
    ∙ ap (λ l. some (ended (acc + w * 2 ^ shift) (pos + length l))) (sym bytes)

-- A number that ends within the word.
pub word_ends :
    (k m w : ℕ) (block : List ℕ) (pos reads shift acc : ℕ) (rest : List ℕ)
    → k ≤ m
    → drop pos block ≡ groups m w ++ rest
    → length (groups m w) ≤ reads
    → w < 128 ^ suc k
    → acc < 2 ^ shift
    → read_word (suc k) block pos reads shift acc
      ≡ some (ended (acc + w * 2 ^ shift) (pos + length (groups m w)))
word_ends zero m w block pos reads shift acc rest hm at enough small low =
    word_small zero m w block pos reads shift acc rest (omega arith) at enough low
word_ends (suc k) zero w block pos reads shift acc rest hm at enough small low =
    absurd (omega arith)
word_ends (suc k) (suc m) w block pos reads shift acc rest hm at enough small low =
    elim (Bool-cases (ltb w 128)) [
      | inl last ↦
          word_small (suc k) (suc m) w block pos reads shift acc rest (ltb→lt w 128 last) at enough
            low
      | inr inner ↦
          let big : 128 ≤ w = ground arith in
          let bytes = groups_big m w big in
          let tail = groups m (w / 128) in
          let here : drop pos block ≡ (w % 128 + 128) ∷ (tail ++ rest) =
            at ∙ ap (λ l. l ++ rest) bytes in
          let size : length (groups (suc m) w) ≡ length tail + 1 = rw bytes (omega arith) in
          word_inner (suc k) block pos reads shift acc (w % 128) (tail ++ rest) here
            (omega (arith, length-groups (suc m) w)) (omega arith) low
          ∙ word_ends k m (w / 128) block (pos + 1) (reads - 1) (shift + 7)
              (acc + w % 128 * 2 ^ shift) rest (omega arith) (drop_next pos block here)
              (omega arith) (omega (arith, pow-suc 128 (suc k)))
              (low_fits (w % 128) acc shift (omega arith) low)
          ∙ ground (arith, split_low w shift, size)
    ]

le_mul : (a b : ℕ) → 1 ≤ a → 1 * b ≤ a * b
le_mul a b h = grind arith

-- A number that goes on behind the word: `lo` is in the word, `hi` still to be read.
pub word_goes_on :
    (k m n lo hi : ℕ) (block : List ℕ) (pos reads shift acc : ℕ) (rest : List ℕ)
    → n ≡ k + m
    → lo < 128 ^ k
    → 1 ≤ hi
    → drop pos block ≡ groups n (lo + 128 ^ k * hi) ++ rest
    → length (groups n (lo + 128 ^ k * hi)) ≤ reads
    → acc < 2 ^ shift
    → (read_word k block pos reads shift acc
        ≡ some (further (acc + lo * 2 ^ shift) (pos + k) (reads - k)))
      × (drop (pos + k) block ≡ groups m hi ++ rest)
      × (length (groups n (lo + 128 ^ k * hi)) ≡ k + length (groups m hi))
word_goes_on zero m n lo hi block pos reads shift acc rest same low one at enough fits =
    let value : lo + 128 ^ 0 * hi ≡ hi = omega arith in
    let bytes : groups n (lo + 128 ^ 0 * hi) ≡ groups m hi =
      rw value (ap (λ k. groups k hi) (omega arith)) in
    (
      unfold read_word in ground arith,
      ap (λ p. drop p block) (add-zero pos) ∙ at ∙ ap (λ l. l ++ rest) bytes,
      rw bytes (omega arith),
    )
word_goes_on (suc k) m zero lo hi block pos reads shift acc rest same low one at enough fits =
    absurd (omega arith)
word_goes_on (suc k) m (suc n) lo hi block pos reads shift acc rest same low one at enough fits =
    let w = lo + 128 ^ suc k * hi in
    let pow : 128 ^ suc k ≡ 128 * 128 ^ k = omega (arith, pow-suc 128 k) in
    let pos_pow : 1 ≤ 128 ^ k = one-le-pow k 128 (omega arith) in
    let scaled : 128 ^ suc k * hi ≡ 128 * (128 ^ k * hi) = rw pow (omega arith) in
    let room : 1 ≤ 128 ^ k * hi = omega (arith, le_mul (128 ^ k) hi pos_pow) in
    let big : 128 ≤ w = omega arith in
    let upper : w / 128 ≡ lo / 128 + 128 ^ k * hi = omega arith in
    let lowest : w % 128 ≡ lo % 128 = omega arith in
    let bytes : groups (suc n) w ≡ (lo % 128 + 128) ∷ groups n (lo / 128 + 128 ^ k * hi) =
      groups_big n w big ∙ ap₂ (λ g u. (g + 128) ∷ groups n u) lowest upper in
    let tail = groups n (lo / 128 + 128 ^ k * hi) in
    let here : drop pos block ≡ (lo % 128 + 128) ∷ (tail ++ rest) =
      at ∙ ap (λ l. l ++ rest) bytes in
    let head : length (groups (suc n) w) ≡ length tail + 1 = rw bytes (omega arith) in
    let (run, after, size) =
      word_goes_on k m n (lo / 128) hi block (pos + 1) (reads - 1) (shift + 7)
        (acc + lo % 128 * 2 ^ shift) rest (omega arith) (omega arith) one (drop_next pos block here)
        (omega arith) (low_fits (lo % 128) acc shift (omega arith) fits) in
    (
      word_inner k block pos reads shift acc (lo % 128) (tail ++ rest) here (omega arith)
            (omega arith) fits
          ∙ run
          ∙ ground (arith, split_low lo shift),
      ap (λ p. drop p block) (omega arith) ∙ after,
      rw bytes (omega arith),
    )
