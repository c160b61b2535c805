-- ===== src/Tlv/Len/Read.antt =====
-- zipc/zipc_tlv.c: reading seven-bit groups that stand in the buffer.
use zcrt.Base.{
  ltb, ◌==◌, ltb→lt, Bool-cases, ◌>>=◌, length, drop, get_elem?-drop, drop_next, ℕ, zero, suc, ◌+◌,
  ◌-◌, ◌*◌, ◌/◌, ◌%◌, ◌^◌, ◌≤◌, ◌<◌, bit_and, bit_or, ◌≡◌, ap, ◌∙◌, inl, inr, true, false, some,
  List, ◌∷◌, ◌++◌, arith,
}
use zcrt.Base.Bits.{or_shifted, and_low, and_top}
use native.Mathlib.Nat.{pow-suc}
use native.Mathlib.Numerals.{towards_suc}
use zcrt.Buf.{ZBuf, IsValid, u32, unread}
use zcrt.Buf.Reading.{skip, unread_block, unread_fits}
use zcrt.Tlv.Zigzag.{zigzag_encode32, zigzag32_inverse, zigzag_encode32-lt}
use zcrt.Tlv.Len.{group, read_stages, allowed_reads, tlv_read_len, left, get_len, read_var_int}
use zcrt.Tlv.Len.Groups.{groups, groups_small, groups_big, length-groups}

-- The next byte is `b`: what one step does.
stage_last :
    (k : ℕ) (block : List ℕ) (pos reads shift acc b : ℕ) (rest : List ℕ)
    → drop pos block ≡ b ∷ rest
    → 1 ≤ reads
    → b < 128
    → read_stages (suc k) block pos reads shift acc
      ≡ some (bit_or acc (group k b shift), some (pos + 1))
unfolding read_stages
stage_last k block pos reads shift acc b rest at more small =
    let last : (bit_and b 0x80 == 0) ≡ true = ground (arith, and_top b) in
    rw (get_elem?-drop pos block at, last) (ground arith)

stage_inner :
    (k : ℕ) (block : List ℕ) (pos reads shift acc b : ℕ) (rest : List ℕ)
    → drop pos block ≡ b ∷ rest
    → 1 ≤ reads
    → 128 ≤ b
    → b < 256
    → read_stages (suc k) block pos reads shift acc
      ≡ read_stages k block (pos + 1) (reads - 1) (shift + 7) (bit_or acc (group k b shift))
unfolding read_stages
stage_inner k block pos reads shift acc b rest at more big byte =
    let last : (bit_and b 0x80 == 0) ≡ false = ground (arith, and_top b) in
    rw (get_elem?-drop pos block at, last) (ground arith)

-- A last byte that fits adds its value, in whichever stage.
group_small : (k w shift : ℕ) → w < 128 → w * 2 ^ shift < u32 → group k w shift ≡ w * 2 ^ shift
group_small zero w shift h fits = omega arith
group_small (suc k) w shift h fits =
    rw (and_low w (omega arith)) (ap (λ t. t * 2 ^ shift) (omega arith))

pub shift_seven : (s : ℕ) → 2 ^ (s + 7) ≡ 128 * 2 ^ s
shift_seven s = simp towards_suc (omega arith)

-- The lowest seven bits and the bits above, both shifted by `s`.
pub split_low : (w s : ℕ) → w * 2 ^ s ≡ w % 128 * 2 ^ s + w / 128 * 2 ^ (s + 7)
split_low w s =
    let parts : w ≡ w % 128 + 128 * (w / 128) = omega arith in
    omega (arith, ap (λ (t : ℕ). t * 2 ^ s) parts, ap (λ (t : ℕ). w / 128 * t) (shift_seven s))

pub low_fits : (g acc s : ℕ) → g < 128 → acc < 2 ^ s → acc + g * 2 ^ s < 2 ^ (s + 7)
low_fits g acc s h a =
    let bound : (g + 1) * 2 ^ s ≤ 128 * 2 ^ s = grind arith in omega (arith, shift_seven s)

-- The whole number `w` in one byte.
one_byte :
    (k w : ℕ) (block : List ℕ) (pos reads shift acc : ℕ) (rest : List ℕ)
    → drop pos block ≡ w ∷ rest
    → 1 ≤ reads
    → w < 128
    → acc < 2 ^ shift
    → acc + w * 2 ^ shift < u32
    → read_stages (suc k) block pos reads shift acc ≡ some (acc + w * 2 ^ shift, some (pos + 1))
one_byte k w block pos reads shift acc rest at enough small low fits =
    stage_last k block pos reads shift acc w rest at enough small
    ∙ ap (λ r. some (r, some (pos + 1)))
        (ap (bit_or acc) (group_small k w shift small (omega arith)) ∙ or_shifted shift acc w low)

-- A byte with the top bit set over the seven bits `g`.
inner_byte :
    (k g : ℕ) (block : List ℕ) (pos reads shift acc : ℕ) (rest : List ℕ)
    → drop pos block ≡ (g + 128) ∷ rest
    → 1 ≤ reads
    → g < 128
    → acc < 2 ^ shift
    → read_stages (suc (suc k)) block pos reads shift acc
      ≡ read_stages (suc k) block (pos + 1) (reads - 1) (shift + 7) (acc + g * 2 ^ shift)
inner_byte k g block pos reads shift acc rest at enough small low =
    let seven : bit_and (g + 128) 0x7f ≡ g = and_low (g + 128) (omega arith) ∙ omega arith in
    stage_inner (suc k) block pos reads shift acc (g + 128) rest at enough (omega arith)
      (omega arith)
    ∙ ap (read_stages (suc k) block (pos + 1) (reads - 1) (shift + 7))
        (ap (λ t. bit_or acc (t * 2 ^ shift)) seven ∙ or_shifted shift acc g low)

-- From stage `shift / 7` on, the reader adds up the groups of `w` and stops behind them.
read_stages-groups :
    (k w : ℕ) (block : List ℕ) (pos reads shift acc : ℕ) (rest : List ℕ)
    → drop pos block ≡ groups k w ++ rest
    → length (groups k w) ≤ reads
    → w < 128 ^ suc k
    → acc < 2 ^ shift
    → acc + w * 2 ^ shift < u32
    → read_stages (suc k) block pos reads shift acc
      ≡ some (acc + w * 2 ^ shift, some (pos + length (groups k w)))
read_stages-groups zero w block pos reads shift acc rest at enough small low fits =
    unfold groups in one_byte zero w block pos reads shift acc rest at enough (omega arith) low fits
read_stages-groups (suc k) w block pos reads shift acc rest at enough small low fits =
    elim (Bool-cases (ltb w 128)) [
      | inl last ↦
          let bytes = groups_small (suc k) w (ltb→lt w 128 last) in
          rw bytes (
            one_byte (suc k) w block pos reads shift acc rest (at ∙ ap (λ l. l ++ rest) bytes)
              (omega (arith, length-groups (suc k) w)) (ltb→lt w 128 last) low fits)
      | inr inner ↦
          let big : 128 ≤ w = ground arith in
          let bytes = groups_big k w big in
          let tail = groups k (w / 128) in
          let here : drop pos block ≡ (w % 128 + 128) ∷ (tail ++ rest) =
            at ∙ ap (λ l. l ++ rest) bytes in
          let sum = split_low w shift in
          let size : length (groups (suc k) w) ≡ length tail + 1 = rw bytes (omega arith) in
          inner_byte k (w % 128) block pos reads shift acc (tail ++ rest) here
            (omega (arith, length-groups (suc k) w)) (omega arith) low
          ∙ read_stages-groups k (w / 128) block (pos + 1) (reads - 1) (shift + 7)
              (acc + w % 128 * 2 ^ shift) rest (drop_next pos block here) (omega arith)
              (omega (arith, pow-suc 128 (suc k))) (low_fits (w % 128) acc shift (omega arith) low)
              (omega arith)
          ∙ ground (arith, sum, size)
    ]

tlv_read_len-groups :
    (n : ℕ) (block : List ℕ) (pos limit : ℕ) (rest : List ℕ)
    → n < u32
    → drop pos block ≡ groups 4 n ++ rest
    → length (groups 4 n) ≤ allowed_reads limit
    → tlv_read_len block pos limit ≡ some (n, some (pos + length (groups 4 n)))
unfolding tlv_read_len
tlv_read_len-groups n block pos limit rest small at enough =
    read_stages-groups 4 n block pos (allowed_reads limit) 0 0 rest at enough (omega arith)
      (omega arith) (omega arith)
    ∙ ground arith

-- A buffer on whose unread part the groups of `n` stand lets the reader read them all.
module _ (v : ZBuf) (n : ℕ) (rest : List ℕ) (valid : IsValid v) (int : v.len < 2 ^ 31)
    (small : n < u32) (at : unread v ≡ groups 4 n ++ rest) where
  enough_left : length (groups 4 n) ≤ allowed_reads (left v)
  unfolding allowed_reads
  enough_left =
      let fits = unread_fits v valid (groups 4 n) rest at in
      let same : left v ≡ v.len - v.offset =
        omega (arith, valid.fits, valid.narrow, valid.behind) in
      rw same (ground (arith, fits))

  reads_groups :
      tlv_read_len v.buf v.offset (left v) ≡ some (n, some (v.offset + length (groups 4 n)))
  reads_groups =
      tlv_read_len-groups n v.buf v.offset (left v) (rest ++ drop v.len v.buf) small
        (unread_block v valid (groups 4 n) rest at) enough_left

  -- Where the groups of a uint32_t stand at the read position of a well-formed buffer of less than
  -- 2 ^ 31 bytes,
  -- `ztlv_get_len` returns true with that number and moves the read position just behind them.
  pub get_len-groups : get_len v ≡ some (skip v (length (groups 4 n)), n, true)
  unfolding get_len
  get_len-groups = rw (reads_groups, ◌>>=◌)

module _ (v : ZBuf) (n : ℕ) (rest : List ℕ) (valid : IsValid v) (int : v.len < 2 ^ 31)
    (small : n < u32) (at : unread v ≡ groups 4 (zigzag_encode32 n) ++ rest) where
  -- Where the groups of the zigzag code of an int32_t stand at the read position of a well-formed
  -- buffer of less than 2 ^ 31 bytes, `ztlv_read_var_int` returns true with that number and moves the
  -- read position just behind them.
  pub read_var_int-groups :
      read_var_int v ≡ some (skip v (length (groups 4 (zigzag_encode32 n))), some n)
  unfolding read_var_int
  read_var_int-groups = rw (
    reads_groups v (zigzag_encode32 n) rest valid int (zigzag_encode32-lt n small) at,
    ◌>>=◌,
    (zigzag32_inverse n small).0,
  )
