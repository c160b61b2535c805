-- ===== src/Tlv/Len64/Read.antt =====
-- zipc/zipc_tlv.c: `zcdr_ReadLEN64` on groups that stand in the buffer.
use zcrt.Base.{
  ltb, ◌==◌, ltb→lt, Bool-cases, ◌>>=◌, length, drop, get_elem?-drop, drop_next, ℕ, ◌+◌, ◌-◌, ◌*◌,
  ◌/◌, ◌%◌, ◌^◌, ◌≤◌, ◌<◌, bit_and, ◌≡◌, refl, ap, ◌∙◌, inl, inr, true, false, some, List, ◌∷◌,
  ◌++◌, arith,
}
use zcrt.Base.Bits.{or_shifted, and_low, and_top}
use zcrt.Buf.{ZBuf, IsValid, unread}
use zcrt.Buf.Reading.{skip, unread_fits, unread_block}
use zcrt.Tlv.Zigzag.{u64, encode64, zigzag64_inverse, encode64-lt}
use zcrt.Tlv.Len.{allowed_reads, left}
use zcrt.Tlv.Len.Groups.{groups, groups_small, groups_big}
use zcrt.Tlv.Len.Overread.{left_reads}
use zcrt.Tlv.Len64.{ended, read_top, join_words, read_len64, read_var_int64}
use zcrt.Tlv.Len64.Words.{word_ends, word_goes_on}

-- The third word, which has at most eight bits.
top_lem :
    (w : ℕ) (block : List ℕ) (pos reads : ℕ) (rest : List ℕ)
    → w < 256
    → drop pos block ≡ groups 1 w ++ rest
    → length (groups 1 w) ≤ reads
    → read_top block pos reads ≡ some (ended w (pos + length (groups 1 w)))
unfolding read_top
top_lem w block pos reads rest small at enough = elim (Bool-cases (ltb w 128)) [
  | inl last ↦
      let bytes = groups_small 1 w (ltb→lt w 128 last) in
      let here = at ∙ ap (λ l. l ++ rest) bytes in
      let stop : (bit_and w 0x80 == 0) ≡ true = ground (arith, and_top w) in
      let seven : bit_and w 0x7f ≡ w = and_low w small ∙ ground arith in
      rw (bytes, get_elem?-drop pos block here, ◌>>=◌, stop, seven)
  | inr inner ↦
      let big : 128 ≤ w = ground arith in
      let bytes = groups_big 0 w big in
      let tail = groups 0 (w / 128) in
      let here : drop pos block ≡ (w % 128 + 128) ∷ (tail ++ rest) =
        at ∙ ap (λ l. l ++ rest) bytes in
      let size : length (groups 1 w) ≡ length tail + 1 = rw bytes (omega arith) in
      let b = w % 128 + 128 in
      let go_on : (bit_and b 0x80 == 0) ≡ false = ground (arith, and_top b) in
      let seven : bit_and b 0x7f ≡ w % 128 = and_low b (omega arith) ∙ omega arith in
      rw (get_elem?-drop pos block here, ◌>>=◌, go_on, seven)
        (word_ends 0 0 (w / 128) block (pos + 1) reads 7 (w % 128) rest (omega arith)
            (drop_next pos block here) (omega arith) (omega arith) (omega arith)
          ∙ ground (arith, size))
]

joined :
    (r0 r1 r2 : ℕ)
    → r0 < 2 ^ 28
    → r1 < 2 ^ 28
    → r2 < 2 ^ 8
    → join_words r0 r1 r2 ≡ r0 + r1 * 2 ^ 28 + r2 * 2 ^ 56
joined r0 r1 r2 h0 h1 h2 =
    let fits : r2 * 2 ^ 56 % u64 ≡ r2 * 2 ^ 56 = omega arith in
    rw (or_shifted 28 r0 r1 h0, fits) (or_shifted 56 (r0 + r1 * 2 ^ 28) r2 (omega arith))

-- A number of one, two and three words.
module _ (block : List ℕ) (pos limit : ℕ) (rest : List ℕ) where
  one_word :
      (w : ℕ)
      → w < 2 ^ 28
      → drop pos block ≡ groups 9 w ++ rest
      → length (groups 9 w) ≤ allowed_reads limit
      → read_len64 block pos limit ≡ some (some (w, pos + length (groups 9 w)))
  unfolding read_len64
  one_word w small at enough =
      let run =
        word_ends 3 9 w block pos (allowed_reads limit) 0 0 rest (omega arith) at enough
          (omega arith) (omega arith) in
      let value : 0 + w * 2 ^ 0 ≡ w = omega arith in
      rw (run, ◌>>=◌, value, joined w 0 0 small (omega arith) (omega arith)) (ground arith)

  two_words :
      (lo hi : ℕ)
      → lo < 2 ^ 28
      → 1 ≤ hi
      → hi < 2 ^ 28
      → drop pos block ≡ groups 9 (lo + 2 ^ 28 * hi) ++ rest
      → length (groups 9 (lo + 2 ^ 28 * hi)) ≤ allowed_reads limit
      → read_len64 block pos limit
        ≡ some (some (lo + 2 ^ 28 * hi, pos + length (groups 9 (lo + 2 ^ 28 * hi))))
  unfolding read_len64
  two_words lo hi small one bound at enough =
      let reads = allowed_reads limit in
      let (run, after, size) =
        word_goes_on 4 5 9 lo hi block pos reads 0 0 rest refl small one at enough (omega arith) in
      let run' =
        word_ends 3 5 hi block (pos + 4) (reads - 4) 0 0 rest (omega arith) after (omega arith)
          bound (omega arith) in
      let low : 0 + lo * 2 ^ 0 ≡ lo = omega arith in
      let high : 0 + hi * 2 ^ 0 ≡ hi = omega arith in
      rw (run, ◌>>=◌, run', low, high, joined lo hi 0 small bound (omega arith))
        (ground (arith, size))

  three_words :
      (lo mid hi : ℕ)
      → lo < 2 ^ 28
      → mid < 2 ^ 28
      → 1 ≤ hi
      → hi < 2 ^ 8
      → drop pos block ≡ groups 9 (lo + 2 ^ 28 * (mid + 2 ^ 28 * hi)) ++ rest
      → length (groups 9 (lo + 2 ^ 28 * (mid + 2 ^ 28 * hi))) ≤ allowed_reads limit
      → read_len64 block pos limit
        ≡ some (
            some (
              lo + 2 ^ 28 * (mid + 2 ^ 28 * hi),
              pos + length (groups 9 (lo + 2 ^ 28 * (mid + 2 ^ 28 * hi))),
            ))
  unfolding read_len64
  three_words lo mid hi small small' one bound at enough =
      let reads = allowed_reads limit in
      let (run, after, size) =
        word_goes_on 4 5 9 lo (mid + 2 ^ 28 * hi) block pos reads 0 0 rest refl small (omega arith)
          at enough (omega arith) in
      let (run', after', size') =
        word_goes_on 4 1 5 mid hi block (pos + 4) (reads - 4) 0 0 rest refl small' one after
          (omega arith) (omega arith) in
      let run'' = top_lem hi block (pos + 4 + 4) (reads - 4 - 4) rest bound after' (omega arith) in
      let low : 0 + lo * 2 ^ 0 ≡ lo = omega arith in
      let middle : 0 + mid * 2 ^ 0 ≡ mid = omega arith in
      rw (run, ◌>>=◌, run', run'', low, middle, joined lo mid hi small small' bound)
        (ground (arith, size, size'))

  pub read_len64-groups :
      (w : ℕ)
      → w < u64
      → drop pos block ≡ groups 9 w ++ rest
      → length (groups 9 w) ≤ allowed_reads limit
      → read_len64 block pos limit ≡ some (some (w, pos + length (groups 9 w)))
  read_len64-groups w small at enough = elim (Bool-cases (ltb w (2 ^ 28))) [
    | inl short ↦ one_word w (ltb→lt w (2 ^ 28) short) at enough
    | inr long ↦ elim (Bool-cases (ltb w (2 ^ 56))) [
      | inl medium ↦
          let parts : w % 2 ^ 28 + 2 ^ 28 * (w / 2 ^ 28) ≡ w = omega arith in
          rw parts at (
            two_words (w % 2 ^ 28) (w / 2 ^ 28) (omega arith) (ground arith) (ground arith)
              (rw parts at) (rw parts enough))
      | inr longest ↦
          let parts : w % 2 ^ 28 + 2 ^ 28 * (w / 2 ^ 28 % 2 ^ 28 + 2 ^ 28 * (w / 2 ^ 56)) ≡ w =
            omega arith in
          rw parts at (
            three_words (w % 2 ^ 28) (w / 2 ^ 28 % 2 ^ 28) (w / 2 ^ 56) (omega arith) (omega arith)
              (ground arith) (ground arith) (rw parts at) (rw parts enough))
    ]
  ]

-- Where the groups of a zigzag code stand at the read position of a well-formed buffer of less than
-- 2 ^ 31 bytes, `ztlv_read_var_int64` returns true with the int64_t and stops just behind them.
pub read_var_int64-groups :
    (v : ZBuf) (n : ℕ) (rest : List ℕ)
    → IsValid v
    → v.len < 2 ^ 31
    → n < u64
    → unread v ≡ groups 9 (encode64 n) ++ rest
    → read_var_int64 v ≡ some (skip v (length (groups 9 (encode64 n))), some n)
unfolding read_var_int64
read_var_int64-groups v n rest valid int small at =
    let code = encode64 n in
    let run =
      read_len64-groups v.buf v.offset (left v) (rest ++ drop v.len v.buf) code
        (encode64-lt n small) (unread_block v valid (groups 9 code) rest at)
        (omega (arith, left_reads v valid int, unread_fits v valid (groups 9 code) rest at)) in
    rw (run, ◌>>=◌, (zigzag64_inverse n small).0)
