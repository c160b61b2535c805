-- ===== src/Buf/Growth.antt =====
-- zcrtlib/zbuf.c, `zcrt_buf_realloc`: the doubling loop, and what it does to the block.
use zcrt.Base.{
  ltb, leb, ltb→lt, lt→leb, Bool-cases, length, take, length-append, length-take, length-fill,
  take-append, take-take, ℕ, zero, suc, ◌+◌, ◌*◌, ◌%◌, ◌^◌, ◌≤◌, ◌<◌, ◌≡◌, refl, ap, ◌∙◌, inl, inr,
  true, none, some, List, arith,
}
use native.Mathlib.Nat.{pow-suc, one-le-pow}
use zcrt.Buf.{Allocator, ZBuf, IsValid, u32, cap_fuel, contents}
use zcrt.Buf.{grow_cap, zcrt_realloc, buf_realloc}

-- `cap` is a power of two, `2 ^ (31 - d)`.
abbrev Doubles : ℕ → ℕ → Type 0
Doubles cap d = cap * 2 ^ d ≡ 2 ^ 31

Doubles-le : (cap d : ℕ) → Doubles cap d → cap ≤ 2 ^ 31
Doubles-le cap d e =
    let pos : 1 ≤ 2 ^ d = one-le-pow d 2 (omega arith) in
    let wide : cap * 1 ≤ cap * 2 ^ d = grind arith in omega arith

Doubles-suc : (cap d : ℕ) → Doubles cap (suc d) → Doubles (cap * 2 % u32) d
Doubles-suc cap d e =
    let twice : cap * 2 ^ suc d ≡ cap * 2 * 2 ^ d =
      omega (arith, ap (λ (t : ℕ). cap * t) (pow-suc 2 d)) in
    let same : cap * 2 % u32 ≡ cap * 2 = omega (arith, Doubles-le (cap * 2) d (omega arith)) in
    rw same (omega arith)

grow_cap_zero : (fuel limit : ℕ) → grow_cap fuel 0 limit ≡ none
unfolding grow_cap
grow_cap_zero zero limit = refl
grow_cap_zero (suc fuel) limit = rw (grow_cap_zero fuel limit) (ground arith)

grow_cap_stuck :
    (fuel cap d limit : ℕ) → Doubles cap d → 2 ^ 31 ≤ limit → grow_cap fuel cap limit ≡ none
unfolding grow_cap
grow_cap_stuck zero cap d limit e h = refl
grow_cap_stuck (suc fuel) cap zero limit e h =
    let wraps : cap * 2 % u32 ≡ 0 = omega arith in
    rw (wraps, grow_cap_zero fuel limit) (ground arith)
grow_cap_stuck (suc fuel) cap (suc d) limit e h =
    rw (grow_cap_stuck fuel (cap * 2 % u32) d limit (Doubles-suc cap d e) h)
      (ground (arith, Doubles-le cap (suc d) e))

grow_cap_ends :
    (fuel cap d limit : ℕ)
    → Doubles cap d
    → d < fuel
    → limit < 2 ^ 31
    → cap ≤ 2 * limit
    → (c : ℕ) × (grow_cap fuel cap limit ≡ some c) × (limit < c) × (c ≤ 2 * limit)
unfolding grow_cap
grow_cap_ends zero cap d limit e f h k = absurd (omega arith)
grow_cap_ends (suc fuel) cap zero limit e f h k =
    (cap, rw (lt→leb cap limit (omega arith)), omega arith, k)
grow_cap_ends (suc fuel) cap (suc d) limit e f h k = elim (Bool-cases (leb cap limit)) [
  | inr big ↦ (cap, rw big, ground arith, k)
  | inl small ↦
      let (c, run, lo, hi) =
        grow_cap_ends fuel (cap * 2 % u32) d limit (Doubles-suc cap d e) (omega arith) h
          (ground arith) in
      (c, rw (small, run), lo, hi)
]

-- The doubling loop of `zcrt_buf_realloc` ends for every request `len` with `len + 1` below
-- 2 ^ 31: within its fuel it finds a capacity above `len + 1` and at most twice that.
pub grow_cap_sound :
    (len : ℕ)
    → len + 1 < 2 ^ 31
    → (c : ℕ) × (grow_cap cap_fuel 1 ((len + 1) % u32) ≡ some c)
      × (len + 1 < c)
      × (c ≤ 2 * (len + 1))
grow_cap_sound len h =
    let same : (len + 1) % u32 ≡ len + 1 = omega arith in
    rw same (grow_cap_ends cap_fuel 1 31 (len + 1) refl (omega arith) h (omega arith))

-- For a request `len` with `len + 1` from 2 ^ 31 up to 2 ^ 32 - 1 the loop never ends: `cap` wraps
-- to 0, and no amount of fuel gives a capacity.
pub grow_cap_endless :
    (len fuel : ℕ) → 2 ^ 31 ≤ len + 1 → len + 1 < u32 → grow_cap fuel 1 ((len + 1) % u32) ≡ none
grow_cap_endless len fuel lo hi =
    let same : (len + 1) % u32 ≡ len + 1 = omega arith in
    rw same (grow_cap_stuck fuel 1 31 (len + 1) refl lo)

-- After a request for `len` bytes: room for them, the old bytes in place, the rest as it was.
pub record Grown (v : ZBuf) (len : ℕ) (w : ZBuf) : Type 0 where
  pub valid : IsValid w
  pub big : len ≤ w.maxlen
  pub same_len : w.len ≡ v.len
  pub same_offset : w.offset ≡ v.offset
  pub same_tag : w.tag ≡ v.tag
  pub kept : contents w ≡ contents v

module _ ⦃alloc : Allocator⦄ (granted : (n : ℕ) → alloc.grants n ≡ true) where
  length-zcrt_realloc : (block : List ℕ) (n : ℕ) → length (zcrt_realloc block n) ≡ n
  unfolding zcrt_realloc
  length-zcrt_realloc block n =
      rw (granted n, length-append, length-take, length-fill) (omega arith)

  take-zcrt_realloc :
      (block : List ℕ) (k n : ℕ)
      → k ≤ n
      → k ≤ length block
      → take k (zcrt_realloc block n) ≡ take k block
  unfolding zcrt_realloc
  take-zcrt_realloc block k n h b =
      rw (granted n) (
        take-append k (take n block) _ (omega (arith, length-take n block)) ∙ take-take k n block h)

  -- Where libc grants every request, a request of `len` bytes with `len + 1` below 2 ^ 31 succeeds:
  -- the buffer is then well formed with room for `len` bytes, and its length, its read position,
  -- its tag and the bytes written so far are what they were.
  pub buf_realloc-Grown :
      (v : ZBuf) (len : ℕ)
      → IsValid v
      → len + 1 < 2 ^ 31
      → (w : ZBuf) × (buf_realloc v len ≡ some (w, len)) × Grown v len w
  unfolding buf_realloc
  buf_realloc-Grown v zero valid h = (
    v,
    refl,
    record {
      valid = valid;
      big = omega arith;
      same_len = refl;
      same_offset = refl;
      same_tag = refl;
      kept = refl;
    },
  )
  buf_realloc-Grown v (suc n) valid h = elim (Bool-cases (ltb v.maxlen (suc n))) [
    | inr enough ↦ (
      v,
      rw enough (ground arith),
      record {
        valid = valid;
        big = ground arith;
        same_len = refl;
        same_offset = refl;
        same_tag = refl;
        kept = refl;
      },
    )
    | inl short ↦
        let (c, run, lo, hi) = grow_cap_sound (suc n) h in
        (
          record v { buf = zcrt_realloc v.buf c; maxlen = suc n },
          rw (short, run) (ground arith),
          record {
            valid = record {
              room = omega (arith, length-zcrt_realloc v.buf c);
              fits = omega (arith, valid.fits, ltb→lt v.maxlen (suc n) short);
              behind = valid.behind;
              narrow = omega arith;
            };
            big = omega arith;
            same_len = refl;
            same_offset = refl;
            same_tag = refl;
            kept =
                take-zcrt_realloc v.buf v.len c
                  (omega (arith, valid.fits, ltb→lt v.maxlen (suc n) short))
                  (omega (arith, valid.fits, valid.room));
          },
        )
  ]
