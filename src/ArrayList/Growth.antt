-- ===== src/ArrayList/Growth.antt =====
-- zcrtlib/zarraylist.c: what a change of the length leaves in the block, and where the elements are.
use zcrt.Base.{
  ltb, leb, ◌==◌, Bool-cases, length, take, drop, replicate, fill, length-append, length-fill,
  take-append, take_all, drop_all, length-replicate, ℕ, ◌+◌, ◌-◌, ◌*◌, ◌%◌, ◌≤◌, ◌<◌, ◌≡◌, refl,
  sym, ap, ◌∙◌, inl, inr, true, false, some, List, [], ◌∷◌, ◌++◌, append-nil, arith,
}
use zcrt.ArrayList.{array_getlength}
use zcrt.ArrayList.{
  ArrayList, clear, array_get, regrow, grown_to, array_new, array_setlength, array_increase,
}
use native.Mathlib.Nat.{mul-le-mul_left}
use zcrt.Buf.{Allocator, u32, zcrt_malloc, zcrt_realloc}

-- The block has exactly the allocated elements, which hold those of the array.
pub record IsWhole (v : ArrayList) : Type 0 where
  pub sized : length v.data_block ≡ v.unitsize * v.alloced
  pub fits : v.len ≤ v.alloced
  pub narrow : v.unitsize * v.alloced < u32
  pub count : v.alloced < u32

-- `w` is `v` with the length `len`, its bytes, and zeros behind them.
pub record Grown (v : ArrayList) (len : ℕ) (w : ArrayList) : Type 0 where
  pub valid : IsWhole w
  pub now : w.len ≡ len
  pub unit : w.unitsize ≡ v.unitsize
  pub bytes : w.data_block ≡ v.data_block ++ replicate (v.unitsize * (w.alloced - v.alloced)) 0

-- The length passes the assertion, and growing by `step` and to `len` stays below 2 ^ 32.
pub record HasRoom (v : ArrayList) (len : ℕ) : Type 0 where
  pub small : len < 1048575
  pub by_step : v.alloced + v.step < u32
  pub step_bytes : v.unitsize * (v.alloced + v.step) < u32
  pub len_bytes : v.unitsize * len < u32

take_front : {A : Type 0} (xs ys : List A) → take (length xs) (xs ++ ys) ≡ xs
take_front xs ys =
    take-append (length xs) xs ys (omega arith) ∙ take_all (length xs) xs (omega arith)

clear_tail :
    (xs ys : List ℕ) (size : ℕ)
    → length ys ≡ size
    → clear (xs ++ ys) (length xs) size ≡ some (xs ++ replicate size 0)
unfolding clear
clear_tail xs [] size e = rw (sym e) refl
clear_tail xs (y ∷ ys) size e =
    let some_size : (size == 0) ≡ false = ground arith in
    let all : length (xs ++ (y ∷ ys)) ≡ length xs + size =
      length-append xs (y ∷ ys) ∙ ap (λ (k : ℕ). length xs + k) e in
    let inside : leb (length xs + size) (length (xs ++ (y ∷ ys))) ≡ true = ground arith in
    let gone : drop (length xs + size) (xs ++ (y ∷ ys)) ≡ [] =
      drop_all (length xs + size) (xs ++ (y ∷ ys)) (omega arith) in
    rw (some_size, inside, take_front xs (y ∷ ys), gone)
      (ap (λ t. some (xs ++ t)) (append-nil (replicate size 0)))

grown_to-HasRoom :
    (v : ArrayList) (len : ℕ)
    → HasRoom v len
    → v.alloced ≤ len
    → (v.alloced ≤ grown_to v len)
      × (len ≤ grown_to v len)
      × (grown_to v len < u32)
      × (v.unitsize * grown_to v len < u32)
unfolding grown_to
grown_to-HasRoom v len room h = elim (Bool-cases (ltb (len - v.alloced) v.step)) [
  | inl near ↦
      let stepped : (v.alloced + v.step) % u32 ≡ v.alloced + v.step = omega (arith, room.by_step) in
      rw (near, stepped) (omega arith, ground arith, room.by_step, room.step_bytes)
  | inr far ↦ rw far (h, omega arith, omega (arith, room.small), room.len_bytes)
]

length-grown :
    (v : ArrayList) (nlen : ℕ)
    → IsWhole v
    → v.alloced ≤ nlen
    → length (v.data_block ++ replicate (v.unitsize * (nlen - v.alloced)) 0) ≡ v.unitsize * nlen
length-grown v nlen valid h =
    let new = v.unitsize * (nlen - v.alloced) in
    let split : nlen ≡ v.alloced + (nlen - v.alloced) = omega arith in
    let both : v.unitsize * nlen ≡ length v.data_block + new =
      omega (arith, valid.sized, ap (λ (k : ℕ). v.unitsize * k) split) in
    length-append v.data_block (replicate new 0)
    ∙ ap (λ (k : ℕ). length v.data_block + k) (length-replicate new 0)
    ∙ sym both

pub get-IsWhole :
    (v : ArrayList) (i : ℕ)
    → IsWhole v
    → i < v.len
    → (array_get v i ≡ some (i * v.unitsize)) × (i * v.unitsize + v.unitsize ≤ length v.data_block)
unfolding array_get
get-IsWhole v i valid h =
    let inside : leb v.len i ≡ false = ground arith in
    let below : v.unitsize * (i + 1) ≤ v.unitsize * v.alloced =
      mul-le-mul_left v.unitsize (omega (arith, valid.fits)) in
    let exact : i * v.unitsize % u32 ≡ i * v.unitsize = omega (arith, valid.narrow) in
    (rw (inside, exact) refl, omega (arith, valid.sized))

-- In an array whose block has exactly its slots, `zarray_get` of two indices below the length gives
-- two elements that do not overlap and that lie inside the block.
pub array_get_apart :
    (v : ArrayList) (i j : ℕ)
    → IsWhole v
    → i < j
    → j < v.len
    → (p : ℕ) × (q : ℕ) × (array_get v i ≡ some p)
      × (array_get v j ≡ some q)
      × (p + v.unitsize ≤ q)
      × (q + v.unitsize ≤ length v.data_block)
array_get_apart v i j valid h k =
    let first = get-IsWhole v i valid (omega arith) in
    let second = get-IsWhole v j valid k in
    let below : v.unitsize * (i + 1) ≤ v.unitsize * j = mul-le-mul_left v.unitsize (omega arith) in
    (i * v.unitsize, j * v.unitsize, first.0, second.0, omega arith, second.1)

module _ ⦃alloc : Allocator⦄ (grants : (n : ℕ) → alloc.grants n ≡ true) where
  regrow_lem :
      (v : ArrayList) (nlen : ℕ)
      → IsWhole v
      → v.alloced ≤ nlen
      → nlen < u32
      → v.unitsize * nlen < u32
      → regrow v nlen ≡ some (v.data_block ++ replicate (v.unitsize * (nlen - v.alloced)) 0)
  unfolding regrow zcrt_realloc
  regrow_lem v nlen valid h k bound =
      let size = v.unitsize * (nlen - v.alloced) in
      let split : nlen ≡ v.alloced + (nlen - v.alloced) = omega arith in
      let whole : v.unitsize * nlen ≡ length v.data_block + size =
        omega (arith, valid.sized, ap (λ (k : ℕ). v.unitsize * k) split) in
      let all : v.unitsize * nlen % u32 ≡ v.unitsize * nlen = omega arith in
      let place : v.alloced * v.unitsize % u32 ≡ length v.data_block =
        omega (arith, valid.sized, valid.narrow) in
      let more : (nlen + (u32 - v.alloced)) % u32 ≡ nlen - v.alloced = omega (arith, valid.count) in
      let fresh : v.unitsize * (nlen - v.alloced) % u32 ≡ size = omega arith in
      let kept : take (v.unitsize * nlen) v.data_block ≡ v.data_block =
        take_all (v.unitsize * nlen) v.data_block (omega arith) in
      rw (all, place, more, fresh, grants (v.unitsize * nlen), kept)
        (clear_tail v.data_block
          (fill alloc.fresh (length v.data_block) (v.unitsize * nlen - length v.data_block)) size
          (length-fill alloc.fresh (length v.data_block) (v.unitsize * nlen - length v.data_block)
            ∙ omega arith))

  -- Where the memory manager grants its requests, and the length and the sizes are as `HasRoom` says,
  -- `zarray_setlength` of an array whose block has exactly its slots gives the array the length: all
  -- bytes of the block stay, and every byte of a new slot is 0.
  pub array_setlength-Grown :
      (v : ArrayList) (len : ℕ)
      → IsWhole v
      → HasRoom v len
      → (w : ArrayList) × (array_setlength v len ≡ some w) × Grown v len w
  unfolding array_setlength
  array_setlength-Grown v len valid room =
      let small : ltb len 1048575 ≡ true = ground (arith, room.small) in
      elim (Bool-cases (ltb len v.alloced)) [
        | inl fits ↦
            let below : len ≤ v.alloced = ground arith in
            let w : ArrayList = record v { len = len } in
            let gone : v.alloced - v.alloced ≡ 0 = omega arith in
            let none_new : v.unitsize * 0 ≡ 0 = omega arith in
            (
              w,
              rw (small, fits) refl,
              record {
                valid = record {
                  sized = valid.sized;
                  fits = below;
                  narrow = valid.narrow;
                  count = valid.count;
                };
                now = refl;
                unit = refl;
                bytes = rw (gone, none_new) (sym (append-nil v.data_block));
              },
            )
        | inr full ↦
            let (above, holds, count, narrow) = grown_to-HasRoom v len room (ground arith) in
            let slots = grown_to v len in
            let block = v.data_block ++ replicate (v.unitsize * (slots - v.alloced)) 0 in
            let w : ArrayList = record v { len = len; data_block = block; alloced = slots } in
            let run = regrow_lem v slots valid above count narrow in
            (
              w,
              rw (small, full, run) refl,
              record {
                valid = record {
                  sized = length-grown v slots valid above;
                  fits = holds;
                  narrow = narrow;
                  count = count;
                };
                now = refl;
                unit = refl;
                bytes = refl;
              },
            )
      ]

  -- Where the memory manager grants its requests, the new length is below 1048575, and the number of
  -- slots with one step more, its bytes, and the bytes of the new length are below 2 ^ 32:
  -- `zarray_increase` of an array whose block has exactly its slots makes the array one element
  -- longer, keeps all bytes of the block, clears what it adds, and returns the new last element, which
  -- is inside the block.
  pub array_increase-Grown :
      (v : ArrayList)
      → IsWhole v
      → HasRoom v (v.len + 1)
      → (w : ArrayList) × (p : ℕ) × (array_increase v ≡ some (w, some p))
        × Grown v (v.len + 1) w
        × (p ≡ v.len * v.unitsize)
        × (p + v.unitsize ≤ length w.data_block)
  unfolding array_increase array_getlength
  array_increase-Grown v valid room =
      let (w, run, grown) = array_setlength-Grown v (v.len + 1) valid room in
      let exact : (v.len + 1) % u32 ≡ v.len + 1 = omega (arith, room.small) in
      let last = get-IsWhole w v.len grown.valid (omega (arith, grown.now)) in
      let place : v.len * w.unitsize ≡ v.len * v.unitsize = ap (λ (k : ℕ). v.len * k) grown.unit in
      (
        w,
        v.len * w.unitsize,
        rw (exact, run, last.0) refl,
        grown,
        place,
        omega (arith, last.1, grown.unit),
      )

  -- The block of a new array has exactly its slots, where their size is below 2 ^ 32 bytes.
  pub array_new-IsWhole :
      (size unitsize step tag : ℕ)
      → 0 < size
      → size < u32
      → unitsize * size < u32
      → (v : ArrayList) × (array_new size unitsize step tag ≡ some v) × IsWhole v
  unfolding array_new zcrt_malloc
  array_new-IsWhole size unitsize step tag h count k =
      let some_slots : (size == 0) ≡ false = ground arith in
      let exact : unitsize * size % u32 ≡ unitsize * size = omega (arith, k) in
      let v : ArrayList = record {
        len = 0;
        unitsize = unitsize;
        alloced = size;
        memtag = tag;
        step = step;
        data_block = replicate (unitsize * size) 0;
      } in
      (
        v,
        rw (some_slots, exact, grants 32, grants (unitsize * size)) refl,
        record {
          sized = length-replicate (unitsize * size) 0;
          fits = omega arith;
          narrow = k;
          count = count;
        },
      )
