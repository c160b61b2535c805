-- ===== src/KernelMem/Tests.antt =====
-- A list with one block of three bytes.
use zcrt.KernelMem.Requests.{zcrt_free-zcrt_malloc, zcrt_realloc_grows, zcrt_realloc_shrinks}
use zcrt.KernelMem.Blocks.{IsTracked}
use zcrt.KernelMem.{Answer, Memory, memblock_get, zcrt_free}
use zcrt.Base.{
  ◌==◌, if◌then◌else◌, Bool-cases, take, ℕ, ◌≡◌, refl, ap, ◌≢◌, inl, inr, true, none, some, [], ◌∷◌,
  arith,
}
use zcrt.KernelMem.{zcrt_malloc, zcrt_realloc}

abbrev memory : Memory
memory = record {
  list = (record { ptr = 100; size = 3 }) ∷ [];
  bytes = λ p. if p == 100 then 1 ∷ 2 ∷ 3 ∷ [] else [];
}

memory-IsTracked : IsTracked memory
unfolding memblock_get
memory-IsTracked = record {
  distinct = (refl, tt);
  not_null = refl;
  sized = λ p b e. elim (Bool-cases (100 == p)) [
    | inl here ↦
        let same : (p == 100) ≡ true = ground arith in
        let e' : some (record { ptr = 100; size = 3 }) ≡ some b = rw here at e in
        rw same (ap (λ o. elim o [ none ↦ 3 | some x ↦ x.size ]) e')
    | inr there ↦ let e' : none ≡ some b = rw there at e in cc
  ];
}

abbrev at_200 : Answer
at_200 = record { at = 200; node = true; fresh = λ i. 7 }

unused_200 : memblock_get memory.list 200 ≡ none
unfolding memblock_get
unused_200 = refl

found_100 : memblock_get memory.list 100 ≡ some (record { ptr = 100; size = 3 })
unfolding memblock_get
found_100 = refl

zcrt_free-zcrt_malloc_example :
    (m' : Memory) × (zcrt_malloc memory 5 at_200 ≡ (m', 200))
    × IsTracked m'
    × (memblock_get m'.list 200 ≡ some (record { ptr = 200; size = 5 }))
    × ((p : ℕ) → 200 ≢ p → memblock_get m'.list p ≡ memblock_get memory.list p)
    × ((zcrt_free m' 200).list ≡ memory.list)
    × ((p : ℕ) → 200 ≢ p → (zcrt_free m' 200).bytes p ≡ memory.bytes p)
zcrt_free-zcrt_malloc_example =
    zcrt_free-zcrt_malloc memory 5 at_200 memory-IsTracked unused_200 (omega arith) refl

zcrt_realloc_grows_example :
    (m' : Memory) × (zcrt_realloc memory 100 5 at_200 ≡ some (m', 200))
    × IsTracked m'
    × (take 3 (m'.bytes 200) ≡ memory.bytes 100)
    × (memblock_get m'.list 200 ≡ some (record { ptr = 200; size = 5 }))
    × (memblock_get m'.list 100 ≡ none)
    × ((p : ℕ) → 100 ≢ p → 200 ≢ p → memblock_get m'.list p ≡ memblock_get memory.list p)
zcrt_realloc_grows_example =
    zcrt_realloc_grows memory 100 5 (record { ptr = 100; size = 3 }) at_200 memory-IsTracked
      unused_200 (omega arith) refl found_100 (omega arith)

zcrt_realloc_shrinks_example : zcrt_realloc memory 100 2 at_200 ≡ none
zcrt_realloc_shrinks_example =
    zcrt_realloc_shrinks memory 100 2 (record { ptr = 100; size = 3 }) at_200 memory-IsTracked
      (omega arith) (omega arith) found_100 (omega arith) (omega arith)
