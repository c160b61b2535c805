-- ===== src/KernelMem/Blocks.antt =====
-- zcrtlib/zcrt_mem_kernal.c: the list names each block once, with its size.
use zcrt.Base.{
  ◌==◌, Bool-cases, length, ℕ, ◌≡◌, refl, sym, ap, ◌∙◌, ◌≢◌, inl, inr, true, false, none, some,
  List, [], ◌∷◌, arith,
}
use zcrt.KernelMem.{MemBlock, Memory, memblock_del, memblock_get, release, set_bytes}

abbrev pub NoTwins : List MemBlock → Type 0
NoTwins [] = Unit {0}
NoTwins (b ∷ bs) = (memblock_get bs b.ptr ≡ none) × NoTwins bs

pub record IsTracked (m : Memory) : Type 0 where
  pub distinct : NoTwins m.list
  pub not_null : memblock_get m.list 0 ≡ none
  pub sized : (p : ℕ) (b : MemBlock) → memblock_get m.list p ≡ some b → length (m.bytes p) ≡ b.size

pub get-ptr : (bs : List MemBlock) (p : ℕ) (b : MemBlock) → memblock_get bs p ≡ some b → b.ptr ≡ p
unfolding memblock_get
get-ptr [] p b e = cc
get-ptr (c ∷ bs) p b e = elim (Bool-cases (c.ptr == p)) [
  | inl hit ↦
      let here : c.ptr ≡ p = ground arith in
      let same : some c ≡ some b = rw hit at e in
      ap (λ o. elim o [ none ↦ p | some x ↦ x.ptr ]) (sym same) ∙ here
  | inr miss ↦ get-ptr bs p b (rw miss at e)
]

pub get-del_self :
    (bs : List MemBlock) (p : ℕ) → NoTwins bs → memblock_get (memblock_del bs p) p ≡ none
unfolding memblock_get memblock_del
get-del_self [] p h = refl
get-del_self (c ∷ bs) p h = elim (Bool-cases (c.ptr == p)) [
  | inl hit ↦
      let here : c.ptr ≡ p = ground arith in rw hit (ap (λ q. memblock_get bs q) (sym here) ∙ h.0)
  | inr miss ↦ rw (miss, miss) (get-del_self bs p h.1)
]

pub get-del_ne :
    (bs : List MemBlock) (p q : ℕ) → p ≢ q → memblock_get (memblock_del bs p) q ≡ memblock_get bs q
unfolding memblock_get memblock_del
get-del_ne [] p q apart = refl
get-del_ne (c ∷ bs) p q apart = elim (Bool-cases (c.ptr == p)) [
  | inl hit ↦ let other : (c.ptr == q) ≡ false = ground arith in rw (hit, other)
  | inr miss ↦ elim (Bool-cases (c.ptr == q)) [
    | inl found ↦ rw (miss, found)
    | inr not_here ↦ rw (miss, not_here) (get-del_ne bs p q apart)
  ]
]

NoTwins-del : (bs : List MemBlock) (p : ℕ) → NoTwins bs → NoTwins (memblock_del bs p)
unfolding memblock_del
NoTwins-del [] p h = tt
NoTwins-del (c ∷ bs) p h = elim (Bool-cases (c.ptr == p)) [
  | inl hit ↦ rw hit h.1
  | inr miss ↦
      let apart : p ≢ c.ptr = ground arith in
      rw miss (get-del_ne bs p c.ptr apart ∙ h.0, NoTwins-del bs p h.1)
]

-- The state with a new block.
abbrev pub with_block : Memory → ℕ → ℕ → List ℕ → Memory
with_block m at size block = record (set_bytes m at block) {
  list = (record { ptr = at; size = size }) ∷ m.list;
}

pub with_block-IsTracked :
    (m : Memory) (at size : ℕ) (block : List ℕ)
    → IsTracked m
    → memblock_get m.list at ≡ none
    → (at == 0) ≡ false
    → length block ≡ size
    → IsTracked (with_block m at size block)
unfolding memblock_get
with_block-IsTracked m at size block h unused given fits = record {
  distinct = (unused, h.distinct);
  not_null = rw given h.not_null;
  sized = λ p b e. elim (Bool-cases (at == p)) [
    | inl here ↦
        let same : (p == at) ≡ true = ground arith in
        let e' : some (record { ptr = at; size = size }) ≡ some b = rw here at e in
        rw same (fits ∙ ap (λ o. elim o [ none ↦ size | some x ↦ x.size ]) e')
    | inr there ↦
        let other : (p == at) ≡ false = ground arith in rw other (h.sized p b (rw there at e))
  ];
}

pub release-IsTracked : (m : Memory) (p : ℕ) → IsTracked m → IsTracked (release m p)
release-IsTracked m p h = record {
  distinct = NoTwins-del m.list p h.distinct;
  not_null = elim (Bool-cases (p == 0)) [
    | inl null ↦
        let e : p ≡ 0 = ground arith in
        ap (λ q. memblock_get (memblock_del m.list p) q) (sym e) ∙ get-del_self m.list p h.distinct
    | inr real ↦ let apart : p ≢ 0 = ground arith in get-del_ne m.list p 0 apart ∙ h.not_null
  ];
  sized = λ q b e. elim (Bool-cases (q == p)) [
    | inl same ↦
        let e' : p ≡ q = ground arith in
        let gone =
          ap (λ r. memblock_get (memblock_del m.list p) r) (sym e')
          ∙ get-del_self m.list p h.distinct in
        let clash : some b ≡ none = sym e ∙ gone in cc
    | inr other ↦
        let apart : p ≢ q = ground arith in
        rw other (h.sized q b (sym (get-del_ne m.list p q apart) ∙ e))
  ];
}
