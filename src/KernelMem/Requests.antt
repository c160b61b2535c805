-- ===== src/KernelMem/Requests.antt =====
-- zcrtlib/zcrt_mem_kernal.c: malloc, free and realloc.
use zcrt.Base.{
  leb, ◌==◌, lt→leb, Bool-cases, ◌>>=◌, length, take, fill, length-fill, ℕ, ◌+◌, ◌≤◌, ◌<◌, ◌≡◌, sym,
  ap, ◌∙◌, ◌≢◌, inl, inr, true, false, none, some, arith,
}
use zcrt.KernelMem.Blocks.{get-del_ne, get-del_self}
use zcrt.KernelMem.{zcrt_malloc, zcrt_realloc}
use zcrt.KernelMem.Blocks.{IsTracked, get-ptr, release-IsTracked, with_block, with_block-IsTracked}
use zcrt.KernelMem.{
  Answer, MemBlock, Memory, memblock_add, memblock_del, memblock_get, move_block, new_block,
  release, resize_block, zcrt_free,
}
use zcrt.Buf.Append.{store_lem}
use zcrt.Buf.{store}

-- kmalloc grants no block that is in use; NULL is not in the list.
abbrev pub Unused : Memory → ℕ → Type 0
Unused m at = memblock_get m.list at ≡ none

new_block_run :
    (m : Memory) (size : ℕ) (answer : Answer)
    → (answer.at == 0) ≡ false
    → answer.node ≡ true
    → new_block m size answer ≡ (with_block m answer.at size (fill answer.fresh 0 size), answer.at)
unfolding new_block memblock_add
new_block_run m size answer given node = rw (given, node)

tracked_real :
    (m : Memory) (ptr : ℕ) (b : MemBlock)
    → IsTracked m
    → memblock_get m.list ptr ≡ some b
    → (ptr == 0) ≡ false
tracked_real m ptr b h tracked = elim (Bool-cases (ptr == 0)) [
  | inl null ↦
      let e : 0 ≡ ptr = ground arith in
      let found : memblock_get m.list 0 ≡ some b = ap (λ p. memblock_get m.list p) e ∙ tracked in
      let clash : some b ≡ none = sym found ∙ h.not_null in cc
  | inr real ↦ real
]

Unused-apart :
    (m : Memory) (at ptr : ℕ) (b : MemBlock)
    → Unused m at
    → memblock_get m.list ptr ≡ some b
    → ptr ≢ at
Unused-apart m at ptr b unused tracked e =
    let clash : some b ≡ none = sym tracked ∙ ap (λ p. memblock_get m.list p) e ∙ unused in cc

-- A block that kmalloc grants, with a node for it, joins the list: the list still names each block
-- once with its size, the pointer is found in it, and what was found before is found as before.
-- `zcrt_free` of the pointer then gives back the list from before, and leaves the bytes of all other
-- blocks as they are.
pub zcrt_free-zcrt_malloc :
    (m : Memory) (size : ℕ) (answer : Answer)
    → IsTracked m
    → Unused m answer.at
    → 1 ≤ answer.at
    → answer.node ≡ true
    → (m' : Memory) × (zcrt_malloc m size answer ≡ (m', answer.at))
      × IsTracked m'
      × (memblock_get m'.list answer.at ≡ some (record { ptr = answer.at; size = size }))
      × ((p : ℕ) → answer.at ≢ p → memblock_get m'.list p ≡ memblock_get m.list p)
      × ((zcrt_free m' answer.at).list ≡ m.list)
      × ((p : ℕ) → answer.at ≢ p → (zcrt_free m' answer.at).bytes p ≡ m.bytes p)
unfolding zcrt_malloc zcrt_free memblock_get memblock_del
zcrt_free-zcrt_malloc m size answer h unused real node =
    let at = answer.at in
    let given : (at == 0) ≡ false = ground arith in
    let self : (at == at) ≡ true = ground arith in
    (
      with_block m at size (fill answer.fresh 0 size),
      new_block_run m size answer given node,
      with_block-IsTracked m at size (fill answer.fresh 0 size) h unused given
          (length-fill answer.fresh 0 size),
      rw self,
      λ p apart. let other : (at == p) ≡ false = ground arith in rw other,
      rw (given, self, self),
      λ p apart. let other : (p == at) ≡ false = ground arith in rw (given, self, other),
    )

-- A realloc to more bytes, where kmalloc grants the block and its node: the new block starts with the
-- bytes of the old one, the list has the new block with its size in place of the old one, and still
-- names each block once; what was found under other pointers is found as before.
pub zcrt_realloc_grows :
    (m : Memory) (ptr size : ℕ) (b : MemBlock) (answer : Answer)
    → IsTracked m
    → Unused m answer.at
    → 1 ≤ answer.at
    → answer.node ≡ true
    → memblock_get m.list ptr ≡ some b
    → b.size < size
    → (m' : Memory) × (zcrt_realloc m ptr size answer ≡ some (m', answer.at))
      × IsTracked m'
      × (take b.size (m'.bytes answer.at) ≡ m.bytes ptr)
      × (memblock_get m'.list answer.at ≡ some (record { ptr = answer.at; size = size }))
      × (memblock_get m'.list ptr ≡ none)
      × ((p : ℕ) → ptr ≢ p → answer.at ≢ p → memblock_get m'.list p ≡ memblock_get m.list p)
unfolding zcrt_realloc resize_block move_block memblock_add memblock_get
zcrt_realloc_grows m ptr size b answer h unused real node tracked more =
    let at = answer.at in
    let given : (at == 0) ≡ false = ground arith in
    let here : b.ptr ≡ ptr = get-ptr m.list ptr b tracked in
    let ptr_real : (ptr == 0) ≡ false = tracked_real m ptr b h tracked in
    let longer : (size == b.size) ≡ false = ground arith in
    let nonzero : (size == 0) ≡ false = ground arith in
    let old : length (m.bytes b.ptr) ≡ b.size =
      ap (λ p. length (m.bytes p)) here ∙ h.sized ptr b tracked in
    let (block, run, same, holds) =
      store_lem (fill answer.fresh 0 size) 0 (m.bytes b.ptr)
        (omega (arith, old, length-fill answer.fresh 0 size)) in
    let m1 = with_block m at size block in
    let tracked1 =
      with_block-IsTracked m at size block h unused given
        (same ∙ length-fill answer.fresh 0 size) in
    let apart : ptr ≢ at = Unused-apart m at ptr b unused tracked in
    let apart' : b.ptr ≢ at = λ e. apart (sym here ∙ e) in
    let other : (at == b.ptr) ≡ false = ground arith in
    let self : (at == at) ≡ true = ground arith in
    let cut : b.size ≡ 0 + length (m.bytes b.ptr) = omega (arith, old) in
    (
      release m1 b.ptr,
      rw (ptr_real, tracked, longer, nonzero, given, run, ◌>>=◌, node),
      release-IsTracked m1 b.ptr tracked1,
      rw (other, self) (ap (λ n. take n block) cut ∙ holds ∙ ap m.bytes here),
      get-del_ne m1.list b.ptr at apart' ∙ rw self,
      ap (λ p. memblock_get (memblock_del m1.list b.ptr) p) (sym here)
          ∙ get-del_self m1.list b.ptr tracked1.distinct,
      λ p away away'.
          let away_b : b.ptr ≢ p = λ e. away (sym here ∙ e) in
          let miss : (at == p) ≡ false = ground arith in
          get-del_ne m1.list b.ptr p away_b ∙ rw miss,
    )

-- A realloc of a block to fewer bytes, but not 0, where kmalloc grants the block, copies all the
-- bytes of the old block: it writes past the end of the new one.
pub zcrt_realloc_shrinks :
    (m : Memory) (ptr size : ℕ) (b : MemBlock) (answer : Answer)
    → IsTracked m
    → 1 ≤ ptr
    → 1 ≤ answer.at
    → memblock_get m.list ptr ≡ some b
    → 1 ≤ size
    → size < b.size
    → zcrt_realloc m ptr size answer ≡ none
unfolding zcrt_realloc resize_block move_block store
zcrt_realloc_shrinks m ptr size b answer h ptr_real real tracked some_bytes less =
    let at = answer.at in
    let given : (at == 0) ≡ false = ground arith in
    let not_null : (ptr == 0) ≡ false = ground arith in
    let shorter : (size == b.size) ≡ false = ground arith in
    let nonzero : (size == 0) ≡ false = ground arith in
    let old : length (m.bytes b.ptr) ≡ b.size =
      ap (λ p. length (m.bytes p)) (get-ptr m.list ptr b tracked) ∙ h.sized ptr b tracked in
    let new = length-fill answer.fresh 0 size in
    let over : leb (0 + length (m.bytes b.ptr)) (length (fill answer.fresh 0 size)) ≡ false =
      lt→leb (0 + length (m.bytes b.ptr)) (length (fill answer.fresh 0 size))
        (omega (arith, old, new)) in
    rw (not_null, tracked, shorter, nonzero, given, over, ◌>>=◌)
