-- ===== src/KernelMem.antt =====
-- zcrtlib/zcrt_mem_kernal.c: the memory of the kernel port, with a list of the blocks that are in use.
-- A pointer is the address of a block, 0 for NULL. kmalloc is a function of the kernel: the address
-- that it returns is an argument, and so is whether it grants a node of the list. The lock makes each
-- walk of the list one step.
pub mod Blocks
pub mod Requests
mod Tests
use zcrt.Buf.{store}
use zcrt.Base.{◌==◌, if◌then◌else◌, Run, ◌>>=◌, fill, ℕ, Bool, Option, none, some, List, [], ◌∷◌}

-- `memblock_t`
pub record MemBlock : Type 0 where
  pub ptr : ℕ
  pub size : ℕ

-- `memblock_list`, and the bytes of the block at each address.
pub record Memory : Type 0 where
  pub list : List MemBlock
  pub bytes : ℕ → List ℕ

-- What kmalloc answers for a block and for a node, and what new memory holds.
pub record Answer : Type 0 where
  pub at : ℕ
  pub node : Bool
  pub fresh : ℕ → ℕ

abbrev pub set_bytes : Memory → ℕ → List ℕ → Memory
set_bytes m ptr block = record m { bytes = λ p. if p == ptr then block else m.bytes p }

-- `none` is -ENOMEM.
unfoldable pub memblock_add : Memory → ℕ → ℕ → Bool → Option Memory
memblock_add m ptr size granted =
    if granted
    then some (record m { list = (record { ptr = ptr; size = size }) ∷ m.list })
    else none

unfoldable pub memblock_get : List MemBlock → ℕ → Option MemBlock
memblock_get [] ptr = none
memblock_get (b ∷ bs) ptr = let rest = memblock_get bs ptr in if b.ptr == ptr then some b else rest

-- The node that `memblock_get` has found for `ptr` goes.
unfoldable pub memblock_del : List MemBlock → ℕ → List MemBlock
memblock_del [] ptr = []
memblock_del (b ∷ bs) ptr = let rest = memblock_del bs ptr in if b.ptr == ptr then bs else b ∷ rest

-- kmalloc of `size` bytes, and its node: the block is freed again if there is none.
unfoldable pub new_block : Memory → ℕ → Answer → Memory × ℕ
new_block m size answer =
    if answer.at == 0
    then (m, 0)
    else elim (memblock_add (set_bytes m answer.at (fill answer.fresh 0 size)) answer.at size
        answer.node) [ none ↦ (set_bytes m answer.at [], 0) | some m' ↦ (m', answer.at) ]

unfoldable pub zcrt_malloc : Memory → ℕ → Answer → Memory × ℕ
zcrt_malloc m size answer = new_block m size answer

-- The node and the block go.
abbrev pub release : Memory → ℕ → Memory
release m ptr = record (set_bytes m ptr []) { list = memblock_del m.list ptr }

unfoldable pub zcrt_free : Memory → ℕ → Memory
zcrt_free m ptr =
    if ptr == 0 then m else elim (memblock_get m.list ptr) [ none ↦ m | some b ↦ release m ptr ]

-- `memmove(nbuf, ptr, m->size)` is `none` if it writes past the end of the new block.
unfoldable pub move_block : Memory → MemBlock → ℕ → Answer → Run (Memory × ℕ)
move_block m b size answer =
    if answer.at == 0
    then some (m, 0)
    else (store (fill answer.fresh 0 size) 0 (m.bytes b.ptr) >>= λ block.
        elim (memblock_add (set_bytes m answer.at block) answer.at size answer.node) [
          | none ↦ some (set_bytes m answer.at [], 0)
          | some m' ↦ some (release m' b.ptr, answer.at)
        ])

unfoldable pub resize_block : Memory → MemBlock → ℕ → Answer → Run (Memory × ℕ)
resize_block m b size answer =
    if size == b.size
    then some (m, b.ptr)
    else if size == 0
    then some (release m b.ptr, 0)
    else move_block m b size answer

unfoldable pub zcrt_realloc : Memory → ℕ → ℕ → Answer → Run (Memory × ℕ)
zcrt_realloc m ptr size answer =
    if ptr == 0
    then some (if size == 0 then (m, 0) else new_block m size answer)
    else elim (memblock_get m.list ptr) [
      | none ↦ some (m, 0)
      | some b ↦ resize_block m b size answer
    ]
