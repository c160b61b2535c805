-- ===== src/ArrayList.antt =====
-- zcrtlib/zarraylist.c: an array of elements of one size that grows by steps. The block `data` is the
-- list of its bytes, and NULL is the empty list; the address of an element is an index into it.
pub mod Growth
pub mod Tests
use zcrt.Base.{
  ltb, leb, ◌==◌, if◌then◌else◌, Run, ◌>>=◌, length, take, drop, replicate, ℕ, ◌+◌, ◌-◌, ◌*◌, ◌%◌,
  Option, none, some, List, ◌++◌,
}
use zcrt.Buf.{Allocator, u32, zcrt_malloc, zcrt_realloc}

pub record ArrayList : Type 0 where
  pub len : ℕ
  pub unitsize : ℕ
  pub alloced : ℕ
  pub memtag : ℕ
  pub step : ℕ
  pub data_block : List ℕ

-- sizeof(_ZArrayList).
abbrev pub array_size : ℕ
array_size = 32

-- memset of `size` bytes at `block + pos` to 0.
unfoldable pub clear : List ℕ → ℕ → ℕ → Run (List ℕ)
clear block pos size =
    if size == 0
    then some block
    else if leb (pos + size) (length block)
    then some (take pos block ++ (replicate size 0 ++ drop (pos + size) block))
    else none

unfoldable pub array_getlength : Option ArrayList → ℕ
array_getlength none = 0
array_getlength (some v) = v.len

unfoldable pub array_get : ArrayList → ℕ → Option ℕ
array_get v idx = if leb v.len idx then none else some (idx * v.unitsize % u32)

-- The number of slots for `len` elements where there are not more of them now.
unfoldable pub grown_to : ArrayList → ℕ → ℕ
grown_to v len = if ltb (len - v.alloced) v.step then (v.alloced + v.step) % u32 else len

module _ ⦃alloc : Allocator⦄ where
  -- At least one slot.
  unfoldable pub array_new : ℕ → ℕ → ℕ → ℕ → Run ArrayList
  unfolding zcrt_malloc
  array_new size unitsize step tag =
      let slots = if size == 0 then 1 else size in
      if alloc.grants array_size
      then some (record {
        len = 0;
        unitsize = unitsize;
        alloced = slots;
        memtag = tag;
        step = step;
        data_block = zcrt_malloc (unitsize * slots % u32);
      })
      else none

  -- The block with room for `nlen` elements, of which the new ones are cleared.
  unfoldable pub regrow : ArrayList → ℕ → Run (List ℕ)
  unfolding zcrt_realloc clear
  regrow v nlen =
      clear (zcrt_realloc v.data_block (v.unitsize * nlen % u32)) (v.alloced * v.unitsize % u32)
        (v.unitsize * ((nlen + (u32 - v.alloced)) % u32) % u32)

  unfoldable pub array_setlength : ArrayList → ℕ → Run ArrayList
  unfolding regrow grown_to
  array_setlength v len =
      if ltb len 1048575
      then if ltb len v.alloced
        then some (record v { len = len })
        else (regrow v (grown_to v len) >>= λ block.
            some (record v { len = len; data_block = block; alloced = grown_to v len }))
      else none

  unfoldable pub array_increase : ArrayList → Run (ArrayList × Option ℕ)
  unfolding array_getlength array_setlength array_get
  array_increase v =
      let len = array_getlength (some v) in
      array_setlength v ((len + 1) % u32) >>= λ w. some (w, array_get w len)
