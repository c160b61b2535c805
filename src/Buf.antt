-- ===== src/Buf.antt =====
-- zcrtlib/zbuf.c: a byte buffer that grows, with a read position. The block `buf` is the list of
-- its bytes, and NULL is the empty list. A pointer into the block is an index. `next`, the link of
-- the free list of the IPC server, is not a field here.
pub mod Growth
pub mod Append
pub mod Strings
pub mod Reading
pub mod Tests
use zcrt.Base.{
  ltb, leb, ◌==◌, if◌then◌else◌, Run, ◌>>=◌, length, take, drop, replicate, fill, ℕ, zero, suc, ◌+◌,
  ◌-◌, ◌*◌, ◌%◌, ◌^◌, ◌≤◌, ◌<◌, Bool, true, false, Option, none, some, List, [], ◌++◌,
}

-- libc's malloc and realloc: which requests they grant, and what the bytes that realloc adds hold.
pub record Allocator : Type 0 where
  pub grants : ℕ → Bool
  pub fresh : ℕ → ℕ

abbrev pub u32 : ℕ
u32 = 2 ^ 32

pub record ZBuf : Type 0 where
  pub tag : ℕ
  pub maxlen : ℕ
  pub len : ℕ
  pub offset : ℕ
  pub buf : List ℕ

-- `zstr_t`: `ptr` points into the block of the buffer that the string was read from.
pub record ZStr : Type 0 where
  pub len : ℕ
  pub ptr : Option ℕ

-- memcpy of `bytes` to `block + pos`.
unfoldable pub store : List ℕ → ℕ → List ℕ → Run (List ℕ)
store block pos bytes =
    if leb (pos + length bytes) (length block)
    then some (take pos block ++ (bytes ++ drop (pos + length bytes) block))
    else none

-- `while (cap <= len + 1) cap *= 2;` on uint32_t, where `limit` is `len + 1`.
unfoldable pub grow_cap : ℕ → ℕ → ℕ → Run ℕ
grow_cap zero cap limit = none
grow_cap (suc fuel) cap limit =
    let rest = grow_cap fuel (cap * 2 % u32) limit in if leb cap limit then rest else some cap

-- Doubling 1 leaves the powers below 2 ^ 32 in 32 rounds.
abbrev pub cap_fuel : ℕ
cap_fuel = 33

module _ ⦃alloc : Allocator⦄ where
  -- The Linux version clears the block.
  unfoldable pub zcrt_malloc : ℕ → List ℕ
  zcrt_malloc size = if alloc.grants size then replicate size 0 else []

  unfoldable pub zcrt_realloc : List ℕ → ℕ → List ℕ
  zcrt_realloc block size =
      if alloc.grants size
      then take size block ++ fill alloc.fresh (length block) (size - length block)
      else []

  unfoldable pub buf_init : ℕ → ℕ → ZBuf
  unfolding zcrt_malloc
  buf_init len tag =
      if len == 0
      then record { tag = tag; maxlen = 0; len = 0; offset = 0; buf = [] }
      else record { tag = tag; maxlen = len; len = 0; offset = 0; buf = zcrt_malloc len }

  unfoldable pub buf_realloc : ZBuf → ℕ → Run (ZBuf × ℕ)
  unfolding grow_cap zcrt_realloc
  buf_realloc v len =
      if len == 0
      then some (v, 0)
      else if ltb v.maxlen len
      then (grow_cap cap_fuel 1 ((len + 1) % u32) >>= λ cap.
          some (record v { buf = zcrt_realloc v.buf cap; maxlen = len }, len))
      else some (v, len)

  unfoldable pub buf_append : ZBuf → List ℕ → Run (ZBuf × ℕ)
  unfolding buf_realloc store
  buf_append v bytes =
      let newlen = (v.len + length bytes) % u32 in
      if length bytes == 0 then some (v, 0) else (do
        (w, _) ← buf_realloc v newlen
        block ← store w.buf w.len bytes
        some (record w { buf = block; len = newlen }, length bytes))

unfoldable pub buf_destroy : ZBuf → ZBuf
buf_destroy v =
    if length v.buf == 0 then v else record { tag = 0; maxlen = 0; len = 0; offset = 0; buf = [] }

unfoldable pub buf_clear : ZBuf → ZBuf
buf_clear v = record v { len = 0; offset = 0 }

-- The pointer to the bytes that were taken, or NULL.
unfoldable pub buf_get : ZBuf → ℕ → ZBuf × Option ℕ
buf_get v len =
    if len == 0
    then (v, none)
    else if ltb v.len ((v.offset + len) % u32)
    then (v, none)
    else (record v { offset = (v.offset + len) % u32 }, some v.offset)

unfoldable pub buf_getstr : ZBuf → ℕ → ZBuf × ZStr × Bool
buf_getstr v len =
    let offset' = (v.offset + len) % u32 in
    if ltb v.len offset'
    then (record v { offset = v.len }, record { len = 0; ptr = none }, false)
    else (record v { offset = offset' }, record { len = len; ptr = some v.offset }, true)

-- The bytes that have been written, and those that are still to be read.
abbrev pub contents : ZBuf → List ℕ
contents v = take v.len v.buf

abbrev pub unread : ZBuf → List ℕ
unread v = drop v.offset (contents v)

pub record IsValid (v : ZBuf) : Type 0 where
  pub room : v.maxlen ≤ length v.buf
  pub fits : v.len ≤ v.maxlen
  pub behind : v.offset ≤ v.len
  pub narrow : v.maxlen < u32
