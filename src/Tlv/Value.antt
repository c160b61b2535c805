-- ===== src/Tlv/Value.antt =====
-- zipc/zipc_tlv.c: typed values, a type byte and then the value. The put functions return true
-- whenever they return (their only false is for a NULL buffer), so they return the buffer alone;
-- for a get function `none` is false. A string is the bytes that the caller's pointer shows.
pub mod Cursor
pub mod Scalars
pub mod Wide
pub mod Texts
pub mod Message
pub mod Ignore
use zcrt.Base.{
  ltb, leb, ◌==◌, if◌then◌else◌, Run, ◌>>=◌, length, get_elem?, ℕ, ◌+◌, ◌-◌, ◌%◌, ◌^◌, Bool, true,
  false, ◌||◌, Option, none, some, List, [], ◌∷◌, map,
}
use zcrt.Buf.{Allocator, ZBuf, ZStr, u32, buf_append, buf_get, buf_getstr}
use mathlib.Core.Option
use zcrt.Tlv.Ty
use zcrt.Tlv.Zigzag.{u64}
use zcrt.Tlv.Len.{get_len, read_var_int, put_len, write_var_int}
use zcrt.Tlv.Len64.{read_var_int64, write_var_int64}

-- 0 if there is no byte left.
unfoldable pub get_type : ZBuf → Run (ZBuf × ℕ)
get_type v =
    let (w, at) = buf_get v 1 in
    elim at [ none ↦ some (w, 0) | some i ↦ get_elem? w.buf i >>= λ b. some (w, b) ]

unfoldable pub get_bool : ZBuf → Run (ZBuf × Option Bool)
get_bool v = do
  (w, ty) ← get_type v
  some (
    w,
    if ty == Ty.bool_true then some true else if ty == Ty.bool_false then some false else none,
  )

-- `(int32_t)nv`
abbrev pub low_word : ℕ → ℕ
low_word n = n % u32

unfoldable pub get_int : ZBuf → Run (ZBuf × Option ℕ)
get_int v = do
  (w, ty) ← get_type v
  if ty == Ty.int
      then read_var_int w
      else if ty == Ty.int64
      then (read_var_int64 w >>= λ r. some (r.0, Option.map low_word r.1))
      else some (w, none)

-- The macro `ztlv_get_uint32`: `ztlv_get_int` through a cast of the pointer.
abbrev pub get_uint32 : ZBuf → Run (ZBuf × Option ℕ)
get_uint32 = get_int

-- The int32_t with the bits `n` as an int64_t.
abbrev pub widen : ℕ → ℕ
widen n = if ltb n (2 ^ 31) then n else n + (u64 - u32)

unfoldable pub get_int64 : ZBuf → Run (ZBuf × Option ℕ)
get_int64 v = do
  (w, ty) ← get_type v
  if ty == Ty.int
      then (read_var_int w >>= λ r. some (r.0, Option.map widen r.1))
      else if ty == Ty.int64
      then read_var_int64 w
      else some (w, none)

-- The result of `ztlv_get_len` is not looked at.
unfoldable pub get_string : ZBuf → Run (ZBuf × Option ZStr)
get_string v = do
  (w, ty) ← get_type v
  if ty == Ty.str
      then (get_len w >>= λ r.
          let (u, text, done) = buf_getstr r.0 r.1 in some (u, if done then some text else none))
      else some (w, none)

unfoldable pub get_table_cnt : ZBuf → Run (ZBuf × Option ℕ)
get_table_cnt v = do
  (w, ty) ← get_type v
  if ty == Ty.table
      then (get_len w >>= λ r. some (r.0, if r.2 then some r.1 else none))
      else some (w, none)

-- The value's own type byte is read a second time by the function that is called.
unfoldable pub get_ignore : ZBuf → Run (ZBuf × Bool)
get_ignore v = do
  (w, ty) ← get_type v
  if ty == Ty.bool_false || ty == Ty.bool_true
      then (get_bool w >>= λ r. some (r.0, true))
      else if ty == Ty.int
      then (get_int w >>= λ r. some (r.0, true))
      else if ty == Ty.str
      then (get_string w >>= λ r. some (r.0, true))
      else some (w, false)

module _ ⦃alloc : Allocator⦄ where
  unfoldable pub put_type : ZBuf → ℕ → Run ZBuf
  put_type v ty = buf_append v (ty ∷ []) >>= λ r. some r.0

  unfoldable pub put_bool : ZBuf → Bool → Run ZBuf
  put_bool v b = put_type v (if b then Ty.bool_true else Ty.bool_false)

  unfoldable pub put_int : ZBuf → ℕ → Run ZBuf
  put_int v n = do w ← put_type v Ty.int; write_var_int w n

  -- `none` is a NULL pointer.
  unfoldable pub put_lstring : ZBuf → Option (List ℕ) → Run ZBuf
  put_lstring v none = put_type v Ty.nil
  put_lstring v (some bytes) = do
    w ← put_type v Ty.str
    u ← put_len w (length bytes)
    buf_append u bytes >>= λ r. some r.0

  unfoldable pub put_table_cnt : ZBuf → ℕ → Run ZBuf
  put_table_cnt v cnt = do w ← put_type v Ty.table; put_len w cnt

  unfoldable pub put_uint32 : ZBuf → ℕ → Run ZBuf
  put_uint32 v n =
      if leb n 2147483647
      then (do w ← put_type v Ty.int; write_var_int w n)
      else (do w ← put_type v Ty.int64; write_var_int64 w n)

  -- `_ZTLV_VAL_IS_INT32` on the bits of an int64_t: from -2147483647 to 2147483647.
  unfoldable pub put_int64 : ZBuf → ℕ → Run ZBuf
  put_int64 v n =
      if leb n 2147483647 || leb (u64 - 2147483647) n
      then (do w ← put_type v Ty.int; write_var_int w (n % u32))
      else (do w ← put_type v Ty.int64; write_var_int64 w n)
