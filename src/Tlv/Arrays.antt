-- ===== src/Tlv/Arrays.antt =====
-- zipc/zipc_tlv.c: an array as a table, the number of elements and then each with its index. A function
-- for an element is a parameter: it has the block of the array and the address of the element in it.
pub mod Slices
pub mod Elems
pub mod Round
pub mod Tests
use zcrt.Base.{Run, ◌>>=◌, ℕ, zero, suc, ◌+◌, Bool, true, false, Option, none, some, List}
use zcrt.Tlv.Len.{left}
use zcrt.Buf.{Allocator, ZBuf}
use zcrt.ArrayList.{ArrayList, array_get, array_getlength, array_setlength}
use zcrt.Tlv.Value.{get_int, get_table_cnt, put_int, put_table_cnt}

-- `ZTLV_TYPE_PUT` and `ZTLV_TYPE_GET`.
abbrev pub TypePut : Type 0
TypePut = ZBuf → List ℕ → Option ℕ → Run (ZBuf × Bool)

abbrev pub TypeGet : Type 0
TypeGet = ZBuf → List ℕ → Option ℕ → Run (ZBuf × List ℕ × Bool)

-- The loop of `ztlv_get_array` from the element `i`, with `left` elements to come.
unfoldable pub get_elems : TypeGet → ℕ → ℕ → ZBuf → ArrayList → Run (ZBuf × ArrayList × Bool)
get_elems fun zero i v arr = some (v, arr, true)
get_elems fun (suc left) i v arr = get_int v >>= λ r. elim r.1 [
  | none ↦ some (r.0, arr, false)
  | some idx ↦ fun r.0 arr.data_block (array_get arr i) >>= λ (w, block, done).
      let arr' : ArrayList = record arr { data_block = block } in
      elim done [ true ↦ get_elems fun left (i + 1) w arr' | false ↦ some (w, arr', false) ]
]

module _ ⦃alloc : Allocator⦄ where
  unfoldable pub get_array :
      ZBuf → Option ArrayList → Option TypeGet → Run (ZBuf × Option ArrayList × Bool)
  unfolding get_elems
  get_array v arr none = some (v, arr, false)
  get_array v none (some fun) = some (v, none, false)
  get_array v (some arr) (some fun) = get_table_cnt v >>= λ r. elim r.1 [
    | none ↦ some (r.0, some arr, false)
    | some cnt ↦ array_setlength arr cnt >>= λ arr'.
        get_elems fun cnt 0 r.0 arr' >>= λ (w, got, done). some (w, some got, done)
  ]

  -- The loop of `ztlv_put_array`, likewise.
  unfoldable pub put_elems : TypePut → ℕ → ℕ → ZBuf → ArrayList → Run (ZBuf × Bool)
  put_elems fun zero i v arr = some (v, true)
  put_elems fun (suc left) i v arr = put_int v (i + 1) >>= λ w.
      fun w arr.data_block (array_get arr i) >>= λ (u, done). elim done [
        | true ↦ put_elems fun left (i + 1) u arr
        | false ↦ some (u, false)
      ]

  unfoldable pub put_array : ZBuf → Option ArrayList → Option TypePut → Run (ZBuf × Bool)
  unfolding array_getlength put_elems
  put_array v arr none = some (v, false)
  put_array v arr (some fun) = put_table_cnt v (array_getlength arr) >>= λ w. elim arr [
    | none ↦ some (w, true)
    | some a ↦ put_elems fun a.len 0 w a
  ]
