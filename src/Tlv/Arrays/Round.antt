-- ===== src/Tlv/Arrays/Round.antt =====
-- zipc/zipc_tlv.c: what an array writes is read back into another array.
use zcrt.Base.{
  ◌>>=◌, length, take, ℕ, ◌+◌, ◌*◌, ◌^◌, ◌≤◌, ◌<◌, ◌≡◌, refl, sym, ap, ◌∙◌, true, some, List, [],
  ◌++◌, append-nil, arith,
}
use native.Mathlib.Nat.{mul-le-mul_left}
use zcrt.Buf.{Allocator, ZBuf, IsValid, u32, unread}
use zcrt.Buf.Reading.{skip, skip-IsValid, unread-skip, Appended-unread}
use zcrt.Buf.Append.{Appended-trans}
use zcrt.ArrayList.{ArrayList, array_getlength}
use zcrt.ArrayList.Growth.{IsWhole, HasRoom, array_setlength-Grown}
use zcrt.Tlv.Value.Texts.{cnt_bytes, get_table_cnt_lem, put_table_cnt_lem}
use zcrt.Tlv.Arrays.{TypePut, TypeGet, get_array, put_array}
use zcrt.Tlv.Arrays.Elems.{Codec, elems_bytes, get_elems_lem, put_elems_lem}
use zcrt.Tlv.Arrays.Slices.{slice, patch, take-patch}

module _ {unit : ℕ} {enc : List ℕ → List ℕ} {put : TypePut} {get : TypeGet}
    (codec : Codec unit enc put get) ⦃alloc : Allocator⦄
    (granted : (n : ℕ) → alloc.grants n ≡ true) where
  -- Where the memory manager grants its requests, and `codec` says that the function that reads an
  -- element takes back what the one that writes it has put: `ztlv_put_array` of an array into a
  -- well-formed buffer with nothing left to read, whose contents and the bytes of the array are
  -- together fewer than 2 ^ 31 - 13, returns true, and `ztlv_get_array` into another array then returns
  -- true; the second array has the length of the first one, and its elements are the bytes of the
  -- first one's. Nothing is left to read. The blocks of both arrays have exactly their slots, their
  -- elements have the same size, the length is below 1048575, and the second array's slots, one step
  -- more, and its bytes with that step or with the new length stay below 2 ^ 32.
  pub get_array-put_array :
      (v : ZBuf) (a b : ArrayList)
      → IsValid v
      → unread v ≡ []
      → IsWhole a
      → IsWhole b
      → a.unitsize ≡ unit
      → b.unitsize ≡ unit
      → HasRoom b a.len
      → v.len + length (cnt_bytes a.len) + length (elems_bytes enc unit a.data_block a.len 0) + 13
        < 2 ^ 31
      → (w u : ZBuf) × (c : ArrayList) × (put_array v (some a) (some put) ≡ some (w, true))
        × (get_array w (some b) (some get) ≡ some (u, some c, true))
        × (c.len ≡ a.len)
        × (take (a.len * unit) c.data_block ≡ take (a.len * unit) a.data_block)
        × (unread u ≡ [])
  unfolding put_array get_array array_getlength
  get_array-put_array v a b valid nothing whole_a whole_b same_a same_b grow room =
      let small : a.len < u32 = omega (arith, grow.small) in
      let head = cnt_bytes a.len in
      let items = elems_bytes enc unit a.data_block a.len 0 in
      let (w1, run1, a1) = put_table_cnt_lem granted v valid a.len small (omega arith) in
      let (w, run2, a2) =
        put_elems_lem codec granted a.len 0 w1 a a1.valid whole_a same_a (omega arith)
          (omega (arith, a1.longer)) in
      let both = Appended-trans head items a1 a2 in
      let at : unread w ≡ head ++ items =
        Appended-unread (head ++ items) valid both ∙ ap (λ l. l ++ (head ++ items)) nothing in
      let short : w.len < 2 ^ 31 = omega (arith, a1.longer, a2.longer) in
      let cnt = get_table_cnt_lem w both.valid short items a.len small at in
      let w2 = skip w (length head) in
      let (b1, grown_run, grown) = array_setlength-Grown granted b a.len whole_b grow in
      let at2 : unread w2 ≡ items ++ [] =
        unread-skip w both.valid head items at ∙ sym (append-nil items) in
      let total = a.len * unit in
      let fit : total ≤ length a.data_block = omega (
        arith,
        whole_a.sized,
        mul-le-mul_left a.unitsize whole_a.fits,
        ap (λ (t : ℕ). a.len * t) same_a,
      ) in
      let (u, run3, done) =
        get_elems_lem codec a.len 0 w2 b1 a.data_block [] (skip-IsValid w both.valid head items at)
          short grown.valid (grown.unit ∙ same_b) (omega (arith, grown.now)) (omega (arith, fit))
          at2 in
      let block = patch b1.data_block (0 * unit) (slice a.data_block (0 * unit) total) in
      let c : ArrayList = record b1 { data_block = block } in
      (
        w,
        u,
        c,
        rw (run1, ◌>>=◌) run2,
        rw (cnt, ◌>>=◌, grown_run, run3) refl,
        grown.now,
        take-patch b1.data_block a.data_block total unit fit,
        done,
      )
