-- ===== src/Tlv/Arrays/Elems.antt =====
-- zipc/zipc_tlv.c: the loops over the elements of an array.
use zcrt.Base.{
  ◌>>=◌, length, length-append, ℕ, zero, suc, ◌+◌, ◌*◌, ◌^◌, ◌≤◌, ◌<◌, ◌≡◌, refl, sym, ap, ◌∙◌,
  true, some, List, [], ◌++◌, append-nil, append_assoc, arith,
}
use zcrt.Tlv.Arrays.Slices.{slice, patch, length-patch, patch_none, patch_next, length-slice}
use zcrt.Tlv.Value.{get_int}
use zcrt.Buf.{Allocator, ZBuf, IsValid, unread}
use zcrt.Buf.Reading.{skip, skip-IsValid, unread-skip}
use zcrt.Buf.Append.{Appended, Appended-trans}
use zcrt.ArrayList.{ArrayList, array_get}
use zcrt.ArrayList.Growth.{IsWhole, get-IsWhole}
use zcrt.Tlv.Value.Scalars.{int_bytes, get_int_lem, put_int_lem}
use zcrt.Tlv.Arrays.{TypePut, TypeGet, get_elems, put_elems}

-- `put` and `get` are the functions for an element of `unit` bytes, whose encoding is `enc`.
pub record Codec (unit : ℕ) (enc : List ℕ → List ℕ) (put : TypePut) (get : TypeGet) : Type 0 where
  pub puts :
      (v : ZBuf) (block : List ℕ) (p : ℕ)
      → IsValid v
      → p + unit ≤ length block
      → v.len + length (enc (slice block p unit)) + 13 < 2 ^ 31
      → (w : ZBuf) × (put v block (some p) ≡ some (w, true))
        × Appended v (enc (slice block p unit)) w
  pub gets :
      (v : ZBuf) (block : List ℕ) (p : ℕ) (e rest : List ℕ)
      → IsValid v
      → v.len < 2 ^ 31
      → p + unit ≤ length block
      → length e ≡ unit
      → unread v ≡ enc e ++ rest
      → get v block (some p) ≡ some (skip v (length (enc e)), patch block p e, true)

-- The bytes of `n` elements from the element `i` on.
abbrev pub elems_bytes : (List ℕ → List ℕ) → ℕ → List ℕ → ℕ → ℕ → List ℕ
elems_bytes enc unit block zero i = []
elems_bytes enc unit block (suc n) i =
    int_bytes (i + 1) ++ (enc (slice block (i * unit) unit) ++ elems_bytes enc unit block n (i + 1))

get_elems_step :
    (get : TypeGet) (n i : ℕ) (v v1 w : ZBuf) (arr : ArrayList) (p idx : ℕ) (block : List ℕ)
    → get_int v ≡ some (v1, some idx)
    → array_get arr i ≡ some p
    → get v1 arr.data_block (some p) ≡ some (w, block, true)
    → get_elems get (suc n) i v arr ≡ get_elems get n (i + 1) w (record arr { data_block = block })
unfolding get_elems
get_elems_step get n i v v1 w arr p idx block got found taken = rw (got, ◌>>=◌, found, taken) refl

module _ {unit : ℕ} {enc : List ℕ → List ℕ} {put : TypePut} {get : TypeGet}
    (codec : Codec unit enc put get) where
  pub get_elems_lem :
      (n i : ℕ) (v : ZBuf) (arr : ArrayList) (src rest : List ℕ)
      → IsValid v
      → v.len < 2 ^ 31
      → IsWhole arr
      → arr.unitsize ≡ unit
      → i + n ≤ arr.len
      → (i + n) * unit ≤ length src
      → unread v ≡ elems_bytes enc unit src n i ++ rest
      → (u : ZBuf) × (get_elems get n i v arr
          ≡ some (
            u,
            record arr {
              data_block = patch arr.data_block (i * unit) (slice src (i * unit) (n * unit));
            },
            true,
          ))
        × (unread u ≡ rest)
  unfolding get_elems
  get_elems_lem zero i v arr src rest valid short whole same h k at =
      let nothing : 0 * unit ≡ 0 = omega arith in
      (v, rw (nothing, patch_none arr.data_block (i * unit)) refl, at)
  get_elems_lem (suc n) i v arr src rest valid short whole same h k at =
      let p = i * unit in
      let e = slice src p unit in
      let more = elems_bytes enc unit src n (i + 1) in
      let size : length e ≡ unit = length-slice src p unit (omega arith) in
      let (found, inside) = get-IsWhole arr i whole (omega arith) in
      let spot : i * arr.unitsize ≡ p = ap (λ (t : ℕ). i * t) same in
      let room : p + unit ≤ length arr.data_block = omega (arith, inside, spot, same) in
      let num = int_bytes (i + 1) in
      let at1 : unread v ≡ num ++ (enc e ++ (more ++ rest)) =
        at
        ∙ append_assoc num (enc e ++ more) rest
        ∙ ap (λ l. num ++ l) (append_assoc (enc e) more rest) in
      let got =
        get_int_lem v valid short (enc e ++ (more ++ rest)) (i + 1)
          (omega (arith, whole.fits, whole.count)) at1 in
      let v1 = skip v (length num) in
      let valid1 = skip-IsValid v valid num (enc e ++ (more ++ rest)) at1 in
      let at2 = unread-skip v valid num (enc e ++ (more ++ rest)) at1 in
      let taken = codec.gets v1 arr.data_block p e (more ++ rest) valid1 short room size at2 in
      let arr1 : ArrayList = record arr { data_block = patch arr.data_block p e } in
      let whole1 : IsWhole arr1 = record {
        sized = length-patch arr.data_block p e (omega (arith, size)) ∙ whole.sized;
        fits = whole.fits;
        narrow = whole.narrow;
        count = whole.count;
      } in
      let (u, run, done) =
        get_elems_lem n (i + 1) (skip v1 (length (enc e))) arr1 src rest
          (skip-IsValid v1 valid1 (enc e) (more ++ rest) at2) short whole1 same (omega arith)
          (omega arith) (unread-skip v1 valid1 (enc e) (more ++ rest) at2) in
      let last = patch_next arr.data_block src i n unit k room in
      let step =
        get_elems_step get n i v v1 (skip v1 (length (enc e))) arr p (i + 1)
          (patch arr.data_block p e) got (found ∙ ap (λ (t : ℕ). some t) spot) taken in
      (u, step ∙ run ∙ ap (λ block. some (u, record arr { data_block = block }, true)) last, done)

module _ {unit : ℕ} {enc : List ℕ → List ℕ} {put : TypePut} {get : TypeGet}
    (codec : Codec unit enc put get) ⦃alloc : Allocator⦄
    (granted : (n : ℕ) → alloc.grants n ≡ true) where
  pub put_elems_lem :
      (n i : ℕ) (v : ZBuf) (arr : ArrayList)
      → IsValid v
      → IsWhole arr
      → arr.unitsize ≡ unit
      → i + n ≤ arr.len
      → v.len + length (elems_bytes enc unit arr.data_block n i) + 13 < 2 ^ 31
      → (w : ZBuf) × (put_elems put n i v arr ≡ some (w, true))
        × Appended v (elems_bytes enc unit arr.data_block n i) w
  unfolding put_elems
  put_elems_lem zero i v arr valid whole same h room = (
    v,
    refl,
    record {
      valid = valid;
      written = sym (append-nil _);
      longer = omega arith;
      same_offset = refl;
      same_tag = refl;
    },
  )
  put_elems_lem (suc n) i v arr valid whole same h room =
      let p = i * unit in
      let e = slice arr.data_block p unit in
      let more = elems_bytes enc unit arr.data_block n (i + 1) in
      let num = int_bytes (i + 1) in
      let size = length-append num (enc e ++ more) in
      let size' = length-append (enc e) more in
      let (found, inside) = get-IsWhole arr i whole (omega arith) in
      let spot : i * arr.unitsize ≡ p = ap (λ (t : ℕ). i * t) same in
      let (w1, run1, a1) =
        put_int_lem granted v valid (i + 1) (omega (arith, whole.fits, whole.count))
          (omega (arith, size, size')) in
      let (w2, run2, a2) =
        codec.puts w1 arr.data_block p a1.valid (omega (arith, inside, spot, same))
          (omega (arith, size, size', a1.longer)) in
      let (w3, run3, a3) =
        put_elems_lem n (i + 1) w2 arr a2.valid whole same (omega arith)
          (omega (arith, size, size', a1.longer, a2.longer)) in
      (
        w3,
        rw (run1, ◌>>=◌, found, spot, run2) run3,
        Appended-trans num (enc e ++ more) a1 (Appended-trans (enc e) more a2 a3),
      )
