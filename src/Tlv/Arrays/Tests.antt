-- ===== src/Tlv/Arrays/Tests.antt =====
-- An array of three bytes, each written behind its index as one byte.
use zcrt.Base.{
  le→leb, ◌>>=◌, length, get_elem?, take, length-append, ℕ, zero, suc, ◌+◌, ◌^◌, ◌≤◌, ◌<◌, ◌≡◌,
  refl, true, none, some, List, [], ◌∷◌, ◌++◌, arith,
}
use zcrt.Buf.{ZBuf, IsValid, unread, store}
use zcrt.Buf.Append.{Appended}
use zcrt.Buf.Reading.{skip}
use zcrt.Buf.Tests.{ample, ample-grants, buffer_of, buffer_of-IsValid}
use zcrt.ArrayList.{ArrayList}
use zcrt.ArrayList.Growth.{IsWhole, HasRoom}
use zcrt.Tlv.Value.{get_type, put_type}
use zcrt.Tlv.Value.Cursor.{get_type_lem, put_type_lem}
use zcrt.Tlv.Len.Groups.{groups, length-groups}
use zcrt.Tlv.Zigzag.{zigzag_encode32}
use zcrt.Tlv.Value.Scalars.{int_bytes}
use zcrt.Tlv.Arrays.{TypePut, TypeGet, get_array, put_array}
use zcrt.Tlv.Arrays.Slices.{slice, patch}
use zcrt.Tlv.Arrays.Elems.{Codec}
use zcrt.Tlv.Arrays.Round.{get_array-put_array}

put_byte : TypePut
put_byte v block none = none
put_byte v block (some p) = get_elem? block p >>= λ b. put_type v b >>= λ w. some (w, true)

get_byte : TypeGet
get_byte v block none = none
get_byte v block (some p) =
    get_type v >>= λ r. store block p (r.1 ∷ []) >>= λ block'. some (r.0, block', true)

byte_at :
    (block : List ℕ) (p : ℕ)
    → p + 1 ≤ length block
    → (b : ℕ) × (get_elem? block p ≡ some b) × (slice block p 1 ≡ b ∷ [])
byte_at [] p h = absurd (omega arith)
byte_at (x ∷ xs) zero h = (x, refl, refl)
byte_at (x ∷ xs) (suc p) h = byte_at xs p (omega arith)

put_byte_lem :
    (v : ZBuf) (block : List ℕ) (p : ℕ)
    → IsValid v
    → p + 1 ≤ length block
    → v.len + length (slice block p 1) + 13 < 2 ^ 31
    → (w : ZBuf) × (put_byte v block (some p) ≡ some (w, true)) × Appended v (slice block p 1) w
unfolding put_byte
put_byte_lem v block p valid inside room =
    let (b, found, same) = byte_at block p inside in
    let (w, run, a) = put_type_lem ample-grants v b valid (omega arith) in
    (w, rw (found, ◌>>=◌, run) refl, rw same a)

get_byte_lem :
    (v : ZBuf) (block : List ℕ) (p : ℕ) (e rest : List ℕ)
    → IsValid v
    → p + 1 ≤ length block
    → length e ≡ 1
    → unread v ≡ e ++ rest
    → get_byte v block (some p) ≡ some (skip v (length e), patch block p e, true)
unfolding get_byte store
get_byte_lem v block p [] rest valid inside size at = absurd (omega arith)
get_byte_lem v block p (b ∷ []) rest valid inside size at =
    rw (get_type_lem v b rest valid at, ◌>>=◌, le→leb (p + 1) (length block) inside) refl
get_byte_lem v block p (b ∷ c ∷ e) rest valid inside size at = absurd (omega arith)

byte-Codec : Codec 1 (λ e. e) put_byte get_byte
byte-Codec = record {
  puts = λ v block p valid inside room. put_byte_lem v block p valid inside room;
  gets = λ v block p e rest valid short inside size at.
      get_byte_lem v block p e rest valid inside size at;
}

abbrev three : ArrayList
three = record {
  len = 3;
  unitsize = 1;
  alloced = 4;
  memtag = 7;
  step = 2;
  data_block = 5 ∷ 6 ∷ 7 ∷ 0 ∷ [];
}

abbrev one_slot : ArrayList
one_slot = record { len = 0; unitsize = 1; alloced = 1; memtag = 7; step = 1; data_block = 9 ∷ [] }

three-IsWhole : IsWhole three
three-IsWhole = record {
  sized = refl;
  fits = omega arith;
  narrow = omega arith;
  count = omega arith;
}

one_slot-IsWhole : IsWhole one_slot
one_slot-IsWhole = record {
  sized = refl;
  fits = omega arith;
  narrow = omega arith;
  count = omega arith;
}

one_slot-HasRoom : HasRoom one_slot 3
one_slot-HasRoom = record {
  small = omega arith;
  by_step = omega arith;
  step_bytes = omega arith;
  len_bytes = omega arith;
}

abbrev rest_2 : List ℕ
rest_2 = int_bytes 3 ++ (7 ∷ [])

abbrev rest_1 : List ℕ
rest_1 = int_bytes 2 ++ (6 ∷ rest_2)

get_array-put_array_example :
    (w u : ZBuf) × (c : ArrayList) × (put_array (buffer_of []) (some three) (some put_byte)
      ≡ some (w, true))
    × (get_array w (some one_slot) (some get_byte) ≡ some (u, some c, true))
    × (c.len ≡ 3)
    × (take 3 c.data_block ≡ 5 ∷ 6 ∷ 7 ∷ [])
    × (unread u ≡ [])
get_array-put_array_example =
    get_array-put_array byte-Codec ample-grants (buffer_of []) three one_slot
      (buffer_of-IsValid [] (omega arith)) refl three-IsWhole one_slot-IsWhole refl refl
      one_slot-HasRoom
      (omega (
        arith,
        length-groups 4 3,
        length-groups 4 (zigzag_encode32 1),
        length-groups 4 (zigzag_encode32 2),
        length-groups 4 (zigzag_encode32 3),
        length-append (groups 4 (zigzag_encode32 1)) (5 ∷ rest_1),
        length-append (groups 4 (zigzag_encode32 2)) (6 ∷ rest_2),
        length-append (groups 4 (zigzag_encode32 3)) (7 ∷ []),
      ))
