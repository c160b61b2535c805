-- ===== src/Tlv/Value/Message.antt =====
-- zipc/zipc_tlv.c: the buffer as a queue of values, in the way that the callers use it: a run of put
-- calls, and later the get calls for the same types.
use zcrt.Base.{
  Run, ◌>>=◌, length, length-append, ℕ, ◌+◌, ◌^◌, ◌<◌, ◌≡◌, refl, sym, ap, ◌∙◌, Bool, true, some,
  List, [], ◌∷◌, ◌++◌, append-nil, arith,
}
use zcrt.Buf.{Allocator, ZBuf, ZStr, IsValid, u32, unread}
use zcrt.Buf.Reading.{skip, skip-IsValid, unread-skip, Appended-unread}
use zcrt.Buf.Append.{Appended-trans}
use zcrt.Tlv.Zigzag.{u64}
use zcrt.Tlv.Value.{get_bool, get_int, get_uint32, get_int64, get_string, get_table_cnt}
use zcrt.Tlv.Value.{put_bool, put_int, put_uint32, put_int64, put_lstring, put_table_cnt}
use zcrt.Tlv.Len.Groups.{groups, length-groups}
use zcrt.Tlv.Value.Cursor.{Puts}
use zcrt.Tlv.Value.Scalars.{
  bool_bytes, int_bytes, get_bool_lem, get_int_lem, put_bool_lem, put_int_lem,
}
use zcrt.Tlv.Value.Wide.{
  uint32_bytes, int64_bytes, get_uint32_lem, get_int64_lem, put_uint32_lem, put_int64_lem,
}
use zcrt.Tlv.Value.Texts.{
  str_bytes, cnt_bytes, Shows, get_string_lem, get_table_cnt_lem, put_lstring_lem,
  put_table_cnt_lem,
}

-- One value, with the put function that writes it and the get function that is to read it.
pub data Value : Type 0 where
  bool : Bool → Value
  int : ℕ → Value
  uint32 : ℕ → Value
  int64 : ℕ → Value
  text : List ℕ → Value
  table : ℕ → Value

-- The numbers are bit patterns of their width.
abbrev pub InRange : Value → Type 0
InRange (bool b) = Unit {0}
InRange (int n) = n < u32
InRange (uint32 n) = n < u32
InRange (int64 n) = n < u64
InRange (text s) = length s < u32
InRange (table n) = n < u32

abbrev pub AllInRange : List Value → Type 0
AllInRange [] = Unit {0}
AllInRange (x ∷ xs) = InRange x × AllInRange xs

abbrev pub bytes_of : Value → List ℕ
bytes_of (bool b) = bool_bytes b
bytes_of (int n) = int_bytes n
bytes_of (uint32 n) = uint32_bytes n
bytes_of (int64 n) = int64_bytes n
bytes_of (text s) = str_bytes s
bytes_of (table n) = cnt_bytes n

abbrev pub all_bytes : List Value → List ℕ
all_bytes [] = []
all_bytes (x ∷ xs) = bytes_of x ++ all_bytes xs

-- The get call for `x` on `v` returns true with `x`, and leaves `u`.
abbrev pub Gets : ZBuf → Value → ZBuf → Type 0
Gets v (bool b) u = get_bool v ≡ some (u, some b)
Gets v (int n) u = get_int v ≡ some (u, some n)
Gets v (uint32 n) u = get_uint32 v ≡ some (u, some n)
Gets v (int64 n) u = get_int64 v ≡ some (u, some n)
Gets v (text s) u = (t : ZStr) × (get_string v ≡ some (u, some t)) × Shows v.buf t s
Gets v (table n) u = get_table_cnt v ≡ some (u, some n)

abbrev pub GetsAll : ZBuf → List Value → ZBuf → Type 0
GetsAll v [] u = v ≡ u
GetsAll v (x ∷ xs) u = (w : ZBuf) × Gets v x w × GetsAll w xs u

module _ ⦃alloc : Allocator⦄ where
  abbrev pub put_value : ZBuf → Value → Run ZBuf
  put_value v (bool b) = put_bool v b
  put_value v (int n) = put_int v n
  put_value v (uint32 n) = put_uint32 v n
  put_value v (int64 n) = put_int64 v n
  put_value v (text s) = put_lstring v (some s)
  put_value v (table n) = put_table_cnt v n

  abbrev pub put_values : ZBuf → List Value → Run ZBuf
  put_values v [] = some v
  put_values v (x ∷ xs) = put_value v x >>= λ w. put_values w xs

pub Gets_lem :
    (v : ZBuf) (x : Value) (rest : List ℕ)
    → IsValid v
    → v.len < 2 ^ 31
    → InRange x
    → unread v ≡ bytes_of x ++ rest
    → Gets v x (skip v (length (bytes_of x)))
Gets_lem v (bool b) rest valid short fits at = get_bool_lem v valid short rest b at
Gets_lem v (int n) rest valid short fits at = get_int_lem v valid short rest n fits at
Gets_lem v (uint32 n) rest valid short fits at = get_uint32_lem v valid short rest n fits at
Gets_lem v (int64 n) rest valid short fits at = get_int64_lem v valid short rest n fits at
Gets_lem v (text s) rest valid short fits at = get_string_lem v valid short rest s fits at
Gets_lem v (table n) rest valid short fits at = get_table_cnt_lem v valid short rest n fits at

GetsAll_lem :
    (xs : List Value) (v : ZBuf)
    → IsValid v
    → v.len < 2 ^ 31
    → AllInRange xs
    → unread v ≡ all_bytes xs
    → (u : ZBuf) × GetsAll v xs u × (unread u ≡ [])
GetsAll_lem [] v valid short fits at = (v, refl, at)
GetsAll_lem (x ∷ xs) v valid short fits at =
    let n = length (bytes_of x) in
    let rest = all_bytes xs in
    let (u, got, done) =
      GetsAll_lem xs (skip v n) (skip-IsValid v valid (bytes_of x) rest at) short fits.1
        (unread-skip v valid (bytes_of x) rest at) in
    (u, (skip v n, Gets_lem v x rest valid short fits.0 at, got), done)

module _ ⦃alloc : Allocator⦄ (granted : (n : ℕ) → alloc.grants n ≡ true) where
  Puts_lem :
      (v : ZBuf) (x : Value)
      → IsValid v
      → InRange x
      → v.len + length (bytes_of x) + 13 < 2 ^ 31
      → Puts (put_value v x) v (bytes_of x)
  Puts_lem v (bool b) valid fits room = put_bool_lem granted v valid b (omega arith)
  Puts_lem v (int n) valid fits room = put_int_lem granted v valid n fits (omega arith)
  Puts_lem v (uint32 n) valid fits room = put_uint32_lem granted v valid n fits (omega arith)
  Puts_lem v (int64 n) valid fits room = put_int64_lem granted v valid n fits (omega arith)
  Puts_lem v (text s) valid fits room =
      put_lstring_lem granted v valid s
        (omega (arith, length-append (groups 4 (length s)) s, length-groups 4 (length s)))
  Puts_lem v (table n) valid fits room = put_table_cnt_lem granted v valid n fits (omega arith)

  pub put_values-Appended :
      (xs : List Value) (v : ZBuf)
      → IsValid v
      → AllInRange xs
      → v.len + length (all_bytes xs) + 13 < 2 ^ 31
      → Puts (put_values v xs) v (all_bytes xs)
  put_values-Appended [] v valid fits room = (
    v,
    refl,
    record {
      valid = valid;
      written = sym (append-nil _);
      longer = omega arith;
      same_offset = refl;
      same_tag = refl;
    },
  )
  put_values-Appended (x ∷ xs) v valid fits room =
      let size = length-append (bytes_of x) (all_bytes xs) in
      let (w, run, a) = Puts_lem v x valid fits.0 (omega (arith, size)) in
      let (u, run', b) = put_values-Appended xs w a.valid fits.1 (omega (arith, size, a.longer)) in
      (u, rw (run, ◌>>=◌) run', Appended-trans (bytes_of x) (all_bytes xs) a b)

  -- Where libc grants every request, a run of put calls on a well-formed buffer with nothing left to
  -- read, whose contents and the bytes of the values are together fewer than 2 ^ 31 - 13, does not
  -- fault, and the get calls for the same types then return true with the same values in the same
  -- order, and leave nothing to read. The values are booleans, int32_t, uint32_t, int64_t, strings and
  -- table headers, each in the range of its type.
  pub get_values-put_values :
      (v : ZBuf) (xs : List Value)
      → IsValid v
      → unread v ≡ []
      → AllInRange xs
      → v.len + length (all_bytes xs) + 13 < 2 ^ 31
      → (w u : ZBuf) × (put_values v xs ≡ some w) × GetsAll w xs u × (unread u ≡ [])
  get_values-put_values v xs valid empty fits room =
      let (w, run, a) = put_values-Appended xs v valid fits room in
      let at : unread w ≡ all_bytes xs =
        Appended-unread (all_bytes xs) valid a ∙ ap (λ l. l ++ all_bytes xs) empty in
      let (u, got, done) = GetsAll_lem xs w a.valid (omega (arith, a.longer)) fits at in
      (w, u, run, got, done)
