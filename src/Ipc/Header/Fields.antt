-- ===== src/Ipc/Header/Fields.antt =====
-- zipc/zipc_parse.c: reading the common header.

use zcrt.Base.{
  ◌==◌, if◌then◌else◌, Bool-cases, ◌>>=◌, length, drop, length-append, length-take, All, ℕ, ◌+◌,
  ◌^◌, ◌≤◌, ◌<◌, ◌≡◌, refl, sym, ap, ◌∙◌, inl, inr, Bool, true, false, some, List, [], ◌∷◌, ◌++◌,
  append_assoc, arith,
}
use zcrt.Tlv.Value.Texts.{get_string_lem}
use zcrt.Tlv.Len.Read.{get_len-groups}
use zcrt.Tlv.Len.Groups.{groups}
use zcrt.Ipc.Header.{no_hdr, parse_common_hdr, parse_keys}
use zcrt.Buf.Reading.{skip-IsValid, unread-skip}
use zcrt.Text.Equal.{str_buf_cmp-eq}
use zcrt.Buf.{IsValid}
use zcrt.Tlv.Value.Wide.{get_uint32_lem, uint32_bytes}
use zcrt.Tlv.Value.Texts.{Shows, str_bytes}
use zcrt.Tlv.Value.Scalars.{bool_bytes, get_bool_lem}
use zcrt.Text.Equal.{NonZero}
use zcrt.Text.{is_eq}
use zcrt.Ipc.Header.{CommonHdr, is_named, noti_key, parse_value, req_key, sn_key}
use zcrt.Buf.Reading.{skip}
use zcrt.Buf.{ZBuf, ZStr, u32, unread}

unfoldable pub same_text : List ℕ → List ℕ → Bool
same_text [] [] = true
same_text [] (y ∷ ys) = false
same_text (x ∷ xs) [] = false
same_text (x ∷ xs) (y ∷ ys) = let rest = same_text xs ys in if x == y then rest else false

pub same_text_self : (xs : List ℕ) → same_text xs xs ≡ true
unfolding same_text
same_text_self [] = refl
same_text_self (x ∷ xs) = let self : (x == x) ≡ true = ground arith in rw self (same_text_self xs)

pub same_text_eq : (xs ys : List ℕ) → same_text xs ys ≡ true → xs ≡ ys
unfolding same_text
same_text_eq [] [] e = refl
same_text_eq [] (y ∷ ys) e = cc
same_text_eq (x ∷ xs) [] e = cc
same_text_eq (x ∷ xs) (y ∷ ys) e = elim (Bool-cases (x == y)) [
  | inl same ↦
      let head : x ≡ y = ground arith in
      rw head (ap (λ l. y ∷ l) (same_text_eq xs ys (rw same at e)))
  | inr other ↦ let wrong : false ≡ true = rw other at e in cc
]

-- Comparing a string that was read with a name compares their bytes.
pub is_named_lem :
    (v : ZBuf) (key : ZStr) (s name : List ℕ)
    → Shows v.buf key s
    → All NonZero name
    → length name < u32
    → length s < u32
    → is_named v key name ≡ some (same_text s name)
unfolding is_named
is_named_lem v key s name (p, at, size, shown) nonzero small small' =
    let ptr = drop p v.buf in
    let inside : length s ≤ length ptr =
      omega (arith, ap length shown, length-take (length s) ptr) in
    let (o, run, (to, from)) = str_buf_cmp-eq (length s) ptr name nonzero inside small' small in
    let same : is_eq o ≡ same_text s name = elim (Bool-cases (is_eq o)) [
      | inl hit ↦
          let e : s ≡ name = sym shown ∙ to hit in
          hit ∙ sym (ap (λ l. same_text l name) e ∙ same_text_self name)
      | inr miss ↦ elim (Bool-cases (same_text s name)) [
        | inl hit ↦ let y = from (shown ∙ same_text_eq s name hit) in cc
        | inr miss' ↦ miss ∙ sym miss'
      ]
    ] in
    rw (at, ◌>>=◌, size, run) (ap some same)

-- One key of the common header with its value.
pub data Field : Type 0 where
  sn : ℕ → Field
  req : Bool → Field
  noti : Bool → Field

abbrev pub key_of : Field → List ℕ
key_of (sn n) = sn_key
key_of (req b) = req_key
key_of (noti b) = noti_key

abbrev pub value_bytes : Field → List ℕ
value_bytes (sn n) = uint32_bytes n
value_bytes (req b) = bool_bytes b
value_bytes (noti b) = bool_bytes b

abbrev pub fields_bytes : List Field → List ℕ
fields_bytes [] = []
fields_bytes (f ∷ fs) = str_bytes (key_of f) ++ (value_bytes f ++ fields_bytes fs)

abbrev pub FieldInRange : Field → Type 0
FieldInRange (sn n) = n < u32
FieldInRange (req b) = Unit {0}
FieldInRange (noti b) = Unit {0}

-- The header after one more field: a later field overwrites an earlier one.
abbrev pub set_field : CommonHdr → Field → CommonHdr
set_field ch (sn n) = record ch { sn = n }
set_field ch (req b) = record ch { req = b }
set_field ch (noti b) = record ch { noti = b }

abbrev pub set_fields : CommonHdr → List Field → CommonHdr
set_fields ch [] = ch
set_fields ch (f ∷ fs) = set_fields (set_field ch f) fs

pub skip-append :
    (v : ZBuf) (a b : List ℕ) → skip (skip v (length a)) (length b) ≡ skip v (length (a ++ b))
skip-append v a b =
    let size : v.offset + length a + length b ≡ v.offset + length (a ++ b) =
      omega (arith, length-append a b) in
    ap (λ o. record v { offset = o }) size

key_test :
    (v : ZBuf) (key : ZStr) (f : Field) (name : List ℕ)
    → Shows v.buf key (key_of f)
    → All NonZero name
    → length name < u32
    → is_named v key name ≡ some (same_text (key_of f) name)
key_test v key (sn n) name shows h small =
    is_named_lem v key sn_key name shows h small (omega arith)
key_test v key (req b) name shows h small =
    is_named_lem v key req_key name shows h small (omega arith)
key_test v key (noti b) name shows h small =
    is_named_lem v key noti_key name shows h small (omega arith)

abbrev nonzero2 : All NonZero sn_key
nonzero2 = (omega arith, (omega arith, tt))

abbrev nonzero3 : All NonZero req_key
nonzero3 = (omega arith, (omega arith, (omega arith, tt)))

abbrev nonzero4 : All NonZero noti_key
nonzero4 = (omega arith, (omega arith, (omega arith, (omega arith, tt))))

parse_value_lem :
    (v : ZBuf) (key : ZStr) (ch : CommonHdr) (f : Field) (rest : List ℕ)
    → IsValid v
    → v.len < 2 ^ 31
    → FieldInRange f
    → Shows v.buf key (key_of f)
    → unread v ≡ value_bytes f ++ rest
    → parse_value v key ch ≡ some (skip v (length (value_bytes f)), some (set_field ch f))
unfolding parse_value same_text
parse_value_lem v key ch (sn n) rest valid short fits shows at = rw (
  key_test v key (sn n) sn_key shows nonzero2 (omega arith),
  ◌>>=◌,
  get_uint32_lem v valid short rest n fits at,
)
parse_value_lem v key ch (req b) rest valid short fits shows at = rw (
  key_test v key (req b) sn_key shows nonzero2 (omega arith),
  ◌>>=◌,
  key_test v key (req b) req_key shows nonzero3 (omega arith),
  get_bool_lem v valid short rest b at,
)
parse_value_lem v key ch (noti b) rest valid short fits shows at = rw (
  key_test v key (noti b) sn_key shows nonzero2 (omega arith),
  ◌>>=◌,
  key_test v key (noti b) req_key shows nonzero3 (omega arith),
  key_test v key (noti b) noti_key shows nonzero4 (omega arith),
  get_bool_lem v valid short rest b at,
)

abbrev pub hdr_bytes : List Field → List ℕ
hdr_bytes fs = groups 4 (length fs) ++ fields_bytes fs

length-key : (f : Field) → length (key_of f) < u32
length-key (sn n) = omega arith
length-key (req b) = omega arith
length-key (noti b) = omega arith

parse_keys_lem :
    (fs : List Field) (v : ZBuf) (ch : CommonHdr) (rest : List ℕ)
    → IsValid v
    → v.len < 2 ^ 31
    → All FieldInRange fs
    → unread v ≡ fields_bytes fs ++ rest
    → parse_keys (length fs) v ch
      ≡ some (skip v (length (fields_bytes fs)), some (set_fields ch fs))
unfolding parse_keys
parse_keys_lem [] v ch rest valid short fits at =
    let none_read : v.offset ≡ v.offset + 0 = omega arith in
    ap (λ o. some (record v { offset = o }, some ch)) none_read
parse_keys_lem (f ∷ fs) v ch rest valid short fits at =
    let key = str_bytes (key_of f) in
    let val = value_bytes f in
    let others = fields_bytes fs in
    let at' : unread v ≡ key ++ (val ++ (others ++ rest)) =
      at
      ∙ append_assoc key (val ++ others) rest
      ∙ ap (λ l. key ++ l) (append_assoc val others rest) in
    let (text, run, shows) =
      get_string_lem v valid short (val ++ (others ++ rest)) (key_of f) (length-key f) at' in
    let w = skip v (length key) in
    let valid' = skip-IsValid v valid key (val ++ (others ++ rest)) at' in
    let at'' = unread-skip v valid key (val ++ (others ++ rest)) at' in
    let run' = parse_value_lem w text ch f (others ++ rest) valid' short fits.0 shows at'' in
    let valid'' = skip-IsValid w valid' val (others ++ rest) at'' in
    rw (run, ◌>>=◌, run')
      (parse_keys_lem fs (skip w (length val)) (set_field ch f) rest valid'' short fits.1
          (unread-skip w valid' val (others ++ rest) at'')
        ∙ ap (λ u. some (u, some (set_fields ch (f ∷ fs))))
            (ap (λ u. skip u (length others)) (skip-append v key val)
              ∙ skip-append v (key ++ val) others
              ∙ ap (λ l. skip v (length l)) (append_assoc key val others)))

-- On a well-formed buffer of less than 2 ^ 31 bytes where the bytes of a common header stand at the
-- read position, the count of its fields and then any sequence of the keys sn, req and noti with
-- their values, `zipc_parse_common_hdr` returns true with the values of the fields, the last one of
-- each key, false or 0 for a key that is missing, and the read position is just behind the header.
pub parse_common_hdr-hdr_bytes :
    (fs : List Field) (v : ZBuf) (rest : List ℕ)
    → IsValid v
    → v.len < 2 ^ 31
    → length fs < u32
    → All FieldInRange fs
    → unread v ≡ hdr_bytes fs ++ rest
    → parse_common_hdr v ≡ some (skip v (length (hdr_bytes fs)), some (set_fields no_hdr fs))
unfolding parse_common_hdr
parse_common_hdr-hdr_bytes fs v rest valid short few fits at =
    let cnt = groups 4 (length fs) in
    let others = fields_bytes fs in
    let at' : unread v ≡ cnt ++ (others ++ rest) = at ∙ append_assoc cnt others rest in
    let run = get_len-groups v (length fs) (others ++ rest) valid short few at' in
    rw (run, ◌>>=◌)
      (parse_keys_lem fs (skip v (length cnt)) no_hdr rest
          (skip-IsValid v valid cnt (others ++ rest) at') short fits
          (unread-skip v valid cnt (others ++ rest) at')
        ∙ ap (λ u. some (u, some (set_fields no_hdr fs))) (skip-append v cnt others))
