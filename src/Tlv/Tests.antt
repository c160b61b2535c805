-- ===== src/Tlv/Tests.antt =====
-- Concrete values in a buffer.
use zcrt.Base.{length, ◌+◌, ◌-◌, ◌≡◌, refl, true, some, List, [], ◌∷◌, ◌++◌, arith}
use zcrt.Buf.Tests.{ample, ample-grants}
use zcrt.Buf.{ZBuf, IsValid, unread}
use zcrt.Buf.Reading.{skip}
use zcrt.Tlv.Ty
use zcrt.Tlv.Zigzag.{zigzag_encode32, encode64, u64}
use zcrt.Tlv.Len.{get_len}
use zcrt.Tlv.Len.Groups.{groups}
use zcrt.Tlv.Len.Overread.{get_len_overread}
use zcrt.Tlv.Len64.{write_len64, read_var_int64}
use zcrt.Tlv.Len64.Write.{write_len64-groups}
use zcrt.Tlv.Len64.Read.{read_var_int64-groups}
use zcrt.Tlv.Value.Texts.{str_bytes}
use zcrt.Tlv.Value.Message.{
  Value, int, text, bool, int64, table, uint32, all_bytes, GetsAll, put_values,
  get_values-put_values,
}

-- An empty block of eight bytes.
abbrev empty_buf : ZBuf
empty_buf = record {
  tag = 1;
  maxlen = 8;
  len = 0;
  offset = 0;
  buf = 9 ∷ 9 ∷ 9 ∷ 9 ∷ 9 ∷ 9 ∷ 9 ∷ 9 ∷ [];
}

empty_buf-IsValid : IsValid empty_buf
empty_buf-IsValid = record {
  room = omega arith;
  fits = omega arith;
  behind = omega arith;
  narrow = omega arith;
}

-- The bytes `0x8a 0x02` of 266, the zigzag code of 133, behind a byte that has been read.
abbrev groups_buf : ZBuf
groups_buf = record { tag = 1; maxlen = 4; len = 3; offset = 1; buf = 5 ∷ 138 ∷ 2 ∷ 77 ∷ [] }

groups_buf-IsValid : IsValid groups_buf
groups_buf-IsValid = record {
  room = omega arith;
  fits = omega arith;
  behind = omega arith;
  narrow = omega arith;
}

groups_266 : unread groups_buf ≡ groups 4 266 ++ []
unfolding groups
groups_266 = refl

groups_133 : unread groups_buf ≡ groups 4 (zigzag_encode32 133) ++ []
unfolding groups zigzag_encode32
groups_133 = refl

groups_133_wide : unread groups_buf ≡ groups 9 (encode64 133) ++ []
unfolding groups encode64
groups_133_wide = refl

-- Everything has been read.
abbrev read_buf : ZBuf
read_buf = record { tag = 1; maxlen = 4; len = 3; offset = 3; buf = 5 ∷ 138 ∷ 2 ∷ 77 ∷ [] }

read_buf-IsValid : IsValid read_buf
read_buf-IsValid = record {
  room = omega arith;
  fits = omega arith;
  behind = omega arith;
  narrow = omega arith;
}

abbrev sample : List Value
sample =
    int 133
    ∷ text (104 ∷ 105 ∷ [])
    ∷ bool true
    ∷ int64 (u64 - 5000000000)
    ∷ table 2
    ∷ uint32 3000000000
    ∷ []

sample_size : length (all_bytes sample) ≡ 22
unfolding groups zigzag_encode32 encode64
sample_size = refl

get_values-put_values_example :
    (w u : ZBuf) × (put_values empty_buf sample ≡ some w) × GetsAll w sample u × (unread u ≡ [])
get_values-put_values_example =
    get_values-put_values ample-grants empty_buf sample empty_buf-IsValid refl
      (omega arith, (omega arith, (tt, (omega arith, (omega arith, (omega arith, tt))))))
      (omega (arith, sample_size))

write_len64-groups_example : write_len64 (u64 - 1) ≡ groups 9 (u64 - 1)
write_len64-groups_example = write_len64-groups (u64 - 1) (omega arith)

read_var_int64-groups_example :
    read_var_int64 groups_buf ≡ some (skip groups_buf (length (groups 9 (encode64 133))), some 133)
read_var_int64-groups_example =
    read_var_int64-groups groups_buf 133 [] groups_buf-IsValid (omega arith) (omega arith)
      groups_133_wide

get_len_overread_example : get_len read_buf ≡ some (record read_buf { offset = 3 + 1 }, 77, true)
get_len_overread_example =
    get_len_overread read_buf 77 read_buf-IsValid (omega arith) refl refl (omega arith)

-- The string "hi".
abbrev hi_buf : ZBuf
hi_buf = record { tag = 1; maxlen = 4; len = 4; offset = 0; buf = Ty.str ∷ 2 ∷ 104 ∷ 105 ∷ [] }

hi_buf-IsValid : IsValid hi_buf
hi_buf-IsValid = record {
  room = omega arith;
  fits = omega arith;
  behind = omega arith;
  narrow = omega arith;
}

hi_bytes : unread hi_buf ≡ str_bytes (104 ∷ 105 ∷ []) ++ []
unfolding groups
hi_bytes = refl
