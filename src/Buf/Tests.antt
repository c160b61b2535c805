-- ===== src/Buf/Tests.antt =====
-- Concrete buffers.
use zcrt.Base.{length, take_all, ℕ, ◌%◌, ◌<◌, ◌≡◌, refl, true, none, some, List, [], ◌∷◌, arith}
use zcrt.Buf.{
  Allocator, ZBuf, IsValid, u32, store, zcrt_realloc, grow_cap, buf_realloc, buf_append, unread,
}
use zcrt.Buf.Growth.{grow_cap_endless}
use zcrt.Buf.Append.{Appended, buf_append-Appended}

-- A libc that grants every request.
instance abbrev pub ample : Allocator
ample = record { grants = λ n. true; fresh = λ i. 204 }

pub ample-grants : (n : ℕ) → ample.grants n ≡ true
ample-grants n = refl

-- Three bytes written in a block of four, one of them read.
abbrev three_bytes : ZBuf
three_bytes = record { tag = 7; maxlen = 4; len = 3; offset = 1; buf = 10 ∷ 20 ∷ 30 ∷ 0 ∷ [] }

three_bytes-IsValid : IsValid three_bytes
three_bytes-IsValid = record {
  room = omega arith;
  fits = omega arith;
  behind = omega arith;
  narrow = omega arith;
}

buf_append-Appended_example :
    (w : ZBuf) × (buf_append three_bytes (40 ∷ 50 ∷ []) ≡ some (w, 2))
    × Appended three_bytes (40 ∷ 50 ∷ []) w
buf_append-Appended_example =
    buf_append-Appended ample-grants three_bytes (40 ∷ 50 ∷ []) three_bytes-IsValid (omega arith)

grow_cap_endless_example : grow_cap 100 1 (2147483648 % u32) ≡ none
grow_cap_endless_example = grow_cap_endless 2147483647 100 (omega arith) (omega arith)

-- The block that the append leaves: 8 bytes, of which the last three are still as libc gave them.
append_run :
    buf_append three_bytes (40 ∷ 50 ∷ [])
    ≡ some (
      record {
        tag = 7;
        maxlen = 5;
        len = 5;
        offset = 1;
        buf = 10 ∷ 20 ∷ 30 ∷ 40 ∷ 50 ∷ 204 ∷ 204 ∷ 204 ∷ [];
      },
      2,
    )
unfolding buf_append buf_realloc grow_cap zcrt_realloc store
append_run = refl

-- A full buffer of the given bytes, none of which has been read.
abbrev pub buffer_of : List ℕ → ZBuf
buffer_of bytes = record {
  tag = 0;
  maxlen = length bytes;
  len = length bytes;
  offset = 0;
  buf = bytes;
}

pub buffer_of-IsValid : (bytes : List ℕ) → length bytes < u32 → IsValid (buffer_of bytes)
buffer_of-IsValid bytes small = record {
  room = omega arith;
  fits = omega arith;
  behind = omega arith;
  narrow = small;
}

pub unread-buffer_of : (bytes : List ℕ) → unread (buffer_of bytes) ≡ bytes
unread-buffer_of bytes = take_all (length bytes) bytes (omega arith)
