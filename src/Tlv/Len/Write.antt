-- ===== src/Tlv/Len/Write.antt =====
-- zipc/zipc_tlv.c: `_zcrt_tlv_write_len` writes the seven-bit groups, and how they are appended.
use zcrt.Base.{◌>>=◌, length, ℕ, ◌+◌, ◌/◌, ◌%◌, ◌^◌, ◌<◌, ◌≡◌, ap, ◌∙◌, true, some, List, arith}
use zcrt.Base.Bits.{or_top_bit, and_low}
use zcrt.Buf.{Allocator, ZBuf, IsValid, u32, store, buf_realloc}
use zcrt.Buf.Growth.{buf_realloc-Grown}
use zcrt.Buf.Append.{Appended, write_end}
use zcrt.Tlv.Zigzag.{zigzag_encode32, zigzag_encode32-lt}
use zcrt.Tlv.Len.{marked, unmarked, tlv_write_len, put_len, write_var_int}
use zcrt.Tlv.Len.Groups.{groups, length-groups}

pub marked_lem : (v : ℕ) → marked v ≡ v % 128 + 128
marked_lem v = or_top_bit v

pub unmarked_lem : (v : ℕ) → unmarked v ≡ v % 128
unmarked_lem v = and_low (marked v) (omega (arith, marked_lem v)) ∙ omega (arith, marked_lem v)

-- For every uint32_t the branches of `_zcrt_tlv_write_len` leave its seven-bit groups in the
-- buffer, lowest first, with the top bit set on all but the last, and no group too many.
pub tlv_write_len-groups : (v : ℕ) → v < u32 → tlv_write_len v ≡ groups 4 v
unfolding tlv_write_len groups
tlv_write_len-groups v h = ground (
  arith,
  marked_lem v,
  marked_lem (v / 2 ^ 7),
  marked_lem (v / 2 ^ 14),
  marked_lem (v / 2 ^ 21),
  unmarked_lem v,
  unmarked_lem (v / 2 ^ 7),
  unmarked_lem (v / 2 ^ 14),
  unmarked_lem (v / 2 ^ 21),
)

put_len_run :
    ⦃alloc : Allocator⦄ (v w : ZBuf) (n m : ℕ) (block : List ℕ)
    → buf_realloc v ((v.len + 5) % u32) ≡ some (w, m)
    → store w.buf w.len (tlv_write_len n) ≡ some block
    → put_len v n ≡ some (record w { buf = block; len = (w.len + length (tlv_write_len n)) % u32 })
unfolding put_len
put_len_run v w n m block run stored = rw (run, ◌>>=◌, stored)

module _ ⦃alloc : Allocator⦄ (granted : (n : ℕ) → alloc.grants n ≡ true) where
  -- Where libc grants every request, and for a well-formed buffer whose contents leave room below
  -- 2 ^ 31, `ztlv_put_len` does not fault and appends exactly the groups of the uint32_t.
  pub put_len-Appended :
      (v : ZBuf) (n : ℕ)
      → IsValid v
      → n < u32
      → v.len + 6 < 2 ^ 31
      → (w : ZBuf) × (put_len v n ≡ some w) × Appended v (groups 4 n) w
  put_len-Appended v n valid small h =
      let room : (v.len + 5) % u32 ≡ v.len + 5 = omega arith in
      let bytes = tlv_write_len-groups n small in
      let (_, short) = length-groups 4 n in
      let (w, run, g) = buf_realloc-Grown granted v (v.len + 5) valid (omega arith) in
      let (block, stored, done) = write_end v w (v.len + 5) (groups 4 n) g (omega arith) in
      let size : (w.len + length (groups 4 n)) % u32 ≡ v.len + length (groups 4 n) =
        omega (arith, g.same_len) in
      (
        record w { buf = block; len = v.len + length (groups 4 n) },
        put_len_run v w n (v.len + 5) block (ap (buf_realloc v) room ∙ run)
              (ap (store w.buf w.len) bytes ∙ stored)
            ∙ ap (λ l. some (record w { buf = block; len = l }))
                (ap (λ l. (w.len + length l) % u32) bytes ∙ size),
        done,
      )

  pub write_var_int-Appended :
      (v : ZBuf) (n : ℕ)
      → IsValid v
      → n < u32
      → v.len + 6 < 2 ^ 31
      → (w : ZBuf) × (write_var_int v n ≡ some w) × Appended v (groups 4 (zigzag_encode32 n)) w
  unfolding write_var_int
  write_var_int-Appended v n valid small h =
      put_len-Appended v (zigzag_encode32 n) valid (zigzag_encode32-lt n small) h
