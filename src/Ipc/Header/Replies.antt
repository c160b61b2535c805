-- ===== src/Ipc/Header/Replies.antt =====
-- zipc/zipc_parse.c: what the functions that write headers and replies append. Each of them writes a
-- count and then a run of values.
use zcrt.Base.{
  leb, if◌then◌else◌, Run, ◌>>=◌, length, take, length-append, ℕ, ◌+◌, ◌%◌, ◌^◌, ◌≤◌, ◌<◌, ◌≡◌,
  refl, sym, ap, ◌∙◌, Bool, true, false, none, some, List, [], ◌∷◌, ◌++◌, arith,
}
use zcrt.Ipc.Header.{head_len, msg_hdr, parse_init_buf}
use zcrt.Buf.Append.{buf_append-Appended}
use zcrt.Buf.{contents}
use zcrt.Tlv.Zigzag.{encode64}
use zcrt.Tlv.Value.Wide.{fits_int, long_bytes}
use zcrt.Tlv.Value.Scalars.{int_bytes}
use zcrt.Tlv.Zigzag.{zigzag_encode32}
use zcrt.Tlv.Value.Message.{AllInRange, bytes_of, put_values-Appended}
use zcrt.Err.{err_code-lt}
use zcrt.Tlv.Value.Cursor.{Puts}
use zcrt.Tlv.Value.{put_int, put_table_cnt}
use zcrt.Tlv.Len.Write.{put_len-Appended}
use zcrt.Tlv.Len.Groups.{length-groups}
use zcrt.Ipc.Header.{encode_common_hdr, put_reply_errcode, put_reply_req_result}
use zcrt.Buf.Append.{Appended-trans}
use zcrt.Buf.{IsValid, u32}
use zcrt.Tlv.Value.Message.{bool, int, uint32, int64, text, table}
use zcrt.Tlv.Value.Message.{Value, all_bytes, put_values}
use zcrt.Tlv.Value.{put_bool, put_lstring, put_uint32}
use zcrt.Tlv.Len.Groups.{groups}
use zcrt.Tlv.Len.{put_len}
use zcrt.Ipc.Header.{CommonHdr, err_key, noti_key, put_reply_commonhdr, req_key, ret_key, sn_key}
use zcrt.Err.{ZcrtErr, err_code}
use zcrt.Buf.{Allocator, ZBuf}

pub bind_some : (run : Run ZBuf) → (run >>= λ w. some w) ≡ run
bind_some none = refl
bind_some (some w) = refl

-- A count, and the values behind it.
abbrev pub counted_bytes : ℕ → List Value → List ℕ
counted_bytes n xs = groups 4 n ++ all_bytes xs

abbrev pub hdr_values : ℕ → Bool → List Value
hdr_values id req = text sn_key ∷ uint32 id ∷ text req_key ∷ bool req ∷ []

abbrev pub full_hdr_values : ℕ → Bool → Bool → List Value
full_hdr_values id req noti =
    text sn_key ∷ uint32 id ∷ text req_key ∷ bool req ∷ text noti_key ∷ bool noti ∷ []

abbrev pub err_values : ZcrtErr → List Value
err_values err = text err_key ∷ int (err_code err) ∷ []

abbrev pub ret_values : ℕ → List Value
ret_values cnt = text ret_key ∷ table cnt ∷ []

-- At least as many bytes as a value takes up.
abbrev pub room_of : Value → ℕ
room_of (bool b) = 1
room_of (text s) = 6 + length s
room_of _ = 11

abbrev pub room_of_all : List Value → ℕ
room_of_all [] = 0
room_of_all (x ∷ xs) = room_of x + room_of_all xs

length-either : (n m : ℕ) (b : Bool) → length (if b then int_bytes m else long_bytes n) ≤ 11
length-either n m true = omega (arith, length-groups 4 (zigzag_encode32 m))
length-either n m false = omega (arith, length-groups 9 (encode64 n))

pub length-int_bytes : (n : ℕ) → length (int_bytes n) ≤ 11
length-int_bytes n = omega (arith, length-groups 4 (zigzag_encode32 n))

length-bytes_of : (x : Value) → length (bytes_of x) ≤ room_of x
length-bytes_of (bool b) = omega arith
length-bytes_of (int n) = length-int_bytes n
length-bytes_of (uint32 n) = length-either n n (leb n 2147483647)
length-bytes_of (int64 n) = length-either n (n % u32) (fits_int n)
length-bytes_of (text s) =
    omega (arith, length-append (groups 4 (length s)) s, length-groups 4 (length s))
length-bytes_of (table n) = omega (arith, length-groups 4 n)

length-all_bytes : (xs : List Value) → length (all_bytes xs) ≤ room_of_all xs
length-all_bytes [] = omega arith
length-all_bytes (x ∷ xs) =
    omega (arith, length-append (bytes_of x) (all_bytes xs), length-bytes_of x, length-all_bytes xs)

pub length-counted_bytes :
    (n : ℕ) (xs : List Value) → length (counted_bytes n xs) ≤ 5 + room_of_all xs
length-counted_bytes n xs =
    omega (arith, length-append (groups 4 n) (all_bytes xs), length-groups 4 n, length-all_bytes xs)

module _ ⦃alloc : Allocator⦄ where
  -- A count, and then the put calls for the values.
  abbrev pub put_counted : ZBuf → ℕ → List Value → Run ZBuf
  put_counted v n xs = put_len v n >>= λ w. put_values w xs

  put_reply_commonhdr-counted :
      (v : ZBuf) (ch : CommonHdr) (r : Bool)
      → put_counted v 2 (hdr_values ch.sn r) ≡ put_reply_commonhdr v ch r
  unfolding put_reply_commonhdr
  put_reply_commonhdr-counted v ch r = λ i. put_len v 2 >>= λ v1.
      put_lstring v1 (some sn_key) >>= λ v2. put_uint32 v2 ch.sn >>= λ v3.
      put_lstring v3 (some req_key) >>= λ v4. bind_some (put_bool v4 r) i

  put_reply_errcode-counted :
      (v : ZBuf) (err : ZcrtErr) → put_counted v 1 (err_values err) ≡ put_reply_errcode v err
  unfolding put_reply_errcode
  put_reply_errcode-counted v err = λ i. put_len v 1 >>= λ v1.
      put_lstring v1 (some err_key) >>= λ v2. bind_some (put_int v2 (err_code err)) i

  put_reply_req_result-counted :
      (v : ZBuf) (cnt : ℕ) → put_counted v 1 (ret_values cnt) ≡ put_reply_req_result v cnt
  unfolding put_reply_req_result
  put_reply_req_result-counted v cnt = λ i. put_len v 1 >>= λ v1.
      put_lstring v1 (some ret_key) >>= λ v2. bind_some (put_table_cnt v2 cnt) i

  encode_common_hdr-counted :
      (v : ZBuf) (id : ℕ) (r n : Bool)
      → put_counted v 3 (full_hdr_values id r n) ≡ encode_common_hdr v id r n
  unfolding encode_common_hdr
  encode_common_hdr-counted v id r n = λ i. put_len v 3 >>= λ v1.
      put_lstring v1 (some sn_key) >>= λ v2. put_uint32 v2 id >>= λ v3.
      put_lstring v3 (some req_key) >>= λ v4.
      put_bool v4 r >>= λ v5. put_lstring v5 (some noti_key) >>= λ v6. bind_some (put_bool v6 n) i

module _ ⦃alloc : Allocator⦄ (granted : (n : ℕ) → alloc.grants n ≡ true) (v : ZBuf)
    (valid : IsValid v) where
  pub put_counted_lem :
      (n : ℕ) (xs : List Value)
      → n < u32
      → AllInRange xs
      → v.len + room_of_all xs + 20 < 2 ^ 31
      → Puts (put_counted v n xs) v (counted_bytes n xs)
  put_counted_lem n xs small fits room =
      let (w, run, a) = put_len-Appended granted v n valid small (omega arith) in
      let (u, run', b) =
        put_values-Appended granted xs w a.valid fits
          (omega (arith, a.longer, length-groups 4 n, length-all_bytes xs)) in
      (u, rw (run, ◌>>=◌) run', Appended-trans (groups 4 n) (all_bytes xs) a b)

  -- The same bytes by another chain of calls.
  Puts-by :
      {run run' : Run ZBuf} (bytes : List ℕ) → run ≡ run' → Puts run v bytes → Puts run' v bytes
  Puts-by bytes same (w, ran, a) = (w, sym same ∙ ran, a)

  pub put_reply_commonhdr_lem :
      (ch : CommonHdr) (r : Bool)
      → ch.sn < u32
      → v.len + 60 < 2 ^ 31
      → Puts (put_reply_commonhdr v ch r) v (counted_bytes 2 (hdr_values ch.sn r))
  put_reply_commonhdr_lem ch r small room =
      Puts-by (counted_bytes 2 (hdr_values ch.sn r)) (put_reply_commonhdr-counted v ch r) (
        put_counted_lem 2 (hdr_values ch.sn r) (omega arith)
          (omega arith, (small, (omega arith, (tt, tt)))) (omega arith))

  pub put_reply_errcode_lem :
      (err : ZcrtErr)
      → v.len + 60 < 2 ^ 31
      → Puts (put_reply_errcode v err) v (counted_bytes 1 (err_values err))
  put_reply_errcode_lem err room =
      Puts-by (counted_bytes 1 (err_values err)) (put_reply_errcode-counted v err) (
        put_counted_lem 1 (err_values err) (omega arith) (omega arith, (err_code-lt err, tt))
          (omega arith))

  pub put_reply_req_result_lem :
      (cnt : ℕ)
      → cnt < u32
      → v.len + 60 < 2 ^ 31
      → Puts (put_reply_req_result v cnt) v (counted_bytes 1 (ret_values cnt))
  put_reply_req_result_lem cnt small room =
      Puts-by (counted_bytes 1 (ret_values cnt)) (put_reply_req_result-counted v cnt)
        (put_counted_lem 1 (ret_values cnt) (omega arith) (omega arith, (small, tt)) (omega arith))

  pub encode_common_hdr_lem :
      (id : ℕ) (r n : Bool)
      → id < u32
      → v.len + 70 < 2 ^ 31
      → Puts (encode_common_hdr v id r n) v (counted_bytes 3 (full_hdr_values id r n))
  encode_common_hdr_lem id r n small room =
      Puts-by (counted_bytes 3 (full_hdr_values id r n)) (encode_common_hdr-counted v id r n) (
        put_counted_lem 3 (full_hdr_values id r n) (omega arith)
          (omega arith, (small, (omega arith, (tt, (omega arith, (tt, tt)))))) (omega arith))

  -- A buffer that holds nothing has the header of a message and nothing else afterwards.
  pub parse_init_buf_lem :
      (app_type : ℕ)
      → v.len ≡ 0
      → (w : ZBuf) × (parse_init_buf v app_type ≡ some w)
        × IsValid w
        × (contents w ≡ msg_hdr app_type)
        × (w.len ≡ head_len)
        × (w.offset ≡ 0)
  unfolding parse_init_buf
  parse_init_buf_lem app_type empty =
      let start : IsValid (record v { offset = 0 }) = record {
        room = valid.room;
        fits = valid.fits;
        behind = omega arith;
        narrow = valid.narrow;
      } in
      let size : length (msg_hdr app_type) ≡ head_len = unfold msg_hdr in refl in
      let (w, run, a) =
        buf_append-Appended granted (record v { offset = 0 }) (msg_hdr app_type) start
          (omega (arith, size)) in
      (
        w,
        rw (run, ◌>>=◌),
        a.valid,
        a.written ∙ ap (λ n. take n v.buf ++ msg_hdr app_type) empty,
        omega (arith, a.longer, size),
        a.same_offset,
      )
