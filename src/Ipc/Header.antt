-- ===== src/Ipc/Header.antt =====
-- zipc/zipc_parse.c and zipc/zipc_parse.h: the header of a message, the common header of its
-- payload, and the parts that replies are put together from.
pub mod Fields
pub mod Replies
pub mod Round
use zcrt.Buf.{buf_append}
use mathlib.Core.Option
use zcrt.Base.{
  ◌==◌, if◌then◌else◌, Run, ◌>>=◌, get_or, drop, ℕ, zero, suc, ◌+◌, ◌*◌, ◌/◌, ◌%◌, Bool, false,
  Option, none, some, List, [], ◌∷◌, map,
}
use zcrt.Tlv.Value.{
  get_bool, get_ignore, get_int, get_string, put_bool, put_int, put_lstring, put_table_cnt,
  put_uint32,
}
use zcrt.Tlv.Len.{get_len, put_len}
use zcrt.Text.{is_eq, str_buf_cmp}
use zcrt.Err.{ZcrtErr, err_code}
use zcrt.Buf.{Allocator, ZBuf, ZStr}

-- The strings of the protocol, as bytes.
abbrev pub sn_key : List ℕ
sn_key = 115 ∷ 110 ∷ []

abbrev pub req_key : List ℕ
req_key = 114 ∷ 101 ∷ 113 ∷ []

abbrev pub noti_key : List ℕ
noti_key = 110 ∷ 111 ∷ 116 ∷ 105 ∷ []

abbrev pub err_key : List ℕ
err_key = 101 ∷ 114 ∷ 114 ∷ []

abbrev pub ret_key : List ℕ
ret_key = 114 ∷ 101 ∷ 116 ∷ []

abbrev pub type_default : ℕ
type_default = 0

abbrev pub type_link : ℕ
type_link = 1

abbrev pub head_len : ℕ
head_len = 10

-- The ten bytes of a `ZIPCMsgHdr` with the signature GL, version 0 and payload size 0. Both numbers
-- of the source are put into network order.
unfoldable pub msg_hdr : ℕ → List ℕ
msg_hdr app_type = 71 ∷ 76 ∷ 0 ∷ 0 ∷ (app_type / 256 % 256) ∷ (app_type % 256) ∷ 0 ∷ 0 ∷ 0 ∷ 0 ∷ []

-- `hdr` has at least two bytes.
unfoldable pub parse_check_hdr : List ℕ → Bool
parse_check_hdr hdr = get_or hdr 0 0 * 256 + get_or hdr 1 0 == 71 * 256 + 76

-- `ZIPCMsgCH`
pub record CommonHdr : Type 0 where
  pub sn : ℕ
  pub req : Bool
  pub noti : Bool

-- What the pointer of a string shows; a NULL pointer is not compared.
abbrev pub text_bytes : ZBuf → ZStr → Option (List ℕ)
text_bytes v text = Option.map (λ p. drop p v.buf) text.ptr

-- `zstr_buf_cmp(&key, name)==0`
unfoldable pub is_named : ZBuf → ZStr → List ℕ → Run Bool
is_named v key name = do
  ptr ← text_bytes v key
  order ← str_buf_cmp key.len ptr name
  some (is_eq order)

-- The value behind one key; `none` for the header is false.
unfoldable pub parse_value : ZBuf → ZStr → CommonHdr → Run (ZBuf × Option CommonHdr)
parse_value v key ch = is_named v key sn_key >>= λ sn.
    if sn
    then (get_int v >>= λ r. some (r.0, Option.map (λ n. record ch { sn = n }) r.1))
    else (is_named v key req_key >>= λ req.
        if req
        then (get_bool v >>= λ r. some (r.0, Option.map (λ b. record ch { req = b }) r.1))
        else (is_named v key noti_key >>= λ noti.
            if noti
            then (get_bool v >>= λ r. some (r.0, Option.map (λ b. record ch { noti = b }) r.1))
            else (get_ignore v >>= λ r. some (r.0, some ch))))

-- The loop, with the number of keys that are left.
unfoldable pub parse_keys : ℕ → ZBuf → CommonHdr → Run (ZBuf × Option CommonHdr)
parse_keys zero v ch = some (v, some ch)
parse_keys (suc n) v ch = get_string v >>= λ got. elim got.1 [
  | none ↦ some (got.0, none)
  | some key ↦ parse_value got.0 key ch >>= λ r. elim r.1 [
    | none ↦ some (r.0, none)
    | some ch' ↦ parse_keys n r.0 ch'
  ]
]

abbrev pub no_hdr : CommonHdr
no_hdr = record { sn = 0; req = false; noti = false }

unfoldable pub parse_common_hdr : ZBuf → Run (ZBuf × Option CommonHdr)
parse_common_hdr v = get_len v >>= λ r. if r.2 then parse_keys r.1 r.0 no_hdr else some (r.0, none)

module _ ⦃alloc : Allocator⦄ where
  -- The length is not reset.
  unfoldable pub parse_init_buf : ZBuf → ℕ → Run ZBuf
  parse_init_buf v app_type =
      buf_append (record v { offset = 0 }) (msg_hdr app_type) >>= λ r. some r.0

  unfoldable pub put_reply_commonhdr : ZBuf → CommonHdr → Bool → Run ZBuf
  put_reply_commonhdr v ch req = do
    v1 ← put_len v 2
    v2 ← put_lstring v1 (some sn_key)
    v3 ← put_uint32 v2 ch.sn
    v4 ← put_lstring v3 (some req_key)
    put_bool v4 req

  unfoldable pub put_reply_errcode : ZBuf → ZcrtErr → Run ZBuf
  put_reply_errcode v err = do
    v1 ← put_len v 1
    v2 ← put_lstring v1 (some err_key)
    put_int v2 (err_code err)

  unfoldable pub put_reply_req_result : ZBuf → ℕ → Run ZBuf
  put_reply_req_result v cnt = do
    v1 ← put_len v 1
    v2 ← put_lstring v1 (some ret_key)
    put_table_cnt v2 cnt

  -- `id` is the number that `zcrt_unique_id` returns.
  unfoldable pub encode_common_hdr : ZBuf → ℕ → Bool → Bool → Run ZBuf
  encode_common_hdr v id req noti = do
    v1 ← put_len v 3
    v2 ← put_lstring v1 (some sn_key)
    v3 ← put_uint32 v2 id
    v4 ← put_lstring v3 (some req_key)
    v5 ← put_bool v4 req
    v6 ← put_lstring v5 (some noti_key)
    put_bool v6 noti
