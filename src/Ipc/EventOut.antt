-- ===== src/Ipc/EventOut.antt =====
-- zipc/zipc_parse.c: the message that tells a client of an event.
pub mod Size
pub mod Encode
use zcrt.Tlv.Value.{put_int, put_uint32}
use zcrt.Tlv.Len.{put_len}
use zcrt.Ipc.Request.{failed}
use zcrt.Ipc.Header.{encode_common_hdr, head_len, parse_init_buf, type_link}
use zcrt.Ipc.Comp.{Encoder, Server, server_get_event_encode}
use zcrt.Err.{ZcrtErr, ipc_not_support, success}
use zcrt.Buf.{Allocator, ZBuf, store, u32}
use zcrt.Base.{
  ◌==◌, if◌then◌else◌, Run, ◌>>=◌, ℕ, ◌+◌, ◌-◌, ◌/◌, ◌%◌, true, false, Option, none, some, List, [],
  ◌∷◌,
}

-- `htonl` into four bytes.
abbrev pub be32 : ℕ → List ℕ
be32 n = (n / 16777216 % 256) ∷ (n / 65536 % 256) ∷ (n / 256 % 256) ∷ (n % 256) ∷ []

-- `rhdr->payloadSize = htonl(buf->len-ZIPC_HEAD_LEN)`, a store to bytes 6 to 9 of the block.
unfoldable pub set_payload_size : ZBuf → Run ZBuf
set_payload_size v = store v.buf 6 (be32 ((v.len + u32 - head_len) % u32)) >>= λ block.
    some (record v { buf = block })

module _ ⦃alloc : Allocator⦄ where
  -- What stands before the data of an event; `id` is the number that `zcrt_unique_id` returns.
  unfoldable pub start_event : ℕ → ℕ → ZBuf → Run ZBuf
  start_event id evtid buf = do
    b1 ← parse_init_buf buf type_link
    b2 ← encode_common_hdr b1 id false true
    b3 ← put_len b2 2
    b4 ← put_int b3 1
    b5 ← put_uint32 b4 evtid
    put_int b5 2

  -- `evtdata` is a pointer that only the encoder follows.
  unfoldable pub encode_with : Option Encoder → ℕ → ℕ → ℕ → ZBuf → Run (ZBuf × ZcrtErr)
  encode_with none id evtid evtdata buf = some (buf, ipc_not_support)
  encode_with (some fn) id evtid evtdata buf = do
    b ← start_event id evtid buf
    (b', failed) ← fn evtid evtdata b
    if failed == 0
        then (set_payload_size b' >>= λ done. some (done, success))
        else some (b', ipc_not_support)

  unfoldable pub encode_event : Server → ℕ → ℕ → ℕ → ZBuf → Run (ZBuf × ZcrtErr)
  encode_event s id evtid evtdata buf = encode_with (server_get_event_encode s) id evtid evtdata buf
