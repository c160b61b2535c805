-- ===== src/Ipc/EventOut/Encode.antt =====
-- zipc/zipc_parse.c: what an event's message holds.
use zcrt.Tlv.Value.Message.{Value}
use zcrt.Tlv.Value.{put_int, put_uint32}
use zcrt.Tlv.Len.{put_len}
use zcrt.Ipc.Header.Replies.{
  bind_some, counted_bytes, encode_common_hdr_lem, full_hdr_values, length-counted_bytes,
  parse_init_buf_lem, put_counted, put_counted_lem,
}
use zcrt.Ipc.Header.{encode_common_hdr, msg_hdr, parse_init_buf, type_link}
use zcrt.Ipc.EventOut.Size.{message, set_payload_size_lem}
use zcrt.Ipc.EventOut.{encode_event, encode_with, start_event}
use zcrt.Ipc.Comp.{Encoder, Server}
use zcrt.Err.{success}
use zcrt.Buf.Append.{Appended}
use zcrt.Buf.{Allocator, IsValid, ZBuf, contents, u32}
use zcrt.Base.{
  ◌>>=◌, ℕ, ◌<◌, ◌≡◌, sym, ap, ◌∙◌, true, false, some, List, [], ◌∷◌, ◌++◌, append_assoc, arith,
}
use zcrt.Tlv.Value.Message.{int, uint32}

-- What stands between the header of the message and the data: a common header that is a notice and no
-- request, and a table of two, the number of the event as the first and the data as the second.
abbrev pub notice_values : ℕ → List Value
notice_values evtid = int 1 ∷ uint32 evtid ∷ int 2 ∷ []

abbrev pub notice_bytes : ℕ → ℕ → List ℕ
notice_bytes id evtid =
    counted_bytes 3 (full_hdr_values id false true) ++ counted_bytes 2 (notice_values evtid)

-- An encoder appends the bytes `d` for the data of an event and returns 0.
abbrev pub Encodes : Encoder → ℕ → ℕ → List ℕ → Type 0
Encodes fn evtid evtdata d =
    (w : ZBuf)
    → IsValid w
    → w.len < 200
    → (w' : ZBuf) × (fn evtid evtdata w ≡ some (w', 0)) × Appended w d w'

module _ ⦃alloc : Allocator⦄ where
  start_event-counted :
      (id evtid : ℕ) (v : ZBuf)
      → (parse_init_buf v type_link >>= λ b1.
          encode_common_hdr b1 id false true >>= λ b2. put_counted b2 2 (notice_values evtid))
        ≡ start_event id evtid v
  unfolding start_event
  start_event-counted id evtid v = λ i. parse_init_buf v type_link >>= λ b1.
      encode_common_hdr b1 id false true >>= λ b2. put_len b2 2 >>= λ b3.
      put_int b3 1 >>= λ b4. put_uint32 b4 evtid >>= λ b5. bind_some (put_int b5 2) i

module _ ⦃alloc : Allocator⦄ (granted : (n : ℕ) → alloc.grants n ≡ true) where
  start_event_lem :
      (id evtid : ℕ) (v : ZBuf)
      → IsValid v
      → v.len ≡ 0
      → id < u32
      → evtid < u32
      → (w : ZBuf) × (start_event id evtid v ≡ some w)
        × IsValid w
        × (contents w ≡ msg_hdr type_link ++ notice_bytes id evtid)
        × (w.len < 200)
  start_event_lem id evtid v valid empty small small' =
      let hdr = counted_bytes 3 (full_hdr_values id false true) in
      let body = counted_bytes 2 (notice_values evtid) in
      let (b1, run1, valid1, holds, size, at) =
        parse_init_buf_lem granted v valid type_link empty in
      let (b2, run2, p) =
        encode_common_hdr_lem granted b1 valid1 id false true small (omega (arith, size)) in
      let n2 = length-counted_bytes 3 (full_hdr_values id false true) in
      let (b3, run3, q) =
        put_counted_lem granted b2 p.valid 2 (notice_values evtid) (omega arith)
          (omega arith, (small', (omega arith, tt))) (omega (arith, p.longer, size, n2)) in
      let n3 = length-counted_bytes 2 (notice_values evtid) in
      (
        b3,
        sym (start_event-counted id evtid v) ∙ rw (run1, ◌>>=◌, run2) run3,
        q.valid,
        q.written
            ∙ ap (λ l. l ++ body) (p.written ∙ ap (λ l. l ++ hdr) holds)
            ∙ append_assoc (msg_hdr type_link) hdr body,
        omega (arith, q.longer, p.longer, size, n2, n3),
      )

  -- On a well-formed empty buffer, where libc grants every request and the server's encoder appends
  -- the bytes `d` for the data of the event, `zipc_encode_event` returns success, and the buffer
  -- holds one message of type LINK: the header, with the number of bytes behind it as the payload
  -- size, the common header of a notice, the table of the event, and `d`.
  pub encode_event-message :
      (s : Server) (fn : Encoder) (id evtid evtdata : ℕ) (d : List ℕ) (v : ZBuf)
      → IsValid v
      → v.len ≡ 0
      → id < u32
      → evtid < u32
      → s.evt_encode ≡ some fn
      → Encodes fn evtid evtdata d
      → (w : ZBuf) × (encode_event s id evtid evtdata v ≡ some (w, success))
        × IsValid w
        × (contents w ≡ message type_link (notice_bytes id evtid ++ d))
  unfolding encode_event encode_with
  encode_event-message s fn id evtid evtdata d v valid empty small small' has encodes =
      let (b, run, valid_b, holds, size) = start_event_lem id evtid v valid empty small small' in
      let (b', run', p) = encodes b valid_b size in
      let (w, run'', valid_w, now, _, _) =
        set_payload_size_lem b' type_link (notice_bytes id evtid ++ d) p.valid (
          p.written
          ∙ ap (λ l. l ++ d) holds
          ∙ append_assoc (msg_hdr type_link) (notice_bytes id evtid) d) in
      (w, rw (has, run, ◌>>=◌, run', run''), valid_w, now)
