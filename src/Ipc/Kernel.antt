-- ===== src/Ipc/Kernel.antt =====
-- zipc/zipc_server_kernal.c: the server in the kernel. Messages come from netlink, and jobs carry the
-- number of the process that is to get the reply.
pub mod Leaks
pub mod Tests
use zcrt.Base.{
  ltb, leb, ◌==◌, if◌then◌else◌, Run, ◌>>=◌, length, get_or, take, drop, ℕ, ◌+◌, ◌-◌, ◌*◌, ◌%◌,
  Bool, not, ◌&&◌, Option, none, some, List, [], ◌∷◌, ◌++◌,
}
use zcrt.Buf.{u32}
use zcrt.Ipc.Server.{from_be32, zipc_tag}
use zcrt.Ipc.Request.{parse_payload}
use zcrt.Ipc.Pool.{buf_len, zipc_buf_free, zipc_buf_malloc}
use zcrt.Ipc.Link.{Subscriber, parse_app_link}
use zcrt.Ipc.Header.{head_len, parse_check_hdr, type_link}
use zcrt.Ipc.EventOut.{encode_event, set_payload_size}
use zcrt.Ipc.Comp.{Server}
use zcrt.Event.{Event}
use zcrt.Err.{ZcrtErr, is_success}
use zcrt.Buf.{Allocator, ZBuf, buf_append}
use zcrt.Ipc.Server.{Luck}

-- A job of `sch`.
pub record Work : Type 0 where
  pub ibuf : ZBuf
  pub app_type : ℕ
  pub pid : ℕ

-- A job of `respondSch` or of `evtSch`.
pub record Send : Type 0 where
  pub buf : ZBuf
  pub pid : ℕ

-- The server `s_kipc`, the manager of events, the jobs that wait, and what has been sent. `cb` and
-- `ipc` stand for the addresses of `_zipc_hookevent_cb` and of the server.
pub record World : Type 0 where
  pub server : Server
  pub events : Option Event
  pub cb : ℕ
  pub ipc : ℕ
  pub works : List Work
  pub replies : List Send
  pub notices : List Send
  pub wire : List Send

-- NLMSG_SPACE(ZIPC_HEAD_LEN) and NLMSG_LENGTH(0) of the kernel.
abbrev pub nlmsg_space : ℕ
nlmsg_space = 28

abbrev pub nlmsg_length : ℕ
nlmsg_length = 16

-- A message of netlink: the length of the packet, the length that its header says, the data behind
-- the header, and the process that sent it.
pub record Packet : Type 0 where
  pub skb_len : ℕ
  pub nlmsg_len : ℕ
  pub content : List ℕ
  pub pid : ℕ

-- The type and the payload size; `none` is false. memcpy takes ten bytes. `datalen` is an int that is
-- compared as an unsigned number.
unfoldable pub recv_hdr : List ℕ → ℕ → Run (Option (ℕ × ℕ))
recv_hdr bytes datalen =
    if leb head_len (length bytes)
    then (let size = from_be32 (drop 6 bytes) in
        some (
          if parse_check_hdr bytes && (not (leb buf_len size) && leb (size + head_len) datalen)
          then some (get_or bytes 4 0 * 256 + get_or bytes 5 0, size)
          else none))
    else none

abbrev pub set_free : World → List ZBuf → World
set_free w l = record w { server = record w.server { freebuf = l } }

unfoldable pub give_back : World → ZBuf → Run World
give_back w buf = zipc_buf_free w.server.freebuf (some buf) >>= λ l. some (set_free w l)

-- `granted` is what nlmsg_new answers. The assertion on the length only prints.
unfoldable pub netlink_send : World → Bool → Send → Run World
netlink_send w granted job =
    if not granted
    then give_back w job.buf
    else give_back (record w { wire = w.wire ++ (job ∷ []) }) job.buf

-- A job goes to the scheduler, or the buffer back.
unfoldable pub send_reply : World → Bool → Send → Run World
send_reply w taken job =
    if taken then some (record w { replies = w.replies ++ (job ∷ []) }) else give_back w job.buf

-- An empty reply is not given back.
unfoldable pub respond : World → Bool → ℕ → ZBuf → Run World
respond w taken pid obuf =
    if obuf.len == 0
    then some w
    else (set_payload_size obuf >>= λ o. send_reply w taken (record { buf = o; pid = pid }))

abbrev pub sub_of : World → ℕ → Subscriber
sub_of w pid = record { cb = w.cb; p1 = w.ipc; p2 = pid }

module _ ⦃alloc : Allocator⦄ where
  -- The state and the two buffers after the message has been answered.
  unfoldable pub answer_work : World → Bool → Work → ZBuf → Run (World × ZBuf × ZBuf)
  answer_work w node work obuf =
      if work.app_type == type_link
      then (parse_app_link w.server w.events node (sub_of w work.pid) work.ibuf obuf >>= λ l.
          some (record w { events = l.events }, l.ibuf, l.obuf))
      else (parse_payload w.server work.app_type work.ibuf obuf >>= λ (ibuf, o, ret).
          some (w, ibuf, o))

  unfoldable pub proc_with : World → Luck → Work → Option ZBuf → Run World
  proc_with w luck work none = give_back w work.ibuf
  proc_with w luck work (some obuf) = answer_work w luck.node work obuf >>= λ (w1, ibuf, o).
      respond w1 luck.taken work.pid o >>= λ w2. give_back w2 ibuf

  unfoldable pub msg_proc_job : World → Luck → Work → Run World
  msg_proc_job w luck work =
      let (l, obuf) = zipc_buf_malloc w.server.freebuf zipc_tag luck.granted in
      proc_with (set_free w l) luck work obuf

  -- A buffer that cannot be filled is not given back.
  unfoldable pub send_notice : World → Bool → ℕ → ZBuf × ZcrtErr → Run World
  send_notice w taken pid (buf, ret) =
      if is_success ret
      then (if taken
          then some (record w { notices = w.notices ++ ((record { buf = buf; pid = pid }) ∷ []) })
          else give_back w buf)
      else some w

  unfoldable pub hookevent_with : World → Bool → ℕ → ℕ → ℕ → ℕ → Option ZBuf → Run World
  hookevent_with w taken id evtid evtdata pid none = some w
  hookevent_with w taken id evtid evtdata pid (some buf) =
      encode_event w.server id evtid evtdata buf >>= λ r. send_notice w taken pid r

  unfoldable pub hookevent_cb : World → Luck → ℕ → ℕ → ℕ → ℕ → Run World
  hookevent_cb w luck id evtid evtdata pid =
      let (l, buf) = zipc_buf_malloc w.server.freebuf zipc_tag luck.granted in
      hookevent_with (set_free w l) luck.taken id evtid evtdata pid buf

  unfoldable pub queue_work : World → Bool → Work → Run World
  queue_work w taken work =
      if taken then some (record w { works = w.works ++ (work ∷ []) }) else give_back w work.ibuf

  -- When the header is refused, the buffer is not given back.
  unfoldable pub got_hdr : World → Bool → Packet → ZBuf → Option (ℕ × ℕ) → Run World
  got_hdr w taken packet buf none = some w
  got_hdr w taken packet buf (some (app_type, size)) =
      if leb size (length (drop head_len packet.content))
      then (buf_append (record buf { len = 0; offset = 0 })
            (take size (drop head_len packet.content))
          >>= λ r.
              queue_work w taken (record { ibuf = r.0; app_type = app_type; pid = packet.pid }))
      else none

  unfoldable pub recv_with : World → Bool → Packet → Option ZBuf → Run World
  recv_with w taken packet none = some w
  recv_with w taken packet (some buf) =
      if ltb packet.skb_len nlmsg_space
      then some w
      else (recv_hdr packet.content ((packet.nlmsg_len + (u32 - nlmsg_length)) % u32) >>= λ hdr.
          got_hdr w taken packet buf hdr)

  unfoldable pub nl_data_recv : World → Luck → Packet → Run World
  nl_data_recv w luck packet =
      let (l, buf) = zipc_buf_malloc w.server.freebuf zipc_tag luck.granted in
      recv_with (set_free w l) luck.taken packet buf
