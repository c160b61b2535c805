-- ===== src/Ipc/Server.antt =====
-- zipc/zipc_server_os.c: the threads and jobs of the server. A round of a client's thread, and each job
-- of a scheduler, is one step on the state that they share. What recv returns, whether malloc grants
-- a struct and whether a scheduler takes a job are arguments; jobs wait in lists.
pub mod Recv
pub mod Respond
pub mod Jobs
pub mod Drain
pub mod Wire
pub mod Tests
use zcrt.Base.{
  leb, ◌==◌, if◌then◌else◌, Run, ◌>>=◌, length, get_or, take, drop, ℕ, zero, suc, ◌+◌, ◌-◌, ◌*◌,
  Bool, true, false, not, ◌&&◌, Option, none, some, List, [], ◌∷◌, ◌++◌,
}
use zcrt.Os.{AtomOps}
use zcrt.Ipc.Request.{parse_payload}
use zcrt.Ipc.Pool.{buf_len, zipc_buf_free, zipc_buf_malloc}
use zcrt.Ipc.Link.{Subscriber, parse_app_link}
use zcrt.Ipc.Header.{head_len, parse_check_hdr, type_link}
use zcrt.Ipc.EventOut.{encode_event, set_payload_size}
use zcrt.Ipc.Comp.{Server}
use zcrt.Event.{Event, event_unregister, max_evt}
use zcrt.Err.{ZcrtErr, is_success}
use zcrt.Buf.{Allocator, ZBuf, buf_realloc, store, u32}

-- Answers of malloc for a `ZBuf` and for a node of an event, and of `zcrt_schedule_sendjob`.
pub record Luck : Type 0 where
  pub granted : Bool
  pub node : Bool
  pub taken : Bool

-- `_zstZIPCClient`, with the subscription that it hooks events with.
pub record Client : Type 0 where
  pub sub : Subscriber
  pub is_event_hooked : Bool
  pub jobcnt : ℕ

-- A job of `sch`: a message to be answered.
pub record Work : Type 0 where
  pub ibuf : ZBuf
  pub app_type : ℕ

-- The counters of the system that the server is built for, the server, the manager of events, one
-- client, the jobs of `sch`, of `respondSch` and of `evtSch`, and what has been sent to the client.
pub record World : Type 0 where
  pub atoms : AtomOps
  pub server : Server
  pub events : Option Event
  pub client : Client
  pub works : List Work
  pub replies : List ZBuf
  pub notices : List ZBuf
  pub wire : List (List ℕ)

-- 'Z', 'I', 'P', 'C'
abbrev pub zipc_tag : ℕ
zipc_tag = 90 + 73 * 256 + 80 * 65536 + 67 * 16777216

-- What one call of recv puts into the buffer that it is given, or SOCKET_ERROR.
abbrev pub Received : Type 0
Received = Option (List ℕ)

abbrev pub from_be32 : List ℕ → ℕ
from_be32 bytes =
    get_or bytes 0 0 * 16777216
    + get_or bytes 1 0 * 65536
    + get_or bytes 2 0 * 256
    + get_or bytes 3 0

-- The type and the payload size, in the host's order; `none` is false.
unfoldable pub recv_hdr : Received → Option (ℕ × ℕ)
recv_hdr none = none
recv_hdr (some hdr) =
    let size = from_be32 (drop 6 hdr) in
    if length hdr == head_len && parse_check_hdr hdr && not (leb buf_len size)
    then some (get_or hdr 4 0 * 256 + get_or hdr 5 0, size)
    else none

-- The block afterwards, and whether the whole payload has come. recv writes no more than it is asked
-- for, and fails for a block that is NULL.
unfoldable pub recv_payload : ℕ → Received → List ℕ → Run (List ℕ × Bool)
recv_payload size none block = some (block, false)
recv_payload size (some bytes) block =
    if length block == 0 && not (size == 0)
    then some (block, false)
    else (store block 0 (take size bytes) >>= λ block'.
        some (block', length (take size bytes) == size))

abbrev pub set_free : World → List ZBuf → World
set_free w l = record w { server = record w.server { freebuf = l } }

unfoldable pub give_back : World → ZBuf → Run World
give_back w buf = zipc_buf_free w.server.freebuf (some buf) >>= λ l. some (set_free w l)

abbrev pub set_jobcnt : World → ℕ → World
set_jobcnt w n = record w { client = record w.client { jobcnt = n } }

-- The counter after `zcrt_atom_inc` and `zcrt_atom_dec`.
unfoldable pub inc_jobcnt : World → World
inc_jobcnt w = set_jobcnt w (w.atoms.atom_inc w.client.jobcnt).0

unfoldable pub dec_jobcnt : World → World
dec_jobcnt w = set_jobcnt w (w.atoms.atom_dec w.client.jobcnt).0

-- `sent` is how many bytes send takes; the code does not look at it.
unfoldable pub buf_send_job : World → ℕ → ZBuf → Run World
buf_send_job w sent buf =
    give_back (record w { wire = w.wire ++ (take sent (take buf.len buf.buf) ∷ []) }) buf

-- A job goes to the scheduler, or the buffer back.
unfoldable pub send_reply : World → Bool → ZBuf → Run World
send_reply w taken obuf =
    if taken then some (record w { replies = w.replies ++ (obuf ∷ []) }) else give_back w obuf

unfoldable pub respond : World → Bool → ZBuf → Run World
respond w taken obuf =
    if obuf.len == 0
    then give_back w obuf
    else (set_payload_size obuf >>= λ o. send_reply w taken o)

-- What answering a message leaves behind: whether events have been hooked, the manager of events,
-- and the two buffers.
pub record Answered : Type 0 where
  pub hooked : Bool
  pub events : Option Event
  pub ibuf : ZBuf
  pub obuf : ZBuf

abbrev pub after_answer : World → Answered → World
after_answer w a = record w {
  client = record w.client { is_event_hooked = a.hooked };
  events = a.events;
}

module _ ⦃alloc : Allocator⦄ where
  unfoldable pub answer_work :
      Server → Subscriber → Bool → Option Event → Bool → Work → ZBuf → Run Answered
  answer_work s sub hooked events node work obuf =
      if work.app_type == type_link
      then (parse_app_link s events node sub work.ibuf obuf >>= λ l.
          some (record { hooked = true; events = l.events; ibuf = l.ibuf; obuf = l.obuf }))
      else (parse_payload s work.app_type work.ibuf obuf >>= λ (ibuf, o, ret).
          some (record { hooked = hooked; events = events; ibuf = ibuf; obuf = o }))

  -- Without a buffer for the reply the job returns early.
  unfoldable pub proc_with : World → Luck → Work → Option ZBuf → Run World
  proc_with w luck work none = give_back w work.ibuf
  proc_with w luck work (some obuf) =
      answer_work w.server w.client.sub w.client.is_event_hooked w.events luck.node work obuf
      >>= λ a. respond (after_answer w a) luck.taken a.obuf >>= λ w1.
          give_back w1 a.ibuf >>= λ w2. some (dec_jobcnt w2)

  unfoldable pub msg_proc_job : World → Luck → Work → Run World
  msg_proc_job w luck work =
      let (l, obuf) = zipc_buf_malloc w.server.freebuf zipc_tag luck.granted in
      proc_with (set_free w l) luck work obuf

  -- The scheduler takes the jobs of `sch` in turn.
  unfoldable pub run_works : World → List Luck → List Work → Run World
  run_works w lucks [] = some w
  run_works w [] (work ∷ works) = some (record w { works = work ∷ works })
  run_works w (luck ∷ lucks) (work ∷ works) =
      msg_proc_job (record w { works = works }) luck work >>= λ w'. run_works w' lucks works

  -- What an event sends to the client's subscription, with the number that `zcrt_unique_id` returns.
  unfoldable pub send_notice : World → Bool → ZBuf × ZcrtErr → Run World
  send_notice w taken (buf, ret) =
      if is_success ret
      then (if taken
          then some (record w { notices = w.notices ++ (buf ∷ []) })
          else give_back w buf)
      else give_back w buf

  unfoldable pub hookevent_with : World → Bool → ℕ → ℕ → ℕ → Option ZBuf → Run World
  hookevent_with w taken id evtid evtdata none = some w
  hookevent_with w taken id evtid evtdata (some buf) =
      encode_event w.server id evtid evtdata buf >>= λ r. send_notice w taken r

  unfoldable pub hookevent_cb : World → Luck → ℕ → ℕ → ℕ → Run World
  hookevent_cb w luck id evtid evtdata =
      let (l, buf) = zipc_buf_malloc w.server.freebuf zipc_tag luck.granted in
      hookevent_with (set_free w l) luck.taken id evtid evtdata buf

  -- A message that has come goes to the scheduler, and the thread takes another buffer; without one
  -- it leaves the loop, as the `false` says.
  unfoldable pub queue_work : World → Luck → Work → Run (World × Option ZBuf × Bool)
  queue_work w luck work =
      let w1 = inc_jobcnt w in
      (if luck.taken
        then some (record w1 { works = w1.works ++ (work ∷ []) })
        else give_back (dec_jobcnt w1) work.ibuf)
      >>= λ w2.
          let (l, buf) = zipc_buf_malloc w2.server.freebuf zipc_tag luck.granted in
          some (set_free w2 l, buf, elim buf [ none ↦ false | some b ↦ true ])

  unfoldable pub got_payload :
      World → Luck → ZBuf → ℕ × ℕ → List ℕ × Bool → Run (World × Option ZBuf × Bool)
  got_payload w luck buf (app_type, size) (block, whole) =
      if whole
      then queue_work w luck (record {
        ibuf = record buf { len = size; offset = 0; buf = block };
        app_type = app_type;
      })
      else some (w, some (record buf { buf = block }), false)

  unfoldable pub got_hdr :
      World → Luck → ZBuf → Received → Option (ℕ × ℕ) → Run (World × Option ZBuf × Bool)
  got_hdr w luck buf payload none = some (w, some buf, false)
  got_hdr w luck buf payload (some hdr) = buf_realloc buf hdr.1 >>= λ r.
      recv_payload hdr.1 payload r.0.buf >>= λ p. got_payload w luck r.0 hdr p

  -- One round of the loop of `_zipc_client_thread`.
  unfoldable pub client_round :
      World → Luck → ZBuf → Received → Received → Run (World × Option ZBuf × Bool)
  client_round w luck buf hdr payload = got_hdr w luck buf payload (recv_hdr hdr)

-- `for (i=1; i<ZCRT_MAX_EVT; i++)`, with `n` events left.
unfoldable pub unhook_all : ℕ → Option Event → Subscriber → Run (Option Event)
unhook_all zero events sub = some events
unhook_all (suc n) events sub =
    event_unregister events (max_evt - suc n) sub.cb sub.p1 sub.p2 >>= λ events'.
    unhook_all n events' sub

-- The end of the client's thread, when the loop over `jobcnt` has ended.
unfoldable pub client_end : World → Option ZBuf → Run World
client_end w buf =
    (if w.client.is_event_hooked
      then unhook_all (max_evt - 1) w.events w.client.sub
      else some w.events)
    >>= λ events. elim buf [
      | none ↦ some (record w { events = events })
      | some b ↦ give_back (record w { events = events }) b
    ]
