-- ===== src/Ipc/Server/Tests.antt =====
-- A server with one client.
use zcrt.Base.{
  length, length-take, ℕ, ◌≤◌, ◌≡◌, refl, ap, ◌∙◌, inl, inr, true, false, Option, some, List, [],
  ◌∷◌, ◌++◌, append_assoc, arith,
}
use zcrt.Os.{kernel_atoms}
use zcrt.Ipc.Server.Wire.{msg_proc_job-buf_send_job, no_module_body}
use zcrt.Ipc.Server.Recv.{client_round-message, sized_hdr, with_work}
use zcrt.Ipc.Server.Jobs.{Done, msg_proc_job-Done, own_buf}
use zcrt.Ipc.Server.Drain.{Answerable, Answers-Answerable, run_works-no_jobs}
use zcrt.Ipc.Link.Hook.{parse_app_link-event_register_ex}
use zcrt.Ipc.Tests.Events.{client, hook_4, hook_4-IsRequest, hook_bytes, hook_bytes-short}
use zcrt.Ipc.Tests.{two_bytes}
use zcrt.Ipc.Header.{head_len, msg_hdr, type_link}
use zcrt.Ipc.Header.Replies.{counted_bytes, hdr_values}
use zcrt.Ipc.Link.Hook.{link_result}
use zcrt.Buf.{contents}
use zcrt.Event.{Event, event_register_ex, local, manage_init}
use zcrt.Event.Order
use zcrt.Event.Order.{event_register_ex-Registered}
use zcrt.Event.Tests.{manage_init-IsValid}
use zcrt.Err.{success}
use zcrt.Ipc.Server.{buf_send_job, client_round, run_works}
use zcrt.Ipc.Request.{parse_payload}
use zcrt.Ipc.Pool.{PoolIsValid}
use zcrt.Ipc.Header.{type_default}
use zcrt.Ipc.EventOut.Size.{message}
use zcrt.Buf.{IsValid, ZBuf, unread}
use zcrt.Buf.Tests.{ample, ample-grants, buffer_of, buffer_of-IsValid, unread-buffer_of}
use zcrt.Ipc.Tests.{
  no_comps, no_comps-IsServer, none_found, fields, fields-InRange, empty, empty-IsValid,
}
use zcrt.Ipc.Tests.{ask_ab, ask_bytes, ask_ab-IsRequest, ask_bytes-short}
use zcrt.Ipc.Server.{World, Work, Luck, answer_work, set_free, msg_proc_job}

abbrev good : Luck
good = record { granted = true; node = true; taken = true }

abbrev bad : Luck
bad = record { granted = false; node = true; taken = true }

-- A message of a type that the server does not know.
abbrev strange : Work
strange = record { ibuf = empty; app_type = 5 }

-- A message that hooks event 4.
abbrev hooking : Work
hooking = record { ibuf = buffer_of hook_bytes; app_type = type_link }

abbrev world : World
world = record {
  atoms = kernel_atoms;
  server = no_comps;
  events = some manage_init;
  client = record { sub = client; is_event_hooked = false; jobcnt = 2 };
  works = strange ∷ (hooking ∷ []);
  replies = [];
  notices = [];
  wire = [];
}

-- There is a manager of events, and it is well formed.
abbrev IsManager : Option Event → Type 0
IsManager events = (m : Event) × (events ≡ some m) × Order.IsValid m

manage_init-IsManager : IsManager (some manage_init)
manage_init-IsManager = (manage_init, refl, manage_init-IsValid)

strange-Answerable : Answerable IsManager no_comps client strange
unfolding answer_work parse_payload
strange-Answerable = λ freebuf hooked events obuf inv valid nothing. (
  record { hooked = hooked; events = events; ibuf = empty; obuf = obuf },
  refl,
  empty-IsValid,
  valid,
  inl nothing,
  inv,
)

room-contents :
    (o : ZBuf) (app_type : ℕ) (body : List ℕ)
    → contents o ≡ msg_hdr app_type ++ body
    → head_len ≤ length o.buf
unfolding msg_hdr
room-contents o app_type body holds = omega (arith, ap length holds, length-take o.len o.buf)

hooking-Answerable : Answerable IsManager no_comps client hooking
unfolding answer_work
hooking-Answerable = λ freebuf hooked events obuf (m, some_m, valid_m) valid nothing.
    let (m', run, done) =
      event_register_ex-Registered m true 10 4 local 3 1 0 valid_m (omega arith) (omega arith)
        (inl refl) in
    let (l, answered, same, _, valid_o, holds, valid_i) =
      parse_app_link-event_register_ex ample-grants (record no_comps { freebuf = freebuf })
        two_bytes events (some m') true client success (buffer_of hook_bytes) obuf fields hook_4 1 1
        4 [] refl (buffer_of-IsValid hook_bytes (omega (arith, hook_bytes-short))) hook_bytes-short
        (omega arith) fields-InRange hook_4-IsRequest refl refl (omega arith) (omega arith)
        (omega arith) (omega arith) (unread-buffer_of hook_bytes) valid nothing
        (ap (λ e. event_register_ex e true 10 4 local 3 1 0) some_m ∙ run) in
    (
      record { hooked = true; events = l.events; ibuf = l.ibuf; obuf = l.obuf },
      rw answered refl,
      valid_i,
      valid_o,
      inr (
          room-contents l.obuf type_link (counted_bytes 2 (hdr_values 5 true) ++ link_result) (
            holds
            ∙ append_assoc (msg_hdr type_link) (counted_bytes 2 (hdr_values 5 true)) link_result)),
      (m', same, done.valid),
    )

client_round-message_example :
    (l : List ZBuf) × (next ibuf : ZBuf) × (client_round world good empty
        (some (sized_hdr 1 2))
        (some (8 ∷ 9 ∷ []))
      ≡ some (set_free (with_work world (record { ibuf = ibuf; app_type = 1 })) l, some next, true))
    × PoolIsValid l
    × IsValid next
    × IsValid ibuf
    × (unread ibuf ≡ 8 ∷ 9 ∷ [])
client_round-message_example =
    client_round-message ample-grants world good empty 1 (8 ∷ 9 ∷ []) empty-IsValid tt refl refl
      (omega arith) (omega arith)

-- The message that hooks the event.
msg_proc_job-Done_example :
    (w' : World) × (msg_proc_job world good hooking ≡ some w')
    × Done world [] (own_buf []) good hooking w'
msg_proc_job-Done_example =
    msg_proc_job-Done ample-grants world good hooking refl tt (
      Answers-Answerable IsManager world true hooking refl manage_init-IsManager hooking-Answerable)

run_works-no_jobs_example :
    (w' : World) × (run_works world (good ∷ good ∷ []) (strange ∷ hooking ∷ []) ≡ some w')
    × (w'.works ≡ [])
    × (w'.client.jobcnt ≡ 0)
    × PoolIsValid w'.server.freebuf
    × IsManager w'.events
run_works-no_jobs_example =
    run_works-no_jobs ample-grants IsManager (strange ∷ hooking ∷ []) (good ∷ good ∷ []) world
      (record { inc = λ n. refl; dec = λ n. refl }) refl ((refl, refl), ((refl, refl), tt))
      (strange-Answerable, (hooking-Answerable, tt)) tt manage_init-IsManager refl refl
      (omega arith)

msg_proc_job-buf_send_job_example :
    (w1 w2 : World) × (o : ZBuf) × (msg_proc_job world good
        (record { ibuf = buffer_of ask_bytes; app_type = type_default })
      ≡ some w1)
    × (w1.replies ≡ o ∷ [])
    × (buf_send_job (record w1 { replies = [] }) o.len o ≡ some w2)
    × (w2.wire ≡ message type_default (no_module_body 5) ∷ [])
msg_proc_job-buf_send_job_example =
    msg_proc_job-buf_send_job ample-grants world good (buffer_of ask_bytes) fields ask_ab
      no_comps-IsServer tt refl refl (buffer_of-IsValid ask_bytes (omega (arith, ask_bytes-short)))
      ask_bytes-short (omega arith) fields-InRange refl ask_ab-IsRequest
      (unread-buffer_of ask_bytes) none_found
