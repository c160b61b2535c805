-- ===== src/Ipc/Server/Jobs.antt =====
-- zipc/zipc_server_os.c: the buffers and the count of a client's jobs while messages are answered.
use zcrt.Base.{
  ◌>>=◌, length, ℕ, ◌≡◌, refl, ap, ◌∙◌, ◌≢◌, ◌⊎◌, inl, inr, Bool, true, false, Option, some, List,
  [], ◌∷◌, ◌++◌,
}
use zcrt.Ipc.Server.{msg_proc_job, zipc_tag}
use zcrt.Ipc.Pool.{buf_clear-IsValid, buf_init-IsValid, buf_len, zipc_buf_malloc}
use zcrt.Buf.{buf_clear, buf_init}
use zcrt.Ipc.Server.{Luck, after_answer, dec_jobcnt, proc_with, set_free}
use zcrt.Ipc.Server.{Answered, Work, World, answer_work, give_back}
use zcrt.Ipc.Server.Respond.{Sendable, freed, queued, respond-Responded}
use zcrt.Ipc.Pool.{PoolIsValid, zipc_buf_free}
use zcrt.Event.{Event}
use zcrt.Buf.{Allocator, IsValid, ZBuf}

-- The handler for the message returns, and leaves well-formed buffers.
abbrev pub Answers : ⦃alloc : Allocator⦄ → World → Bool → Work → Type 0
Answers w node work =
    (obuf : ZBuf)
    → IsValid obuf
    → obuf.len ≡ 0
    → (a : Answered) × (answer_work w.server w.client.sub w.client.is_event_hooked w.events node
          work obuf
        ≡ some a)
      × IsValid a.ibuf
      × IsValid a.obuf
      × Sendable a.obuf

-- What a job leaves alone.
pub record Kept (w w' : World) : Type 0 where
  pub same_atoms : w.atoms ≡ w'.atoms
  pub same_server :
      (l : List ZBuf) → record w.server { freebuf = l } ≡ record w'.server { freebuf = l }
  pub same_sub : w.client.sub ≡ w'.client.sub
  pub same_works : w.works ≡ w'.works
  pub same_notices : w.notices ≡ w'.notices
  pub same_wire : w.wire ≡ w'.wire

Kept-changed :
    (w : World) (l replies : List ZBuf) (events : Option Event) (hooked : Bool) (cnt : ℕ)
    → Kept w (record w {
      server = record w.server { freebuf = l };
      events = events;
      client = record w.client { is_event_hooked = hooked; jobcnt = cnt };
      replies = replies;
    })
Kept-changed w l replies events hooked cnt = record {
  same_atoms = refl;
  same_server = λ l'. refl;
  same_sub = refl;
  same_works = refl;
  same_notices = refl;
  same_wire = refl;
}

-- What a job does that has `obuf` for its reply and leaves the buffers `rest` free: `answer` is what
-- answering the message left. The buffer of the message is free again, and that of the reply waits
-- to be sent, or is free again.
pub record Done ⦃alloc : Allocator⦄ (w : World) (rest : List ZBuf) (obuf : ZBuf) (luck : Luck)
    (work : Work) (w' : World) : Type 0 where
  pub answer : Answered
  pub answered :
      answer_work
        (record w.server { freebuf = rest })
        w.client.sub
        w.client.is_event_hooked
        w.events
        luck.node
        work
        obuf
      ≡ some answer
  pub reply : ZBuf
  pub same_reply : reply ≡ record answer.obuf { buf = reply.buf }
  pub same_size : length reply.buf ≡ length answer.obuf.buf
  pub moved :
      (((luck.taken ≡ true) × (answer.obuf.len ≢ 0))
        × (w'.server.freebuf ≡ answer.ibuf ∷ rest)
        × (w'.replies ≡ w.replies ++ (reply ∷ [])))
      ⊎ (((luck.taken ≡ false) ⊎ (answer.obuf.len ≡ 0))
          × (w'.server.freebuf ≡ answer.ibuf ∷ reply ∷ rest)
          × (w'.replies ≡ w.replies))
  pub pool : PoolIsValid w'.server.freebuf
  pub events : w'.events ≡ answer.events
  pub client : w'.client ≡ record w.client {
    is_event_hooked = answer.hooked;
    jobcnt = (w.atoms.atom_dec w.client.jobcnt).0;
  }
  pub kept : Kept w w'

-- The buffer that a job takes for its reply, and those that stay free.
abbrev pub own_buf : ⦃alloc : Allocator⦄ → List ZBuf → ZBuf
own_buf [] = buf_clear (buf_init buf_len zipc_tag)
own_buf (b ∷ l) = buf_clear b

abbrev pub rest_of : List ZBuf → List ZBuf
rest_of [] = []
rest_of (b ∷ l) = l

module _ ⦃alloc : Allocator⦄ where
  -- A job that has got its buffer for the reply.
  proc_with_lem :
      (w : World) (rest : List ZBuf) (luck : Luck) (work : Work) (obuf : ZBuf)
      → PoolIsValid rest
      → Answers (set_free w rest) luck.node work
      → IsValid obuf
      → obuf.len ≡ 0
      → (w' : World) × (proc_with (set_free w rest) luck work (some obuf) ≡ some w')
        × Done w rest obuf luck work w'
  unfolding proc_with give_back zipc_buf_free dec_jobcnt
  proc_with_lem w rest luck work obuf pool answers valid nothing =
      let (a, run, valid_i, valid_o, sendable) = answers obuf valid nothing in
      let u = after_answer (set_free w rest) a in
      let r = respond-Responded u luck.taken a.obuf valid_o sendable in
      elim r.how [
        | inl (why, run') ↦ (
          dec_jobcnt (freed (queued u r.reply) a.ibuf),
          rw (run, ◌>>=◌, run'),
          record {
            answer = a;
            answered = run;
            reply = r.reply;
            same_reply = r.same_reply;
            same_size = r.same_size;
            moved = inl (why, refl, refl);
            pool = (valid_i, pool);
            events = refl;
            client = refl;
            kept =
                Kept-changed w (a.ibuf ∷ rest) (w.replies ++ (r.reply ∷ [])) a.events a.hooked
                  (w.atoms.atom_dec w.client.jobcnt).0;
          },
        )
        | inr (why, run') ↦ (
          dec_jobcnt (freed (freed u r.reply) a.ibuf),
          rw (run, ◌>>=◌, run'),
          record {
            answer = a;
            answered = run;
            reply = r.reply;
            same_reply = r.same_reply;
            same_size = r.same_size;
            moved = inr (why, refl, refl);
            pool = (valid_i, (r.valid, pool));
            events = refl;
            client = refl;
            kept =
                Kept-changed w (a.ibuf ∷ r.reply ∷ rest) w.replies a.events a.hooked
                  (w.atoms.atom_dec w.client.jobcnt).0;
          },
        )
      ]

module _ ⦃alloc : Allocator⦄ (granted : (n : ℕ) → alloc.grants n ≡ true) where
  pub own_buf-IsValid : (l : List ZBuf) → PoolIsValid l → IsValid (own_buf l) × (own_buf l).len ≡ 0
  unfolding buf_clear
  own_buf-IsValid [] pool =
      (buf_clear-IsValid (buf_init buf_len zipc_tag) (buf_init-IsValid granted zipc_tag), refl)
  own_buf-IsValid (b ∷ l) pool = (buf_clear-IsValid b pool.0, refl)

  PoolIsValid-rest_of : (l : List ZBuf) → PoolIsValid l → PoolIsValid (rest_of l)
  PoolIsValid-rest_of [] pool = tt
  PoolIsValid-rest_of (b ∷ l) pool = pool.1

  buf_malloc_lem : (l : List ZBuf) → zipc_buf_malloc l zipc_tag true ≡ (rest_of l, some (own_buf l))
  unfolding zipc_buf_malloc
  buf_malloc_lem [] = refl
  buf_malloc_lem (b ∷ l) = refl

  -- Where libc grants every request, malloc grants a buffer, the free buffers are well formed, and
  -- the message is answered in the present state, with the first free buffer taken away (the handler
  -- returns, and leaves well-formed buffers and a reply that is empty or has room for the header of a
  -- message): a job does not fault, and hands each buffer on once. The buffer of the message is free again. That of the
  -- reply, which is the first free one or a new one, waits behind the other replies if it holds
  -- something and the scheduler takes it, and is free again otherwise; all other free buffers and
  -- replies stay as they were, and the free ones are well formed. The events and the client's mark are
  -- as answering left them, the count of its jobs is decremented with `zcrt_atom_dec`, and the other
  -- jobs, the tables of the server and what has been sent stay as they are.
  pub msg_proc_job-Done :
      (w : World) (luck : Luck) (work : Work)
      → luck.granted ≡ true
      → PoolIsValid w.server.freebuf
      → Answers (set_free w (rest_of w.server.freebuf)) luck.node work
      → (w' : World) × (msg_proc_job w luck work ≡ some w')
        × Done w (rest_of w.server.freebuf) (own_buf w.server.freebuf) luck work w'
  unfolding msg_proc_job
  msg_proc_job-Done w luck work lucky pool answers =
      let (valid, empty) = own_buf-IsValid w.server.freebuf pool in
      let (w', run, done) =
        proc_with_lem w (rest_of w.server.freebuf) luck work (own_buf w.server.freebuf)
          (PoolIsValid-rest_of w.server.freebuf pool) answers valid empty in
      (
        w',
        ap
              (λ g.
                let (l, obuf) = zipc_buf_malloc w.server.freebuf zipc_tag g in
                proc_with (set_free w l) luck work obuf)
              lucky
            ∙ ap (λ (l, obuf). proc_with (set_free w l) luck work obuf)
                (buf_malloc_lem w.server.freebuf)
            ∙ run,
        done,
      )
