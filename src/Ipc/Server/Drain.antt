-- ===== src/Ipc/Server/Drain.antt =====
-- zipc/zipc_server_os.c: the jobs of a client all end, so that its thread can.
use zcrt.Base.{
  ◌>>=◌, length, All, All-map, ℕ, ◌+◌, ◌-◌, ◌%◌, ◌<◌, ◌≡◌, refl, sym, ap, ◌∙◌, Bool, true, Option,
  none, some, List, [], ◌∷◌, arith,
}
use zcrt.Os.{Counts}
use mathlib.Core.Path.{subst}
use zcrt.Ipc.Comp.{Server}
use zcrt.Ipc.Link.{Subscriber}
use zcrt.Ipc.Server.Jobs.{Answers, Done, Kept, msg_proc_job-Done, own_buf, own_buf-IsValid, rest_of}
use zcrt.Ipc.Server.Respond.{Sendable}
use zcrt.Ipc.Server.{Answered, Luck, Work, World, answer_work, run_works, set_free}
use zcrt.Ipc.Pool.{PoolIsValid}
use zcrt.Event.{Event}
use zcrt.Buf.{Allocator, IsValid, ZBuf, u32}

-- From every manager of events that `Inv` allows, the message is answered, where malloc grants the
-- node of a subscription: the handler returns, leaves well-formed buffers, and keeps `Inv`.
abbrev pub Answerable :
    ⦃alloc : Allocator⦄ → (Option Event → Type 0) → Server → Subscriber → Work → Type 0
Answerable Inv s sub work =
    (freebuf : List ZBuf) (hooked : Bool) (events : Option Event) (obuf : ZBuf)
    → Inv events
    → IsValid obuf
    → obuf.len ≡ 0
    → (a : Answered) × (answer_work (record s { freebuf = freebuf }) sub hooked events true work
          obuf
        ≡ some a)
      × IsValid a.ibuf
      × IsValid a.obuf
      × Sendable a.obuf
      × Inv a.events

-- malloc grants the buffer and the node.
abbrev pub AllGranted : Luck → Type 0
AllGranted luck = (luck.granted ≡ true) × (luck.node ≡ true)

module _ ⦃alloc : Allocator⦄ (Inv : Option Event → Type 0) where
  Answerable-Kept :
      (w w' : World) (work : Work)
      → Kept w w'
      → Answerable Inv w.server w.client.sub work
      → Answerable Inv w'.server w'.client.sub work
  Answerable-Kept w w' work kept answers freebuf hooked events obuf inv valid nothing =
      let (a, run, valid_i, valid_o, sendable, inv') =
        answers freebuf hooked events obuf inv valid nothing in
      (
        a,
        sym (
              ap (λ s. answer_work s w'.client.sub hooked events true work obuf)
                (kept.same_server freebuf))
            ∙ sym (
                ap
                  (λ u.
                    answer_work (record w.server { freebuf = freebuf }) u hooked events true work
                      obuf)
                  kept.same_sub)
            ∙ run,
        valid_i,
        valid_o,
        sendable,
        inv',
      )

  pub Answers-Answerable :
      (w : World) (node : Bool) (work : Work)
      → node ≡ true
      → Inv w.events
      → Answerable Inv w.server w.client.sub work
      → Answers w node work
  Answers-Answerable w node work grants inv answers obuf valid nothing =
      let (a, run, valid_i, valid_o, sendable, _) =
        answers w.server.freebuf w.client.is_event_hooked w.events obuf inv valid nothing in
      (
        a,
        ap (λ n. answer_work w.server w.client.sub w.client.is_event_hooked w.events n work obuf)
              grants
            ∙ run,
        valid_i,
        valid_o,
        sendable,
      )

  -- The events that a job leaves are those of the answer, which keeps `Inv`.
  Inv-Done :
      (w w' : World) (rest : List ZBuf) (obuf : ZBuf) (luck : Luck) (work : Work)
      → luck.node ≡ true
      → Inv w.events
      → IsValid obuf
      → obuf.len ≡ 0
      → Answerable Inv w.server w.client.sub work
      → Done w rest obuf luck work w'
      → Inv w'.events
  Inv-Done w w' rest obuf luck work grants inv valid nothing answers done =
      let (a, run, _, _, _, inv') =
        answers rest w.client.is_event_hooked w.events obuf inv valid nothing in
      let same : some done.answer ≡ some a =
        sym done.answered
        ∙ ap
            (λ n.
              answer_work (record w.server { freebuf = rest }) w.client.sub w.client.is_event_hooked
                w.events n work obuf)
            grants
        ∙ run in
      let equal : done.answer ≡ a = ap (λ o. elim o [ none ↦ a | some x ↦ x ]) same in
      subst Inv (sym (done.events ∙ ap (λ x. x.events) equal)) inv'

module _ ⦃alloc : Allocator⦄ (granted : (n : ℕ) → alloc.grants n ≡ true) where
  -- Where libc and malloc grant every request, `zcrt_atom_dec` counts, the free buffers are well
  -- formed, `Inv` holds of the manager of events, every message that waits is answered from every
  -- manager with `Inv` and keeps it (its handler returns, and leaves well-formed buffers and a reply
  -- that is empty or has room for the header of a message), and the count of the client's jobs is that
  -- of the messages that wait, which are fewer than 2 ^ 32: the scheduler's run through these jobs does not fault, and afterwards no message waits and
  -- the count is 0, so that the loop in which the client's thread waits for its jobs ends. The free
  -- buffers are well formed, and the manager of events has `Inv`.
  pub run_works-no_jobs :
      (Inv : Option Event → Type 0) (works : List Work) (lucks : List Luck) (w : World)
      → Counts w.atoms
      → length lucks ≡ length works
      → All AllGranted lucks
      → All (Answerable Inv w.server w.client.sub) works
      → PoolIsValid w.server.freebuf
      → Inv w.events
      → w.works ≡ works
      → w.client.jobcnt ≡ length works
      → length works < u32
      → (w' : World) × (run_works w lucks works ≡ some w')
        × (w'.works ≡ [])
        × (w'.client.jobcnt ≡ 0)
        × PoolIsValid w'.server.freebuf
        × Inv w'.events
  unfolding run_works
  run_works-no_jobs Inv [] lucks w counts same lucky answers pool inv at cnt small =
      (w, refl, at, cnt, pool, inv)
  run_works-no_jobs Inv (work ∷ works) [] w counts same lucky answers pool inv at cnt small =
      absurd (omega arith)
  run_works-no_jobs Inv (work ∷ works) (luck ∷ lucks) w counts same lucky answers pool inv at cnt
        small =
      let w1 = record w { works = works } in
      let (w2, run, done) = msg_proc_job-Done granted w1 luck work lucky.0.0 pool (
        Answers-Answerable Inv (set_free w1 (rest_of w.server.freebuf)) luck.node work lucky.0.1 inv
          answers.0) in
      let (valid, empty) = own_buf-IsValid granted w.server.freebuf pool in
      let inv' =
        Inv-Done Inv w1 w2 (rest_of w.server.freebuf) (own_buf w.server.freebuf) luck work lucky.0.1
          inv valid empty answers.0 done in
      let lower : (w.atoms.atom_dec w.client.jobcnt).0 ≡ (w.client.jobcnt + (u32 - 1)) % u32 =
        ap (λ r. r.0) (counts.dec w.client.jobcnt) in
      let less : w2.client.jobcnt ≡ (w.atoms.atom_dec w.client.jobcnt).0 =
        ap (λ c. c.jobcnt) done.client in
      let cnt' : w2.client.jobcnt ≡ length works = omega (arith, less, lower, cnt) in
      let counts' : Counts w2.atoms = subst Counts done.kept.same_atoms counts in
      let answers' =
        All-map (Answerable Inv w1.server w1.client.sub) (Answerable Inv w2.server w2.client.sub)
          works (λ x h. Answerable-Kept Inv w1 w2 x done.kept h) answers.1 in
      let (w', run', none_left, no_job, pool', inv'') =
        run_works-no_jobs Inv works lucks w2 counts' (omega arith) lucky.1 answers' done.pool inv'
          (sym done.kept.same_works) cnt' (omega arith) in
      (w', rw (run, ◌>>=◌) run', none_left, no_job, pool', inv'')
