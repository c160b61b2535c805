-- ===== src/Schedule/Send.antt =====
-- zcrtlib/zschedule.c: sending a job.
use zcrt.Base.{
  ltb, leb, ◌==◌, lt→ltb, ◌>>=◌, length, get_or, replicate, ℕ, ◌+◌, ◌-◌, ◌%◌, ◌^◌, ◌≤◌, ◌<◌, ◌≡◌,
  refl, sym, ap, ◌∙◌, ◌≢◌, ◌⊎◌, inl, inr, true, false, ◌||◌, Option, some, List, [], ◌∷◌, ◌++◌,
  arith,
}
use mathlib.Core.Path.{subst}
use zcrt.Err.{success}
use zcrt.Buf.{u32}
use zcrt.Schedule.{
  Job, SchThr, sch_pri_num, idle, schedule, take_node, job_new, send_new, sendjob, sendjob_argn,
  less_int, cb_max_args,
}
use zcrt.Schedule.Count.{count}
use zcrt.Schedule.Insert.{IsValid, Sent, uses, insert_job-Sent}

-- A node has been taken for a new job.
record New (thr : SchThr) (addr : ℕ) (thr' : SchThr) : Type 0 where
  valid : IsValid thr'
  same_que : thr'.que ≡ thr.que
  same_schs : thr'.schs ≡ thr.schs
  unused : uses addr thr' ≡ 0

-- A node can be had: the free list has one, or malloc gives a block that is not in use.
abbrev pub HasNode : SchThr → Option ℕ → Type 0
HasNode thr fresh =
    (1 ≤ length thr.freejobs) ⊎ (addr : ℕ) × (fresh ≡ some addr) × (uses addr thr ≡ 0)

-- The same thread with other counters and a shorter free list.
abbrev lighter : SchThr → List ℕ → ℕ → ℕ → SchThr
lighter thr nodes alloced added = record thr {
  freejobs = nodes;
  joballoced = alloced;
  jobadded = added;
}

lighter-IsValid :
    (thr : SchThr) (nodes : List ℕ) (alloced added : ℕ)
    → IsValid thr
    → ((a : ℕ) → count (λ x. a == x) nodes ≤ count (λ x. a == x) thr.freejobs)
    → IsValid (lighter thr nodes alloced added)
lighter-IsValid thr nodes alloced added valid fewer = record {
  queues = valid.queues;
  linked = valid.linked;
  alone = λ a. omega (arith, valid.alone a, fewer a);
  counted = valid.counted;
  owners = valid.owners;
  bounded = valid.bounded;
  narrow = valid.narrow;
  pris = valid.pris;
}

take_node-New :
    (thr : SchThr) (fresh : Option ℕ) (nodes : List ℕ) (added : ℕ)
    → IsValid thr
    → thr.freejobs ≡ nodes
    → HasNode thr fresh
    → (thr' : SchThr) × (addr : ℕ) × (take_node (record thr { jobadded = added }) fresh nodes
        ≡ (thr', some addr))
      × New thr addr thr'
unfolding take_node
take_node-New thr fresh [] added valid e (inl some_node) =
    let none_free : length thr.freejobs ≡ 0 = ap length e in absurd (omega arith)
take_node-New thr fresh [] added valid e (inr (addr, given, new)) = (
  record thr { jobadded = added; joballoced = (thr.joballoced + 1) % u32 },
  addr,
  rw given,
  record {
    valid =
        lighter-IsValid thr thr.freejobs ((thr.joballoced + 1) % u32) added valid
          (λ a. omega arith);
    same_que = refl;
    same_schs = refl;
    unused = new;
  },
)
take_node-New thr fresh (node ∷ nodes) added valid e has =
    let split : (a : ℕ) → count (λ x. a == x) thr.freejobs ≡ count (λ x. a == x) (node ∷ nodes) =
      λ a. ap (count (λ x. a == x)) e in
    let self : (node == node) ≡ true = ground arith in
    let once : 1 + count (λ x. node == x) nodes ≡ count (λ x. node == x) thr.freejobs =
      sym (rw (split node, self)) in
    (
      record thr { jobadded = added; freejobs = nodes },
      node,
      refl,
      record {
        valid = lighter-IsValid thr nodes thr.joballoced added valid (λ a. omega (arith, split a));
        same_que = refl;
        same_schs = refl;
        unused = omega (arith, once, valid.alone node);
      },
    )

send_new-Sent :
    (thr : SchThr) (fresh : Option ℕ) (i cb argn : ℕ) (args : List ℕ)
    → IsValid thr
    → i < length thr.schs
    → HasNode thr fresh
    → (schedule thr i).cursize < (schedule thr i).maxsize
    → (thr' : SchThr) × (addr : ℕ) × (send_new (job_new thr fresh) i cb argn args
        ≡ some (thr', success))
      × Sent thr.que thr.schs i
          (record { addr = addr; fn = cb; argn = argn; args = args; sch = some i })
          thr'
unfolding send_new job_new
send_new-Sent thr fresh i cb argn args valid inside has room =
    let (thr₁, addr, got, n) =
      take_node-New thr fresh thr.freejobs ((thr.jobadded + 1) % u32) valid refl has in
    let job : Job = record { addr = addr; fn = cb; argn = argn; args = args; sch = some i } in
    let same : schedule thr₁ i ≡ schedule thr i = ap (λ l. get_or l i idle) n.same_schs in
    let (thr', run, sent) =
      insert_job-Sent thr₁ i job n.valid (omega (arith, ap length n.same_schs, inside)) refl
        n.unused (rw same room) in
    (
      thr',
      addr,
      rw (got, run, ◌>>=◌),
      subst (λ q. Sent q thr.schs i job thr') n.same_que
          (subst (λ l. Sent thr₁.que l i job thr') n.same_schs sent),
    )

-- The signed comparison of the two counters of a schedule.
pub less_int-IsValid :
    (thr : SchThr) (i : ℕ)
    → IsValid thr
    → less_int (schedule thr i).cursize (schedule thr i).maxsize
      ≡ ltb (schedule thr i).cursize (schedule thr i).maxsize
less_int-IsValid thr i valid =
    let narrow = valid.narrow i in
    let bounded = valid.bounded i in
    let a : ((schedule thr i).cursize + 2 ^ 31) % u32 ≡ (schedule thr i).cursize + 2 ^ 31 =
      omega arith in
    let b : ((schedule thr i).maxsize + 2 ^ 31) % u32 ≡ (schedule thr i).maxsize + 2 ^ 31 =
      omega arith in
    rw (a, b) (ground arith)

-- For a valid thread, one of its schedules with fewer than `maxsize` jobs, and a callback that is
-- not NULL, where a job node can be had, `zcrt_schedule_sendjob` passes its assertions and succeeds:
-- the job, with the two arguments, stands at the end of the queue of the schedule's priority, the
-- schedule's `cursize` is one more, all other queues and schedules are as before, and the thread is
-- valid.
pub sendjob-Sent :
    (thr : SchThr) (fresh : Option ℕ) (i cb p1 p2 : ℕ)
    → IsValid thr
    → i < length thr.schs
    → cb ≢ 0
    → HasNode thr fresh
    → (schedule thr i).cursize < (schedule thr i).maxsize
    → (thr' : SchThr) × (addr : ℕ) × (sendjob thr (some i) fresh cb p1 p2 ≡ some (thr', success))
      × Sent thr.que thr.schs i
          (record { addr = addr; fn = cb; argn = 2; args = p1 ∷ p2 ∷ replicate 4 0; sch = some i })
          thr'
unfolding sendjob
sendjob-Sent thr fresh i cb p1 p2 valid inside given has room =
    let pris = valid.pris i in
    let good : (cb == 0 || leb sch_pri_num (schedule thr i).pri) ≡ false = ground arith in
    let less : less_int (schedule thr i).cursize (schedule thr i).maxsize ≡ true =
      less_int-IsValid thr i valid ∙ lt→ltb _ _ room in
    rw (good, less) (send_new-Sent thr fresh i cb 2 (p1 ∷ p2 ∷ replicate 4 0) valid inside has room)

-- For a valid thread, one of its schedules with fewer than `maxsize` jobs, a callback that is not
-- NULL and one to six arguments, where a job node can be had, `zcrt_schedule_sendjob_argn` passes its
-- assertions and succeeds: the job, with its arguments and zeros behind them, stands at the end of the
-- queue of the schedule's priority, the schedule's `cursize` is one more, all other queues and
-- schedules are as before, and the thread is valid.
pub sendjob_argn-Sent :
    (thr : SchThr) (fresh : Option ℕ) (i cb : ℕ) (args : List ℕ)
    → IsValid thr
    → i < length thr.schs
    → cb ≢ 0
    → 1 ≤ length args
    → length args ≤ cb_max_args
    → HasNode thr fresh
    → (schedule thr i).cursize < (schedule thr i).maxsize
    → (thr' : SchThr) × (addr : ℕ) × (sendjob_argn thr (some i) fresh cb args
        ≡ some (thr', success))
      × Sent thr.que thr.schs i
          (record {
            addr = addr;
            fn = cb;
            argn = length args;
            args = args ++ replicate (cb_max_args - length args) 0;
            sch = some i;
          })
          thr'
unfolding sendjob_argn
sendjob_argn-Sent thr fresh i cb args valid inside given some_args few has room =
    let pris = valid.pris i in
    let good : (cb == 0
          || (leb sch_pri_num (schedule thr i).pri
              || (length args == 0 || ltb cb_max_args (length args))))
        ≡ false =
      ground arith in
    let less : less_int (schedule thr i).cursize (schedule thr i).maxsize ≡ true =
      less_int-IsValid thr i valid ∙ lt→ltb _ _ room in
    rw (good, less)
      (send_new-Sent thr fresh i cb (length args) (args ++ replicate (cb_max_args - length args) 0)
        valid inside has room)
