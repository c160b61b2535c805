-- ===== src/Schedule/Step.antt =====
-- zcrtlib/zschedule.c, `_zcrt_schedule_thread_proc`: the thread takes the jobs off the queues.
use zcrt.Base.{
  ltb, ◌==◌, ltb→lt, Bool-cases, length, get_or, set, length-set, get_or-set_ne, get_or-set_all, ℕ,
  zero, suc, ◌+◌, ◌-◌, ◌^◌, ◌≤◌, ◌<◌, ◌≡◌, refl, sym, ap, ◌∙◌, ◌≢◌, ◌⊎◌, inl, inr, Bool, true,
  Option, none, some, List, [], ◌∷◌, arith,
}
use mathlib.Core.Path.{subst}
use zcrt.Schedule.{
  owned, Job, SchPriList, Schedule, SchThr, sch_pri_num, no_jobs, idle, queue, schedule, dec_int,
  uncount, job_delete_has_mutex, pick_or, pick_job, finish, thread_step,
}
use zcrt.Schedule.Count.{count, count_all, count_all-front}
use zcrt.Schedule.Queue.{IsQueue, at_addr, thr_getjob_lem, thr_getjob_empty}
use zcrt.Schedule.Insert.{IsValid, written_at}

-- The job at the front of the first queue that has one, and the queues without it.
pub record Picked (qs : List SchPriList) (job : Job) (qs' : List SchPriList) : Type 0 where
  pub pri : ℕ
  pub q : SchPriList
  pub inside : pri < length qs
  pub front : (get_or qs pri no_jobs).jobs ≡ job ∷ q.jobs
  pub rest : qs' ≡ set qs pri q
  pub valid : IsQueue q
  pub higher : (i : ℕ) → i < pri → (get_or qs i no_jobs).jobs ≡ []

-- What `pick_job` finds.
abbrev Picks : List SchPriList → Type 0
Picks qs =
    (pick_job qs ≡ (none, qs)) × ((i : ℕ) → (get_or qs i no_jobs).jobs ≡ [])
    ⊎ (job : Job) × (qs' : List SchPriList) × (pick_job qs ≡ (some job, qs')) × Picked qs job qs'

pick_later : (q : SchPriList) (qs : List SchPriList) → q.jobs ≡ [] → Picks qs → Picks (q ∷ qs)
unfolding pick_job pick_or
pick_later q qs e (inl (run, empty)) = inl (rw (thr_getjob_empty q e, run), at)
  where
    at : (i : ℕ) → (get_or (q ∷ qs) i no_jobs).jobs ≡ []
    at zero = e
    at (suc j) = empty j
pick_later q qs e (inr (job, qs', run, p)) = inr (
  job,
  q ∷ qs',
  rw (thr_getjob_empty q e, run),
  record {
    pri = suc p.pri;
    q = p.q;
    inside = omega (arith, p.inside);
    front = p.front;
    rest = ap (λ l. q ∷ l) p.rest;
    valid = p.valid;
    higher = before;
  },
)
  where
    before : (i : ℕ) → i < suc p.pri → (get_or (q ∷ qs) i no_jobs).jobs ≡ []
    before zero h = e
    before (suc j) h = p.higher j (omega arith)

pick_first :
    (q : SchPriList) (qs : List SchPriList) (job : Job) (jobs : List Job)
    → IsQueue q
    → q.jobs ≡ job ∷ jobs
    → Picks (q ∷ qs)
unfolding pick_job pick_or
pick_first q qs job jobs valid e =
    let (q', run, left, valid') = thr_getjob_lem q job jobs valid e in
    inr (
      job,
      q' ∷ qs,
      rw run,
      record {
        pri = 0;
        q = q';
        inside = omega arith;
        front = e ∙ ap (λ l. job ∷ l) (sym left);
        rest = refl;
        valid = valid';
        higher = λ i h. absurd (omega arith);
      },
    )

List-cases : (jobs : List Job) → (jobs ≡ []) ⊎ (j : Job) × (js : List Job) × (jobs ≡ j ∷ js)
List-cases [] = inl refl
List-cases (j ∷ js) = inr (j, js, refl)

pick_job-Picks : (qs : List SchPriList) → ((i : ℕ) → IsQueue (get_or qs i no_jobs)) → Picks qs
unfolding pick_job
pick_job-Picks [] valid = inl (refl, λ i. refl)
pick_job-Picks (q ∷ qs) valid = elim (List-cases q.jobs) [
  | inl empty ↦ pick_later q qs empty (pick_job-Picks qs (λ i. valid (suc i)))
  | inr (j, js, e) ↦ pick_first q qs j js (valid 0) e
]

-- The counters of the schedules after a job has been freed.
module _ (thr : SchThr) (valid : IsValid thr) (job : Job) (que : List SchPriList)
    (less : (f : Job → Bool) → count_all f que + count f (job ∷ []) ≡ count_all f thr.que) where
  -- The schedule of the job exists, and has counted the job.
  owner_lem :
      (i : ℕ)
      → job.sch ≡ some i
      → (i < length thr.schs)
        × (1 ≤ (schedule thr i).cursize)
        × (dec_int (schedule thr i).cursize ≡ (schedule thr i).cursize - 1)
  owner_lem i e =
      let self : (i == i) ≡ true = ground arith in
      let one : count (owned i) (job ∷ []) ≡ 1 = rw (e, self) refl in
      let some_there : 1 ≤ count_all (owned i) thr.que = omega (arith, one, less (owned i)) in
      let bounded = valid.bounded i in
      let narrow = valid.narrow i in
      elim (Bool-cases (ltb i (length thr.schs))) [
        | inl yes_it_is ↦
            let inside : i < length thr.schs = ltb→lt i (length thr.schs) yes_it_is in
            let counted = valid.counted i inside in (inside, omega arith, omega arith)
        | inr outside ↦
            let far : length thr.schs ≤ i = ground arith in
            absurd (omega (arith, valid.owners i far))
      ]

  uncount_counted :
      (k : Option ℕ)
      → job.sch ≡ k
      → (j : ℕ) → j < length (uncount k thr.schs)
      → (get_or (uncount k thr.schs) j idle).cursize ≡ count_all (owned j) que
  unfolding uncount
  uncount_counted none e j h =
      let gone : count (owned j) (job ∷ []) ≡ 0 = rw e refl in
      omega (arith, gone, less (owned j), valid.counted j h)
  uncount_counted (some i) e j h =
      let (inside, some_there, dec) = owner_lem i e in
      let sch' : Schedule = record (schedule thr i) {
        cursize = dec_int (schedule thr i).cursize;
      } in
      let within : j < length thr.schs = omega (arith, h, length-set thr.schs i sch') in
      elim (Bool-cases (i == j)) [
        | inl same ↦
            let by : i ≡ j = ground arith in
            let one : count (owned j) (job ∷ []) ≡ 1 = rw (e, same) refl in
            let was : (schedule thr i).cursize ≡ count_all (owned j) thr.que =
              subst (λ k. (schedule thr i).cursize ≡ count_all (owned k) thr.que) by
                (valid.counted i inside) in
            rw (written_at thr.schs i j sch' inside same)
              (dec ∙ omega (arith, one, was, less (owned j)))
        | inr other ↦
            let apart : i ≢ j = ground arith in
            let gone : count (owned j) (job ∷ []) ≡ 0 = rw (e, other) refl in
            rw (get_or-set_ne thr.schs i j sch' idle apart)
              (omega (arith, gone, less (owned j), valid.counted j within))
      ]

  uncount_all :
      (P : Schedule → Type 0)
      → ((j : ℕ) → P (schedule thr j))
      → ((j : ℕ)
          → 1 ≤ (schedule thr j).cursize
          → P (record (schedule thr j) { cursize = (schedule thr j).cursize - 1 }))
      → (k : Option ℕ) → job.sch ≡ k
      → (j : ℕ) → P (get_or (uncount k thr.schs) j idle)
  unfolding uncount
  uncount_all P h g none e j = h j
  uncount_all P h g (some i) e j =
      let (inside, some_there, dec) = owner_lem i e in
      get_or-set_all P thr.schs i
        (record (schedule thr i) { cursize = dec_int (schedule thr i).cursize }) idle h
        (rw dec (g i some_there)) j

  length-uncount : (k : Option ℕ) → length (uncount k thr.schs) ≡ length thr.schs
  unfolding uncount
  length-uncount none = refl
  length-uncount (some i) = length-set thr.schs i _

-- What a round with a job does: it was the first of the first queue that has jobs, its node is free
-- again, and its schedule has one job less.
pub record Taken (thr : SchThr) (job : Job) (thr' : SchThr) : Type 0 where
  pub valid : IsValid thr'
  pub picked : Picked thr.que job thr'.que
  pub freed : thr'.freejobs ≡ job.addr ∷ thr.freejobs
  pub uncounted : thr'.schs ≡ uncount job.sch thr.schs

job_delete-IsValid :
    (thr : SchThr) (job : Job) (que : List SchPriList)
    → IsValid thr
    → Picked thr.que job que
    → IsValid (job_delete_has_mutex (record thr { que = que }) job)
unfolding job_delete_has_mutex
job_delete-IsValid thr job que valid p =
    let less : (f : Job → Bool) → count_all f que + count f (job ∷ []) ≡ count_all f thr.que =
      λ f. rw p.rest (count_all-front f thr.que p.pri p.q job p.inside p.front) in
    let all = uncount_all thr valid job que less in
    record {
      queues = ap length p.rest ∙ length-set thr.que p.pri p.q ∙ valid.queues;
      linked = rw p.rest (get_or-set_all IsQueue thr.que p.pri p.q no_jobs valid.linked p.valid);
      alone = λ a. omega (arith, less (at_addr a), valid.alone a);
      counted = uncount_counted thr valid job que less job.sch refl;
      owners = λ j h. omega (
        arith,
        less (owned j),
        valid.owners j (omega (arith, h, length-uncount thr valid job que less job.sch)),
      );
      bounded =
          all (λ s. s.cursize ≤ s.maxsize) valid.bounded (λ j h. omega (arith, valid.bounded j))
            job.sch refl;
      narrow = all (λ s. s.maxsize < 2 ^ 16) valid.narrow (λ j h. valid.narrow j) job.sch refl;
      pris = all (λ s. s.pri < sch_pri_num) valid.pris (λ j h. valid.pris j) job.sch refl;
    }

-- On a valid thread, a round of the thread either finds all queues empty and changes nothing, or
-- takes the first job of the first queue that has one, so that no job of a higher priority is
-- waiting; the node goes to the free list, the job is no longer counted, and the thread stays valid.
pub thread_step-Taken :
    (thr : SchThr)
    → IsValid thr
    → (thread_step thr ≡ (thr, none)) × ((i : ℕ) → (queue thr i).jobs ≡ [])
      ⊎ (job : Job) × (thr' : SchThr) × (thread_step thr ≡ (thr', some job)) × Taken thr job thr'
unfolding thread_step finish job_delete_has_mutex
thread_step-Taken thr valid = elim (pick_job-Picks thr.que valid.linked) [
  | inl (run, empty) ↦ inl (rw run, empty)
  | inr (job, que, run, p) ↦ inr (
    job,
    job_delete_has_mutex (record thr { que = que }) job,
    rw run,
    record {
      valid = job_delete-IsValid thr job que valid p;
      picked = p;
      freed = refl;
      uncounted = refl;
    },
  )
]
