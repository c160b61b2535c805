-- ===== src/Schedule/Queue.antt =====
-- zcrtlib/zschedule.c: one queue, a list of nodes with a pointer to the last.
use zcrt.Base.{
  ◌==◌, if◌then◌else◌, Bool-cases, ℕ, ◌≤◌, ◌≡◌, refl, sym, ap, ◌∙◌, inl, inr, Bool, true, false,
  Option, none, some, List, [], ◌∷◌, ◌++◌, arith,
}
use mathlib.Core.Path.{subst}
use zcrt.Schedule.{Job, SchPriList, same_addr, thr_getjob, link_after, link_job, take_front}
use zcrt.Schedule.Count.{count, count-append}

abbrev pub last_addr : List Job → Option ℕ
last_addr [] = none
last_addr (j ∷ []) = some j.addr
last_addr (j ∷ (k ∷ jobs)) = last_addr (k ∷ jobs)

abbrev pub at_addr : ℕ → Job → Bool
at_addr a j = a == j.addr

-- Between two calls `tail` is the address of the last node, and no two nodes have the same address.
pub record IsQueue (q : SchPriList) : Type 0 where
  pub at_end : q.tail ≡ last_addr q.jobs
  pub apart : (a : ℕ) → count (at_addr a) q.jobs ≤ 1

pub last_addr_snoc : (jobs : List Job) (job : Job) → last_addr (jobs ++ (job ∷ [])) ≡ some job.addr
last_addr_snoc [] job = refl
last_addr_snoc (j ∷ []) job = refl
last_addr_snoc (j ∷ (k ∷ jobs)) job = last_addr_snoc (k ∷ jobs) job

-- The last node is one of the nodes.
last_addr_counts :
    (j : Job) (jobs : List Job)
    → (a : ℕ) × (last_addr (j ∷ jobs) ≡ some a) × (1 ≤ count (at_addr a) (j ∷ jobs))
last_addr_counts j [] = (j.addr, refl, ground arith)
last_addr_counts j (k ∷ jobs) = let (a, e, n) = last_addr_counts k jobs in (a, e, omega (arith, n))

-- Linked behind the last node, a job stands at the end.
link_after_end :
    (t : ℕ) (job : Job) (jobs : List Job)
    → last_addr jobs ≡ some t
    → ((a : ℕ) → count (at_addr a) jobs ≤ 1)
    → link_after t job jobs ≡ jobs ++ (job ∷ [])
unfolding link_after
link_after_end t job [] e h = cc
link_after_end t job (j ∷ []) e h = let same : (t == j.addr) ≡ true = ground arith in rw same
link_after_end t job (j ∷ (k ∷ jobs)) e h =
    let (a, e', n) = last_addr_counts k jobs in
    let found : 1 ≤ count (at_addr t) (k ∷ jobs) =
      subst (λ x. 1 ≤ count (at_addr x) (k ∷ jobs)) (let same : a ≡ t = cc in same) n in
    let once = h t in
    let other : (t == j.addr) ≡ false = ground arith in
    rw other (ap (λ l. j ∷ l) (link_after_end t job (k ∷ jobs) e (λ b. omega (arith, h b))))

link_job_lem :
    (jobs : List Job) (tail : Option ℕ) (job : Job)
    → tail ≡ last_addr jobs
    → ((a : ℕ) → count (at_addr a) jobs ≤ 1)
    → link_job job jobs tail ≡ some (record { jobs = jobs ++ (job ∷ []); tail = some job.addr })
unfolding link_job
link_job_lem [] none job e h = refl
link_job_lem [] (some t) job e h = cc
link_job_lem (j ∷ jobs) none job e h = let (a, e', n) = last_addr_counts j jobs in cc
link_job_lem (j ∷ jobs) (some t) job e h = rw (link_after_end t job (j ∷ jobs) (sym e) h)

-- On a valid queue `_zcrt_s_insert_job` passes its assertions and puts the job at the end.
pub link_job_end :
    (q : SchPriList) (job : Job)
    → IsQueue q
    → link_job job q.jobs q.tail
      ≡ some (record { jobs = q.jobs ++ (job ∷ []); tail = some job.addr })
link_job_end q job valid = link_job_lem q.jobs q.tail job valid.at_end valid.apart

-- A job with a new address keeps the queue valid.
pub IsQueue-snoc :
    (q : SchPriList) (job : Job)
    → IsQueue q
    → count (at_addr job.addr) q.jobs ≡ 0
    → IsQueue (record { jobs = q.jobs ++ (job ∷ []); tail = some job.addr })
IsQueue-snoc q job valid new = record {
  at_end = sym (last_addr_snoc q.jobs job);
  apart = λ a. elim (Bool-cases (a == job.addr)) [
    | inl same ↦
        let at : job.addr ≡ a = ground arith in
        let none_there : count (at_addr a) q.jobs ≡ 0 =
          subst (λ x. count (at_addr x) q.jobs ≡ 0) at new in
        rw (count-append (at_addr a) q.jobs (job ∷ []), same) (omega arith)
    | inr other ↦
        rw (count-append (at_addr a) q.jobs (job ∷ []), other) (omega (arith, valid.apart a))
  ];
}

front_tail :
    (job : Job) (jobs : List Job) (tail : Option ℕ)
    → tail ≡ last_addr (job ∷ jobs)
    → ((a : ℕ) → count (at_addr a) (job ∷ jobs) ≤ 1)
    → (if same_addr tail job.addr then none else tail) ≡ last_addr jobs
front_tail job [] tail e h = let same : (job.addr == job.addr) ≡ true = ground arith in rw (e, same)
front_tail job (k ∷ jobs) tail e h =
    let (a, e', n) = last_addr_counts k jobs in
    let once = h a in let other : (a == job.addr) ≡ false = ground arith in rw (e, e', other)

-- Taking the first job off a valid queue.
pub thr_getjob_lem :
    (q : SchPriList) (job : Job) (jobs : List Job)
    → IsQueue q
    → q.jobs ≡ job ∷ jobs
    → (q' : SchPriList) × (thr_getjob q ≡ (some job, q')) × (q'.jobs ≡ jobs) × IsQueue q'
unfolding thr_getjob take_front
thr_getjob_lem q job jobs valid e =
    let once : (a : ℕ) → count (at_addr a) (job ∷ jobs) ≤ 1 =
      subst (λ l. (a : ℕ) → count (at_addr a) l ≤ 1) e valid.apart in
    (
      record { jobs = jobs; tail = if same_addr q.tail job.addr then none else q.tail },
      rw e,
      refl,
      record {
        at_end = front_tail job jobs q.tail (valid.at_end ∙ ap last_addr e) once;
        apart = λ a. omega (arith, once a);
      },
    )

pub thr_getjob_empty : (q : SchPriList) → q.jobs ≡ [] → thr_getjob q ≡ (none, q)
unfolding thr_getjob take_front
thr_getjob_empty q e = rw e
