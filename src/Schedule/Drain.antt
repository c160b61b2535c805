-- ===== src/Schedule/Drain.antt =====
-- zcrtlib/zschedule.c, `_zcrt_schedule_thread_proc`: the inner loop until the queues are empty.
use zcrt.Base.{
  ◌>>=◌, length, get_or, set, ℕ, zero, suc, ◌<◌, ◌≡◌, refl, sym, ap, ◌∙◌, inl, inr, some, List, [],
  ◌∷◌, ◌++◌, arith,
}
use zcrt.Schedule.{Job, SchPriList, SchThr, no_jobs, queue, drain, go_on}
use zcrt.Schedule.Insert.{IsValid}
use zcrt.Schedule.Step.{thread_step-Taken}

-- The jobs of all the queues, the highest priority first.
abbrev pub all_jobs : List SchPriList → List Job
all_jobs [] = []
all_jobs (q ∷ qs) = q.jobs ++ all_jobs qs

all_jobs_front :
    (qs : List SchPriList) (pri : ℕ) (job : Job) (q : SchPriList)
    → pri < length qs
    → (get_or qs pri no_jobs).jobs ≡ job ∷ q.jobs
    → ((i : ℕ) → i < pri → (get_or qs i no_jobs).jobs ≡ [])
    → all_jobs qs ≡ job ∷ all_jobs (set qs pri q)
all_jobs_front [] pri job q inside front higher = absurd (omega arith)
all_jobs_front (x ∷ qs) zero job q inside front higher = ap (λ l. l ++ all_jobs qs) front
all_jobs_front (x ∷ qs) (suc pri) job q inside front higher =
    rw (higher 0 (omega arith))
      (all_jobs_front qs pri job q (omega arith) front (λ i h. higher (suc i) (omega arith)))

no_jobs_left :
    (qs : List SchPriList) → ((i : ℕ) → (get_or qs i no_jobs).jobs ≡ []) → all_jobs qs ≡ []
no_jobs_left [] empty = refl
no_jobs_left (q ∷ qs) empty = rw (empty 0) (no_jobs_left qs (λ i. empty (suc i)))

drain-all_jobs_lem :
    (fuel : ℕ) (thr : SchThr) (jobs : List Job)
    → IsValid thr
    → all_jobs thr.que ≡ jobs
    → length jobs < fuel
    → (thr' : SchThr) × (drain fuel thr ≡ some (thr', jobs))
      × IsValid thr'
      × ((i : ℕ) → (queue thr' i).jobs ≡ [])
unfolding drain go_on
drain-all_jobs_lem zero thr jobs valid e enough = absurd (omega arith)
drain-all_jobs_lem (suc fuel) thr jobs valid e enough = elim (thread_step-Taken thr valid) [
  | inl (run, empty) ↦
      let none_left : jobs ≡ [] = sym e ∙ no_jobs_left thr.que empty in
      (thr, rw (run, none_left), valid, empty)
  | inr (job, thr', run, t) ↦
      let p = t.picked in
      let split : jobs ≡ job ∷ all_jobs thr'.que =
        sym e
        ∙ all_jobs_front thr.que p.pri job p.q p.inside p.front p.higher
        ∙ ap (λ l. job ∷ all_jobs l) (sym p.rest) in
      let size = ap length split in
      let (u, rest, valid', empty) =
        drain-all_jobs_lem fuel thr' (all_jobs thr'.que) t.valid refl (omega arith) in
      (u, rw (run, rest, ◌>>=◌) (ap (λ l. some (u, l)) (sym split)), valid', empty)
]

-- On a valid thread to which no further job is sent, more rounds than there are jobs are enough for
-- the inner loop of the thread to end. It calls the functions of all the jobs: first those of the
-- highest priority, and for each priority in the order in which they stand in the queue. Then all
-- queues are empty and the thread is valid.
pub drain-all_jobs :
    (fuel : ℕ) (thr : SchThr)
    → IsValid thr
    → length (all_jobs thr.que) < fuel
    → (thr' : SchThr) × (drain fuel thr ≡ some (thr', all_jobs thr.que))
      × IsValid thr'
      × ((i : ℕ) → (queue thr' i).jobs ≡ [])
drain-all_jobs fuel thr valid enough =
    drain-all_jobs_lem fuel thr (all_jobs thr.que) valid refl enough
