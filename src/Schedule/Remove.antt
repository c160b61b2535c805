-- ===== src/Schedule/Remove.antt =====
-- zcrtlib/zschedule.c, `_zcrt_s_thr_remove_sch`: a schedule that is deleted while it has jobs.
use zcrt.Base.{
  ◌==◌, if◌then◌else◌, Bool-cases, length, length-set, get_or-set_self, get_or-set_ne, ℕ, ◌+◌, ◌^◌,
  ◌<◌, ◌≡◌, refl, sym, ap, ◌∙◌, ◌≢◌, ◌⊎◌, inl, inr, true, false, Option, none, some, List, [], ◌∷◌,
  ◌++◌, arith,
}
use zcrt.Schedule.{
  Job, SchThr, idle, schedule, same_addr, dec_int, uncount, owned, job_delete_has_mutex,
  remove_jobs,
}
use zcrt.Schedule.Count.{count, count-append}

-- The jobs of the other schedules.
unfoldable pub others : ℕ → List Job → List Job
others i [] = []
others i (job ∷ jobs) = let rest = others i jobs in if owned i job then rest else job ∷ rest

pub others_none : (i : ℕ) (jobs : List Job) → count (owned i) jobs ≡ 0 → others i jobs ≡ jobs
unfolding others
others_none i [] h = refl
others_none i (job ∷ jobs) h = elim (Bool-cases (owned i job)) [
  | inl mine ↦
      let some_there : count (owned i) (job ∷ jobs) ≡ 1 + count (owned i) jobs = rw mine refl in
      absurd (omega (arith, some_there))
  | inr other ↦
      let same : count (owned i) (job ∷ jobs) ≡ count (owned i) jobs = rw other (omega arith) in
      rw other (ap (λ l. job ∷ l) (others_none i jobs (sym same ∙ h)))
]

owner : (i : ℕ) (sch : Option ℕ) → same_addr sch i ≡ true → sch ≡ some i
owner i none e = cc
owner i (some k) e = let same : k ≡ i = ground arith in ap some same

-- A job of schedule `i` has been freed.
module _ (thr : SchThr) (i : ℕ) (job : Job) (inside : i < length thr.schs)
    (mine : owned i job ≡ true) where
  freed_own :
      schedule (job_delete_has_mutex thr job) i
      ≡ record (schedule thr i) { cursize = dec_int (schedule thr i).cursize }
  unfolding job_delete_has_mutex uncount
  freed_own = rw (owner i job.sch mine) (get_or-set_self thr.schs i _ idle inside)

  freed_other : (k : ℕ) → i ≢ k → schedule (job_delete_has_mutex thr job) k ≡ schedule thr k
  unfolding job_delete_has_mutex uncount
  freed_other k h = rw (owner i job.sch mine) (get_or-set_ne thr.schs i k _ idle h)

  length-freed : length (job_delete_has_mutex thr job).schs ≡ length thr.schs
  unfolding job_delete_has_mutex uncount
  length-freed = rw (owner i job.sch mine) (length-set thr.schs i _)

freed_que : (thr : SchThr) (job : Job) → (job_delete_has_mutex thr job).que ≡ thr.que
unfolding job_delete_has_mutex
freed_que thr job = refl

-- What the loop does to the jobs, to the thread and to the other schedules.
pub record Removed (i : ℕ) (thr : SchThr) (jobs : List Job) (r : SchThr × List Job × Option ℕ)
    : Type 0 where
  pub left : r.1 ≡ others i jobs
  pub same_que : r.0.que ≡ thr.que
  pub same_schs : (k : ℕ) → i ≢ k → schedule r.0 k ≡ schedule thr k
  pub none_left : (schedule r.0 i).cursize ≡ 0

pub remove_jobs-Removed :
    (i : ℕ) (jobs : List Job) (thr : SchThr) (tail : Option ℕ)
    → i < length thr.schs
    → (schedule thr i).cursize ≡ count (owned i) jobs
    → (schedule thr i).cursize < 2 ^ 16
    → Removed i thr jobs (remove_jobs i thr jobs tail)
unfolding remove_jobs others
remove_jobs-Removed i [] thr tail inside counted narrow = record {
  left = refl;
  same_que = refl;
  same_schs = λ k h. refl;
  none_left = counted;
}
remove_jobs-Removed i (job ∷ jobs) thr tail inside counted narrow =
    elim (Bool-cases ((schedule thr i).cursize == 0)) [
      | inl done ↦
          let zero_left : (schedule thr i).cursize ≡ 0 = ground arith in
          rw done (record {
            left = sym (others_none i (job ∷ jobs) (sym counted ∙ zero_left));
            same_que = refl;
            same_schs = λ k h. refl;
            none_left = zero_left;
          })
      | inr some_left ↦ elim (Bool-cases (owned i job)) [
        | inl mine ↦
            let one : count (owned i) (job ∷ jobs) ≡ 1 + count (owned i) jobs = rw mine refl in
            let own = freed_own thr i job inside mine in
            let less : (schedule (job_delete_has_mutex thr job) i).cursize ≡ count (owned i) jobs =
              ap (λ s. s.cursize) own ∙ omega (arith, counted, one) in
            let rest =
              remove_jobs-Removed i jobs (job_delete_has_mutex thr job)
                (if same_addr tail job.addr then none else tail)
                (omega (arith, inside, length-freed thr i job inside mine)) less
                (omega (arith, less, one, counted)) in
            rw (some_left, mine)
              (record {
                left = rw mine rest.left;
                same_que = rest.same_que ∙ freed_que thr job;
                same_schs = λ k h. rest.same_schs k h ∙ freed_other thr i job inside mine k h;
                none_left = rest.none_left;
              })
        | inr other ↦
            let same : count (owned i) (job ∷ jobs) ≡ count (owned i) jobs =
              rw other (omega arith) in
            let rest = remove_jobs-Removed i jobs thr tail inside (counted ∙ same) narrow in
            rw (some_left, other)
              (record {
                left = rw other (ap (λ l. job ∷ l) rest.left);
                same_que = rest.same_que;
                same_schs = rest.same_schs;
                none_left = rest.none_left;
              })
      ]
    ]

-- If the last job of the queue belongs to the schedule, the loop takes it out and sets `tail` to NULL.
pub remove_jobs_tail :
    (i : ℕ) (front : List Job) (l : Job) (thr : SchThr) (tail : Option ℕ)
    → i < length thr.schs
    → (schedule thr i).cursize ≡ count (owned i) (front ++ (l ∷ []))
    → (schedule thr i).cursize < 2 ^ 16
    → owned i l ≡ true
    → (tail ≡ none) ⊎ (tail ≡ some l.addr)
    → (remove_jobs i thr (front ++ (l ∷ [])) tail).2 ≡ none
unfolding remove_jobs
remove_jobs_tail i [] l thr tail inside counted narrow last end =
    let one : count (owned i) (l ∷ []) ≡ 1 = rw last refl in
    let some_left : ((schedule thr i).cursize == 0) ≡ false = ground arith in
    let self : (l.addr == l.addr) ≡ true = ground arith in
    elim end [ inl gone ↦ rw (some_left, last, gone) | inr here ↦ rw (some_left, last, here, self) ]
remove_jobs_tail i (job ∷ front) l thr tail inside counted narrow last end =
    let sum = count-append (owned i) front (l ∷ []) in
    let one : count (owned i) (l ∷ []) ≡ 1 = rw last refl in
    let some_left : ((schedule thr i).cursize == 0) ≡ false = ground arith in
    elim (Bool-cases (owned i job)) [
      | inl mine ↦
          let first : count (owned i) (job ∷ (front ++ (l ∷ [])))
              ≡ 1 + count (owned i) (front ++ (l ∷ [])) =
            rw mine refl in
          let own = freed_own thr i job inside mine in
          let less : (schedule (job_delete_has_mutex thr job) i).cursize
              ≡ count (owned i) (front ++ (l ∷ [])) =
            ap (λ s. s.cursize) own ∙ omega (arith, counted, first) in
          rw (some_left, mine)
            (remove_jobs_tail i front l (job_delete_has_mutex thr job) _
              (omega (arith, inside, length-freed thr i job inside mine)) less
              (omega (arith, less, first, counted)) last (cut_tail tail job l end))
      | inr other ↦
          let same : count (owned i) (job ∷ (front ++ (l ∷ [])))
              ≡ count (owned i) (front ++ (l ∷ [])) =
            rw other (omega arith) in
          rw (some_left, other)
            (remove_jobs_tail i front l thr tail inside (counted ∙ same) narrow last end)
    ]
  where
    cut_tail :
        (t : Option ℕ) (j l : Job)
        → (t ≡ none) ⊎ (t ≡ some l.addr)
        → ((if same_addr t j.addr then none else t) ≡ none)
          ⊎ ((if same_addr t j.addr then none else t) ≡ some l.addr)
    cut_tail t j l h = elim (Bool-cases (same_addr t j.addr)) [
      | inl yes_it_is ↦ inl (rw yes_it_is)
      | inr other ↦ rw other h
    ]
