-- ===== src/Schedule/Delete.antt =====
-- zcrtlib/zschedule.c, `zcrt_schedule_delete`: what is left for the other schedules of the thread.
use zcrt.Base.{
  leb, ◌==◌, lt→ltb, Bool-cases, ◌>>=◌, length, set, get_or-set_self, set_same, ℕ, ◌+◌, ◌%◌, ◌^◌,
  ◌≤◌, ◌<◌, ◌≡◌, refl, sym, ap, ◌∙◌, ◌≢◌, inl, inr, true, false, ◌||◌, Option, none, some, List, [],
  ◌∷◌, ◌++◌, arith,
}
use zcrt.Buf.{u32}
use zcrt.Err.{success}
use zcrt.Schedule.{
  Job, SchThr, sch_pri_num, no_jobs, queue, schedule, less_int, owned, remove_jobs, with_queue,
  thr_remove_sch, schedule_delete, link_job, insert_job, take_node, job_new, send_new, sendjob,
}
use zcrt.Schedule.Count.{count, count-append, count_all}
use zcrt.Schedule.Queue.{last_addr, last_addr_snoc}
use zcrt.Schedule.Insert.{IsValid}
use zcrt.Schedule.Send.{less_int-IsValid}
use zcrt.Schedule.Remove.{others, others_none, Removed, remove_jobs-Removed, remove_jobs_tail}

-- What deleting schedule `i` does to the thread.
pub record Deleted (thr : SchThr) (i : ℕ) (thr' : SchThr) : Type 0 where
  pub left : (queue thr' (schedule thr i).pri).jobs ≡ others i (queue thr (schedule thr i).pri).jobs
  pub other_queues : thr'.que ≡ set thr.que (schedule thr i).pri (queue thr' (schedule thr i).pri)
  pub other_schs : (k : ℕ) → i ≢ k → schedule thr' k ≡ schedule thr k
  pub none_left : (schedule thr' i).cursize ≡ 0

-- All jobs of the schedule stand in the queue of its priority.
abbrev pub AtHome : SchThr → ℕ → Type 0
AtHome thr i = count_all (owned i) thr.que ≡ count (owned i) (queue thr (schedule thr i).pri).jobs

module _ (thr : SchThr) (i : ℕ) (valid : IsValid thr) (inside : i < length thr.schs)
    (home : AtHome thr i) where
  abbrev loop : SchThr × List Job × Option ℕ
  loop = let q = queue thr (schedule thr i).pri in remove_jobs i thr q.jobs q.tail

  here : (schedule thr i).cursize ≡ count (owned i) (queue thr (schedule thr i).pri).jobs
  here = valid.counted i inside ∙ home

  small : (schedule thr i).cursize < 2 ^ 16
  small = omega (arith, valid.bounded i, valid.narrow i)

  loop-Removed : Removed i thr (queue thr (schedule thr i).pri).jobs loop
  loop-Removed =
      remove_jobs-Removed i (queue thr (schedule thr i).pri).jobs thr
        (queue thr (schedule thr i).pri).tail inside here small

  some_jobs :
      1 ≤ (schedule thr i).cursize
      → schedule_delete thr (some i) ≡ some (with_queue loop (schedule thr i).pri)
  unfolding schedule_delete thr_remove_sch
  some_jobs h =
      let pris = valid.pris i in
      let good : leb sch_pri_num (schedule thr i).pri ≡ false = ground arith in
      let bound = small in
      let a : ((schedule thr i).cursize + 2 ^ 31) % u32 ≡ (schedule thr i).cursize + 2 ^ 31 =
        omega arith in
      let positive : less_int 0 (schedule thr i).cursize ≡ true = rw a (ground arith) in
      rw (good, positive)

  no_job : (schedule thr i).cursize ≡ 0 → schedule_delete thr (some i) ≡ some thr
  unfolding schedule_delete thr_remove_sch
  no_job h =
      let pris = valid.pris i in
      let good : leb sch_pri_num (schedule thr i).pri ≡ false = ground arith in rw (good, h)

  queue_at :
      queue (with_queue loop (schedule thr i).pri) (schedule thr i).pri
      ≡ record { jobs = loop.1; tail = loop.2 }
  queue_at =
      get_or-set_self loop.0.que (schedule thr i).pri _ no_jobs
        (omega (arith, ap length loop-Removed.same_que, valid.queues, valid.pris i))

  -- For a valid thread and a schedule whose jobs all stand in the queue of its priority,
  -- `zcrt_schedule_delete` passes its assertion, and its loop takes exactly the jobs of the schedule
  -- out of that queue: the others stay in their order, the other queues and schedules are as before,
  -- and the schedule has no job left.
  pub schedule_delete-Deleted :
      (thr' : SchThr) × (schedule_delete thr (some i) ≡ some thr') × Deleted thr i thr'
  schedule_delete-Deleted = elim (Bool-cases ((schedule thr i).cursize == 0)) [
    | inl idle_now ↦
        let none_there : (schedule thr i).cursize ≡ 0 = ground arith in
        (
          thr,
          no_job none_there,
          record {
            left =
                sym (others_none i (queue thr (schedule thr i).pri).jobs (sym here ∙ none_there));
            other_queues = sym (set_same thr.que (schedule thr i).pri no_jobs);
            other_schs = λ k h. refl;
            none_left = none_there;
          },
        )
    | inr busy ↦
        let some_there : 1 ≤ (schedule thr i).cursize = ground arith in
        (
          with_queue loop (schedule thr i).pri,
          some_jobs some_there,
          record {
            left = ap (λ q. q.jobs) queue_at ∙ loop-Removed.left;
            other_queues = rw queue_at (
                ap (λ l. set l (schedule thr i).pri (record { jobs = loop.1; tail = loop.2 }))
                  loop-Removed.same_que);
            other_schs = loop-Removed.same_schs;
            none_left = loop-Removed.none_left;
          },
        )
  ]

  -- When the last job of its queue is the deleted schedule's and a job of another one stays, `tail` is
  -- NULL with a queue that is not empty.
  tail_lost :
      (front : List Job) (l : Job)
      → (queue thr (schedule thr i).pri).jobs ≡ front ++ (l ∷ [])
      → owned i l ≡ true
      → loop.2 ≡ none
  tail_lost front l e mine =
      let end : (queue thr (schedule thr i).pri).tail ≡ some l.addr =
        (valid.linked (schedule thr i).pri).at_end ∙ ap last_addr e ∙ last_addr_snoc front l in
      ap (λ js. (remove_jobs i thr js (queue thr (schedule thr i).pri).tail).2) e
      ∙ remove_jobs_tail i front l thr (queue thr (schedule thr i).pri).tail inside
          (here ∙ ap (count (owned i)) e) small mine (inr end)

-- A queue that is not empty and whose `tail` is NULL: inserting fails the assertion.
insert_job_fails :
    (thr : SchThr) (k : ℕ) (job j : Job) (js : List Job)
    → (queue thr (schedule thr k).pri).jobs ≡ j ∷ js
    → (queue thr (schedule thr k).pri).tail ≡ none
    → insert_job thr k job ≡ none
unfolding insert_job link_job
insert_job_fails thr k job j js e t = rw (e, t)

send_new_fails :
    (nodes : List ℕ) (thr : SchThr) (k a cb argn : ℕ) (args : List ℕ) (j : Job) (js : List Job)
    → (queue thr (schedule thr k).pri).jobs ≡ j ∷ js
    → (queue thr (schedule thr k).pri).tail ≡ none
    → send_new (take_node thr (some a) nodes) k cb argn args ≡ none
unfolding send_new take_node
send_new_fails [] thr k a cb argn args j js e t =
    ap (λ r. r >>= λ t'. some (t', success))
      (insert_job_fails (record thr { joballoced = (thr.joballoced + 1) % u32 }) k
        (record { addr = a; fn = cb; argn = argn; args = args; sch = some k }) j js e t)
send_new_fails (node ∷ nodes) thr k a cb argn args j js e t =
    ap (λ r. r >>= λ t'. some (t', success))
      (insert_job_fails (record thr { freejobs = nodes }) k
        (record { addr = node; fn = cb; argn = argn; args = args; sch = some k }) j js e t)

sendjob_fails :
    (thr : SchThr) (k cb p1 p2 a : ℕ) (j : Job) (js : List Job)
    → cb ≢ 0
    → (schedule thr k).pri < sch_pri_num
    → less_int (schedule thr k).cursize (schedule thr k).maxsize ≡ true
    → (queue thr (schedule thr k).pri).jobs ≡ j ∷ js
    → (queue thr (schedule thr k).pri).tail ≡ none
    → sendjob thr (some k) (some a) cb p1 p2 ≡ none
unfolding sendjob job_new
sendjob_fails thr k cb p1 p2 a j js given pri room e t =
    let good : (cb == 0 || leb sch_pri_num (schedule thr k).pri) ≡ false = ground arith in
    rw (good, room) (send_new_fails thr.freejobs _ k a cb 2 _ j js e t)

-- For a valid thread with two schedules of one priority, the jobs of the first all in the queue of
-- that priority: if the last job of that queue is the first schedule's, and the queue has a job
-- that is not, then `zcrt_schedule_delete` of the first leaves the queue with `tail` NULL, and the
-- next `zcrt_schedule_sendjob` to the second, which has room and memory, fails its assertion that
-- `tail` is not NULL.
pub delete_breaks_queue :
    (thr : SchThr) (i : ℕ) (valid : IsValid thr) (inside : i < length thr.schs)
    (home : AtHome thr i) (k : ℕ) (front : List Job) (l j : Job) (js : List Job) (cb p1 p2 a : ℕ)
    → i ≢ k
    → (schedule thr k).pri ≡ (schedule thr i).pri
    → (queue thr (schedule thr i).pri).jobs ≡ front ++ (l ∷ [])
    → owned i l ≡ true
    → others i (front ++ (l ∷ [])) ≡ j ∷ js
    → cb ≢ 0
    → (schedule thr k).cursize < (schedule thr k).maxsize
    → (thr' : SchThr) × (schedule_delete thr (some i) ≡ some thr')
      × (sendjob thr' (some k) (some a) cb p1 p2 ≡ none)
delete_breaks_queue thr i valid inside home k front l j js cb p1 p2 a apart pri e mine stays given
      room =
    let q = queue thr (schedule thr i).pri in
    let loop = remove_jobs i thr q.jobs q.tail in
    let thr' = with_queue loop (schedule thr i).pri in
    let one : count (owned i) (l ∷ []) ≡ 1 = rw mine refl in
    let sum = ap (count (owned i)) e ∙ count-append (owned i) front (l ∷ []) in
    let busy : 1 ≤ (schedule thr i).cursize =
      omega (arith, one, sum, here thr i valid inside home) in
    let removed = loop-Removed thr i valid inside home in
    let same : schedule thr' k ≡ schedule thr k = removed.same_schs k apart in
    let at : queue thr' (schedule thr' k).pri ≡ record { jobs = loop.1; tail = loop.2 } =
      ap (λ s. queue thr' s.pri) same ∙ ap (queue thr') pri ∙ queue_at thr i valid inside home in
    let less : less_int (schedule thr k).cursize (schedule thr k).maxsize ≡ true =
      less_int-IsValid thr k valid ∙ lt→ltb _ _ room in
    (
      thr',
      some_jobs thr i valid inside home busy,
      sendjob_fails thr' k cb p1 p2 a j js given (rw same (valid.pris k)) (rw same less)
          (ap (λ x. x.jobs) at ∙ removed.left ∙ ap (others i) e ∙ stays)
          (ap (λ x. x.tail) at ∙ tail_lost thr i valid inside home front l e mine),
    )
