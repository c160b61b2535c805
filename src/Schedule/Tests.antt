-- ===== src/Schedule/Tests.antt =====
-- A thread with two schedules of one priority, and a job of each.
use zcrt.Base.{
  replicate, ℕ, zero, suc, ◌+◌, ◌^◌, ◌≤◌, ◌<◌, ◌≡◌, refl, ◌⊎◌, inl, none, some, [], ◌∷◌, arith,
}
use zcrt.Err.{success}
use zcrt.Schedule.{
  Job, SchPriList, Schedule, SchThr, no_jobs, idle, queue, schedule, owned, sendjob, thread_step,
  drain, schedule_delete, thr_getjob, take_front, pick_or, pick_job,
}
use zcrt.Schedule.Count.{count_all}
use zcrt.Schedule.Queue.{IsQueue}
use zcrt.Schedule.Insert.{IsValid, Sent}
use zcrt.Schedule.Send.{sendjob-Sent}
use zcrt.Schedule.Step.{Taken, thread_step-Taken}
use zcrt.Schedule.Drain.{all_jobs, drain-all_jobs}
use zcrt.Schedule.Remove.{others}
use zcrt.Schedule.Delete.{Deleted, schedule_delete-Deleted, delete_breaks_queue}

abbrev job_of : ℕ → ℕ → Job
job_of addr sch = record {
  addr = addr;
  fn = addr + 1;
  argn = 2;
  args = 1 ∷ 2 ∷ 0 ∷ 0 ∷ 0 ∷ 0 ∷ [];
  sch = some sch;
}

abbrev middle : SchPriList
middle = record { jobs = job_of 100 1 ∷ job_of 101 0 ∷ []; tail = some 101 }

abbrev sample : SchThr
sample = record {
  que = no_jobs ∷ middle ∷ no_jobs ∷ [];
  freejobs = 200 ∷ [];
  schs =
      record { pri = 1; maxsize = 1; cursize = 1; maxhold = 1 }
      ∷ record { pri = 1; maxsize = 4; cursize = 1; maxhold = 2 }
      ∷ [];
  joballoced = 3;
  jobfreed = 1;
  jobadded = 3;
}

sample-IsQueue : (i : ℕ) → IsQueue (queue sample i)
sample-IsQueue zero = record { at_end = refl; apart = λ a. omega arith }
sample-IsQueue (suc zero) = record { at_end = refl; apart = λ a. ground arith }
sample-IsQueue (suc (suc zero)) = record { at_end = refl; apart = λ a. omega arith }
sample-IsQueue (suc (suc (suc i))) = record { at_end = refl; apart = λ a. omega arith }

sample_each :
    (P : Schedule → Type 0)
    → P (schedule sample 0)
    → P (schedule sample 1)
    → P idle
    → (i : ℕ) → P (schedule sample i)
sample_each P a b c zero = a
sample_each P a b c (suc zero) = b
sample_each P a b c (suc (suc i)) = c

sample-IsValid : IsValid sample
sample-IsValid = record {
  queues = refl;
  linked = sample-IsQueue;
  alone = λ a. ground arith;
  counted = counts;
  owners = strangers;
  bounded = sample_each (λ s. s.cursize ≤ s.maxsize) (omega arith) (omega arith) (omega arith);
  narrow = sample_each (λ s. s.maxsize < 2 ^ 16) (omega arith) (omega arith) (omega arith);
  pris = sample_each (λ s. s.pri < 3) (omega arith) (omega arith) (omega arith);
}
  where
    counts : (i : ℕ) → i < 2 → (schedule sample i).cursize ≡ count_all (owned i) sample.que
    counts zero h = refl
    counts (suc zero) h = refl
    counts (suc (suc i)) h = absurd (omega arith)

    strangers : (i : ℕ) → 2 ≤ i → count_all (owned i) sample.que ≡ 0
    strangers zero h = absurd (omega arith)
    strangers (suc zero) h = absurd (omega arith)
    strangers (suc (suc i)) h = ground arith

sendjob-Sent_example :
    (thr' : SchThr) × (addr : ℕ) × (sendjob sample (some 1) none 55 7 8 ≡ some (thr', success))
    × Sent sample.que sample.schs 1
        (record { addr = addr; fn = 55; argn = 2; args = 7 ∷ 8 ∷ replicate 4 0; sch = some 1 })
        thr'
sendjob-Sent_example =
    sendjob-Sent sample none 1 55 7 8 sample-IsValid (omega arith) (omega arith) (inl (omega arith))
      (omega arith)

thread_step-Taken_example :
    (thread_step sample ≡ (sample, none)) × ((i : ℕ) → (queue sample i).jobs ≡ [])
    ⊎ (job : Job) × (thr' : SchThr) × (thread_step sample ≡ (thr', some job))
      × Taken sample job thr'
thread_step-Taken_example = thread_step-Taken sample sample-IsValid

drain-all_jobs_example :
    (thr' : SchThr) × (drain 3 sample ≡ some (thr', all_jobs sample.que))
    × IsValid thr'
    × ((i : ℕ) → (queue thr' i).jobs ≡ [])
drain-all_jobs_example = drain-all_jobs 3 sample sample-IsValid (omega arith)

schedule_delete-Deleted_example :
    (thr' : SchThr) × (schedule_delete sample (some 0) ≡ some thr') × Deleted sample 0 thr'
schedule_delete-Deleted_example = schedule_delete-Deleted sample 0 sample-IsValid (omega arith) refl

delete_breaks_queue_example :
    (thr' : SchThr) × (schedule_delete sample (some 0) ≡ some thr')
    × (sendjob thr' (some 1) (some 300) 55 7 8 ≡ none)
delete_breaks_queue_example =
    delete_breaks_queue sample 0 sample-IsValid (omega arith) refl 1 (job_of 100 1 ∷ [])
      (job_of 101 0) (job_of 100 1) [] 55 7 8 300 (omega arith) refl refl refl
      (unfold others in refl) (omega arith) (omega arith)

-- The first round takes the job at address 100.
first_round : (thread_step sample).1 ≡ some (job_of 100 1)
unfolding thread_step pick_job pick_or thr_getjob take_front
first_round = refl
