-- ===== src/Schedule/Insert.antt =====
-- zcrtlib/zschedule.c: the state that the calls keep, and the insertion of a job.
use zcrt.Base.{
  ◌==◌, Bool-cases, ◌>>=◌, length, get_or, set, length-set, get_or-set_self, get_or-set_ne,
  get_or-set_all, ℕ, ◌+◌, ◌^◌, ◌≤◌, ◌<◌, ◌≡◌, refl, sym, ap, ◌∙◌, ◌≢◌, inl, inr, true, false, some,
  List, [], ◌∷◌, ◌++◌, arith,
}
use mathlib.Core.Path.{subst}
use zcrt.Schedule.{
  owned, Job, SchPriList, Schedule, SchThr, sch_pri_num, no_jobs, idle, queue, schedule, count_job,
  insert_job,
}
use zcrt.Schedule.Count.{count, count_all, count-count_all, count_all-snoc}
use zcrt.Schedule.Queue.{IsQueue, at_addr, link_job_end, IsQueue-snoc}

-- How often an address is the address of a node of the thread, free or queued.
abbrev pub uses : ℕ → SchThr → ℕ
uses a thr = count (λ x. a == x) thr.freejobs + count_all (at_addr a) thr.que

-- The queues end where `tail` says, no node is in two places, and `cursize` counts the queued jobs of
-- a schedule and is at most its `maxsize`.
pub record IsValid (thr : SchThr) : Type 0 where
  pub queues : length thr.que ≡ sch_pri_num
  pub linked : (i : ℕ) → IsQueue (queue thr i)
  pub alone : (a : ℕ) → uses a thr ≤ 1
  pub counted :
      (i : ℕ) → i < length thr.schs → (schedule thr i).cursize ≡ count_all (owned i) thr.que
  pub owners : (i : ℕ) → length thr.schs ≤ i → count_all (owned i) thr.que ≡ 0
  pub bounded : (i : ℕ) → (schedule thr i).cursize ≤ (schedule thr i).maxsize
  pub narrow : (i : ℕ) → (schedule thr i).maxsize < 2 ^ 16
  pub pris : (i : ℕ) → (schedule thr i).pri < sch_pri_num

-- What sending a job to `que` and `schs` does: the job stands at the end of the queue of its schedule's priority and is
-- counted there; every other queue and schedule is as it was.
pub record Sent (que : List SchPriList) (schs : List Schedule) (i : ℕ) (job : Job) (thr' : SchThr)
    : Type 0 where
  pub valid : IsValid thr'
  pub at_end :
      (queue thr' (get_or schs i idle).pri).jobs
      ≡ (get_or que (get_or schs i idle).pri no_jobs).jobs ++ (job ∷ [])
  pub other_queues :
      thr'.que ≡ set que (get_or schs i idle).pri (queue thr' (get_or schs i idle).pri)
  pub other_schs : thr'.schs ≡ set schs i (schedule thr' i)
  pub one_more : (schedule thr' i).cursize ≡ (get_or schs i idle).cursize + 1

-- An entry of the table of schedules after a write at `i`.
pub written_at :
    (schs : List Schedule) (i j : ℕ) (sch : Schedule)
    → i < length schs
    → (i == j) ≡ true
    → get_or (set schs i sch) j idle ≡ sch
written_at schs i j sch inside e =
    let same : i ≡ j = ground arith in
    subst (λ k. get_or (set schs i sch) k idle ≡ sch) same (get_or-set_self schs i sch idle inside)

pub insert_job-Sent :
    (thr : SchThr) (i : ℕ) (job : Job)
    → IsValid thr
    → i < length thr.schs
    → job.sch ≡ some i
    → uses job.addr thr ≡ 0
    → (schedule thr i).cursize < (schedule thr i).maxsize
    → (thr' : SchThr) × (insert_job thr i job ≡ some thr') × Sent thr.que thr.schs i job thr'
unfolding insert_job
insert_job-Sent thr i job valid inside mine unused room =
    let pri = (schedule thr i).pri in
    let q = queue thr pri in
    let q' : SchPriList = record { jobs = q.jobs ++ (job ∷ []); tail = some job.addr } in
    let here : pri < length thr.que = omega (arith, valid.queues, valid.pris i) in
    let at : get_or (set thr.que pri q') pri no_jobs ≡ q' =
      get_or-set_self thr.que pri q' no_jobs here in
    let at_sch : get_or (set thr.schs i (count_job (schedule thr i))) i idle
        ≡ count_job (schedule thr i) =
      get_or-set_self thr.schs i (count_job (schedule thr i)) idle inside in
    let more : (schedule thr i).cursize + 1 < 2 ^ 16 = omega (arith, valid.narrow i) in
    (
      record thr { que = set thr.que pri q'; schs = set thr.schs i (count_job (schedule thr i)) },
      rw (link_job_end q job (valid.linked pri), ◌>>=◌),
      record {
        valid = record {
          queues = length-set thr.que pri q' ∙ valid.queues;
          linked = get_or-set_all IsQueue thr.que pri q' no_jobs valid.linked (
              IsQueue-snoc q job (valid.linked pri)
                (omega (arith, unused, count-count_all (at_addr job.addr) thr.que pri)));
          alone = λ a. elim (Bool-cases (a == job.addr)) [
            | inl same ↦
                let by : job.addr ≡ a = ground arith in
                let new : uses a thr ≡ 0 = subst (λ x. uses x thr ≡ 0) by unused in
                let step = count_all-snoc (at_addr a) thr.que pri q' job here refl in
                rw (step, same) (omega (arith, new))
            | inr other ↦
                let step = count_all-snoc (at_addr a) thr.que pri q' job here refl in
                rw (step, other) (omega (arith, valid.alone a))
          ];
          counted = λ j h. elim (Bool-cases (i == j)) [
            | inl same ↦
                let step = count_all-snoc (owned j) thr.que pri q' job here refl in
                let by : j ≡ i = ground arith in
                let was : (schedule thr i).cursize ≡ count_all (owned j) thr.que =
                  subst (λ k. (schedule thr i).cursize ≡ count_all (owned k) thr.que) (sym by)
                    (valid.counted i inside) in
                rw
                  (
                    written_at thr.schs i j (count_job (schedule thr i)) inside same,
                    step,
                    mine,
                    same,
                  )
                  (omega (arith, was))
            | inr other ↦
                let step = count_all-snoc (owned j) thr.que pri q' job here refl in
                let apart : i ≢ j = ground arith in
                rw
                  (
                    get_or-set_ne thr.schs i j (count_job (schedule thr i)) idle apart,
                    step,
                    mine,
                    other,
                  )
                  (omega (
                    arith,
                    valid.counted j
                        (omega (arith, h, length-set thr.schs i (count_job (schedule thr i)))),
                  ))
          ];
          owners = λ j h.
              let far : length thr.schs ≤ j =
                omega (arith, h, length-set thr.schs i (count_job (schedule thr i))) in
              let step = count_all-snoc (owned j) thr.que pri q' job here refl in
              let other : (i == j) ≡ false = ground arith in
              rw (step, mine, other) (omega (arith, valid.owners j far));
          bounded =
              get_or-set_all (λ s. s.cursize ≤ s.maxsize) thr.schs i (count_job (schedule thr i))
                idle valid.bounded (omega arith);
          narrow =
              get_or-set_all (λ s. s.maxsize < 2 ^ 16) thr.schs i (count_job (schedule thr i)) idle
                valid.narrow (valid.narrow i);
          pris =
              get_or-set_all (λ s. s.pri < sch_pri_num) thr.schs i (count_job (schedule thr i)) idle
                valid.pris (valid.pris i);
        };
        at_end = ap (λ x. x.jobs) at;
        other_queues = ap (set thr.que pri) (sym at);
        other_schs = ap (set thr.schs i) (sym at_sch);
        one_more = ap (λ x. x.cursize) at_sch ∙ ground arith;
      },
    )
