-- ===== src/Timer/Passes.antt =====
-- zcrtlib/ztimer.c, `_zcrt_timer_proc`: a pass over a list ends, and keeps the list together.
use zcrt.Base.{
  ◌==◌, if◌then◌else◌, length, All, ℕ, ◌+◌, ◌≤◌, ◌<◌, ◌≡◌, ◌≢◌, Option, none, some, List, [], ◌∷◌,
  ◌++◌,
}
use mathlib.Core.List.Perm
use mathlib.Core.List.{Perm}
use zcrt.Timer.{Timer, TimerCb, timer_tick, calls_job, scan_jobs, tick}

-- The address of the last node; `prev` is before the first.
abbrev pub last_from : Option ℕ → List TimerCb → Option ℕ
last_from prev [] = prev
last_from prev (j ∷ jobs) = last_from (some j.addr) jobs

-- How many nodes have an address.
abbrev pub nodes_at : ℕ → List TimerCb → ℕ
nodes_at a [] = 0
nodes_at a (j ∷ jobs) = (if a == j.addr then 1 else 0) + nodes_at a jobs

abbrev pub HasFn : TimerCb → Type 0
HasFn j = j.fn ≢ 0

-- `tail` is the last node, no node is in the list twice, and every job has a function.
pub record IsList (prev : Option ℕ) (jobs : List TimerCb) (tail : Option ℕ) : Type 0 where
  pub at_end : tail ≡ last_from prev jobs
  pub apart : (a : ℕ) → nodes_at a jobs ≤ 1
  pub fns : All HasFn jobs

abbrev hits : Option TimerCb → ℕ
hits none = 0
hits (some job) = 1

-- A job but for its time.
abbrev pub timeless : TimerCb → TimerCb
timeless job = record job { left = 0 }

abbrev pub timeless_jobs : List TimerCb → List TimerCb
timeless_jobs [] = []
timeless_jobs (j ∷ jobs) = timeless j ∷ timeless_jobs jobs

abbrev with_hit : Option TimerCb → List TimerCb → List TimerCb
with_hit none jobs = timeless_jobs jobs
with_hit (some job) jobs = timeless job ∷ timeless_jobs jobs

abbrev HitIsDue : Option TimerCb → Type 0
HitIsDue none = Unit
HitIsDue (some job) = HasFn job × (job.left < timer_tick)

-- What is left of a list after a scan.
record Scanned (prev tail : Option ℕ) (jobs : List TimerCb) : Type 0 where
  jobs' : List TimerCb
  tail' : Option ℕ
  hit : Option TimerCb
  run : scan_jobs tail prev jobs ≡ some (jobs', tail', hit)
  valid : IsList prev jobs' tail'
  fewer : (a : ℕ) → nodes_at a jobs' ≤ nodes_at a jobs
  size : length jobs' + hits hit ≡ length jobs
  hit_due : HitIsDue hit
  same : Perm (timeless_jobs jobs) (with_hit hit jobs')

-- The jobs that are called among those whose time has come.
abbrev pub called_of : Timer → List TimerCb → List TimerCb
called_of mng [] = []
called_of mng (job ∷ jobs) =
    let rest = called_of mng jobs in if calls_job mng job then job ∷ rest else rest

-- The free list when the nodes of `jobs` have been put on it in turn.
abbrev pub nodes_onto : List TimerCb → List ℕ → List ℕ
nodes_onto [] l = l
nodes_onto (job ∷ jobs) l = nodes_onto jobs (job.addr ∷ l)

-- `due` are the jobs of `mng` whose time has come in the pass that leaves `mng'`.
pub record Passed (mng mng' : Timer) (due : List TimerCb) : Type 0 where
  pub valid : IsList none mng'.job mng'.tail
  pub times : All (λ job. job.left < timer_tick) due
  pub same_jobs : Perm (timeless_jobs mng.job) (timeless_jobs due ++ timeless_jobs mng'.job)
  pub freed : mng'.freelist ≡ nodes_onto due mng.freelist
  pub same_containers : mng'.container ≡ mng.container

abbrev Ends : ℕ → Timer → Type 0
Ends fuel mng =
    (mng' : Timer) × (due : List TimerCb) × (tick fuel mng ≡ some (mng', called_of mng due))
    × Passed mng mng' due
