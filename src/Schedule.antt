-- ===== src/Schedule.antt =====
-- zcrtlib/zschedule.c: one scheduler thread with its three queues, and the schedules that send jobs
-- to it. A job node is named by its address; the nodes of a queue are the list that `next` links,
-- and `tail` is an address. A schedule is an index into `schs`. int32_t counters are bit patterns.
pub mod Queue
pub mod Count
pub mod Insert
pub mod Send
pub mod Step
pub mod Drain
pub mod Remove
pub mod Delete
pub mod Life
mod Tests
use zcrt.Base.{
  ltb, leb, ◌==◌, if◌then◌else◌, Run, ◌>>=◌, length, get_or, set, replicate, ℕ, zero, suc, ◌+◌, ◌-◌,
  ◌%◌, ◌^◌, Bool, false, not, ◌||◌, Option, none, some, List, [], ◌∷◌, ◌++◌,
}
use zcrt.Err.{ZcrtErr, success, param_err, full, no_mem}
use zcrt.Buf.{u32}

-- `_zstScheduleJob`; the arguments are always six, as the node is cleared.
pub record Job : Type 0 where
  pub addr : ℕ
  pub fn : ℕ
  pub argn : ℕ
  pub args : List ℕ
  pub sch : Option ℕ

-- `_zstSchPriList`
pub record SchPriList : Type 0 where
  pub jobs : List Job
  pub tail : Option ℕ

-- `_zstSchedule`
pub record Schedule : Type 0 where
  pub pri : ℕ
  pub maxsize : ℕ
  pub cursize : ℕ
  pub maxhold : ℕ

-- `_zstSchThr`, and the schedules that exist for it.
pub record SchThr : Type 0 where
  pub que : List SchPriList
  pub freejobs : List ℕ
  pub schs : List Schedule
  pub joballoced : ℕ
  pub jobfreed : ℕ
  pub jobadded : ℕ

abbrev pub sch_pri_num : ℕ
sch_pri_num = 3

abbrev pub cb_max_args : ℕ
cb_max_args = 6

abbrev pub no_jobs : SchPriList
no_jobs = record { jobs = []; tail = none }

abbrev pub idle : Schedule
idle = record { pri = 0; maxsize = 0; cursize = 0; maxhold = 0 }

abbrev pub queue : SchThr → ℕ → SchPriList
queue thr pri = get_or thr.que pri no_jobs

abbrev pub schedule : SchThr → ℕ → Schedule
schedule thr i = get_or thr.schs i idle

abbrev pub same_addr : Option ℕ → ℕ → Bool
same_addr none a = false
same_addr (some t) a = t == a

-- int32_t: `a < b`, and `a - 1`.
abbrev pub less_int : ℕ → ℕ → Bool
less_int a b = ltb ((a + 2 ^ 31) % u32) ((b + 2 ^ 31) % u32)

abbrev pub dec_int : ℕ → ℕ
dec_int a = (a + (u32 - 1)) % u32

unfoldable pub take_front : SchPriList → List Job → Option Job × SchPriList
take_front schpri [] = (none, schpri)
take_front schpri (job ∷ next) = (
  some job,
  record { jobs = next; tail = if same_addr schpri.tail job.addr then none else schpri.tail },
)

unfoldable pub thr_getjob : SchPriList → Option Job × SchPriList
unfolding take_front
thr_getjob schpri = take_front schpri schpri.jobs

-- The node comes from the free list, or from malloc, which answers `fresh`.
unfoldable pub take_node : SchThr → Option ℕ → List ℕ → SchThr × Option ℕ
take_node thr fresh [] = (record thr { joballoced = (thr.joballoced + 1) % u32 }, fresh)
take_node thr fresh (node ∷ nodes) = (record thr { freejobs = nodes }, some node)

unfoldable pub job_new : SchThr → Option ℕ → SchThr × Option ℕ
unfolding take_node
job_new thr fresh =
    take_node (record thr { jobadded = (thr.jobadded + 1) % u32 }) fresh thr.freejobs

unfoldable pub uncount : Option ℕ → List Schedule → List Schedule
uncount none schs = schs
uncount (some i) schs =
    let sch = get_or schs i idle in set schs i (record sch { cursize = dec_int sch.cursize })

unfoldable pub job_delete_has_mutex : SchThr → Job → SchThr
unfolding uncount
job_delete_has_mutex thr job = record thr {
  freejobs = job.addr ∷ thr.freejobs;
  jobfreed = (thr.jobfreed + 1) % u32;
  schs = uncount job.sch thr.schs;
}

-- `tail->next = job`: what follows the node `tail` is `job` and nothing else. A node that is no
-- longer in the queue takes the link without effect on the queue.
unfoldable pub link_after : ℕ → Job → List Job → List Job
link_after tail job [] = []
link_after tail job (j ∷ jobs) =
    let rest = link_after tail job jobs in if tail == j.addr then j ∷ (job ∷ []) else j ∷ rest

-- The two assertions are the `none` cases.
unfoldable pub link_job : Job → List Job → Option ℕ → Run SchPriList
unfolding link_after
link_job job [] none = some (record { jobs = job ∷ []; tail = some job.addr })
link_job job [] (some tail) = none
link_job job (j ∷ jobs) none = none
link_job job (j ∷ jobs) (some tail) =
    some (record { jobs = link_after tail job (j ∷ jobs); tail = some job.addr })

abbrev pub count_job : Schedule → Schedule
count_job sch =
    let cursize' = (sch.cursize + 1) % u32 in
    record sch {
      cursize = cursize';
      maxhold = if less_int sch.maxhold cursize' then cursize' else sch.maxhold;
    }

unfoldable pub insert_job : SchThr → ℕ → Job → Run SchThr
unfolding link_job
insert_job thr i job =
    let sch = schedule thr i in
    let que = queue thr sch.pri in
    link_job job que.jobs que.tail >>= λ que'.
    some (record thr { que = set thr.que sch.pri que'; schs = set thr.schs i (count_job sch) })

-- The part that the two send functions share, after the job has been allocated.
unfoldable pub send_new : SchThr × Option ℕ → ℕ → ℕ → ℕ → List ℕ → Run (SchThr × ZcrtErr)
unfolding insert_job
send_new (thr, none) i cb argn args = some (thr, no_mem)
send_new (thr, some addr) i cb argn args =
    insert_job thr i (record { addr = addr; fn = cb; argn = argn; args = args; sch = some i })
    >>= λ thr'. some (thr', success)

-- `none` is the NULL handle.
unfoldable pub sendjob : SchThr → Option ℕ → Option ℕ → ℕ → ℕ → ℕ → Run (SchThr × ZcrtErr)
unfolding send_new job_new
sendjob thr none fresh cb p1 p2 = some (thr, param_err)
sendjob thr (some i) fresh cb p1 p2 =
    let sch = schedule thr i in
    if cb == 0 || leb sch_pri_num sch.pri
    then some (thr, param_err)
    else if not (less_int sch.cursize sch.maxsize)
    then some (thr, full)
    else send_new (job_new thr fresh) i cb 2 (p1 ∷ p2 ∷ replicate (cb_max_args - 2) 0)

-- `args` are the variable arguments, `argn` of them.
unfoldable pub sendjob_argn : SchThr → Option ℕ → Option ℕ → ℕ → List ℕ → Run (SchThr × ZcrtErr)
unfolding send_new job_new
sendjob_argn thr none fresh cb args = some (thr, param_err)
sendjob_argn thr (some i) fresh cb args =
    let sch = schedule thr i in
    let argn = length args in
    if cb == 0 || (leb sch_pri_num sch.pri || (argn == 0 || ltb cb_max_args argn))
    then some (thr, param_err)
    else if not (less_int sch.cursize sch.maxsize)
    then some (thr, full)
    else send_new (job_new thr fresh) i cb argn (args ++ replicate (cb_max_args - argn) 0)

unfoldable pub pick_or :
    Option Job × SchPriList
    → List SchPriList
    → Option Job × List SchPriList
    → Option Job × List SchPriList
pick_or (none, q) qs rest = (rest.0, q ∷ rest.1)
pick_or (some job, q) qs rest = (some job, q ∷ qs)

-- The first queue that has a job gives it.
unfoldable pub pick_job : List SchPriList → Option Job × List SchPriList
pick_job [] = (none, [])
pick_job (q ∷ qs) = pick_or (thr_getjob q) qs (pick_job qs)

unfoldable pub finish : SchThr → Option Job → SchThr
finish thr none = thr
finish thr (some job) = job_delete_has_mutex thr job

-- One round of the inner loop of `_zcrt_schedule_thread_proc`: the job whose function it then calls.
unfoldable pub thread_step : SchThr → SchThr × Option Job
thread_step thr =
    let (job, que') = pick_job thr.que in (finish (record thr { que = que' }) job, job)

unfoldable pub go_on : SchThr → Option Job → Run (SchThr × List Job) → Run (SchThr × List Job)
go_on thr none rest = some (thr, [])
go_on thr (some job) rest = rest >>= λ r. some (r.0, job ∷ r.1)

-- The inner loop, with the jobs whose functions it calls in their order, as long as no job is sent in
-- the meantime; `none` is out of fuel.
unfoldable pub drain : ℕ → SchThr → Run (SchThr × List Job)
drain zero thr = none
drain (suc fuel) thr =
    let rest = drain fuel (thread_step thr).0 in go_on (thread_step thr).0 (thread_step thr).1 rest

abbrev pub owned : ℕ → Job → Bool
owned i job = same_addr job.sch i

-- The loop of `_zcrt_s_thr_remove_sch`: the thread, the queue that is left, and its `tail`.
unfoldable pub remove_jobs : ℕ → SchThr → List Job → Option ℕ → SchThr × List Job × Option ℕ
remove_jobs i thr [] tail = (thr, [], tail)
remove_jobs i thr (job ∷ jobs) tail =
    let freed =
      remove_jobs i (job_delete_has_mutex thr job) jobs
        (if same_addr tail job.addr then none else tail) in
    let kept = remove_jobs i thr jobs tail in
    if (schedule thr i).cursize == 0
    then (thr, job ∷ jobs, tail)
    else if owned i job
    then freed
    else (kept.0, job ∷ kept.1, kept.2)

abbrev pub with_queue : SchThr × List Job × Option ℕ → ℕ → SchThr
with_queue r pri = record r.0 { que = set r.0.que pri (record { jobs = r.1; tail = r.2 }) }

-- Without the list `sch_list`, which no function reads.
unfoldable pub thr_remove_sch : SchThr → ℕ → SchThr
thr_remove_sch thr i =
    let pri = (schedule thr i).pri in
    let schpri = queue thr pri in
    if less_int 0 (schedule thr i).cursize
    then with_queue (remove_jobs i thr schpri.jobs schpri.tail) pri
    else thr

-- Without the count of references, after which the thread is stopped. The handle is not to be used
-- afterwards; `none` inside is the NULL handle.
unfoldable pub schedule_delete : SchThr → Option ℕ → Run SchThr
schedule_delete thr none = some thr
schedule_delete thr (some i) =
    if leb sch_pri_num (schedule thr i).pri then none else some (thr_remove_sch thr i)
