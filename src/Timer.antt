-- ===== src/Timer.antt =====
-- zcrtlib/ztimer.c: jobs that are called after a time, and the containers that switch groups of them
-- off. A job node is named by its address; the list of nodes is the list that `next` links. The mutex
-- is recursive, and each function is one step; a job's function is not part of the program: a tick
-- gives the list of the jobs whose functions are called.
pub mod Containers
pub mod Ticks
pub mod Passes
mod Tests
use zcrt.Base.{
  ltb, ◌==◌, if◌then◌else◌, Run, ◌>>=◌, length, get_or, set, replicate, ℕ, zero, suc, ◌+◌, ◌-◌, ◌%◌,
  ◌^◌, Bool, false, not, ◌&&◌, ◌||◌, Option, none, some, List, [], ◌∷◌, ◌++◌,
}
use zcrt.Err.{ZcrtErr, success, param_err, invalid_crt_module, bad_object, no_mem}

-- `_zstTimerCB`; the arguments are always six, as the node is cleared.
pub record TimerCb : Type 0 where
  pub addr : ℕ
  pub left : ℕ
  pub fn : ℕ
  pub argn : ℕ
  pub timecon : ℕ
  pub args : List ℕ

-- `_zstTimer`; of a free node the address is left.
pub record Timer : Type 0 where
  pub job : List TimerCb
  pub tail : Option ℕ
  pub freelist : List ℕ
  pub freesize : ℕ
  pub conlastid : ℕ
  pub container : List ℕ

abbrev pub container_max : ℕ
container_max = 1000

abbrev pub invalid_container : ℕ
invalid_container = 0

abbrev pub container_constid : ℕ
container_constid = 0xfff

abbrev pub timer_tick : ℕ
timer_tick = 50

abbrev pub is_container : ℕ → Bool
is_container cid =
    (ltb cid container_max && not (cid == invalid_container)) || cid == container_constid

abbrev pub container_at : List ℕ → ℕ → ℕ
container_at container i = get_or container i 0

abbrev pub is_addr : Option ℕ → ℕ → Bool
is_addr none a = false
is_addr (some t) a = t == a

-- The node comes from the free list, or from malloc, which answers `fresh`.
unfoldable pub timer_node : Timer → Option ℕ → List ℕ → Timer × Option ℕ
timer_node mng fresh [] = (mng, fresh)
timer_node mng fresh (node ∷ nodes) =
    (record mng { freelist = nodes; freesize = mng.freesize - 1 }, some node)

unfoldable pub timer_malloc_cb : Timer → Option ℕ → Timer × Option ℕ
timer_malloc_cb mng fresh = timer_node mng fresh mng.freelist

unfoldable pub timer_free_cb : Timer → TimerCb → Timer
timer_free_cb mng job = record mng {
  freelist = job.addr ∷ mng.freelist;
  freesize = mng.freesize + 1;
}

-- `tail->next = job`
unfoldable pub link_behind : ℕ → TimerCb → List TimerCb → List TimerCb
link_behind tail job [] = []
link_behind tail job (j ∷ jobs) =
    let rest = link_behind tail job jobs in if tail == j.addr then j ∷ (job ∷ []) else j ∷ rest

-- The two assertions are the `none` cases.
unfoldable pub insert_jobs : TimerCb → List TimerCb → Option ℕ → Run (List TimerCb)
insert_jobs job [] none = some (job ∷ [])
insert_jobs job [] (some tail) = none
insert_jobs job (j ∷ jobs) none = none
insert_jobs job (j ∷ jobs) (some tail) = some (link_behind tail job (j ∷ jobs))

unfoldable pub insert_cb_has_mutex : Timer → TimerCb → Run Timer
insert_cb_has_mutex mng job = insert_jobs job mng.job mng.tail >>= λ jobs.
    some (record mng { job = jobs; tail = some job.addr })

-- A container number that is free, as `i` before the remainder; `none` is out of fuel. `i` is a
-- uint16_t, the bound an int.
unfoldable pub find_container : ℕ → List ℕ → ℕ → ℕ → Run (Option ℕ)
find_container zero container i bound = none
find_container (suc fuel) container i bound =
    let rest = find_container fuel container ((i + 1) % 2 ^ 16) bound in
    let idx = i % container_max in
    if ltb i bound
    then (if not (idx == invalid_container) && container_at container idx == 0
        then some (some i)
        else rest)
    else some none

unfoldable pub use_container : Timer → Option ℕ → Timer × ℕ
use_container mng none = (mng, invalid_container)
use_container mng (some i) = (
  record mng { container = set mng.container (i % container_max) 1; conlastid = i },
  i % container_max,
)

-- The container number, or 0. `none` for a module or a manager that is NULL.
unfoldable pub timer_container_new : ℕ → Option Timer → Run (Option Timer × ℕ)
timer_container_new fuel none = some (none, invalid_container)
timer_container_new fuel (some mng) =
    find_container fuel mng.container mng.conlastid (mng.conlastid + container_max) >>= λ found.
    let (mng', cid) = use_container mng found in some (some mng', cid)

unfoldable pub timer_container_delete : Option Timer → ℕ → Option Timer
timer_container_delete none cid = none
timer_container_delete (some mng) cid =
    if not (is_container cid) || cid == container_constid
    then some mng
    else some (record mng { container = set mng.container cid 0 })

-- What the two functions that add share, once a node has been asked for.
unfoldable pub add_node : Timer × Option ℕ → (ℕ → TimerCb) → Run (Option Timer × ZcrtErr)
add_node (mng, none) job = some (some mng, no_mem)
add_node (mng, some addr) job =
    insert_cb_has_mutex mng (job addr) >>= λ mng'. some (some mng', success)

abbrev pub switched_off : Timer → ℕ → Bool
switched_off mng cid =
    not (cid == container_constid) && container_at mng.container cid == invalid_container

unfoldable pub timercon_add :
    Option Timer → Option ℕ → ℕ → ℕ → ℕ → ℕ → ℕ → Run (Option Timer × ZcrtErr)
timercon_add none fresh cid period cb p1 p2 = some (none, invalid_crt_module)
timercon_add (some mng) fresh cid period cb p1 p2 =
    if not (is_container cid)
    then some (some mng, invalid_crt_module)
    else if cb == 0
    then some (some mng, param_err)
    else if switched_off mng cid
    then some (some mng, bad_object)
    else add_node (timer_malloc_cb mng fresh) (λ addr. record {
      addr = addr;
      left = period;
      fn = cb;
      argn = 2;
      timecon = cid;
      args = p1 ∷ p2 ∷ replicate 4 0;
    })

-- `timecon` keeps the 0 of the cleared node.
unfoldable pub timercon_add_argn :
    Option Timer → Option ℕ → ℕ → ℕ → ℕ → List ℕ → Run (Option Timer × ZcrtErr)
timercon_add_argn none fresh cid period cb args = some (none, invalid_crt_module)
timercon_add_argn (some mng) fresh cid period cb args =
    if not (is_container cid)
    then some (some mng, invalid_crt_module)
    else if cb == 0 || (length args == 0 || ltb 6 (length args))
    then some (some mng, param_err)
    else if switched_off mng cid
    then some (some mng, bad_object)
    else add_node (timer_malloc_cb mng fresh) (λ addr. record {
      addr = addr;
      left = period;
      fn = cb;
      argn = length args;
      timecon = invalid_container;
      args = args ++ replicate (6 - length args) 0;
    })

abbrev pub is_job : ℕ → ℕ → ℕ → TimerCb → Bool
is_job cb p1 p2 job = job.fn == cb && (get_or job.args 0 0 == p1 && get_or job.args 1 0 == p2)

-- `mng->tail` after the node `job` has been unlinked from between `prev` and `next`, with the assertion
-- that the last node has no successor.
unfoldable pub cut_tail : Option ℕ → TimerCb → Option ℕ → List TimerCb → Run (Option ℕ)
cut_tail tail job prev [] = some (if is_addr tail job.addr then prev else tail)
cut_tail tail job prev (j ∷ jobs) = if is_addr tail job.addr then none else some tail

-- The first node that fits, with the list and the `tail` that are left.
unfoldable pub unlink_job :
    (TimerCb → Bool)
    → Option ℕ
    → Option ℕ
    → List TimerCb
    → Run (List TimerCb × Option ℕ × Option TimerCb)
unlink_job fits tail prev [] = some ([], tail, none)
unlink_job fits tail prev (job ∷ jobs) =
    let rest = unlink_job fits tail (some job.addr) jobs >>= λ r. some (job ∷ r.0, r.1, r.2) in
    let cut = cut_tail tail job prev jobs >>= λ tail'. some (jobs, tail', some job) in
    if fits job then cut else rest

-- The head of the list is unlinked without the assertion.
unfoldable pub unlink_first :
    (TimerCb → Bool) → Option ℕ → List TimerCb → Run (List TimerCb × Option ℕ × Option TimerCb)
unlink_first fits tail [] = some ([], tail, none)
unlink_first fits tail (job ∷ jobs) =
    if fits job
    then some (jobs, (if length jobs == 0 then none else tail), some job)
    else unlink_job fits tail none (job ∷ jobs)

unfoldable pub drop_job : Timer → List TimerCb × Option ℕ × Option TimerCb → Timer
drop_job mng (jobs, tail, none) = record mng { job = jobs; tail = tail }
drop_job mng (jobs, tail, some job) = timer_free_cb (record mng { job = jobs; tail = tail }) job

unfoldable pub timer_delete : Option Timer → ℕ → ℕ → ℕ → Run (Option Timer × ZcrtErr)
timer_delete none cb p1 p2 = some (none, invalid_crt_module)
timer_delete (some mng) cb p1 p2 =
    if cb == 0
    then some (some mng, param_err)
    else (unlink_first (is_job cb p1 p2) mng.tail mng.job >>= λ r.
        some (some (drop_job mng r), success))

-- From the head of the list to the first job whose time has come, which is unlinked; the jobs before
-- it lose a tick.
unfoldable pub scan_jobs :
    Option ℕ → Option ℕ → List TimerCb → Run (List TimerCb × Option ℕ × Option TimerCb)
scan_jobs tail prev [] = some ([], tail, none)
scan_jobs tail prev (job ∷ jobs) =
    let rest = scan_jobs tail (some job.addr) jobs >>= λ r.
    some (record job { left = job.left - timer_tick } ∷ r.0, r.1, r.2) in
    let cut = cut_tail tail job prev jobs >>= λ tail'. some (jobs, tail', some job) in
    if ltb job.left timer_tick then cut else rest

abbrev pub calls_job : Timer → TimerCb → Bool
calls_job mng job =
    is_container job.timecon
    && (job.timecon == container_constid
        || not (container_at mng.container job.timecon == invalid_container))

-- A job whose time has come is called, if its container is on, and freed.
unfoldable pub fire :
    Timer
    → List TimerCb × Option ℕ × Option TimerCb
    → (Timer → Run (Timer × List TimerCb))
    → Run (Timer × List TimerCb)
fire mng (jobs, tail, none) again = some (record mng { job = jobs; tail = tail }, [])
fire mng (jobs, tail, some job) again =
    if job.fn == 0
    then none
    else (again (timer_free_cb (record mng { job = jobs; tail = tail }) job) >>= λ r.
        some (r.0, if calls_job mng job then job ∷ r.1 else r.1))

-- The inner loop of `_zcrt_timer_proc`, which starts again at the head of the list after each job
-- that it has called; `none` is a failed assertion, or out of fuel.
unfoldable pub tick : ℕ → Timer → Run (Timer × List TimerCb)
tick zero mng = none
tick (suc fuel) mng =
    let again : Timer → Run (Timer × List TimerCb) = λ mng'. tick fuel mng' in
    scan_jobs mng.tail none mng.job >>= λ r. fire mng r again
