-- ===== src/Timer/Ticks.antt =====
-- zcrtlib/ztimer.c, `_zcrt_timer_proc`: what one pass over the list does to the jobs.
use zcrt.Base.{
  ltb, ◌==◌, if◌then◌else◌, Bool-cases, ◌>>=◌, length, replicate, ℕ, suc, ◌+◌, ◌-◌, ◌*◌, ◌≤◌, ◌<◌,
  ◌≡◌, refl, ap, ◌≢◌, inl, inr, true, false, ◌||◌, none, some, List, [], ◌∷◌, ◌++◌, arith,
}
use zcrt.Err.{success}
use zcrt.Timer.{
  Timer, TimerCb, timer_tick, invalid_container, is_container, switched_off, calls_job, timer_node,
  timer_malloc_cb, timer_free_cb, insert_jobs, insert_cb_has_mutex, add_node, timercon_add_argn,
  cut_tail, scan_jobs, fire, tick,
}

-- After a job has fired the loop starts again at the head of the list. So a job with at least two
-- ticks left that stands before a job that fires loses two ticks in one pass, where every other
-- waiting job loses one.
pub tick_ages_twice :
    (fuel : ℕ) (mng : Timer) (early late : TimerCb)
    → mng.job ≡ early ∷ late ∷ []
    → mng.tail ≡ some late.addr
    → 2 * timer_tick ≤ early.left
    → late.left < timer_tick
    → late.fn ≢ 0
    → (mng' : Timer) × (called : List TimerCb) × (tick (suc (suc fuel)) mng ≡ some (mng', called))
      × (mng'.job ≡ record early { left = early.left - 2 * timer_tick } ∷ [])
unfolding tick scan_jobs cut_tail fire timer_free_cb
tick_ages_twice fuel mng early late e t waits due given =
    let a : ltb early.left timer_tick ≡ false = ground arith in
    let b : ltb late.left timer_tick ≡ true = ground arith in
    let c : ltb (early.left - timer_tick) timer_tick ≡ false = ground arith in
    let self : (late.addr == late.addr) ≡ true = ground arith in
    let d : (late.fn == 0) ≡ false = ground arith in
    let twice : early.left - timer_tick - timer_tick ≡ early.left - 2 * timer_tick = omega arith in
    (
      record mng {
        job = record early { left = early.left - timer_tick - timer_tick } ∷ [];
        tail = some early.addr;
        freelist = late.addr ∷ mng.freelist;
        freesize = mng.freesize + 1;
      },
      (if calls_job mng late then late ∷ [] else []),
      rw (e, t, a, b, self, ◌>>=◌, d, c) refl,
      ap (λ n. record early { left = n } ∷ []) twice,
    )

-- A job added by `zcrt_timercon_add_argn` to an empty list is accepted, but the next pass of the
-- timer over the list calls nothing, whatever its period is: the job keeps container 0, which is
-- always off.
pub argn_never_calls :
    (fuel : ℕ) (mng : Timer) (addr cid period cb : ℕ) (args : List ℕ)
    → mng.job ≡ []
    → mng.tail ≡ none
    → is_container cid ≡ true
    → switched_off mng cid ≡ false
    → cb ≢ 0
    → 1 ≤ length args
    → length args ≤ 6
    → mng.freelist ≡ []
    → (mng' mng'' : Timer) × (timercon_add_argn (some mng) (some addr) cid period cb args
        ≡ some (some mng', success))
      × (tick (suc (suc fuel)) mng' ≡ some (mng'', []))
unfolding timercon_add_argn add_node timer_malloc_cb timer_node insert_cb_has_mutex insert_jobs tick
    scan_jobs cut_tail fire timer_free_cb
argn_never_calls fuel mng addr cid period cb args e t valid on given some_args few free =
    let args_fit : (cb == 0 || (length args == 0 || ltb 6 (length args))) ≡ false = ground arith in
    let cb_given : (cb == 0) ≡ false = ground arith in
    let self : (addr == addr) ≡ true = ground arith in
    let job : TimerCb = record {
      addr = addr;
      left = period;
      fn = cb;
      argn = length args;
      timecon = invalid_container;
      args = args ++ replicate (6 - length args) 0;
    } in
    let mng' = record mng { job = job ∷ []; tail = some addr } in
    let run : timercon_add_argn (some mng) (some addr) cid period cb args
        ≡ some (some mng', success) =
      rw (valid, args_fit, on, free, e, t, ◌>>=◌) refl in
    elim (Bool-cases (ltb period timer_tick)) [
      | inl due ↦ (
        mng',
        record mng {
          job = [];
          tail = none;
          freelist = addr ∷ mng.freelist;
          freesize = mng.freesize + 1;
        },
        run,
        rw (due, self, ◌>>=◌, cb_given) refl,
      )
      | inr waits ↦ (
        mng',
        record mng' { job = record job { left = period - timer_tick } ∷ [] },
        run,
        rw (waits, ◌>>=◌) refl,
      )
    ]
