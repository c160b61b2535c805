-- ===== src/KernelMutex.antt =====
-- zcrtlib/zcrt_os_kernal.c: the mutex of the kernel port, which a thread may lock again while it holds
-- it. A thread is named by its pid; the semaphore of the kernel is its count, and a thread that calls
-- `down` while the count is 0 waits. The steps of the threads interleave as they like.
pub mod Exclusion
pub mod Stuck
mod Tests
use zcrt.Base.{ltb, ◌==◌, if◌then◌else◌, ℕ, ◌+◌, ◌-◌, ◌≤◌, ◌≡◌, Bool, true, false}
use zcrt.Err.{ZcrtErr, success, timeout}

-- `ZCRTMutex`
pub record Mutex : Type 0 where
  pub sem : ℕ
  pub owner : ℕ
  pub recurse_count : ℕ

unfoldable pub mutex_create : Mutex
mutex_create = record { sem = 1; owner = 0; recurse_count = 0 }

-- The mutex, and whether `down` is called. The test of the owner and the store are one step: only the
-- thread itself stores its pid, so a test that fails would fail as well just before the store.
unfoldable pub mutex_lock : Mutex → ℕ → Mutex × Bool
mutex_lock m selfid =
    if m.owner == selfid
    then (record m { recurse_count = m.recurse_count + 1 }, false)
    else (record m { owner = selfid }, true)

unfoldable pub mutex_unlock : Mutex → Mutex
mutex_unlock m =
    if ltb 0 m.recurse_count
    then record m { recurse_count = m.recurse_count - 1 }
    else record m { owner = 0; sem = m.sem + 1 }

-- What `down` of the kernel leaves, when the count is not 0.
abbrev pub down : Mutex → Mutex
down m = record m { sem = m.sem - 1 }

-- `down_trylock` does not wait.
unfoldable pub mutex_trylock : Mutex → Mutex × ZcrtErr
mutex_trylock m = if m.sem == 0 then (m, timeout) else (down m, success)

-- How often a thread has locked the mutex and not unlocked it, and whether it waits in `down`.
pub record Phase : Type 0 where
  pub depth : ℕ
  pub waits : Bool

pub record State : Type 0 where
  pub mutex : Mutex
  pub phase : ℕ → Phase

abbrev pub with_phase : State → Mutex → ℕ → Phase → State
with_phase s m p ph = record { mutex = m; phase = λ a. if a == p then ph else s.phase a }

-- A thread that does not wait locks the mutex, or unlocks it if it has locked it; a thread that waits
-- comes out of `down`. A pid is not 0.
pub data Step : State → State → Type 0 where
  again :
      (s : State) (p : ℕ)
      → 1 ≤ p
      → (s.phase p).waits ≡ false
      → (mutex_lock s.mutex p).1 ≡ false
      → Step s (
          with_phase s
            (mutex_lock s.mutex p).0
            p
            (record { depth = (s.phase p).depth + 1; waits = false }))
  asks :
      (s : State) (p : ℕ)
      → 1 ≤ p
      → (s.phase p).waits ≡ false
      → (mutex_lock s.mutex p).1 ≡ true
      → Step s (
          with_phase s
            (mutex_lock s.mutex p).0
            p
            (record { depth = (s.phase p).depth; waits = true }))
  gets :
      (s : State) (p : ℕ)
      → 1 ≤ p
      → (s.phase p).waits ≡ true
      → 1 ≤ s.mutex.sem
      → Step s
          (with_phase s (down s.mutex) p (record { depth = (s.phase p).depth + 1; waits = false }))
  leaves :
      (s : State) (p : ℕ)
      → 1 ≤ p
      → (s.phase p).waits ≡ false
      → 1 ≤ (s.phase p).depth
      → Step s (
          with_phase s
            (mutex_unlock s.mutex)
            p
            (record { depth = (s.phase p).depth - 1; waits = false }))

pub data Reach (s : State) : State → Type 0 where
  here : Reach s s
  next : {t u : State} → Reach s t → Step t u → Reach s u

-- A new mutex, which no thread has locked.
abbrev pub start : State
start = record { mutex = mutex_create; phase = λ a. record { depth = 0; waits = false } }
