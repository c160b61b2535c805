-- ===== src/KernelMutex/Tests.antt =====
-- Thread 1 holds the mutex; thread 2 asks for it, and then thread 1 locks it again.
use zcrt.Base.{ℕ, ◌≡◌, refl, ◌≢◌, true, false, arith}
use zcrt.KernelMutex.Stuck.{mutex_stuck}
use zcrt.KernelMutex.Exclusion.{mutex_exclusion}
use zcrt.KernelMutex.{
  State, Reach, asks, gets, here, next, with_phase, start, mutex_lock, mutex_create, down,
}

abbrev asked_1 : State
asked_1 = with_phase start (mutex_lock start.mutex 1).0 1 (record { depth = 0; waits = true })

abbrev held_1 : State
held_1 = with_phase asked_1 (down asked_1.mutex) 1 (record { depth = 1; waits = false })

abbrev asked_2 : State
asked_2 = with_phase held_1 (mutex_lock held_1.mutex 2).0 2 (record { depth = 0; waits = true })

abbrev again_1 : State
again_1 = with_phase asked_2 (mutex_lock asked_2.mutex 1).0 1 (record { depth = 1; waits = true })

Reach-held_1 : Reach start held_1
unfolding mutex_lock mutex_create
Reach-held_1 =
    next (next here (asks start 1 (omega arith) refl refl))
      (gets asked_1 1 (omega arith) refl (omega arith))

Reach-again_1 : Reach start again_1
unfolding mutex_lock mutex_create
Reach-again_1 =
    next (next Reach-held_1 (asks held_1 2 (omega arith) refl refl))
      (asks asked_2 1 (omega arith) refl refl)

abbrev one : ℕ
one = 1

mutex_exclusion_example : one ≡ one
mutex_exclusion_example = mutex_exclusion held_1 Reach-held_1 one one (omega arith) (omega arith)

mutex_stuck_example :
    (again_1.phase 1 ≡ record { depth = 1; waits = true })
    × (again_1.mutex.sem ≡ 0)
    × ((p : ℕ) → p ≢ 1 → (again_1.phase p).depth ≡ 0)
unfolding mutex_lock mutex_create
mutex_stuck_example = mutex_stuck again_1 again_1 1 Reach-again_1 (omega arith) refl here
