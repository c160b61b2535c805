-- ===== src/KernelMutex/Stuck.antt =====
-- zcrtlib/zcrt_os_kernal.c: a thread that waits for the mutex that it holds.
use zcrt.KernelMutex.Exclusion.{
  IsHeld, Reach-IsExclusive, Step-IsExclusive, inside-IsHeld, phase_ne, start-IsExclusive,
}
use zcrt.Base.{
  ◌==◌, Bool-cases, ℕ, ◌+◌, ◌-◌, ◌≤◌, ◌≡◌, refl, sym, ap, ◌∙◌, ◌≢◌, inl, inr, true, false, arith,
}
use zcrt.KernelMutex.{
  Mutex, Phase, State, Step, Reach, again, asks, gets, leaves, here, next, with_phase, start,
  mutex_lock, mutex_unlock,
}

-- A thread that waits takes no step but out of `down`.
other_thread :
    (s : State) (h p : ℕ) (m : Mutex) (ph : Phase)
    → (s.phase h).waits ≡ true
    → (s.phase p).waits ≡ false
    → (with_phase s m p ph).phase h ≡ s.phase h
other_thread s h p m ph waits runs = elim (Bool-cases (h == p)) [
  | inl same ↦
      let e : h ≡ p = ground arith in
      let clash : true ≡ false = sym waits ∙ ap (λ a. (s.phase a).waits) e ∙ runs in cc
  | inr other ↦ let apart : h ≢ p = ground arith in phase_ne s m p ph h apart
]

Step-beside :
    {s t : State} (h : ℕ) → Step s t → IsHeld s h → (s.phase h).waits ≡ true → t.phase h ≡ s.phase h
Step-beside h (again s p pid runs locked) held waits =
    other_thread s h p (mutex_lock s.mutex p).0
      (record { depth = (s.phase p).depth + 1; waits = false }) waits runs
Step-beside h (asks s p pid runs asked) held waits =
    other_thread s h p (mutex_lock s.mutex p).0 (record { depth = (s.phase p).depth; waits = true })
      waits runs
Step-beside h (gets s p pid waiting free) held waits = absurd (omega (arith, held.taken))
Step-beside h (leaves s p pid runs inside) held waits =
    other_thread s h p (mutex_unlock s.mutex)
      (record { depth = (s.phase p).depth - 1; waits = false }) waits runs

stays_stuck :
    {s t : State} (h : ℕ)
    → Reach s t
    → IsHeld s h
    → (s.phase h).waits ≡ true
    → IsHeld t h × (t.phase h ≡ s.phase h)
stays_stuck h here held waits = (held, refl)
stays_stuck h (next {t} {u} r st) held waits =
    let (held', same) = stays_stuck h r held waits in
    let waits' : (t.phase h).waits ≡ true = ap (λ x. x.waits) same ∙ waits in
    let same' = Step-beside h st held' waits' in
    let inside : 1 ≤ (u.phase h).depth = omega (arith, ap (λ x. x.depth) same', held'.counted) in
    (inside-IsHeld u h inside (Step-IsExclusive st (inr (h, held'))), same' ∙ same)

-- However the threads interleave, from a new mutex on: a thread that waits in `down` while it has
-- locked the mutex and not unlocked it waits for good. Whatever steps follow, it is still waiting,
-- and no other thread comes into the mutex.
pub mutex_stuck :
    (s t : State) (h : ℕ)
    → Reach start s
    → 1 ≤ (s.phase h).depth
    → (s.phase h).waits ≡ true
    → Reach s t
    → (t.phase h ≡ s.phase h) × (t.mutex.sem ≡ 0) × ((p : ℕ) → p ≢ h → (t.phase p).depth ≡ 0)
mutex_stuck s t h reach inside waits later =
    let held = inside-IsHeld s h inside (Reach-IsExclusive reach start-IsExclusive) in
    let (held', same) = stays_stuck h later held waits in (same, held'.taken, held'.outside)
