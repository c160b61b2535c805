-- ===== src/KernelMutex/Exclusion.antt =====
-- zcrtlib/zcrt_os_kernal.c: no two threads hold the mutex.
use zcrt.Base.{
  ltb, ◌==◌, Bool-cases, ℕ, ◌+◌, ◌-◌, ◌≤◌, ◌≡◌, refl, sym, ap, ◌∙◌, ◌≢◌, ◌⊎◌, inl, inr, true, false,
  arith,
}
use mathlib.Core.Path.{subst}
use zcrt.KernelMutex.{
  Mutex, Phase, State, Step, Reach, again, asks, gets, leaves, here, next, with_phase, start,
  mutex_lock, mutex_unlock, mutex_create, down,
}

-- A pid that the mutex names as its owner waits, except for `h`.
abbrev pub OwnerWaits : State → ℕ → Type 0
OwnerWaits s h = (p : ℕ) → 1 ≤ p → p ≢ h → s.mutex.owner ≡ p → (s.phase p).waits ≡ true

-- The semaphore is free, and no thread is inside; or the thread `h` holds it, and the mutex counts
-- how often it is inside.
pub record IsFree (s : State) : Type 0 where
  pub free : s.mutex.sem ≡ 1
  pub once : s.mutex.recurse_count ≡ 0
  pub outside : (p : ℕ) → (s.phase p).depth ≡ 0
  pub owner : OwnerWaits s 0

pub record IsHeld (s : State) (h : ℕ) : Type 0 where
  pub taken : s.mutex.sem ≡ 0
  pub counted : (s.phase h).depth ≡ s.mutex.recurse_count + 1
  pub outside : (p : ℕ) → p ≢ h → (s.phase p).depth ≡ 0
  pub owner : OwnerWaits s h

abbrev pub IsExclusive : State → Type 0
IsExclusive s = IsFree s ⊎ ((h : ℕ) × IsHeld s h)

-- The phase of a thread after a step of `p`.
phase_at : (s : State) (m : Mutex) (p : ℕ) (ph : Phase) → (with_phase s m p ph).phase p ≡ ph
phase_at s m p ph = let self : (p == p) ≡ true = ground arith in rw self

pub phase_ne :
    (s : State) (m : Mutex) (p : ℕ) (ph : Phase) (a : ℕ)
    → a ≢ p
    → (with_phase s m p ph).phase a ≡ s.phase a
phase_ne s m p ph a apart = let other : (a == p) ≡ false = ground arith in rw other

-- A thread that `p` is not, and that the state says is outside, stays outside.
outside_ne :
    (s : State) (m : Mutex) (p : ℕ) (ph : Phase) (a : ℕ)
    → a ≢ p
    → (s.phase a).depth ≡ 0
    → ((with_phase s m p ph).phase a).depth ≡ 0
outside_ne s m p ph a apart out = ap (λ x. x.depth) (phase_ne s m p ph a apart) ∙ out

-- The thread that the invariant lets in: 0 for nobody.
OwnerWaits-lock :
    (s : State) (h p : ℕ) (ph : Phase)
    → ph.waits ≡ true
    → OwnerWaits (with_phase s (record s.mutex { owner = p }) p ph) h
OwnerWaits-lock s h p ph waits q pid apart is =
    ap (λ a. ((with_phase s (record s.mutex { owner = p }) p ph).phase a).waits) (sym is)
    ∙ ap (λ x. x.waits) (phase_at s (record s.mutex { owner = p }) p ph)
    ∙ waits

OwnerWaits-keep :
    (s : State) (h p : ℕ) (m : Mutex) (ph : Phase)
    → m.owner ≡ s.mutex.owner
    → OwnerWaits s h
    → (p ≢ h → ph.waits ≡ true)
    → OwnerWaits (with_phase s m p ph) h
OwnerWaits-keep s h p m ph same owner own q pid apart is = elim (Bool-cases (q == p)) [
  | inl hit ↦
      let e : q ≡ p = ground arith in
      ap (λ a. ((with_phase s m p ph).phase a).waits) e
      ∙ ap (λ x. x.waits) (phase_at s m p ph)
      ∙ own (λ f. apart (e ∙ f))
  | inr miss ↦
      let away : q ≢ p = ground arith in
      ap (λ x. x.waits) (phase_ne s m p ph q away) ∙ owner q pid apart (sym same ∙ is)
]

depth_same :
    (s : State) (m : Mutex) (p : ℕ) (ph : Phase) (a : ℕ)
    → ph.depth ≡ (s.phase p).depth
    → ((with_phase s m p ph).phase a).depth ≡ (s.phase a).depth
depth_same s m p ph a same = elim (Bool-cases (a == p)) [
  | inl hit ↦ let e : p ≡ a = ground arith in rw hit (same ∙ ap (λ b. (s.phase b).depth) e)
  | inr miss ↦ rw miss refl
]

asks-IsExclusive :
    (s : State) (p : ℕ)
    → IsExclusive s
    → IsExclusive (
        with_phase s
          (record s.mutex { owner = p })
          p
          (record { depth = (s.phase p).depth; waits = true }))
asks-IsExclusive s p (inl f) =
    let ph : Phase = record { depth = (s.phase p).depth; waits = true } in
    let m = record s.mutex { owner = p } in
    inl (record {
      free = f.free;
      once = f.once;
      outside = λ a. depth_same s m p ph a refl ∙ f.outside a;
      owner = OwnerWaits-lock s 0 p ph refl;
    })
asks-IsExclusive s p (inr (h, held)) =
    let ph : Phase = record { depth = (s.phase p).depth; waits = true } in
    let m = record s.mutex { owner = p } in
    inr (
      h,
      record {
        taken = held.taken;
        counted = depth_same s m p ph h refl ∙ held.counted;
        outside = λ a apart. depth_same s m p ph a refl ∙ held.outside a apart;
        owner = OwnerWaits-lock s h p ph refl;
      },
    )

-- A thread that the mutex names as its owner, and that does not wait, holds it.
owner-IsHeld :
    (s : State) (p : ℕ)
    → 1 ≤ p
    → s.mutex.owner ≡ p
    → (s.phase p).waits ≡ false
    → IsExclusive s
    → IsHeld s p
owner-IsHeld s p pid own runs (inl f) =
    let waits = f.owner p pid (omega arith) own in let clash : true ≡ false = sym waits ∙ runs in cc
owner-IsHeld s p pid own runs (inr (h, held)) = elim (Bool-cases (p == h)) [
  | inl same ↦ let e : h ≡ p = ground arith in subst (IsHeld s) e held
  | inr other ↦
      let apart : p ≢ h = ground arith in
      let clash : true ≡ false = sym (held.owner p pid apart own) ∙ runs in cc
]

-- A thread that is inside holds the mutex.
pub inside-IsHeld : (s : State) (p : ℕ) → 1 ≤ (s.phase p).depth → IsExclusive s → IsHeld s p
inside-IsHeld s p inside (inl f) = absurd (omega (arith, f.outside p))
inside-IsHeld s p inside (inr (h, held)) = elim (Bool-cases (p == h)) [
  | inl same ↦ let e : h ≡ p = ground arith in subst (IsHeld s) e held
  | inr other ↦ let apart : p ≢ h = ground arith in absurd (omega (arith, held.outside p apart))
]

-- The holder goes in or out, and the mutex counts with it.
deeper-IsHeld :
    (s : State) (p : ℕ) (ph : Phase) (n : ℕ)
    → IsHeld s p
    → ph.depth ≡ n + 1
    → IsHeld (with_phase s (record s.mutex { recurse_count = n }) p ph) p
deeper-IsHeld s p ph n held deep =
    let m = record s.mutex { recurse_count = n } in
    record {
      taken = held.taken;
      counted = ap (λ x. x.depth) (phase_at s m p ph) ∙ deep;
      outside = λ a apart. outside_ne s m p ph a apart (held.outside a apart);
      owner = OwnerWaits-keep s p p m ph refl held.owner (λ apart. absurd (apart refl));
    }

gone-IsFree :
    (s : State) (p : ℕ) (ph : Phase)
    → IsHeld s p
    → s.mutex.recurse_count ≡ 0
    → ph.depth ≡ 0
    → IsFree (with_phase s (record s.mutex { owner = 0; sem = s.mutex.sem + 1 }) p ph)
gone-IsFree s p ph held last out =
    let m = record s.mutex { owner = 0; sem = s.mutex.sem + 1 } in
    record {
      free = omega (arith, held.taken);
      once = last;
      outside = λ a. elim (Bool-cases (a == p)) [
        | inl hit ↦ rw hit out
        | inr miss ↦
            let apart : a ≢ p = ground arith in outside_ne s m p ph a apart (held.outside a apart)
      ];
      owner = λ q pid apart is. absurd (omega (arith, is));
    }

enters-IsHeld :
    (s : State) (p : ℕ)
    → IsFree s
    → IsHeld
        (with_phase s (down s.mutex) p (record { depth = (s.phase p).depth + 1; waits = false }))
        p
enters-IsHeld s p f = record {
  taken = omega (arith, f.free);
  counted =
      ap (λ x. x.depth)
        (phase_at s (down s.mutex) p (record { depth = (s.phase p).depth + 1; waits = false }))
      ∙ omega (arith, f.outside p, f.once);
  outside = λ a apart.
      outside_ne s (down s.mutex) p (record { depth = (s.phase p).depth + 1; waits = false }) a
        apart (f.outside a);
  owner = λ q pid apart is.
      ap (λ x. x.waits)
        (phase_ne s (down s.mutex) p (record { depth = (s.phase p).depth + 1; waits = false }) q
          apart)
      ∙ f.owner q pid (omega arith) is;
}

pub Step-IsExclusive : {s t : State} → Step s t → IsExclusive s → IsExclusive t
unfolding mutex_lock mutex_unlock
Step-IsExclusive (again s p pid runs locked) inv = elim (Bool-cases (s.mutex.owner == p)) [
  | inl own ↦
      let e : s.mutex.owner ≡ p = ground arith in
      let held = owner-IsHeld s p pid e runs inv in
      let ph : Phase = record { depth = (s.phase p).depth + 1; waits = false } in
      inr (
        p,
        rw own
            (deeper-IsHeld s p ph (s.mutex.recurse_count + 1) held (omega (arith, held.counted))),
      )
  | inr other ↦ let clash : true ≡ false = rw other at locked in cc
]
Step-IsExclusive (asks s p pid runs asked) inv = elim (Bool-cases (s.mutex.owner == p)) [
  | inl own ↦ let clash : false ≡ true = rw own at asked in cc
  | inr other ↦ rw other (asks-IsExclusive s p inv)
]
Step-IsExclusive (gets s p pid waits free) (inl f) = inr (p, enters-IsHeld s p f)
Step-IsExclusive (gets s p pid waits free) (inr (h, held)) = absurd (omega (arith, held.taken))
Step-IsExclusive (leaves s p pid runs inside) inv =
    let held = inside-IsHeld s p inside inv in
    let ph : Phase = record { depth = (s.phase p).depth - 1; waits = false } in
    elim (Bool-cases (ltb 0 s.mutex.recurse_count)) [
      | inl more ↦
          let some_more : 1 ≤ s.mutex.recurse_count = ground arith in
          inr (
            p,
            rw more (
                deeper-IsHeld s p ph (s.mutex.recurse_count - 1) held
                  (omega (arith, held.counted))),
          )
      | inr last ↦
          let none_more : s.mutex.recurse_count ≡ 0 = ground arith in
          inl (rw last (gone-IsFree s p ph held none_more (omega (arith, held.counted))))
    ]

pub start-IsExclusive : IsExclusive start
unfolding mutex_create
start-IsExclusive = inl (record {
  free = refl;
  once = refl;
  outside = λ p. refl;
  owner = λ p pid apart is. absurd (omega (arith, is));
})

pub Reach-IsExclusive : {s t : State} → Reach s t → IsExclusive s → IsExclusive t
Reach-IsExclusive here inv = inv
Reach-IsExclusive (next r st) inv = Step-IsExclusive st (Reach-IsExclusive r inv)

-- However the threads interleave, from a new mutex on: two threads that have both locked the mutex
-- and not unlocked it as often are the same thread.
pub mutex_exclusion :
    (s : State) → Reach start s → (p q : ℕ) → 1 ≤ (s.phase p).depth → 1 ≤ (s.phase q).depth → p ≡ q
mutex_exclusion s reach p q inside inside' = elim (Bool-cases (q == p)) [
  | inl same ↦ ground arith
  | inr other ↦
      let held = inside-IsHeld s p inside (Reach-IsExclusive reach start-IsExclusive) in
      let apart : q ≢ p = ground arith in absurd (omega (arith, held.outside q apart))
]
