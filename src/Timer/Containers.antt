-- ===== src/Timer/Containers.antt =====
-- zcrtlib/ztimer.c, `zcrt_timer_container_new`: the search for a free container.
use zcrt.Base.{
  ltb, ◌==◌, ltb→lt, lt→ltb, Bool-cases, ◌>>=◌, set, ℕ, zero, suc, ◌+◌, ◌-◌, ◌%◌, ◌^◌, ◌≤◌, ◌<◌,
  ◌≡◌, refl, ◌⊎◌, inl, inr, Bool, true, false, not, ◌&&◌, none, some, List, arith,
}
use mathlib.Core.Path.{subst}
use zcrt.Timer.{
  Timer, container_max, invalid_container, container_at, find_container, use_container,
  timer_container_new,
}

-- Container `i`, before the remainder, can be given out.
abbrev pub free_at : List ℕ → ℕ → Bool
free_at container i =
    not (i % container_max == invalid_container) && container_at container (i % container_max) == 0

find_container_ends :
    (fuel : ℕ) (container : List ℕ) (i bound : ℕ)
    → i ≤ bound
    → bound < 2 ^ 16
    → bound < i + fuel
    → (find_container fuel container i bound ≡ some none)
        × ((k : ℕ) → i ≤ k → k < bound → free_at container k ≡ false)
      ⊎ (k : ℕ) × (find_container fuel container i bound ≡ some (some k))
        × (i ≤ k)
        × (k < bound)
        × (free_at container k ≡ true)
unfolding find_container
find_container_ends zero container i bound low narrow enough = absurd (omega arith)
find_container_ends (suc fuel) container i bound low narrow enough =
    elim (Bool-cases (ltb i bound)) [
      | inl more ↦ elim (Bool-cases (free_at container i)) [
        | inl found ↦ inr (i, rw (more, found), omega arith, ltb→lt i bound more, found)
        | inr busy ↦
            let next : (i + 1) % 2 ^ 16 ≡ i + 1 = omega (arith, ltb→lt i bound more) in
            elim (find_container_ends fuel container (i + 1) bound
              (omega (arith, ltb→lt i bound more)) narrow (omega arith)) [
                | inl (run, all) ↦ inl (
                  rw (more, busy, next, run),
                  λ k lo hi. elim (Bool-cases (i == k)) [
                    | inl same ↦
                        let by : i ≡ k = ground arith in
                        subst (λ x. free_at container x ≡ false) by busy
                    | inr other ↦ all k (ground arith) hi
                  ],
                )
                | inr (k, run, lo, hi, found) ↦
                    inr (k, rw (more, busy, next, run), omega arith, hi, found)
              ]
      ]
      | inr done ↦ inl (rw done, λ k lo hi. absurd (ground arith))
    ]

-- As long as the last container number given out is at most 64535, 1001 rounds are enough for
-- `zcrt_timer_container_new` to return. It returns 0 and changes nothing if all the containers from 1 to
-- 999 are in use; otherwise it returns one that was free, from 1 to 999, and marks it as used.
pub container_new_ends :
    (mng : Timer)
    → mng.conlastid + container_max < 2 ^ 16
    → ((timer_container_new 1001 (some mng) ≡ some (some mng, invalid_container))
        × ((cid : ℕ)
            → 1 ≤ cid
            → cid < container_max
            → (container_at mng.container cid == 0) ≡ false))
      ⊎ (k : ℕ) × (timer_container_new 1001 (some mng)
          ≡ some (
            some
                (record mng { container = set mng.container (k % container_max) 1; conlastid = k }),
            k % container_max,
          ))
        × (1 ≤ k % container_max)
        × (k % container_max < container_max)
        × (container_at mng.container (k % container_max) ≡ 0)
unfolding timer_container_new use_container
container_new_ends mng narrow =
    elim (find_container_ends 1001 mng.container mng.conlastid (mng.conlastid + container_max)
      (omega arith) narrow (omega arith)) [
        | inl (run, all) ↦ inl (
          rw (run, ◌>>=◌),
          λ cid lo hi.
              let k =
                mng.conlastid
                + (cid + container_max - mng.conlastid % container_max) % container_max in
              let e : k % container_max ≡ cid = omega arith in
              let f : (not (cid == invalid_container) && container_at mng.container cid == 0)
                  ≡ false =
                subst
                  (λ x. (not (x == invalid_container) && container_at mng.container x == 0) ≡ false)
                  e (all k (omega arith) (omega arith)) in
              ground arith,
        )
        | inr (k, run, lo, hi, found) ↦
            inr (k, rw (run, ◌>>=◌), ground arith, omega arith, ground arith)
      ]

-- When the last number given out is at least 64536, and all containers are in use, the search never
-- ends: the uint16_t that counts up wraps before it reaches the bound.
pub container_new_endless :
    (mng : Timer) (fuel : ℕ)
    → 2 ^ 16 ≤ mng.conlastid + container_max
    → mng.conlastid < 2 ^ 16
    → ((cid : ℕ) → 1 ≤ cid → cid < container_max → (container_at mng.container cid == 0) ≡ false)
    → timer_container_new fuel (some mng) ≡ none
unfolding timer_container_new find_container
container_new_endless mng fuel wide small busy = rw (never fuel mng.conlastid small, ◌>>=◌)
  where
    never :
        (n i : ℕ)
        → i < 2 ^ 16
        → find_container n mng.container i (mng.conlastid + container_max) ≡ none
    never zero i h = refl
    never (suc n) i h =
        let more : ltb i (mng.conlastid + container_max) ≡ true = lt→ltb _ _ (omega arith) in
        let in_use : free_at mng.container i ≡ false =
          elim (Bool-cases (i % container_max == invalid_container)) [
            | inl same ↦ rw same
            | inr other ↦
                let positive : 1 ≤ i % container_max = ground arith in
                rw (other, busy (i % container_max) positive (omega arith))
          ] in
        rw (more, in_use) (never n ((i + 1) % 2 ^ 16) (omega arith))
