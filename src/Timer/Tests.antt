-- ===== src/Timer/Tests.antt =====
-- Concrete timers.
use zcrt.Base.{
  ◌==◌, get_or, replicate, ℕ, zero, suc, ◌≤◌, ◌<◌, ◌≡◌, refl, false, none, some, List, [], ◌∷◌,
  arith,
}
use zcrt.Timer.{Timer, TimerCb, container_max, container_at}

-- No job, and the containers `container`.
abbrev with_containers : ℕ → List ℕ → Timer
with_containers last container = record {
  job = [];
  tail = none;
  freelist = [];
  freesize = 0;
  conlastid = last;
  container = container;
}

abbrev fresh_timer : Timer
fresh_timer = with_containers 0 (replicate 1000 0)

abbrev full_timer : Timer
full_timer = with_containers 65000 (replicate 1000 1)

get_or-replicate_inside : (n i a : ℕ) → i < n → get_or (replicate n a) i 0 ≡ a
get_or-replicate_inside zero i a h = absurd (omega arith)
get_or-replicate_inside (suc n) zero a h = refl
get_or-replicate_inside (suc n) (suc i) a h = get_or-replicate_inside n i a (omega arith)

full_timer_busy :
    (cid : ℕ) → 1 ≤ cid → cid < container_max → (container_at full_timer.container cid == 0) ≡ false
full_timer_busy cid lo hi = rw (get_or-replicate_inside 1000 cid 1 hi)

abbrev cb_of : ℕ → ℕ → TimerCb
cb_of addr left = record {
  addr = addr;
  left = left;
  fn = 9;
  argn = 2;
  timecon = 1;
  args = 1 ∷ 2 ∷ 0 ∷ 0 ∷ 0 ∷ 0 ∷ [];
}

abbrev two_jobs : Timer
two_jobs = record {
  job = cb_of 10 300 ∷ cb_of 11 20 ∷ [];
  tail = some 11;
  freelist = [];
  freesize = 0;
  conlastid = 1;
  container = 0 ∷ 1 ∷ [];
}

abbrev one_container : Timer
one_container = with_containers 1 (0 ∷ 1 ∷ [])
