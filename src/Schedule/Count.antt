-- ===== src/Schedule/Count.antt =====
-- zcrtlib/zschedule.c: how many jobs of a kind there are, in a list and over the queues.
use zcrt.Base.{
  if◌then◌else◌, length, get_or, set, ℕ, zero, suc, ◌+◌, ◌≤◌, ◌<◌, ◌≡◌, ap, ◌∙◌, Bool, List, [],
  ◌∷◌, ◌++◌, arith,
}
use zcrt.Schedule.{Job, SchPriList, no_jobs}

abbrev pub count {ℓ} : {A : Type ℓ} → (A → Bool) → List A → ℕ
count f [] = 0
count f (x ∷ xs) = (if f x then 1 else 0) + count f xs

pub count-append {ℓ} :
    {A : Type ℓ} (f : A → Bool) (xs ys : List A) → count f (xs ++ ys) ≡ count f xs + count f ys
count-append f [] ys = omega arith
count-append f (x ∷ xs) ys = omega (arith, count-append f xs ys)

-- Over all the queues of a thread.
abbrev pub count_all : (Job → Bool) → List SchPriList → ℕ
count_all f [] = 0
count_all f (q ∷ qs) = count f q.jobs + count_all f qs

-- One queue is replaced.
pub count_all-set :
    (f : Job → Bool) (qs : List SchPriList) (i : ℕ) (q : SchPriList)
    → i < length qs
    → count_all f (set qs i q) + count f (get_or qs i no_jobs).jobs
      ≡ count_all f qs + count f q.jobs
count_all-set f [] i q h = absurd (omega arith)
count_all-set f (x ∷ qs) zero q h = omega arith
count_all-set f (x ∷ qs) (suc i) q h = omega (arith, count_all-set f qs i q (omega arith))

pub count-count_all :
    (f : Job → Bool) (qs : List SchPriList) (i : ℕ)
    → count f (get_or qs i no_jobs).jobs ≤ count_all f qs
count-count_all f [] i = omega arith
count-count_all f (x ∷ qs) zero = omega arith
count-count_all f (x ∷ qs) (suc i) = omega (arith, count-count_all f qs i)

-- One job more at the end of one queue, and one less at its front.
pub count_all-snoc :
    (f : Job → Bool) (qs : List SchPriList) (i : ℕ) (q : SchPriList) (job : Job)
    → i < length qs
    → q.jobs ≡ (get_or qs i no_jobs).jobs ++ (job ∷ [])
    → count_all f (set qs i q) ≡ count_all f qs + count f (job ∷ [])
count_all-snoc f qs i q job h e =
    let added = ap (count f) e ∙ count-append f (get_or qs i no_jobs).jobs (job ∷ []) in
    omega (arith, added, count_all-set f qs i q h)

pub count_all-front :
    (f : Job → Bool) (qs : List SchPriList) (i : ℕ) (q : SchPriList) (job : Job)
    → i < length qs
    → (get_or qs i no_jobs).jobs ≡ job ∷ q.jobs
    → count_all f (set qs i q) + count f (job ∷ []) ≡ count_all f qs
count_all-front f qs i q job h e =
    let taken : count f (get_or qs i no_jobs).jobs ≡ count f (job ∷ q.jobs) = ap (count f) e in
    omega (arith, taken, count_all-set f qs i q h)
