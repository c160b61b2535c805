-- ===== src/Event/Slots.antt =====
-- zcrtlib/zevent.c: one list of subscriptions, ordered by priority, the oldest first among equals.
use zcrt.Base.{
  leb, leb→le, Bool-cases, All, All-append, All-split, All-map, ℕ, ◌≤◌, ◌<◌, ◌≡◌, refl, ap, ◌⊎◌,
  inl, inr, true, false, none, some, List, [], ◌∷◌, ◌++◌, arith,
}
use zcrt.Event.{EventCb, insert_cb, take_cb, is_cb}

abbrev pub AtLeast : ℕ → EventCb → Type 0
AtLeast pri c = pri ≤ c.pri

abbrev pub Below : ℕ → EventCb → Type 0
Below pri c = c.pri < pri

abbrev pub AtMost : ℕ → EventCb → Type 0
AtMost pri c = c.pri ≤ pri

abbrev pub IsSorted : List EventCb → Type 0
IsSorted [] = Unit
IsSorted (c ∷ cbs) = All (AtMost c.pri) cbs × IsSorted cbs

-- Where a new subscription lands: behind those of at least its priority, before all the others.
pub record Placed (job : EventCb) (cbs cbs' : List EventCb) : Type 0 where
  pub front : List EventCb
  pub back : List EventCb
  pub before : cbs ≡ front ++ back
  pub after : cbs' ≡ front ++ (job ∷ back)
  pub higher : All (AtLeast job.pri) front
  pub lower : All (Below job.pri) back

pub insert_cb-Placed :
    (job : EventCb) (cbs : List EventCb) → IsSorted cbs → Placed job cbs (insert_cb job cbs)
unfolding insert_cb
insert_cb-Placed job [] h = record {
  front = [];
  back = [];
  before = refl;
  after = refl;
  higher = tt;
  lower = tt;
}
insert_cb-Placed job (c ∷ cbs) h = elim (Bool-cases (leb job.pri c.pri)) [
  | inl stays ↦
      let p = insert_cb-Placed job cbs h.1 in
      record {
        front = c ∷ p.front;
        back = p.back;
        before = ap (λ l. c ∷ l) p.before;
        after = rw stays (ap (λ l. c ∷ l) p.after);
        higher = (leb→le job.pri c.pri stays, p.higher);
        lower = p.lower;
      }
  | inr goes ↦
      let less : c.pri < job.pri = ground arith in
      record {
        front = [];
        back = c ∷ cbs;
        before = refl;
        after = rw goes;
        higher = tt;
        lower = (less, All-map (AtMost c.pri) (Below job.pri) cbs (λ x le. omega arith) h.0);
      }
]

AtMost-insert_cb :
    (pri : ℕ) (job : EventCb) (cbs : List EventCb)
    → job.pri ≤ pri
    → All (AtMost pri) cbs
    → All (AtMost pri) (insert_cb job cbs)
unfolding insert_cb
AtMost-insert_cb pri job [] h k = (h, tt)
AtMost-insert_cb pri job (c ∷ cbs) h k = elim (Bool-cases (leb job.pri c.pri)) [
  | inl stays ↦ rw stays (k.0, AtMost-insert_cb pri job cbs h k.1)
  | inr goes ↦ rw goes (h, k)
]

pub insert_cb-IsSorted :
    (job : EventCb) (cbs : List EventCb) → IsSorted cbs → IsSorted (insert_cb job cbs)
unfolding insert_cb
insert_cb-IsSorted job [] h = (tt, tt)
insert_cb-IsSorted job (c ∷ cbs) h = elim (Bool-cases (leb job.pri c.pri)) [
  | inl stays ↦ rw stays (
    AtMost-insert_cb c.pri job cbs (leb→le job.pri c.pri stays) h.0,
    insert_cb-IsSorted job cbs h.1,
  )
  | inr goes ↦
      let less : c.pri ≤ job.pri = ground arith in
      rw goes ((less, All-map (AtMost c.pri) (AtMost job.pri) cbs (λ x le. omega arith) h.0), h)
]

-- What `take_cb` finds: the first node that fits, with the others in their order.
pub record Taken (cb p1 p2 : ℕ) (cbs : List EventCb) (hit : EventCb) (others : List EventCb)
    : Type 0 where
  pub front : List EventCb
  pub back : List EventCb
  pub before : cbs ≡ front ++ (hit ∷ back)
  pub after : others ≡ front ++ back
  pub fits : is_cb cb p1 p2 hit ≡ true
  pub first : All (λ c. is_cb cb p1 p2 c ≡ false) front

pub take_cb-Taken :
    (cb p1 p2 : ℕ) (cbs : List EventCb)
    → (take_cb cb p1 p2 cbs ≡ none) × All (λ c. is_cb cb p1 p2 c ≡ false) cbs
      ⊎ (hit : EventCb) × (others : List EventCb) × (take_cb cb p1 p2 cbs ≡ some (hit, others))
        × Taken cb p1 p2 cbs hit others
unfolding take_cb
take_cb-Taken cb p1 p2 [] = inl (refl, tt)
take_cb-Taken cb p1 p2 (c ∷ cbs) = elim (Bool-cases (is_cb cb p1 p2 c)) [
  | inl yes_it_is ↦ inr (
    c,
    cbs,
    rw yes_it_is,
    record { front = []; back = cbs; before = refl; after = refl; fits = yes_it_is; first = tt },
  )
  | inr other ↦ elim (take_cb-Taken cb p1 p2 cbs) [
    | inl (nowhere, all_other) ↦ inl (rw (other, nowhere), (other, all_other))
    | inr (hit, others, run, t) ↦ inr (
      hit,
      c ∷ others,
      rw (other, run),
      record {
        front = c ∷ t.front;
        back = t.back;
        before = ap (λ l. c ∷ l) t.before;
        after = ap (λ l. c ∷ l) t.after;
        fits = t.fits;
        first = (other, t.first);
      },
    )
  ]
]

pub IsSorted-remove :
    (front : List EventCb) (x : EventCb) (back : List EventCb)
    → IsSorted (front ++ (x ∷ back))
    → IsSorted (front ++ back)
IsSorted-remove [] x back h = h.1
IsSorted-remove (c ∷ front) x back h =
    let (a, b) = All-split (AtMost c.pri) front (x ∷ back) h.0 in
    (All-append (AtMost c.pri) front back a b.1, IsSorted-remove front x back h.1)

-- A node in front of which nothing fits is the one that is taken.
pub take_cb_first :
    (cb p1 p2 : ℕ) (front : List EventCb) (hit : EventCb) (back : List EventCb)
    → All (λ c. is_cb cb p1 p2 c ≡ false) front
    → is_cb cb p1 p2 hit ≡ true
    → take_cb cb p1 p2 (front ++ (hit ∷ back)) ≡ some (hit, front ++ back)
unfolding take_cb
take_cb_first cb p1 p2 [] hit back h e = rw e
take_cb_first cb p1 p2 (c ∷ front) hit back h e =
    rw (h.0, take_cb_first cb p1 p2 front hit back h.1 e)
