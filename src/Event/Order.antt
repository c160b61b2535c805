-- ===== src/Event/Order.antt =====
-- zcrtlib/zevent.c: the manager as a whole under registering and unregistering.
use zcrt.Base.{
  leb, ◌==◌, length, get_or, set, length-set, get_or-set_self, All, ℕ, zero, suc, ◌-◌, ◌≤◌, ◌<◌,
  ◌≡◌, refl, sym, ap, ◌∙◌, ◌≢◌, ◌⊎◌, inl, inr, Bool, true, false, ◌||◌, some, List, [], ◌∷◌, arith,
}
use mathlib.Core.Path.{subst}
use zcrt.Err.{success}
use zcrt.Event.{
  Event, EventCb, EvtType, max_evt, slot, take_node, event_malloc_cb, event_free_cb, insert_cb,
  link_cb, event_register_ex, is_cb, event_unregister,
}
use zcrt.Event.Slots.{
  IsSorted, Placed, Taken, insert_cb-Placed, insert_cb-IsSorted, take_cb-Taken, IsSorted-remove,
}

-- Every list is in order, and `freesize` counts the free list.
pub record IsValid (m : Event) : Type 0 where
  pub slots : length m.evtlist ≡ max_evt
  pub counted : m.freesize ≡ length m.freelist
  pub ordered : (i : ℕ) → IsSorted (slot m i)

-- One list is replaced by an ordered one.
pub set-IsSorted :
    (ls : List (List EventCb)) (evtid : ℕ) (cbs : List EventCb)
    → ((i : ℕ) → IsSorted (get_or ls i []))
    → IsSorted cbs
    → (i : ℕ) → IsSorted (get_or (set ls evtid cbs) i [])
set-IsSorted [] evtid cbs h k i = h i
set-IsSorted (x ∷ ls) zero cbs h k zero = k
set-IsSorted (x ∷ ls) zero cbs h k (suc i) = h (suc i)
set-IsSorted (x ∷ ls) (suc evtid) cbs h k zero = h 0
set-IsSorted (x ∷ ls) (suc evtid) cbs h k (suc i) = set-IsSorted ls evtid cbs (λ j. h (suc j)) k i

-- The manager without the node that serves for a new subscription.
record Alloc (m m' : Event) : Type 0 where
  same_lists : m'.evtlist ≡ m.evtlist
  same_last : m'.last_evtid ≡ m.last_evtid
  counted : m'.freesize ≡ length m'.freelist

take_node_lem :
    (m : Event) (granted : Bool) (nodes : List EventCb) (job : EventCb)
    → m.freesize ≡ length nodes
    → m.freelist ≡ nodes
    → (granted ≡ true) ⊎ (1 ≤ m.freesize)
    → (m' : Event) × (take_node m granted nodes job ≡ (m', some job)) × Alloc m m'
unfolding take_node
take_node_lem m granted [] job size free avail = (
  m,
  ground arith,
  record { same_lists = refl; same_last = refl; counted = size ∙ ap length (sym free) },
)
take_node_lem m granted (node ∷ nodes) job size free avail = (
  record m { freelist = nodes; freesize = m.freesize - 1 },
  refl,
  record { same_lists = refl; same_last = refl; counted = omega arith },
)

-- What an accepted subscription does to the manager.
pub record Registered (m : Event) (evtid : ℕ) (job : EventCb) (m' : Event) : Type 0 where
  pub valid : IsValid m'
  pub placed : Placed job (slot m evtid) (slot m' evtid)
  pub others : m'.evtlist ≡ set m.evtlist evtid (slot m' evtid)
  pub same_last : m'.last_evtid ≡ m.last_evtid

-- For a well-formed manager, an event number below 256 and a callback that is not NULL, when a node
-- can be had from the free list or from malloc, `zcrt_event_register_ex` succeeds: the subscription
-- lands in the list of its event behind all those of at least its priority and before all those
-- of a lower one, the lists of the other events are as before, and the manager stays well formed.
pub event_register_ex-Registered :
    (m : Event) (granted : Bool) (priority evtid : ℕ) (evt_type : EvtType) (cb p1 p2 : ℕ)
    → IsValid m
    → evtid < max_evt
    → cb ≢ 0
    → (granted ≡ true) ⊎ (1 ≤ m.freesize)
    → (m' : Event) × (event_register_ex (some m) granted priority evtid evt_type cb p1 p2
        ≡ some (some m', success))
      × Registered m evtid
          (record { fn = cb; pri = priority; evt_type = evt_type; p1 = p1; p2 = p2 })
          m'
unfolding event_register_ex event_malloc_cb link_cb
event_register_ex-Registered m granted priority evtid evt_type cb p1 p2 valid inside given avail =
    let job : EventCb = record { fn = cb; pri = priority; evt_type = evt_type; p1 = p1; p2 = p2 } in
    let checks : (leb max_evt evtid || cb == 0) ≡ false = ground arith in
    let (n, run, a) = take_node_lem m granted m.freelist job valid.counted refl avail in
    let cbs = insert_cb job (slot m evtid) in
    let lists = a.same_lists in
    let there : get_or (set m.evtlist evtid cbs) evtid [] ≡ cbs =
      get_or-set_self m.evtlist evtid cbs [] (omega (arith, valid.slots)) in
    (
      record n { evtlist = set m.evtlist evtid cbs },
      rw (checks, run, lists),
      record {
        valid = record {
          slots = length-set m.evtlist evtid cbs ∙ valid.slots;
          counted = a.counted;
          ordered =
              set-IsSorted m.evtlist evtid cbs valid.ordered
                (insert_cb-IsSorted job (slot m evtid) (valid.ordered evtid));
        };
        placed = rw there (insert_cb-Placed job (slot m evtid) (valid.ordered evtid));
        others = rw there;
        same_last = a.same_last;
      },
    )

-- What unregistering does: nothing, if no subscription fits; otherwise the first that fits moves to
-- the free list.
pub record Unregistered (m : Event) (evtid cb p1 p2 : ℕ) (m' : Event) : Type 0 where
  pub valid : IsValid m'
  pub same_last : m'.last_evtid ≡ m.last_evtid
  pub effect :
      (m' ≡ m) × All (λ c. is_cb cb p1 p2 c ≡ false) (slot m evtid)
      ⊎ (hit : EventCb) × (others : List EventCb) × Taken cb p1 p2 (slot m evtid) hit others
        × (m'.evtlist ≡ set m.evtlist evtid others)
        × (m'.freelist ≡ record hit { fn = 0 } ∷ m.freelist)

removed :
    (m : Event) (evtid cb p1 p2 : ℕ) (hit : EventCb) (others : List EventCb)
    → IsValid m
    → Taken cb p1 p2 (slot m evtid) hit others
    → Unregistered m evtid cb p1 p2
        (event_free_cb (record m { evtlist = set m.evtlist evtid others }) hit)
unfolding event_free_cb
removed m evtid cb p1 p2 hit others valid t = record {
  valid = record {
    slots = length-set m.evtlist evtid others ∙ valid.slots;
    counted = omega (arith, valid.counted);
    ordered = set-IsSorted m.evtlist evtid others valid.ordered (
        subst IsSorted (sym t.after)
          (IsSorted-remove t.front hit t.back (subst IsSorted t.before (valid.ordered evtid))));
  };
  same_last = refl;
  effect = inr (hit, others, t, refl, refl);
}

-- For a well-formed manager, an event number below 256 that is not in its `lastEvtid` (so it is not the
-- event that is just being sent, and not 0 when none is sent) and a callback that is not NULL,
-- `zcrt_event_unregister` returns. If no subscription has the same
-- callback and arguments it changes nothing; otherwise it takes the first such one out of the list of
-- the event, leaves the order of the others and all other lists alone, and puts the node on the free
-- list. The manager stays well formed.
pub event_unregister-Unregistered :
    (m : Event) (evtid cb p1 p2 : ℕ)
    → IsValid m
    → evtid < max_evt
    → cb ≢ 0
    → m.last_evtid ≢ evtid
    → (m' : Event) × (event_unregister (some m) evtid cb p1 p2 ≡ some (some m'))
      × Unregistered m evtid cb p1 p2 m'
unfolding event_unregister
event_unregister-Unregistered m evtid cb p1 p2 valid inside given idle =
    let checks : (leb max_evt evtid || cb == 0) ≡ false = ground arith in
    let quiet : (m.last_evtid == evtid) ≡ false = ground arith in
    elim (take_cb-Taken cb p1 p2 (slot m evtid)) [
      | inl (nowhere, all_other) ↦ (
        m,
        rw (checks, quiet, nowhere),
        record { valid = valid; same_last = refl; effect = inl (refl, all_other) },
      )
      | inr (hit, others, run, t) ↦ (
        event_free_cb (record m { evtlist = set m.evtlist evtid others }) hit,
        rw (checks, quiet, run),
        removed m evtid cb p1 p2 hit others valid t,
      )
    ]
