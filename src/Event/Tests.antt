-- ===== src/Event/Tests.antt =====
-- Concrete managers.
use zcrt.Base.{
  if◌then◌else◌, set, replicate, length-set, set-set, get_or-replicate, length-replicate, All, ℕ,
  ◌≤◌, ◌<◌, ◌≡◌, refl, sym, ◌∙◌, inl, true, some, List, [], ◌∷◌, ◌++◌, arith,
}
use zcrt.Event.{
  Event, EventCb, all, local, manage_init, slot, wants, send_loop, event_register_ex,
  event_unregister, event_send_ex,
}
use zcrt.Event.Slots.{IsSorted}
use zcrt.Event.Order.{
  IsValid, Registered, Unregistered, set-IsSorted, event_register_ex-Registered,
  event_unregister-Unregistered,
}
use zcrt.Event.Delivery.{calls, call_of, calls-Registered}
use zcrt.Err.{success}

pub manage_init-IsValid : IsValid manage_init
unfolding manage_init
manage_init-IsValid = record {
  slots = length-replicate {A = List EventCb} 256 [];
  counted = refl;
  ordered = λ i. rw (get_or-replicate {A = List EventCb} 256 i []) tt;
}

abbrev job_of : ℕ → ℕ → EventCb
job_of fn pri = record { fn = fn; pri = pri; evt_type = all; p1 = 1; p2 = 2 }

-- Event 5 has the subscribers `cbs`, and no other event has any.
abbrev only : List EventCb → Event
only cbs = record {
  freelist = [];
  freesize = 0;
  last_evtid = 0;
  evtlist = set (replicate 256 []) 5 cbs;
}

only-IsValid : (cbs : List EventCb) → IsSorted cbs → IsValid (only cbs)
only-IsValid cbs sorted = record {
  slots = length-set (replicate 256 []) 5 cbs ∙ length-replicate {A = List EventCb} 256 [];
  counted = refl;
  ordered =
      set-IsSorted (replicate 256 []) 5 cbs
        (λ i. rw (get_or-replicate {A = List EventCb} 256 i []) tt) sorted;
}

abbrev one : Event
one = only (job_of 77 3 ∷ [])

abbrev two : Event
two = only (job_of 77 3 ∷ job_of 88 2 ∷ [])

one-IsValid : IsValid one
one-IsValid = only-IsValid (job_of 77 3 ∷ []) (tt, tt)

one-two-Registered : Registered one 5 (job_of 88 2) two
one-two-Registered = record {
  valid = only-IsValid (job_of 77 3 ∷ job_of 88 2 ∷ []) ((omega arith, tt), (tt, tt));
  placed = record {
    front = job_of 77 3 ∷ [];
    back = [];
    before = refl;
    after = refl;
    higher = (omega arith, tt);
    lower = tt;
  };
  others = sym (set-set (replicate 256 []) 5 (job_of 77 3 ∷ []) (job_of 77 3 ∷ job_of 88 2 ∷ []));
  same_last = refl;
}

event_register_ex-Registered_example :
    (m' : Event) × (event_register_ex (some one) true 2 5 all 88 1 2 ≡ some (some m', success))
    × Registered one 5 (job_of 88 2) m'
event_register_ex-Registered_example =
    event_register_ex-Registered one true 2 5 all 88 1 2 one-IsValid (omega arith) (omega arith)
      (inl refl)

event_unregister-Unregistered_example :
    (m' : Event) × (event_unregister (some one) 5 77 1 2 ≡ some (some m'))
    × Unregistered one 5 77 1 2 m'
event_unregister-Unregistered_example =
    event_unregister-Unregistered one 5 77 1 2 one-IsValid (omega arith) (omega arith) (omega arith)

calls-Registered_example :
    (earlier later : List EventCb) × (slot one 5 ≡ earlier ++ later)
    × All (λ c. 2 ≤ c.pri) earlier
    × All (λ c. c.pri < 2) later
    × (calls one 5 6 local ≡ send_loop 5 6 local earlier ++ send_loop 5 6 local later)
    × (calls two 5 6 local
        ≡ send_loop 5 6 local earlier
          ++ (if wants local (job_of 88 2)
              then call_of 5 6 (job_of 88 2) ∷ send_loop 5 6 local later
              else send_loop 5 6 local later))
calls-Registered_example =
    calls-Registered one two 5 6 local (job_of 88 2) (omega arith) one-two-Registered

-- Both subscribers are called, the one of the higher priority first.
send_run :
    calls two 5 6 local
    ≡ record { fn = 77; evtid = 5; evtdata = 6; p1 = 1; p2 = 2 }
      ∷ record { fn = 88; evtid = 5; evtdata = 6; p1 = 1; p2 = 2 }
      ∷ []
unfolding event_send_ex send_loop
send_run = refl
