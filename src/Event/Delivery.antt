-- ===== src/Event/Delivery.antt =====
-- zcrtlib/zevent.c: which subscribers are called, and in which order.
use zcrt.Base.{
  leb, ◌==◌, if◌then◌else◌, Bool-cases, set, set-set, set_same, All, All-split, ℕ, ◌≤◌, ◌<◌, ◌≡◌,
  refl, sym, ap, ◌∙◌, ◌≢◌, inl, inr, false, ◌||◌, some, List, [], ◌∷◌, ◌++◌, arith,
}
use mathlib.Core.Path.{subst}
use zcrt.Event.{
  Event, EventCb, EvtType, Call, max_evt, slot, is_cb, take_cb, wants, send_loop, event_send_ex,
  event_unregister, event_free_cb,
}
use zcrt.Event.Slots.{take_cb_first}
use zcrt.Event.Order.{Registered}

abbrev pub call_of : ℕ → ℕ → EventCb → Call
call_of evtid evtdata c = record {
  fn = c.fn;
  evtid = evtid;
  evtdata = evtdata;
  p1 = c.p1;
  p2 = c.p2;
}

send_loop-append :
    (evtid evtdata : ℕ) (evt_type : EvtType) (xs ys : List EventCb)
    → send_loop evtid evtdata evt_type (xs ++ ys)
      ≡ send_loop evtid evtdata evt_type xs ++ send_loop evtid evtdata evt_type ys
unfolding send_loop
send_loop-append evtid evtdata evt_type [] ys = refl
send_loop-append evtid evtdata evt_type (c ∷ xs) ys = elim (Bool-cases (wants evt_type c)) [
  | inl called ↦
      rw called
        (ap (λ l. call_of evtid evtdata c ∷ l) (send_loop-append evtid evtdata evt_type xs ys))
  | inr passed ↦ rw passed (send_loop-append evtid evtdata evt_type xs ys)
]

-- The calls that sending makes.
abbrev pub calls : Event → ℕ → ℕ → EvtType → List Call
calls m evtid evtdata evt_type = (event_send_ex (some m) evtid evtdata evt_type).1

calls_lem :
    (m : Event) (evtid evtdata : ℕ) (evt_type : EvtType)
    → evtid < max_evt
    → calls m evtid evtdata evt_type ≡ send_loop evtid evtdata evt_type (slot m evtid)
unfolding event_send_ex
calls_lem m evtid evtdata evt_type inside = ground arith

-- After a subscription has been accepted, sending the event makes the calls that it made before, in
-- the same order, and where the new subscription wants the type of the event one more: that of the
-- new subscriber, behind the calls of those of at least its priority and before the calls of those
-- of a lower one. Every call gets the event's number and data.
pub calls-Registered :
    (m m' : Event) (evtid evtdata : ℕ) (evt_type : EvtType) (job : EventCb)
    → evtid < max_evt
    → Registered m evtid job m'
    → (earlier later : List EventCb) × (slot m evtid ≡ earlier ++ later)
      × All (λ c. job.pri ≤ c.pri) earlier
      × All (λ c. c.pri < job.pri) later
      × (calls m evtid evtdata evt_type
          ≡ send_loop evtid evtdata evt_type earlier ++ send_loop evtid evtdata evt_type later)
      × (calls m' evtid evtdata evt_type
          ≡ send_loop evtid evtdata evt_type earlier
            ++ (if wants evt_type job
                then call_of evtid evtdata job ∷ send_loop evtid evtdata evt_type later
                else send_loop evtid evtdata evt_type later))
calls-Registered m m' evtid evtdata evt_type job inside r =
    let p = r.placed in
    let front = p.front in
    let back = p.back in
    (
      front,
      back,
      p.before,
      p.higher,
      p.lower,
      calls_lem m evtid evtdata evt_type inside
          ∙ ap (send_loop evtid evtdata evt_type) p.before
          ∙ send_loop-append evtid evtdata evt_type front back,
      calls_lem m' evtid evtdata evt_type inside
          ∙ ap (send_loop evtid evtdata evt_type) p.after
          ∙ send_loop-append evtid evtdata evt_type front (job ∷ back)
          ∙ (unfold send_loop in refl),
    )

-- Where no subscription to the event has the same callback and arguments, unregistering just after a
-- successful registration gives back the lists of all events.
pub unregister-register :
    (m m' : Event) (evtid priority cb p1 p2 : ℕ) (evt_type : EvtType)
    → evtid < max_evt
    → cb ≢ 0
    → m.last_evtid ≢ evtid
    → All (λ c. is_cb cb p1 p2 c ≡ false) (slot m evtid)
    → Registered m evtid
        (record { fn = cb; pri = priority; evt_type = evt_type; p1 = p1; p2 = p2 })
        m'
    → (m'' : Event) × (event_unregister (some m') evtid cb p1 p2 ≡ some (some m''))
      × (m''.evtlist ≡ m.evtlist)
unfolding event_unregister event_free_cb
unregister-register m m' evtid priority cb p1 p2 evt_type inside given idle fresh r =
    let p = r.placed in
    let job : EventCb = record { fn = cb; pri = priority; evt_type = evt_type; p1 = p1; p2 = p2 } in
    let checks : (leb max_evt evtid || cb == 0) ≡ false = ground arith in
    let quiet : (m'.last_evtid == evtid) ≡ false = ground (arith, r.same_last) in
    let (before, _) =
      All-split (λ c. is_cb cb p1 p2 c ≡ false) p.front p.back
        (subst (All (λ c. is_cb cb p1 p2 c ≡ false)) p.before fresh) in
    let run : take_cb cb p1 p2 (slot m' evtid) ≡ some (job, p.front ++ p.back) =
      ap (take_cb cb p1 p2) p.after
      ∙ take_cb_first cb p1 p2 p.front job p.back before (ground arith) in
    (
      event_free_cb (record m' { evtlist = set m'.evtlist evtid (p.front ++ p.back) }) job,
      rw (checks, quiet, run),
      ap (λ l. set l evtid (p.front ++ p.back)) r.others
          ∙ set-set m.evtlist evtid (slot m' evtid) (p.front ++ p.back)
          ∙ ap (set m.evtlist evtid) (sym p.before)
          ∙ set_same m.evtlist evtid [],
    )
