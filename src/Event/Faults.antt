-- ===== src/Event/Faults.antt =====
-- zcrtlib/zevent.c: where the functions crash or abort.
use zcrt.Base.{leb, ◌==◌, ℕ, ◌<◌, ◌≡◌, ◌≢◌, false, ◌||◌, none, some, List, [], ◌∷◌, arith}
use zcrt.Event.{
  Event, EventCb, EvtType, max_evt, slot, take_node, event_malloc_cb, link_cb, event_register_ex,
  event_unregister,
}

-- The result of malloc is not tested: when it is NULL and the free list is empty, registering for an
-- event that has subscriptions already writes through the NULL pointer.
pub register_no_memory :
    (m : Event) (priority evtid : ℕ) (evt_type : EvtType) (cb p1 p2 : ℕ) (c : EventCb)
    (cbs : List EventCb)
    → evtid < max_evt
    → cb ≢ 0
    → m.freelist ≡ []
    → slot m evtid ≡ c ∷ cbs
    → event_register_ex (some m) false priority evtid evt_type cb p1 p2 ≡ none
unfolding event_register_ex event_malloc_cb take_node link_cb
register_no_memory m priority evtid evt_type cb p1 p2 c cbs inside given free some_cb =
    let checks : (leb max_evt evtid || cb == 0) ≡ false = ground arith in rw (checks, free, some_cb)

-- Event 0 can be registered for, but the idle manager has 0 in `lastEvtid`: unregistering from event
-- 0 then always fails the assertion that the event is not just being sent.
pub unregister_event_zero :
    (m : Event) (cb p1 p2 : ℕ)
    → cb ≢ 0
    → m.last_evtid ≡ 0
    → event_unregister (some m) 0 cb p1 p2 ≡ none
unfolding event_unregister
unregister_event_zero m cb p1 p2 given idle = ground arith
