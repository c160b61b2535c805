-- ===== src/Event.antt =====
-- zcrtlib/zevent.c: subscriptions to numbered events. A linked list is a list of its nodes, a
-- function pointer a number with 0 for NULL. The lock makes each function one step, so the mutex has
-- no field. A subscriber's code is not part of the program: sending an event gives the list of the
-- calls that are made.
pub mod Slots
pub mod Order
pub mod Delivery
pub mod Faults
pub mod Tests
use zcrt.Base.{
  leb, ◌==◌, if◌then◌else◌, Run, ◌>>=◌, get_or, set, replicate, ℕ, ◌+◌, ◌-◌, Bool, true, false,
  ◌&&◌, ◌||◌, Option, none, some, List, [], ◌∷◌,
}
use zcrt.Err.{ZcrtErr, success, param_err, invalid_crt_module}

pub data EvtType : Type 0 where
  all local remote : EvtType

-- `_zstEventCB`
pub record EventCb : Type 0 where
  pub fn : ℕ
  pub pri : ℕ
  pub evt_type : EvtType
  pub p1 : ℕ
  pub p2 : ℕ

-- `_zstEvent`
pub record Event : Type 0 where
  pub freelist : List EventCb
  pub freesize : ℕ
  pub last_evtid : ℕ
  pub evtlist : List (List EventCb)

abbrev pub max_evt : ℕ
max_evt = 256

unfoldable pub manage_init : Event
manage_init = record { freelist = []; freesize = 0; last_evtid = 0; evtlist = replicate max_evt [] }

-- The list of one event; the callers have checked the bound.
abbrev pub slot : Event → ℕ → List EventCb
slot m evtid = get_or m.evtlist evtid []

-- The node comes from the free list, or from malloc, which answers `granted`. The node is cleared
-- and filled either way; `none` is NULL.
unfoldable pub take_node : Event → Bool → List EventCb → EventCb → Event × Option EventCb
take_node m granted [] job = (m, if granted then some job else none)
take_node m granted (node ∷ nodes) job =
    (record m { freelist = nodes; freesize = m.freesize - 1 }, some job)

unfoldable pub event_malloc_cb : Event → Bool → ℕ → EvtType → ℕ → ℕ → ℕ → Event × Option EventCb
event_malloc_cb m granted priority evt_type fn p1 p2 =
    take_node m granted m.freelist
      (record { fn = fn; pri = priority; evt_type = evt_type; p1 = p1; p2 = p2 })

unfoldable pub event_free_cb : Event → EventCb → Event
event_free_cb m job = record m {
  freelist = record job { fn = 0 } ∷ m.freelist;
  freesize = m.freesize + 1;
}

-- Behind all the nodes whose priority is not below the new one's.
unfoldable pub insert_cb : EventCb → List EventCb → List EventCb
insert_cb job [] = job ∷ []
insert_cb job (cur ∷ cbs) =
    if leb job.pri cur.pri then cur ∷ insert_cb job cbs else job ∷ (cur ∷ cbs)

-- Into a list: an empty one takes the pointer as it is, and a NULL node is written through
-- otherwise.
unfoldable pub link_cb : Option EventCb → List EventCb → Run (List EventCb)
link_cb none [] = some []
link_cb none (cur ∷ cbs) = none
link_cb (some job) cbs = some (insert_cb job cbs)

-- `none` for a module or a manager that is NULL.
unfoldable pub event_register_ex :
    Option Event → Bool → ℕ → ℕ → EvtType → ℕ → ℕ → ℕ → Run (Option Event × ZcrtErr)
event_register_ex none granted priority evtid evt_type cb p1 p2 = some (none, invalid_crt_module)
event_register_ex (some m) granted priority evtid evt_type cb p1 p2 =
    if leb max_evt evtid || cb == 0
    then some (some m, param_err)
    else (let (m', job) = event_malloc_cb m granted priority evt_type cb p1 p2 in
        link_cb job (slot m' evtid) >>= λ cbs.
        some (some (record m' { evtlist = set m'.evtlist evtid cbs }), success))

unfoldable pub event_register :
    Option Event → Bool → ℕ → ℕ → ℕ → ℕ → ℕ → Run (Option Event × ZcrtErr)
event_register m granted priority evtid cb p1 p2 =
    event_register_ex m granted priority evtid all cb p1 p2

abbrev pub is_cb : ℕ → ℕ → ℕ → EventCb → Bool
is_cb cb p1 p2 cur = cur.fn == cb && (cur.p1 == p1 && cur.p2 == p2)

-- The first node that fits, and the list without it.
unfoldable pub take_cb : ℕ → ℕ → ℕ → List EventCb → Option (EventCb × List EventCb)
take_cb cb p1 p2 [] = none
take_cb cb p1 p2 (cur ∷ cbs) =
    let rest = take_cb cb p1 p2 cbs in
    if is_cb cb p1 p2 cur
    then some (cur, cbs)
    else elim rest [ none ↦ none | some (hit, others) ↦ some (hit, cur ∷ others) ]

-- The assertion that no call for the same event is being sent comes before the lock.
unfoldable pub event_unregister : Option Event → ℕ → ℕ → ℕ → ℕ → Run (Option Event)
event_unregister none evtid cb p1 p2 = some none
event_unregister (some m) evtid cb p1 p2 =
    if leb max_evt evtid || cb == 0
    then some (some m)
    else if m.last_evtid == evtid
    then none
    else elim (take_cb cb p1 p2 (slot m evtid)) [
      | none ↦ some (some m)
      | some (hit, others) ↦
          some (some (event_free_cb (record m { evtlist = set m.evtlist evtid others }) hit))
    ]

-- A call of a subscriber: the function, the event with its data, and the two arguments of the
-- subscription.
pub record Call : Type 0 where
  pub fn : ℕ
  pub evtid : ℕ
  pub evtdata : ℕ
  pub p1 : ℕ
  pub p2 : ℕ

abbrev pub same_type : EvtType → EvtType → Bool
same_type all all = true
same_type local local = true
same_type remote remote = true
same_type _ _ = false

abbrev pub wants : EvtType → EventCb → Bool
wants evt_type cur =
    same_type cur.evt_type evt_type || (same_type cur.evt_type all || same_type evt_type all)

unfoldable pub send_loop : ℕ → ℕ → EvtType → List EventCb → List Call
send_loop evtid evtdata evt_type [] = []
send_loop evtid evtdata evt_type (cur ∷ cbs) =
    let rest = send_loop evtid evtdata evt_type cbs in
    if wants evt_type cur
    then (record { fn = cur.fn; evtid = evtid; evtdata = evtdata; p1 = cur.p1; p2 = cur.p2 }) ∷ rest
    else rest

-- `last_evtid` is set for the time of the calls, and 0 before and after.
unfoldable pub event_send_ex : Option Event → ℕ → ℕ → EvtType → Option Event × List Call
event_send_ex none evtid evtdata evt_type = (none, [])
event_send_ex (some m) evtid evtdata evt_type =
    if leb max_evt evtid
    then (some m, [])
    else (some (record m { last_evtid = 0 }), send_loop evtid evtdata evt_type (slot m evtid))

unfoldable pub event_send : Option Event → ℕ → ℕ → Option Event × List Call
event_send m evtid evtdata = event_send_ex m evtid evtdata all
