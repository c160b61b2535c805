-- ===== src/Ipc/Tests/Events.antt =====
-- The tables of components, and the messages about events.
use zcrt.Base.{
  ◌==◌, if◌then◌else◌, ◌>>=◌, length, set, All, ℕ, ◌^◌, ◌<◌, ◌≡◌, refl, ◌⊎◌, true, false, none,
  some, List, [], ◌∷◌, ◌++◌, arith,
}
use zcrt.Tlv.Zigzag.{zigzag_encode32}
use zcrt.Tlv.Len.Groups.{groups}
use zcrt.Text.Equal.{NonZero}
use zcrt.Ipc.Request.Reply.{reply_start}
use zcrt.Ipc.Request.Dispatch.{IsRequest, RequestBody, request_bytes}
use zcrt.Ipc.Link.Hook.{
  eventid_bytes, link_result, parse_app_link-event_register_ex, parse_app_link-no_header,
}
use zcrt.Ipc.Link.{LinkEnd, Subscriber, hook_key, parse_app_link}
use zcrt.Ipc.Header.Replies.{counted_bytes, err_values}
use zcrt.Ipc.Header.Fields.{hdr_bytes}
use zcrt.Ipc.Header.{type_link}
use zcrt.Ipc.EventOut.Size.{message}
use zcrt.Ipc.EventOut.Encode.{Encodes, encode_event-message, notice_bytes}
use zcrt.Ipc.EventOut.{encode_event}
use zcrt.Ipc.Comp.Tables.{IsServer, find_named, lookup_comp-server_register}
use zcrt.Ipc.Comp.{Comp, Server, lookup_comp, name_len, order_int, server_register, strcmp}
use zcrt.Hash.{hash_enumerate}
use zcrt.Event.{event_malloc_cb, event_register_ex, link_cb, manage_init}
use zcrt.Err.{existed, ipc_body_err, success}
use zcrt.Buf.Tests.{ample-grants, buffer_of, buffer_of-IsValid, unread-buffer_of}
use zcrt.Buf.Append.{buf_append-Appended}
use zcrt.Buf.{IsValid, ZBuf, contents}
use zcrt.Buf.Tests.{ample}
use zcrt.Event.{Event, local, take_node}
use zcrt.Ipc.Tests.{name_ab, comp_ab, two_bytes, server, fields, empty, no_comps}
use zcrt.Ipc.Tests.{fields-InRange, empty-IsValid, no_comps-IsServer}

lookup_comp-server_register_example :
    ((c : Comp) × (find_named name_ab (hash_enumerate no_comps.modlist) ≡ some c)
      × (server_register no_comps (some comp_ab) true ≡ some (no_comps, existed)))
    ⊎ ((s' : Server) × (find_named name_ab (hash_enumerate no_comps.modlist) ≡ none)
        × (server_register no_comps (some comp_ab) true ≡ some (s', success))
        × IsServer s'
        × ((name : List ℕ)
            → All NonZero name
            → length name < name_len
            → lookup_comp (some s'.modlist) (some name) (length name) ≡ (
                if order_int (strcmp name_ab name) == 0
                then some (some comp_ab)
                else lookup_comp (some no_comps.modlist) (some name) (length name))))
lookup_comp-server_register_example =
    lookup_comp-server_register no_comps comp_ab no_comps-IsServer (omega arith, (omega arith, tt))
      (omega arith)

two_bytes-Encodes : Encodes two_bytes 4 0 (1 ∷ 2 ∷ [])
two_bytes-Encodes = λ w valid size.
    let (w', run, a) = buf_append-Appended ample-grants w (1 ∷ 2 ∷ []) valid (omega arith) in
    (w', rw (run, ◌>>=◌), a)

encode_event-message_example :
    (w : ZBuf) × (encode_event server 1 4 0 empty ≡ some (w, success))
    × IsValid w
    × (contents w ≡ message type_link (notice_bytes 1 4 ++ (1 ∷ 2 ∷ [])))
encode_event-message_example =
    encode_event-message ample-grants server two_bytes 1 4 0 (1 ∷ 2 ∷ []) empty empty-IsValid refl
      (omega arith) (omega arith) refl two_bytes-Encodes

abbrev pub hook_4 : RequestBody
hook_4 = record {
  cnt = 3;
  first = 1;
  comp = name_ab;
  second = 2;
  action = hook_key;
  third = 3;
  args = eventid_bytes 1 1 4 [];
}

pub hook_4-IsRequest : IsRequest hook_4
hook_4-IsRequest = record {
  many = omega arith;
  cnt_range = omega arith;
  first_range = omega arith;
  second_range = omega arith;
  third_range = omega arith;
  comp_text = (omega arith, (omega arith, tt));
  action_text = (
    omega arith,
    (
      omega arith,
      (omega arith, (omega arith, (omega arith, (omega arith, (omega arith, (omega arith, tt)))))),
    ),
  );
  comp_short = omega arith;
  action_short = omega arith;
}

abbrev pub hook_bytes : List ℕ
hook_bytes = hdr_bytes fields ++ request_bytes hook_4

pub hook_bytes-short : length hook_bytes < 2 ^ 31
unfolding groups zigzag_encode32
hook_bytes-short = omega arith

abbrev pub client : Subscriber
client = record { cb = 3; p1 = 1; p2 = 0 }

abbrev no_events : Event
no_events = record manage_init { evtlist = set manage_init.evtlist 4 [] }

-- No memory is granted for the node, and the list of the event is empty.
answered :
    event_register_ex (some manage_init) false 10 4 local 3 1 0 ≡ some (some no_events, success)
unfolding event_register_ex event_malloc_cb take_node link_cb manage_init
answered = refl

parse_app_link-event_register_ex_example :
    (l : LinkEnd) × (parse_app_link server
        (some manage_init)
        false
        client
        (buffer_of hook_bytes)
        empty
      ≡ some l)
    × (l.events ≡ some no_events)
    × (l.ret ≡ success)
    × IsValid l.obuf
    × (contents l.obuf ≡ reply_start type_link 5 ++ link_result)
    × IsValid l.ibuf
parse_app_link-event_register_ex_example =
    parse_app_link-event_register_ex ample-grants server two_bytes (some manage_init)
      (some no_events) false client success (buffer_of hook_bytes) empty fields hook_4 1 1 4 [] refl
      (buffer_of-IsValid hook_bytes (omega (arith, hook_bytes-short))) hook_bytes-short
      (omega arith) fields-InRange hook_4-IsRequest refl refl (omega arith) (omega arith)
      (omega arith) (omega arith) (unread-buffer_of hook_bytes) empty-IsValid refl answered

abbrev torn_bytes : List ℕ
torn_bytes = hdr_bytes fields ++ (groups 4 2 ++ [])

torn_bytes-short : length torn_bytes < 2 ^ 31
unfolding groups zigzag_encode32
torn_bytes-short = omega arith

parse_app_link-no_header_example :
    (l : LinkEnd) × (parse_app_link server none false client (buffer_of torn_bytes) empty ≡ some l)
    × (l.ret ≡ ipc_body_err)
    × (l.events ≡ none)
    × (contents l.obuf ≡ counted_bytes 1 (err_values ipc_body_err))
parse_app_link-no_header_example =
    parse_app_link-no_header ample-grants server none false client (buffer_of torn_bytes) empty
      fields 2 [] (buffer_of-IsValid torn_bytes (omega (arith, torn_bytes-short))) torn_bytes-short
      (omega arith) fields-InRange (omega arith) (unread-buffer_of torn_bytes) empty-IsValid refl
