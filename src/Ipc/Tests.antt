-- ===== src/Ipc/Tests.antt =====
-- A server with one component and one action, and messages to it.
pub mod Events
use zcrt.Base.{
  ◌>>=◌, length, get_or, All, ℕ, zero, suc, ◌%◌, ◌^◌, ◌<◌, ◌≡◌, refl, sym, ap, ◌∙◌, true, false,
  none, some, List, [], ◌∷◌, ◌++◌, append-nil, arith,
}
use zcrt.Ipc.Request.Reply.{errcode_bytes}
use zcrt.Ipc.Request.Dispatch.{answer_in, names_end}
use zcrt.Ipc.Request.Dispatch.{args_at, parse_request-reference_answer}
use zcrt.Ipc.Request.{parse_request}
use zcrt.Ipc.Header.Round.{parse_common_hdr-encode_common_hdr}
use zcrt.Ipc.Header.Replies.{counted_bytes, err_values}
use zcrt.Ipc.Header.Fields.{parse_common_hdr-hdr_bytes}
use zcrt.Ipc.Header.{encode_common_hdr, parse_common_hdr}
use zcrt.Ipc.Comp.Tables.{find_named}
use zcrt.Hash.{hash_enumerate}
use zcrt.Err.{ipc_no_module}
use zcrt.Buf.{unread}
use mathlib.Core.Path.{subst}
use zcrt.Buf.Tests.{ample}
use zcrt.Tlv.Zigzag.{zigzag_encode32}
use zcrt.Tlv.Len.Groups.{groups}
use zcrt.Ipc.Request.Reply.{parse_payload-reference_answer, reply_start}
use zcrt.Ipc.Request.Dispatch.{IsRequest, RequestBody, reference_answer, request_bytes}
use zcrt.Ipc.Request.{end_reply, parse_payload}
use zcrt.Ipc.Header.Fields.{Field, FieldInRange, hdr_bytes}
use zcrt.Ipc.Header.{type_default}
use zcrt.Ipc.Comp.Tables.{IsServer, IsTable}
use zcrt.Ipc.Comp.{Comp, Encoder, Server, component_hash_cmp, component_hash_key}
use zcrt.Hash.{ZHash, chains_data}
use zcrt.Err.{success}
use zcrt.Buf.Tests.{ample-grants, buffer_of, buffer_of-IsValid, unread-buffer_of}
use zcrt.Buf.Reading.{skip}
use zcrt.Buf.{IsValid, ZBuf, buf_append, contents}
use zcrt.Ipc.Header.Fields.{sn, req}
use zcrt.Ipc.Comp.{Call}

abbrev pub name_ab : List ℕ
name_ab = 97 ∷ 98 ∷ []

abbrev name_go : List ℕ
name_go = 103 ∷ 111 ∷ []

-- A handler that answers with success and writes nothing.
abbrev silent : Call
silent = λ addr ibuf obuf. some (ibuf, obuf, success)

abbrev pub comp_ab : Comp
comp_ab = record { addr = 7; name = name_ab; call = none }

abbrev comp_go : Comp
comp_go = record { addr = 8; name = name_go; call = some silent }

abbrev pub table_of : Comp → ZHash Comp
table_of comp = record {
  size = 1;
  count = 1;
  index = (comp ∷ []) ∷ [];
  hash_key = component_hash_key;
  hash_cmp = component_hash_cmp;
}

pub table_of-IsTable : (comp : Comp) → IsTable (table_of comp)
unfolding chains_data
table_of-IsTable comp = record {
  valid = record { sized = refl; some_chain = omega arith; counted = refl; placed = at };
  keyed = refl;
  compared = refl;
}
  where
    at : (i : ℕ) → All (λ x. component_hash_key x % 1 ≡ i) (get_or (table_of comp).index i [])
    at zero = (omega arith, tt)
    at (suc i) = tt

-- An encoder that adds two bytes for every event.
abbrev pub two_bytes : Encoder
two_bytes = λ evtid evtdata w. buf_append w (1 ∷ 2 ∷ []) >>= λ r. some (r.0, 0)

abbrev pub server : Server
server = record {
  modlist = table_of comp_ab;
  apilist = λ addr. some (table_of comp_go);
  evt_encode = some two_bytes;
  freebuf = [];
}

pub server-IsServer : IsServer server
server-IsServer = record {
  modules = table_of-IsTable comp_ab;
  apis = λ addr t e.
      subst IsTable (ap (λ o. elim o [ none ↦ table_of comp_go | some u ↦ u ]) e)
        (table_of-IsTable comp_go);
}

abbrev pub fields : List Field
fields = sn 5 ∷ req true ∷ []

pub fields-InRange : All FieldInRange fields
fields-InRange = (omega arith, (tt, tt))

abbrev pub ask_ab : RequestBody
ask_ab = record {
  cnt = 3;
  first = 1;
  comp = name_ab;
  second = 2;
  action = name_go;
  third = 3;
  args = 0 ∷ [];
}

pub ask_ab-IsRequest : IsRequest ask_ab
ask_ab-IsRequest = record {
  many = omega arith;
  cnt_range = omega arith;
  first_range = omega arith;
  second_range = omega arith;
  third_range = omega arith;
  comp_text = (omega arith, (omega arith, tt));
  action_text = (omega arith, (omega arith, tt));
  comp_short = omega arith;
  action_short = omega arith;
}

abbrev pub ask_bytes : List ℕ
ask_bytes = hdr_bytes fields ++ request_bytes ask_ab

pub ask_bytes-short : length ask_bytes < 2 ^ 31
unfolding groups zigzag_encode32
ask_bytes-short = omega arith

abbrev pub empty : ZBuf
empty = buffer_of []

pub empty-IsValid : IsValid empty
empty-IsValid = buffer_of-IsValid [] (omega arith)

-- A server without components.
abbrev pub no_comps : Server
no_comps = record server {
  modlist = record {
    size = 1;
    count = 0;
    index = [] ∷ [];
    hash_key = component_hash_key;
    hash_cmp = component_hash_cmp;
  };
}

pub no_comps-IsServer : IsServer no_comps
unfolding chains_data
no_comps-IsServer = record {
  modules = record {
    valid = record { sized = refl; some_chain = omega arith; counted = refl; placed = at };
    keyed = refl;
    compared = refl;
  };
  apis = server-IsServer.apis;
}
  where
    at : (i : ℕ) → All (λ x. component_hash_key x % 1 ≡ i) (get_or no_comps.modlist.index i [])
    at zero = tt
    at (suc i) = tt

pub none_found : find_named name_ab (hash_enumerate no_comps.modlist) ≡ none
unfolding hash_enumerate find_named chains_data
none_found = refl

-- No component has the name.
parse_payload-reference_answer_example :
    let end = names_end (skip (buffer_of ask_bytes) (length (hdr_bytes fields))) ask_ab in
    (o reply : ZBuf) × (contents o ≡ reply_start type_default 5)
    × (parse_payload no_comps type_default (buffer_of ask_bytes) empty
        ≡ some (end, reply, ipc_no_module))
    × IsValid reply
    × (contents reply ≡ contents o ++ errcode_bytes ipc_no_module)
parse_payload-reference_answer_example =
    parse_payload-reference_answer ample-grants no_comps (buffer_of ask_bytes) empty fields ask_ab
      (λ o. (
        names_end (skip (buffer_of ask_bytes) (length (hdr_bytes fields))) ask_ab,
        o,
        ipc_no_module,
      ))
      no_comps-IsServer (buffer_of-IsValid ask_bytes (omega (arith, ask_bytes-short)))
      ask_bytes-short (omega arith) fields-InRange refl ask_ab-IsRequest
      (unread-buffer_of ask_bytes) empty-IsValid refl
      (λ o valid holds size. (
        ap
            (λ m.
              answer_in (skip (buffer_of ask_bytes) (length (hdr_bytes fields))) ask_ab no_comps m
                o)
            none_found,
        valid,
        omega arith,
      ))

body_short : length (request_bytes ask_ab) < 2 ^ 31
unfolding groups zigzag_encode32
body_short = omega arith

parse_request-reference_answer_example :
    let v = buffer_of (request_bytes ask_ab) in
    (parse_request server v empty ≡ reference_answer v ask_ab server empty)
    × IsValid (args_at v ask_ab)
    × (unread (args_at v ask_ab) ≡ 0 ∷ [])
parse_request-reference_answer_example =
    parse_request-reference_answer (buffer_of (request_bytes ask_ab)) ask_ab server empty
      server-IsServer (buffer_of-IsValid (request_bytes ask_ab) (omega (arith, body_short)))
      body_short ask_ab-IsRequest (unread-buffer_of (request_bytes ask_ab))

header_short : length (hdr_bytes fields) < 2 ^ 31
unfolding groups zigzag_encode32
header_short = omega arith

parse_common_hdr-hdr_bytes_example :
    parse_common_hdr (buffer_of (hdr_bytes fields))
    ≡ some (
      skip (buffer_of (hdr_bytes fields)) (length (hdr_bytes fields)),
      some (record { sn = 5; req = true; noti = false }),
    )
parse_common_hdr-hdr_bytes_example =
    parse_common_hdr-hdr_bytes fields (buffer_of (hdr_bytes fields)) []
      (buffer_of-IsValid (hdr_bytes fields) (omega (arith, header_short))) header_short
      (omega arith) fields-InRange
      (unread-buffer_of (hdr_bytes fields) ∙ sym (append-nil (hdr_bytes fields)))

parse_common_hdr-encode_common_hdr_example :
    (w u : ZBuf) × (encode_common_hdr empty 9 true false ≡ some w)
    × (parse_common_hdr w ≡ some (u, some (record { sn = 9; req = true; noti = false })))
    × (unread u ≡ [])
parse_common_hdr-encode_common_hdr_example =
    parse_common_hdr-encode_common_hdr ample-grants empty 9 true false empty-IsValid refl
      (omega arith) (omega arith)
