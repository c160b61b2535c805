-- ===== src/Ipc/Link/Hook.antt =====
-- zipc/zipc_parse.c: hooking an event.
use zcrt.Base.{
  ltb, ◌==◌, ◌>>=◌, length, take, All, ℕ, ◌^◌, ◌≤◌, ◌<◌, ◌≡◌, refl, sym, ap, ◌∙◌, Bool, true, false,
  Option, some, List, ◌∷◌, ◌++◌, arith,
}
use zcrt.Ipc.Request.{parse_body_info}
use zcrt.Ipc.Header.Replies.{err_values, put_reply_errcode_lem}
use zcrt.Err.{ipc_body_err}
use mathlib.Core.Path.{subst}
use zcrt.Ipc.Request.Reply.{sn_range}
use zcrt.Tlv.Value.Texts.{Shows}
use zcrt.Text.Equal.{NonZero}
use zcrt.Ipc.Request.Reply.{reply_start, reply_start_lem}
use zcrt.Ipc.Request.Dispatch.{IsRequest, RequestBody, names_end, request_bytes, third_bytes}
use zcrt.Ipc.Request.Body.{parse_body_info-Gets}
use zcrt.Ipc.Link.{Subscriber, hook_event, hook_key, link_action, link_body, parse_app_link}
use zcrt.Ipc.Header.Fields.{
  Field, FieldInRange, hdr_bytes, is_named_lem, parse_common_hdr-hdr_bytes, same_text,
  same_text_self, set_fields,
}
use zcrt.Ipc.Header.{is_named, no_hdr, type_link}
use zcrt.Ipc.Comp.{Encoder, Server}
use zcrt.Event.{event_register_ex}
use zcrt.Err.{ZcrtErr}
use zcrt.Buf.{ZStr, contents}
use zcrt.Tlv.Value.Wide.{put_uint32_lem, uint32_bytes}
use zcrt.Tlv.Value.Scalars.{get_int_lem, int_bytes, put_int_lem}
use zcrt.Tlv.Value.Message.{bytes_of}
use zcrt.Tlv.Value.Cursor.{get_type_lem, skip_one-IsValid, unread-skip_one}
use zcrt.Tlv.Len.Read.{get_len-groups}
use zcrt.Tlv.Len.Groups.{groups}
use zcrt.Ipc.Request.Body.{At, At-Gets, At-next, past}
use zcrt.Ipc.Link.{LinkEnd, end_link, link_parse_eventid}
use zcrt.Ipc.Header.Replies.{
  counted_bytes, length-counted_bytes, length-int_bytes, put_reply_req_result_lem, ret_values,
}
use zcrt.Event.{Event, local}
use zcrt.Err.{success}
use zcrt.Buf.Reading.{skip, skip-IsValid, unread-skip}
use zcrt.Buf.Append.{Appended, Appended-trans}
use zcrt.Buf.{Allocator, IsValid, ZBuf, u32, unread}
use zcrt.Tlv.Value.Message.{int, uint32}
use zcrt.Tlv.Ty

-- A table of some size with an entry for the number of the event.
abbrev pub eventid_bytes : ℕ → ℕ → ℕ → List ℕ → List ℕ
eventid_bytes cnt idx evtid rest = groups 4 cnt ++ (int_bytes idx ++ (uint32_bytes evtid ++ rest))

module _ (v : ZBuf) (third cnt idx evtid : ℕ) (rest : List ℕ) where
  link_parse_eventid_lem :
      IsValid v
      → v.len < 2 ^ 31
      → third < u32
      → cnt < u32
      → idx < u32
      → evtid < u32
      → unread v ≡ int_bytes third ++ (Ty.table ∷ eventid_bytes cnt idx evtid rest)
      → (w : ZBuf) × (link_parse_eventid v ≡ some (w, success, evtid)) × IsValid w
  unfolding link_parse_eventid
  link_parse_eventid_lem valid short h1 h2 h3 h4 at =
      let tail3 = uint32_bytes evtid ++ rest in
      let tail2 = int_bytes idx ++ tail3 in
      let tail1 = groups 4 cnt ++ tail2 in
      let v1 = past v (int third) in
      let valid1 : IsValid v1 = skip-IsValid v valid (int_bytes third) (Ty.table ∷ tail1) at in
      let at1 : unread v1 ≡ Ty.table ∷ tail1 =
        unread-skip v valid (int_bytes third) (Ty.table ∷ tail1) at in
      let v2 = skip v1 1 in
      let valid2 : IsValid v2 = skip_one-IsValid v1 Ty.table tail1 valid1 at1 in
      let at2 : unread v2 ≡ tail1 = unread-skip_one v1 Ty.table tail1 valid1 at1 in
      let v3 = skip v2 (length (groups 4 cnt)) in
      let q : At v3 (int idx) (bytes_of (uint32 evtid) ++ rest) = record {
        valid = skip-IsValid v2 valid2 (groups 4 cnt) tail2 at2;
        short = short;
        range = h3;
        here = unread-skip v2 valid2 (groups 4 cnt) tail2 at2;
      } in
      let q' = At-next {y = uint32 evtid} {rest = rest} q h4 in
      (
        past (past v3 (int idx)) (uint32 evtid),
        rw (
          get_int_lem v valid short (Ty.table ∷ tail1) third h1 at,
          ◌>>=◌,
          get_type_lem v1 Ty.table tail1 valid1 at1,
          get_len-groups v2 cnt tail2 valid2 short h2 at2,
          At-Gets q,
          At-Gets q',
        ),
        skip-IsValid (past v3 (int idx)) q'.valid (uint32_bytes evtid) rest q'.here,
      )

-- The result of a request that has succeeded: a table with the number 1.
abbrev pub link_result : List ℕ
link_result = counted_bytes 1 (ret_values 1) ++ (int_bytes 1 ++ uint32_bytes 1)

module _ ⦃alloc : Allocator⦄ (granted : (n : ℕ) → alloc.grants n ≡ true) where
  end_link_lem :
      (o v : ZBuf) (events : Option Event)
      → IsValid o
      → o.len < 100
      → (l : LinkEnd) × (end_link o (v, events, success) ≡ some l)
        × (l.events ≡ events)
        × (l.ret ≡ success)
        × Appended o link_result l.obuf
        × (l.ibuf ≡ v)
  unfolding end_link
  end_link_lem o v events valid size =
      let (o1, run1, p1) = put_reply_req_result_lem granted o valid 1 (omega arith) (omega arith) in
      let n1 = length-counted_bytes 1 (ret_values 1) in
      let (o2, run2, p2) =
        put_int_lem granted o1 p1.valid 1 (omega arith) (omega (arith, p1.longer, n1)) in
      let n2 = length-int_bytes 1 in
      let (o3, run3, p3) =
        put_uint32_lem granted o2 p2.valid 1 (omega arith)
          (omega (arith, p1.longer, n1, p2.longer, n2)) in
      (
        record { ibuf = v; obuf = o3; events = events; ret = success },
        rw (run1, ◌>>=◌, run2, run3),
        refl,
        refl,
        Appended-trans (counted_bytes 1 (ret_values 1)) (int_bytes 1 ++ uint32_bytes 1) p1
            (Appended-trans (int_bytes 1) (uint32_bytes 1) p2 p3),
        refl,
      )

  hook_text : All NonZero hook_key
  hook_text = (
    omega arith,
    (
      omega arith,
      (omega arith, (omega arith, (omega arith, (omega arith, (omega arith, (omega arith, tt)))))),
    ),
  )

  is_hook :
      (v : ZBuf) (a : ZStr) (action : List ℕ)
      → Shows v.buf a action
      → action ≡ hook_key
      → is_named v a hook_key ≡ some true
  is_hook v a action shows same =
      is_named_lem v a action hook_key shows hook_text (omega arith) (omega (arith, ap length same))
      ∙ ap (λ b. some (same_text b hook_key)) same
      ∙ ap some (same_text_self hook_key)

  -- A message of type LINK whose action is `_hookevt`, with the number of an event that is not 0, in
  -- a well-formed buffer of less than 2 ^ 31 bytes: on a server with an encoder, and with a well
  -- formed empty reply buffer, where libc grants every request, `zipc_parse_app_link` registers the
  -- client's callback for that event as local, with priority 10, and returns success. The reply is
  -- the header, the common header with the number of the request, and a table with the number 1. So
  -- it is for every result of `zcrt_event_register_ex`. Both buffers stay well formed.
  pub parse_app_link-event_register_ex :
      (s : Server) (fn : Encoder) (events events' : Option Event) (node : Bool) (sub : Subscriber)
      (err : ZcrtErr) (v obuf : ZBuf) (fs : List Field) (r : RequestBody) (cnt idx evtid : ℕ)
      (rest : List ℕ)
      → s.evt_encode ≡ some fn
      → IsValid v
      → v.len < 2 ^ 31
      → length fs < u32
      → All FieldInRange fs
      → IsRequest r
      → r.action ≡ hook_key
      → r.args ≡ eventid_bytes cnt idx evtid rest
      → cnt < u32
      → idx < u32
      → 1 ≤ evtid
      → evtid < u32
      → unread v ≡ hdr_bytes fs ++ request_bytes r
      → IsValid obuf
      → obuf.len ≡ 0
      → event_register_ex events node 10 evtid local sub.cb sub.p1 sub.p2 ≡ some (events', err)
      → (l : LinkEnd) × (parse_app_link s events node sub v obuf ≡ some l)
        × (l.events ≡ events')
        × (l.ret ≡ success)
        × IsValid l.obuf
        × (contents l.obuf ≡ reply_start type_link (set_fields no_hdr fs).sn ++ link_result)
        × IsValid l.ibuf
  unfolding parse_app_link link_body link_action hook_event
  parse_app_link-event_register_ex s fn events events' node sub err v obuf fs r cnt idx evtid rest
        has valid short few fits q hook args h1 h2 some_event h3 at valid' empty registered =
      let ch = set_fields no_hdr fs in
      let w = skip v (length (hdr_bytes fs)) in
      let header = parse_common_hdr-hdr_bytes fs v (request_bytes r) valid short few fits at in
      let (c, a, names, shows, shows', valid_end, at_end) =
        parse_body_info-Gets w r.cnt r.first r.comp r.second r.action (third_bytes r)
          (skip-IsValid v valid (hdr_bytes fs) (request_bytes r) at) short q.many q.cnt_range
          q.first_range q.second_range q.comp_short q.action_short
          (unread-skip v valid (hdr_bytes fs) (request_bytes r) at) in
      let e = names_end w r in
      let (o, started, valid_o, holds, size) =
        reply_start_lem granted obuf type_link ch valid' empty
          (sn_range fs no_hdr (omega arith) fits) in
      let (u, got, valid_u) =
        link_parse_eventid_lem e r.third cnt idx evtid rest valid_end short q.third_range h1 h2 h3
          (at_end ∙ ap (λ l. int_bytes r.third ++ (Ty.table ∷ l)) args) in
      let (l, ended, same, done, p, read) = end_link_lem o u events' valid_o size in
      let nonzero : (evtid == 0) ≡ false = ground arith in
      (
        l,
        rw
            (
              header,
              ◌>>=◌,
              names,
              started,
              is_hook e a r.action shows' hook,
              has,
              got,
              nonzero,
              registered,
            )
            ended,
        same,
        done,
        p.valid,
        p.written ∙ ap (λ l. l ++ link_result) holds,
        subst IsValid (sym read) valid_u,
      )

  -- A message of type LINK with a common header and then a body of fewer than three entries, under
  -- the same conditions: the result is `ipc_body_err`, no event is hooked, and the reply is the error
  -- code alone, without the header of a message and without a common header.
  pub parse_app_link-no_header :
      (s : Server) (events : Option Event) (node : Bool) (sub : Subscriber) (v obuf : ZBuf)
      (fs : List Field) (cnt : ℕ) (rest : List ℕ)
      → IsValid v
      → v.len < 2 ^ 31
      → length fs < u32
      → All FieldInRange fs
      → cnt < 3
      → unread v ≡ hdr_bytes fs ++ (groups 4 cnt ++ rest)
      → IsValid obuf
      → obuf.len ≡ 0
      → (l : LinkEnd) × (parse_app_link s events node sub v obuf ≡ some l)
        × (l.ret ≡ ipc_body_err)
        × (l.events ≡ events)
        × (contents l.obuf ≡ counted_bytes 1 (err_values ipc_body_err))
  unfolding parse_app_link link_body end_link parse_body_info
  parse_app_link-no_header s events node sub v obuf fs cnt rest valid short few fits less at valid'
        empty =
      let body = groups 4 cnt ++ rest in
      let w = skip v (length (hdr_bytes fs)) in
      let header = parse_common_hdr-hdr_bytes fs v body valid short few fits at in
      let got =
        get_len-groups w cnt rest (skip-IsValid v valid (hdr_bytes fs) body at) short (omega arith)
          (unread-skip v valid (hdr_bytes fs) body at) in
      let too_few : ltb cnt 3 ≡ true = ground arith in
      let (o, run, p) = put_reply_errcode_lem granted obuf valid' ipc_body_err (omega arith) in
      (
        record {
          ibuf = skip w (length (groups 4 cnt));
          obuf = o;
          events = events;
          ret = ipc_body_err;
        },
        rw (header, ◌>>=◌, got, too_few, run),
        refl,
        refl,
        p.written ∙ ap (λ n. take n obuf.buf ++ counted_bytes 1 (err_values ipc_body_err)) empty,
      )
