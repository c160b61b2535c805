-- ===== src/Ipc/Link.antt =====
-- zipc/zipc_parse.c: the messages of type LINK, by which a client hooks and unhooks events. The code
-- of a subscriber is the number `cb`, as in the manager of events.
pub mod Hook
use zcrt.Base.{
  ◌==◌, if◌then◌else◌, Run, ◌>>=◌, ℕ, Bool, true, false, not, ◌||◌, Option, none, some, List, [],
  ◌∷◌,
}
use zcrt.Tlv.Value.{get_int, get_type, get_uint32, put_int, put_uint32}
use zcrt.Ipc.Request.{check, got_len, parse_body_info, start_reply}
use zcrt.Ipc.Header.{
  CommonHdr, is_named, parse_common_hdr, put_reply_errcode, put_reply_req_result, type_link,
}
use zcrt.Ipc.Comp.{Encoder, Server, server_get_event_encode}
use zcrt.Event.{Event, local, event_register_ex, event_unregister}
use zcrt.Err.{
  ZcrtErr, ipc_args_err, ipc_body_err, ipc_common_hdr_err, ipc_not_support, ipc_tlv_err, is_success,
  success,
}
use zcrt.Buf.{Allocator, ZBuf, ZStr}
use zcrt.Tlv.Ty

abbrev pub hook_key : List ℕ
hook_key = 95 ∷ 104 ∷ 111 ∷ 111 ∷ 107 ∷ 101 ∷ 118 ∷ 116 ∷ []

abbrev pub unhook_key : List ℕ
unhook_key = 95 ∷ 117 ∷ 110 ∷ 104 ∷ 111 ∷ 111 ∷ 107 ∷ 101 ∷ 118 ∷ 116 ∷ []

-- The result, and the number of the event, 0 with an error.
unfoldable pub link_parse_eventid : ZBuf → Run (ZBuf × ZcrtErr × ℕ)
link_parse_eventid v =
    check (λ w. (w, ipc_body_err, 0)) (get_int v)
      λ v1 idx. get_type v1 >>= λ (v2, ty).
        if ty == Ty.table
        then (check (λ w. (w, ipc_tlv_err, 0)) (got_len v2)
            λ v3 cnt.
              check (λ w. (w, ipc_tlv_err, 0)) (get_int v3)
                λ v4 idx'.
                  check (λ w. (w, ipc_tlv_err, 0)) (get_uint32 v4)
                    λ v5 evtid. some (v5, success, evtid))
        else some (v2, ipc_args_err, 0)

-- The subscription that a client asks for: the callback and its two arguments.
pub record Subscriber : Type 0 where
  pub cb : ℕ
  pub p1 : ℕ
  pub p2 : ℕ

abbrev pub has_encoder : Option Encoder → Bool
has_encoder none = false
has_encoder (some fn) = true

-- The buffer behind what was read, the manager of events, and the result. What
-- `zcrt_event_register_ex` returns is not looked at.
unfoldable pub hook_event :
    Server → Option Event → Bool → Subscriber → ZBuf → Run (ZBuf × Option Event × ZcrtErr)
hook_event s events granted sub v =
    if has_encoder (server_get_event_encode s)
    then (link_parse_eventid v >>= λ (w, ret, evtid).
        if not (is_success ret) || evtid == 0
        then some (w, events, ret)
        else (event_register_ex events granted 10 evtid local sub.cb sub.p1 sub.p2 >>= λ r.
            some (w, r.0, ret)))
    else some (v, events, ipc_not_support)

unfoldable pub unhook_event : Option Event → Subscriber → ZBuf → Run (ZBuf × Option Event × ZcrtErr)
unhook_event events sub v = link_parse_eventid v >>= λ (w, ret, evtid).
    if not (is_success ret) || evtid == 0
    then some (w, events, ret)
    else (event_unregister events evtid sub.cb sub.p1 sub.p2 >>= λ events'. some (w, events', ret))

unfoldable pub link_action :
    Server → Option Event → Bool → Subscriber → ZStr → ZBuf → Run (ZBuf × Option Event × ZcrtErr)
link_action s events granted sub action v = is_named v action hook_key >>= λ hook.
    if hook
    then hook_event s events granted sub v
    else (is_named v action unhook_key >>= λ unhook.
        if unhook then unhook_event events sub v else some (v, events, success))

-- What a LINK message leaves behind.
pub record LinkEnd : Type 0 where
  pub ibuf : ZBuf
  pub obuf : ZBuf
  pub events : Option Event
  pub ret : ZcrtErr

module _ ⦃alloc : Allocator⦄ where
  -- The result, or a table with the number 1.
  unfoldable pub end_link : ZBuf → ZBuf × Option Event × ZcrtErr → Run LinkEnd
  end_link obuf (ibuf, events, ret) =
      if is_success ret
      then (do
        o1 ← put_reply_req_result obuf 1
        o2 ← put_int o1 1
        o3 ← put_uint32 o2 1
        some (record { ibuf = ibuf; obuf = o3; events = events; ret = ret }))
      else (put_reply_errcode obuf ret >>= λ o.
          some (record { ibuf = ibuf; obuf = o; events = events; ret = ret }))

  -- When the names cannot be read, the loop is left before the reply is started.
  unfoldable pub link_body :
      Server
      → Option Event
      → Bool
      → Subscriber
      → CommonHdr
      → ZBuf
      → ZBuf
      → Option (ZStr × ZStr)
      → Run LinkEnd
  link_body s events granted sub ch v obuf none = end_link obuf (v, events, ipc_body_err)
  link_body s events granted sub ch v obuf (some (compname, action)) =
      start_reply obuf type_link ch >>= λ o.
      link_action s events granted sub action v >>= λ answer. end_link o answer

  unfoldable pub parse_app_link :
      Server → Option Event → Bool → Subscriber → ZBuf → ZBuf → Run LinkEnd
  parse_app_link s events granted sub ibuf obuf =
      check (λ w. record { ibuf = w; obuf = obuf; events = events; ret = ipc_common_hdr_err })
        (parse_common_hdr ibuf)
        λ v ch. parse_body_info v >>= λ (w, names). link_body s events granted sub ch w obuf names
