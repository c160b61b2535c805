-- ===== src/Ipc/Request.antt =====
-- zipc/zipc_parse.c: a request is read, the component that it names is called, and the reply is
-- written. A handler is code of the program's user: what it does is a function of the two buffers,
-- and it does not change the tables of the server.
pub mod Body
pub mod Dispatch
pub mod Reply
use zcrt.Ipc.Header.{CommonHdr}
use zcrt.Base.{ltb, leb, ◌==◌, if◌then◌else◌, Run, ◌>>=◌, ℕ, true, Option, none, some}
use zcrt.Tlv.Ty
use zcrt.Tlv.Value.{get_int, get_string, get_type}
use zcrt.Tlv.Len.{get_len}
use zcrt.Ipc.Header.{
  parse_common_hdr, parse_init_buf, put_reply_commonhdr, put_reply_errcode, text_bytes,
  type_default,
}
use zcrt.Ipc.Comp.{Comp, Server, lookup_comp, name_len}
use zcrt.Err.{
  ZcrtErr, ipc_args_err, ipc_body_err, ipc_common_hdr_err, ipc_no_act, ipc_no_module,
  ipc_not_support, is_success, param_err,
}
use zcrt.Buf.{Allocator, ZBuf, ZStr}

-- The macros `ZTLV_CHECK_GET_…`: a get call, and the return of `stop` when it returns false.
abbrev pub check {ℓ κ} :
    {A : Type ℓ} {C : Type κ} → (ZBuf → C) → Run (ZBuf × Option A) → (ZBuf → A → Run C) → Run C
check stop run next = run >>= λ r. elim r.1 [ none ↦ some (stop r.0) | some a ↦ next r.0 a ]

abbrev pub failed {ℓ} : {A : Type ℓ} → ZBuf → ZBuf × Option A
failed v = (v, none)

-- `ztlv_get_len` as the macro uses it.
abbrev pub got_len : ZBuf → Run (ZBuf × Option ℕ)
got_len v = get_len v >>= λ r. some (r.0, if r.2 then some r.1 else none)

-- `!ztlv_get_string(ibuf, name) || name->len>=ZCRT_NAME_LEN` is `none`.
unfoldable pub get_name : ZBuf → Run (ZBuf × Option ZStr)
get_name v =
    check failed (get_string v)
      λ w name. some (w, if leb name_len name.len then none else some name)

-- The names of the component and of the action; `none` is `ipc_body_err`.
unfoldable pub parse_body_info : ZBuf → Run (ZBuf × Option (ZStr × ZStr))
parse_body_info v = check failed (got_len v) λ v1 cnt.
    if ltb cnt 3
    then some (v1, none)
    else (check failed (get_int v1) λ v2 idx. check failed (get_name v2) λ v3 compname.
        check failed (get_int v3)
          λ v4 idx'. check failed (get_name v4) λ v5 action. some (v5, some (compname, action)))

unfoldable pub call_comp : Comp → Option Comp → ZBuf → ZBuf → Run (ZBuf × ZBuf × ZcrtErr)
call_comp comp none ibuf obuf = some (ibuf, obuf, ipc_no_act)
call_comp comp (some api) ibuf obuf = elim api.call [
  | none ↦ some (ibuf, obuf, ipc_no_act)
  | some call ↦ call comp.addr ibuf obuf
]

unfoldable pub comp_call : Server → Option Comp → ZStr → ZBuf → ZBuf → Run (ZBuf × ZBuf × ZcrtErr)
comp_call s none action ibuf obuf = some (ibuf, obuf, param_err)
comp_call s (some comp) action ibuf obuf =
    lookup_comp (s.apilist comp.addr) (text_bytes ibuf action) action.len >>= λ api.
    call_comp comp api ibuf obuf

-- The third entry of the body: its number and then a table.
unfoldable pub call_with_args : Server → Comp → ZStr → ZBuf → ZBuf → Run (ZBuf × ZBuf × ZcrtErr)
call_with_args s comp action ibuf obuf =
    check (λ w. (w, obuf, ipc_body_err)) (get_int ibuf)
      λ v idx. get_type v >>= λ (w, ty).
        if ty == Ty.table
        then comp_call s (some comp) action w obuf
        else some (w, obuf, ipc_args_err)

unfoldable pub call_found : Server → Option Comp → ZStr → ZBuf → ZBuf → Run (ZBuf × ZBuf × ZcrtErr)
call_found s none action ibuf obuf = some (ibuf, obuf, ipc_no_module)
call_found s (some comp) action ibuf obuf = call_with_args s comp action ibuf obuf

unfoldable pub parse_request : Server → ZBuf → ZBuf → Run (ZBuf × ZBuf × ZcrtErr)
parse_request s ibuf obuf =
    check (λ w. (w, obuf, ipc_body_err)) (parse_body_info ibuf)
      λ v (compname, action).
        lookup_comp (some s.modlist) (text_bytes v compname) compname.len >>= λ comp.
        call_found s comp action v obuf

module _ ⦃alloc : Allocator⦄ where
  -- Both kinds of replies start with these calls.
  unfoldable pub start_reply : ZBuf → ℕ → CommonHdr → Run ZBuf
  start_reply obuf app_type ch = parse_init_buf obuf app_type >>= λ o. put_reply_commonhdr o ch true

  -- The reply after the request has been answered.
  unfoldable pub end_reply : ZBuf × ZBuf × ZcrtErr → Run (ZBuf × ZBuf × ZcrtErr)
  end_reply (ibuf, obuf, ret) =
      if is_success ret
      then some (ibuf, obuf, ret)
      else (put_reply_errcode obuf ret >>= λ obuf'. some (ibuf, obuf', ret))

  unfoldable pub parse_app_default : Server → ZBuf → ZBuf → Run (ZBuf × ZBuf × ZcrtErr)
  parse_app_default s ibuf obuf =
      check (λ w. (w, obuf, ipc_common_hdr_err)) (parse_common_hdr ibuf)
        λ v ch.
          if ch.req
          then (start_reply obuf type_default ch >>= λ o.
              parse_request s v o >>= λ answer. end_reply answer)
          else some (v, obuf, ipc_not_support)

  unfoldable pub parse_payload : Server → ℕ → ZBuf → ZBuf → Run (ZBuf × ZBuf × ZcrtErr)
  parse_payload s app_type ibuf obuf =
      if app_type == type_default
      then parse_app_default s ibuf obuf
      else some (ibuf, obuf, ipc_not_support)
