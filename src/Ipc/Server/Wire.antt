-- ===== src/Ipc/Server/Wire.antt =====
-- zipc/zipc_server_os.c and zipc/zipc_parse.c together: from a request to the bytes on the wire.
use zcrt.Base.{
  ◌==◌, ◌>>=◌, length, take, length-take, take-take, All, ℕ, ◌^◌, ◌<◌, ◌≡◌, refl, ap, ◌∙◌, true,
  false, none, some, List, [], ◌∷◌, ◌++◌, append_assoc, arith,
}
use zcrt.Ipc.Tests.{empty}
use zcrt.Ipc.Server.{
  Luck, World, answer_work, buf_send_job, dec_jobcnt, give_back, msg_proc_job, proc_with, respond,
  send_reply, set_free, zipc_tag,
}
use zcrt.Ipc.Request.Reply.{parse_payload-no_module}
use zcrt.Ipc.Request.Dispatch.{IsRequest, RequestBody, request_bytes}
use zcrt.Ipc.Pool.{PoolIsValid, zipc_buf_free, zipc_buf_malloc-zipc_buf_free}
use zcrt.Ipc.Header.Replies.{counted_bytes, err_values, hdr_values}
use zcrt.Ipc.Header.Fields.{Field, FieldInRange, hdr_bytes, set_fields}
use zcrt.Ipc.Header.{msg_hdr, no_hdr, type_default}
use zcrt.Ipc.EventOut.Size.{message, set_payload_size_lem}
use zcrt.Ipc.Comp.Tables.{IsServer, find_named}
use zcrt.Hash.{hash_enumerate}
use zcrt.Err.{ipc_no_module}
use zcrt.Buf.{Allocator, IsValid, ZBuf, contents, u32, unread}

-- What follows the header of a reply to a request for a component that is not there.
abbrev pub no_module_body : ℕ → List ℕ
no_module_body id =
    counted_bytes 2 (hdr_values id true) ++ counted_bytes 1 (err_values ipc_no_module)

module _ ⦃alloc : Allocator⦄ (granted : (n : ℕ) → alloc.grants n ≡ true) where
  respond-message :
      (w : World) (o : ZBuf) (app_type : ℕ) (body : List ℕ)
      → IsValid o
      → contents o ≡ msg_hdr app_type ++ body
      → (o' : ZBuf) × (respond w true o ≡ some (record w { replies = w.replies ++ (o' ∷ []) }))
        × (contents o' ≡ message app_type body)
  unfolding respond send_reply msg_hdr
  respond-message w o app_type body valid holds =
      let (o', run, _, now, _, _) = set_payload_size_lem o app_type body valid holds in
      let something : (o.len == 0) ≡ false =
        let size = ap length holds in let cut = length-take o.len o.buf in ground arith in
      (o', rw (something, run, ◌>>=◌), now)

  -- The job for a message that asks a component that the server does not have, where libc and malloc
  -- grant every request and the scheduler takes the reply: it does not fault, and the reply that it
  -- leaves, when the scheduler sends it and send takes all its bytes, puts one whole message on the wire, whose header has the number of the
  -- bytes behind it, and which holds the number of the request and the code `ipc_no_module`.
  pub msg_proc_job-buf_send_job :
      (w : World) (luck : Luck) (v : ZBuf) (fs : List Field) (r : RequestBody)
      → IsServer w.server
      → PoolIsValid w.server.freebuf
      → luck.granted ≡ true
      → luck.taken ≡ true
      → IsValid v
      → v.len < 2 ^ 31
      → length fs < u32
      → All FieldInRange fs
      → (set_fields no_hdr fs).req ≡ true
      → IsRequest r
      → unread v ≡ hdr_bytes fs ++ request_bytes r
      → find_named r.comp (hash_enumerate w.server.modlist) ≡ none
      → (w1 w2 : World) × (o : ZBuf) × (msg_proc_job w luck
            (record { ibuf = v; app_type = type_default })
          ≡ some w1)
        × (w1.replies ≡ w.replies ++ (o ∷ []))
        × (buf_send_job (record w1 { replies = w.replies }) o.len o ≡ some w2)
        × (w2.wire
            ≡ w.wire ++ (message type_default (no_module_body (set_fields no_hdr fs).sn) ∷ []))
  unfolding msg_proc_job proc_with answer_work give_back zipc_buf_free dec_jobcnt buf_send_job
  msg_proc_job-buf_send_job w luck v fs r h pool lucky takes valid short few fits asks q at
        unknown =
      let (l, obuf, got, pool', valid', empty, _, _) =
        zipc_buf_malloc-zipc_buf_free granted w.server.freebuf zipc_tag pool in
      let u = set_free w l in
      let h' : IsServer u.server = record { modules = h.modules; apis = h.apis } in
      let (v', o, run, valid_o, holds) =
        parse_payload-no_module granted u.server v obuf fs r h' valid short few fits asks q at
          valid' empty unknown in
      let sn = (set_fields no_hdr fs).sn in
      let (o', run', now) = respond-message u o type_default (no_module_body sn) valid_o (
        holds
        ∙ append_assoc (msg_hdr type_default) (counted_bytes 2 (hdr_values sn true))
            (counted_bytes 1 (err_values ipc_no_module))) in
      let w1 = dec_jobcnt (set_free (record u { replies = u.replies ++ (o' ∷ []) }) (v' ∷ l)) in
      (
        w1,
        set_free
            (record w1 { replies = w.replies; wire = w1.wire ++ (take o'.len (contents o') ∷ []) })
            (o' ∷ w1.server.freebuf),
        o',
        rw (lucky, got, run, ◌>>=◌, takes, run'),
        refl,
        refl,
        ap (λ bytes. w.wire ++ (bytes ∷ [])) (take-take o'.len o'.len o'.buf (omega arith) ∙ now),
      )
