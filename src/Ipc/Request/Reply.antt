-- ===== src/Ipc/Request/Reply.antt =====
-- zipc/zipc_parse.c: the reply to a whole message.
use zcrt.Base.{
  if◌then◌else◌, Bool-cases, ◌>>=◌, length, All, ℕ, ◌+◌, ◌^◌, ◌<◌, ◌≡◌, refl, sym, ap, ◌∙◌, inl,
  inr, true, false, none, some, List, [], ◌∷◌, ◌++◌, append-nil, arith,
}
use zcrt.Ipc.Request.Dispatch.{answer_in, names_end}
use zcrt.Ipc.Header.Replies.{err_values, put_reply_errcode_lem}
use zcrt.Ipc.Comp.Tables.{find_named}
use zcrt.Hash.{hash_enumerate}
use zcrt.Err.{ZcrtErr, ipc_no_module, is_success}
use zcrt.Buf.Append.{Appended}
use zcrt.Ipc.Request.{start_reply}
use zcrt.Ipc.Header.Fields.{sn, req, noti}
use zcrt.Ipc.Request.Dispatch.{
  IsRequest, RequestBody, parse_request-reference_answer, reference_answer, request_bytes,
}
use zcrt.Ipc.Request.{end_reply, parse_app_default, parse_payload}
use zcrt.Ipc.Header.Fields.{
  Field, FieldInRange, hdr_bytes, parse_common_hdr-hdr_bytes, set_field, set_fields,
}
use zcrt.Ipc.Header.{no_hdr, type_default}
use zcrt.Ipc.Comp.Tables.{IsServer}
use zcrt.Ipc.Comp.{Server}
use zcrt.Buf.Reading.{skip, skip-IsValid, unread-skip}
use zcrt.Buf.{unread}
use zcrt.Ipc.Header.Replies.{
  counted_bytes, hdr_values, length-counted_bytes, parse_init_buf_lem, put_reply_commonhdr_lem,
}
use zcrt.Ipc.Header.{CommonHdr, msg_hdr}
use zcrt.Buf.{Allocator, IsValid, ZBuf, contents, u32}

-- What stands in a reply before the answer.
abbrev pub reply_start : ℕ → ℕ → List ℕ
reply_start app_type id = msg_hdr app_type ++ counted_bytes 2 (hdr_values id true)

-- What stands behind an answer.
abbrev pub errcode_bytes : ZcrtErr → List ℕ
errcode_bytes err = if is_success err then [] else counted_bytes 1 (err_values err)

pub sn_range :
    (fs : List Field) (ch : CommonHdr)
    → ch.sn < u32
    → All FieldInRange fs
    → (set_fields ch fs).sn < u32
sn_range [] ch small fits = small
sn_range (sn n ∷ fs) ch small fits = sn_range fs (set_field ch (sn n)) fits.0 fits.1
sn_range (req b ∷ fs) ch small fits = sn_range fs (set_field ch (req b)) small fits.1
sn_range (noti b ∷ fs) ch small fits = sn_range fs (set_field ch (noti b)) small fits.1

module _ ⦃alloc : Allocator⦄ (granted : (n : ℕ) → alloc.grants n ≡ true) where
  pub reply_start_lem :
      (obuf : ZBuf) (app_type : ℕ) (ch : CommonHdr)
      → IsValid obuf
      → obuf.len ≡ 0
      → ch.sn < u32
      → (o : ZBuf) × (start_reply obuf app_type ch ≡ some o)
        × IsValid o
        × (contents o ≡ reply_start app_type ch.sn)
        × (o.len < 100)
  unfolding start_reply
  reply_start_lem obuf app_type ch valid empty small =
      let (o1, run, valid1, holds, size, at) =
        parse_init_buf_lem granted obuf valid app_type empty in
      let (o, run', a) =
        put_reply_commonhdr_lem granted o1 valid1 ch true small (omega (arith, size)) in
      let few = length-counted_bytes 2 (hdr_values ch.sn true) in
      (
        o,
        rw (run, ◌>>=◌) run',
        a.valid,
        a.written ∙ ap (λ l. l ++ counted_bytes 2 (hdr_values ch.sn true)) holds,
        omega (arith, a.longer, size, few),
      )

  -- The reply but for the answer.
  payload_lem :
      (s : Server) (v obuf : ZBuf) (fs : List Field) (r : RequestBody)
      → IsServer s
      → IsValid v
      → v.len < 2 ^ 31
      → length fs < u32
      → All FieldInRange fs
      → (set_fields no_hdr fs).req ≡ true
      → IsRequest r
      → unread v ≡ hdr_bytes fs ++ request_bytes r
      → IsValid obuf
      → obuf.len ≡ 0
      → (o : ZBuf) × IsValid o
        × (contents o ≡ reply_start type_default (set_fields no_hdr fs).sn)
        × (o.len < 100)
        × (parse_payload s type_default v obuf
            ≡ (reference_answer (skip v (length (hdr_bytes fs))) r s o >>= λ a. end_reply a))
  unfolding parse_payload parse_app_default
  payload_lem s v obuf fs r h valid short few fits asks q at valid' empty =
      let ch = set_fields no_hdr fs in
      let w = skip v (length (hdr_bytes fs)) in
      let header = parse_common_hdr-hdr_bytes fs v (request_bytes r) valid short few fits at in
      let (o, run, valid_o, holds, size) =
        reply_start_lem obuf type_default ch valid' empty (sn_range fs no_hdr (omega arith) fits) in
      let (answer, _, _) =
        parse_request-reference_answer w r s o h
          (skip-IsValid v valid (hdr_bytes fs) (request_bytes r) at) short q
          (unread-skip v valid (hdr_bytes fs) (request_bytes r) at) in
      (o, valid_o, holds, size, rw (header, ◌>>=◌, asks, run, answer))

  end_reply_lem :
      (v o : ZBuf) (err : ZcrtErr)
      → IsValid o
      → o.len + 100 < 2 ^ 31
      → is_success err ≡ false
      → (o' : ZBuf) × (end_reply (v, o, err) ≡ some (v, o', err))
        × Appended o (counted_bytes 1 (err_values err)) o'
  unfolding end_reply
  end_reply_lem v o err valid size fails =
      let (o', run, a) = put_reply_errcode_lem granted o valid err (omega arith) in
      (o', rw (fails, run, ◌>>=◌), a)

  end_any_lem :
      (v o : ZBuf) (err : ZcrtErr)
      → IsValid o
      → o.len + 100 < 2 ^ 31
      → (o' : ZBuf) × (end_reply (v, o, err) ≡ some (v, o', err))
        × IsValid o'
        × (contents o' ≡ contents o ++ errcode_bytes err)
  unfolding end_reply
  end_any_lem v o err valid room = elim (Bool-cases (is_success err)) [
    | inl fine ↦ (o, rw fine refl, valid, rw fine (sym (append-nil (contents o))))
    | inr fails ↦
        let (o', run, a) = end_reply_lem v o err valid room fails in
        (o', run, a.valid, rw fails a.written)
  ]

  -- A message that asks for a reply: behind the header, in a well-formed buffer of less than 2 ^ 31
  -- bytes, stand a common header whose fields set `req`, and a request. The server and the empty reply
  -- buffer are well formed, libc grants every request, and `answer` is what the handler that the
  -- tables of the server name does with the reply buffer (or `ipc_no_module` or `ipc_no_act`, where
  -- there is none), when the header of a message and the common header with the number of the request
  -- stand in it; it leaves a well-formed buffer of less than 2 ^ 31 - 100 bytes. Then
  -- `zipc_parse_payload` returns with the result of this answer, and its reply is what the answer left
  -- in the buffer, with the error code behind it if, and only if, the result is an error.
  pub parse_payload-reference_answer :
      (s : Server) (v obuf : ZBuf) (fs : List Field) (r : RequestBody)
      (answer : ZBuf → ZBuf × ZBuf × ZcrtErr)
      → IsServer s
      → IsValid v
      → v.len < 2 ^ 31
      → length fs < u32
      → All FieldInRange fs
      → (set_fields no_hdr fs).req ≡ true
      → IsRequest r
      → unread v ≡ hdr_bytes fs ++ request_bytes r
      → IsValid obuf
      → obuf.len ≡ 0
      → ((o : ZBuf)
          → IsValid o
          → contents o ≡ reply_start type_default (set_fields no_hdr fs).sn
          → o.len < 100
          → (reference_answer (skip v (length (hdr_bytes fs))) r s o ≡ some (answer o))
            × IsValid (answer o).1
            × ((answer o).1.len + 100 < 2 ^ 31))
      → (o reply : ZBuf) × (contents o ≡ reply_start type_default (set_fields no_hdr fs).sn)
        × (parse_payload s type_default v obuf ≡ some ((answer o).0, reply, (answer o).2))
        × IsValid reply
        × (contents reply ≡ contents (answer o).1 ++ errcode_bytes (answer o).2)
  parse_payload-reference_answer s v obuf fs r answer h valid short few fits asks q at valid' empty
        answers =
      let (o, valid_o, holds, size, run) =
        payload_lem s v obuf fs r h valid short few fits asks q at valid' empty in
      let (answered, valid_a, room) = answers o valid_o holds size in
      let (reply, ended, valid_r, now) =
        end_any_lem (answer o).0 (answer o).1 (answer o).2 valid_a room in
      (o, reply, holds, run ∙ ap (λ a. a >>= λ b. end_reply b) answered ∙ ended, valid_r, now)

  -- Under the same conditions, if no component of the server has the name in the request, the result
  -- is `ipc_no_module`, and the reply is the header of a message, the common header with the number
  -- of the request, and the error code, and nothing else.
  pub parse_payload-no_module :
      (s : Server) (v obuf : ZBuf) (fs : List Field) (r : RequestBody)
      → IsServer s
      → IsValid v
      → v.len < 2 ^ 31
      → length fs < u32
      → All FieldInRange fs
      → (set_fields no_hdr fs).req ≡ true
      → IsRequest r
      → unread v ≡ hdr_bytes fs ++ request_bytes r
      → IsValid obuf
      → obuf.len ≡ 0
      → find_named r.comp (hash_enumerate s.modlist) ≡ none
      → (v' o : ZBuf) × (parse_payload s type_default v obuf ≡ some (v', o, ipc_no_module))
        × IsValid o
        × (contents o
            ≡ reply_start type_default (set_fields no_hdr fs).sn
              ++ counted_bytes 1 (err_values ipc_no_module))
  parse_payload-no_module s v obuf fs r h valid short few fits asks q at valid' empty unknown =
      let (o, valid_o, holds, size, run) =
        payload_lem s v obuf fs r h valid short few fits asks q at valid' empty in
      let w = skip v (length (hdr_bytes fs)) in
      let (o', run', a) =
        end_reply_lem (names_end w r) o ipc_no_module valid_o (omega (arith, size)) refl in
      let answer : reference_answer w r s o ≡ some (names_end w r, o, ipc_no_module) =
        ap (λ m. answer_in w r s m o) unknown in
      (
        names_end w r,
        o',
        run ∙ ap (λ a. a >>= λ b. end_reply b) answer ∙ run',
        a.valid,
        a.written ∙ ap (λ l. l ++ counted_bytes 1 (err_values ipc_no_module)) holds,
      )
