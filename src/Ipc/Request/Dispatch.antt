-- ===== src/Ipc/Request/Dispatch.antt =====
-- zipc/zipc_parse.c: which handler answers a request.
use zcrt.Base.{
  Option-cases, Run, ◌>>=◌, length, drop, length-take, All, ℕ, ◌^◌, ◌≤◌, ◌<◌, ◌≡◌, refl, ap, inl,
  inr, Option, none, some, List, [], ◌∷◌, ◌++◌, arith,
}
use zcrt.Ipc.Request.{call_found}
use zcrt.Tlv.Value.Scalars.{get_int_lem, int_bytes}
use zcrt.Tlv.Value.Cursor.{get_type_lem, skip_one-IsValid, unread-skip_one}
use zcrt.Ipc.Request.Body.{body_bytes, body_end, parse_body_info-Gets, past}
use zcrt.Ipc.Request.{call_with_args, parse_request}
use zcrt.Err.{ipc_no_module}
use zcrt.Buf.Reading.{skip, skip-IsValid, unread-skip}
use zcrt.Buf.{IsValid, u32, unread}
use zcrt.Ipc.Comp.{Call}
use zcrt.Tlv.Value.Message.{int}
use zcrt.Tlv.Ty
use zcrt.Tlv.Value.Texts.{Shows}
use zcrt.Text.Equal.{NonZero}
use zcrt.Ipc.Request.{call_comp, comp_call}
use zcrt.Ipc.Header.{text_bytes}
use zcrt.Ipc.Comp.Tables.{IsServer, IsTable, find_named, lookup_comp-named}
use zcrt.Ipc.Comp.{Comp, Server, lookup_comp, name_len}
use zcrt.Hash.{ZHash, hash_enumerate}
use zcrt.Err.{ZcrtErr, ipc_no_act}
use zcrt.Buf.{ZBuf, ZStr}

-- A lookup by a name that was read from a buffer.
lookup_comp-Shows :
    (t : ZHash Comp) (v : ZBuf) (key : ZStr) (name : List ℕ)
    → IsTable t
    → Shows v.buf key name
    → All NonZero name
    → length name < name_len
    → lookup_comp (some t) (text_bytes v key) key.len ≡ some (find_named name (hash_enumerate t))
lookup_comp-Shows t v key name h (p, at, size, shown) nonzero short =
    let ptr = drop p v.buf in
    let inside : length name ≤ length ptr =
      omega (arith, ap length shown, length-take (length name) ptr) in
    rw (at, size) (lookup_comp-named t ptr name h nonzero short inside shown)

-- The first component of the name in a table that may be NULL.
abbrev pub find_in : List ℕ → Option (ZHash Comp) → Option Comp
find_in name none = none
find_in name (some t) = find_named name (hash_enumerate t)

abbrev pub call_in : Option Comp → Option Call
call_in none = none
call_in (some api) = api.call

-- The handler of an action of a component.
abbrev pub handler_of : Server → Comp → List ℕ → Option Call
handler_of s comp action = call_in (find_in action (s.apilist comp.addr))

-- The answer by the handler, if there is one.
abbrev pub answer_by : Comp → Option Call → ZBuf → ZBuf → Run (ZBuf × ZBuf × ZcrtErr)
answer_by comp none ibuf obuf = some (ibuf, obuf, ipc_no_act)
answer_by comp (some call) ibuf obuf = call comp.addr ibuf obuf

call_comp_lem :
    (comp : Comp) (v obuf : ZBuf) (api : Option Comp)
    → call_comp comp api v obuf ≡ answer_by comp (call_in api) v obuf
unfolding call_comp
call_comp_lem comp v obuf none = refl
call_comp_lem comp v obuf (some api) = elim (Option-cases api.call) [
  | inl null ↦ rw null
  | inr (call, is) ↦ rw is
]

comp_call_lem :
    (s : Server) (comp : Comp) (v obuf : ZBuf) (key : ZStr) (action : List ℕ)
    → IsServer s
    → Shows v.buf key action
    → All NonZero action
    → length action < name_len
    → comp_call s (some comp) key v obuf ≡ answer_by comp (handler_of s comp action) v obuf
unfolding comp_call lookup_comp call_comp
comp_call_lem s comp v obuf key action h shows nonzero short =
    elim (Option-cases (s.apilist comp.addr)) [
      | inl missing ↦ rw (missing, ◌>>=◌) (call_comp_lem comp v obuf none)
      | inr (t, there) ↦
          let found =
            lookup_comp-Shows t v key action (h.apis comp.addr t there) shows nonzero short in
          rw (there, found, ◌>>=◌)
            (call_comp_lem comp v obuf (find_named action (hash_enumerate t)))
    ]

-- The parts of a request: the count of the entries, the numbers of the first three, the names of the
-- component and of the action, and what stands in the table of the arguments.
pub record RequestBody : Type 0 where
  pub cnt : ℕ
  pub first : ℕ
  pub comp : List ℕ
  pub second : ℕ
  pub action : List ℕ
  pub third : ℕ
  pub args : List ℕ

-- There are three entries, the numbers have their width, and the names have at most 63 bytes, none
-- of which is 0.
pub record IsRequest (r : RequestBody) : Type 0 where
  pub many : 3 ≤ r.cnt
  pub cnt_range : r.cnt < u32
  pub first_range : r.first < u32
  pub second_range : r.second < u32
  pub third_range : r.third < u32
  pub comp_text : All NonZero r.comp
  pub action_text : All NonZero r.action
  pub comp_short : length r.comp < name_len
  pub action_short : length r.action < name_len

abbrev pub third_bytes : RequestBody → List ℕ
third_bytes r = int_bytes r.third ++ (Ty.table ∷ r.args)

abbrev pub request_bytes : RequestBody → List ℕ
request_bytes r = body_bytes r.cnt r.first r.comp r.second r.action (third_bytes r)

module _ (v : ZBuf) (r : RequestBody) where
  -- The buffer behind the name of the action, and behind the type byte of the arguments.
  abbrev pub names_end : ZBuf
  names_end = body_end v r.cnt r.first r.comp r.second r.action []

  abbrev pub args_at : ZBuf
  args_at = skip (past names_end (int r.third)) 1

  -- The answer to the request by the tables of the server.
  abbrev pub answer_in : Server → Option Comp → ZBuf → Run (ZBuf × ZBuf × ZcrtErr)
  answer_in s none obuf = some (names_end, obuf, ipc_no_module)
  answer_in s (some c) obuf = answer_by c (handler_of s c r.action) args_at obuf

  abbrev pub reference_answer : Server → ZBuf → Run (ZBuf × ZBuf × ZcrtErr)
  reference_answer s obuf = answer_in s (find_named r.comp (hash_enumerate s.modlist)) obuf

  call_found_lem :
      (s : Server) (obuf : ZBuf) (a : ZStr)
      → ((c : Comp)
          → call_with_args s c a names_end obuf
            ≡ answer_by c (handler_of s c r.action) args_at obuf)
      → (m : Option Comp) → call_found s m a names_end obuf ≡ answer_in s m obuf
  unfolding call_found
  call_found_lem s obuf a called none = refl
  call_found_lem s obuf a called (some c) = called c

  -- Where the bytes of a request stand at the read position of a well-formed buffer of less than
  -- 2 ^ 31 bytes (with three entries or more, and names of at most 63 bytes, none of which is 0),
  -- `zipc_parse_request` answers as the tables of a well-formed server say: `ipc_no_module` if no component has the first name,
  -- `ipc_no_act` if the component's table has no component of the second name or that one has no
  -- handler, and otherwise the result of that handler, called with the component, with the reply
  -- buffer, and with the read position just behind the type byte of the arguments.
  pub parse_request-reference_answer :
      (s : Server) (obuf : ZBuf)
      → IsServer s
      → IsValid v
      → v.len < 2 ^ 31
      → IsRequest r
      → unread v ≡ request_bytes r
      → (parse_request s v obuf ≡ reference_answer s obuf)
        × IsValid args_at
        × (unread args_at ≡ r.args)
  unfolding parse_request call_with_args
  parse_request-reference_answer s obuf h valid short q at =
      let (c, a, run, shows, shows', valid', at') =
        parse_body_info-Gets v r.cnt r.first r.comp r.second r.action (third_bytes r) valid short
          q.many q.cnt_range q.first_range q.second_range q.comp_short q.action_short at in
      let w = past names_end (int r.third) in
      let got = get_int_lem names_end valid' short (Ty.table ∷ r.args) r.third q.third_range at' in
      let valid'' : IsValid w =
        skip-IsValid names_end valid' (int_bytes r.third) (Ty.table ∷ r.args) at' in
      let at'' : unread w ≡ Ty.table ∷ r.args =
        unread-skip names_end valid' (int_bytes r.third) (Ty.table ∷ r.args) at' in
      let ty = get_type_lem w Ty.table r.args valid'' at'' in
      let found =
        lookup_comp-Shows s.modlist names_end c r.comp h.modules shows q.comp_text q.comp_short in
      (
        rw (run, ◌>>=◌, found)
            (call_found_lem s obuf a
              (λ m.
                rw (got, ty, ◌>>=◌)
                  (comp_call_lem s m args_at obuf a r.action h shows' q.action_text q.action_short))
              (find_named r.comp (hash_enumerate s.modlist))),
        skip_one-IsValid w Ty.table r.args valid'' at'',
        unread-skip_one w Ty.table r.args valid'' at'',
      )
