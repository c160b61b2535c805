-- ===== src/Ipc/Request/Body.antt =====
-- zipc/zipc_parse.c: reading the names of the component and of the action.
use zcrt.Base.{ltb, leb, ◌>>=◌, length, ℕ, ◌^◌, ◌≤◌, ◌<◌, ◌≡◌, false, some, List, ◌++◌, arith}
use zcrt.Tlv.Value.Texts.{Shows, str_bytes}
use zcrt.Tlv.Value.Scalars.{int_bytes}
use zcrt.Tlv.Value.Message.{Gets, Gets_lem, InRange, Value, bytes_of}
use zcrt.Tlv.Len.Read.{get_len-groups}
use zcrt.Tlv.Len.Groups.{groups}
use zcrt.Ipc.Request.{get_name, parse_body_info}
use zcrt.Ipc.Comp.{name_len}
use zcrt.Buf.Reading.{skip, skip-IsValid, unread-skip}
use zcrt.Buf.{IsValid, ZBuf, ZStr, u32, unread}
use zcrt.Tlv.Value.Message.{int, text}

-- The buffer after a value has been read.
abbrev pub past : ZBuf → Value → ZBuf
past v x = skip v (length (bytes_of x))

-- A value stands at the read position of a well-formed buffer of less than 2 ^ 31 bytes.
pub record At (v : ZBuf) (x : Value) (rest : List ℕ) : Type 0 where
  pub valid : IsValid v
  pub short : v.len < 2 ^ 31
  pub range : InRange x
  pub here : unread v ≡ bytes_of x ++ rest

pub At-Gets : {v : ZBuf} {x : Value} {rest : List ℕ} → At v x rest → Gets v x (past v x)
At-Gets {v} {x} {rest} h = Gets_lem v x rest h.valid h.short h.range h.here

pub At-next :
    {v : ZBuf} {x y : Value} {rest : List ℕ}
    → At v x (bytes_of y ++ rest)
    → InRange y
    → At (past v x) y rest
At-next {v} {x} {y} {rest} h range = record {
  valid = skip-IsValid v h.valid (bytes_of x) (bytes_of y ++ rest) h.here;
  short = h.short;
  range = range;
  here = unread-skip v h.valid (bytes_of x) (bytes_of y ++ rest) h.here;
}

get_name-Gets :
    {v : ZBuf} {s rest : List ℕ}
    → At v (text s) rest
    → length s < name_len
    → (name : ZStr) × (get_name v ≡ some (past v (text s), some name)) × Shows v.buf name s
unfolding get_name
get_name-Gets {v} {s} h short =
    let (name, run, shows) = At-Gets h in
    let fits : leb name_len (length s) ≡ false = ground arith in
    let size : name.len ≡ length s = shows.2 in (name, rw (run, ◌>>=◌, size, fits), shows)

-- A count of at least 3, a number, the name of a component, a number, and the name of an action.
abbrev pub body_bytes : ℕ → ℕ → List ℕ → ℕ → List ℕ → List ℕ → List ℕ
body_bytes cnt i comp j action rest =
    groups 4 cnt ++ (int_bytes i ++ (str_bytes comp ++ (int_bytes j ++ (str_bytes action ++ rest))))

module _ (v : ZBuf) (cnt i : ℕ) (comp : List ℕ) (j : ℕ) (action rest : List ℕ) where
  -- The buffer behind the name of the action.
  abbrev pub body_end : ZBuf
  body_end =
      past (past (past (past (skip v (length (groups 4 cnt))) (int i)) (text comp)) (int j))
        (text action)

  pub parse_body_info-Gets :
      IsValid v
      → v.len < 2 ^ 31
      → 3 ≤ cnt
      → cnt < u32
      → i < u32
      → j < u32
      → length comp < name_len
      → length action < name_len
      → unread v ≡ body_bytes cnt i comp j action rest
      → (c a : ZStr) × (parse_body_info v ≡ some (body_end, some (c, a)))
        × Shows v.buf c comp
        × Shows v.buf a action
        × IsValid body_end
        × (unread body_end ≡ rest)
  unfolding parse_body_info
  parse_body_info-Gets valid short many cnt_small i_small j_small comp_short action_short at =
      let tail4 = str_bytes action ++ rest in
      let tail3 = int_bytes j ++ tail4 in
      let tail2 = str_bytes comp ++ tail3 in
      let tail1 = int_bytes i ++ tail2 in
      let v0 = skip v (length (groups 4 cnt)) in
      let h1 : At v0 (int i) tail2 = record {
        valid = skip-IsValid v valid (groups 4 cnt) tail1 at;
        short = short;
        range = i_small;
        here = unread-skip v valid (groups 4 cnt) tail1 at;
      } in
      let h2 : At (past v0 (int i)) (text comp) tail3 = At-next {y = text comp} h1 (omega arith) in
      let h3 : At (past (past v0 (int i)) (text comp)) (int j) tail4 =
        At-next {y = int j} h2 j_small in
      let h4 : At (past (past (past v0 (int i)) (text comp)) (int j)) (text action) rest =
        At-next {y = text action} h3 (omega arith) in
      let (c, run2, shows) = get_name-Gets h2 comp_short in
      let (a, run4, shows') = get_name-Gets h4 action_short in
      let enough : ltb cnt 3 ≡ false = ground arith in
      (
        c,
        a,
        rw (
          get_len-groups v cnt tail1 valid short cnt_small at,
          ◌>>=◌,
          enough,
          At-Gets h1,
          run2,
          At-Gets h3,
          run4,
        ),
        shows,
        shows',
        skip-IsValid (past (past (past v0 (int i)) (text comp)) (int j)) h4.valid (str_bytes action)
            rest h4.here,
        unread-skip (past (past (past v0 (int i)) (text comp)) (int j)) h4.valid (str_bytes action)
            rest h4.here,
      )
