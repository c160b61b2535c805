-- ===== src/Ipc/Comp.antt =====
-- zipc/zipc_parse.c, zipc/zipc_server.c and zipc/zipc_server.h: components, which are named handlers
-- of requests, and the tables of components. A C string is its bytes before the 0; an array
-- `char name[64]` that ends in a 0 is the string in it.
pub mod Names
pub mod Tables
use zcrt.Base.{
  ltb, leb, ◌==◌, if◌then◌else◌, Run, ◌>>=◌, length, get_or, take, ℕ, ◌+◌, ◌-◌, ◌%◌, Bool, Option,
  none, some, List, [], ◌∷◌,
}
use Prim.Native.Nat.{Ordering, lt, eq, gt}
use zcrt.Err.{ZcrtErr, success, param_err, existed}
use zcrt.Buf.{ZBuf, u32}
use zcrt.Hash.{ZHash, hash_new, hash_add, hash_remove, hash_lookup}

abbrev pub name_len : ℕ
name_len = 64

-- `ZIPC_CALL`: the component's address, the request to be read and the reply to be written.
abbrev pub Call : Type 0
Call = ℕ → ZBuf → ZBuf → Run (ZBuf × ZBuf × ZcrtErr)

-- `ZIPCComp`, with the address of its block. Its table of components is in the state of the server.
pub record Comp : Type 0 where
  pub addr : ℕ
  pub name : List ℕ
  pub call : Option Call

-- A `char` as the bits that it adds to a uint32_t.
abbrev pub char_bits : ℕ → ℕ
char_bits c = if ltb c 128 then c else c + (u32 - 256)

-- `for (;*name; ++name, key+=*name);`: the name is moved on before its character is added.
unfoldable pub add_chars : List ℕ → ℕ → ℕ
add_chars [] key = key
add_chars (c ∷ cs) key = add_chars cs ((key + char_bits (get_or cs 0 0)) % u32)

unfoldable pub component_hash_key : Comp → ℕ
component_hash_key comp = add_chars comp.name 0

-- strcmp of the C library.
unfoldable pub strcmp : List ℕ → List ℕ → Ordering
strcmp [] [] = eq
strcmp [] (y ∷ ys) = lt
strcmp (x ∷ xs) [] = gt
strcmp (x ∷ xs) (y ∷ ys) =
    let rest = strcmp xs ys in if x == y then rest else if ltb x y then lt else gt

abbrev pub order_int : Ordering → ℕ
order_int lt = u32 - 1
order_int eq = 0
order_int gt = 1

unfoldable pub component_hash_cmp : Comp → Comp → ℕ
component_hash_cmp c1 c2 = order_int (strcmp c1.name c2.name)

-- The string at the start of some bytes that are followed by a 0.
unfoldable pub c_string : List ℕ → List ℕ
c_string [] = []
c_string (c ∷ cs) = let rest = c_string cs in if c == 0 then [] else c ∷ rest

-- Copied into a cleared array; `none` if the copy reads past the end of the block.
unfoldable pub component_setlname : Comp → List ℕ → ℕ → Run Comp
component_setlname comp name len =
    let n = if leb name_len len then name_len - 1 else len in
    if leb n (length name) then some (record comp { name = c_string (take n name) }) else none

-- The component that a name is looked up with.
abbrev pub probe : Comp
probe = record { addr = 0; name = []; call = none }

unfoldable pub lookup_comp : Option (ZHash Comp) → Option (List ℕ) → ℕ → Run (Option Comp)
lookup_comp none compname complen = some none
lookup_comp (some complist) none complen = some none
lookup_comp (some complist) (some compname) complen = do
  src ← component_setlname probe compname complen
  hash_lookup complist src

-- `ZIPC_ENCODE_FN`: the event, its data, and the buffer; it returns 0 when it has written the data.
abbrev pub Encoder : Type 0
Encoder = ℕ → ℕ → ZBuf → Run (ZBuf × ℕ)

-- `ZIPCModule`, and for each component the table `apilist` at its address. The mutex that guards
-- `freebuf` makes each function one step, so it has no field.
pub record Server : Type 0 where
  pub modlist : ZHash Comp
  pub apilist : ℕ → Option (ZHash Comp)
  pub evt_encode : Option Encoder
  pub freebuf : List ZBuf

abbrev pub set_apilist : Server → ℕ → Option (ZHash Comp) → Server
set_apilist s addr table = record s { apilist = λ a. if a == addr then table else s.apilist a }

-- The blocks that malloc returns, at `addr`, are not tested.
unfoldable pub component_new : Server → ℕ → List ℕ → Option Call → Bool → Run (Server × Comp)
component_new s addr name call granted =
    let n = if leb name_len (length name) then name_len - 1 else length name in
    hash_new 32 (some component_hash_key) (some component_hash_cmp) granted >>= λ table.
    some (set_apilist s addr table, record { addr = addr; name = take n name; call = call })

-- `zcrt_hash_add` on a table that may be NULL.
unfoldable pub add_comp : Option (ZHash Comp) → Comp → Bool → Run (Option (ZHash Comp))
add_comp none comp granted = some none
add_comp (some table) comp granted = hash_add table comp granted >>= λ table'. some (some table')

-- `none` is NULL. The name of a component is passed on with its terminating 0 behind it.
unfoldable pub component_register :
    Server → Option Comp → Option Comp → Bool → Run (Server × ZcrtErr)
component_register s none sub granted = some (s, param_err)
component_register s (some comp) none granted = some (s, param_err)
component_register s (some comp) (some sub) granted =
    lookup_comp (s.apilist comp.addr) (some sub.name) (length sub.name) >>= λ found. elim found [
      | some other ↦ some (s, existed)
      | none ↦ add_comp (s.apilist comp.addr) sub granted >>= λ table.
          some (set_apilist s comp.addr table, success)
    ]

unfoldable pub server_register : Server → Option Comp → Bool → Run (Server × ZcrtErr)
server_register s none granted = some (s, param_err)
server_register s (some comp) granted =
    lookup_comp (some s.modlist) (some comp.name) (length comp.name) >>= λ found. elim found [
      | some other ↦ some (s, existed)
      | none ↦ hash_add s.modlist comp granted >>= λ modlist.
          some (record s { modlist = modlist }, success)
    ]

unfoldable pub server_unregister : Server → Option Comp → Run Server
server_unregister s none = some s
server_unregister s (some comp) =
    hash_remove s.modlist comp >>= λ modlist. some (record s { modlist = modlist })

unfoldable pub server_set_event_encode : Server → Option Encoder → Server
server_set_event_encode s fn = record s { evt_encode = fn }

abbrev pub server_get_event_encode : Server → Option Encoder
server_get_event_encode s = s.evt_encode
