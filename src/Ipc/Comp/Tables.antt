-- ===== src/Ipc/Comp/Tables.antt =====
-- zipc/zipc_parse.c and zipc/zipc_server.c: registering a component and looking it up by its name.
use zcrt.Hash.Change.{hash_add_run}
use zcrt.Base.{
  ◌==◌, if◌then◌else◌, Option-cases, ◌>>=◌, length, take, take_all, All, ℕ, ◌≤◌, ◌<◌, ◌≡◌, refl,
  sym, ap, ◌∙◌, ◌⊎◌, inl, inr, true, Option, none, some, List, [], ◌∷◌, arith,
}
use zcrt.Ipc.Comp.{server_register}
use zcrt.Hash.Change.{added, added-IsValid, lookup-added}
use zcrt.Err.{existed, success}
use zcrt.Text.Equal.{NonZero}
use zcrt.Ipc.Comp.{Server}
use zcrt.Hash.{hash_lookup}
use zcrt.Ipc.Comp.Names.{component_hash_key-cmp, component_setlname_whole}
use zcrt.Ipc.Comp.{
  Comp, component_hash_cmp, component_hash_key, lookup_comp, name_len, order_int, probe, strcmp,
}
use zcrt.Hash.Lookup.{hash_lookup-hash_enumerate}
use zcrt.Hash.Chains.{IsValid, SameKey}
use zcrt.Hash.{ZHash, find_node, hash_enumerate}

-- A table made for components.
pub record IsTable (t : ZHash Comp) : Type 0 where
  pub valid : IsValid t
  pub keyed : t.hash_key ≡ component_hash_key
  pub compared : t.hash_cmp ≡ component_hash_cmp

IsTable-SameKey : (t : ZHash Comp) → IsTable t → SameKey t
IsTable-SameKey t h x y e =
    let e' : component_hash_cmp x y ≡ 0 = sym (ap (λ f. f x y) h.compared) ∙ e in
    ap (λ f. f x) h.keyed ∙ component_hash_key-cmp x y e' ∙ sym (ap (λ f. f y) h.keyed)

-- The first component of a list that has the name.
unfoldable pub find_named : List ℕ → List Comp → Option Comp
find_named name [] = none
find_named name (c ∷ cs) =
    let rest = find_named name cs in if order_int (strcmp c.name name) == 0 then some c else rest

find_node-named :
    (d : Comp) (cs : List Comp) → find_node component_hash_cmp d cs ≡ find_named d.name cs
unfolding find_node find_named component_hash_cmp
find_node-named d [] = refl
find_node-named d (c ∷ cs) =
    ap (λ r. if order_int (strcmp c.name d.name) == 0 then some c else r) (find_node-named d cs)

-- Looking up a name of at most 63 bytes, none of which is 0, in a table of components gives the
-- first component of that name among all those of the table, and NULL if there is none. The name is
-- `len` bytes from where its pointer points.
pub lookup_comp-named :
    (t : ZHash Comp) (ptr name : List ℕ)
    → IsTable t
    → All NonZero name
    → length name < name_len
    → length name ≤ length ptr
    → take (length name) ptr ≡ name
    → lookup_comp (some t) (some ptr) (length name) ≡ some (find_named name (hash_enumerate t))
unfolding lookup_comp
lookup_comp-named t ptr name h nonzero short inside at =
    let src = record probe { name = name } in
    rw (component_setlname_whole probe ptr name nonzero short inside at, ◌>>=◌)
      (hash_lookup-hash_enumerate t src h.valid (IsTable-SameKey t h)
        ∙ ap (λ f. some (find_node f src (hash_enumerate t))) h.compared
        ∙ ap some (find_node-named src (hash_enumerate t)))

-- The state of a server whose tables are tables of components.
pub record IsServer (s : Server) : Type 0 where
  pub modules : IsTable s.modlist
  pub apis : (addr : ℕ) (t : ZHash Comp) → s.apilist addr ≡ some t → IsTable t

lookup_comp-probe :
    (t : ZHash Comp) (name : List ℕ)
    → All NonZero name
    → length name < name_len
    → lookup_comp (some t) (some name) (length name) ≡ hash_lookup t (record probe { name = name })
unfolding lookup_comp
lookup_comp-probe t name nonzero short = rw (
  component_setlname_whole probe name name nonzero short (omega arith)
      (take_all (length name) name (omega arith)),
  ◌>>=◌,
)

added-IsTable : (t : ZHash Comp) (d : Comp) → IsTable t → IsTable (added t d)
added-IsTable t d h = record {
  valid = added-IsValid t d h.valid;
  keyed = h.keyed;
  compared = h.compared;
}

-- What a lookup finds after a component is added.
lookup_comp-added :
    (t : ZHash Comp) (d : Comp) (name : List ℕ)
    → IsTable t
    → All NonZero name
    → length name < name_len
    → lookup_comp (some (added t d)) (some name) (length name) ≡ (
        if order_int (strcmp d.name name) == 0
        then some (some d)
        else lookup_comp (some t) (some name) (length name))
unfolding component_hash_cmp
lookup_comp-added t d name h nonzero short =
    let src = record probe { name = name } in
    lookup_comp-probe (added t d) name nonzero short
    ∙ lookup-added t d src h.valid (IsTable-SameKey t h)
    ∙ ap (λ f. if f d src == 0 then some (some d) else hash_lookup t src) h.compared
    ∙ ap (λ r. if order_int (strcmp d.name name) == 0 then some (some d) else r)
        (sym (lookup_comp-probe t name nonzero short))

-- Registering a component whose name has at most 63 bytes, none of which is 0, with a well-formed
-- server, where malloc grants a node: if the server has a component of that name, the result is
-- `existed` and the server is unchanged. Otherwise the result is success, the server stays well
-- formed, the new component is found under its name, and every lookup under another name gives what
-- it gave before.
pub lookup_comp-server_register :
    (s : Server) (comp : Comp)
    → IsServer s
    → All NonZero comp.name
    → length comp.name < name_len
    → ((c : Comp) × (find_named comp.name (hash_enumerate s.modlist) ≡ some c)
        × (server_register s (some comp) true ≡ some (s, existed)))
      ⊎ ((s' : Server) × (find_named comp.name (hash_enumerate s.modlist) ≡ none)
          × (server_register s (some comp) true ≡ some (s', success))
          × IsServer s'
          × ((name : List ℕ)
              → All NonZero name
              → length name < name_len
              → lookup_comp (some s'.modlist) (some name) (length name) ≡ (
                  if order_int (strcmp comp.name name) == 0
                  then some (some comp)
                  else lookup_comp (some s.modlist) (some name) (length name))))
unfolding server_register
lookup_comp-server_register s comp h nonzero short =
    let name = comp.name in
    let found =
      lookup_comp-named s.modlist name name h.modules nonzero short (omega arith)
        (take_all (length name) name (omega arith)) in
    elim (Option-cases (find_named name (hash_enumerate s.modlist))) [
      | inl missing ↦ inr (
        record s { modlist = added s.modlist comp },
        missing,
        rw (found, missing, ◌>>=◌, hash_add_run s.modlist comp h.modules.valid),
        record { modules = added-IsTable s.modlist comp h.modules; apis = h.apis },
        λ other nonzero' short'. lookup_comp-added s.modlist comp other h.modules nonzero' short',
      )
      | inr (c, there) ↦ inl (c, there, rw (found, there, ◌>>=◌))
    ]
