-- ===== src/Ipc/Comp/Names.antt =====
-- zipc/zipc_parse.c: names of components, and the two functions that their tables are made with.
use zcrt.Base.{
  ltb, leb, ◌==◌, if◌then◌else◌, Bool-cases, length, take, All, ℕ, ◌≤◌, ◌<◌, ◌≡◌, refl, ap, ◌∙◌,
  ◌↔◌, inl, inr, Bool, true, false, some, List, [], ◌∷◌, ◌++◌, arith,
}
use zcrt.Text.Equal.{NonZero}
use Prim.Native.Nat.{lt, eq, gt}
use zcrt.Ipc.Comp.{
  Comp, name_len, add_chars, strcmp, order_int, component_hash_key, component_hash_cmp, c_string,
  component_setlname,
}

strcmp-same : (xs : List ℕ) → strcmp xs xs ≡ eq
unfolding strcmp
strcmp-same [] = refl
strcmp-same (x ∷ xs) = let self : (x == x) ≡ true = ground arith in rw self (strcmp-same xs)

strcmp-eq : (xs ys : List ℕ) → order_int (strcmp xs ys) ≡ 0 → xs ≡ ys
unfolding strcmp
strcmp-eq [] [] e = refl
strcmp-eq [] (y ∷ ys) e = absurd (omega arith)
strcmp-eq (x ∷ xs) [] e = absurd (omega arith)
strcmp-eq (x ∷ xs) (y ∷ ys) e = elim (Bool-cases (x == y)) [
  | inl same ↦
      let head : x ≡ y = ground arith in
      let e' : order_int (strcmp xs ys) ≡ 0 = rw (same) at e in
      rw head (ap (λ l. y ∷ l) (strcmp-eq xs ys e'))
  | inr other ↦ not_same (ltb x y) (rw other at e)
]
  where
    not_same : {P : Type 0} (b : Bool) → order_int (if b then lt else gt) ≡ 0 → P
    not_same true e = absurd (omega arith)
    not_same false e = absurd (omega arith)

-- Two components compare equal exactly if they have the same name.
pub component_hash_cmp-name : (c1 c2 : Comp) → (component_hash_cmp c1 c2 ≡ 0) ↔ (c1.name ≡ c2.name)
unfolding component_hash_cmp
component_hash_cmp-name c1 c2 = (
  (λ e. strcmp-eq c1.name c2.name e),
  (λ e. ap (λ n. order_int (strcmp n c2.name)) e ∙ ap order_int (strcmp-same c2.name)),
)

pub component_hash_key-cmp :
    (c1 c2 : Comp) → component_hash_cmp c1 c2 ≡ 0 → component_hash_key c1 ≡ component_hash_key c2
unfolding component_hash_key
component_hash_key-cmp c1 c2 e = ap (λ n. add_chars n 0) ((component_hash_cmp-name c1 c2).0 e)

pub c_string-NonZero : (xs ys : List ℕ) → All NonZero xs → c_string (xs ++ (0 ∷ ys)) ≡ xs
unfolding c_string
c_string-NonZero [] ys h = refl
c_string-NonZero (x ∷ xs) ys h =
    let given = h.0 in
    let nonzero : (x == 0) ≡ false = ground arith in
    rw nonzero (ap (λ l. x ∷ l) (c_string-NonZero xs ys h.1))

c_string_all : (xs : List ℕ) → All NonZero xs → c_string xs ≡ xs
unfolding c_string
c_string_all [] h = refl
c_string_all (x ∷ xs) h =
    let given = h.0 in
    let nonzero : (x == 0) ≡ false = ground arith in
    rw nonzero (ap (λ l. x ∷ l) (c_string_all xs h.1))

-- A name of at most 63 bytes, none of which is 0, arrives whole, whatever stands behind it.
pub component_setlname_whole :
    (comp : Comp) (ptr name : List ℕ)
    → All NonZero name
    → length name < name_len
    → length name ≤ length ptr
    → take (length name) ptr ≡ name
    → component_setlname comp ptr (length name) ≡ some (record comp { name = name })
unfolding component_setlname
component_setlname_whole comp ptr name h short inside at =
    let fits : leb name_len (length name) ≡ false = ground arith in
    let readable : leb (length name) (length ptr) ≡ true = ground arith in
    rw (fits, readable, at, c_string_all name h) refl
