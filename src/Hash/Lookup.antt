-- ===== src/Hash/Lookup.antt =====
-- zcrtlib/zhash.c, `zcrt_hash_lookup`: the table against a search through all the data.
use zcrt.Base.{
  ◌==◌, Bool-cases, ◌>>=◌, length, get_or, All, All-append, All-map, ℕ, zero, suc, ◌%◌, ◌<◌, ◌≡◌,
  refl, sym, ap, ◌∙◌, ◌≢◌, inl, inr, false, some, List, [], ◌∷◌, ◌++◌, arith,
}
use zcrt.Hash.{ZHash, hash_getnode, find_node, hash_lookup, chains_data, hash_enumerate}
use zcrt.Hash.Chains.{IsValid, SameKey, bucket_lem}

module _ {ℓ} {A : Type ℓ} (cmp : A → A → ℕ) (d : A) where
  abbrev Differs : A → Type 0
  Differs x = cmp x d ≢ 0

  find_node-Differs_front :
      (xs ys : List A) → All Differs xs → find_node cmp d (xs ++ ys) ≡ find_node cmp d ys
  unfolding find_node
  find_node-Differs_front [] ys h = refl
  find_node-Differs_front (x ∷ xs) ys h =
      let differs = h.0 in
      let other : (cmp x d == 0) ≡ false = ground arith in
      rw other (find_node-Differs_front xs ys h.1)

  find_node-Differs_back :
      (xs ys : List A) → All Differs ys → find_node cmp d (xs ++ ys) ≡ find_node cmp d xs
  unfolding find_node
  find_node-Differs_back [] [] h = refl
  find_node-Differs_back [] (y ∷ ys) h =
      let differs = h.0 in
      let other : (cmp y d == 0) ≡ false = ground arith in
      rw other (find_node-Differs_back [] ys h.1)
  find_node-Differs_back (x ∷ xs) ys h = elim (Bool-cases (cmp x d == 0)) [
    | inl same ↦ rw same
    | inr other ↦ rw other (find_node-Differs_back xs ys h)
  ]

  All-chains :
      (ls : List (List A)) → ((i : ℕ) → All Differs (get_or ls i [])) → All Differs (chains_data ls)
  unfolding chains_data
  All-chains [] h = tt
  All-chains (l ∷ ls) h = All-append Differs l _ (h 0) (All-chains ls (λ i. h (suc i)))

  -- Only the chain `b` can have what is looked for.
  one_chain :
      (ls : List (List A)) (b : ℕ)
      → b < length ls
      → ((i : ℕ) → b ≢ i → All Differs (get_or ls i []))
      → find_node cmp d (chains_data ls) ≡ find_node cmp d (get_or ls b [])
  unfolding chains_data
  one_chain [] b inside h = absurd (omega arith)
  one_chain (l ∷ ls) zero inside h =
      find_node-Differs_back l _ (All-chains ls (λ i. h (suc i) (omega arith)))
  one_chain (l ∷ ls) (suc b) inside h =
      find_node-Differs_front l _ (h 0 (omega arith))
      ∙ one_chain ls b (omega arith) (λ i apart. h (suc i) (omega arith))

module _ {ℓ} {A : Type ℓ} where
  -- In a well-formed table whose callbacks give equal keys to data that compare equal,
  -- `zcrt_hash_lookup` returns what a search through all the data in the order of
  -- `zcrt_hash_enumerate` finds, and NULL if and only if that finds nothing.
  pub hash_lookup-hash_enumerate :
      (ht : ZHash A) (d : A)
      → IsValid ht
      → SameKey ht
      → hash_lookup ht d ≡ some (find_node ht.hash_cmp d (hash_enumerate ht))
  unfolding hash_lookup hash_getnode hash_enumerate
  hash_lookup-hash_enumerate ht d valid same_key =
      let (run, inside) = bucket_lem ht d valid in
      let b = ht.hash_key d % ht.size in
      let differs : (i : ℕ) → b ≢ i → All (λ x. ht.hash_cmp x d ≢ 0) (get_or ht.index i []) =
        λ i apart.
          All-map (λ x. ht.hash_key x % ht.size ≡ i) (λ x. ht.hash_cmp x d ≢ 0)
            (get_or ht.index i [])
            (λ x e same. apart (ap (λ k. k % ht.size) (sym (same_key x d same)) ∙ e))
            (valid.placed i) in
      rw (run, ◌>>=◌) (ap some (sym (one_chain ht.hash_cmp d ht.index b inside differs)))
