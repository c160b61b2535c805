-- ===== src/Hash/Chains.antt =====
-- zcrtlib/zhash.c: the well-formed tables, and single chains.
use zcrt.Base.{
  ◌==◌, Bool-cases, ◌>>=◌, length, get_or, set, All, ℕ, zero, suc, ◌%◌, ◌≤◌, ◌<◌, ◌≡◌, refl, sym,
  ap, ◌∙◌, ◌≢◌, ◌⊎◌, inl, inr, false, none, some, List, [], ◌∷◌, ◌++◌, append_assoc, arith,
}
use zcrt.Buf.{u32}
use zcrt.Hash.{ZHash, bucket, unlink, find_node, chains_data}

-- Every node is in the chain of its key, and `count` counts the nodes.
pub record IsValid {ℓ} {A : Type ℓ} (ht : ZHash A) : Type ℓ where
  pub sized : length ht.index ≡ ht.size
  pub some_chain : 1 ≤ ht.size
  pub counted : ht.count ≡ length (chains_data ht.index) % u32
  pub placed : (i : ℕ) → All (λ x. ht.hash_key x % ht.size ≡ i) (get_or ht.index i [])

-- What the callers' functions promise: data that compare equal have the same key.
abbrev pub SameKey {ℓ} : {A : Type ℓ} → ZHash A → Type ℓ
SameKey {A = A} ht = (x y : A) → ht.hash_cmp x y ≡ 0 → ht.hash_key x ≡ ht.hash_key y

module _ {ℓ} {A : Type ℓ} where
  pub bucket_lem :
      (ht : ZHash A) (d : A)
      → IsValid ht
      → bucket ht d ≡ some (ht.hash_key d % ht.size) × (ht.hash_key d % ht.size < length ht.index)
  unfolding bucket
  bucket_lem ht d valid =
      let positive = valid.some_chain in
      let nonzero : (ht.size == 0) ≡ false = ground arith in
      (rw nonzero, omega (arith, valid.sized))

  -- One chain of the table, and the number of nodes after it is replaced.
  pub chains_data-get_or :
      (ls : List (List A)) (i : ℕ)
      → i < length ls
      → (front back : List A) × (chains_data ls ≡ front ++ (get_or ls i [] ++ back))
        × ((chain : List A) → chains_data (set ls i chain) ≡ front ++ (chain ++ back))
  unfolding chains_data
  chains_data-get_or [] i h = absurd (omega arith)
  chains_data-get_or (l ∷ ls) zero h = ([], chains_data ls, refl, λ chain. refl)
  chains_data-get_or (l ∷ ls) (suc i) h =
      let (front, back, e, f) = chains_data-get_or ls i (omega arith) in
      (
        l ++ front,
        back,
        ap (λ t. l ++ t) e ∙ sym (append_assoc l front _),
        λ chain. ap (λ t. l ++ t) (f chain) ∙ sym (append_assoc l front _),
      )

  -- The first node that compares equal is the one that is found and unlinked.
  pub record Found (cmp : A → A → ℕ) (d : A) (chain : List A) (hit : A) : Type ℓ where
    pub front : List A
    pub back : List A
    pub split : chain ≡ front ++ (hit ∷ back)
    pub equal : cmp hit d ≡ 0
    pub first : All (λ x. cmp x d ≢ 0) front
    pub finds : find_node cmp d chain ≡ some hit
    pub unlinks : unlink cmp d chain ≡ some (front ++ back)

  pub find_node-Found :
      (cmp : A → A → ℕ) (d : A) (chain : List A)
      → (find_node cmp d chain ≡ none) × (unlink cmp d chain ≡ none) × All (λ x. cmp x d ≢ 0) chain
        ⊎ (hit : A) × Found cmp d chain hit
  unfolding find_node unlink
  find_node-Found cmp d [] = inl (refl, refl, tt)
  find_node-Found cmp d (x ∷ xs) = elim (Bool-cases (cmp x d == 0)) [
    | inl same ↦ inr (
      x,
      record {
        front = [];
        back = xs;
        split = refl;
        equal = ground arith;
        first = tt;
        finds = rw same;
        unlinks = rw same;
      },
    )
    | inr other ↦
        let apart : cmp x d ≢ 0 = ground arith in
        elim (find_node-Found cmp d xs) [
          | inl (a, b, c) ↦ inl (rw (other, a), rw (other, b, ◌>>=◌), (apart, c))
          | inr (hit, f) ↦ inr (
            hit,
            record {
              front = x ∷ f.front;
              back = f.back;
              split = ap (λ l. x ∷ l) f.split;
              equal = f.equal;
              first = (apart, f.first);
              finds = rw (other, f.finds);
              unlinks = rw (other, f.unlinks, ◌>>=◌);
            },
          )
        ]
  ]
