-- ===== src/Hash/Change.antt =====
-- zcrtlib/zhash.c: adding and removing data.
use zcrt.Base.{
  ◌==◌, if◌then◌else◌, Bool-cases, ◌>>=◌, length, get_or, set, length-append, length-set,
  get_or-set_self, get_or-set_ne, set-set, set_same, All, All-append, All-split, ℕ, ◌+◌, ◌-◌, ◌%◌,
  ◌<◌, ◌≡◌, refl, sym, ap, ◌∙◌, ◌≢◌, ◌⊎◌, inl, inr, true, some, List, [], ◌∷◌, ◌++◌, append_assoc,
  arith,
}
use zcrt.Tlv.Len.{left}
use mathlib.Core.Path.{subst}
use zcrt.Buf.{u32}
use zcrt.Hash.{
  ZHash, hash_getnode, hash_add, unlink, put_chain, hash_remove, find_node, hash_lookup,
  chains_data, hash_enumerate,
}
use zcrt.Hash.Chains.{IsValid, SameKey, bucket_lem, chains_data-get_or, find_node-Found}

module _ {ℓ} {A : Type ℓ} where
  -- One chain is replaced, and `count` follows.
  replace-IsValid :
      (ht : ZHash A) (b cnt : ℕ) (chain : List A)
      → IsValid ht
      → b < length ht.index
      → All (λ x. ht.hash_key x % ht.size ≡ b) chain
      → cnt ≡ length (chains_data (set ht.index b chain)) % u32
      → IsValid (record ht { index = set ht.index b chain; count = cnt })
  replace-IsValid ht b cnt chain valid inside placed counted = record {
    sized = length-set ht.index b chain ∙ valid.sized;
    some_chain = valid.some_chain;
    counted = counted;
    placed = λ i. elim (Bool-cases (b == i)) [
      | inl same ↦
          let by : b ≡ i = ground arith in
          subst (λ k. All (λ x. ht.hash_key x % ht.size ≡ k) (get_or (set ht.index b chain) k []))
            by (rw (get_or-set_self ht.index b chain [] inside) placed)
      | inr other ↦
          let apart : b ≢ i = ground arith in
          rw (get_or-set_ne ht.index b i chain [] apart) (valid.placed i)
    ];
  }

  -- The chain is longer by the nodes `extra`.
  length_more :
      (ls : List (List A)) (b n : ℕ) (chain : List A)
      → b < length ls
      → length chain ≡ n + length (get_or ls b [])
      → length (chains_data (set ls b chain)) ≡ n + length (chains_data ls)
  length_more ls b n chain inside more =
      let (front, back, e, f) = chains_data-get_or ls b inside in
      let was = ap length e ∙ length-append front _ in
      let now = ap length (f chain) ∙ length-append front _ in
      omega (arith, was, now, more, length-append (get_or ls b []) back, length-append chain back)

  -- The table after `zcrt_hash_add`.
  abbrev pub added : ZHash A → A → ZHash A
  added ht d = record ht {
    index =
        set ht.index (ht.hash_key d % ht.size) (d ∷ get_or ht.index (ht.hash_key d % ht.size) []);
    count = (ht.count + 1) % u32;
  }

  pub hash_add_run : (ht : ZHash A) (d : A) → IsValid ht → hash_add ht d true ≡ some (added ht d)
  unfolding hash_add
  hash_add_run ht d valid = let (run, inside) = bucket_lem ht d valid in rw (run, ◌>>=◌)

  pub added-IsValid : (ht : ZHash A) (d : A) → IsValid ht → IsValid (added ht d)
  added-IsValid ht d valid =
      let (run, inside) = bucket_lem ht d valid in
      let b = ht.hash_key d % ht.size in
      let more = length_more ht.index b 1 (d ∷ get_or ht.index b []) inside (omega arith) in
      replace-IsValid ht b ((ht.count + 1) % u32) (d ∷ get_or ht.index b []) valid inside
        (refl, valid.placed b) (omega (arith, more, valid.counted))

  pub lookup-added :
      (ht : ZHash A) (d e : A)
      → IsValid ht
      → SameKey ht
      → hash_lookup (added ht d) e
        ≡ (if ht.hash_cmp d e == 0 then some (some d) else hash_lookup ht e)
  unfolding hash_lookup hash_getnode find_node
  lookup-added ht d e valid same_key =
      let (run, inside) = bucket_lem ht d valid in
      let (run', inside') = bucket_lem (added ht d) e (added-IsValid ht d valid) in
      let b = ht.hash_key d % ht.size in
      let c = ht.hash_key e % ht.size in
      elim (Bool-cases (ht.hash_cmp d e == 0)) [
        | inl same ↦
            let equal : ht.hash_cmp d e ≡ 0 = ground arith in
            let by : c ≡ b = ap (λ k. k % ht.size) (sym (same_key d e equal)) in
            let at : get_or (added ht d).index c [] ≡ d ∷ get_or ht.index b [] =
              ap (λ k. get_or (added ht d).index k []) by
              ∙ get_or-set_self ht.index b (d ∷ get_or ht.index b []) [] inside in
            rw (run', ◌>>=◌, at, same)
        | inr other ↦ elim (Bool-cases (b == c)) [
          | inl one_chain ↦
              let by : c ≡ b = ground arith in
              let at : get_or (added ht d).index c [] ≡ d ∷ get_or ht.index b [] =
                ap (λ k. get_or (added ht d).index k []) by
                ∙ get_or-set_self ht.index b (d ∷ get_or ht.index b []) [] inside in
              let old : get_or ht.index c [] ≡ get_or ht.index b [] =
                ap (λ k. get_or ht.index k []) by in
              rw (run', ◌>>=◌, at, other, old)
          | inr two_chains ↦
              let apart : b ≢ c = ground arith in
              rw
                (run', ◌>>=◌, other, get_or-set_ne ht.index b c (d ∷ get_or ht.index b []) [] apart)
        ]
      ]

  -- On a well-formed table whose callbacks give equal keys to data that compare equal, where malloc
  -- grants a node, `zcrt_hash_add` succeeds and keeps the table well formed. A lookup for data that
  -- compare equal to the new ones then returns the new ones, and every other lookup what it did
  -- before.
  pub lookup-hash_add :
      (ht : ZHash A) (d : A)
      → IsValid ht
      → SameKey ht
      → (ht' : ZHash A) × (hash_add ht d true ≡ some ht')
        × IsValid ht'
        × ((e : A)
            → hash_lookup ht' e
              ≡ (if ht.hash_cmp d e == 0 then some (some d) else hash_lookup ht e))
  lookup-hash_add ht d valid same_key = (
    added ht d,
    hash_add_run ht d valid,
    added-IsValid ht d valid,
    λ e. lookup-added ht d e valid same_key,
  )

  -- On a well-formed table, for data that compare equal to themselves, `zcrt_hash_remove` just after
  -- `zcrt_hash_add` gives back the very table that was there before, `count` included.
  pub hash_remove-hash_add :
      (ht : ZHash A) (d : A)
      → IsValid ht
      → ht.hash_cmp d d ≡ 0
      → (hash_add ht d true >>= λ ht'. hash_remove ht' d) ≡ some ht
  unfolding hash_remove unlink put_chain
  hash_remove-hash_add ht d valid self =
      let (run, inside) = bucket_lem ht d valid in
      let (run', inside') = bucket_lem (added ht d) d (added-IsValid ht d valid) in
      let b = ht.hash_key d % ht.size in
      let chain = get_or ht.index b [] in
      let same : (ht.hash_cmp d d == 0) ≡ true = ground arith in
      let at = get_or-set_self ht.index b (d ∷ chain) [] inside in
      let back : set (set ht.index b (d ∷ chain)) b chain ≡ ht.index =
        set-set ht.index b (d ∷ chain) chain ∙ set_same ht.index b [] in
      let cnt : ((ht.count + 1) % u32 + (u32 - 1)) % u32 ≡ ht.count =
        omega (arith, valid.counted) in
      rw (hash_add_run ht d valid, ◌>>=◌, run', at, same, back, cnt)

  -- On a well-formed table `zcrt_hash_remove` returns and keeps the table well formed. Either nothing
  -- in the chain of the key compares equal, and the table is unchanged, or the first of the chain that
  -- does, which has none that compares equal before it, is taken out of the chain and of the data, and
  -- all others stay in their order.
  pub hash_remove-enumerate :
      (ht : ZHash A) (d : A)
      → IsValid ht
      → (ht' : ZHash A) × (hash_remove ht d ≡ some ht')
        × IsValid ht'
        × ((ht' ≡ ht)
              × All (λ x. ht.hash_cmp x d ≢ 0) (get_or ht.index (ht.hash_key d % ht.size) [])
            ⊎ (hit : A) × (first later front back : List A) × (ht.hash_cmp hit d ≡ 0)
              × All (λ x. ht.hash_cmp x d ≢ 0) first
              × (get_or ht.index (ht.hash_key d % ht.size) [] ≡ first ++ (hit ∷ later))
              × (get_or ht'.index (ht.hash_key d % ht.size) [] ≡ first ++ later)
              × (hash_enumerate ht ≡ front ++ ((first ++ (hit ∷ later)) ++ back))
              × (hash_enumerate ht' ≡ front ++ ((first ++ later) ++ back)))
  unfolding hash_remove put_chain hash_enumerate
  hash_remove-enumerate ht d valid =
      let (run, inside) = bucket_lem ht d valid in
      let b = ht.hash_key d % ht.size in
      elim (find_node-Found ht.hash_cmp d (get_or ht.index b [])) [
        | inl (finds, unlinks, differ) ↦ (ht, rw (run, ◌>>=◌, unlinks), valid, inl (refl, differ))
        | inr (hit, f) ↦
            let (front, back, e, g) = chains_data-get_or ht.index b inside in
            let was =
              e
              ∙ ap (λ l. front ++ (l ++ back)) f.split
              ∙ ap (λ l. front ++ l) (append_assoc f.front (hit ∷ f.back) back)
              ∙ sym (append_assoc front f.front _) in
            let now =
              g (f.front ++ f.back)
              ∙ ap (λ l. front ++ l) (append_assoc f.front f.back back)
              ∙ sym (append_assoc front f.front _) in
            let size = ap length was ∙ length-append (front ++ f.front) _ in
            let size' = ap length now ∙ length-append (front ++ f.front) _ in
            let parts = subst (All (λ x. ht.hash_key x % ht.size ≡ b)) f.split (valid.placed b) in
            let (left, right) =
              All-split (λ x. ht.hash_key x % ht.size ≡ b) f.front (hit ∷ f.back) parts in
            (
              record ht {
                index = set ht.index b (f.front ++ f.back);
                count = (ht.count + (u32 - 1)) % u32;
              },
              rw (run, ◌>>=◌, f.unlinks),
              replace-IsValid ht b ((ht.count + (u32 - 1)) % u32) (f.front ++ f.back) valid inside
                  (All-append (λ x. ht.hash_key x % ht.size ≡ b) f.front f.back left right.1)
                  (let one : length (chains_data ht.index)
                        ≡ 1 + length (chains_data (set ht.index b (f.front ++ f.back))) =
                      omega (arith, size, size') in
                    omega (arith, one, valid.counted)),
              inr (
                hit,
                f.front,
                f.back,
                front,
                back,
                f.equal,
                f.first,
                f.split,
                get_or-set_self ht.index b (f.front ++ f.back) [] inside,
                e ∙ ap (λ l. front ++ (l ++ back)) f.split,
                g (f.front ++ f.back),
              ),
            )
      ]
