-- ===== src/Hash/Tests.antt =====
-- A table of numbers in two chains.
use zcrt.Base.{
  ◌==◌, if◌then◌else◌, get_or, All, ℕ, zero, suc, ◌%◌, ◌≡◌, refl, ◌≢◌, ◌⊎◌, true, some, List, [],
  ◌∷◌, ◌++◌, arith,
}
use zcrt.Hash.{
  ZHash, hash_add, hash_remove, hash_lookup, hash_enumerate, find_node, hash_new, chains_data,
}
use zcrt.Hash.Chains.{IsValid, SameKey}
use zcrt.Hash.Lookup.{hash_lookup-hash_enumerate}
use zcrt.Hash.Change.{lookup-hash_add, hash_remove-enumerate}

abbrev same_number : ℕ → ℕ → ℕ
same_number x y = if x == y then 0 else 1

abbrev numbers : ZHash ℕ
numbers = record {
  size = 2;
  count = 3;
  index = (4 ∷ []) ∷ (5 ∷ 3 ∷ []) ∷ [];
  hash_key = λ x. x;
  hash_cmp = same_number;
}

numbers-IsValid : IsValid numbers
unfolding chains_data
numbers-IsValid = record { sized = refl; some_chain = omega arith; counted = refl; placed = at }
  where
    at : (i : ℕ) → All (λ x. x % 2 ≡ i) (get_or numbers.index i [])
    at zero = (refl, tt)
    at (suc zero) = (refl, (refl, tt))
    at (suc (suc i)) = tt

numbers-SameKey : SameKey numbers
numbers-SameKey x y h = ground arith

hash_lookup-hash_enumerate_example :
    hash_lookup numbers 3 ≡ some (find_node same_number 3 (hash_enumerate numbers))
hash_lookup-hash_enumerate_example =
    hash_lookup-hash_enumerate numbers 3 numbers-IsValid numbers-SameKey

lookup-hash_add_example :
    (ht' : ZHash ℕ) × (hash_add numbers 7 true ≡ some ht')
    × IsValid ht'
    × ((e : ℕ)
        → hash_lookup ht' e
          ≡ (if same_number 7 e == 0 then some (some 7) else hash_lookup numbers e))
lookup-hash_add_example = lookup-hash_add numbers 7 numbers-IsValid numbers-SameKey

hash_remove-enumerate_example :
    (ht' : ZHash ℕ) × (hash_remove numbers 3 ≡ some ht')
    × IsValid ht'
    × ((ht' ≡ numbers) × All (λ x. same_number x 3 ≢ 0) (get_or numbers.index (3 % 2) [])
        ⊎ (hit : ℕ) × (first later front back : List ℕ) × (same_number hit 3 ≡ 0)
          × All (λ x. same_number x 3 ≢ 0) first
          × (get_or numbers.index (3 % 2) [] ≡ first ++ (hit ∷ later))
          × (get_or ht'.index (3 % 2) [] ≡ first ++ later)
          × (hash_enumerate numbers ≡ front ++ ((first ++ (hit ∷ later)) ++ back))
          × (hash_enumerate ht' ≡ front ++ ((first ++ later) ++ back)))
hash_remove-enumerate_example = hash_remove-enumerate numbers 3 numbers-IsValid

-- A new table of two chains is empty.
new_run :
    hash_new 2 (some (λ x. x)) (some same_number) true
    ≡ some (some (record numbers { count = 0; index = [] ∷ [] ∷ [] }))
unfolding hash_new
new_run = refl
