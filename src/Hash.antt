-- ===== src/Hash.antt =====
-- zcrtlib/zhash.c: a table of chains. A chain is the list of the data of its nodes; the field `key` of
-- a node is never used. Key and comparison are the caller's functions, in the table as in the source.
pub mod Chains
pub mod Lookup
pub mod Change
mod Tests
use zcrt.Base.{
  ◌==◌, if◌then◌else◌, Run, ◌>>=◌, get_or, set, replicate, ℕ, ◌+◌, ◌-◌, ◌%◌, Bool, Option, none,
  some, List, [], ◌∷◌, ◌++◌,
}
use zcrt.Buf.{u32}

-- `ZHash`
pub record ZHash {ℓ} (A : Type ℓ) : Type ℓ where
  pub size : ℕ
  pub count : ℕ
  pub index : List (List A)
  pub hash_key : A → ℕ
  pub hash_cmp : A → A → ℕ

module _ {ℓ} {A : Type ℓ} where
  -- `none` for NULL; the blocks that malloc returns are not tested.
  unfoldable pub hash_new : ℕ → Option (A → ℕ) → Option (A → A → ℕ) → Bool → Run (Option (ZHash A))
  hash_new size none hash_cmp granted = some none
  hash_new size (some hash_key) none granted = some none
  hash_new size (some hash_key) (some hash_cmp) granted =
      if granted
      then some (
          some (record {
            size = size;
            count = 0;
            index = replicate size [];
            hash_key = hash_key;
            hash_cmp = hash_cmp;
          }))
      else none

  -- `ZCRT_HASH_KEY`: a table of size 0 divides by zero.
  unfoldable pub bucket : ZHash A → A → Run ℕ
  bucket ht d = if ht.size == 0 then none else some (ht.hash_key d % ht.size)

  unfoldable pub hash_getnode : ZHash A → A → Run (List A)
  unfolding bucket
  hash_getnode ht d = bucket ht d >>= λ key. some (get_or ht.index key [])

  -- Writing through the block that malloc returns is a crash if it is NULL.
  unfoldable pub hash_add : ZHash A → A → Bool → Run (ZHash A)
  hash_add ht d granted = bucket ht d >>= λ key.
      if granted
      then some (record ht {
        index = set ht.index key (d ∷ get_or ht.index key []);
        count = (ht.count + 1) % u32;
      })
      else none

  -- The chain without the first node that compares equal.
  unfoldable pub unlink : (A → A → ℕ) → A → List A → Option (List A)
  unlink cmp d [] = none
  unlink cmp d (node ∷ nodes) =
      let rest = unlink cmp d nodes >>= λ nodes'. some (node ∷ nodes') in
      if cmp node d == 0 then some nodes else rest

  unfoldable pub put_chain : ZHash A → ℕ → Option (List A) → ZHash A
  put_chain ht key none = ht
  put_chain ht key (some chain) = record ht {
    index = set ht.index key chain;
    count = (ht.count + (u32 - 1)) % u32;
  }

  unfoldable pub hash_remove : ZHash A → A → Run (ZHash A)
  hash_remove ht d =
      bucket ht d >>= λ key. some (put_chain ht key (unlink ht.hash_cmp d (get_or ht.index key [])))

  unfoldable pub find_node : (A → A → ℕ) → A → List A → Option A
  find_node cmp d [] = none
  find_node cmp d (node ∷ nodes) =
      let rest = find_node cmp d nodes in if cmp node d == 0 then some node else rest

  unfoldable pub hash_lookup : ZHash A → A → Run (Option A)
  hash_lookup ht d = hash_getnode ht d >>= λ nodes. some (find_node ht.hash_cmp d nodes)

  -- The data that the callback is called for, in order.
  unfoldable pub chains_data : List (List A) → List A
  chains_data [] = []
  chains_data (chain ∷ chains) = chain ++ chains_data chains

  unfoldable pub hash_enumerate : ZHash A → List A
  hash_enumerate ht = chains_data ht.index
