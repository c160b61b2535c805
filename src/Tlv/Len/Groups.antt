-- ===== src/Tlv/Len/Groups.antt =====
-- The format in plain arithmetic: seven bits to a byte, lowest first, the top bit set on every byte
-- but the last.
use zcrt.Base.{
  ltb, if◌then◌else◌, lt→ltb, le→ltb, length, ℕ, zero, suc, ◌+◌, ◌/◌, ◌%◌, ◌≤◌, ◌<◌, ◌≡◌, refl,
  List, [], ◌∷◌, arith,
}

-- The bytes of `w`, at most `k + 1` of them.
unfoldable pub groups : ℕ → ℕ → List ℕ
groups zero w = w ∷ []
groups (suc k) w =
    let upper = groups k (w / 128) in if ltb w 128 then w ∷ [] else ((w % 128 + 128) ∷ upper)

pub length-groups : (k w : ℕ) → (1 ≤ length (groups k w)) × (length (groups k w) ≤ k + 1)
unfolding groups
length-groups zero w = omega arith
length-groups (suc k) w = ground (arith, length-groups k (w / 128))

pub groups_small : (k w : ℕ) → w < 128 → groups k w ≡ w ∷ []
unfolding groups
groups_small zero w h = refl
groups_small (suc k) w h = rw (lt→ltb w 128 h)

pub groups_big : (k w : ℕ) → 128 ≤ w → groups (suc k) w ≡ (w % 128 + 128) ∷ groups k (w / 128)
unfolding groups
groups_big k w h = rw (le→ltb w 128 h)
