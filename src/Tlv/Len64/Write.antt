-- ===== src/Tlv/Len64/Write.antt =====
-- zipc/zipc_tlv.c: `zcdr_WriteLEN64` writes the seven-bit groups.
use zcrt.Base.{
  ltb, ◌==◌, Bool-cases, ◌>>=◌, length, ℕ, zero, suc, ◌+◌, ◌*◌, ◌/◌, ◌%◌, ◌^◌, ◌≤◌, ◌<◌, bit_and,
  ◌≡◌, refl, sym, ap, ◌∙◌, ◌⊎◌, inl, inr, true, some, List, [], ◌∷◌, arith,
}
use zcrt.Base.Bits.{and_low}
use native.Mathlib.Nat.{pow-suc, one-le-pow}
use zcrt.Buf.{Allocator, ZBuf, IsValid, u32, store, buf_realloc}
use zcrt.Buf.Growth.{buf_realloc-Grown}
use zcrt.Buf.Append.{Appended, write_end}
use zcrt.Tlv.Zigzag.{u64, encode64, encode64-lt}
use zcrt.Tlv.Len.{marked}
use zcrt.Tlv.Len.Groups.{groups, groups_small, groups_big, length-groups}
use zcrt.Tlv.Len.Write.{marked_lem}
use zcrt.Tlv.Len64.{size_of, unmark_last, write_len64, write_var_int64}

-- The first `n` groups of `v`, each with its top bit set.
all_marked : ℕ → ℕ → List ℕ
all_marked zero v = []
all_marked (suc n) v = (v % 128 + 128) ∷ all_marked n (v / 128)

∷_cong : {a b : ℕ} {xs ys : List ℕ} → a ≡ b → xs ≡ ys → a ∷ xs ≡ b ∷ ys
∷_cong p q = λ i. p i ∷ q i

unmark_last-all_marked :
    (k n m v : ℕ)
    → k < n
    → k ≤ m
    → v < 128 ^ suc k
    → (k ≡ 0) ⊎ (128 ^ k ≤ v)
    → unmark_last (suc k) (all_marked n v) ≡ groups m v
unfolding all_marked unmark_last
unmark_last-all_marked k zero m v h hm small large = absurd (omega arith)
unmark_last-all_marked zero (suc n) m v h hm small large =
    let same : bit_and (v % 128 + 128) 0x7f ≡ v =
      and_low (v % 128 + 128) (omega arith) ∙ omega arith in
    rw same (sym (groups_small m v (omega arith)))
unmark_last-all_marked (suc k) (suc n) zero v h hm small large = absurd (omega arith)
unmark_last-all_marked (suc k) (suc n) (suc m) v h hm small large =
    let bound : 128 ^ suc (suc k) ≡ 128 * 128 ^ suc k = omega (arith, pow-suc 128 (suc k)) in
    let low : 128 ^ suc k ≡ 128 * 128 ^ k = omega (arith, pow-suc 128 k) in
    let pos : 1 ≤ 128 ^ k = one-le-pow k 128 (omega arith) in
    ∷_cong refl (
      unmark_last-all_marked k n m (v / 128) (omega arith) (omega arith) (omega arith)
        (omega arith))
    ∙ sym (groups_big m v (omega arith))

-- The search tree finds how many groups there are.
size_of_lem :
    (v : ℕ)
    → v < u64
    → (k : ℕ) × (size_of (v % u32) (v / 2 ^ 28 % u32) (v / 2 ^ 56 % u32) ≡ suc k)
      × (k < 10)
      × (v < 128 ^ suc k)
      × ((k ≡ 0) ⊎ (128 ^ k ≤ v))
unfolding size_of
size_of_lem v h = elim (Bool-cases (v / 2 ^ 56 % u32 == 0)) [
  | inl t6 ↦ elim (Bool-cases (v / 2 ^ 28 % u32 == 0)) [
    | inl t8 ↦ elim (Bool-cases (ltb (v % u32) (2 ^ 14))) [
      | inl t10 ↦ elim (Bool-cases (ltb (v % u32) (2 ^ 7))) [
        | inl t12 ↦ (0, ground arith, omega arith, ground arith, ground arith)
        | inr t12 ↦ (1, ground arith, omega arith, ground arith, ground arith)
      ]
      | inr t10 ↦ elim (Bool-cases (ltb (v % u32) (2 ^ 21))) [
        | inl t12 ↦ (2, ground arith, omega arith, ground arith, ground arith)
        | inr t12 ↦ (3, ground arith, omega arith, ground arith, ground arith)
      ]
    ]
    | inr t8 ↦ elim (Bool-cases (ltb (v / 2 ^ 28 % u32) (2 ^ 14))) [
      | inl t10 ↦ elim (Bool-cases (ltb (v / 2 ^ 28 % u32) (2 ^ 7))) [
        | inl t12 ↦ (4, ground arith, omega arith, ground arith, ground arith)
        | inr t12 ↦ (5, ground arith, omega arith, ground arith, ground arith)
      ]
      | inr t10 ↦ elim (Bool-cases (ltb (v / 2 ^ 28 % u32) (2 ^ 21))) [
        | inl t12 ↦ (6, ground arith, omega arith, ground arith, ground arith)
        | inr t12 ↦ (7, ground arith, omega arith, ground arith, ground arith)
      ]
    ]
  ]
  | inr t6 ↦ elim (Bool-cases (ltb (v / 2 ^ 56 % u32) (2 ^ 7))) [
    | inl t8 ↦ (8, ground arith, omega arith, ground arith, ground arith)
    | inr t8 ↦ (9, ground arith, omega arith, ground arith, ground arith)
  ]
]

marked_same : (x y : ℕ) → x % 128 ≡ y % 128 → marked x ≡ y % 128 + 128
marked_same x y e = omega (arith, marked_lem x)

bytes_lem :
    (v : ℕ)
    → v < u64
    → marked (v % u32)
        ∷ marked (v % u32 / 2 ^ 7)
        ∷ marked (v % u32 / 2 ^ 14)
        ∷ marked (v % u32 / 2 ^ 21)
        ∷ marked (v / 2 ^ 28 % u32)
        ∷ marked (v / 2 ^ 28 % u32 / 2 ^ 7)
        ∷ marked (v / 2 ^ 28 % u32 / 2 ^ 14)
        ∷ marked (v / 2 ^ 28 % u32 / 2 ^ 21)
        ∷ marked (v / 2 ^ 56 % u32)
        ∷ marked (v / 2 ^ 56 % u32 / 2 ^ 7)
        ∷ []
      ≡ all_marked 10 v
unfolding all_marked
bytes_lem v h = ∷_cong (marked_same (v % u32) (v) (omega arith)) (
    ∷_cong (marked_same (v % u32 / 2 ^ 7) (v / 128) (omega arith)) (
      ∷_cong (marked_same (v % u32 / 2 ^ 14) (v / 128 / 128) (omega arith)) (
        ∷_cong (marked_same (v % u32 / 2 ^ 21) (v / 128 / 128 / 128) (omega arith)) (
          ∷_cong (marked_same (v / 2 ^ 28 % u32) (v / 128 / 128 / 128 / 128) (omega arith)) (
            ∷_cong
              (marked_same (v / 2 ^ 28 % u32 / 2 ^ 7) (v / 128 / 128 / 128 / 128 / 128)
                (omega arith))
              (∷_cong
                (marked_same (v / 2 ^ 28 % u32 / 2 ^ 14) (v / 128 / 128 / 128 / 128 / 128 / 128)
                  (omega arith))
                (∷_cong
                  (marked_same (v / 2 ^ 28 % u32 / 2 ^ 21)
                    (v / 128 / 128 / 128 / 128 / 128 / 128 / 128) (omega arith))
                  (∷_cong
                    (marked_same (v / 2 ^ 56 % u32)
                      (v / 128 / 128 / 128 / 128 / 128 / 128 / 128 / 128) (omega arith))
                    (∷_cong
                      (marked_same (v / 2 ^ 56 % u32 / 2 ^ 7)
                        (v / 128 / 128 / 128 / 128 / 128 / 128 / 128 / 128 / 128) (omega arith))
                      (refl))))))))))

-- For every uint64_t `zcdr_WriteLEN64`, which splits the value over three words and finds the size by
-- a search tree, leaves the same bytes as the plain format: the seven-bit groups, lowest first, the
-- top bit set on all but the last, and no group too many.
pub write_len64-groups : (v : ℕ) → v < u64 → write_len64 v ≡ groups 9 v
unfolding write_len64
write_len64-groups v h =
    let (k, size, few, small, large) = size_of_lem v h in
    rw (bytes_lem v h, size) (unmark_last-all_marked k 10 9 v few (omega arith) small large)

write_var_int64_run :
    ⦃alloc : Allocator⦄ (v w : ZBuf) (n m : ℕ) (block : List ℕ)
    → buf_realloc v ((v.len + 10) % u32) ≡ some (w, m)
    → store w.buf w.len (write_len64 (encode64 n)) ≡ some block
    → write_var_int64 v n
      ≡ some (record w { buf = block; len = (w.len + length (write_len64 (encode64 n))) % u32 })
unfolding write_var_int64
write_var_int64_run v w n m block run stored = rw (run, ◌>>=◌, stored)

-- Where libc grants every request, and for a well-formed buffer whose contents leave room below
-- 2 ^ 31, `ztlv_write_var_int64` does not fault and appends exactly the groups of the zigzag code of
-- the int64_t.
pub write_var_int64-Appended :
    ⦃alloc : Allocator⦄ (granted : (n : ℕ) → alloc.grants n ≡ true) (v : ZBuf) (n : ℕ)
    → IsValid v
    → n < u64
    → v.len + 11 < 2 ^ 31
    → (w : ZBuf) × (write_var_int64 v n ≡ some w) × Appended v (groups 9 (encode64 n)) w
write_var_int64-Appended granted v n valid small h =
    let code = encode64 n in
    let bytes = write_len64-groups code (encode64-lt n small) in
    let room : (v.len + 10) % u32 ≡ v.len + 10 = omega arith in
    let (_, short) = length-groups 9 code in
    let (w, run, g) = buf_realloc-Grown granted v (v.len + 10) valid (omega arith) in
    let (block, stored, done) = write_end v w (v.len + 10) (groups 9 code) g (omega arith) in
    let size : (w.len + length (groups 9 code)) % u32 ≡ v.len + length (groups 9 code) =
      omega (arith, g.same_len) in
    (
      record w { buf = block; len = v.len + length (groups 9 code) },
      write_var_int64_run v w n (v.len + 10) block (ap (buf_realloc v) room ∙ run)
            (ap (store w.buf w.len) bytes ∙ stored)
          ∙ ap (λ l. some (record w { buf = block; len = l }))
              (ap (λ l. (w.len + length l) % u32) bytes ∙ size),
      done,
    )
