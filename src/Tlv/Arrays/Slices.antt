-- ===== src/Tlv/Arrays/Slices.antt =====
-- Parts of a block, and a block in which a part is replaced.
use zcrt.Base.{
  length, take, drop, length-append, length-take, length-drop, take-append, take_all,
  take-append-drop, drop-append, drop_all, drop-drop, ℕ, zero, suc, ◌+◌, ◌*◌, ◌≤◌, ◌≡◌, sym, ap,
  ◌∙◌, List, [], ◌∷◌, ◌++◌, append_assoc, arith,
}

-- The `n` bytes from `p` on.
abbrev pub slice : List ℕ → ℕ → ℕ → List ℕ
slice block p n = take n (drop p block)

-- The block with `e` at `p`.
abbrev pub patch : List ℕ → ℕ → List ℕ → List ℕ
patch block p e = take p block ++ (e ++ drop (p + length e) block)

take-add : (m n : ℕ) (xs : List ℕ) → take (m + n) xs ≡ take m xs ++ take n (drop m xs)
take-add zero n xs = ap (λ (k : ℕ). take k xs) (omega arith)
take-add (suc m) n [] = take_all (suc m + n) [] (omega arith) ∙ sym (take_all n [] (omega arith))
take-add (suc m) n (x ∷ xs) =
    let same : suc m + n ≡ suc (m + n) = omega arith in
    ap (λ (k : ℕ). take k (x ∷ xs)) same ∙ ap (λ l. x ∷ l) (take-add m n xs)

slice-add : (src : List ℕ) (p m n : ℕ) → slice src p (m + n) ≡ slice src p m ++ slice src (p + m) n
slice-add src p m n =
    take-add m n (drop p src) ∙ ap (λ l. slice src p m ++ take n l) (drop-drop m p src)

pub length-patch :
    (block : List ℕ) (p : ℕ) (e : List ℕ)
    → p + length e ≤ length block
    → length (patch block p e) ≡ length block
length-patch block p e h = omega (
  arith,
  length-append (take p block) (e ++ drop (p + length e) block),
  length-append e (drop (p + length e) block),
  length-drop (p + length e) block,
  length-take p block,
)

-- A patch at `p` and another one behind it are one patch.
patch-patch :
    (block : List ℕ) (p : ℕ) (e x : List ℕ)
    → p + length e ≤ length block
    → patch (patch block p e) (p + length e) x ≡ patch block p (e ++ x)
patch-patch block p e x h =
    let front = take p block ++ e in
    let back = drop (p + length e) block in
    let size : length front ≡ p + length e =
      omega (arith, length-append (take p block) e, length-take p block) in
    let apart : patch block p e ≡ front ++ back = sym (append_assoc (take p block) e back) in
    let kept : take (p + length e) (patch block p e) ≡ front =
      ap (take (p + length e)) apart
      ∙ take-append (p + length e) front back (omega arith)
      ∙ take_all (p + length e) front (omega arith) in
    let behind : drop (p + length e) (patch block p e) ≡ back =
      ap (drop (p + length e)) apart
      ∙ drop-append (p + length e) front back (omega arith)
      ∙ ap (λ l. l ++ back) (drop_all (p + length e) front (omega arith)) in
    let rest : drop (p + length e + length x) (patch block p e) ≡ drop (length x) back =
      sym (drop-drop (length x) (p + length e) (patch block p e)) ∙ ap (drop (length x)) behind in
    let last : drop (length x) back ≡ drop (p + length (e ++ x)) block =
      drop-drop (length x) (p + length e) block
      ∙ ap (λ (k : ℕ). drop k block) (omega (arith, length-append e x)) in
    rw (kept, rest, last)
      (append_assoc (take p block) e (x ++ drop (p + length (e ++ x)) block)
        ∙ ap (λ l. take p block ++ l) (sym (append_assoc e x (drop (p + length (e ++ x)) block))))

pub length-slice : (block : List ℕ) (p n : ℕ) → p + n ≤ length block → length (slice block p n) ≡ n
length-slice block p n h = omega (arith, length-take n (drop p block), length-drop p block)

pub patch_none : (block : List ℕ) (p : ℕ) → patch block p [] ≡ block
patch_none block p =
    ap (λ (k : ℕ). take p block ++ drop k block) (omega arith) ∙ take-append-drop p block

pub take-patch :
    (block src : List ℕ) (n unit : ℕ)
    → n ≤ length src
    → take n (patch block (0 * unit) (slice src (0 * unit) n)) ≡ take n src
take-patch block src n unit h =
    let front : 0 * unit ≡ 0 = omega arith in
    let x = take n src in
    let size : length x ≡ n = omega (arith, length-take n src) in
    ap (λ (q : ℕ). take n (patch block q (slice src q n))) front
    ∙ take-append n x (drop (0 + length x) block) (omega (arith, size))
    ∙ take_all n x (omega (arith, size))

pub patch_next :
    (block src : List ℕ) (i n unit : ℕ)
    → (i + suc n) * unit ≤ length src
    → i * unit + unit ≤ length block
    → patch
        (patch block (i * unit) (slice src (i * unit) unit))
        ((i + 1) * unit)
        (slice src ((i + 1) * unit) (n * unit))
      ≡ patch block (i * unit) (slice src (i * unit) (suc n * unit))
patch_next block src i n unit k h =
    let p = i * unit in
    let e = slice src p unit in
    let size : length e ≡ unit = length-slice src p unit (omega arith) in
    let to : (i + 1) * unit ≡ p + unit = omega arith in
    let to' : (i + 1) * unit ≡ p + length e = omega (arith, size) in
    let whole : suc n * unit ≡ unit + n * unit = omega arith in
    ap (λ (q : ℕ). patch (patch block p e) ((i + 1) * unit) (slice src q (n * unit))) to
    ∙ ap (λ (q : ℕ). patch (patch block p e) q (slice src (p + unit) (n * unit))) to'
    ∙ patch-patch block p e (slice src (p + unit) (n * unit)) (omega (arith, size))
    ∙ ap (patch block p) (sym (slice-add src p unit (n * unit)))
    ∙ ap (λ (m : ℕ). patch block p (slice src p m)) (sym whole)
