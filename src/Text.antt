-- ===== src/Text.antt =====
-- zcrtlib/zstr.c: counted strings against one another and against C strings. A pointer is given as
-- the bytes from where it points to the end of its block, a C string as its bytes before the 0. The
-- result of a comparison is its sign, which is all that a caller of strncmp can use.
pub mod Equal
mod Tests
use zcrt.Base.{
  ltb, leb, ◌==◌, if◌then◌else◌, Run, length, take, ℕ, zero, suc, ◌+◌, ◌-◌, ◌%◌, ◌^◌, Bool, true,
  false, ◌&&◌, none, some, List, [], ◌∷◌, ◌++◌,
}
use Prim.Native.Nat.{Ordering, lt, eq, gt}
use zcrt.Buf.{u32}

-- strncmp of the C library: bytes are compared as unsigned, up to `n` of them and not past a 0.
-- Reading past the end of a block is `none`.
unfoldable pub strncmp : ℕ → List ℕ → List ℕ → Run Ordering
strncmp zero xs ys = some eq
strncmp (suc n) [] ys = none
strncmp (suc n) (x ∷ xs) [] = none
strncmp (suc n) (x ∷ xs) (y ∷ ys) =
    let rest = strncmp n xs ys in
    if x == y then (if x == 0 then some eq else rest) else some (if ltb x y then lt else gt)

-- The sign of an int32_t.
abbrev pub sign_int : ℕ → Ordering
sign_int n = if n == 0 then eq else if ltb n (2 ^ 31) then gt else lt

-- `zstr_t`: a length, and where its pointer points.
unfoldable pub str_cmp : ℕ → List ℕ → ℕ → List ℕ → Run Ordering
str_cmp len1 ptr1 len2 ptr2 =
    if len1 == len2 then strncmp len1 ptr1 ptr2 else some (sign_int ((len1 + u32 - len2) % u32))

unfoldable pub str_buf_cmp : ℕ → List ℕ → List ℕ → Run Ordering
str_buf_cmp len1 ptr1 buf =
    if len1 == length buf
    then strncmp len1 ptr1 (buf ++ (0 ∷ []))
    else some (sign_int ((len1 + u32 - length buf) % u32))

-- The new string and its block, if malloc grants one byte more; otherwise memset writes to NULL.
unfoldable pub str_new_len : Bool → ℕ → List ℕ → Run (ℕ × List ℕ)
str_new_len granted len buf =
    if granted && leb len (length buf) then some (len, take len buf ++ (0 ∷ [])) else none

unfoldable pub str_new : Bool → List ℕ → Run (ℕ × List ℕ)
str_new granted buf = if granted then some (length buf, buf ++ (0 ∷ [])) else none

abbrev pub is_eq : Ordering → Bool
is_eq lt = false
is_eq eq = true
is_eq gt = false
