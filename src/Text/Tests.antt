-- ===== src/Text/Tests.antt =====
-- Concrete strings.
use zcrt.Base.{take, ℕ, ◌≡◌, ◌↔◌, true, some, List, [], ◌∷◌, arith}
use Prim.Native.Nat.{Ordering}
use zcrt.Text.{str_buf_cmp, is_eq}
use zcrt.Text.Equal.{str_buf_cmp-eq}

abbrev typed : List ℕ
typed = 115 ∷ 110 ∷ 4 ∷ []

abbrev name : List ℕ
name = 115 ∷ 110 ∷ []

str_buf_cmp-eq_example :
    (o : Ordering) × (str_buf_cmp 2 typed name ≡ some o)
    × ((is_eq o ≡ true) ↔ (take 2 typed ≡ name))
str_buf_cmp-eq_example =
    str_buf_cmp-eq 2 typed name (omega arith, (omega arith, tt)) (omega arith) (omega arith)
      (omega arith)
