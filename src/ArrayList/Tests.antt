-- ===== src/ArrayList/Tests.antt =====
-- An array of two slots of two bytes, both in use, that grows by three.

use zcrt.Base.{◌>>=◌, length, ℕ, ◌+◌, ◌≤◌, ◌≡◌, refl, some, [], ◌∷◌, arith}
use zcrt.ArrayList.{ArrayList, array_setlength, array_increase}
use zcrt.ArrayList.Growth.{Grown, IsWhole, HasRoom, array_increase-Grown}
use zcrt.Buf.Tests.{ample, ample-grants}

abbrev two_slots : ArrayList
two_slots = record {
  len = 2;
  unitsize = 2;
  alloced = 2;
  memtag = 7;
  step = 3;
  data_block = 1 ∷ 2 ∷ 3 ∷ 4 ∷ [];
}

two_slots-IsWhole : IsWhole two_slots
two_slots-IsWhole = record {
  sized = refl;
  fits = omega arith;
  narrow = omega arith;
  count = omega arith;
}

two_slots-HasRoom : HasRoom two_slots 3
two_slots-HasRoom = record {
  small = omega arith;
  by_step = omega arith;
  step_bytes = omega arith;
  len_bytes = omega arith;
}

array_increase-Grown_example :
    (w : ArrayList) × (p : ℕ) × (array_increase two_slots ≡ some (w, some p))
    × Grown two_slots 3 w
    × (p ≡ 4)
    × (p + 2 ≤ length w.data_block)
array_increase-Grown_example =
    array_increase-Grown ample-grants two_slots two_slots-IsWhole two_slots-HasRoom

-- The block grows by three slots.
increase_run :
    array_increase two_slots
    ≡ some (
      record {
        len = 3;
        unitsize = 2;
        alloced = 5;
        memtag = 7;
        step = 3;
        data_block = 1 ∷ 2 ∷ 3 ∷ 4 ∷ 0 ∷ 0 ∷ 0 ∷ 0 ∷ 0 ∷ 0 ∷ [];
      },
      some 4,
    )
unfolding array_increase
increase_run = refl

-- A slot that is taken again after the array has been shortened is not cleared.
shorten_run :
    (array_setlength two_slots 0 >>= λ w. array_increase w)
    ≡ some (record two_slots { len = 1 }, some 0)
unfolding array_increase
shorten_run = refl
