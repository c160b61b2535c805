-- ===== src/Schedule/Life/Tests.antt =====
-- A thread at 10 that two schedules share: the one at 20, which it was made for, and the one at 30.
use zcrt.Schedule.Life.Stops.{Counted, schedule_delete-Counted}
use zcrt.Schedule.Life.{unlist}
use zcrt.Os.{kernel_atoms}
use zcrt.Base.{
  ◌==◌, if◌then◌else◌, length, ℕ, ◌≡◌, refl, ◌≢◌, inl, inr, true, false, ◌&&◌, some, [], ◌∷◌, arith,
}
use zcrt.Schedule.Life.{Life, self_thread, schedule_delete}

abbrev shared : Life
shared = record {
  atoms = kernel_atoms;
  threads = λ a. record { run = true; ref_cnt = 2; sch_list = 30 ∷ 20 ∷ [] };
  schs = λ h. record { thr = 10; pri = 1; maxsize = 100; sch_type = self_thread };
  zcrtthr = 5;
  schthr_list = 10 ∷ [];
}

-- One schedule is left.
schedule_delete-Counted_example :
    (life' : Life) × (schedule_delete shared 20 ≡ some life')
    × ((life'.threads 10).sch_list ≡ unlist 20 (30 ∷ 20 ∷ []))
    × Counted (life'.threads 10)
    × ((life'.threads 10).run
        ≡ (if true && length (unlist 20 (30 ∷ 20 ∷ [])) == 0 then false else true))
    × ((a : ℕ) → a ≢ 10 → life'.threads a ≡ shared.threads a)
schedule_delete-Counted_example =
    schedule_delete-Counted shared 20 (record { inc = λ n. refl; dec = λ n. refl }) (omega arith)
      (omega arith) refl (omega arith) (inr (inl refl))
