-- ===== src/Schedule/Life/Stops.antt =====
-- zcrtlib/zschedule.c: the count of a thread's schedules, and when the thread is told to stop.

use zcrt.Base.{
  leb, ◌==◌, if◌then◌else◌, Bool-cases, length, ℕ, ◌+◌, ◌-◌, ◌%◌, ◌≤◌, ◌<◌, ◌≡◌, refl, ◌≢◌, ◌⊎◌,
  inl, inr, true, false, ◌&&◌, some, List, [], ◌∷◌, arith,
}
use zcrt.Os.{Counts, linux_atoms}
use zcrt.Buf.{u32}
use zcrt.Schedule.Life.{
  Life, Thread, Sch, is_self, self_thread, set_thread, set_sch, unlist, leave_thread,
  schedule_delete, place_sch, use_thread, thr_add_sch, schedule_create, thr_new,
}

abbrev pub Listed : ℕ → List ℕ → Type 0
Listed h [] = ⊥
Listed h (x ∷ xs) = (x ≡ h) ⊎ Listed h xs

length-unlist : (h : ℕ) (xs : List ℕ) → Listed h xs → length xs ≡ length (unlist h xs) + 1
unfolding unlist
length-unlist h [] absurdity = elim absurdity [ ]
length-unlist h (x ∷ xs) (inl here) =
    let hit : (x == h) ≡ true = ground arith in rw hit (omega arith)
length-unlist h (x ∷ xs) (inr there) = elim (Bool-cases (x == h)) [
  | inl hit ↦ rw hit (omega arith)
  | inr miss ↦ rw miss (omega (arith, length-unlist h xs there))
]

-- The count of a thread is the number of its schedules.
abbrev pub Counted : Thread → Type 0
Counted thr = thr.ref_cnt ≡ length thr.sch_list

-- Where `zcrt_atom_dec` counts, deleting a schedule of one of the three priorities, which is in the
-- list of its thread, whose count is right, takes it from the list, keeps the count right, and leaves
-- the other threads alone. The thread is told to stop exactly if the schedule is the one that the
-- thread was made for and no other is left; a schedule that shares the thread does not stop it, even
-- if it is the last.
pub schedule_delete-Counted :
    (life : Life) (h : ℕ)
    → Counts life.atoms
    → 1 ≤ h
    → (life.schs h).pri < 3
    → Counted (life.threads (life.schs h).thr)
    → length (life.threads (life.schs h).thr).sch_list < u32
    → Listed h (life.threads (life.schs h).thr).sch_list
    → (life' : Life) × (schedule_delete life h ≡ some life')
      × ((life'.threads (life.schs h).thr).sch_list
          ≡ unlist h (life.threads (life.schs h).thr).sch_list)
      × Counted (life'.threads (life.schs h).thr)
      × ((life'.threads (life.schs h).thr).run ≡ (
          if is_self (life.schs h).sch_type
            && length (unlist h (life.threads (life.schs h).thr).sch_list) == 0
          then false
          else (life.threads (life.schs h).thr).run))
      × ((a : ℕ) → a ≢ (life.schs h).thr → life'.threads a ≡ life.threads a)
unfolding schedule_delete leave_thread
schedule_delete-Counted life h counts real priority counted small listed =
    let sch = life.schs h in
    let t = sch.thr in
    let thr = life.threads t in
    let rest = unlist h thr.sch_list in
    let not_null : (h == 0) ≡ false = ground arith in
    let allowed : leb 3 sch.pri ≡ false = ground arith in
    let self : (t == t) ≡ true = ground arith in
    let one_less = length-unlist h thr.sch_list listed in
    let left : (thr.ref_cnt + (u32 - 1)) % u32 ≡ length rest = omega (arith, one_less, counted) in
    let dec = counts.dec thr.ref_cnt in
    (
      set_sch (set_thread life t (leave_thread life.atoms thr sch.sch_type h)) h
          (record sch { thr = 0 }),
      rw (not_null, allowed),
      rw self,
      rw (self, dec, left),
      rw (self, dec, left),
      λ a apart. let other : (a == t) ≡ false = ground arith in rw other,
    )

-- On Linux, where `zcrt_atom_dec` does nothing and returns 0, deleting the schedule that a thread was
-- made for tells the thread to stop, whatever other schedules share it, and the count stays as it is.
pub schedule_delete-linux_atoms :
    (life : Life) (h : ℕ)
    → life.atoms ≡ linux_atoms
    → 1 ≤ h
    → (life.schs h).pri < 3
    → (life.schs h).sch_type ≡ self_thread
    → (life' : Life) × (schedule_delete life h ≡ some life')
      × ((life'.threads (life.schs h).thr).run ≡ false)
      × ((life'.threads (life.schs h).thr).ref_cnt ≡ (life.threads (life.schs h).thr).ref_cnt)
      × ((life'.threads (life.schs h).thr).sch_list
          ≡ unlist h (life.threads (life.schs h).thr).sch_list)
unfolding schedule_delete leave_thread
schedule_delete-linux_atoms life h linux real priority own =
    let sch = life.schs h in
    let t = sch.thr in
    let not_null : (h == 0) ≡ false = ground arith in
    let allowed : leb 3 sch.pri ≡ false = ground arith in
    let self : (t == t) ≡ true = ground arith in
    (
      set_sch (set_thread life t (leave_thread life.atoms (life.threads t) sch.sch_type h)) h
          (record sch { thr = 0 }),
      rw (not_null, allowed),
      rw (self, linux, own),
      rw (self, linux),
      rw self,
    )

-- A schedule that is created for a thread of its own, with addresses that are not NULL, is the only
-- one in the list of that thread, whose count is 1 where `zcrt_atom_inc` counts, and which runs; the
-- other threads are as before, and the module's list has the new one in front.
pub schedule_create-self_thread :
    (life : Life) (h t pri maxsize : ℕ)
    → Counts life.atoms
    → 1 ≤ h
    → 1 ≤ t
    → (life' : Life) × (schedule_create life h t self_thread pri maxsize ≡ some (life', h))
      × (life'.threads t ≡ record { run = true; ref_cnt = 1; sch_list = h ∷ [] })
      × (life'.schs h ≡ record { thr = t; pri = pri; maxsize = maxsize; sch_type = self_thread })
      × (life'.schthr_list ≡ t ∷ life.schthr_list)
      × ((a : ℕ) → a ≢ t → life'.threads a ≡ life.threads a)
unfolding schedule_create place_sch thr_new use_thread thr_add_sch
schedule_create-self_thread life h t pri maxsize counts real real' =
    let not_null : (h == 0) ≡ false = ground arith in
    let not_null' : (t == 0) ≡ false = ground arith in
    let self : (t == t) ≡ true = ground arith in
    let self' : (h == h) ≡ true = ground arith in
    let sch : Sch = record { thr = t; pri = pri; maxsize = maxsize; sch_type = self_thread } in
    (
      use_thread (set_sch (thr_new life true t) h sch) t h,
      rw (not_null, not_null'),
      rw (self, counts.inc 0),
      rw self',
      refl,
      λ a apart. let other : (a == t) ≡ false = ground arith in rw other,
    )
