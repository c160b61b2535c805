-- ===== src/Schedule/Life.antt =====
-- zcrtlib/zschedule.c: creating and deleting schedules, and when their thread stops. Threads and
-- schedules are named by their addresses, 0 for NULL; the names that they are given are only copied.
-- A new address is an argument, as malloc returns it.
pub mod Stops
mod Tests
use zcrt.Tlv.Len.{left}
use zcrt.Schedule.{sch_pri_num}
use zcrt.Os.{AtomOps}
use zcrt.Base.{
  leb, ◌==◌, if◌then◌else◌, Run, ℕ, Bool, true, false, ◌&&◌, ◌||◌, none, some, List, [], ◌∷◌,
}

-- `EZCRTSchType`
pub data SchType : Type 0 where
  zcrt_thread self_thread share_thread : SchType

abbrev pub is_self : SchType → Bool
is_self self_thread = true
is_self _ = false

-- What `_zstSchThr` says of its life: whether it runs, how often it is used, and its schedules.
pub record Thread : Type 0 where
  pub run : Bool
  pub ref_cnt : ℕ
  pub sch_list : List ℕ

-- The same of `_zstSchedule`.
pub record Sch : Type 0 where
  pub thr : ℕ
  pub pri : ℕ
  pub maxsize : ℕ
  pub sch_type : SchType

-- The threads and schedules at their addresses, and the module's own thread and its list of threads.
pub record Life : Type 0 where
  pub atoms : AtomOps
  pub threads : ℕ → Thread
  pub schs : ℕ → Sch
  pub zcrtthr : ℕ
  pub schthr_list : List ℕ

abbrev pub set_thread : Life → ℕ → Thread → Life
set_thread life t thr = record life { threads = λ a. if a == t then thr else life.threads a }

abbrev pub set_sch : Life → ℕ → Sch → Life
set_sch life h sch = record life { schs = λ a. if a == h then sch else life.schs a }

-- `t` is the new thread; a thread of a module joins its list.
unfoldable pub thr_new : Life → Bool → ℕ → Life
thr_new life of_module t =
    let fresh = set_thread life t (record { run = true; ref_cnt = 0; sch_list = [] }) in
    if of_module then record fresh { schthr_list = t ∷ life.schthr_list } else fresh

-- Both branches of the source put the schedule in front.
unfoldable pub thr_add_sch : Life → ℕ → ℕ → Life
thr_add_sch life t h =
    let thr = life.threads t in set_thread life t (record thr { sch_list = h ∷ thr.sch_list })

-- The counting, and the list of the thread.
unfoldable pub use_thread : Life → ℕ → ℕ → Life
use_thread life t h =
    let thr = life.threads t in
    thr_add_sch (set_thread life t (record thr { ref_cnt = (life.atoms.atom_inc thr.ref_cnt).0 })) t
      h

-- The schedule at `h`, on the thread at `t`; a thread that is NULL is followed.
unfoldable pub place_sch : Life → ℕ → Sch → Run (Life × ℕ)
place_sch life h sch =
    if sch.thr == 0 then none else some (use_thread (set_sch life h sch) sch.thr h, h)

unfoldable pub schedule_create : Life → ℕ → ℕ → SchType → ℕ → ℕ → Run (Life × ℕ)
schedule_create life h t sch_type pri maxsize =
    if h == 0
    then some (life, 0)
    else if is_self sch_type
    then place_sch (thr_new life true t) h
        (record { thr = t; pri = pri; maxsize = maxsize; sch_type = sch_type })
    else place_sch life h
        (record { thr = life.zcrtthr; pri = pri; maxsize = maxsize; sch_type = sch_type })

-- A schedule that shares a thread which is not its own gets the module's thread.
unfoldable pub schedule_create_share : Life → ℕ → ℕ → ℕ → ℕ → Run (Life × ℕ)
schedule_create_share life h h1 pri maxsize =
    let share = life.schs h1 in
    if h == 0 || h1 == 0
    then some (life, 0)
    else if is_self share.sch_type
    then place_sch life h
        (record { thr = share.thr; pri = pri; maxsize = maxsize; sch_type = share_thread })
    else place_sch life h
        (record { thr = life.zcrtthr; pri = pri; maxsize = maxsize; sch_type = zcrt_thread })

-- The list without the first node at `h`.
unfoldable pub unlist : ℕ → List ℕ → List ℕ
unlist h [] = []
unlist h (x ∷ xs) = let rest = unlist h xs in if x == h then xs else x ∷ rest

-- The thread after one of its schedules has been deleted: `cnt` is what `zcrt_atom_dec` returns.
unfoldable pub leave_thread : AtomOps → Thread → SchType → ℕ → Thread
leave_thread atoms thr sch_type h =
    let (left, cnt) = atoms.atom_dec thr.ref_cnt in
    record {
      run = if is_self sch_type && cnt == 0 then false else thr.run;
      ref_cnt = left;
      sch_list = unlist h thr.sch_list;
    }

-- The jobs in the queues of the thread are in another module.
unfoldable pub schedule_delete : Life → ℕ → Run Life
schedule_delete life h =
    let sch = life.schs h in
    if h == 0
    then some life
    else if leb sch_pri_num sch.pri
    then none
    else some (
        set_sch
          (set_thread life sch.thr (leave_thread life.atoms (life.threads sch.thr) sch.sch_type h))
          h (record sch { thr = 0 }))

-- The threads at the addresses of a list are told to stop.
unfoldable pub stop_all : Life → List ℕ → Life
stop_all life [] = life
stop_all life (t ∷ ts) = stop_all (set_thread life t (record (life.threads t) { run = false })) ts

unfoldable pub schedule_module_delete : Life → Life
schedule_module_delete life =
    if life.zcrtthr == 0
    then life
    else stop_all
        (set_thread life life.zcrtthr (record (life.threads life.zcrtthr) { run = false }))
        life.schthr_list

-- The end of a thread's procedure takes it from the list of its module.
unfoldable pub thr_remove_from_module : Life → ℕ → Life
thr_remove_from_module life t = record life { schthr_list = unlist t life.schthr_list }
