-- ===== src/Rwl.antt =====
-- src/ipc/sem/sem.c: the locks of many readers or one writer (RWL). A lock has a mutex for the writer
-- and two counting semaphores on which writers and readers wait; `rdsem.owndby` is no task, it counts
-- the readers. A wait goes on as often as other tasks make it, on fuel that the caller names.
pub mod Exclusive
pub mod Calls
pub mod Wakes
mod Tests
use rtai.Base.{
  ℕ, zero, suc, ◌+◌, leb, Bool, true, false, ◌&&◌, ◌||◌, if◌then◌else◌, Option, none, some,
}
use rtai.Base.Int.{ℤ, pos, negsuc, ltb_ℤ, leb_ℤ, eq_ℤ}
use rtai.Kernel.{Owner, nobody, task, number, Kernel, set_sem}
use rtai.Sched.{priority_of}
use rtai.Sem.{rte_base, rte_objinv, rte_perm, rte_lowerr, rt_typed_sem_init, owned_by, head?}
use rtai.Sem.Signal.{rt_sem_signal, rt_sem_broadcast, rt_sem_delete}
use rtai.Sem.Wait.{rt_sem_wait, rt_sem_wait_if, rt_sem_wait_until}

-- RWL (include/rtai_sem.h): where its semaphores stand in the kernel's table
pub record Rwl : Type 0 where
  pub wrmtx : ℕ
  pub wrsem : ℕ
  pub rdsem : ℕ

-- RTE_RWLINV, and RT_RWLINV is 11
abbrev rte_rwlinv : ℤ
rte_rwlinv = pos (rte_base + 11)

-- owndby as a test
pub is_owned : Owner → Bool
is_owned nobody = false
is_owned (task t) = true
is_owned (number n) = true

-- `((volatile int *)&owndby)[0]++`, where 0 is NULL
pub one_more : Owner → Owner
one_more nobody = number 1
one_more (task t) = task t
one_more (number n) = number (suc n)

-- `((volatile int *)&owndby)[0]--`
pub one_less : Owner → Owner
one_less nobody = nobody
one_less (task t) = task t
one_less (number zero) = nobody
one_less (number (suc zero)) = nobody
one_less (number (suc (suc n))) = number (suc n)

abbrev pub set_owner : ℕ → Owner → Kernel → Kernel
set_owner s o k = set_sem s (record (k.sems s) { owndby = o }) k

-- The first task that waits in a queue.
abbrev pub first_in : ℕ → Kernel → Option ℕ
first_in s k = head? (k.sems s).queue

-- RES_SEM is 3, CNT_SEM | PRIO_Q is 2.
rt_typed_rwl_init : ℤ → Rwl → Kernel → Kernel
rt_typed_rwl_init type l k =
    set_sem l.rdsem (rt_typed_sem_init (pos 0) 2)
      (set_sem l.wrsem (rt_typed_sem_init (pos 0) 2) (set_sem l.wrmtx (rt_typed_sem_init type 3) k))

-- `rwl->wrmtx.owndby || ((wtask = ...) && wtask->priority <= rt_current->priority)`
pub readers_wait : Rwl → ℕ → Kernel → Bool
readers_wait l c k =
    is_owned (k.sems l.wrmtx).owndby
    || elim (first_in l.wrsem k) [ none ↦ false | some w ↦ leb (priority_of k w) (priority_of k c) ]

abbrev pub add_reader : Rwl → Kernel → Kernel
add_reader l k = set_owner l.rdsem (one_more (k.sems l.rdsem).owndby) k

abbrev pub drop_reader : Rwl → Kernel → Kernel
drop_reader l k = set_owner l.rdsem (one_less (k.sems l.rdsem).owndby) k

-- rt_rwl_rdlock and rt_rwl_rdlock_until, by the wait for rdsem that they use
rdlock_loop : (Kernel → ℤ × Kernel) → ℕ → Rwl → ℕ → Kernel → Option (ℤ × Kernel)
rdlock_loop wait zero l c k = none
rdlock_loop wait (suc fuel) l c k =
    let r = wait k in
    elim (readers_wait l c k) [
      | false ↦ some (pos 0, add_reader l k)
      | true ↦ elim (owned_by (k.sems l.wrmtx) c) [
        | true ↦ some (rte_rwlinv, k)
        | false ↦ elim (leb_ℤ rte_lowerr r.0) [
          | true ↦ some r
          | false ↦ rdlock_loop wait fuel l c r.1
        ]
      ]
    ]

-- The wait of a writer for the readers, and then for the mutex.
wrlock_loop : (Kernel → ℤ × Kernel) → (Kernel → ℤ × Kernel) → ℕ → Rwl → Kernel → Option (ℤ × Kernel)
wrlock_loop wait lock zero l k = none
wrlock_loop wait lock (suc fuel) l k =
    let r = wait k in
    let m = lock k in
    elim (is_owned (k.sems l.rdsem).owndby) [
      | false ↦ some (if leb_ℤ rte_lowerr m.0 then m.0 else pos 0, m.1)
      | true ↦ elim (leb_ℤ rte_lowerr r.0) [
        | true ↦ some r
        | false ↦ wrlock_loop wait lock fuel l r.1
      ]
    ]

module _ (ntasks : ℕ) (rt_schedule : Kernel → Kernel) (get_time : Kernel → ℕ) where
  rt_rwl_rdlock : ℕ → Rwl → Kernel → Option (ℤ × Kernel)
  rt_rwl_rdlock fuel l k = rdlock_loop (rt_sem_wait ntasks rt_schedule l.rdsem) fuel l k.current k

  rt_rwl_rdlock_until : ℕ → Rwl → ℕ → Kernel → Option (ℤ × Kernel)
  rt_rwl_rdlock_until fuel l time k =
      rdlock_loop (rt_sem_wait_until ntasks rt_schedule l.rdsem time) fuel l k.current k

  rt_rwl_rdlock_timed : ℕ → Rwl → ℕ → Kernel → Option (ℤ × Kernel)
  rt_rwl_rdlock_timed fuel l delay k = rt_rwl_rdlock_until fuel l (get_time k + delay) k

  rt_rwl_wrlock : ℕ → Rwl → Kernel → Option (ℤ × Kernel)
  rt_rwl_wrlock fuel l k =
      wrlock_loop (rt_sem_wait ntasks rt_schedule l.wrsem) (rt_sem_wait ntasks rt_schedule l.wrmtx)
        fuel l k

  rt_rwl_wrlock_until : ℕ → Rwl → ℕ → Kernel → Option (ℤ × Kernel)
  rt_rwl_wrlock_until fuel l time k =
      wrlock_loop (rt_sem_wait_until ntasks rt_schedule l.wrsem time)
        (rt_sem_wait_until ntasks rt_schedule l.wrmtx time) fuel l k

  rt_rwl_wrlock_timed : ℕ → Rwl → ℕ → Kernel → Option (ℤ × Kernel)
  rt_rwl_wrlock_timed fuel l delay k = rt_rwl_wrlock_until fuel l (get_time k + delay) k

  pub rt_rwl_rdlock_if : Rwl → Kernel → ℤ × Kernel
  rt_rwl_rdlock_if l k =
      if readers_wait l k.current k then (negsuc 0, k) else (pos 0, add_reader l k)

  -- The mutex is asked for only where there is no reader.
  pub rt_rwl_wrlock_if : Rwl → Kernel → ℤ × Kernel
  rt_rwl_wrlock_if l k =
      let r = rt_sem_wait_if ntasks rt_schedule l.wrmtx k in
      if is_owned (k.sems l.rdsem).owndby
      then (negsuc 0, k)
      else (if ltb_ℤ (pos 0) r.0 && ltb_ℤ r.0 rte_lowerr then pos 0 else negsuc 0, r.1)

module _ (rt_schedule : Kernel → Kernel) (rt_task_delete : ℕ → Kernel → Kernel) where
  abbrev pub signal : ℕ → Kernel → Option Kernel
  signal s k = elim (rt_sem_signal rt_schedule rt_task_delete s k) [
    | none ↦ none
    | some r ↦ some r.1
  ]

  abbrev pub broadcast : ℕ → Kernel → Kernel
  broadcast s k = (rt_sem_broadcast rt_schedule rt_task_delete s k).1

  -- The second part of rt_rwl_unlock: who goes on, if the lock is free.
  pub hand_on : Rwl → Kernel → Option Kernel
  hand_on l k =
      if is_owned (k.sems l.wrmtx).owndby || is_owned (k.sems l.rdsem).owndby
      then some k
      else elim (first_in l.wrsem k) [
        | none ↦ elim (first_in l.rdsem k) [ none ↦ some k | some r ↦ some (broadcast l.rdsem k) ]
        | some w ↦ elim (first_in l.rdsem k) [
          | none ↦ signal l.wrsem k
          | some r ↦
              if leb (priority_of k w) (priority_of k r)
              then signal l.wrsem k
              else some (broadcast l.rdsem k)
        ]
      ]

  abbrev pub done : Option Kernel → Option (ℤ × Kernel)
  done none = none
  done (some k) = some (pos 0, k)

  pub rt_rwl_unlock : Rwl → Kernel → Option (ℤ × Kernel)
  rt_rwl_unlock l k =
      if owned_by (k.sems l.wrmtx) k.current
      then elim (signal l.wrmtx k) [ none ↦ none | some k' ↦ done (hand_on l k') ]
      else if is_owned (k.sems l.rdsem).owndby
      then done (hand_on l (drop_reader l k))
      else some (rte_perm, k)

  rt_rwl_delete : Rwl → Kernel → ℤ × Kernel
  rt_rwl_delete l k =
      let d = rt_sem_delete rt_schedule rt_task_delete in
      let r = d l.rdsem k in
      let w = d l.wrsem r.1 in
      let m = d l.wrmtx w.1 in
      (if eq_ℤ r.0 (pos 0) && eq_ℤ w.0 (pos 0) && eq_ℤ m.0 (pos 0) then pos 0 else rte_objinv, m.1)
