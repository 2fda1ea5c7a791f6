-- ===== src/Mbx/Delete.antt =====
-- src/ipc/mbx/mbx.c: rt_typed_mbx_init, rt_mbx_init and rt_mbx_delete.
-- rt_malloc and rt_free are parameters: the memory that rt_malloc hands out is the list of its bytes.
use rtai.Base.{
  ℕ, zero, suc, ◌+◌, ◌%◌, ◌==◌, List, true, false, not, if◌then◌else◌, Option, none, some,
}
use rtai.Base.Int.{ℤ, pos, negsuc, eq_ℤ}
use rtai.Kernel.{Kernel, set_sem, set_mbx}
use rtai.Mbx.Wait.{mbx_delete_signal}
use rtai.Sem.{rte_objinv, rt_typed_sem_init}
use rtai.Sem.Signal.{rt_sem_delete}

-- `type & 3 ? type : BIN_SEM | type`, where BIN_SEM is 1
sem_type : ℕ → ℕ
sem_type type = if type % 4 == 0 then type + 1 else type

-- -ENOMEM and -EFAULT
abbrev enomem : ℤ
enomem = negsuc 11

abbrev efault : ℤ
efault = negsuc 13

-- PRIO_Q is 0.
abbrev prio_q : ℕ
prio_q = 0

module _ (rt_malloc : ℕ → Option (List ℕ)) where
  -- The two semaphores of the mailbox are told by their numbers in the kernel's table.
  rt_typed_mbx_init : ℕ → ℕ → ℕ → ℕ → ℕ → Kernel → ℤ × Kernel
  rt_typed_mbx_init m snd rcv size type k = elim (rt_malloc size) [
    | none ↦ (enomem, k)
    | some buf ↦ (
      pos 0,
      set_mbx m
          (record {
            magic = true;
            sndsem = snd;
            rcvsem = rcv;
            waiting_task = none;
            ring = record {
              size = size;
              fbyte = 0;
              lbyte = 0;
              avbs = 0;
              frbs = size;
              bufadr = buf;
            };
          })
          (set_sem rcv (rt_typed_sem_init (pos 1) (sem_type type))
            (set_sem snd (rt_typed_sem_init (pos 1) (sem_type type)) k)),
    )
  ]

  rt_mbx_init : ℕ → ℕ → ℕ → ℕ → Kernel → ℤ × Kernel
  rt_mbx_init m snd rcv size k = rt_typed_mbx_init m snd rcv size prio_q k

module _ (rt_schedule : Kernel → Kernel) (rt_task_delete : ℕ → Kernel → Kernel)
    (rt_free : List ℕ → Kernel → Kernel) where
  -- `while (mbx->waiting_task) mbx_delete_signal(mbx);`, on fuel
  delete_waiting : ℕ → ℕ → Kernel → Option Kernel
  delete_waiting zero m k = none
  delete_waiting (suc fuel) m k = elim (k.mbxs m).waiting_task [
    | none ↦ some k
    | some t ↦ delete_waiting fuel m (mbx_delete_signal rt_schedule m k)
  ]

  -- rt_sem_delete of the second semaphore is called only if that of the first one returned 0.
  rt_mbx_delete : ℕ → ℕ → Kernel → Option (ℤ × Kernel)
  rt_mbx_delete fuel m k =
      let x = k.mbxs m in
      let snd =
        rt_sem_delete rt_schedule rt_task_delete x.sndsem
          (set_mbx m (record x { magic = false }) k) in
      let rcv = rt_sem_delete rt_schedule rt_task_delete x.rcvsem snd.1 in
      if not x.magic
      then some (rte_objinv, k)
      else if not (eq_ℤ snd.0 (pos 0))
      then some (efault, snd.1)
      else if not (eq_ℤ rcv.0 (pos 0))
      then some (efault, rcv.1)
      else elim (delete_waiting fuel m rcv.1) [
        | none ↦ none
        | some k' ↦ some (pos 0, rt_free (k'.mbxs m).ring.bufadr k')
      ]
