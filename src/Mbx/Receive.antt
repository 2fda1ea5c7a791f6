-- ===== src/Mbx/Receive.antt =====
-- src/ipc/mbx/mbx.c: _rt_mbx_receive, _wp, _if, _until, _timed and _rt_mbx_evdrp.
-- The bytes that have been stored at the caller's buffer are part of the result. Fuel is as in Send.
pub mod Atomic
use rtai.Base.{
  ℕ, zero, suc, ◌+◌, ◌==◌, leb, ltb, List, [], ◌∷◌, ◌++◌, Bool, true, false, not, ◌&&◌,
  if◌then◌else◌, Option, none, some,
}
use rtai.Base.Int.{ℤ, pos, negsuc, ltb_ℤ, leb_ℤ, eq_ℤ}
use rtai.Kernel.{Blocked, Sem, Mailbox, Kernel, set_mbx, update}
use rtai.Mbx.Ring.{Ring, mbxget, mbxevdrp}
use rtai.Mbx.Wait.{avbs_of, take_now, mbx_signal, mbx_wait, mbx_wait_until}
use rtai.Mbx.Send.{set_ring}
use rtai.Sem.{rte_objinv}
use rtai.Sem.Signal.{rt_sem_signal}
use rtai.Sem.Wait.{rt_sem_wait, rt_sem_wait_until}

abbrev rcvsem_of : ℕ → Kernel → ℕ
rcvsem_of m k = (k.mbxs m).rcvsem

module _ (ntasks : ℕ) (rt_schedule : Kernel → Kernel) (rt_task_delete : ℕ → Kernel → Kernel)
    (address : Blocked → ℤ) (get_time : Kernel → ℕ) where
  -- `rt_sem_signal(&mbx->rcvsem); return value;`
  end_receive : ℕ → ℤ → List ℕ → Kernel → Option (ℤ × List ℕ × Kernel)
  end_receive m value out k = elim (rt_sem_signal rt_schedule rt_task_delete (rcvsem_of m k) k) [
    | none ↦ none
    | some r ↦ some (value, out, r.1)
  ]

  receive_loop : (Kernel → ℤ × Kernel) → ℕ → ℕ → List ℕ → ℕ → Kernel → Option (ℤ × List ℕ × Kernel)
  receive_loop wait zero m out msg_size k =
      if msg_size == 0 then end_receive m (pos 0) out k else none
  receive_loop wait (suc fuel) m out msg_size k = elim (msg_size == 0) [
    | true ↦ end_receive m (pos 0) out k
    | false ↦
        let (retval, k₁) = wait k in
        let g = mbxget (k₁.mbxs m).ring msg_size in
        elim (eq_ℤ retval (pos 0)) [
          | false ↦ end_receive m retval out k₁
          | true ↦
              receive_loop wait fuel m (out ++ g.out) g.msg_size
                (mbx_signal rt_schedule m (set_ring m g.ring k₁))
        ]
  ]

  -- Where the wait for the semaphore fails, the value is msg_size, whatever the error.
  rt_mbx_receive : ℕ → ℕ → ℕ → Kernel → Option (ℤ × List ℕ × Kernel)
  rt_mbx_receive fuel m msg_size k =
      let w = rt_sem_wait ntasks rt_schedule (rcvsem_of m k) k in
      if not (k.mbxs m).magic
      then some (rte_objinv, [], k)
      else if ltb_ℤ (pos 1) w.0
      then some (pos msg_size, [], w.1)
      else receive_loop (mbx_wait rt_schedule address m avbs_of) fuel m [] msg_size w.1

  -- Here the error of the wait for the semaphore is the value.
  rt_mbx_receive_until : ℕ → ℕ → ℕ → ℕ → Kernel → Option (ℤ × List ℕ × Kernel)
  rt_mbx_receive_until fuel m msg_size time k =
      let w = rt_sem_wait_until ntasks rt_schedule (rcvsem_of m k) time k in
      if not (k.mbxs m).magic
      then some (rte_objinv, [], k)
      else if ltb_ℤ (pos 1) w.0
      then some (w.0, [], w.1)
      else receive_loop (mbx_wait_until rt_schedule m avbs_of time) fuel m [] msg_size w.1

  rt_mbx_receive_timed : ℕ → ℕ → ℕ → ℕ → Kernel → Option (ℤ × List ℕ × Kernel)
  rt_mbx_receive_timed fuel m msg_size delay k =
      rt_mbx_receive_until fuel m msg_size (get_time k + delay) k

  -- What follows the copy in a service that does not wait.
  pub get_done : ℕ → ℤ → List ℕ → Ring → Kernel → Option (ℤ × List ℕ × Kernel)
  get_done m value out r k = end_receive m value out (mbx_signal rt_schedule m (set_ring m r k))

  rt_mbx_receive_wp : ℕ → ℕ → Kernel → Option (ℤ × List ℕ × Kernel)
  rt_mbx_receive_wp m msg_size k =
      let x = k.mbxs m in
      let g = mbxget x.ring msg_size in
      if not x.magic
      then some (rte_objinv, [], k)
      else if ltb_ℤ (pos 0) (k.sems x.rcvsem).count && not (x.ring.avbs == 0)
      then get_done m (pos g.msg_size) g.out g.ring (take_now x.rcvsem k)
      else some (pos msg_size, [], k)

  pub rt_mbx_receive_if : ℕ → ℕ → Kernel → Option (ℤ × List ℕ × Kernel)
  rt_mbx_receive_if m msg_size k =
      let x = k.mbxs m in
      let g = mbxget x.ring msg_size in
      if not x.magic
      then some (rte_objinv, [], k)
      else if ltb_ℤ (pos 0) (k.sems x.rcvsem).count && leb msg_size x.ring.avbs
      then get_done m (pos 0) g.out g.ring (take_now x.rcvsem k)
      else some (pos msg_size, [], k)

  -- It looks at the buffer only, and at no magic number.
  rt_mbx_evdrp : ℕ → ℕ → Bool → Kernel → ℤ × List ℕ × Kernel
  rt_mbx_evdrp m msg_size space k =
      let p = mbxevdrp (k.mbxs m).ring msg_size space in (pos p.msg_size, p.out, k)
