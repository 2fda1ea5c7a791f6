-- ===== src/Mbx/Send.antt =====
-- src/ipc/mbx/mbx.c: _rt_mbx_send, _wp, _if, _until, _timed and _rt_mbx_ovrwr_send.
-- A message is the list of its bytes, and `msg_size` a natural number. The result is `none` where
-- rt_sem_signal has none. The loops of the services that wait run on fuel, and have no result when
-- it is used up; a round ends with the message shorter, if the wait ended because there was room.
pub mod Atomic
use rtai.Base.{
  ℕ, zero, suc, ◌+◌, ◌==◌, leb, ltb, List, [], ◌∷◌, Bool, true, false, not, ◌&&◌, if◌then◌else◌,
  Option, none, some,
}
use rtai.Base.Int.{ℤ, pos, negsuc, ltb_ℤ, leb_ℤ, eq_ℤ}
use rtai.Kernel.{Blocked, Sem, Mailbox, Kernel, set_mbx, update}
use rtai.Mbx.Ring.{Ring, mbxput, mbxovrwrput}
use rtai.Mbx.Wait.{frbs_of, take_now, mbx_signal, mbx_wait, mbx_wait_until}
use rtai.Sem.{rte_objinv}
use rtai.Sem.Signal.{rt_sem_signal}
use rtai.Sem.Wait.{rt_sem_wait, rt_sem_wait_until}

abbrev sndsem_of : ℕ → Kernel → ℕ
sndsem_of m k = (k.mbxs m).sndsem

abbrev pub set_ring : ℕ → Ring → Kernel → Kernel
set_ring m r k = set_mbx m (record (k.mbxs m) { ring = r }) k

module _ (ntasks : ℕ) (rt_schedule : Kernel → Kernel) (rt_task_delete : ℕ → Kernel → Kernel)
    (address : Blocked → ℤ) (get_time : Kernel → ℕ) where
  -- `rt_sem_signal(&mbx->sndsem); return value;`
  end_send : ℕ → ℤ → Kernel → Option (ℤ × Kernel)
  end_send m value k = elim (rt_sem_signal rt_schedule rt_task_delete (sndsem_of m k) k) [
    | none ↦ none
    | some r ↦ some (value, r.1)
  ]

  send_loop : (Kernel → ℤ × Kernel) → ℕ → ℕ → List ℕ → ℕ → Kernel → Option (ℤ × Kernel)
  send_loop wait zero m msg msg_size k = if msg_size == 0 then end_send m (pos 0) k else none
  send_loop wait (suc fuel) m msg msg_size k = elim (msg_size == 0) [
    | true ↦ end_send m (pos 0) k
    | false ↦
        let (retval, k₁) = wait k in
        let p = mbxput (k₁.mbxs m).ring msg msg_size in
        elim (eq_ℤ retval (pos 0)) [
          | false ↦ end_send m retval k₁
          | true ↦
              send_loop wait fuel m p.msg p.msg_size
                (mbx_signal rt_schedule m (set_ring m p.ring k₁))
        ]
  ]

  -- what _rt_mbx_send and _rt_mbx_send_until share after the wait for the semaphore
  send_after : (Kernel → ℤ × Kernel) → ℕ → ℕ → List ℕ → ℕ → ℤ × Kernel → Option (ℤ × Kernel)
  send_after wait fuel m msg msg_size w =
      if ltb_ℤ (pos 1) w.0 then some w else send_loop wait fuel m msg msg_size w.1

  rt_mbx_send : ℕ → ℕ → List ℕ → ℕ → Kernel → Option (ℤ × Kernel)
  rt_mbx_send fuel m msg msg_size k =
      if not (k.mbxs m).magic
      then some (rte_objinv, k)
      else send_after (mbx_wait rt_schedule address m frbs_of) fuel m msg msg_size
          (rt_sem_wait ntasks rt_schedule (sndsem_of m k) k)

  rt_mbx_send_until : ℕ → ℕ → List ℕ → ℕ → ℕ → Kernel → Option (ℤ × Kernel)
  rt_mbx_send_until fuel m msg msg_size time k =
      if not (k.mbxs m).magic
      then some (rte_objinv, k)
      else send_after (mbx_wait_until rt_schedule m frbs_of time) fuel m msg msg_size
          (rt_sem_wait_until ntasks rt_schedule (sndsem_of m k) time k)

  rt_mbx_send_timed : ℕ → ℕ → List ℕ → ℕ → ℕ → Kernel → Option (ℤ × Kernel)
  rt_mbx_send_timed fuel m msg msg_size delay k =
      rt_mbx_send_until fuel m msg msg_size (get_time k + delay) k

  -- What follows the copy in a service that does not wait.
  pub put_done : ℕ → ℤ → Ring → Kernel → Option (ℤ × Kernel)
  put_done m value r k = end_send m value (mbx_signal rt_schedule m (set_ring m r k))

  rt_mbx_send_wp : ℕ → List ℕ → ℕ → Kernel → Option (ℤ × Kernel)
  rt_mbx_send_wp m msg msg_size k =
      let x = k.mbxs m in
      let p = mbxput x.ring msg msg_size in
      if not x.magic
      then some (rte_objinv, k)
      else if ltb_ℤ (pos 0) (k.sems x.sndsem).count && not (x.ring.frbs == 0)
      then put_done m (pos p.msg_size) p.ring (take_now x.sndsem k)
      else some (pos msg_size, k)

  pub rt_mbx_send_if : ℕ → List ℕ → ℕ → Kernel → Option (ℤ × Kernel)
  rt_mbx_send_if m msg msg_size k =
      let x = k.mbxs m in
      let p = mbxput x.ring msg msg_size in
      if not x.magic
      then some (rte_objinv, k)
      else if ltb_ℤ (pos 0) (k.sems x.sndsem).count && leb msg_size x.ring.frbs
      then put_done m (pos 0) p.ring (take_now x.sndsem k)
      else some (pos msg_size, k)

  rt_mbx_ovrwr_send : ℕ → List ℕ → ℕ → Kernel → Option (ℤ × Kernel)
  rt_mbx_ovrwr_send m msg msg_size k =
      let x = k.mbxs m in
      let p = mbxovrwrput x.ring msg msg_size in
      if not x.magic
      then some (rte_objinv, k)
      else if ltb_ℤ (pos 0) (k.sems x.sndsem).count
      then put_done m (pos 0) p.ring (take_now x.sndsem k)
      else some (pos msg_size, k)
