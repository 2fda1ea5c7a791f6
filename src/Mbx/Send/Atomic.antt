-- ===== src/Mbx/Send/Atomic.antt =====
-- The services of src/ipc/mbx/mbx.c that do not wait take all of a message or none of it.
use rtai.Base.{
  ℕ, ◌≤◌, ◌≡◌, ◌⊎◌, inl, inr, refl, ap, ◌∙◌, arith, leb, List, ◌++◌, length, take, min, Bool-cases,
  ◌&&◌, if◌then◌else◌, some,
}
use rtai.Base.Int.{ℤ, pos, ltb_ℤ}
use rtai.Kernel.{Blocked, Kernel}
use rtai.Mbx.Ring.{Ring}
use rtai.Mbx.Ring.Inv.{IsValid}
use rtai.Mbx.Ring.Window.{contents}
use rtai.Mbx.Ring.Put.{mbxput-Stored}
use rtai.Mbx.Wait.{take_now}
use rtai.Mbx.Send.{rt_mbx_send_if, put_done}
use rtai.Sem.{rte_objinv}

module _ (ntasks : ℕ) (rt_schedule : Kernel → Kernel) (rt_task_delete : ℕ → Kernel → Kernel)
    (address : Blocked → ℤ) (get_time : Kernel → ℕ) where
  -- _rt_mbx_send_if on a mailbox with a valid buffer takes all of a message or none of it: it returns
  -- msg_size, or the error of an invalid mailbox, and changes nothing, or else it goes on, with the
  -- semaphore taken and 0 for its value, from a valid buffer whose contents are the old ones and
  -- behind them the whole message.
  pub rt_mbx_send_if-atomic :
      (m : ℕ) (msg : List ℕ) (n : ℕ) (k : Kernel)
      → IsValid (k.mbxs m).ring
      → n ≤ length msg
      → let sent = rt_mbx_send_if ntasks rt_schedule rt_task_delete address get_time m msg n k in
        (sent ≡ some (if (k.mbxs m).magic then pos n else rte_objinv, k))
        ⊎ ((r : Ring) × (sent
              ≡ put_done ntasks rt_schedule rt_task_delete address get_time m
                  (pos 0)
                  r
                  (take_now (k.mbxs m).sndsem k))
            × IsValid r
            × (contents r ≡ contents (k.mbxs m).ring ++ take n msg))
  unfolding rt_mbx_send_if
  rt_mbx_send_if-atomic m msg n k v l =
      let x = k.mbxs m in
      let p = mbxput-Stored x.ring msg n v l in
      elim (Bool-cases x.magic) [
        | inr e ↦ rw e (inl refl)
        | inl e ↦ elim (Bool-cases (ltb_ℤ (pos 0) (k.sems x.sndsem).count && leb n x.ring.frbs)) [
          | inr f ↦ rw (e, f) (inl refl)
          | inl f ↦
              let fits : min n x.ring.frbs ≡ n = ground (arith, f) in
              rw (e, f)
                (inr (_, refl, p.valid, p.appended ∙ ap (λ c. contents x.ring ++ take c msg) fits))
        ]
      ]
