-- ===== src/Mbx/Receive/Atomic.antt =====
-- The services of src/ipc/mbx/mbx.c that do not wait take all of a message or none of it.
use rtai.Base.{
  ℕ, ◌+◌, ◌-◌, ◌≡◌, ◌⊎◌, inl, inr, refl, ap, ◌∙◌, arith, leb, List, [], ◌++◌, Bool-cases, ◌&&◌,
  if◌then◌else◌, some,
}
use rtai.Base.Int.{ℤ, pos, ltb_ℤ}
use rtai.Kernel.{Blocked, Kernel}
use rtai.Mbx.Ring.{Ring}
use rtai.Mbx.Ring.Inv.{IsValid}
use rtai.Mbx.Ring.Window.{contents}
use rtai.Mbx.Ring.Get.{mbxget-Fetched}
use rtai.Mbx.Wait.{take_now}
use rtai.Mbx.Receive.{rt_mbx_receive_if, get_done}
use rtai.Sem.{rte_objinv}

module _ (ntasks : ℕ) (rt_schedule : Kernel → Kernel) (rt_task_delete : ℕ → Kernel → Kernel)
    (address : Blocked → ℤ) (get_time : Kernel → ℕ) where
  -- _rt_mbx_receive_if on a mailbox with a valid buffer hands over all the bytes asked for or none: it
  -- returns msg_size, or the error of an invalid mailbox, and changes nothing, or else it goes on,
  -- with the semaphore taken and 0 for its value, from a valid buffer with as many bytes less, and
  -- the bytes handed over followed by its contents are the old contents.
  pub rt_mbx_receive_if-atomic :
      (m n : ℕ) (k : Kernel)
      → IsValid (k.mbxs m).ring
      → let got = rt_mbx_receive_if ntasks rt_schedule rt_task_delete address get_time m n k in
        (got ≡ some (if (k.mbxs m).magic then pos n else rte_objinv, [], k))
        ⊎ ((r : Ring) × (out : List ℕ) × (got
              ≡ get_done ntasks rt_schedule rt_task_delete address get_time m
                  (pos 0)
                  out
                  r
                  (take_now (k.mbxs m).rcvsem k))
            × IsValid r
            × (out ++ contents r ≡ contents (k.mbxs m).ring)
            × (r.avbs + n ≡ (k.mbxs m).ring.avbs))
  unfolding rt_mbx_receive_if
  rt_mbx_receive_if-atomic m n k v =
      let x = k.mbxs m in
      let g = mbxget-Fetched x.ring n v in
      elim (Bool-cases x.magic) [
        | inr e ↦ rw e (inl refl)
        | inl e ↦ elim (Bool-cases (ltb_ℤ (pos 0) (k.sems x.rcvsem).count && leb n x.ring.avbs)) [
          | inr f ↦ rw (e, f) (inl refl)
          | inl f ↦
              let fits : x.ring.avbs - n + n ≡ x.ring.avbs = ground (arith, f) in
              rw (e, f) (inr (_, _, refl, g.0, g.1, ap (λ a. a + n) g.2 ∙ fits))
        ]
      ]
