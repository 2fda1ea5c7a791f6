-- ===== src/Mbx/Tests.antt =====
-- Mailboxes at concrete inputs (src/ipc/mbx/mbx.c).
use rtai.Base.{ℕ, ◌+◌, ◌*◌, ◌≡◌, ◌⊎◌, List, [], ◌∷◌, ◌++◌, take, arith, some, if◌then◌else◌, true}
use rtai.Base.Int.{ℤ, pos, negsuc}
use rtai.Kernel.{Kernel, Blocked, nobody}
use rtai.Kernel.Samples.{ready_task, a_sem, a_kernel}
use rtai.Mbx.Ring.{Ring}
use rtai.Mbx.Ring.Inv.{IsValid}
use rtai.Mbx.Ring.Window.{contents}
use rtai.Mbx.Wait.{take_now}
use rtai.Mbx.Send.{rt_mbx_send_if, put_done}
use rtai.Mbx.Send.Atomic.{rt_mbx_send_if-atomic}
use rtai.Mbx.Receive.{rt_mbx_receive_if, get_done}
use rtai.Mbx.Receive.Atomic.{rt_mbx_receive_if-atomic}
use rtai.Sem.{rte_objinv}

abbrev idle : Kernel
idle = a_kernel (λ t. ready_task (t * 10)) (λ s. a_sem (negsuc 0) (pos 1) nobody []) (1 ∷ 2 ∷ [])

-- rt_schedule() comes back at once, and the clock shows the time of the kernel.
abbrev at_once : Kernel → Kernel
at_once k = k

abbrev nothing_deleted : ℕ → Kernel → Kernel
nothing_deleted t k = k

abbrev no_address : Blocked → ℤ
no_address b = pos 4096

abbrev clock : Kernel → ℕ
clock k = k.time_h

rt_mbx_send_if-atomic_example :
    let sent =
      rt_mbx_send_if 3 at_once nothing_deleted no_address clock 0 (7 ∷ 8 ∷ 9 ∷ []) 3 idle in
    (sent ≡ some (if true then pos 3 else rte_objinv, idle))
    ⊎ ((r : Ring) × (sent
          ≡ put_done 3 at_once nothing_deleted no_address clock 0 (pos 0) r (take_now 2 idle))
        × IsValid r
        × (contents r ≡ contents (idle.mbxs 0).ring ++ take 3 (7 ∷ 8 ∷ 9 ∷ [])))
rt_mbx_send_if-atomic_example =
    rt_mbx_send_if-atomic 3 at_once nothing_deleted no_address clock 0 (7 ∷ 8 ∷ 9 ∷ []) 3 idle
      (omega arith) (omega arith)

rt_mbx_receive_if-atomic_example :
    let got = rt_mbx_receive_if 3 at_once nothing_deleted no_address clock 0 2 idle in
    (got ≡ some (if true then pos 2 else rte_objinv, [], idle))
    ⊎ ((r : Ring) × (out : List ℕ) × (got
          ≡ get_done 3 at_once nothing_deleted no_address clock 0 (pos 0) out r (take_now 3 idle))
        × IsValid r
        × (out ++ contents r ≡ contents (idle.mbxs 0).ring)
        × (r.avbs + 2 ≡ (idle.mbxs 0).ring.avbs))
rt_mbx_receive_if-atomic_example =
    rt_mbx_receive_if-atomic 3 at_once nothing_deleted no_address clock 0 2 idle (omega arith)
