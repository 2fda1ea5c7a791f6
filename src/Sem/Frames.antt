-- ===== src/Sem/Frames.antt =====
-- What the steps of the semaphore services leave alone (src/ipc/sem/sem.c, include/rtai_prinher.h).
use rtai.Base.{ℕ, ◌≡◌, refl, false, Bool-cases, inl, inr}
use rtai.Kernel.{Kernel, Sem, nobody, is_ready}
use rtai.Sched.{rem_timed_task, dequeue_blocked}
use rtai.Sched.Quiet.{
  Quiet, Quiet-refl, Quiet-trans, set_task-Quiet, enq_ready_task-Quiet, rem_timed_task-Quiet,
}
use rtai.Sem.{clear_if_waiting, release, owned_by, is_owner}

clear_if_waiting-Quiet : (t : ℕ) (k : Kernel) → Quiet k (clear_if_waiting t k).1
unfolding clear_if_waiting
clear_if_waiting-Quiet t k = elim (Bool-cases (is_ready (k.tasks t).state)) [
  | inl e ↦ rw e (Quiet-refl k)
  | inr e ↦ rw e (set_task-Quiet t _ k refl)
]

-- A released task is taken out of the queue; all else about the semaphores is as it was.
pub release-Quiet : (t s : ℕ) (k : Kernel) → Quiet (dequeue_blocked t s k) (release t s k).1
unfolding release
release-Quiet t s k =
    let d = dequeue_blocked t s k in
    let r = rem_timed_task t d in
    let c = clear_if_waiting t r in
    let quiet : Quiet d c.1 = Quiet-trans (rem_timed_task-Quiet t d) (clear_if_waiting-Quiet t r) in
    elim (Bool-cases c.0) [
      | inl e ↦ rw e (Quiet-trans quiet (enq_ready_task-Quiet t c.1))
      | inr e ↦ rw e quiet
    ]

pub owned_by-nobody : (m : Sem) (t : ℕ) → m.owndby ≡ nobody → owned_by m t ≡ false
unfolding owned_by is_owner
owned_by-nobody m t e = rw e refl
