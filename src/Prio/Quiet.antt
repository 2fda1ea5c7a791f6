-- ===== src/Prio/Quiet.antt =====
-- Priority inheritance moves tasks between the lists and changes priorities, and nothing else
-- (include/rtai_prinher.h).
use rtai.Base.{ℕ, ◌-◌, refl, Bool-cases, inl, inr, ◌==◌}
use rtai.Kernel.{Kernel, set_task}
use rtai.Sched.Quiet.{Quiet, Quiet-refl, Quiet-trans, set_task-Quiet, renq_ready_task-Quiet}
use rtai.Prio.{
  dequeue_resqel_reset_task_priority, set_task_prio_from_msg_queue, set_task_prio_from_resq,
  enqueue_resqel,
}

set_task_prio_from_msg_queue-Quiet :
    (t : ℕ) (k : Kernel) → Quiet k (set_task_prio_from_msg_queue t k).1
unfolding set_task_prio_from_msg_queue
set_task_prio_from_msg_queue-Quiet t k = renq_ready_task-Quiet t _ k

pub set_task_prio_from_resq-Quiet : (t : ℕ) (k : Kernel) → Quiet k (set_task_prio_from_resq t k).1
unfolding set_task_prio_from_resq
set_task_prio_from_resq-Quiet t k = elim (Bool-cases ((k.tasks t).owndres == 0)) [
  | inl e ↦ rw e (set_task_prio_from_msg_queue-Quiet t k)
  | inr e ↦ rw e (Quiet-refl k)
]

pub dequeue_resqel-Quiet : (t : ℕ) (k : Kernel) → Quiet k (dequeue_resqel_reset_task_priority t k).1
unfolding dequeue_resqel_reset_task_priority
dequeue_resqel-Quiet t k =
    let left = (k.tasks t).owndres - 1 in
    let k' : Kernel = set_task t (record (k.tasks t) { owndres = left }) k in
    let set = set_task-Quiet t (record (k.tasks t) { owndres = left }) k refl in
    elim (Bool-cases (left == 0)) [
      | inl e ↦ rw e (Quiet-trans set (set_task_prio_from_msg_queue-Quiet t k'))
      | inr e ↦ rw e set
    ]

pub enqueue_resqel-Quiet : (c : ℕ) (k : Kernel) → Quiet k (enqueue_resqel c k)
unfolding enqueue_resqel
enqueue_resqel-Quiet c k = set_task-Quiet c _ k refl
