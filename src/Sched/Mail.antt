-- ===== src/Sched/Mail.antt =====
-- A task's message is left alone when tasks move between the lists (include/rtai_schedcore.h).
use rtai.Base.{ℕ, ◌≡◌, arith, List, Bool, true, false, some, if◌then◌else◌}
use rtai.Kernel.{Kernel, TaskState, set_task}
use rtai.Sched.{enq_ready_task, rem_timed_task}

-- What the task t finds when it goes on: the word msg, from the task c.
pub record Mail (t msg c : ℕ) (k : Kernel) : Type 0 where
  pub word : (k.tasks t).msg ≡ msg
  pub sender : (k.tasks t).msg_task ≡ some c
  pub no_error : (k.tasks t).ret_task ≡ false

-- A change of a task's state.
pub set_task-Mail :
    {t msg c : ℕ} (u : ℕ) (s : TaskState) (k : Kernel)
    → Mail t msg c k
    → Mail t msg c (set_task u (record (k.tasks u) { state = s }) k)
set_task-Mail u s k m = record {
  word = ground (arith, m.word);
  sender = ground (arith, m.sender);
  no_error = ground (arith, m.no_error);
}

lists-Mail :
    {t msg c : ℕ} (k : Kernel) (ready timed srq : List ℕ)
    → Mail t msg c k
    → Mail t msg c (record k { ready = ready; timed = timed; srq = srq })
lists-Mail k ready timed srq m = record { word = m.word; sender = m.sender; no_error = m.no_error }

Mail-if :
    {t msg c : ℕ} (b : Bool) {k l : Kernel}
    → Mail t msg c k
    → Mail t msg c l
    → Mail t msg c (if b then k else l)
Mail-if true p q = p
Mail-if false p q = q

pub enq_ready_task-Mail :
    {t msg c : ℕ} (u : ℕ) (k : Kernel) → Mail t msg c k → Mail t msg c (enq_ready_task u k)
unfolding enq_ready_task
enq_ready_task-Mail u k m =
    Mail-if (k.tasks u).is_hard (lists-Mail k _ _ _ m) (lists-Mail _ _ _ _ (set_task-Mail u _ k m))

pub rem_timed_task-Mail :
    {t msg c : ℕ} (u : ℕ) (k : Kernel) → Mail t msg c k → Mail t msg c (rem_timed_task u k)
unfolding rem_timed_task
rem_timed_task-Mail u k m = Mail-if (k.tasks u).state.delayed (lists-Mail k _ _ _ m) m
