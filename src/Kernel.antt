-- ===== src/Kernel.antt =====
-- The state that the services share: tasks, semaphores and the two task lists of a processor.
-- include/rtai_sched.h (RT_TASK), include/rtai_sem.h (SEM), include/rtai_schedcore.h.
-- A pointer to a task or to a semaphore is a number. A circular list with a head is the list of
-- what is linked in it, from `head.next` on; unlinking a node takes it out of that list.
pub mod Samples
use rtai.Base.{
  ℕ, zero, suc, List, [], ◌∷◌, Bool, true, false, not, ◌&&◌, ◌==◌, if◌then◌else◌, Option, none,
}
use rtai.Mbx.Ring.{Ring}
use rtai.Base.Int.{ℤ, pos}

-- The bits of RT_TASK.state, RT_SCHED_READY to RT_SCHED_SIGSUSP.
pub record TaskState : Type 0 where
  pub ready : Bool
  pub suspended : Bool
  pub delayed : Bool
  pub semaphore : Bool
  pub send : Bool
  pub receive : Bool
  pub rpc : Bool
  pub returning : Bool
  pub mbxsusp : Bool
  pub sftrdy : Bool
  pub poll : Bool
  pub sigsusp : Bool

-- Every bit but RT_SCHED_READY is off.
unfoldable pub nothing_awaited : TaskState → Bool
nothing_awaited s =
    not s.suspended
    && not s.delayed
    && not s.semaphore
    && not s.send
    && not s.receive
    && not s.rpc
    && not s.returning
    && not s.mbxsusp
    && not s.sftrdy
    && not s.poll
    && not s.sigsusp

-- state == RT_SCHED_READY
unfoldable pub is_ready : TaskState → Bool
is_ready s = s.ready && nothing_awaited s

-- What RT_TASK.blocked_on holds: NULL, one of the RTP_ values, the queue of a semaphore, a task's
-- msg_queue or ret_queue, or a pointer to a mailbox or to a task itself.
pub data Blocked : Type 0 where
  null : Blocked
  rtp : ℕ → Blocked
  sem_queue : ℕ → Blocked
  msg_queue_of : ℕ → Blocked
  ret_queue_of : ℕ → Blocked
  mailbox : ℕ → Blocked
  itself : ℕ → Blocked

-- The fields of RT_TASK that the modelled services read or write.
pub record Task : Type 0 where
  pub magic : Bool
  pub state : TaskState
  pub running : ℤ
  pub priority : ℕ
  pub base_priority : ℕ
  pub policy : ℤ
  pub period : ℕ
  pub resume_time : ℕ
  pub periodic_resume_time : ℕ
  pub resync_frame : Bool
  pub yield_time : ℕ
  pub rr_quantum : ℕ
  pub rr_remaining : ℕ
  pub schedlat : ℕ
  pub suspdepth : ℤ
  pub owndres : ℕ
  pub prio_passed_to : Option ℕ
  pub blocked_on : Blocked
  pub msg_queue : List ℕ
  pub ret_queue : List ℕ
  -- msg, msg_queue.task (NULL or a task), and whether ret_queue.task is not NULL
  pub msg : ℕ
  pub msg_task : Option ℕ
  pub ret_task : Bool
  pub is_hard : Bool
  -- the Linux side sleeps: lnxtsk->state is TASK_SOFTREALTIME
  pub lnx_asleep : Bool

-- SEM.owndby is a task, or a number where a barrier or a read-write lock keeps a count in it.
pub data Owner : Type 0 where
  nobody : Owner
  task : ℕ → Owner
  number : ℕ → Owner

pub record Sem : Type 0 where
  pub magic : Bool
  pub type : ℤ
  pub restype : ℤ
  pub count : ℤ
  pub owndby : Owner
  pub qtype : Bool
  pub queue : List ℕ

-- MBX (include/rtai_mbx.h): its two semaphores stand in the kernel's table; `owndby` is not used.
pub record Mailbox : Type 0 where
  pub magic : Bool
  pub sndsem : ℕ
  pub rcvsem : ℕ
  pub waiting_task : Option ℕ
  pub ring : Ring

-- One processor. `ready` and `timed` leave out the Linux task at the head of both lists: its priority
-- is RT_SCHED_LINUX_PRIORITY and its resume time RT_TIME_END, beyond those of the tasks. `srq` is
-- what has been put in wake_up_srq for Linux to wake. `astray` is set when a pointer has been followed
-- that does not point to a task; what the other fields say from then on stands for nothing.
pub record Kernel : Type 0 where
  pub tasks : ℕ → Task
  pub sems : ℕ → Sem
  pub mbxs : ℕ → Mailbox
  pub ready : List ℕ
  pub timed : List ℕ
  pub srq : List ℕ
  pub current : ℕ
  pub time_h : ℕ
  pub astray : Bool

abbrev pub update {ℓ} : {A : Type ℓ} → (ℕ → A) → ℕ → A → ℕ → A
update f i a j = if i == j then a else f j

abbrev pub set_task : ℕ → Task → Kernel → Kernel
set_task t x k = record k { tasks = update k.tasks t x }

abbrev pub set_sem : ℕ → Sem → Kernel → Kernel
set_sem s x k = record k { sems = update k.sems s x }

abbrev pub set_mbx : ℕ → Mailbox → Kernel → Kernel
set_mbx m x k = record k { mbxs = update k.mbxs m x }

-- unlinking a node
unfoldable pub unlink : ℕ → List ℕ → List ℕ
unlink t [] = []
unlink t (x ∷ xs) = if x == t then xs else x ∷ unlink t xs

abbrev pub rt_sched_linux_priority : ℕ
rt_sched_linux_priority = 0x7fffffff
