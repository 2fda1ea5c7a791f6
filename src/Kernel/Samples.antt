-- ===== src/Kernel/Samples.antt =====
-- Tasks, semaphores and a processor for the tests (include/rtai_sched.h, include/rtai_sem.h).
use rtai.Base.{ℕ, List, [], ◌∷◌, true, false, none}
use rtai.Base.Int.{ℤ, pos}
use rtai.Kernel.{Mailbox, TaskState, Task, Sem, Kernel, Owner, null}

abbrev pub ready_state : TaskState
ready_state = record {
  ready = true;
  suspended = false;
  delayed = false;
  semaphore = false;
  send = false;
  receive = false;
  rpc = false;
  returning = false;
  mbxsusp = false;
  sftrdy = false;
  poll = false;
  sigsusp = false;
}

-- A ready hard real time task of that priority.
abbrev pub ready_task : ℕ → Task
ready_task p = record {
  magic = true;
  state = ready_state;
  running = pos 0;
  priority = p;
  base_priority = p;
  policy = pos 0;
  period = 0;
  resume_time = 0;
  periodic_resume_time = 0;
  resync_frame = false;
  yield_time = 0;
  rr_quantum = 0;
  rr_remaining = 0;
  schedlat = 0;
  suspdepth = pos 0;
  owndres = 0;
  prio_passed_to = none;
  blocked_on = null;
  msg_queue = [];
  ret_queue = [];
  msg = 0;
  msg_task = none;
  ret_task = false;
  is_hard = true;
  lnx_asleep = false;
}

abbrev pub a_sem : ℤ → ℤ → Owner → List ℕ → Sem
a_sem type count owner q = record {
  magic = true;
  type = type;
  restype = type;
  count = count;
  owndby = owner;
  qtype = false;
  queue = q;
}

-- An empty mailbox of four bytes, with the semaphores 2 and 3.
abbrev a_mailbox : Mailbox
a_mailbox = record {
  magic = true;
  sndsem = 2;
  rcvsem = 3;
  waiting_task = none;
  ring = record { size = 4; fbyte = 0; lbyte = 0; avbs = 0; frbs = 4; bufadr = 0 ∷ 0 ∷ 0 ∷ 0 ∷ [] };
}

-- Task 1 runs.
abbrev pub a_kernel : (ℕ → Task) → (ℕ → Sem) → List ℕ → Kernel
a_kernel tasks sems ready = record {
  tasks = tasks;
  sems = sems;
  mbxs = λ m. a_mailbox;
  ready = ready;
  timed = [];
  srq = [];
  current = 1;
  time_h = 5;
  astray = false;
}
