-- ===== src/Fifos/State.antt =====
-- src/ipc/fifos/fifos.c: the structures of the fifos, and the two arrays of what the service request
-- handler has to wake. Processes and fifos are numbers. Each process has one LX_TASK, as it waits in
-- one place at a time, and a queue is the list of the processes whose LX_TASK is linked in it.
pub mod Queue
pub mod Frames
use rtai.Base.{ℕ, ◌+◌, ◌%◌, List, Bool, Option, get_or, set}
use rtai.Kernel.{update}
use rtai.Mbx.Ring.{Ring}

pub record FSem : Type 0 where
  pub free : ℕ
  pub qtype : ℕ
  pub queue : List ℕ

pub record LxTask : Type 0 where
  pub blocked : Bool
  pub priority : ℕ

-- FIFO with its F_MBX: size, fbyte, lbyte, avbs, frbs and bufadr stand in `ring`. `pollq` is whether
-- waitqueue_active holds for it, `asynq` whether it is not NULL, and `handler` a function's number.
pub record Fifo : Type 0 where
  pub ring : Ring
  pub sndsem : FSem
  pub rcvsem : FSem
  pub waiting_task : Option ℕ
  pub opncnt : ℕ
  pub malloc_type : ℕ
  pub pol_asyn_pended : Bool
  pub pollq : Bool
  pub asynq : Bool
  pub handler : ℕ
  pub sem : FSem
  pub name : List ℕ

-- the type of taskq and of pol_asyn_q, with `in` and `out` for in_at and out_at
pub record Pending : Type 0 where
  pub in_at : ℕ
  pub out_at : ℕ
  pub entries : List ℕ

abbrev pub max_fifos : ℕ
max_fifos = 64

abbrev pub maxreqs : ℕ
maxreqs = 64

-- The module's static data. `current` is the process that runs and `rt_priority` that field of each.
-- `srq` counts the calls of rt_pend_linux_srq; `woken` holds the processes the handler has woken, and
-- `polled` the fifos whose pollers or readers it has notified. `live` counts the buffers allocated
-- and not freed.
pub record Fifos : Type 0 where
  pub fifo : ℕ → Fifo
  pub lx : ℕ → LxTask
  pub taskq : Pending
  pub pol_asyn_q : Pending
  pub current : ℕ
  pub rt_priority : ℕ → ℕ
  pub srq : ℕ
  pub woken : List ℕ
  pub polled : List ℕ
  pub live : ℕ

abbrev pub set_fifo : ℕ → Fifo → Fifos → Fifos
set_fifo i x s = record s { fifo = update s.fifo i x }

abbrev pub set_lx : ℕ → LxTask → Fifos → Fifos
set_lx t x s = record s { lx = update s.lx t x }

-- where a semaphore stands: &mbx->sndsem, &mbx->rcvsem and &fifo[minor].sem
pub data SemOf : Type 0 where
  snd_of : ℕ → SemOf
  rcv_of : ℕ → SemOf
  sem_of : ℕ → SemOf

unfoldable pub get_sem : SemOf → Fifos → FSem
get_sem (snd_of i) s = (s.fifo i).sndsem
get_sem (rcv_of i) s = (s.fifo i).rcvsem
get_sem (sem_of i) s = (s.fifo i).sem

unfoldable pub set_sem : SemOf → FSem → Fifos → Fifos
set_sem (snd_of i) x s = set_fifo i (record (s.fifo i) { sndsem = x }) s
set_sem (rcv_of i) x s = set_fifo i (record (s.fifo i) { rcvsem = x }) s
set_sem (sem_of i) x s = set_fifo i (record (s.fifo i) { sem = x }) s

-- `q.task[q.in] = x; q.in = (q.in + 1) & (MAXREQS - 1);`
pub push : ℕ → Pending → Pending
push x q = record q { entries = set q.entries q.in_at x; in_at = (q.in_at + 1) % maxreqs }

-- the entry at q.out, and the step past it
pub head_of : Pending → ℕ
head_of q = get_or q.entries q.out_at 0

pub advance : Pending → Pending
advance q = record q { out_at = (q.out_at + 1) % maxreqs }

abbrev pub wake_later : ℕ → Fifos → Fifos
wake_later t s = record s { taskq = push t s.taskq; srq = s.srq + 1 }
