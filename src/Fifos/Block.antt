-- ===== src/Fifos/Block.antt =====
-- src/ipc/fifos/fifos.c: the queue of blocked processes, the binary semaphores, and the wait for
-- room or bytes. `schedule` and `schedule_timeout` are parameters: they take the state at the call to
-- whether signal_pending(current) holds when the process goes on, and the state at that time.
pub mod Frames
pub mod Timeout
pub mod Wakes
use rtai.Base.{
  ℕ, ◌+◌, ◌==◌, leb, List, [], ◌∷◌, Bool, true, false, not, ◌&&◌, ◌||◌, if◌then◌else◌, Option, none,
  some,
}
use rtai.Base.Int.{ℤ, pos, negsuc}
use rtai.Kernel.{unlink}
use rtai.Mbx.Ring.{Ring}
use rtai.Fifos.State.{LxTask, Fifos, SemOf, get_sem, set_sem, set_fifo, set_lx, push, wake_later}

abbrev pub erestartsys : ℤ
erestartsys = negsuc 511

-- The place in a queue: behind those of the same or a higher priority, or at its end.
pub place_blocked : (ℕ → LxTask) → ℕ → ℕ → ℕ → List ℕ → List ℕ
place_blocked lx t qtype priority [] = t ∷ []
place_blocked lx t qtype priority (q ∷ queue) =
    let rest = place_blocked lx t qtype priority queue in
    if not (qtype == 0) || leb priority (lx q).priority then q ∷ rest else t ∷ q ∷ queue

-- task.priority = priority; enqueue_blocked(&task, &sem->queue, sem->qtype, task.priority);
pub enqueue_blocked : ℕ → SemOf → ℕ → Fifos → Fifos
enqueue_blocked t at priority s =
    let x = get_sem at s in
    set_lx t (record { blocked = true; priority = priority })
      (set_sem at (record x { queue = place_blocked s.lx t x.qtype priority x.queue }) s)

pub dequeue_blocked : ℕ → SemOf → Fifos → Fifos
dequeue_blocked t at s =
    let x = get_sem at s in
    set_lx t (record (s.lx t) { blocked = false })
      (set_sem at (record x { queue = unlink t x.queue }) s)

-- The pollers of a fifo are to be woken, if there are any and it is not about to happen.
pub pend_poll : ℕ → Fifos → Fifos
pend_poll i s =
    let x = s.fifo i in
    if not x.pol_asyn_pended
      && (not (x.ring.avbs == 0) || not (x.ring.frbs == 0))
      && (x.pollq || x.asynq)
    then record (set_fifo i (record x { pol_asyn_pended = true }) s) {
      pol_asyn_q = push i s.pol_asyn_q;
      srq = s.srq + 1;
    }
    else s

pub pend_poll_of : Option ℕ → Fifos → Fifos
pend_poll_of none s = s
pend_poll_of (some i) s = pend_poll i s

abbrev pub set_free : ℕ → SemOf → Fifos → Fifos
set_free n at s = set_sem at (record (get_sem at s) { free = n }) s

-- `fifop` is NULL or the fifo of the semaphore.
pub mbx_sem_signal : SemOf → Option ℕ → Fifos → Fifos
mbx_sem_signal at fifop s = elim (get_sem at s).queue [
  | t ∷ queue ↦ wake_later t (dequeue_blocked t at s)
  | [] ↦ pend_poll_of fifop (set_free 1 at s)
]

pub mbx_signal : ℕ → Fifos → Fifos
mbx_signal i s = elim (s.fifo i).waiting_task [
  | none ↦ s
  | some t ↦ wake_later t (set_fifo i (record (s.fifo i) { waiting_task = none }) s)
]

pub mbx_sem_wait_if : SemOf → Fifos → Bool × Fifos
mbx_sem_wait_if at s =
    if not ((get_sem at s).free == 0) then (true, set_free 0 at s) else (false, s)

pub mbx_sem_init : SemOf → ℕ → Fifos → Fifos
mbx_sem_init at value s = set_sem at (record { free = value; qtype = 0; queue = [] }) s

pub wake_all : List ℕ → Fifos → Fifos
wake_all [] s = s
wake_all (t ∷ queue) s = wake_all queue (wake_later t s)

-- The LX_TASKs are not marked as dequeued.
pub mbx_sem_delete : SemOf → Fifos → Fifos
mbx_sem_delete at s =
    let x = get_sem at s in wake_all x.queue (set_sem at (record x { queue = [] }) s)

-- The process goes on while its LX_TASK is still linked.
pub give_up : ℕ → SemOf → Fifos → Fifos
give_up t at s =
    let r = dequeue_blocked t at s in
    elim (get_sem at r).queue [ [] ↦ set_free 1 at r | u ∷ queue ↦ r ]

-- What both waits for a semaphore do before the process sleeps.
pub sleep_on : SemOf → Fifos → Fifos
sleep_on at s = enqueue_blocked s.current at (s.rt_priority s.current) s

abbrev pub set_waiting : ℕ → Option ℕ → Fifos → Fifos
set_waiting i w s = set_fifo i (record (s.fifo i) { waiting_task = w }) s

-- `mbx->waiting_task == current` after a sleep: nobody has signalled.
pub stop_waiting : ℕ → ℕ → Fifos → ℤ × Fifos
stop_waiting t i s = elim (s.fifo i).waiting_task [
  | none ↦ (pos 0, s)
  | some w ↦ if w == t then (negsuc 0, set_waiting i none s) else (pos 0, s)
]

module _ (schedule : Fifos → Bool × Fifos) where
  pub mbx_sem_wait : SemOf → Fifos → ℤ × Fifos
  mbx_sem_wait at s =
      let c = s.current in
      let (interrupted, r) = schedule (sleep_on at s) in
      let ret : ℤ = if interrupted then erestartsys else pos 0 in
      if not ((get_sem at s).free == 0)
      then (pos 0, set_free 0 at s)
      else if (r.lx c).blocked
      then (if interrupted then ret else negsuc 0, give_up c at r)
      else (ret, r)

  -- `fravbs` is the counter that the process waits for.
  pub mbx_wait : (Ring → ℕ) → ℕ → Fifos → ℤ × Fifos
  mbx_wait fravbs i s =
      let (interrupted, r) = schedule (set_waiting i (some s.current) s) in
      if not (fravbs (s.fifo i).ring == 0)
      then (pos 0, s)
      else if interrupted
      then (erestartsys, r)
      else stop_waiting s.current i r

module _ (schedule_timeout : ℕ → Fifos → Bool × Fifos) where
  pub mbx_sem_wait_timed : SemOf → ℕ → Fifos → ℤ × Fifos
  mbx_sem_wait_timed at delay s =
      let c = s.current in
      let (interrupted, r) = schedule_timeout delay (sleep_on at s) in
      if not ((get_sem at s).free == 0)
      then (pos 0, set_free 0 at s)
      else if interrupted
      then (erestartsys, r)
      else if (r.lx c).blocked
      then (negsuc 0, give_up c at r)
      else (pos 0, r)

  pub mbx_wait_timed : (Ring → ℕ) → ℕ → ℕ → Fifos → ℤ × Fifos
  mbx_wait_timed fravbs i delay s = mbx_wait (schedule_timeout delay) fravbs i s
