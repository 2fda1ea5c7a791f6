-- ===== src/Sem/Signal/Wakes.antt =====
-- rt_sem_signal of a counting semaphore makes the first waiting task ready (src/ipc/sem/sem.c).
use rtai.Base.{
  ℕ, ◌≡◌, refl, ap, ap₂, sym, ◌∙◌, List, ◌∷◌, true, false, not, ◌&&◌, ==_self, if_true, if_false,
  none, some,
}
use rtai.Base.Int.{pos, ltb_ℤ, eq_ℤ}
use rtai.Kernel.{Kernel, null, is_ready, set_task, unlink}
use rtai.Sched.{dequeue_blocked, enq_ready_task, rem_timed_task, insert_after_equals, priority_of}
use rtai.Sched.Quiet.{
  tasks-rem_timed_task, ready-rem_timed_task, tasks-enq_ready_task, ready-enq_ready_task,
}
use rtai.Sem.{clear_waiting, clear_if_waiting, release, head?, owned_by, count_up}
use rtai.Sem.Frames.{release-Quiet}
use rtai.Sem.Signal.Balance.{queue-counted}
use rtai.Sem.Signal.{counted, signal_waiter, rt_sem_signal}

-- The hard real time task t waits for a semaphore, perhaps for a time, and for nothing else.
pub record Waiting (t : ℕ) (k : Kernel) : Type 0 where
  pub waits : is_ready (k.tasks t).state ≡ false
  pub no_more : is_ready (clear_waiting (k.tasks t).state) ≡ true
  pub hard : (k.tasks t).is_hard ≡ true

-- The task t has left the queue of s, of which ts is the rest, and is in its place in the ready list.
pub record MadeReady (t s : ℕ) (ts : List ℕ) (k k' : Kernel) : Type 0 where
  pub queue : (k'.sems s).queue ≡ ts
  pub state : is_ready (k'.tasks t).state ≡ true
  pub ready : k'.ready ≡ insert_after_equals (priority_of k') t k.ready

clear_if_waiting-Waiting :
    (t : ℕ) (k : Kernel)
    → Waiting t k
    → let x = k.tasks t in
      clear_if_waiting t k ≡ (true, set_task t (record x { state = clear_waiting x.state }) k)
unfolding clear_if_waiting
clear_if_waiting-Waiting t k w = rw (w.waits, w.no_more) refl

-- the task as it leaves the queue
dequeued :
    (t s : ℕ) (k : Kernel)
    → (rem_timed_task t (dequeue_blocked t s k)).tasks t
      ≡ record (k.tasks t) { prio_passed_to = none; blocked_on = null }
unfolding dequeue_blocked
dequeued t s k = ap (λ f. f t) (tasks-rem_timed_task t _) ∙ if_true _ _ (==_self t)

queue-dequeue_blocked :
    (t s : ℕ) (ts : List ℕ) (k : Kernel)
    → (k.sems s).queue ≡ t ∷ ts
    → ((dequeue_blocked t s k).sems s).queue ≡ ts
unfolding dequeue_blocked unlink
queue-dequeue_blocked t s ts k q = rw (==_self s, q, ==_self t) refl

ready-dequeued : (t s : ℕ) (k : Kernel) → (rem_timed_task t (dequeue_blocked t s k)).ready ≡ k.ready
unfolding dequeue_blocked
ready-dequeued t s k = ready-rem_timed_task t _

release-MadeReady :
    (t s : ℕ) (ts : List ℕ) (k : Kernel)
    → Waiting t k
    → (k.sems s).queue ≡ t ∷ ts
    → ((release t s k).0 ≡ true) × MadeReady t s ts k (release t s k).1
unfolding release
release-MadeReady t s ts k w q =
    let r = rem_timed_task t (dequeue_blocked t s k) in
    let same = dequeued t s k in
    let w' : Waiting t r = record {
      waits = ap (λ y. is_ready y.state) same ∙ w.waits;
      no_more = ap (λ y. is_ready (clear_waiting y.state)) same ∙ w.no_more;
      hard = ap (λ y. y.is_hard) same ∙ w.hard;
    } in
    let x = r.tasks t in
    let l : Kernel = set_task t (record x { state = clear_waiting x.state }) r in
    let now : l.tasks t ≡ record x { state = clear_waiting x.state } = if_true _ _ (==_self t) in
    let hard = ap (λ y. y.is_hard) now ∙ w'.hard in
    let tasks = tasks-enq_ready_task t l hard in
    let done : release t s k ≡ (true, enq_ready_task t l) =
      rw (clear_if_waiting-Waiting t r w') refl in
    (
      ap (λ p. p.0) done,
      record {
        queue = ap (λ f. (f s).queue) (release-Quiet t s k).sems ∙ queue-dequeue_blocked t s ts k q;
        state =
            ap (λ p. is_ready (p.1.tasks t).state) done
            ∙ ap (λ f. is_ready (f t).state) tasks
            ∙ ap (λ y. is_ready y.state) now
            ∙ w'.no_more;
        ready =
            ap (λ p. p.1.ready) done
            ∙ ready-enq_ready_task t l hard
            ∙ ap₂ (λ f o. insert_after_equals (λ u. (f u).priority) t o)
                (sym (ap (λ p. p.1.tasks) done ∙ tasks)) (ready-dequeued t s k);
      },
    )

type-dequeue_blocked :
    (t s : ℕ) (k : Kernel) → ((dequeue_blocked t s k).sems s).type ≡ (k.sems s).type
unfolding dequeue_blocked
type-dequeue_blocked t s k = rw (==_self s) refl

type-counted : (s : ℕ) (k : Kernel) → ((counted s k).sems s).type ≡ (k.sems s).type
unfolding counted count_up
type-counted s k = rw (==_self s) refl

Waiting-counted : (t s : ℕ) (k : Kernel) → Waiting t k → Waiting t (counted s k)
unfolding counted
Waiting-counted t s k w = record { waits = w.waits; no_more = w.no_more; hard = w.hard }

module _ (rt_schedule : Kernel → Kernel) (rt_task_delete : ℕ → Kernel → Kernel) where
  signal_waiter-wakes :
      (t s : ℕ) (ts : List ℕ) (k : Kernel)
      → (k.sems s).type ≡ pos 0
      → (k.sems s).queue ≡ t ∷ ts
      → (release t s k).0 ≡ true
      → signal_waiter rt_schedule rt_task_delete s k ≡ some (pos 0, rt_schedule (release t s k).1)
  unfolding signal_waiter head?
  signal_waiter-wakes t s ts k plain q woken =
      let type : ((release t s k).1.sems s).type ≡ pos 0 =
        ap (λ f. (f s).type) (release-Quiet t s k).sems ∙ type-dequeue_blocked t s k ∙ plain in
      rw (signal_waiter, q, woken, type) refl

  rt_sem_signal-counting :
      (s : ℕ) (k : Kernel)
      → (k.sems s).magic ≡ true
      → (k.sems s).type ≡ pos 0
      → rt_sem_signal rt_schedule rt_task_delete s k
        ≡ signal_waiter rt_schedule rt_task_delete s (counted s k)
  unfolding rt_sem_signal
  rt_sem_signal-counting s k valid plain =
      let m = k.sems s in
      if_false _ _ (ap not valid)
      ∙ if_false _ _ (
          ap
            (λ t.
              not (eq_ℤ t (pos 0)) && not (eq_ℤ m.restype (pos 0)) && not (owned_by m k.current))
            plain)
      ∙ if_false _ _ (ap (λ t. ltb_ℤ (pos 1) t) plain)

  pub rt_sem_signal-MadeReady :
      (t s : ℕ) (ts : List ℕ) (k : Kernel)
      → (k.sems s).magic ≡ true
      → (k.sems s).type ≡ pos 0
      → (k.sems s).queue ≡ t ∷ ts
      → Waiting t k
      → (k' : Kernel) × (rt_sem_signal rt_schedule rt_task_delete s k
          ≡ some (pos 0, rt_schedule k'))
        × MadeReady t s ts k k'
  unfolding counted
  rt_sem_signal-MadeReady t s ts k valid plain q w =
      let l = counted s k in
      let q' = queue-counted s k ∙ q in
      let r = release-MadeReady t s ts l (Waiting-counted t s k w) q' in
      let m = r.1 in
      (
        (release t s l).1,
        rt_sem_signal-counting s k valid plain
            ∙ signal_waiter-wakes t s ts l (type-counted s k ∙ plain) q' r.0,
        record { queue = m.queue; state = m.state; ready = m.ready },
      )
