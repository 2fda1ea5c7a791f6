-- ===== src/Msg/State/Handover.antt =====
-- A message that is handed over to a task that waits for it.
use rtai.Base.{
  ℕ, ◌≡◌, refl, sym, subst, ◌∙◌, some, Bool, true, false, Bool-cases, inl, inr, if_true, if_false,
  ap, ==_self, ◌==◌, arith,
}
use rtai.Kernel.{Kernel, TaskState, Task, is_ready, nothing_awaited, set_task}
use rtai.Sched.{priority_of, enq_ready_task, rem_timed_task, insert_after_equals}
use rtai.Sched.Order.{Sorted, Placed, insert_after_equals-Placed}
use rtai.Sched.Count.{
  tally, occurrences, occurrences-unlink, occurrences-unlink_other, update-keeps,
}
use rtai.Sched.Quiet.{
  ready-enq_ready_task, ready-rem_timed_task, tasks-rem_timed_task, tasks-enq_ready_task,
}
use mathlib.Core.Path.{fun_ext}
use rtai.Sched.Mail.{Mail, set_task-Mail, enq_ready_task-Mail, rem_timed_task-Mail}
use rtai.Msg.State.{make_ready, hand_over, clear_receive}

make_ready-Mail :
    {t msg c : ℕ} (f : TaskState → TaskState) (u : ℕ) (k : Kernel)
    → Mail t msg c k
    → Mail t msg c (make_ready f u k).1
unfolding make_ready
make_ready-Mail f u k m =
    let set = set_task-Mail u (f (k.tasks u).state) k m in
    elim (Bool-cases (is_ready (k.tasks u).state)) [
      | inl e ↦ rw e m
      | inr e ↦ elim (Bool-cases (is_ready (f (k.tasks u).state))) [
        | inl r ↦ rw (e, r) (enq_ready_task-Mail u _ set)
        | inr r ↦ rw (e, r) set
      ]
    ]

pub hand_over-Mail : (t msg : ℕ) (k : Kernel) → Mail t msg k.current (hand_over t msg k).1
unfolding hand_over
hand_over-Mail t msg k =
    let x : Task = record (k.tasks t) { msg = msg; msg_task = some k.current; ret_task = false } in
    let now : (set_task t x k).tasks t ≡ x = if_true _ _ (==_self t) in
    make_ready-Mail _ t _ (
      rem_timed_task-Mail t _ (record {
        word = ap (λ y. y.msg) now;
        sender = ap (λ y. y.msg_task) now;
        no_error = ap (λ y. y.ret_task) now;
      }))

-- The hard real time task t waits for a message and for nothing else, and is in the list of timed tasks
-- once if it waits with a time limit, and else not.
pub record Receiving (t : ℕ) (k : Kernel) : Type 0 where
  pub receives : (k.tasks t).state.receive ≡ true
  pub nothing_else : is_ready (clear_receive (k.tasks t).state) ≡ true
  pub hard : (k.tasks t).is_hard ≡ true
  pub timed : occurrences t k.timed ≡ tally (k.tasks t).state.delayed

-- The task t is ready, in its place in the ready list, and off the list of timed tasks; the others stay
-- there.
pub record Released (t : ℕ) (k k' : Kernel) : Type 0 where
  pub ready_state : is_ready (k'.tasks t).state ≡ true
  pub placed : Placed (priority_of k) t k.ready k'.ready
  pub off_timed : occurrences t k'.timed ≡ 0
  pub others_timed : (u : ℕ) → (t == u) ≡ false → occurrences u k'.timed ≡ occurrences u k.timed

not_ready : (b : TaskState) → b.receive ≡ true → is_ready b ≡ false
unfolding is_ready nothing_awaited
not_ready b e = ground (arith, e)

make_ready-true :
    (f : TaskState → TaskState) (t : ℕ) (k : Kernel)
    → is_ready (k.tasks t).state ≡ false
    → is_ready (f (k.tasks t).state) ≡ true
    → make_ready f t k
      ≡ (true, enq_ready_task t (set_task t (record (k.tasks t) { state = f (k.tasks t).state }) k))
unfolding make_ready
make_ready-true f t k a b = if_false _ _ a ∙ if_true _ _ b

-- The list of timed tasks after rem_timed_task.
rem_timed_task-off :
    (t : ℕ) (k : Kernel)
    → occurrences t k.timed ≡ tally (k.tasks t).state.delayed
    → (occurrences t (rem_timed_task t k).timed ≡ 0)
      × ((u : ℕ)
          → (t == u) ≡ false
          → occurrences u (rem_timed_task t k).timed ≡ occurrences u k.timed)
unfolding rem_timed_task
rem_timed_task-off t k h = elim (Bool-cases (k.tasks t).state.delayed) [
  | inl e ↦
      let once : occurrences t k.timed ≡ 1 = h ∙ ap tally e in
      let gone = occurrences-unlink t k.timed in
      rw e (omega (arith, once, gone), λ u d. occurrences-unlink_other t u k.timed d)
  | inr e ↦ let never : occurrences t k.timed ≡ 0 = h ∙ ap tally e in rw e (never, λ u d. refl)
]

timed-enq_ready_task : (t : ℕ) (k : Kernel) → (enq_ready_task t k).timed ≡ k.timed
unfolding enq_ready_task
timed-enq_ready_task t k = elim (Bool-cases (k.tasks t).is_hard) [
  | inl e ↦ rw e refl
  | inr e ↦ rw e refl
]

-- A change of a task that keeps its state, its priority and where it runs, and its way to the ready list.
module _ (t : ℕ) (k : Kernel) (h : Receiving t k) (sorted : Sorted (priority_of k) k.ready)
    (y : Task) (same_state : y.state ≡ (k.tasks t).state)
    (same_priority : y.priority ≡ priority_of k t)
    (same_hard : y.is_hard ≡ (k.tasks t).is_hard) where
  -- with the message, and off the list of timed tasks
  abbrev k₁ : Kernel
  k₁ = set_task t y k

  abbrev k₂ : Kernel
  k₂ = rem_timed_task t k₁

  own : k₂.tasks t ≡ y
  own = ap (λ (f : ℕ → Task). f t) (tasks-rem_timed_task t k₁) ∙ if_true _ _ (==_self t)

  abbrev k₃ : Kernel
  k₃ = set_task t (record (k₂.tasks t) { state = clear_receive (k₂.tasks t).state }) k₂

  own_state : (k₂.tasks t).state ≡ (k.tasks t).state
  own_state = ap (λ (x : Task). x.state) own ∙ same_state

  made : make_ready clear_receive t k₂ ≡ (true, enq_ready_task t k₃)
  made =
      make_ready-true clear_receive t k₂
        (ap is_ready own_state ∙ not_ready (k.tasks t).state h.receives)
        (ap (λ b. is_ready (clear_receive b)) own_state ∙ h.nothing_else)

  hard₃ : (k₃.tasks t).is_hard ≡ true
  hard₃ =
      ap (λ (x : Task). x.is_hard) (if_true _ _ (==_self t))
      ∙ ap (λ (x : Task). x.is_hard) own
      ∙ same_hard
      ∙ h.hard

  priorities : (u : ℕ) → priority_of k₃ u ≡ priority_of k u
  priorities u =
      update-keeps (λ (x : Task). x.priority) k₂.tasks t _ refl u
      ∙ ap (λ (f : ℕ → Task). (f u).priority) (tasks-rem_timed_task t k₁)
      ∙ update-keeps (λ (x : Task). x.priority) k.tasks t y same_priority u

  ready : (enq_ready_task t k₃).ready ≡ insert_after_equals (priority_of k) t k.ready
  ready =
      ready-enq_ready_task t k₃ hard₃
      ∙ ap (λ key. insert_after_equals key t k₂.ready) (fun_ext priorities)
      ∙ ap (insert_after_equals (priority_of k) t) (ready-rem_timed_task t k₁)

  released : Released t k (enq_ready_task t k₃)
  released =
      let own₁ =
        ap (λ (x : Task). x.state.delayed) (if_true {b = t == t} y (k.tasks t) (==_self t)) in
      let delayed = own₁ ∙ ap (λ b. b.delayed) same_state in
      let off = rem_timed_task-off t k₁ (h.timed ∙ ap tally (sym delayed)) in
      let timed = timed-enq_ready_task t k₃ in
      record {
        ready_state =
            ap (λ (f : ℕ → Task). is_ready (f t).state) (tasks-enq_ready_task t k₃ hard₃)
            ∙ ap (λ (x : Task). is_ready x.state) (if_true {b = t == t} _ _ (==_self t))
            ∙ ap (λ b. is_ready (clear_receive b)) own_state
            ∙ h.nothing_else;
        placed =
            subst (Placed (priority_of k) t k.ready) (sym ready)
              (insert_after_equals-Placed (priority_of k) t k.ready sorted);
        off_timed = ap (occurrences t) timed ∙ off.0;
        others_timed = λ u d. ap (occurrences u) timed ∙ off.1 u d;
      }

  pub make_ready-Released :
      ((make_ready clear_receive t k₂).0 ≡ true) × Released t k (make_ready clear_receive t k₂).1
  make_ready-Released = (
    ap (λ (r : Bool × Kernel). r.0) made,
    subst (λ (r : Bool × Kernel). Released t k r.1) (sym made) released,
  )

-- A task that waits for a message is made ready by the hand over.
pub hand_over-Released :
    (t msg : ℕ) (k : Kernel)
    → Receiving t k
    → Sorted (priority_of k) k.ready
    → ((hand_over t msg k).0 ≡ true) × Released t k (hand_over t msg k).1
unfolding hand_over
hand_over-Released t msg k h sorted =
    make_ready-Released t k h sorted
      (record (k.tasks t) { msg = msg; msg_task = some k.current; ret_task = false }) refl refl refl
