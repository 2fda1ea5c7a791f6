-- ===== src/Msg/State/NotSent.antt =====
-- A sender that gives up.
use rtai.Base.{
  ℕ, ◌<◌, ◌≡◌, refl, ap, ◌∙◌, List, ◌∷◌, arith, false, ◌==◌, ==_self, if_true, if_false,
}
use rtai.Kernel.{Kernel, msg_queue_of, unlink}
use rtai.Prio.{set_queue_at, queue_at}
use rtai.Prio.Same.{set_task_prio_from_resq-first, queue_at-msg, set_queue_at-msg}
use rtai.Msg.State.{msg_not_sent, dequeue_from, is_objrem}

-- The sender c is first in the queue of the task t, and t has inherited its priority.
pub record Waits (t c : ℕ) (q : List ℕ) (k : Kernel) : Type 0 where
  pub others : (c == t) ≡ false
  pub waits_on : (k.tasks c).blocked_on ≡ msg_queue_of t
  pub queue : (k.tasks t).msg_queue ≡ c ∷ q
  pub no_resource : (k.tasks t).owndres ≡ 0
  pub raised : (k.tasks c).priority < (k.tasks t).base_priority
  pub inherited : (k.tasks t).priority ≡ (k.tasks c).priority

unlink-first : (c : ℕ) (q : List ℕ) → unlink c (c ∷ q) ≡ q
unfolding unlink
unlink-first c q = if_true _ _ (==_self c)

is_objrem-msg : (t : ℕ) → is_objrem (msg_queue_of t) ≡ false
unfolding is_objrem
is_objrem-msg t = refl

-- the receiver, when c has left its queue
dequeue_from-receiver :
    (t c : ℕ) (q : List ℕ) (k : Kernel)
    → Waits t c q k
    → (dequeue_from c k).tasks t ≡ record (k.tasks t) { msg_queue = q }
unfolding dequeue_from
dequeue_from-receiver t c q k w =
    if_false _ _ w.others
    ∙ ap (λ at. (set_queue_at at (unlink c (queue_at at k)) k).tasks t) w.waits_on
    ∙ ap (λ l. (set_queue_at (msg_queue_of t) (unlink c l) k).tasks t) (queue_at-msg t k ∙ w.queue)
    ∙ ap (λ l. (set_queue_at (msg_queue_of t) l k).tasks t) (unlink-first c q)
    ∙ ap (λ l. l.tasks t) (set_queue_at-msg t q k)
    ∙ if_true _ _ (==_self t)

-- A sender is first in the queue of a receiver, another task, which owns no resource and has inherited
-- the sender's priority, higher (smaller) than its base priority. After msg_not_sent the sender has left
-- the queue, and yet the receiver keeps the sender's priority, higher than its own base priority.
pub msg_not_sent-keeps_priority :
    (t c : ℕ) (q : List ℕ) (k : Kernel)
    → Waits t c q k
    → let x = (msg_not_sent t c k).1.tasks t in
      (x.msg_queue ≡ q) × (x.priority ≡ (k.tasks c).priority) × (x.priority < x.base_priority)
unfolding msg_not_sent
msg_not_sent-keeps_priority t c q k w =
    let waits = ap is_objrem w.waits_on ∙ is_objrem-msg t in
    let kept = set_task_prio_from_resq-first t c q k w.no_resource w.queue w.raised w.inherited in
    let left = ap (λ r. (dequeue_from c r.1).tasks t) kept ∙ dequeue_from-receiver t c q k w in
    let left' : (msg_not_sent t c k).1.tasks t ≡ record (k.tasks t) { msg_queue = q } =
      if_false _ _ w.others ∙ rw waits left in
    rw left' (refl, w.inherited, omega arith)
