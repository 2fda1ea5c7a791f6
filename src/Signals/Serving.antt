-- ===== src/Signals/Serving.antt =====
-- A task is stopped as long as one of its signals is being served (src/sched/signal.c).
use rtai.Base.{
  ℕ, ◌+◌, ◌-◌, ◌≡◌, refl, ap, ◌∙◌, arith, List, Bool, true, false, Bool-cases, inl, inr, ◌==◌, ltb,
  ==_self, if_true,
}
use rtai.Base.Int.{pos, leb_ℤ}
use rtai.Kernel.{Task, TaskState, is_ready, nothing_awaited, Kernel, update, set_task, unlink}
use rtai.Sched.{enq_ready_task, rem_ready_task, rem_ready_current, insert_after_equals, priority_of}
use rtai.Signals.{Fields, State, stop_served, let_go}
use rtai.Sched.Count.{
  tally, occurrences, number_of, occurrences-unlink, occurrences-insert, update-keeps,
}

-- A task that serves a signal does so while no suspension is pending for it.
abbrev pub is_serving : State → ℕ → Bool
is_serving m s = leb_ℤ (m.kernel.tasks s).suspdepth (pos 0)

abbrev pub serving : List ℕ → State → ℕ
serving ss m = number_of (is_serving m) ss

abbrev without_signals : TaskState → TaskState
without_signals b = record b { sigsusp = false }

-- By the task's values, its fields, and how often it is in the ready list.
pub record Values (x : Task) (f : Fields) (n : ℕ) : Type 0 where
  pub marked : x.state.sigsusp ≡ ltb 0 f.pstate
  pub else_ready : is_ready (without_signals x.state) ≡ true
  pub listed : n ≡ tally (f.pstate == 0)
  pub hard : x.is_hard ≡ true

-- The hard real time task t is off the ready list and
-- marked exactly when pstate is not 0, and waits for nothing else.
abbrev pub Stopped : ℕ → State → Type 0
Stopped t m = Values (m.kernel.tasks t) (m.fields t) (occurrences t m.kernel.ready)

-- pstate is the number of those of the tasks ss that serve.
pub record Counted (t : ℕ) (ss : List ℕ) (m : State) : Type 0 where
  pub stopped : Stopped t m
  pub counted : (m.fields t).pstate ≡ serving ss m

pub Values-by :
    {x x' : Task} {f f' : Fields} {n n' : ℕ}
    → x' ≡ x
    → f' ≡ f
    → n' ≡ n
    → Values x f n
    → Values x' f' n'
Values-by p q r v = rw (p, q, r) v

pub update_self {ℓ} : {A : Type ℓ} (f : ℕ → A) (t : ℕ) (x : A) → update f t x t ≡ x
update_self f t x = if_true _ _ (==_self t)

-- What stopping a task or letting it go comes to.
pub record Moves (t : ℕ) (pstate : ℕ) (m m' : State) : Type 0 where
  pub stopped : Stopped t m'
  pub pstate_after : (m'.fields t).pstate ≡ pstate
  pub signals : (m'.fields t).rt_signals ≡ (m.fields t).rt_signals
  pub depth : (j : ℕ) → (m'.kernel.tasks j).suspdepth ≡ (m.kernel.tasks j).suspdepth

module _ (t : ℕ) (k : Kernel) where
  rem_ready_task-ready :
      is_ready (k.tasks t).state ≡ true
      → (k.tasks t).is_hard ≡ true
      → rem_ready_task t k ≡ record k { ready = unlink t k.ready }
  unfolding rem_ready_task rem_ready_current
  rem_ready_task-ready r h = rw (r, h) refl

  enq_ready_task-hard :
      (k.tasks t).is_hard ≡ true
      → enq_ready_task t k ≡ record k { ready = insert_after_equals (priority_of k) t k.ready }
  unfolding enq_ready_task
  enq_ready_task-hard h = rw h refl

is_ready-unmarked :
    (b : TaskState) → b.sigsusp ≡ false → is_ready (without_signals b) ≡ true → is_ready b ≡ true
unfolding is_ready nothing_awaited
is_ready-unmarked b e h = rw e h

module _ (t : ℕ) (m : State) (h : Stopped t m) where
  abbrev x : Task
  x = m.kernel.tasks t

  abbrev f : Fields
  f = m.fields t

  task_self : (y : Task) → update m.kernel.tasks t y t ≡ y
  task_self y = update_self m.kernel.tasks t y

  fields_self : (g : Fields) → update m.fields t g t ≡ g
  fields_self g = update_self m.fields t g

  pstate_self : (g : Fields) → (update m.fields t g t).pstate ≡ g.pstate
  pstate_self g = ap (λ (g' : Fields). g'.pstate) (fields_self g)

  signals_self : (g : Fields) → (update m.fields t g t).rt_signals ≡ g.rt_signals
  signals_self g = ap (λ (g' : Fields). g'.rt_signals) (fields_self g)

  pub stop_served-Moves : Moves t (f.pstate + 1) m (stop_served t m)
  unfolding stop_served
  stop_served-Moves = elim (Bool-cases (f.pstate == 0)) [
    | inl e ↦
        let unmarked : x.state.sigsusp ≡ false = h.marked ∙ ground (arith, e) in
        let ready = is_ready-unmarked x.state unmarked h.else_ready in
        let once : occurrences t m.kernel.ready ≡ 1 = h.listed ∙ ap tally e in
        let gone = occurrences-unlink t m.kernel.ready in
        rw (e, rem_ready_task-ready t m.kernel ready h.hard)
          (record {
            stopped =
                Values-by {n = 0} (task_self _) (fields_self _) (omega (arith, once, gone))
                  (record {
                    marked = ground arith;
                    else_ready = h.else_ready;
                    listed = ground (arith);
                    hard = h.hard;
                  });
            pstate_after = pstate_self _;
            signals = signals_self _;
            depth = update-keeps (λ (y : Task). y.suspdepth) m.kernel.tasks t _ refl;
          })
    | inr e ↦ rw e (record {
      stopped = Values-by refl (fields_self _) refl (record {
        marked = h.marked ∙ ground (arith, e);
        else_ready = h.else_ready;
        listed = h.listed ∙ ground (arith, e);
        hard = h.hard;
      });
      pstate_after = pstate_self _;
      signals = signals_self _;
      depth = λ j. refl;
    })
  ]

  pub let_go-Moves : Moves t (f.pstate - 1) m (let_go t m)
  unfolding let_go
  let_go-Moves = elim (Bool-cases (f.pstate == 0)) [
    | inl e ↦ rw e (record {
      stopped = h;
      pstate_after = ground (arith, e);
      signals = refl;
      depth = λ j. refl;
    })
    | inr e ↦ elim (Bool-cases (f.pstate == 1)) [
      | inl d ↦
          let gone : occurrences t m.kernel.ready ≡ 0 = h.listed ∙ ap tally e in
          let back = occurrences-insert _ t t m.kernel.ready in
          let self = ==_self t in
          let k₁ : Kernel = set_task t (record x { state = without_signals x.state }) m.kernel in
          let hard = ap (λ (y : Task). y.is_hard) (task_self _) ∙ h.hard in
          rw (e, d, h.else_ready, enq_ready_task-hard t k₁ hard)
            (record {
              stopped =
                  Values-by {n = 1} (task_self _) (fields_self _)
                    (back ∙ ground (arith, self, gone))
                    (record {
                      marked = ground (arith, d);
                      else_ready = h.else_ready;
                      listed = ground (arith, d);
                      hard = h.hard;
                    });
              pstate_after = pstate_self _;
              signals = signals_self _;
              depth = update-keeps (λ (y : Task). y.suspdepth) m.kernel.tasks t _ refl;
            })
      | inr d ↦
          rw (e, d)
            (record {
              stopped = Values-by refl (fields_self _) refl (record {
                marked = h.marked ∙ ground (arith, e, d);
                else_ready = h.else_ready;
                listed = h.listed ∙ ground (arith, e, d);
                hard = h.hard;
              });
              pstate_after = pstate_self _;
              signals = signals_self _;
              depth = λ j. refl;
            })
    ]
  ]
