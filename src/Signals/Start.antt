-- ===== src/Signals/Start.antt =====
-- The start and the end of the service of a signal keep the number of the tasks that serve
-- (src/sched/signal.c).
use rtai.Base.{
  ℕ, ◌+◌, ◌-◌, ◌≡◌, refl, ap, ◌∙◌, sym, arith, List, [], ◌∷◌, Bool, true, false, Bool-cases, inl,
  inr, ◌==◌, some, if_false,
}
use rtai.Base.Int.{ℤ, pos, leb_ℤ, ltb_ℤ, eq_ℤ, ◌-ℤ◌, ◌+ℤ◌}
use rtai.Kernel.{Task, Kernel, update, set_task}
use rtai.Sched.{enq_ready_task, rem_ready_current, non_rtai_task_suspend, priority_of}
use rtai.Signals.{
  Retval, of_task, Fields, State, with_kernel, stop_served, make_ready, start, has_signals,
  stop_serving, set_depth, rt_exec_signal, rt_wait_signal,
}
use rtai.Sched.Count.{
  tally, occurrences, number_of, number_of-one, occurrences-unlink_other, occurrences-insert,
  update-keeps,
}
use rtai.Signals.Serving.{
  is_serving, serving, Stopped, Counted, Values-by, Moves, stop_served-Moves, let_go-Moves,
}

-- What a step of another task leaves: the task t, its place, and the suspensions of all tasks.
record Apart (t : ℕ) (k k' : Kernel) : Type 0 where
  task : k'.tasks t ≡ k.tasks t
  listed : occurrences t k'.ready ≡ occurrences t k.ready
  depth : (j : ℕ) → (k'.tasks j).suspdepth ≡ (k.tasks j).suspdepth

Apart-trans : {t : ℕ} {k l m : Kernel} → Apart t k l → Apart t l m → Apart t k m
Apart-trans p q = record {
  task = q.task ∙ p.task;
  listed = q.listed ∙ p.listed;
  depth = λ j. q.depth j ∙ p.depth j;
}

module _ (s t : ℕ) (d : (s == t) ≡ false) where
  update-other {ℓ} : {A : Type ℓ} (f : ℕ → A) (x : A) → update f s x t ≡ f t
  update-other f x = if_false _ _ d

  set_task-Apart :
      (x : Task) (k : Kernel) → x.suspdepth ≡ (k.tasks s).suspdepth → Apart t k (set_task s x k)
  set_task-Apart x k e = record {
    task = update-other k.tasks x;
    listed = refl;
    depth = update-keeps (λ (y : Task). y.suspdepth) k.tasks s x e;
  }

  enq_ready_task-Apart : (k : Kernel) → Apart t k (enq_ready_task s k)
  unfolding enq_ready_task
  enq_ready_task-Apart k =
      let inserted = occurrences-insert (priority_of k) s t k.ready in
      elim (Bool-cases (k.tasks s).is_hard) [
        | inl e ↦
            rw e (record { task = refl; listed = inserted ∙ ground (arith, d); depth = λ j. refl })
        | inr e ↦ rw e (record {
          task = update-other k.tasks _;
          listed = refl;
          depth = update-keeps (λ (y : Task). y.suspdepth) k.tasks s _ refl;
        })
      ]

  rem_ready_current-Apart : (k : Kernel) → Apart t k (rem_ready_current s k)
  unfolding rem_ready_current non_rtai_task_suspend
  rem_ready_current-Apart k =
      let kept = occurrences-unlink_other s t k.ready d in
      elim (Bool-cases (k.tasks s).is_hard) [
        | inl e ↦ rw e (record { task = refl; listed = kept; depth = λ j. refl })
        | inr e ↦ rw e (record {
          task = update-other k.tasks _;
          listed = kept;
          depth = update-keeps (λ (y : Task). y.suspdepth) k.tasks s _ refl;
        })
      ]

number_of-same :
    (p q : ℕ → Bool) → ((j : ℕ) → p j ≡ q j) → (xs : List ℕ) → number_of p xs ≡ number_of q xs
number_of-same p q e [] = refl
number_of-same p q e (x ∷ xs) = rw (e x, number_of-same p q e xs) refl

serving-same :
    (ss : List ℕ) (m m' : State)
    → ((j : ℕ) → (m'.kernel.tasks j).suspdepth ≡ (m.kernel.tasks j).suspdepth)
    → serving ss m' ≡ serving ss m
serving-same ss m m' e = number_of-same _ _ (λ j. ap (λ z. leb_ℤ z (pos 0)) (e j)) ss

set_depth-serving :
    (ss : List ℕ) (s : ℕ) (z : ℤ) (m : State)
    → occurrences s ss ≡ 1
    → serving ss (set_depth s z m) + tally (is_serving m s) ≡ serving ss m + tally (leb_ℤ z (pos 0))
set_depth-serving ss s z m once =
    let self : is_serving (set_depth s z m) s ≡ leb_ℤ z (pos 0) = ground arith in
    number_of-one (is_serving (set_depth s z m)) (is_serving m) s (λ j e. ground (arith, e)) ss once
    ∙ ap (λ b. serving ss m + tally b) self

-- The depth one less, and one more, on both sides of 0.
still_above :
    (a : ℤ)
    → ltb_ℤ (pos 0) a ≡ true
    → eq_ℤ (a -ℤ pos 1) (pos 0) ≡ false
    → leb_ℤ (a -ℤ pos 1) (pos 0) ≡ false
unfolding ◌-ℤ◌
still_above a e f = ground (arith, e, f)

above_zero : (a : ℤ) → eq_ℤ a (pos 0) ≡ true → leb_ℤ (a +ℤ pos 1) (pos 0) ≡ false
unfolding ◌+ℤ◌
above_zero a e = ground (arith, e)

below_zero : (a : ℤ) → eq_ℤ a (pos 0) ≡ false → leb_ℤ (a +ℤ pos 1) (pos 0) ≡ leb_ℤ a (pos 0)
unfolding ◌+ℤ◌
below_zero a e = ground (arith, e)

-- Steps of s, which is another task than t.
module _ (s t : ℕ) (d : (s == t) ≡ false) (ss : List ℕ) where
  Stopped-Apart :
      (k' : Kernel) (m : State) → Apart t m.kernel k' → Stopped t m → Stopped t (with_kernel k' m)
  Stopped-Apart k' m a h = Values-by a.task refl a.listed h

  set_depth-Stopped : (z : ℤ) (m : State) → Stopped t m → Stopped t (set_depth s z m)
  set_depth-Stopped z m h = Values-by (update-other s t d m.kernel.tasks _) refl refl h

  -- The last steps of the start of s: nothing of t changes.
  made_ready :
      (r : Retval) (m : State) (n : ℕ) (m₀ : State)
      → Moves t n m₀ m
      → Moves t n m₀ (make_ready s r m)
  unfolding make_ready
  made_ready r m n m₀ h =
      let k = m.kernel in
      let x = k.tasks s in
      let k₁ : Kernel = set_task s (record x { state = record x.state { sigsusp = false } }) k in
      let a = Apart-trans (set_task-Apart s t d _ k refl) (enq_ready_task-Apart s t d k₁) in
      let f = update-other s t d m.fields (record (m.fields s) { retval = r }) in
      record {
        stopped = Values-by a.task f a.listed h.stopped;
        pstate_after = ap (λ (g : Fields). g.pstate) f ∙ h.pstate_after;
        signals = ap (λ (g : Fields). g.rt_signals) f ∙ h.signals;
        depth = λ j. a.depth j ∙ h.depth j;
      }

  start-Moves : (m : State) → Stopped t m → Moves t ((m.fields t).pstate + 1) m (start s (some t) m)
  unfolding start
  start-Moves m h =
      let k = m.kernel in
      let x : Task = record (k.tasks s) { priority = (k.tasks t).priority } in
      let a = set_task-Apart s t d x k refl in
      let m₁ = with_kernel (set_task s x k) m in
      let v = stop_served-Moves t m₁ (Stopped-Apart _ m a h) in
      made_ready (of_task t) (stop_served t m₁) _ m (record {
        stopped = v.stopped;
        pstate_after = v.pstate_after;
        signals = v.signals;
        depth = λ j. v.depth j ∙ a.depth j;
      })

  stop_serving-Moves :
      (m : State) → Stopped t m → Moves t ((m.fields t).pstate - 1) m (stop_serving s t m)
  unfolding stop_serving
  stop_serving-Moves m h =
      let k = m.kernel in
      let x = k.tasks s in
      let k₁ : Kernel = set_task s (record x { state = record x.state { sigsusp = true } }) k in
      let a = Apart-trans (set_task-Apart s t d _ k refl) (rem_ready_current-Apart s t d k₁) in
      let v = let_go-Moves t (with_kernel (rem_ready_current s k₁) m) (Stopped-Apart _ m a h) in
      record {
        stopped = v.stopped;
        pstate_after = v.pstate_after;
        signals = v.signals;
        depth = λ j. v.depth j ∙ a.depth j;
      }

  module _ (once : occurrences s ss ≡ 1) (rt_schedule : State → State) where
    -- A change of the depth of s, by whether it serves before and after, and what it makes of pstate.
    moved-Counted :
        (z : ℤ) (n : ℕ) (b b' : Bool) (m m' : State)
        → is_serving m s ≡ b
        → leb_ℤ z (pos 0) ≡ b'
        → n + tally b ≡ serving ss m + tally b'
        → Moves t n (set_depth s z m) m'
        → Counted t ss m'
    moved-Counted z n b b' m m' p q e v =
        let now = serving-same ss (set_depth s z m) m' v.depth in
        let was = set_depth-serving ss s z m once in
        let p' = ap tally p in
        let q' = ap tally q in
        record {
          stopped = v.stopped;
          counted = v.pstate_after ∙ omega (arith, e, now, was, p', q');
        }

    unmoved :
        (z : ℤ) (m : State)
        → Stopped t m
        → Moves t (m.fields t).pstate (set_depth s z m) (set_depth s z m)
    unmoved z m h = record {
      stopped = set_depth-Stopped z m h;
      pstate_after = refl;
      signals = refl;
      depth = λ j. refl;
    }

    -- What holds of every state with a right count and the same array, and after rt_schedule() there.
    pub rt_exec_signal-by :
        (Q : State → Type 0) (m : State)
        → ((m' : State)
            → Counted t ss m'
            → (m'.fields t).rt_signals ≡ (m.fields t).rt_signals
            → Q m')
        → ((m' : State)
            → Counted t ss m'
            → (m'.fields t).rt_signals ≡ (m.fields t).rt_signals
            → Q (rt_schedule m'))
        → Counted t ss m
        → Q (rt_exec_signal rt_schedule s (some t) m)
    unfolding rt_exec_signal
    rt_exec_signal-by Q m stay env h =
        let depth = (m.kernel.tasks s).suspdepth in
        let z = depth -ℤ pos 1 in
        let c = h.counted in
        elim (Bool-cases (ltb_ℤ (pos 0) depth)) [
          | inr e ↦ rw e (stay m h refl)
          | inl e ↦
              let idle : is_serving m s ≡ false = ground (arith, e) in
              elim (Bool-cases (eq_ℤ z (pos 0))) [
                | inl f ↦
                    let on : leb_ℤ z (pos 0) ≡ true = ground (arith, f) in
                    let v = start-Moves _ (set_depth-Stopped z m h.stopped) in
                    rw (e, f)
                      (env _ (moved-Counted z _ false true m _ idle on (omega (arith, c)) v)
                        v.signals)
                | inr f ↦
                    let off = still_above depth e f in
                    let v = unmoved z m h.stopped in
                    rw (e, f)
                      (stay _ (moved-Counted z _ false false m _ idle off (omega (arith, c)) v)
                        refl)
              ]
        ]

    pub rt_exec_signal-Counted :
        ((m : State) → Counted t ss m → Counted t ss (rt_schedule m))
        → (m : State) → Counted t ss m
        → Counted t ss (rt_exec_signal rt_schedule s (some t) m)
    rt_exec_signal-Counted env m h =
        rt_exec_signal-by (Counted t ss) m (λ m' c e. c) (λ m' c e. env m' c) h

    pub rt_wait_signal-Counted :
        ((m : State) → Counted t ss m → Counted t ss (rt_schedule m))
        → (m : State) → Counted t ss m
        → Counted t ss (rt_wait_signal rt_schedule s t m).1
    unfolding rt_wait_signal
    rt_wait_signal-Counted env m h =
        let depth = (m.kernel.tasks s).suspdepth in
        let z = depth +ℤ pos 1 in
        let c = h.counted in
        elim (Bool-cases (has_signals s m)) [
          | inr g ↦ rw g h
          | inl g ↦ elim (Bool-cases (eq_ℤ depth (pos 0))) [
            | inl e ↦
                let on : is_serving m s ≡ true = ground (arith, e) in
                let some_served = served_one m (sym on) in
                rw (g, e)
                  (env _ (
                    moved-Counted z _ true false m _ on (above_zero depth e)
                      (omega (arith, c, some_served))
                      (stop_serving-Moves _ (set_depth-Stopped z m h.stopped))))
            | inr e ↦
                let same : leb_ℤ z (pos 0) ≡ is_serving m s = below_zero depth e in
                rw (g, e)
                  (moved-Counted z _ (is_serving m s) (is_serving m s) m _ refl same
                    (omega (arith, c)) (unmoved z m h.stopped))
          ]
        ]
      where
        -- pstate is not 0 while s serves.
        served_one : (m : State) → true ≡ is_serving m s → serving ss m ≡ serving ss m - 1 + 1
        served_one m e =
            let off = set_depth-serving ss s (pos 1) m once in
            let e' = ap tally e in omega (arith, off, e')
