-- ===== src/Schedule/RoundRobin.antt =====
-- Round robin: every task of the first priority has its turn.
use rtai.Base.{
  ℕ, suc, ◌+◌, ◌≤◌, ◌≡◌, refl, ap, sym, subst, ◌∙◌, List, [], ◌∷◌, ◌++◌, arith, length, true, Bool,
  Bool-cases, inl, inr, All, All-map, leb, ◌==◌, ==_self, ==_iff, not, if_true, if_false,
}
use rtai.Base.Int.{pos, ltb_ℤ}
use rtai.Kernel.{Kernel, Task, is_ready, set_task}
use rtai.Sched.{priority_of, wake_up_timed_tasks}
use rtai.Sched.Wake.{wake_up_timed_tasks-none}
use rtai.Api.{yielded}
use rtai.Schedule.{
  Processor, rotate, rr_yield, give_quantum, new_task, either_hard, switch_to, choose,
  rt_timer_handler,
}

-- A ready hard real time task under round robin, of the priority p.
pub record Turns (p : ℕ) (x : Task) : Type 0 where
  pub priority : x.priority ≡ p
  pub round_robin : ltb_ℤ (pos 0) x.policy ≡ true
  pub ready : is_ready x.state ≡ true
  pub hard : x.is_hard ≡ true

-- The first of the ready tasks runs; it and those up to u are in turn; nothing else is to come.
pub record Line (linux : ℕ) (line : List ℕ) (u : ℕ) (s : Processor) : Type 0 where
  pub priority : ℕ
  pub behind : List ℕ
  pub ready : s.kernel.ready ≡ line ++ u ∷ behind
  pub first : new_task linux (line ++ u ∷ []) ≡ s.kernel.current
  pub in_turn : All (λ t. Turns priority (s.kernel.tasks t)) (line ++ u ∷ [])
  pub none_timed : s.kernel.timed ≡ []
  pub unlocked : s.locked ≡ 0

-- The timer comes once for each of the tasks of a list, each time when the quantum of the running task is
-- used up.
pub data Ticks (linux half_tick : ℕ) : ℕ → Processor → Processor → Type 0 where
  stop : (s : Processor) → Ticks linux half_tick 0 s s
  fires :
      {n : ℕ} {s s' : Processor} (now : ℕ)
      → (s.kernel.tasks s.kernel.current).yield_time ≤ now
      → Ticks linux half_tick n (rt_timer_handler linux half_tick now s) s'
      → Ticks linux half_tick (suc n) s s'

yielded-equals :
    (key : ℕ → ℕ) (t u : ℕ) (xs ys : List ℕ)
    → All (λ x. key x ≡ key t) (xs ++ u ∷ [])
    → yielded key t (xs ++ u ∷ ys) ≡ xs ++ u ∷ yielded key t ys
unfolding yielded
yielded-equals key t u [] ys a = if_true {b = key u == key t} _ _ (ground (arith, a.0))
yielded-equals key t u (x ∷ xs) ys a =
    if_true {b = key x == key t} _ _ (ground (arith, a.0))
    ∙ ap (◌∷◌ x) (yielded-equals key t u xs ys a.1)

rotate-first : (key : ℕ → ℕ) (t : ℕ) (xs : List ℕ) → rotate key t (t ∷ xs) ≡ yielded key t xs
unfolding rotate
rotate-first key t xs = if_true _ _ (==_self t)

new_task-append :
    (linux u : ℕ) (xs ys : List ℕ) → new_task linux (xs ++ u ∷ ys) ≡ new_task linux (xs ++ u ∷ [])
unfolding new_task
new_task-append linux u [] ys = refl
new_task-append linux u (x ∷ xs) ys = refl

-- What round robin looks at, of a task whose other fields have changed.
set_task-Turns :
    (n t p : ℕ) (x : Task) (k : Kernel)
    → x.priority ≡ (k.tasks n).priority
    → x.policy ≡ (k.tasks n).policy
    → x.state ≡ (k.tasks n).state
    → x.is_hard ≡ (k.tasks n).is_hard
    → Turns p (k.tasks t)
    → Turns p ((set_task n x k).tasks t)
set_task-Turns n t p x k a b c d h = elim (Bool-cases (n == t)) [
  | inr e ↦ rw e h
  | inl e ↦
      let same = ap k.tasks ((==_iff n t).0 e) in
      rw e (record {
        priority = a ∙ ap (λ y. y.priority) same ∙ h.priority;
        round_robin = ap (λ z. ltb_ℤ (pos 0) z) (b ∙ ap (λ y. y.policy) same) ∙ h.round_robin;
        ready = ap is_ready (c ∙ ap (λ y. y.state) same) ∙ h.ready;
        hard = d ∙ ap (λ y. y.is_hard) same ∙ h.hard;
      })
]

-- Of a kernel, what a turn leaves alone.
record Same (k k' : Kernel) : Type 0 where
  ready : k'.ready ≡ k.ready
  timed : k'.timed ≡ k.timed
  turns : (t p : ℕ) → Turns p (k.tasks t) → Turns p (k'.tasks t)

give_quantum-Same : (tick n : ℕ) (k : Kernel) → Same k (give_quantum tick n k)
unfolding give_quantum
give_quantum-Same tick n k =
    let x : Task = record (k.tasks n) { running = pos 1 } in
    elim (Bool-cases (ltb_ℤ (pos 0) (k.tasks n).policy)) [
      | inl e ↦
          let y : Task = record x { yield_time = tick + x.rr_remaining } in
          subst (Same k) (sym (if_true _ _ e)) (record {
            ready = refl;
            timed = refl;
            turns = λ t p h. set_task-Turns n t p y k refl refl refl refl h;
          })
      | inr e ↦ subst (Same k) (sym (if_false _ _ e)) (record {
        ready = refl;
        timed = refl;
        turns = λ t p h. set_task-Turns n t p x k refl refl refl refl h;
      })
    ]

-- The chosen task is the running one, if rt_smp_current changes and the scheduler is not locked.
switch_to-current :
    (b : Bool) (t : ℕ) (p : Processor)
    → p.locked ≡ 0
    → b ≡ true
    → switch_to b t p ≡ record p { kernel = record p.kernel { current = t } }
unfolding switch_to
switch_to-current b t p e changes = elim (Bool-cases (t == p.kernel.current)) [
  | inl f ↦
      if_true _ _ f
      ∙ ap (λ c. record p { kernel = record p.kernel { current = c } }) (sym ((==_iff t _).0 f))
  | inr f ↦
      if_false _ _ f
      ∙ if_false {b = not (p.locked == 0)} _ _ (ground (arith, e))
      ∙ if_true _ _ changes
]

hard_first : (t : ℕ) (k : Kernel) → (k.tasks t).is_hard ≡ true → either_hard t k ≡ true
unfolding either_hard
hard_first t k e = rw e refl

new_task-in_turn :
    (P : ℕ → Type 0) (linux u : ℕ) (xs : List ℕ)
    → All P (xs ++ u ∷ [])
    → P (new_task linux (xs ++ u ∷ []))
unfolding new_task
new_task-in_turn P linux u [] a = a.0
new_task-in_turn P linux u (x ∷ xs) a = a.0

-- the running task goes behind those of its priority, with a new quantum
turned : Kernel → Kernel
turned k =
    let c = k.current in
    let x = k.tasks c in
    let full : Kernel = set_task c (record x { rr_remaining = x.rr_quantum }) k in
    record full { ready = rotate (priority_of k) c k.ready }

rr_yield-turned :
    (tick p : ℕ) (k : Kernel)
    → Turns p (k.tasks k.current)
    → (k.tasks k.current).yield_time ≤ tick
    → rr_yield tick k ≡ turned k
unfolding rr_yield turned
rr_yield-turned tick p k h e =
    if_true _ _ h.round_robin
    ∙ if_true {b = leb (k.tasks k.current).yield_time tick} _ _ (ground arith)
    ∙ if_true _ _ h.ready

turned-Same : (k : Kernel) (t p : ℕ) → Turns p (k.tasks t) → Turns p ((turned k).tasks t)
unfolding turned
turned-Same k t p h = set_task-Turns k.current t p _ k refl refl refl refl h

timed-turned : (k : Kernel) → (turned k).timed ≡ k.timed
unfolding turned
timed-turned k = refl

ready-turned :
    (u p : ℕ) (line behind : List ℕ) (k : Kernel)
    → k.ready ≡ k.current ∷ line ++ u ∷ behind
    → Turns p (k.tasks k.current)
    → All (λ t. Turns p (k.tasks t)) (line ++ u ∷ [])
    → (turned k).ready ≡ line ++ u ∷ yielded (priority_of k) k.current behind
unfolding turned
ready-turned u p line behind k e h a =
    ap (rotate (priority_of k) k.current) e
    ∙ rotate-first (priority_of k) k.current (line ++ u ∷ behind)
    ∙ yielded-equals (priority_of k) k.current u line behind
        (All-map (λ t g. g.priority ∙ sym h.priority) (line ++ u ∷ []) a)

fires-Line :
    (linux half_tick c u : ℕ) (line : List ℕ) (now : ℕ) (s : Processor)
    → Line linux (c ∷ line) u s
    → (s.kernel.tasks s.kernel.current).yield_time ≤ now
    → Line linux line u (rt_timer_handler linux half_tick now s)
unfolding rt_timer_handler choose new_task
fires-Line linux half_tick c u line now s h e =
    let k : Kernel = record s.kernel { time_h = now + half_tick } in
    let p = h.priority in
    let turns : Turns p (k.tasks k.current) =
      subst (λ t. Turns p (k.tasks t)) h.first h.in_turn.0 in
    let l = turned k in
    let ready =
      ready-turned u p line h.behind k (h.ready ∙ ap (λ t. t ∷ line ++ u ∷ h.behind) h.first) turns
        h.in_turn.1 in
    let woken =
      ap wake_up_timed_tasks (rr_yield-turned now p k turns e)
      ∙ wake_up_timed_tasks-none l (timed-turned k ∙ h.none_timed) in
    let s' : Processor = record s { tick_time = now } in
    let t = new_task linux l.ready in
    let q = give_quantum now t l in
    let same = give_quantum-Same now t l in
    let in_turn =
      All-map (λ x g. same.turns x p (turned-Same k x p g)) (line ++ u ∷ []) h.in_turn.1 in
    let first = ap (new_task linux) ready ∙ new_task-append linux u line _ in
    let chosen_turns : Turns p (q.tasks t) =
      subst (λ x. Turns p (q.tasks x)) (sym first) (new_task-in_turn _ linux u line in_turn) in
    let f : Processor = record s' { kernel = record q { current = t } } in
    let chosen : rt_timer_handler linux half_tick now s ≡ f =
      ap (λ m. choose linux now m s') woken
      ∙ switch_to-current (either_hard t q) t (record s' { kernel = q }) h.unlocked
          (hard_first t q chosen_turns.hard) in
    subst (Line linux line u) (sym chosen) (record {
      priority = p;
      behind = yielded (priority_of k) k.current h.behind;
      ready = same.ready ∙ ready;
      first = sym first;
      in_turn = in_turn;
      none_timed = same.timed ∙ timed-turned k ∙ h.none_timed;
      unlocked = h.unlocked;
    })

-- The ready list begins with hard real time tasks of one priority under round robin, in turn up to the task u, the first
-- of them runs, no task waits for a time, and the scheduler is not locked. When the timer has come
-- once for each task before u, each time with the quantum of the running task used up, u runs.
pub rt_timer_handler-turn :
    (linux half_tick u : ℕ) (line : List ℕ) (s s' : Processor)
    → Line linux line u s
    → Ticks linux half_tick (length line) s s'
    → s'.kernel.current ≡ u
unfolding new_task
rt_timer_handler-turn linux half_tick u [] s s' h (Ticks.stop _) = sym h.first
rt_timer_handler-turn linux half_tick u (c ∷ line) s s' h (Ticks.fires now e r) =
    rt_timer_handler-turn linux half_tick u line _ s'
      (fires-Line linux half_tick c u line now s h e) r
