-- ===== src/Sched/Entering.antt =====
-- Which of the tasks that wake_up_timed_tasks wakes enter the ready list (include/rtai_schedcore.h).
use rtai.Base.{
  ℕ, ◌+◌, ◌≡◌, refl, ap, sym, ◌∙◌, List, [], ◌∷◌, arith, Bool-cases, leb, ◌&&◌, inl, inr,
  if◌then◌else◌, true, false, Bool, ◌||◌, ◌==◌, ==_self, if_true, if_false,
}
use rtai.Base.Int.{ltb_ℤ, pos}
use rtai.Kernel.{Kernel, Task, set_task, is_ready}
use rtai.Sched.{
  wake_up_task, enq_ready_task, enq_ready_edf_task, clear_timed, insert_edf, priority_of,
}
use rtai.Sched.Count.{occurrences, tally, occurrences-insert, update-keeps}

-- The task as it is woken, before it is made ready.
abbrev pub to_wake : ℕ → Kernel → Kernel
to_wake t k =
    let x = k.tasks t in
    let depth = if x.state.suspended && ltb_ℤ (pos 0) x.suspdepth then pos 0 else x.suspdepth in
    set_task t (record x { suspdepth = depth; state = clear_timed x.state }) k

-- Whether a task that is woken enters the ready list: nothing else is awaited, and it is not left to Linux.
abbrev enters : Task → Bool
enters x = is_ready (clear_timed x.state) && (ltb_ℤ x.policy (pos 0) || x.is_hard)

abbrev pub entering : Kernel → List ℕ → List ℕ
entering k [] = []
entering k (t ∷ ts) = let rest = entering k ts in if enters (k.tasks t) then t ∷ rest else rest

soft-enters : (x : Task) → ltb_ℤ x.policy (pos 0) ≡ false → x.is_hard ≡ false → enters x ≡ false
soft-enters x f h = elim (Bool-cases (is_ready (clear_timed x.state))) [
  | inl e ↦ rw (e, f) h
  | inr e ↦ rw e refl
]

enq_ready_task-enters :
    (t : ℕ) (k : Kernel) (u : ℕ)
    → ltb_ℤ (k.tasks t).policy (pos 0) ≡ false
    → enters ((enq_ready_task t k).tasks u) ≡ enters (k.tasks u)
unfolding enq_ready_task
enq_ready_task-enters t k u f = elim (Bool-cases (k.tasks t).is_hard) [
  | inl h ↦ ap (λ (l : Kernel). enters (l.tasks u)) (if_true _ _ h)
  | inr h ↦
      let x : Task = record (k.tasks t) { state = record (k.tasks t).state { sftrdy = true } } in
      ap (λ (l : Kernel). enters (l.tasks u)) (if_false _ _ h)
      ∙ update-keeps enters k.tasks t x (soft-enters x f h ∙ sym (soft-enters (k.tasks t) f h)) u
]

-- Whether a task enters the ready list is not changed by waking another, or the same.
wake_up_task-enters :
    (t : ℕ) (k : Kernel) (u : ℕ) → enters ((wake_up_task t k).tasks u) ≡ enters (k.tasks u)
unfolding wake_up_task enq_ready_edf_task
wake_up_task-enters t k u =
    let x = k.tasks t in
    let k' = to_wake t k in
    let cleared = update-keeps enters k.tasks t _ refl u in
    elim (Bool-cases (is_ready (clear_timed x.state))) [
      | inr e ↦ ap (λ (l : Kernel). enters (l.tasks u)) (if_false _ _ e) ∙ cleared
      | inl e ↦ elim (Bool-cases (ltb_ℤ x.policy (pos 0))) [
        | inl f ↦ ap (λ (l : Kernel). enters (l.tasks u)) (if_true _ _ e ∙ if_true _ _ f) ∙ cleared
        | inr f ↦
            let same : (k'.tasks t).policy ≡ x.policy =
              ap (λ (y : Task). y.policy) (if_true _ _ (==_self t)) in
            ap (λ (l : Kernel). enters (l.tasks u)) (if_true _ _ e ∙ if_false _ _ f)
            ∙ enq_ready_task-enters t k' u (ap (λ z. ltb_ℤ z (pos 0)) same ∙ f)
            ∙ cleared
      ]
    ]

entering-same :
    (k l : Kernel)
    → ((u : ℕ) → enters (l.tasks u) ≡ enters (k.tasks u))
    → (ts : List ℕ) → entering l ts ≡ entering k ts
entering-same k l e [] = refl
entering-same k l e (t ∷ ts) = rw (e t, entering-same k l e ts) refl

occurrences-insert_edf :
    (tasks : ℕ → Task) (s t : ℕ) (xs : List ℕ)
    → occurrences t (insert_edf tasks s xs) ≡ tally (s == t) + occurrences t xs
unfolding insert_edf
occurrences-insert_edf tasks s t [] = refl
occurrences-insert_edf tasks s t (x ∷ xs) =
    elim (Bool-cases (ltb_ℤ (tasks x).policy (pos 0) && leb (tasks x).period (tasks s).period)) [
      | inl e ↦ let h = occurrences-insert_edf tasks s t xs in rw e (omega (arith, h))
      | inr e ↦ rw e refl
    ]

occurrences-entering :
    (t : ℕ) (k : Kernel) (u : ℕ) (b : Bool)
    → enters (k.tasks t) ≡ b
    → occurrences u (entering k (t ∷ [])) ≡ (if b then tally (t == u) else 0)
occurrences-entering t k u true e = rw e (omega arith)
occurrences-entering t k u false e = rw e refl

enq_ready_task-entering :
    (t : ℕ) (k : Kernel) (u : ℕ)
    → occurrences u (enq_ready_task t k).ready
      ≡ (if (k.tasks t).is_hard then tally (t == u) else 0) + occurrences u k.ready
unfolding enq_ready_task
enq_ready_task-entering t k u = elim (Bool-cases (k.tasks t).is_hard) [
  | inl h ↦
      let b = occurrences-insert (priority_of k) t u k.ready in
      ap (λ (l : Kernel). occurrences u l.ready) (if_true _ _ h)
      ∙ b
      ∙ ap (λ n. n + occurrences u k.ready) (sym (if_true _ _ h))
  | inr h ↦
      ap (λ (l : Kernel). occurrences u l.ready) (if_false _ _ h)
      ∙ omega arith
      ∙ ap (λ n. n + occurrences u k.ready) (sym (if_false _ _ h))
]

-- A task that is woken enters the ready list once, or not at all.
wake_up_task-entering :
    (t : ℕ) (k : Kernel) (u : ℕ)
    → occurrences u (wake_up_task t k).ready
      ≡ occurrences u (entering k (t ∷ [])) + occurrences u k.ready
unfolding wake_up_task enq_ready_edf_task
wake_up_task-entering t k u =
    let x = k.tasks t in
    let k' = to_wake t k in
    let old = occurrences u k.ready in
    elim (Bool-cases (is_ready (clear_timed x.state))) [
      | inr e ↦
          let none_in : enters x ≡ false = rw e refl in
          let new = occurrences-entering t k u false none_in in
          ap (λ (l : Kernel). occurrences u l.ready) (if_false _ _ e) ∙ omega (arith, new)
      | inl e ↦ elim (Bool-cases (ltb_ℤ x.policy (pos 0))) [
        | inl f ↦
            let one_in : enters x ≡ true = rw (e, f) refl in
            let new = occurrences-entering t k u true one_in in
            let edf = occurrences-insert_edf k'.tasks t u k.ready in
            ap (λ (l : Kernel). occurrences u l.ready) (if_true _ _ e ∙ if_true _ _ f)
            ∙ omega (arith, new, edf)
        | inr f ↦
            let by_hard : enters x ≡ x.is_hard = rw (e, f) refl in
            let new = occurrences-entering t k u x.is_hard by_hard in
            let same : (k'.tasks t).is_hard ≡ x.is_hard =
              ap (λ (y : Task). y.is_hard) (if_true _ _ (==_self t)) in
            ap (λ (l : Kernel). occurrences u l.ready) (if_true _ _ e ∙ if_false _ _ f)
            ∙ enq_ready_task-entering t k' u
            ∙ ap (λ b. (if b then tally (t == u) else 0) + old) same
            ∙ ap (λ n. n + old) (sym new)
      ]
    ]

-- The ready list has become longer by those of a list of woken tasks that enter it.
abbrev pub Entered : List ℕ → Kernel → Kernel → Type 0
Entered gone k k' =
    (u : ℕ) → occurrences u k'.ready ≡ occurrences u (entering k gone) + occurrences u k.ready

pub Entered-cons :
    (t : ℕ) (gone : List ℕ) (k k' : Kernel)
    → Entered gone (wake_up_task t k) k'
    → Entered (t ∷ gone) k k'
Entered-cons t gone k k' h u =
    let rest =
      ap (occurrences u) (entering-same k (wake_up_task t k) (wake_up_task-enters t k) gone) in
    let one = wake_up_task-entering t k u in
    let all = entering_cons in h u ∙ omega (arith, rest, one, all)
  where
    entering_cons :
        occurrences u (entering k (t ∷ gone))
        ≡ occurrences u (entering k (t ∷ [])) + occurrences u (entering k gone)
    entering_cons = elim (Bool-cases (enters (k.tasks t))) [
      | inl e ↦ rw e (omega arith)
      | inr e ↦ rw e (omega arith)
    ]
