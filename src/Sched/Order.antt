-- ===== src/Sched/Order.antt =====
-- The order of the ready list, of the queues by priority and of the timed tasks.
use mathlib.Core.List.{Perm}
use mathlib.Core.List.Perm
use rtai.Base.{
  ℕ, ◌≤◌, ◌<◌, ◌≡◌, refl, ap, List, [], ◌∷◌, ◌++◌, arith, All, All-map, Bool-cases, leb, ltb, inl,
  inr, leb→le, true,
}
use rtai.Kernel.{Kernel}
use rtai.Sched.{
  insert_after_equals, insert_timed, enq_ready_task, enq_timed_task, priority_of, resume_time_of,
}

-- Keys never fall along the list.
abbrev pub Sorted : (ℕ → ℕ) → List ℕ → Type 0
Sorted key [] = Unit
Sorted key (x ∷ xs) = All (λ y. key x ≤ key y) xs × Sorted key xs

-- Where a member goes that is put behind its equals.
pub record Placed (key : ℕ → ℕ) (t : ℕ) (xs zs : List ℕ) : Type 0 where
  pub before : List ℕ
  pub after : List ℕ
  pub old : xs ≡ before ++ after
  pub new : zs ≡ before ++ t ∷ after
  pub not_later : All (λ x. key x ≤ key t) before
  pub later : All (λ x. key t < key x) after

module _ (key : ℕ → ℕ) (t : ℕ) where
  pub insert_after_equals-Placed :
      (xs : List ℕ) → Sorted key xs → Placed key t xs (insert_after_equals key t xs)
  unfolding insert_after_equals
  insert_after_equals-Placed [] s = record {
    before = [];
    after = [];
    old = refl;
    new = refl;
    not_later = tt;
    later = tt;
  }
  insert_after_equals-Placed (x ∷ xs) s = elim (Bool-cases (leb (key x) (key t))) [
    | inl e ↦
        let p = insert_after_equals-Placed xs s.1 in
        rw e (record {
          before = x ∷ p.before;
          after = p.after;
          old = ap (◌∷◌ x) p.old;
          new = ap (◌∷◌ x) p.new;
          not_later = (leb→le _ _ e, p.not_later);
          later = p.later;
        })
    | inr e ↦
        let above : key t < key x = ground arith in
        rw e (record {
          before = [];
          after = x ∷ xs;
          old = refl;
          new = refl;
          not_later = tt;
          later = (above, All-map (λ y h. omega arith) xs s.0);
        })
  ]

  All-insert :
      (P : ℕ → Type 0) (xs : List ℕ) → P t → All P xs → All P (insert_after_equals key t xs)
  unfolding insert_after_equals
  All-insert P [] p h = (p, tt)
  All-insert P (x ∷ xs) p h = elim (Bool-cases (leb (key x) (key t))) [
    | inl e ↦ rw e (h.0, All-insert P xs p h.1)
    | inr e ↦ rw e (p, h)
  ]

  pub insert_after_equals-Sorted :
      (xs : List ℕ) → Sorted key xs → Sorted key (insert_after_equals key t xs)
  unfolding insert_after_equals
  insert_after_equals-Sorted [] s = (tt, tt)
  insert_after_equals-Sorted (x ∷ xs) s = elim (Bool-cases (leb (key x) (key t))) [
    | inl e ↦ rw e (All-insert _ xs (leb→le _ _ e) s.0, insert_after_equals-Sorted xs s.1)
    | inr e ↦
        let above : key t ≤ key x = ground arith in
        rw e ((above, All-map (λ y h. omega arith) xs s.0), s)
  ]

  insert_after_equals-perm : (xs : List ℕ) → Perm (insert_after_equals key t xs) (t ∷ xs)
  unfolding insert_after_equals
  insert_after_equals-perm [] = Perm.refl _
  insert_after_equals-perm (x ∷ xs) = elim (Bool-cases (leb (key x) (key t))) [
    | inl e ↦ rw e (Perm.trans (Perm.cons x (insert_after_equals-perm xs)) (Perm.swap t x xs))
    | inr e ↦ rw e (Perm.refl _)
  ]

  All-insert_timed : (P : ℕ → Type 0) (xs : List ℕ) → P t → All P xs → All P (insert_timed key t xs)
  unfolding insert_timed
  All-insert_timed P [] p h = (p, tt)
  All-insert_timed P (x ∷ xs) p h = elim (Bool-cases (ltb (key x) (key t))) [
    | inl e ↦ rw e (h.0, All-insert_timed P xs p h.1)
    | inr e ↦ rw e (p, h)
  ]

  insert_timed-Sorted : (xs : List ℕ) → Sorted key xs → Sorted key (insert_timed key t xs)
  unfolding insert_timed
  insert_timed-Sorted [] s = (tt, tt)
  insert_timed-Sorted (x ∷ xs) s = elim (Bool-cases (ltb (key x) (key t))) [
    | inl e ↦
        let below : key x ≤ key t = ground arith in
        rw e (All-insert_timed _ xs below s.0, insert_timed-Sorted xs s.1)
    | inr e ↦
        let above : key t ≤ key x = ground arith in
        rw e ((above, All-map (λ y h. omega arith) xs s.0), s)
  ]

  insert_timed-perm : (xs : List ℕ) → Perm (insert_timed key t xs) (t ∷ xs)
  unfolding insert_timed
  insert_timed-perm [] = Perm.refl _
  insert_timed-perm (x ∷ xs) = elim (Bool-cases (ltb (key x) (key t))) [
    | inl e ↦ rw e (Perm.trans (Perm.cons x (insert_timed-perm xs)) (Perm.swap t x xs))
    | inr e ↦ rw e (Perm.refl _)
  ]

-- A hard real time task is made ready behind every task of at least its priority and before every
-- task of a lower one; nothing else of the ready list changes, and it stays sorted.
pub enq_ready_task-Placed :
    (t : ℕ) (k : Kernel)
    → (k.tasks t).is_hard ≡ true
    → Sorted (priority_of k) k.ready
    → Placed (priority_of k) t k.ready (enq_ready_task t k).ready
      × Sorted (priority_of (enq_ready_task t k)) (enq_ready_task t k).ready
unfolding enq_ready_task
enq_ready_task-Placed t k hard s = rw hard (
  insert_after_equals-Placed (priority_of k) t k.ready s,
  insert_after_equals-Sorted (priority_of k) t k.ready s,
)

-- A timed task goes to a place where the list stays sorted by the time of resumption, among the tasks
-- that were there.
pub enq_timed_task-Sorted :
    (t : ℕ) (k : Kernel)
    → Sorted (resume_time_of k) k.timed
    → Sorted (resume_time_of (enq_timed_task t k)) (enq_timed_task t k).timed
      × Perm (enq_timed_task t k).timed (t ∷ k.timed)
unfolding enq_timed_task
enq_timed_task-Sorted t k s = (
  insert_timed-Sorted (resume_time_of k) t k.timed s,
  insert_timed-perm (resume_time_of k) t k.timed,
)
