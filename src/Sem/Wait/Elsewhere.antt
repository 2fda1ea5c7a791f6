-- ===== src/Sem/Wait/Elsewhere.antt =====
-- rt_sem_wait_if changes no other semaphore (src/ipc/sem/sem.c).
use rtai.Base.{ℕ, ◌≡◌, refl, Bool, true, false, Bool-cases, inl, inr, not, ◌&&◌, ltb, if◌then◌else◌}
use rtai.Base.Int.{ℤ, pos, ltb_ℤ, leb_ℤ, eq_ℤ}
use rtai.Kernel.{Kernel, Owner, nobody, task, number}
use rtai.Sched.{priority_of}
use rtai.Sched.Quiet.{Quiet-trans, set_task-Quiet, rem_ready_task-Quiet, enq_timed_task-Quiet}
use rtai.Prio.Quiet.{enqueue_resqel-Quiet}
use rtai.Sem.{owned_by}
use rtai.Sem.Elsewhere.{
  Elsewhere, Elsewhere-refl, Elsewhere-trans, Elsewhere-if, Quiet-Elsewhere, set_sem-Elsewhere,
  enqueue_blocked-Elsewhere,
}
use rtai.Sem.Wait.{
  Attempt, returns, goes_on, count_down, take_over, acquired, set_back, ubi_maior, nested,
  rt_sem_wait_if,
}

take_over-Elsewhere : (s c : ℕ) (k : Kernel) → Elsewhere s k (take_over s c k)
unfolding take_over
take_over-Elsewhere s c k =
    Elsewhere-trans (set_sem-Elsewhere s _ k) (Quiet-Elsewhere s (enqueue_resqel-Quiet c _))

count_down-Elsewhere : (s : ℕ) (k : Kernel) → Elsewhere s k (count_down s k)
unfolding count_down
count_down-Elsewhere s k = set_sem-Elsewhere s _ k

acquired-Elsewhere : (s c : ℕ) (k : Kernel) → Elsewhere s k (acquired s c k)
unfolding acquired
acquired-Elsewhere s c k =
    Elsewhere-if (ltb_ℤ (pos 0) (k.sems s).type) (take_over-Elsewhere s c k) (Elsewhere-refl s k)

set_back-Elsewhere : (s t c : ℕ) (k : Kernel) → Elsewhere s k (set_back s t c k)
unfolding set_back
set_back-Elsewhere s t c k =
    let x = k.tasks t in
    let d =
      Elsewhere-trans (count_down-Elsewhere s k)
        (Quiet-Elsewhere s (rem_ready_task-Quiet t (count_down s k))) in
    let idle = Elsewhere-trans d (Quiet-Elsewhere s (set_task-Quiet t _ _ refl)) in
    let timed =
      Elsewhere-trans d
        (Quiet-Elsewhere s (Quiet-trans (set_task-Quiet t _ _ refl) (enq_timed_task-Quiet t _))) in
    Elsewhere-trans
      (Elsewhere-trans
        (Elsewhere-if (eq_ℤ x.running (pos 0)) idle
          (Elsewhere-if (ltb k.time_h x.resume_time) timed (Elsewhere-refl s k)))
        (enqueue_blocked-Elsewhere t s false _))
      (take_over-Elsewhere s c _)

-- an attempt that has changed s only
Only : ℕ → Kernel → Attempt → Type 0
Only s k (returns r l) = Elsewhere s k l
Only s k (goes_on l) = Elsewhere s k l

ubi_maior-Only : (s : ℕ) (k : Kernel) (o : Owner) → (k.sems s).owndby ≡ o → Only s k (ubi_maior s k)
unfolding ubi_maior Only
ubi_maior-Only s k nobody e = rw (ubi_maior, e) (Elsewhere-refl s k)
ubi_maior-Only s k (number n) e = rw (ubi_maior, e) (Elsewhere-refl s k)
ubi_maior-Only s k (task t) e =
    let c = k.current in
    elim (Bool-cases
      (ltb (priority_of k c) (priority_of k t) && leb_ℤ (k.tasks t).running (pos 0))) [
        | inl f ↦ rw (ubi_maior, e, f) (set_back-Elsewhere s t c k)
        | inr f ↦ rw (ubi_maior, e, f) (Elsewhere-refl s k)
      ]

nested-Only : (s : ℕ) (k : Kernel) → Only s k (nested s k)
unfolding nested Only
nested-Only s k =
    let m = k.sems s in
    elim (Bool-cases (not (eq_ℤ m.restype (pos 0)) && owned_by m k.current)) [
      | inr e ↦ rw e (Elsewhere-refl s k)
      | inl e ↦ elim (Bool-cases (ltb_ℤ (pos 0) m.restype)) [
        | inl f ↦ rw (e, f) (set_sem-Elsewhere s _ k)
        | inr f ↦ rw (e, f) (Elsewhere-refl s k)
      ]
    ]

-- what rt_sem_wait_if makes of an attempt to take a resource
abbrev again : ℤ → Attempt → ℤ × Kernel
again count a = elim a [ returns r l ↦ (r, l) | goes_on l ↦ (count, l) ]

abbrev tried : ℕ → ℤ → Attempt → ℤ × Kernel
tried s count a = elim a [ returns r l ↦ (r, l) | goes_on l ↦ again count (nested s l) ]

again-Elsewhere :
    (s : ℕ) (k : Kernel) (count : ℤ) (a : Attempt) → Only s k a → Elsewhere s k (again count a).1
unfolding Only
again-Elsewhere s k count (returns r l) e = e
again-Elsewhere s k count (goes_on l) e = e

tried-Elsewhere :
    (s : ℕ) (k : Kernel) (count : ℤ) (a : Attempt) → Only s k a → Elsewhere s k (tried s count a).1
unfolding Only
tried-Elsewhere s k count (returns r l) e = e
tried-Elsewhere s k count (goes_on l) e =
    Elsewhere-trans e (again-Elsewhere s l count (nested s l) (nested-Only s l))

first_try-Only : (s : ℕ) (k : Kernel) (b : Bool) → Only s k (if b then ubi_maior s k else goes_on k)
unfolding Only
first_try-Only s k true = ubi_maior-Only s k _ refl
first_try-Only s k false = Elsewhere-refl s k

module _ (ntasks : ℕ) (rt_schedule : Kernel → Kernel) where
  pub rt_sem_wait_if-Elsewhere :
      (s : ℕ) (k : Kernel) → Elsewhere s k (rt_sem_wait_if ntasks rt_schedule s k).1
  unfolding rt_sem_wait_if
  rt_sem_wait_if-Elsewhere s k =
      let m = k.sems s in
      elim (Bool-cases m.magic) [
        | inr e ↦ rw e (Elsewhere-refl s k)
        | inl e ↦ elim (Bool-cases (leb_ℤ m.count (pos 0))) [
          | inl f ↦
              rw (e, f) (tried-Elsewhere s k m.count _ (first_try-Only s k (ltb_ℤ (pos 0) m.type)))
          | inr f ↦
              rw (e, f)
                (Elsewhere-trans (count_down-Elsewhere s k)
                  (acquired-Elsewhere s k.current (count_down s k)))
        ]
      ]
