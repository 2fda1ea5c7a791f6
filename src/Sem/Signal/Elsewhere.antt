-- ===== src/Sem/Signal/Elsewhere.antt =====
-- rt_sem_signal and rt_sem_broadcast change no other semaphore before they call rt_schedule()
-- (src/ipc/sem/sem.c).
use rtai.Base.{
  ℕ, ◌≡◌, refl, ap, sym, subst, ◌∙◌, List, [], ◌∷◌, Bool, true, false, Bool-cases, inl, inr, not,
  ◌&&◌, ◌||◌, Option, none, some,
}
use rtai.Base.Int.{pos, ◌≤ℤ◌, ltb_ℤ, leb_ℤ, eq_ℤ}
use rtai.Kernel.{Kernel, set_sem}
use rtai.Sched.Quiet.{Quiet-trans, set_task-Quiet}
use rtai.Prio.{dequeue_resqel_reset_task_priority}
use rtai.Prio.Quiet.{dequeue_resqel-Quiet}
use rtai.Sem.{release, owner_of, head?, minus_delayed, owned_by}
use rtai.Sem.Elsewhere.{
  Elsewhere, Elsewhere-refl, Elsewhere-trans, Quiet-Elsewhere, set_sem-Elsewhere, release-Elsewhere,
}
use rtai.Sem.Signal.{
  counted, give_back, signal_waiter, rt_sem_signal, broadcast_loop, rt_sem_broadcast,
}
use rtai.Sem.Signal.Balance.{Returns, NotDeleted, suspend_or_delete-Quiet}

counted-Elsewhere : (s : ℕ) (k : Kernel) → Elsewhere s k (counted s k)
unfolding counted
counted-Elsewhere s k = set_sem-Elsewhere s _ k

pub NotDeleted-Elsewhere : {s : ℕ} {k k' : Kernel} → Elsewhere s k k' → NotDeleted k → NotDeleted k'
NotDeleted-Elsewhere {k' = k'} q h =
    subst (λ z. pos 0 ≤ℤ z) (sym (ap (λ c. (k'.tasks c).suspdepth) q.current ∙ q.depth _)) h

-- What holds wherever only s has changed since k, and holds after rt_schedule(), where it held before.
module _ (rt_schedule : Kernel → Kernel) (rt_task_delete : ℕ → Kernel → Kernel)
    (P : Kernel → Type 0) (env : (k : Kernel) → P k → P (rt_schedule k)) (s : ℕ) (k : Kernel)
    (here : (k' : Kernel) → Elsewhere s k k' → P k') (h : NotDeleted k) where
  give_back-Returns :
      (w : Option ℕ) (to : Bool) (l : Kernel)
      → Elsewhere s k l
      → Returns P (give_back rt_schedule rt_task_delete s w to l)
  unfolding give_back
  give_back-Returns w to l e =
      let c = l.current in
      let l₁ : Kernel = set_sem s (record (l.sems s) { owndby = owner_of w }) l in
      let d = dequeue_resqel_reset_task_priority c l₁ in
      let quiet = dequeue_resqel-Quiet c l₁ in
      let o =
        suspend_or_delete-Quiet rt_schedule rt_task_delete w d.0 c d.1
          (subst (λ z. pos 0 ≤ℤ z) (sym (quiet.depth c)) (NotDeleted-Elsewhere e h)) in
      let p = here o.0.1 (
        Elsewhere-trans e (
          Elsewhere-trans (set_sem-Elsewhere s _ l) (Quiet-Elsewhere s (Quiet-trans quiet o.2)))) in
      elim (Bool-cases (ltb_ℤ (pos 0) (l.sems s).type)) [
        | inr f ↦ rw f (here l e)
        | inl f ↦
            rw (f, o.1)
              (elim (Bool-cases (o.0.0 || to)) [ inl g ↦ rw g (env o.0.1 p) | inr g ↦ rw g p ])
      ]

  signal_waiter-Returns :
      (l : Kernel)
      → Elsewhere s k l
      → (q : List ℕ) → (l.sems s).queue ≡ q
      → Returns P (signal_waiter rt_schedule rt_task_delete s l)
  unfolding signal_waiter head?
  signal_waiter-Returns l e [] f = rw (signal_waiter, f) (give_back-Returns none false l e)
  signal_waiter-Returns l e (t ∷ q) f =
      let r = release t s l in
      let x = r.1.tasks t in
      let e₁ = Elsewhere-trans e (release-Elsewhere t s l) in
      let quiet = set_task-Quiet t (record x { running = minus_delayed x.state }) r.1 refl in
      rw (signal_waiter, f)
        (elim (Bool-cases r.0) [
          | inr g ↦ rw g (give_back-Returns (some t) false r.1 e₁)
          | inl g ↦ elim (Bool-cases (leb_ℤ (r.1.sems s).type (pos 0))) [
            | inl i ↦ rw (g, i) (env r.1 (here r.1 e₁))
            | inr i ↦
                rw (g, i)
                  (give_back-Returns (some t) true _ (Elsewhere-trans e₁ (Quiet-Elsewhere s quiet)))
          ]
        ])

  pub rt_sem_signal-Returns : Returns P (rt_sem_signal rt_schedule rt_task_delete s k)
  unfolding rt_sem_signal owned_by
  rt_sem_signal-Returns =
      let m = k.sems s in
      let same = here k (Elsewhere-refl s k) in
      elim (Bool-cases m.magic) [
        | inr e ↦ rw e same
        | inl e ↦
            elim (Bool-cases (
              not (eq_ℤ m.type (pos 0))
              && not (eq_ℤ m.restype (pos 0))
              && not (owned_by m k.current))) [
                | inl f ↦ rw (e, f) same
                | inr f ↦ elim (Bool-cases (ltb_ℤ (pos 1) m.type)) [
                  | inl g ↦ rw (e, f, g) (here _ (set_sem-Elsewhere s _ k))
                  | inr g ↦
                      rw (e, f, g)
                        (signal_waiter-Returns (counted s k) (counted-Elsewhere s k) _ refl)
                ]
              ]
      ]

broadcast_loop-Elsewhere :
    (rt_schedule : Kernel → Kernel) (rt_task_delete : ℕ → Kernel → Kernel) (q : List ℕ) (s : ℕ)
    (b : Bool) (k : Kernel)
    → Elsewhere s k (broadcast_loop rt_schedule rt_task_delete q s b k).1
unfolding broadcast_loop
broadcast_loop-Elsewhere sch del [] s b k = Elsewhere-refl s k
broadcast_loop-Elsewhere sch del (t ∷ q) s b k =
    let r = release t s k in
    Elsewhere-trans (release-Elsewhere t s k) (broadcast_loop-Elsewhere sch del q s (b || r.0) r.1)

pub rt_sem_broadcast-Keeps :
    (rt_schedule : Kernel → Kernel) (rt_task_delete : ℕ → Kernel → Kernel) (P : Kernel → Type 0)
    → ((k : Kernel) → P k → P (rt_schedule k))
    → (s : ℕ) (k : Kernel) → ((k' : Kernel) → Elsewhere s k k' → P k')
    → P (rt_sem_broadcast rt_schedule rt_task_delete s k).1
unfolding rt_sem_broadcast
rt_sem_broadcast-Keeps sch del P env s k here =
    let r = broadcast_loop sch del (k.sems s).queue s false k in
    let e =
      Elsewhere-trans (broadcast_loop-Elsewhere sch del (k.sems s).queue s false k)
        (set_sem-Elsewhere s (record (r.1.sems s) { count = pos 0 }) r.1) in
    elim (Bool-cases (k.sems s).magic) [
      | inr f ↦ rw f (here k (Elsewhere-refl s k))
      | inl f ↦ elim (Bool-cases r.0) [
        | inl g ↦ rw (f, g) (env _ (here _ e))
        | inr g ↦ rw (f, g) (here _ e)
      ]
    ]
