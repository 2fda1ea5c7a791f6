-- ===== src/Sem/Signal/Broadcast.antt =====
-- rt_sem_broadcast lets every waiting task go (src/ipc/sem/sem.c).
use rtai.Base.{
  ℕ, ◌≡◌, refl, sym, subst, List, [], ◌∷◌, arith, Bool, true, false, Bool-cases, inl, inr,
  if◌then◌else◌, ◌==◌, ==_self, ◌||◌,
}
use rtai.Base.Int.{pos}
use rtai.Kernel.{Kernel, set_sem, unlink}
use rtai.Sched.{dequeue_blocked}
use rtai.Sem.{release}
use rtai.Sem.Frames.{release-Quiet}
use rtai.Sem.Balance.{Balanced}
use rtai.Sem.Signal.{broadcast_loop, rt_sem_broadcast}
use rtai.Sem.Signal.Balance.{AllBalanced}

-- Every semaphore but s is in balance, and q waits for s.
abbrev Emptying : ℕ → List ℕ → Kernel → Type 0
Emptying s q k = ((j : ℕ) → (s == j) ≡ false → Balanced (k.sems j)) × ((k.sems s).queue ≡ q)

release-Emptying :
    (t s : ℕ) (q : List ℕ) (k : Kernel) → Emptying s (t ∷ q) k → Emptying s q (release t s k).1
unfolding dequeue_blocked unlink
release-Emptying t s q k e =
    let sems = (release-Quiet t s k).sems in
    subst (λ f. ((j : ℕ) → (s == j) ≡ false → Balanced (f j)) × ((f s).queue ≡ q)) (sym sems)
      ((λ j d. rw d (e.0 j d)), rw (==_self s, e.1, ==_self t) refl)

module _ (rt_schedule : Kernel → Kernel) (rt_task_delete : ℕ → Kernel → Kernel) where
  broadcast_loop-Emptying :
      (s : ℕ) (q : List ℕ) (b : Bool) (k : Kernel)
      → Emptying s q k
      → Emptying s [] (broadcast_loop rt_schedule rt_task_delete q s b k).1
  unfolding broadcast_loop
  broadcast_loop-Emptying s [] b k e = e
  broadcast_loop-Emptying s (t ∷ q) b k e =
      broadcast_loop-Emptying s q (b || (release t s k).0) (release t s k).1
        (release-Emptying t s q k e)

  -- rt_sem_broadcast of a valid semaphore leaves all semaphores in balance, and what it hands to
  -- rt_schedule(), or returns if no task became ready, has no task in the queue and the count 0.
  pub rt_sem_broadcast-AllBalanced :
      (s : ℕ) (k : Kernel)
      → ((l : Kernel) → AllBalanced l → AllBalanced (rt_schedule l))
      → (k.sems s).magic ≡ true
      → AllBalanced k
      → (l : Kernel) × (woken : Bool) × (rt_sem_broadcast rt_schedule rt_task_delete s k
          ≡ (pos 0, if woken then rt_schedule l else l))
        × ((l.sems s).queue ≡ [])
        × ((l.sems s).count ≡ pos 0)
        × AllBalanced (rt_sem_broadcast rt_schedule rt_task_delete s k).1
  unfolding rt_sem_broadcast
  rt_sem_broadcast-AllBalanced s k env v b =
      let r = broadcast_loop rt_schedule rt_task_delete (k.sems s).queue s false k in
      let e = broadcast_loop-Emptying s (k.sems s).queue false k ((λ j d. b j), refl) in
      let l : Kernel = set_sem s (record (r.1.sems s) { count = pos 0 }) r.1 in
      let bal : AllBalanced l = λ j. elim (Bool-cases (s == j)) [
        | inl d ↦ rw d (record { waiters = rw e.1 refl; capped = λ n. omega arith })
        | inr d ↦ rw d (e.0 j d)
      ] in
      let all : AllBalanced (if r.0 then rt_schedule l else l) = elim (Bool-cases r.0) [
        | inl f ↦ rw f (env l bal)
        | inr f ↦ rw f bal
      ] in
      (l, r.0, rw v refl, rw (==_self s) e.1, rw (==_self s) refl, rw v all)
