-- ===== src/Sem/Elsewhere.antt =====
-- What a service of one semaphore leaves alone of the others (src/ipc/sem/sem.c).
use rtai.Base.{ℕ, ◌≡◌, refl, ap, ◌∙◌, arith, Bool, true, false, if◌then◌else◌, ◌==◌}
use rtai.Kernel.{Kernel, Sem, set_sem}
use rtai.Sched.{dequeue_blocked, enqueue_blocked}
use rtai.Sched.Quiet.{Quiet}
use rtai.Sem.{release}
use rtai.Sem.Frames.{release-Quiet}

-- Every semaphore but s, the running task and the pending suspensions stay the same.
pub record Elsewhere (s : ℕ) (k k' : Kernel) : Type 0 where
  pub others : (j : ℕ) → (s == j) ≡ false → k'.sems j ≡ k.sems j
  pub current : k'.current ≡ k.current
  pub depth : (u : ℕ) → (k'.tasks u).suspdepth ≡ (k.tasks u).suspdepth

pub Elsewhere-refl : (s : ℕ) (k : Kernel) → Elsewhere s k k
Elsewhere-refl s k = record { others = λ j d. refl; current = refl; depth = λ u. refl }

pub Elsewhere-trans : {s : ℕ} {k l m : Kernel} → Elsewhere s k l → Elsewhere s l m → Elsewhere s k m
Elsewhere-trans p q = record {
  others = λ j d. q.others j d ∙ p.others j d;
  current = q.current ∙ p.current;
  depth = λ u. q.depth u ∙ p.depth u;
}

pub Quiet-Elsewhere : (s : ℕ) {k k' : Kernel} → Quiet k k' → Elsewhere s k k'
Quiet-Elsewhere s q = record {
  others = λ j d. ap (λ f. f j) q.sems;
  current = q.current;
  depth = q.depth;
}

pub set_sem-Elsewhere : (s : ℕ) (m : Sem) (k : Kernel) → Elsewhere s k (set_sem s m k)
set_sem-Elsewhere s m k = record { others = λ j d. rw d refl; current = refl; depth = λ u. refl }

dequeue_blocked-Elsewhere : (t s : ℕ) (k : Kernel) → Elsewhere s k (dequeue_blocked t s k)
unfolding dequeue_blocked
dequeue_blocked-Elsewhere t s k = record {
  others = λ j d. rw d refl;
  current = refl;
  depth = λ u. ground arith;
}

pub enqueue_blocked-Elsewhere :
    (t s : ℕ) (fifo : Bool) (k : Kernel) → Elsewhere s k (enqueue_blocked t s fifo k)
unfolding enqueue_blocked
enqueue_blocked-Elsewhere t s fifo k = record {
  others = λ j d. rw d refl;
  current = refl;
  depth = λ u. ground arith;
}

pub Elsewhere-if :
    {s : ℕ} (b : Bool) {k l m : Kernel}
    → Elsewhere s k l
    → Elsewhere s k m
    → Elsewhere s k (if b then l else m)
Elsewhere-if true p q = p
Elsewhere-if false p q = q

pub release-Elsewhere : (t s : ℕ) (k : Kernel) → Elsewhere s k (release t s k).1
release-Elsewhere t s k =
    Elsewhere-trans (dequeue_blocked-Elsewhere t s k) (Quiet-Elsewhere s (release-Quiet t s k))
