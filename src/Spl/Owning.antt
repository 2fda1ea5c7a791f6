-- ===== src/Spl/Owning.antt =====
-- Who holds a spin lock, and how often, after any number of tries by any tasks (src/ipc/sem/sem.c).
use rtai.Base.{
  ℕ, zero, suc, ◌+◌, ◌==◌, ◌≡◌, refl, arith, List, [], ◌∷◌, Bool-cases, inl, inr, if◌then◌else◌,
  Option, none, some,
}
use rtai.Base.Int.{ℤ, pos, negsuc}
use rtai.Spl.{Spl, owns, rt_spl_lock_if, rt_spl_unlock}

-- What a task may do to the lock.
pub data Event : Type 0 where
  lock_if : ℕ → Event
  unlock : ℕ → Event

unfoldable pub call : Event → Spl → ℤ × Spl
call (lock_if t) s = rt_spl_lock_if t s
call (unlock t) s = rt_spl_unlock t s

unfoldable pub run : List Event → Spl → Spl
run [] s = s
run (e ∷ es) s = run es (call e s).1

-- 1 for a call that returned 0.
abbrev pub success : ℤ → ℕ
success (pos n) = 1
success (negsuc n) = 0

-- How often the task t has got the lock in a call, and how often it has given it back.
gained : ℕ → Event → Spl → ℕ
gained t (lock_if u) s = if u == t then success (rt_spl_lock_if u s).0 else 0
gained t (unlock u) s = 0

pub returned : ℕ → Event → Spl → ℕ
returned t (lock_if u) s = 0
returned t (unlock u) s = if u == t then success (rt_spl_unlock u s).0 else 0

pub all_gained : ℕ → List Event → Spl → ℕ
all_gained t [] s = 0
all_gained t (e ∷ es) s = gained t e s + all_gained t es (call e s).1

pub all_returned : ℕ → List Event → Spl → ℕ
all_returned t [] s = 0
all_returned t (e ∷ es) s = returned t e s + all_returned t es (call e s).1

-- How many times the task t holds the lock.
unfoldable pub depth : Spl → ℕ → ℕ
depth s t = if owns s t then s.count + 1 else 0

-- A free lock has the count 0.
abbrev Clean : Option ℕ → ℕ → Type 0
Clean none n = n ≡ 0
Clean (some t) n = Unit

abbrev lock_of : Option ℕ → ℕ → Spl
lock_of o n = record { owndby = o; count = n }

call-Clean :
    (e : Event) (o : Option ℕ) (n : ℕ)
    → Clean o n
    → Clean (call e (lock_of o n)).1.owndby (call e (lock_of o n)).1.count
unfolding call rt_spl_lock_if rt_spl_unlock owns
call-Clean (lock_if u) none n c = tt
call-Clean (lock_if u) (some v) n c = elim (Bool-cases (v == u)) [
  | inl e ↦ rw e tt
  | inr e ↦ rw e tt
]
call-Clean (unlock u) none n c = c
call-Clean (unlock u) (some v) zero c = elim (Bool-cases (v == u)) [
  | inl e ↦ rw e refl
  | inr e ↦ rw e tt
]
call-Clean (unlock u) (some v) (suc n) c = elim (Bool-cases (v == u)) [
  | inl e ↦ rw e tt
  | inr e ↦ rw e tt
]

-- One call of one task.
call-depth :
    (t : ℕ) (e : Event) (o : Option ℕ) (n : ℕ)
    → Clean o n
    → depth (call e (lock_of o n)).1 t + returned t e (lock_of o n)
      ≡ depth (lock_of o n) t + gained t e (lock_of o n)
unfolding call returned gained depth rt_spl_lock_if rt_spl_unlock owns
call-depth t (lock_if u) none n c = ground (arith, c)
call-depth t (lock_if u) (some v) n c = ground arith
call-depth t (unlock u) none n c = ground arith
call-depth t (unlock u) (some v) zero c = ground arith
call-depth t (unlock u) (some v) (suc n) c = ground arith

-- After any calls of rt_spl_lock_if and rt_spl_unlock by any tasks, in any order, on a lock that has
-- the count 0 where it is free: a task holds the lock as many times as before and as it has got it,
-- less the times that it has given it back, whatever the other tasks tried.
pub run-depth :
    (t : ℕ) (es : List Event) (s : Spl)
    → Clean s.owndby s.count
    → depth (run es s) t + all_returned t es s ≡ depth s t + all_gained t es s
unfolding run all_returned all_gained
run-depth t [] s c = refl
run-depth t (e ∷ es) s c =
    let next = run-depth t es (call e s).1 (call-Clean e s.owndby s.count c) in
    omega (arith, next, call-depth t e s.owndby s.count c)
