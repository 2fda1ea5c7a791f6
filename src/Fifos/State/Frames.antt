-- ===== src/Fifos/State/Frames.antt =====
-- What storing a semaphore leaves as it is.
use rtai.Base.{ℕ, ◌≡◌, refl, ap, ◌∙◌, arith, Bool-cases, inl, inr, ◌==◌, ==_self}
use rtai.Fifos.State.{Fifo, set_fifo, FSem, Fifos, SemOf, snd_of, rcv_of, sem_of, get_sem, set_sem}

module _ {ℓ} {A : Type ℓ} (f : Fifo → A) where
  -- A field of a fifo that a new value leaves as it is.
  pub field-set_fifo :
      (x : Fifo) (s : Fifos) (j i : ℕ)
      → f x ≡ f (s.fifo j)
      → f ((set_fifo j x s).fifo i) ≡ f (s.fifo i)
  field-set_fifo x s j i h = elim (Bool-cases (j == i)) [
    | inl e ↦ let same : j ≡ i = ground arith in rw e (h ∙ ap (λ k. f (s.fifo k)) same)
    | inr e ↦ rw e refl
  ]

  pub field-set_sem :
      ((x : Fifo) (y : FSem) → f (record x { sndsem = y }) ≡ f x)
      → ((x : Fifo) (y : FSem) → f (record x { rcvsem = y }) ≡ f x)
      → ((x : Fifo) (y : FSem) → f (record x { sem = y }) ≡ f x)
      → (at : SemOf) (y : FSem) (s : Fifos) (i : ℕ) → f ((set_sem at y s).fifo i) ≡ f (s.fifo i)
  unfolding set_sem
  field-set_sem p q r (snd_of j) y s i = field-set_fifo _ s j i (p (s.fifo j) y)
  field-set_sem p q r (rcv_of j) y s i = field-set_fifo _ s j i (q (s.fifo j) y)
  field-set_sem p q r (sem_of j) y s i = field-set_fifo _ s j i (r (s.fifo j) y)

pub ring-set_sem :
    (at : SemOf) (x : FSem) (s : Fifos) (i : ℕ) → ((set_sem at x s).fifo i).ring ≡ (s.fifo i).ring
ring-set_sem = field-set_sem (λ x. x.ring) (λ x y. refl) (λ x y. refl) (λ x y. refl)

pub get_sem-set_sem : (at : SemOf) (x : FSem) (s : Fifos) → get_sem at (set_sem at x s) ≡ x
unfolding get_sem set_sem
get_sem-set_sem (snd_of j) x s = rw (get_sem, ==_self j) refl
get_sem-set_sem (rcv_of j) x s = rw (get_sem, ==_self j) refl
get_sem-set_sem (sem_of j) x s = rw (get_sem, ==_self j) refl

-- The two semaphores of a fifo's buffer are different ones.
pub snd-set_rcv :
    (i : ℕ) (x : FSem) (s : Fifos)
    → get_sem (snd_of i) (set_sem (rcv_of i) x s) ≡ get_sem (snd_of i) s
unfolding get_sem set_sem
snd-set_rcv i x s = rw (get_sem, ==_self i) refl
