-- ===== src/Sched/Count.antt =====
-- How often a number is in a list, and how many members of a list pass a test (the lists of
-- include/rtai_schedcore.h).
use rtai.Base.{
  ℕ, ◌+◌, ◌-◌, ◌≡◌, refl, ap, ◌∙◌, arith, List, [], ◌∷◌, Bool, true, false, Bool-cases, inl, inr,
  ◌==◌, leb,
}
use rtai.Kernel.{unlink, update}
use rtai.Sched.{insert_after_equals}

-- 1 if the test holds
abbrev pub tally : Bool → ℕ
tally true = 1
tally false = 0

abbrev pub occurrences : ℕ → List ℕ → ℕ
occurrences t [] = 0
occurrences t (x ∷ xs) = tally (x == t) + occurrences t xs

-- How many members pass the test.
abbrev pub number_of : (ℕ → Bool) → List ℕ → ℕ
number_of p [] = 0
number_of p (x ∷ xs) = tally (p x) + number_of p xs

pub occurrences-unlink : (t : ℕ) (xs : List ℕ) → occurrences t (unlink t xs) ≡ occurrences t xs - 1
unfolding unlink
occurrences-unlink t [] = refl
occurrences-unlink t (x ∷ xs) = elim (Bool-cases (x == t)) [
  | inl e ↦ rw e (omega arith)
  | inr e ↦ let h = occurrences-unlink t xs in rw (e, e) (omega (arith, h))
]

pub occurrences-unlink_other :
    (s t : ℕ) (xs : List ℕ) → (s == t) ≡ false → occurrences t (unlink s xs) ≡ occurrences t xs
unfolding unlink
occurrences-unlink_other s t [] d = refl
occurrences-unlink_other s t (x ∷ xs) d = elim (Bool-cases (x == s)) [
  | inl e ↦ let f : (x == t) ≡ false = ground (arith, d, e) in rw (e, f) (omega arith)
  | inr e ↦ rw e (ap (λ n. tally (x == t) + n) (occurrences-unlink_other s t xs d))
]

pub occurrences-insert :
    (key : ℕ → ℕ) (s t : ℕ) (xs : List ℕ)
    → occurrences t (insert_after_equals key s xs) ≡ tally (s == t) + occurrences t xs
unfolding insert_after_equals
occurrences-insert key s t [] = refl
occurrences-insert key s t (x ∷ xs) = elim (Bool-cases (leb (key x) (key s))) [
  | inl e ↦ let h = occurrences-insert key s t xs in rw e (omega (arith, h))
  | inr e ↦ rw e refl
]

-- Tests that agree at every other number than s: at the members, and at s.
module _ (p q : ℕ → Bool) (s : ℕ) (same : (j : ℕ) → (s == j) ≡ false → p j ≡ q j) where
  number_of-none : (xs : List ℕ) → occurrences s xs ≡ 0 → number_of p xs ≡ number_of q xs
  number_of-none [] h = refl
  number_of-none (x ∷ xs) h = elim (Bool-cases (x == s)) [
    | inl e ↦ absurd (ground (arith, h, e))
    | inr e ↦
        let a = same x (ground (arith, e)) in
        let b = number_of-none xs (ground (arith, h, e)) in rw (a, b) refl
  ]

  pub number_of-one :
      (xs : List ℕ)
      → occurrences s xs ≡ 1
      → number_of p xs + tally (q s) ≡ number_of q xs + tally (p s)
  number_of-one [] h = absurd (omega (arith, h))
  number_of-one (x ∷ xs) h = elim (Bool-cases (x == s)) [
    | inl e ↦
        let b = number_of-none xs (ground (arith, h, e)) in
        let x≡s : x ≡ s = ground (arith, e) in rw (b, x≡s) (omega arith)
    | inr e ↦
        let a = same x (ground (arith, e)) in
        let b = number_of-one xs (ground (arith, h, e)) in rw a (omega (arith, b))
  ]

-- What a change of one entry keeps there, it keeps everywhere.
pub update-keeps {ℓ κ} :
    {A : Type ℓ} {B : Type κ} (g : A → B) (f : ℕ → A) (t : ℕ) (x : A)
    → g x ≡ g (f t)
    → (j : ℕ) → g (update f t x j) ≡ g (f j)
update-keeps g f t x e j = elim (Bool-cases (t == j)) [
  | inl d ↦ let t≡j : t ≡ j = ground (arith, d) in rw d (e ∙ ap (λ i. g (f i)) t≡j)
  | inr d ↦ rw d refl
]
