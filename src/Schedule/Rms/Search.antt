-- ===== src/Schedule/Rms/Search.antt =====
-- The task that the inner loop of rt_spv_RMS finds.
use rtai.Base.{
  ℕ, ◌≤◌, ◌<◌, ◌≡◌, refl, ap, sym, subst, List, [], ◌∷◌, arith, Bool, true, false, Bool-cases, inl,
  inr, not, ◌&&◌, ◌||◌, ◌==◌, ltb, Option, some, if◌then◌else◌, All, ==_iff,
}
use rtai.Kernel.{Task}
use rtai.Schedule.Rms.{is_periodic, shortest}

abbrev pub elem : ℕ → List ℕ → Bool
elem a [] = false
elem a (x ∷ xs) = x == a || elem a xs

-- an unmarked task with a period
abbrev pub open_to : (ℕ → Bool) → (ℕ → Task) → ℕ → Bool
open_to marked tasks t = not (marked t) && is_periodic (tasks t)

-- What the inner loop finds.
pub data Found (marked : ℕ → Bool) (tasks : ℕ → Task) (ts : List ℕ) (best : ℕ) (found : Option ℕ)
    (r : Option ℕ) : Type 0 where
  nothing :
      r ≡ found
      → All (λ t. open_to marked tasks t ≡ true → best ≤ (tasks t).period) ts
      → Found marked tasks ts best found r
  member :
      (h : ℕ)
      → r ≡ some h
      → elem h ts ≡ true
      → open_to marked tasks h ≡ true
      → (tasks h).period < best
      → All (λ t. open_to marked tasks t ≡ true → (tasks h).period ≤ (tasks t).period) ts
      → Found marked tasks ts best found r

pub shortest-Found :
    (marked : ℕ → Bool) (tasks : ℕ → Task) (ts : List ℕ) (best : ℕ) (found : Option ℕ)
    → Found marked tasks ts best found (shortest marked tasks ts best found)
unfolding shortest
shortest-Found marked tasks [] best found = nothing refl tt
shortest-Found marked tasks (t ∷ ts) best found =
    let x = tasks t in
    elim (Bool-cases (not (marked t) && is_periodic x && ltb x.period best)) [
      | inl e ↦
          subst (Found marked tasks (t ∷ ts) best found)
            (sym (
              ap
                (λ b.
                  shortest marked tasks ts (if b then x.period else best)
                    (if b then some t else found))
                e))
            (elim (shortest-Found marked tasks ts x.period (some t)) [
              | nothing r all ↦
                  member t r (ground arith) (ground (arith, e)) (ground (arith, e))
                    ((λ o. ground arith), all)
              | member h r m o below all ↦
                  member h r (ground (arith, m)) o (ground (arith, e, below))
                    ((λ p. omega arith), all)
            ])
      | inr e ↦
          subst (Found marked tasks (t ∷ ts) best found)
            (sym (
              ap
                (λ b.
                  shortest marked tasks ts (if b then x.period else best)
                    (if b then some t else found))
                e))
            (elim (shortest-Found marked tasks ts best found) [
              | nothing r all ↦ nothing r ((λ o. ground (arith, e, o)), all)
              | member h r m o below all ↦
                  member h r (ground (arith, m)) o below ((λ p. ground (arith, e, p, below)), all)
            ])
    ]

pub All-elem : (P : ℕ → Type 0) (a : ℕ) (xs : List ℕ) → All P xs → elem a xs ≡ true → P a
All-elem P a [] h e = cc
All-elem P a (x ∷ xs) h e = elim (Bool-cases (x == a)) [
  | inl f ↦ subst P ((==_iff x a).0 f) h.0
  | inr f ↦ All-elem P a xs h.1 (ground (arith, e, f))
]
