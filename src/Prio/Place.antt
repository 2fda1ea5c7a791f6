-- ===== src/Prio/Place.antt =====
-- The place of a ready task in the ready list when its priority rises (pass_prio of
-- include/rtai_schedcore.h).
use rtai.Base.{
  ℕ, sym, ◌∙◌, Bool, if_true, if_false, ◌≤◌, ◌≡◌, refl, List, [], ◌∷◌, arith, All, All-map,
  Bool-cases, inl, inr, ltb, ◌==◌, ==_iff, subst, ◌||◌, true, false,
}
use rtai.Kernel.{unlink}
use rtai.Sched.Order.{Sorted}
use rtai.Sched.Count.{occurrences}
use rtai.Prio.{misplaced}

or-left : (a b : Bool) → (a || b) ≡ false → a ≡ false
or-left true b e = e
or-left false b e = refl

-- The keys before and after: that of u does not grow, and the others are the same.
module _ (key key' : ℕ → ℕ) (u : ℕ) (same : (j : ℕ) → (u == j) ≡ false → key' j ≡ key j)
    (lower : key' u ≤ key u) where
  All-none :
      (a : ℕ) (ys : List ℕ)
      → All (λ y. a ≤ key y) ys
      → occurrences u ys ≡ 0
      → All (λ y. a ≤ key' y) ys
  All-none a [] h o = tt
  All-none a (y ∷ ys) h o =
      let e = same y (ground (arith, o)) in
      (omega (arith, h.0, e), All-none a ys h.1 (omega (arith, o)))

  All-unlink :
      (a : ℕ) (ys : List ℕ)
      → All (λ y. a ≤ key y) ys
      → occurrences u ys ≡ 1
      → All (λ y. a ≤ key' y) (unlink u ys)
  unfolding unlink
  All-unlink a [] h o = tt
  All-unlink a (y ∷ ys) h o = elim (Bool-cases (y == u)) [
    | inl d ↦ rw d (All-none a ys h.1 (ground (arith, o, d)))
    | inr d ↦
        let e = same y (ground (arith, d)) in
        rw d (omega (arith, h.0, e), All-unlink a ys h.1 (ground (arith, o, d)))
  ]

  pub Sorted-none : (ys : List ℕ) → Sorted key ys → occurrences u ys ≡ 0 → Sorted key' ys
  Sorted-none [] s o = tt
  Sorted-none (y ∷ ys) s o =
      let e = same y (ground (arith, o)) in
      let none_left : occurrences u ys ≡ 0 = omega (arith, o) in
      (
        All-map (λ z h. omega (arith, e, h)) ys (All-none (key y) ys s.0 none_left),
        Sorted-none ys s.1 none_left,
      )

  pub Sorted-unlink :
      (ys : List ℕ) → Sorted key ys → occurrences u ys ≡ 1 → Sorted key' (unlink u ys)
  unfolding unlink
  Sorted-unlink [] s o = tt
  Sorted-unlink (y ∷ ys) s o = elim (Bool-cases (y == u)) [
    | inl d ↦ rw d (Sorted-none ys s.1 (ground (arith, o, d)))
    | inr d ↦
        let e = same y (ground (arith, d)) in
        let once : occurrences u ys ≡ 1 = ground (arith, o, d) in
        rw d (
          All-map (λ z h. omega (arith, e, h)) (unlink u ys) (All-unlink (key y) ys s.0 once),
          Sorted-unlink ys s.1 once,
        )
  ]

  -- A task that is in its place has no earlier one of a lower priority.
  reach :
      (x : ℕ) (ys : List ℕ)
      → All (λ y. x ≤ key y) ys
      → Sorted key ys
      → occurrences u ys ≡ 1
      → (before : ℕ) → x ≤ before
      → misplaced key' u before ys ≡ false
      → x ≤ key' u
  unfolding misplaced
  reach x [] h s o before b m = absurd (omega (arith, o))
  reach x (y ∷ ys) h s o before b m = elim (Bool-cases (y == u)) [
    | inl d ↦
        let m' = or-left (ltb (key' u) before) _ (sym (if_true _ _ d) ∙ m) in
        let le : before ≤ key' u = ground (arith, m') in omega (arith, b, le)
    | inr d ↦
        let e = same y (ground (arith, d)) in
        reach x ys h.1 s.1 (ground (arith, o, d)) (key' y) (omega (arith, e, h.0))
          (sym (if_false _ _ d) ∙ m)
  ]

  All-placed :
      (a : ℕ) (ys : List ℕ) → a ≤ key' u → All (λ y. a ≤ key y) ys → All (λ y. a ≤ key' y) ys
  All-placed a ys b h = All-map (λ y g. at y g) ys h
    where
      at : (y : ℕ) → a ≤ key y → a ≤ key' y
      at y g = elim (Bool-cases (u == y)) [
        | inl d ↦ subst (λ z. a ≤ key' z) ((==_iff u y).0 d) b
        | inr d ↦ let e = same y d in omega (arith, e, g)
      ]

  -- In its place the task leaves the list sorted.
  pub Sorted-placed :
      (ys : List ℕ)
      → Sorted key ys
      → occurrences u ys ≡ 1
      → (before : ℕ) → misplaced key' u before ys ≡ false
      → Sorted key' ys
  unfolding misplaced
  Sorted-placed [] s o before m = tt
  Sorted-placed (y ∷ ys) s o before m = elim (Bool-cases (y == u)) [
    | inl d ↦
        let none_left : occurrences u ys ≡ 0 = ground (arith, o, d) in
        let y≡u : y ≡ u = (==_iff y u).0 d in
        let own : key' y ≤ key y = subst (λ z. key' z ≤ key z) (sym y≡u) lower in
        (
          All-map (λ z h. omega (arith, own, h)) ys (All-none (key y) ys s.0 none_left),
          Sorted-none ys s.1 none_left,
        )
    | inr d ↦
        let e = same y (ground (arith, d)) in
        let once : occurrences u ys ≡ 1 = ground (arith, o, d) in
        let m' = sym (if_false _ _ d) ∙ m in
        let le = reach (key y) ys s.0 s.1 once (key' y) (omega (arith, e)) m' in
        (
          All-map (λ z h. omega (arith, e, h)) ys (All-placed (key y) ys le s.0),
          Sorted-placed ys s.1 once (key' y) m',
        )
  ]
