-- ===== src/Schedule/Rms/Order.antt =====
-- The shorter the period, the higher the priority.
use rtai.Base.{
  ℕ, suc, ◌+◌, ◌≤◌, ◌<◌, ◌≡◌, refl, ap, ap₂, sym, subst, ◌∙◌, List, [], ◌∷◌, arith, length, Bool,
  true, false, Bool-cases, inl, inr, not, ◌&&◌, ◌==◌, none, if◌then◌else◌, All, ==_iff,
}
use rtai.Kernel.{Kernel, set_task, update}
use rtai.Schedule.Rms.{rtai_time_limit, is_periodic, assign, rt_spv_rms}
use rtai.Schedule.Rms.Search.{elem, open_to, nothing, member, shortest-Found, All-elem}
use rtai.Schedule.Rms.Settle.{settle-marked}

-- how many members a test leaves out
unmarked : (ℕ → Bool) → List ℕ → ℕ
unmarked marked [] = 0
unmarked marked (x ∷ xs) = (if marked x then 0 else 1) + unmarked marked xs

unmarked-none :
    (marked : ℕ → Bool) (a : ℕ) (xs : List ℕ)
    → unmarked marked xs ≤ 0
    → elem a xs ≡ true
    → marked a ≡ true
unfolding unmarked
unmarked-none marked a [] h e = cc
unmarked-none marked a (x ∷ xs) h e = elim (Bool-cases (x == a)) [
  | inl f ↦ let g : x ≡ a = (==_iff x a).0 f in subst (λ z. marked z ≡ true) g (ground (arith, h))
  | inr f ↦ unmarked-none marked a xs (ground (arith, h)) (ground (arith, e, f))
]

unmarked-update-le :
    (marked : ℕ → Bool) (t : ℕ) (xs : List ℕ)
    → unmarked (update marked t true) xs ≤ unmarked marked xs
unfolding unmarked
unmarked-update-le marked t [] = omega arith
unmarked-update-le marked t (x ∷ xs) = ground (arith, unmarked-update-le marked t xs)

unmarked-update :
    (marked : ℕ → Bool) (t : ℕ) (xs : List ℕ)
    → marked t ≡ false
    → elem t xs ≡ true
    → suc (unmarked (update marked t true) xs) ≤ unmarked marked xs
unfolding unmarked
unmarked-update marked t [] m e = cc
unmarked-update marked t (x ∷ xs) m e = elim (Bool-cases (x == t)) [
  | inl f ↦
      let g : x ≡ t = (==_iff x t).0 f in
      let n : marked x ≡ false = ap marked g ∙ m in
      ground (arith, n, f, unmarked-update-le marked t xs)
  | inr f ↦ ground (arith, f, unmarked-update marked t xs m (ground (arith, e, f)))
]

-- Where the rounds of the outer loop stand.
record Inv (rounds all : List ℕ) (prio : ℕ) (marked : ℕ → Bool) (k : Kernel) : Type 0 where
  below : (a : ℕ) → marked a ≡ true → (k.tasks a).base_priority < prio
  before :
      (a b : ℕ)
      → marked a ≡ true
      → elem b all ≡ true
      → open_to marked k.tasks b ≡ true
      → (k.tasks a).period ≤ (k.tasks b).period
  ordered :
      (a b : ℕ)
      → marked a ≡ true
      → marked b ≡ true
      → (k.tasks a).period < (k.tasks b).period
      → (k.tasks a).base_priority < (k.tasks b).base_priority
  left : unmarked marked all ≤ length rounds

-- What they come to, of the tasks that the kernel k has at first.
record Done (all : List ℕ) (k : Kernel) (r : (ℕ → Bool) × Kernel) : Type 0 where
  ordered :
      (a b : ℕ)
      → r.0 a ≡ true
      → r.0 b ≡ true
      → (k.tasks a).period < (k.tasks b).period
      → (r.1.tasks a).base_priority < (r.1.tasks b).base_priority
  covers :
      (a : ℕ)
      → elem a all ≡ true
      → is_periodic (k.tasks a) ≡ true
      → (k.tasks a).period < rtai_time_limit
      → r.0 a ≡ true

module _ (rounds all : List ℕ) (r prio : ℕ) (marked : ℕ → Bool) (k : Kernel)
    (i : Inv (r ∷ rounds) all prio marked k) (h : ℕ) (member : elem h all ≡ true)
    (o : open_to marked k.tasks h ≡ true)
    (least : All
      (λ t. open_to marked k.tasks t ≡ true → (k.tasks h).period ≤ (k.tasks t).period)
      all) where
  abbrev given : Kernel
  given = set_task h (record (k.tasks h) { base_priority = prio }) k

  period-given : (t : ℕ) → (given.tasks t).period ≡ (k.tasks t).period
  period-given t = elim (Bool-cases (h == t)) [
    | inl e ↦ rw e (ap (λ z. (k.tasks z).period) ((==_iff h t).0 e))
    | inr e ↦ rw e refl
  ]

  is_periodic-given : (t : ℕ) → is_periodic (given.tasks t) ≡ is_periodic (k.tasks t)
  is_periodic-given t = elim (Bool-cases (h == t)) [
    | inl e ↦ rw e (ap (λ z. is_periodic (k.tasks z)) ((==_iff h t).0 e))
    | inr e ↦ rw e refl
  ]

  base-given :
      (t : ℕ) → (given.tasks t).base_priority ≡ (if h == t then prio else (k.tasks t).base_priority)
  base-given t = elim (Bool-cases (h == t)) [ inl e ↦ rw e refl | inr e ↦ rw e refl ]

  still_open :
      (b : ℕ)
      → open_to (update marked h true) given.tasks b ≡ true
      → open_to marked k.tasks b ≡ true
  still_open b p = elim (Bool-cases (h == b)) [
    | inl e ↦ absurd (ground (arith, ap (λ c. not (if c then true else marked b)) e, p))
    | inr e ↦ sym (ap₂ (λ c d. not (if c then true else marked b) && d) e (is_periodic-given b)) ∙ p
  ]

  was_marked : (a : ℕ) → (h == a) ≡ false → update marked h true a ≡ true → marked a ≡ true
  was_marked a e m = ground (arith, e, m)

  step-before :
      (a b : ℕ)
      → update marked h true a ≡ true
      → elem b all ≡ true
      → open_to marked k.tasks b ≡ true
      → (k.tasks a).period ≤ (k.tasks b).period
  step-before a b m e p = elim (Bool-cases (h == a)) [
    | inl f ↦
        subst (λ z. (k.tasks z).period ≤ (k.tasks b).period) ((==_iff h a).0 f)
          (All-elem _ b all least e p)
    | inr f ↦ i.before a b (was_marked a f m) e p
  ]

  step-ordered :
      (a b : ℕ)
      → update marked h true a ≡ true
      → update marked h true b ≡ true
      → (k.tasks a).period < (k.tasks b).period
      → (given.tasks a).base_priority < (given.tasks b).base_priority
  step-ordered a b m n p = elim (Bool-cases (h == a)) [
    | inl f ↦
        let same : (k.tasks h).period ≡ (k.tasks a).period =
          ap (λ z. (k.tasks z).period) ((==_iff h a).0 f) in
        elim (Bool-cases (h == b)) [
          | inl g ↦
              let same' : (k.tasks h).period ≡ (k.tasks b).period =
                ap (λ z. (k.tasks z).period) ((==_iff h b).0 g) in
              absurd (omega (arith, same, same', p))
          | inr g ↦ absurd (omega (arith, same, p, i.before b h (was_marked b g n) member o))
        ]
    | inr f ↦ elim (Bool-cases (h == b)) [
      | inl g ↦ rw (f, g) (i.below a (was_marked a f m))
      | inr g ↦ rw (f, g) (i.ordered a b (was_marked a f m) (was_marked b g n) p)
    ]
  ]

  step-Inv : Inv rounds all (prio + 1) (update marked h true) given
  step-Inv = record {
    below = λ a m. elim (Bool-cases (h == a)) [
      | inl f ↦ rw f (omega arith)
      | inr f ↦ rw f (omega (arith, i.below a (was_marked a f m)))
    ];
    before = λ a b m e p.
        omega (arith, step-before a b m e (still_open b p), period-given a, period-given b);
    ordered = λ a b m n p. step-ordered a b m n (omega (arith, p, period-given a, period-given b));
    left = omega (arith, i.left, unmarked-update marked h all (ground (arith, o)) member);
  }

assign-Done :
    (rounds all : List ℕ) (prio : ℕ) (marked : ℕ → Bool) (k : Kernel)
    → Inv rounds all prio marked k
    → Done all k (assign rounds all prio marked k)
unfolding assign
assign-Done [] all prio marked k i = record {
  ordered = i.ordered;
  covers = λ a e p q. unmarked-none marked a all i.left e;
}
assign-Done (r ∷ rounds) all prio marked k i =
    elim (shortest-Found marked k.tasks all rtai_time_limit none) [
      | nothing e least ↦
          rw (e, assign)
            (record {
              ordered = i.ordered;
              covers = λ a m p q. elim (Bool-cases (marked a)) [
                | inl f ↦ f
                | inr f ↦ absurd (ground (arith, p, q, f, All-elem _ a all least m))
              ];
            })
      | member h e m o below least ↦
          let d =
            assign-Done rounds all (prio + 1) (update marked h true)
              (given rounds all r prio marked k i h m o least)
              (step-Inv rounds all r prio marked k i h m o least) in
          let same = period-given rounds all r prio marked k i h m o least in
          let same' = is_periodic-given rounds all r prio marked k i h m o least in
          rw (e, assign)
            (record {
              ordered = λ a b x y p. d.ordered a b x y (omega (arith, p, same a, same b));
              covers = λ a x p q. d.covers a x (same' a ∙ p) (omega (arith, q, same a));
            })
    ]

all_unmarked : (all : List ℕ) → unmarked (λ t. false) all ≤ length all
unfolding unmarked
all_unmarked [] = omega arith
all_unmarked (x ∷ xs) = omega (arith, all_unmarked xs)

start-Inv : (all : List ℕ) (k : Kernel) → Inv all all 0 (λ t. false) k
start-Inv all k = record {
  below = λ a m. cc;
  before = λ a b m e p. cc;
  ordered = λ a b m n p. cc;
  left = all_unmarked all;
}

-- Of two periodic tasks of a processor, with periods below the limit, that with the shorter period has
-- after rt_spv_RMS the higher priority, that is the smaller number.
pub rt_spv_rms-monotonic :
    (all : List ℕ) (k : Kernel) (a b : ℕ)
    → elem a all ≡ true
    → elem b all ≡ true
    → is_periodic (k.tasks a) ≡ true
    → is_periodic (k.tasks b) ≡ true
    → (k.tasks a).period < (k.tasks b).period
    → (k.tasks b).period < rtai_time_limit
    → ((rt_spv_rms all k).tasks a).priority < ((rt_spv_rms all k).tasks b).priority
unfolding rt_spv_rms
rt_spv_rms-monotonic all k a b ma mb pa pb shorter limit =
    let r = assign all all 0 (λ t. false) k in
    let d = assign-Done all all 0 (λ t. false) k (start-Inv all k) in
    let a' = d.covers a ma pa (omega (arith, shorter, limit)) in
    let b' = d.covers b mb pb limit in
    omega (
      arith,
      d.ordered a b a' b' shorter,
      settle-marked r.0 a all r.1 a' ma,
      settle-marked r.0 b all r.1 b' mb,
    )
