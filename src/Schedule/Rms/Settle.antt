-- ===== src/Schedule/Rms/Settle.antt =====
-- The last loop of rt_spv_RMS gives every marked task its base priority.
use rtai.Base.{
  ℕ, ◌≡◌, refl, ap, sym, ◌∙◌, List, [], ◌∷◌, arith, Bool, true, Bool-cases, inl, inr, ◌==◌,
  if◌then◌else◌, ==_iff,
}
use rtai.Kernel.{Kernel, set_task}
use rtai.Schedule.Rms.{settle}
use rtai.Schedule.Rms.Search.{elem}

-- one task of settle
abbrev settled : (ℕ → Bool) → ℕ → Kernel → Kernel
settled marked t k =
    if marked t
    then set_task t (record (k.tasks t) { priority = (k.tasks t).base_priority }) k
    else k

base-settled :
    (marked : ℕ → Bool) (t a : ℕ) (k : Kernel)
    → ((settled marked t k).tasks a).base_priority ≡ (k.tasks a).base_priority
base-settled marked t a k = elim (Bool-cases (marked t)) [
  | inr e ↦ rw e refl
  | inl e ↦ elim (Bool-cases (t == a)) [
    | inl f ↦ rw (e, f) (ap (λ z. (k.tasks z).base_priority) ((==_iff t a).0 f))
    | inr f ↦ rw (e, f) refl
  ]
]

settled-kept :
    (marked : ℕ → Bool) (t a : ℕ) (k : Kernel)
    → (k.tasks a).priority ≡ (k.tasks a).base_priority
    → ((settled marked t k).tasks a).priority ≡ (k.tasks a).base_priority
settled-kept marked t a k h = elim (Bool-cases (marked t)) [
  | inr e ↦ rw e h
  | inl e ↦ elim (Bool-cases (t == a)) [
    | inl f ↦ rw (e, f) (ap (λ z. (k.tasks z).base_priority) ((==_iff t a).0 f))
    | inr f ↦ rw (e, f) h
  ]
]

settled_self :
    (marked : ℕ → Bool) (t a : ℕ) (k : Kernel)
    → marked a ≡ true
    → (t == a) ≡ true
    → ((settled marked t k).tasks a).priority ≡ (k.tasks a).base_priority
settled_self marked t a k m e =
    let same : t ≡ a = (==_iff t a).0 e in
    rw (ap marked same ∙ m, e) (ap (λ z. (k.tasks z).base_priority) same)

settle-kept :
    (marked : ℕ → Bool) (a : ℕ) (ts : List ℕ) (k : Kernel)
    → (k.tasks a).priority ≡ (k.tasks a).base_priority
    → ((settle marked ts k).tasks a).priority ≡ (k.tasks a).base_priority
unfolding settle
settle-kept marked a [] k e = e
settle-kept marked a (t ∷ ts) k e =
    let base = base-settled marked t a k in
    settle-kept marked a ts (settled marked t k) (settled-kept marked t a k e ∙ sym base) ∙ base

pub settle-marked :
    (marked : ℕ → Bool) (a : ℕ) (ts : List ℕ) (k : Kernel)
    → marked a ≡ true
    → elem a ts ≡ true
    → ((settle marked ts k).tasks a).priority ≡ (k.tasks a).base_priority
unfolding settle
settle-marked marked a [] k m e = cc
settle-marked marked a (t ∷ ts) k m e =
    let base = base-settled marked t a k in
    elim (Bool-cases (t == a)) [
      | inl f ↦
          settle-kept marked a ts (settled marked t k) (settled_self marked t a k m f ∙ sym base)
          ∙ base
      | inr f ↦ settle-marked marked a ts (settled marked t k) m (ground (arith, e, f)) ∙ base
    ]
