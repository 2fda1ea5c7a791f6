-- ===== src/Registry/Probe.antt =====
-- Where the loop over the hash table stops.
use rtai.Base.{
  ℕ, zero, suc, ◌<◌, ◌≡◌, refl, sym, ap, subst, ◌∙◌, arith, Bool, true, false, Bool-cases, inl, inr,
  ◌==◌, if_true, if_false, ==_self, none, some,
}
use rtai.Registry.{
  Entry, Table, set_entry, Registry, probe, probe_from, hash_fun, other_name, other_adr, next_slot,
  hash_find_name, hash_find_adr, rt_get_adr, rt_get_name,
}

some-injective : {a b : ℕ} → some a ≡ some b → a ≡ b
some-injective h = cc

-- The steps of the loop.
probe-stop :
    (go_on : Entry → Bool) (n i fuel k : ℕ) (list : Table)
    → go_on (list k) ≡ false
    → probe go_on n i (suc fuel) k list ≡ some k
unfolding probe
probe-stop go_on n i fuel k list e = rw (e, probe) refl

probe-round :
    (go_on : Entry → Bool) (n i fuel k : ℕ) (list : Table)
    → go_on (list k) ≡ true
    → (next_slot n k == i) ≡ true
    → probe go_on n i (suc fuel) k list ≡ none
unfolding probe
probe-round go_on n i fuel k list e f = rw (e, f, probe) refl

probe-step :
    (go_on : Entry → Bool) (n i fuel k : ℕ) (list : Table)
    → go_on (list k) ≡ true
    → (next_slot n k == i) ≡ false
    → probe go_on n i (suc fuel) k list ≡ probe go_on n i fuel (next_slot n k) list
unfolding probe
probe-step go_on n i fuel k list e f = rw (e, f, probe) refl

-- How a loop that stops at s began.
pub data PathTo (go_on : Entry → Bool) (n i : ℕ) (list : Table) (s : ℕ) : ℕ → ℕ → Type 0 where
  here : {fuel : ℕ} → go_on (list s) ≡ false → PathTo go_on n i list s (suc fuel) s
  step :
      {fuel k : ℕ}
      → go_on (list k) ≡ true
      → (next_slot n k == i) ≡ false
      → PathTo go_on n i list s fuel (next_slot n k)
      → PathTo go_on n i list s (suc fuel) k

pub path_of_probe :
    (go_on : Entry → Bool) (n i fuel k : ℕ) (list : Table) (s : ℕ)
    → probe go_on n i fuel k list ≡ some s
    → PathTo go_on n i list s fuel k
unfolding probe
path_of_probe go_on n i zero k list s h = absurd (cc)
path_of_probe go_on n i (suc fuel) k list s h = elim (Bool-cases (go_on (list k))) [
  | inr stop ↦
      let e = probe-stop go_on n i fuel k list stop in
      let same : k ≡ s = some-injective (sym e ∙ h) in
      subst (PathTo go_on n i list s (suc fuel)) (sym same)
        (here (ap (λ j. go_on (list j)) (sym same) ∙ stop))
  | inl more ↦ elim (Bool-cases (next_slot n k == i)) [
    | inl round ↦ let e = probe-round go_on n i fuel k list more round in absurd (cc)
    | inr other ↦ step more other (
        path_of_probe go_on n i fuel (next_slot n k) list s
          (sym (probe-step go_on n i fuel k list more other) ∙ h))
  ]
]

next_slot_pos : (n k : ℕ) → 0 < next_slot n k
next_slot_pos n k = ground arith

module _ {go_on : Entry → Bool} {n i : ℕ} {list : Table} {s : ℕ} where
  pub probe_of_path :
      {fuel k : ℕ} → PathTo go_on n i list s fuel k → probe go_on n i fuel k list ≡ some s
  probe_of_path {fuel = zero} p = elim p [ ]
  probe_of_path {fuel = suc fuel} (here stop) = probe-stop go_on n i fuel s list stop
  probe_of_path {fuel = suc fuel} {k} (step more other p) =
      probe-step go_on n i fuel k list more other ∙ probe_of_path p

  pub path_stops : {fuel k : ℕ} → PathTo go_on n i list s fuel k → go_on (list s) ≡ false
  path_stops (here stop) = stop
  path_stops (step more other p) = path_stops p

  -- The slots are numbered from 1.
  pub path_pos : {fuel k : ℕ} → 0 < k → PathTo go_on n i list s fuel k → 0 < s
  path_pos h (here stop) = h
  path_pos {k} h (step more other p) = path_pos (next_slot_pos n k) p

  -- Another condition on another table, that holds where the first one does.
  pub path_transfer :
      {go_on' : Entry → Bool} {list' : Table} {fuel k : ℕ}
      → ((j : ℕ) → go_on (list j) ≡ true → go_on' (list' j) ≡ true)
      → go_on' (list' s) ≡ false
      → PathTo go_on n i list s fuel k
      → PathTo go_on' n i list' s fuel k
  path_transfer f e (here stop) = here e
  path_transfer {k} f e (step more other p) = step (f k more) other (path_transfer f e p)

pub field-set_entry {ℓ} :
    {A : Type ℓ} (f : Entry → A) (k : ℕ) (e : Entry) (list : Table) (j : ℕ)
    → f e ≡ f (list k)
    → f (set_entry k e list j) ≡ f (list j)
field-set_entry f k e list j h = elim (Bool-cases (k == j)) [
  | inl same ↦
      let p : k ≡ j = ground arith in ap f (if_true e (list j) same) ∙ h ∙ ap (λ i. f (list i)) p
  | inr other ↦ ap f (if_false e (list j) other)
]

pub set_entry_self : (k : ℕ) (e : Entry) (list : Table) → set_entry k e list k ≡ e
set_entry_self k e list = if_true e (list k) (==_self k)

-- What is found where the loop stops.
pub rt_get_adr-hit :
    (name k : ℕ) (r : Registry)
    → probe_from (other_name name) r.max_slots (hash_fun name r.max_slots) r.lxrt_list ≡ some k
    → ((r.lxrt_list k).name == name) ≡ true
    → rt_get_adr name r ≡ (r.lxrt_list (r.lxrt_list k).alink).adr
unfolding rt_get_adr hash_find_name
rt_get_adr-hit name k r stop hit = rw (stop, hit, rt_get_adr, hash_find_name) refl

pub rt_get_name-hit :
    (adr k : ℕ) (r : Registry)
    → probe_from (other_adr adr) r.max_slots (hash_fun adr r.max_slots) r.lxrt_list ≡ some k
    → ((r.lxrt_list k).adr == adr) ≡ true
    → rt_get_name adr r ≡ (r.lxrt_list (r.lxrt_list k).nlink).name
unfolding rt_get_name hash_find_adr
rt_get_name-hit adr k r stop hit = rw (stop, hit, rt_get_name, hash_find_adr) refl
