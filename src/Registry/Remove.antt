-- ===== src/Registry/Remove.antt =====
-- Removing an object leaves the others in their places.
use rtai.Base.{
  ℕ, ◌<◌, ◌≡◌, ◌≢◌, ◌⊎◌, refl, sym, ap, subst, ◌∙◌, arith, true, false, Bool-cases, inl, inr, ◌==◌,
  ==_self, if_true, if_false, not, ◌&&◌, if◌then◌else◌, some,
}
use rtai.Base.Int.{pos}
use rtai.Registry.{
  Table, probe_from, hash_fun, other_name, next_slot, clear_name, clear_adr, last_use, drop_name,
  hash_rem_name, Registry, rt_get_adr, rt_drg_on_name,
}
use rtai.Registry.Probe.{
  PathTo, here, step, path_of_probe, probe_of_path, path_transfer, path_stops, field-set_entry,
  rt_get_adr-hit,
}

-- The slot of each name has its address where the links lead back.
pub record IsLinked (list : Table) : Type 0 where
  pub back : (j : ℕ) → 1 < (list j).name → (list (list j).alink).nlink ≡ j

-- The slot at which a name is found.
pub record Found (name : ℕ) (r : Registry) (k : ℕ) : Type 0 where
  pub good : 1 < name
  pub stop :
      probe_from (other_name name) r.max_slots (hash_fun name r.max_slots) r.lxrt_list ≡ some k
  pub hit : (r.lxrt_list k).name ≡ name

module _ (n k : ℕ) (list : Table) where
  name-clear_name_ne : (j : ℕ) → (k == j) ≡ false → (clear_name n k list j).name ≡ (list j).name
  unfolding clear_name
  name-clear_name_ne j h = ap (λ e. e.name) (if_false _ (list j) h)

  name-clear_name_self :
      ((list (next_slot n k)).name == 0) ≡ false → (clear_name n k list k).name ≡ 1
  unfolding clear_name
  name-clear_name_self h =
      ap (λ e. e.name) (if_true _ (list k) (==_self k)) ∙ ap (λ b. if b then 0 else 1) h

  alink-clear_name : (j : ℕ) → (clear_name n k list j).alink ≡ (list j).alink
  unfolding clear_name
  alink-clear_name j = field-set_entry (λ e. e.alink) k _ list j refl

  adr-clear_name : (j : ℕ) → (clear_name n k list j).adr ≡ (list j).adr
  unfolding clear_name
  adr-clear_name j = field-set_entry (λ e. e.adr) k _ list j refl

  name-clear_adr : (j : ℕ) → (clear_adr n k list j).name ≡ (list j).name
  unfolding clear_adr
  name-clear_adr j = field-set_entry (λ e. e.name) k _ list j refl

  alink-clear_adr : (j : ℕ) → (clear_adr n k list j).alink ≡ (list j).alink
  unfolding clear_adr
  alink-clear_adr j = field-set_entry (λ e. e.alink) k _ list j refl

  adr-clear_adr_ne : (j : ℕ) → (k == j) ≡ false → (clear_adr n k list j).adr ≡ (list j).adr
  unfolding clear_adr
  adr-clear_adr_ne j h = ap (λ e. e.adr) (if_false _ (list j) h)

module _ {n i m s : ℕ} {list : Table} where
  -- On the way to a name no slot is one that has never been used.
  path_used :
      {fuel c : ℕ}
      → 1 < m
      → (list s).name ≡ m
      → PathTo (other_name m) n i list s fuel c
      → ((list c).name == 0) ≡ false
  path_used good hit (here stop) = ground arith
  path_used good hit (step more other p) = ground arith

  path_clear :
      (k : ℕ)
      → 1 < m
      → (list s).name ≡ m
      → (k == s) ≡ false
      → {fuel c : ℕ} → PathTo (other_name m) n i list s fuel c
      → PathTo (other_name m) n i (clear_name n k list) s fuel c
  path_clear k good hit ne (here stop) = here (
      subst (λ v. (not (v == 0) && not (v == m)) ≡ false) (sym (name-clear_name_ne n k list s ne))
        stop)
  path_clear k good hit ne (step {k = c} more other p) =
      step
        (elim (Bool-cases (k == c)) [
          | inl e ↦
              let same : k ≡ c = ground arith in
              let used =
                subst (λ j. ((list (next_slot n j)).name == 0) ≡ false) (sym same)
                  (path_used good hit p) in
              let mark =
                ap (λ j. (clear_name n k list j).name) (sym same)
                ∙ name-clear_name_self n k list used in
              subst (λ v. (not (v == 0) && not (v == m)) ≡ true) (sym mark) (ground arith)
          | inr e ↦
              subst (λ v. (not (v == 0) && not (v == m)) ≡ true)
                (sym (name-clear_name_ne n k list c e)) more
        ])
        other (path_clear k good hit ne p)

module _ (n k : ℕ) (list : Table) where
  -- The two cases of drop_name: with no address to give up, and with one.
  drop_name-cases :
      (drop_name n k list ≡ clear_name n k list)
      ⊎ (drop_name n k list ≡ clear_adr n (list k).alink (clear_name n k list))
  unfolding drop_name
  drop_name-cases =
      let l = clear_name n k list in
      let same = alink-clear_name n k list k in
      elim (Bool-cases ((l k).alink == 0)) [
        | inl e ↦ inl (rw e refl)
        | inr e ↦ inr (rw e (ap (λ j. clear_adr n j l) same))
      ]

  name-drop_name : (j : ℕ) → (drop_name n k list j).name ≡ (clear_name n k list j).name
  name-drop_name j = elim drop_name-cases [
    | inl e ↦ ap (λ l. (l j).name) e
    | inr e ↦ ap (λ l. (l j).name) e ∙ name-clear_adr n (list k).alink (clear_name n k list) j
  ]

  alink-drop_name : (j : ℕ) → (drop_name n k list j).alink ≡ (list j).alink
  alink-drop_name j = elim drop_name-cases [
    | inl e ↦ ap (λ l. (l j).alink) e ∙ alink-clear_name n k list j
    | inr e ↦
        ap (λ l. (l j).alink) e
        ∙ alink-clear_adr n (list k).alink (clear_name n k list) j
        ∙ alink-clear_name n k list j
  ]

  adr-drop_name_ne :
      (j : ℕ) → ((list k).alink == j) ≡ false → (drop_name n k list j).adr ≡ (list j).adr
  adr-drop_name_ne j h = elim drop_name-cases [
    | inl e ↦ ap (λ l. (l j).adr) e ∙ adr-clear_name n k list j
    | inr e ↦
        ap (λ l. (l j).adr) e
        ∙ adr-clear_adr_ne n (list k).alink (clear_name n k list) j h
        ∙ adr-clear_name n k list j
  ]

rt_drg_on_name-Found :
    (name k : ℕ) (r : Registry)
    → Found name r k
    → rt_drg_on_name name r ≡ (pos k, record r { lxrt_list = drop_name r.max_slots k r.lxrt_list })
unfolding rt_drg_on_name hash_rem_name last_use
rt_drg_on_name-Found name k r f =
    let hit : ((r.lxrt_list k).name == name) ≡ true = ap (λ v. v == name) f.hit ∙ ==_self name in
    rw (f.stop, hit, hash_rem_name) refl

-- Slots with different names, and links that lead back, have different addresses.
other_alink :
    (list : Table) (k s : ℕ)
    → IsLinked list
    → 1 < (list k).name
    → 1 < (list s).name
    → k ≢ s
    → ((list k).alink == (list s).alink) ≡ false
other_alink list k s linked p q ne = elim (Bool-cases ((list k).alink == (list s).alink)) [
  | inl e ↦
      let same : (list k).alink ≡ (list s).alink = ground arith in
      absurd (ne (sym (linked.back k p) ∙ ap (λ j. (list j).nlink) same ∙ linked.back s q))
  | inr e ↦ e
]

-- rt_drg_on_name of a name that is found, in a table whose links lead back: it returns the slot of the
-- name, and every other name that is found gives the same address as before.
pub rt_get_adr-rt_drg_on_name :
    (name m k s : ℕ) (r : Registry)
    → IsLinked r.lxrt_list
    → Found name r k
    → Found m r s
    → name ≢ m
    → let x = rt_drg_on_name name r in (x.0 ≡ pos k) × (rt_get_adr m x.1 ≡ rt_get_adr m r)
rt_get_adr-rt_drg_on_name name m k s r linked f g ne =
    let n = r.max_slots in
    let list = r.lxrt_list in
    let l = drop_name n k list in
    let r' : Registry = record r { lxrt_list = l } in
    let ks : k ≢ s = λ e. ne (sym f.hit ∙ ap (λ j. (list j).name) e ∙ g.hit) in
    let ks' : (k == s) ≡ false = ground arith in
    let apart =
      other_alink list k s linked (omega (arith, f.good, f.hit)) (omega (arith, g.good, g.hit))
        ks in
    let p = path_clear k g.good g.hit ks' (path_of_probe (other_name m) n _ n _ list s g.stop) in
    let same = λ (j : ℕ). sym (name-drop_name n k list j) in
    let q =
      path_transfer (λ j t. subst (λ v. (not (v == 0) && not (v == m)) ≡ true) (same j) t)
        (subst (λ v. (not (v == 0) && not (v == m)) ≡ false) (same s) (path_stops p)) p in
    let hit : ((l s).name == m) ≡ true =
      ap (λ v. v == m) (name-drop_name n k list s ∙ name-clear_name_ne n k list s ks' ∙ g.hit)
      ∙ ==_self m in
    let hit' : ((list s).name == m) ≡ true = ap (λ v. v == m) g.hit ∙ ==_self m in
    let found =
      rt_get_adr-hit m s r' (probe_of_path q) hit
      ∙ ap (λ j. (l j).adr) (alink-drop_name n k list s)
      ∙ adr-drop_name_ne n k list (list s).alink apart
      ∙ sym (rt_get_adr-hit m s r g.stop hit') in
    subst (λ x. (x.0 ≡ pos k) × (rt_get_adr m x.1 ≡ rt_get_adr m r))
      (sym (rt_drg_on_name-Found name k r f)) (refl, found)
