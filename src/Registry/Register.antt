-- ===== src/Registry/Register.antt =====
-- An object that has been registered is found by its name and by its address.
use rtai.Base.{
  ℕ, ◌≤◌, ◌<◌, ◌≡◌, refl, sym, ap, subst, ◌∙◌, arith, Bool, true, false, Bool-cases, inl, inr, ◌==◌,
  ==_self, if_false, ltb, not, ◌&&◌, some,
}
use rtai.Base.Int.{pos, leb_ℤ}
use rtai.Registry.{
  Entry, Table, set_entry, probe_from, hash_fun, other_name_used, other_adr_used, other_name,
  other_adr, link_adr, enter_name, hash_ins_adr, hash_ins_name, Registry, registr, rt_register,
  rt_get_adr, rt_get_name,
}
use rtai.Registry.Probe.{
  path_of_probe, probe_of_path, path_transfer, path_pos, path_stops, rt_get_adr-hit,
  rt_get_name-hit, field-set_entry, set_entry_self,
}

-- What the two inserts write.
module _ (k adr nlink : ℕ) (list : Table) where
  abbrev first : Entry
  first = record (list k) { adr = adr; nlink = nlink }

  abbrev once : Table
  once = set_entry k first list

  name-link_adr : (j : ℕ) → (link_adr k adr nlink list j).name ≡ (list j).name
  unfolding link_adr
  name-link_adr j =
      field-set_entry (λ e. e.name) nlink (record (once nlink) { alink = k }) once j refl
      ∙ field-set_entry (λ e. e.name) k first list j refl

  alink-link_adr : (link_adr k adr nlink list nlink).alink ≡ k
  unfolding link_adr
  alink-link_adr = ap (λ e. e.alink) (set_entry_self nlink _ once)

  adr-link_adr_self : (link_adr k adr nlink list k).adr ≡ adr
  unfolding link_adr
  adr-link_adr_self =
      field-set_entry (λ e. e.adr) nlink (record (once nlink) { alink = k }) once k refl
      ∙ ap (λ e. e.adr) (set_entry_self k first list)

  nlink-link_adr : (link_adr k adr nlink list k).nlink ≡ nlink
  unfolding link_adr
  nlink-link_adr =
      field-set_entry (λ e. e.nlink) nlink (record (once nlink) { alink = k }) once k refl
      ∙ ap (λ e. e.nlink) (set_entry_self k first list)

  adr-link_adr_ne : (j : ℕ) → (k == j) ≡ false → (link_adr k adr nlink list j).adr ≡ (list j).adr
  unfolding link_adr
  adr-link_adr_ne j h =
      field-set_entry (λ e. e.adr) nlink (record (once nlink) { alink = k }) once j refl
      ∙ ap (λ e. e.adr) (if_false first (list j) h)

module _ (k name type tsk : ℕ) (list : Table) where
  pub name-enter_name_self : (enter_name k name type tsk list k).name ≡ name
  unfolding enter_name
  name-enter_name_self = ap (λ e. e.name) (set_entry_self k _ list)

  pub name-enter_name_ne :
      (j : ℕ) → (k == j) ≡ false → (enter_name k name type tsk list j).name ≡ (list j).name
  unfolding enter_name
  name-enter_name_ne j h = ap (λ e. e.name) (if_false _ (list j) h)

  pub adr-enter_name : (j : ℕ) → (enter_name k name type tsk list j).adr ≡ (list j).adr
  unfolding enter_name
  adr-enter_name j = field-set_entry (λ e. e.adr) k _ list j refl

-- There is a slot for a new name, and one for a new address.
pub record Room (name adr : ℕ) (r : Registry) (kn ka : ℕ) : Type 0 where
  pub good_name : 1 < name
  pub good_adr : 1 < adr
  pub name_slot :
      probe_from (other_name_used name) r.max_slots (hash_fun name r.max_slots) r.lxrt_list
      ≡ some kn
  pub name_free : (r.lxrt_list kn).name ≤ 1
  pub adr_slot :
      probe_from (other_adr_used adr) r.max_slots (hash_fun adr r.max_slots) r.lxrt_list ≡ some ka
  pub adr_free : (r.lxrt_list ka).adr ≤ 1

pub hash_fun_pos : (m n : ℕ) → 0 < hash_fun m n
unfolding hash_fun
hash_fun_pos m n = omega arith

-- A slot at which the condition holds is another one than the slot at which it does not.
pub other_slot :
    (go_on : Entry → Bool) (list : Table) (k j : ℕ)
    → go_on (list k) ≡ false
    → go_on (list j) ≡ true
    → (k == j) ≡ false
other_slot go_on list k j h g = elim (Bool-cases (k == j)) [
  | inl e ↦ let p : k ≡ j = ground arith in let q = ap (λ i. go_on (list i)) p in absurd (cc)
  | inr e ↦ e
]

pub used_is_other :
    (v w : ℕ) → (ltb 1 v && not (v == w)) ≡ true → (not (v == 0) && not (v == w)) ≡ true
used_is_other v w h = ground arith

pub self_stops : (w : ℕ) → (not (w == 0) && not (w == w)) ≡ false
self_stops w = ground arith

module _ (name adr type tsk kn ka : ℕ) (r : Registry) (room : Room name adr r kn ka) where
  abbrev n : ℕ
  n = r.max_slots

  abbrev named : Table
  named = enter_name kn name type tsk r.lxrt_list

  abbrev linked : Table
  linked = link_adr ka adr kn named

  ka_pos : 0 < ka
  ka_pos = path_pos (hash_fun_pos adr n) (path_of_probe _ n _ n _ r.lxrt_list ka room.adr_slot)

  adr_slot-named : probe_from (other_adr_used adr) n (hash_fun adr n) named ≡ some ka
  adr_slot-named =
      let p = path_of_probe (other_adr_used adr) n _ n _ r.lxrt_list ka room.adr_slot in
      let same = λ (j : ℕ). sym (adr-enter_name kn name type tsk r.lxrt_list j) in
      probe_of_path (
        path_transfer (λ j g. subst (λ v. (ltb 1 v && not (v == adr)) ≡ true) (same j) g)
          (subst (λ v. (ltb 1 v && not (v == adr)) ≡ false) (same ka) (path_stops p)) p)

  name-linked_self : (linked kn).name ≡ name
  name-linked_self =
      name-link_adr ka adr kn named kn ∙ name-enter_name_self kn name type tsk r.lxrt_list

  found_name : probe_from (other_name name) n (hash_fun name n) linked ≡ some kn
  found_name =
      let p = path_of_probe (other_name_used name) n _ n _ r.lxrt_list kn room.name_slot in
      let same = λ (j : ℕ) (g : other_name_used name (r.lxrt_list j) ≡ true). sym (
        name-link_adr ka adr kn named j
        ∙ name-enter_name_ne kn name type tsk r.lxrt_list j
            (other_slot (other_name_used name) r.lxrt_list kn j (path_stops p) g)) in
      probe_of_path (
        path_transfer
          (λ j g.
            subst (λ v. (not (v == 0) && not (v == name)) ≡ true) (same j g)
              (used_is_other _ name g))
          (subst (λ v. (not (v == 0) && not (v == name)) ≡ false) (sym name-linked_self)
            (self_stops name))
          p)

  found_adr : probe_from (other_adr adr) n (hash_fun adr n) linked ≡ some ka
  found_adr =
      let p = path_of_probe (other_adr_used adr) n _ n _ named ka adr_slot-named in
      let same = λ (j : ℕ) (g : other_adr_used adr (named j) ≡ true). sym (
        adr-link_adr_ne ka adr kn named j
          (other_slot (other_adr_used adr) named ka j (path_stops p) g)) in
      probe_of_path (
        path_transfer
          (λ j g.
            subst (λ v. (not (v == 0) && not (v == adr)) ≡ true) (same j g) (used_is_other _ adr g))
          (subst (λ v. (not (v == 0) && not (v == adr)) ≡ false)
            (sym (adr-link_adr_self ka adr kn named)) (self_stops adr))
          p)

  hash_ins_adr-named : hash_ins_adr adr named n kn ≡ (pos ka, linked)
  unfolding hash_ins_adr
  hash_ins_adr-named =
      let same = adr-enter_name kn name type tsk r.lxrt_list ka in
      let other : ((named ka).adr == adr) ≡ false = ground (arith, room.adr_free, room.good_adr) in
      rw (adr_slot-named, other, hash_ins_adr) refl

  registr-room : registr name adr type tsk r ≡ (kn, record r { lxrt_list = linked })
  unfolding registr hash_ins_name
  registr-room =
      let other : ((r.lxrt_list kn).name == name) ≡ false =
        ground (arith, room.name_free, room.good_name) in
      let entered : leb_ℤ (pos ka) (pos 0) ≡ false = ground (arith, ka_pos) in
      rw (room.name_slot, other, hash_ins_adr-named, entered, hash_ins_name)
        (ap (λ c. (c, record r { lxrt_list = linked })) {y = kn} (omega arith))

  rt_get_adr-linked : rt_get_adr name (record r { lxrt_list = linked }) ≡ adr
  rt_get_adr-linked =
      let hit : ((linked kn).name == name) ≡ true =
        ap (λ v. v == name) name-linked_self ∙ ==_self name in
      rt_get_adr-hit name kn (record r { lxrt_list = linked }) found_name hit
      ∙ (ap (λ j. (linked j).adr) (alink-link_adr ka adr kn named)
          ∙ adr-link_adr_self ka adr kn named)

  rt_get_name-linked : rt_get_name adr (record r { lxrt_list = linked }) ≡ name
  rt_get_name-linked =
      let hit : ((linked ka).adr == adr) ≡ true =
        ap (λ v. v == adr) (adr-link_adr_self ka adr kn named) ∙ ==_self adr in
      rt_get_name-hit adr ka (record r { lxrt_list = linked }) found_adr hit
      ∙ (ap (λ j. (linked j).name) (nlink-link_adr ka adr kn named) ∙ name-linked_self)

  rt_register-room :
      rt_get_adr name r ≡ 0
      → rt_register name adr type tsk r ≡ (kn, record r { lxrt_list = linked })
  unfolding rt_register
  rt_register-room fresh =
      let absent : not (rt_get_adr name r == 0) ≡ false = ap (λ v. not (v == 0)) fresh in
      rw (absent, rt_register) registr-room

  -- rt_register of a name that is not found, with room for the name and for the address: it returns the
  -- slot of the name, and then the name gives the address, and the address the name.
  pub rt_get_adr-rt_register :
      rt_get_adr name r ≡ 0
      → let x = rt_register name adr type tsk r in
        (x.0 ≡ kn) × (rt_get_adr name x.1 ≡ adr) × (rt_get_name adr x.1 ≡ name)
  rt_get_adr-rt_register fresh =
      subst (λ x. (x.0 ≡ kn) × (rt_get_adr name x.1 ≡ adr) × (rt_get_name adr x.1 ≡ name))
        (sym (rt_register-room fresh)) (refl, rt_get_adr-linked, rt_get_name-linked)
