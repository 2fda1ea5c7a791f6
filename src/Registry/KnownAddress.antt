-- ===== src/Registry/KnownAddress.antt =====
-- The registration of an address that is registered already, under another name.
use rtai.Base.{
  ℕ, ◌≤◌, ◌<◌, ◌≡◌, refl, sym, ap, subst, ◌∙◌, arith, Bool, true, false, ◌==◌, ==_self, ltb, not,
  ◌&&◌, some,
}
use rtai.Base.Int.{pos, leb_ℤ, sub_ℕ}
use rtai.Registry.{
  Entry, Table, probe_from, hash_fun, other_name_used, other_adr_used, other_name, enter_name,
  count_up, hash_ins_adr, hash_ins_name, Registry, registr, rt_register, rt_get_adr,
}
use rtai.Registry.Probe.{
  path_of_probe, probe_of_path, path_transfer, path_pos, path_stops, rt_get_adr-hit,
  field-set_entry, set_entry_self,
}
use rtai.Registry.Register.{
  name-enter_name_self, name-enter_name_ne, adr-enter_name, used_is_other, self_stops, other_slot,
  hash_fun_pos,
}

-- There is a slot for a new name, and the address is registered in another one.
pub record Known (name adr : ℕ) (r : Registry) (kn ka : ℕ) : Type 0 where
  pub good_name : 1 < name
  pub name_slot :
      probe_from (other_name_used name) r.max_slots (hash_fun name r.max_slots) r.lxrt_list
      ≡ some kn
  pub name_free : (r.lxrt_list kn).name ≤ 1
  pub adr_slot :
      probe_from (other_adr_used adr) r.max_slots (hash_fun adr r.max_slots) r.lxrt_list ≡ some ka
  pub adr_there : (r.lxrt_list ka).adr ≡ adr
  pub null_slot : (r.lxrt_list 0).adr ≡ 0

used_self : (w : ℕ) → (ltb 1 w && not (w == w)) ≡ false
used_self w = ground arith

module _ (name adr type tsk kn ka : ℕ) (r : Registry) (known : Known name adr r kn ka) where
  abbrev n : ℕ
  n = r.max_slots

  abbrev named : Table
  named = enter_name kn name type tsk r.lxrt_list

  abbrev counted : Table
  counted = count_up kn named

  ka_pos : 0 < ka
  ka_pos = path_pos (hash_fun_pos adr n) (path_of_probe _ n _ n _ r.lxrt_list ka known.adr_slot)

  adr_slot-named : probe_from (other_adr_used adr) n (hash_fun adr n) named ≡ some ka
  adr_slot-named =
      let p = path_of_probe (other_adr_used adr) n _ n _ r.lxrt_list ka known.adr_slot in
      let same = λ (j : ℕ). sym (adr-enter_name kn name type tsk r.lxrt_list j) in
      probe_of_path (
        path_transfer (λ j g. subst (λ v. (ltb 1 v && not (v == adr)) ≡ true) (same j) g)
          (subst (λ v. (ltb 1 v && not (v == adr)) ≡ false) (same ka) (path_stops p)) p)

  -- The first registration stores the name, and no link to the address.
  registr-first : registr name adr type tsk r ≡ (0, record r { lxrt_list = named })
  unfolding registr hash_ins_name hash_ins_adr
  registr-first =
      let other : ((r.lxrt_list kn).name == name) ≡ false =
        ground (arith, known.name_free, known.good_name) in
      let there : ((named ka).adr == adr) ≡ true =
        ap (λ v. v == adr) (adr-enter_name kn name type tsk r.lxrt_list ka ∙ known.adr_there)
        ∙ ==_self adr in
      let failed : leb_ℤ (sub_ℕ 0 ka) (pos 0) ≡ true = ground (arith, ka_pos) in
      rw (known.name_slot, other, adr_slot-named, there, failed, hash_ins_name, hash_ins_adr) refl

  named_self : (named kn).name ≡ name
  named_self = name-enter_name_self kn name type tsk r.lxrt_list

  alink-named : (named kn).alink ≡ 0
  unfolding enter_name
  alink-named = ap (λ e. e.alink) (set_entry_self kn _ r.lxrt_list)

  -- A loop over names on a table with these names stops at the new name.
  module _ (go_on : Entry → Bool) (list : Table) (same : (j : ℕ) → (list j).name ≡ (named j).name)
      (stops : (e : Entry) → e.name ≡ name → go_on e ≡ false)
      (goes : (e : Entry) → other_name_used name e ≡ true → go_on e ≡ true) where
    stops_at_name : probe_from go_on n (hash_fun name n) list ≡ some kn
    stops_at_name =
        let p = path_of_probe (other_name_used name) n _ n _ r.lxrt_list kn known.name_slot in
        probe_of_path (
          path_transfer
            (λ j g. goes (list j) (
              subst (λ v. (ltb 1 v && not (v == name)) ≡ true)
                (sym (
                  same j
                  ∙ name-enter_name_ne kn name type tsk r.lxrt_list j
                      (other_slot (other_name_used name) r.lxrt_list kn j (path_stops p) g)))
                g))
            (stops (list kn) (same kn ∙ named_self)) p)

  -- The name gives the address of slot 0, which is NULL.
  rt_get_adr-unlinked :
      (list : Table)
      → ((j : ℕ) → (list j).name ≡ (named j).name)
      → (list kn).alink ≡ 0
      → (list 0).adr ≡ 0
      → rt_get_adr name (record r { lxrt_list = list }) ≡ 0
  rt_get_adr-unlinked list same unlinked null =
      let stop =
        stops_at_name (other_name name) list same
          (λ e h. subst (λ v. (not (v == 0) && not (v == name)) ≡ false) (sym h) (self_stops name))
          (λ e g. used_is_other e.name name g) in
      let hit : ((list kn).name == name) ≡ true =
        ap (λ v. v == name) (same kn ∙ named_self) ∙ ==_self name in
      rt_get_adr-hit name kn (record r { lxrt_list = list }) stop hit
      ∙ ap (λ j. (list j).adr) unlinked
      ∙ null

  null-named : (named 0).adr ≡ 0
  null-named = adr-enter_name kn name type tsk r.lxrt_list 0 ∙ known.null_slot

  -- The second registration finds the name.
  registr-second :
      registr name adr type tsk (record r { lxrt_list = named })
      ≡ (kn, record r { lxrt_list = counted })
  unfolding registr hash_ins_name
  registr-second =
      let stop =
        stops_at_name (other_name_used name) named (λ j. refl)
          (λ e h. subst (λ v. (ltb 1 v && not (v == name)) ≡ false) (sym h) (used_self name))
          (λ e g. g) in
      let hit : ((named kn).name == name) ≡ true = ap (λ v. v == name) named_self ∙ ==_self name in
      rw (stop, hit, hash_ins_name)
        (ap (λ c. (c, record r { lxrt_list = counted })) {y = kn} (ground arith))

  counted-names : (j : ℕ) → (counted j).name ≡ (named j).name
  unfolding count_up
  counted-names j = field-set_entry (λ e. e.name) kn _ named j refl

  counted-unlinked : rt_get_adr name (record r { lxrt_list = counted }) ≡ 0
  unfolding count_up
  counted-unlinked =
      rt_get_adr-unlinked counted counted-names
        (field-set_entry (λ e. e.alink) kn _ named kn refl ∙ alink-named)
        (field-set_entry (λ e. e.adr) kn _ named 0 refl ∙ null-named)

  rt_register-fresh :
      (s : Registry)
      → rt_get_adr name s ≡ 0
      → rt_register name adr type tsk s ≡ registr name adr type tsk s
  unfolding rt_register
  rt_register-fresh s fresh =
      let absent : not (rt_get_adr name s == 0) ≡ false = ap (λ v. not (v == 0)) fresh in
      rw (absent, rt_register) refl

  -- rt_register of an address that is registered already, under a name that is not found and for which
  -- there is a slot: it fails, and yet a second call succeeds, with the slot of the name, although the
  -- name gives NULL after both.
  pub rt_register-known_address :
      rt_get_adr name r ≡ 0
      → let x = rt_register name adr type tsk r in
        let y = rt_register name adr type tsk x.1 in
        (x.0 ≡ 0) × (rt_get_adr name x.1 ≡ 0) × (y.0 ≡ kn) × (rt_get_adr name y.1 ≡ 0)
  rt_register-known_address fresh =
      let first = rt_register-fresh r fresh ∙ registr-first in
      let none_yet = rt_get_adr-unlinked named (λ j. refl) alink-named null-named in
      let second = rt_register-fresh (record r { lxrt_list = named }) none_yet ∙ registr-second in
      (
        ap (λ x. x.0) first,
        ap (λ x. rt_get_adr name x.1) first ∙ none_yet,
        ap (λ x. (rt_register name adr type tsk x.1).0) first ∙ ap (λ x. x.0) second,
        ap (λ x. rt_get_adr name (rt_register name adr type tsk x.1).1) first
            ∙ ap (λ x. rt_get_adr name x.1) second
            ∙ counted-unlinked,
      )
