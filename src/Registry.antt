-- ===== src/Registry.antt =====
-- src/sched/api.c: the registry of named objects, which HASHED_REGISTRY keeps in a hash table with two
-- keys. A slot holds a name with a link to the slot of its address, and an address with a link to the
-- slot of its name; the two need not be the same slot. Slots 1 to `lstlen` are in use. A name or an
-- address of 0 marks a slot never used, one of 1 (NONAME, NOADR) a slot that has been given up. The
-- loops that begin again when another processor has changed the slot do not do so in a sequential run.

pub mod Probe
pub mod Register
pub mod Remove
pub mod KnownAddress
mod Tests
use rtai.Base.{
  ℕ, zero, suc, ◌+◌, ◌-◌, ◌%◌, ◌^◌, ◌==◌, ltb, Bool, true, false, not, ◌&&◌, if◌then◌else◌, Option,
  none, some,
}
use rtai.Base.Int.{ℤ, pos, negsuc, sub_ℕ, leb_ℤ, pos_part, neg_part}
use rtai.Kernel.{update}

-- struct rt_registry_entry (include/rtai_registry.h); `tsk` is a process.
pub record Entry : Type 0 where
  pub name : ℕ
  pub adr : ℕ
  pub nlink : ℕ
  pub alink : ℕ
  pub count : ℕ
  pub type : ℕ
  pub tsk : ℕ

abbrev pub Table : Type 0
Table = ℕ → Entry

abbrev pub set_entry : ℕ → Entry → Table → Table
set_entry k e list = update list k e

pub hash_fun : ℕ → ℕ → ℕ
hash_fun m n = m % n + 1

-- `if (++k > lstlen) k = 1;`
abbrev pub next_slot : ℕ → ℕ → ℕ
next_slot lstlen k = if ltb lstlen (k + 1) then 1 else k + 1

-- The inner loop of all these functions: from slot k on, to the first slot that does not satisfy the
-- condition; there is none when the loop comes to slot i again. It makes at most `lstlen` steps.
pub probe : (Entry → Bool) → ℕ → ℕ → ℕ → ℕ → Table → Option ℕ
probe go_on lstlen i zero k list = none
probe go_on lstlen i (suc fuel) k list =
    let rest = probe go_on lstlen i fuel (next_slot lstlen k) list in
    if go_on (list k) then (if next_slot lstlen k == i then none else rest) else some k

abbrev pub probe_from : (Entry → Bool) → ℕ → ℕ → Table → Option ℕ
probe_from go_on lstlen i list = probe go_on lstlen i lstlen i list

-- the conditions of the loops that insert, and of those that look up or remove
abbrev pub other_adr_used : ℕ → Entry → Bool
other_adr_used adr e = ltb 1 e.adr && not (e.adr == adr)

abbrev pub other_name_used : ℕ → Entry → Bool
other_name_used name e = ltb 1 e.name && not (e.name == name)

abbrev pub other_adr : ℕ → Entry → Bool
other_adr adr e = not (e.adr == 0) && not (e.adr == adr)

abbrev pub other_name : ℕ → Entry → Bool
other_name name e = not (e.name == 0) && not (e.name == name)

-- the writes of hash_ins_adr
pub link_adr : ℕ → ℕ → ℕ → Table → Table
link_adr k adr nlink list =
    let l : Table = set_entry k (record (list k) { adr = adr; nlink = nlink }) list in
    set_entry nlink (record (l nlink) { alink = k }) l

pub hash_ins_adr : ℕ → Table → ℕ → ℕ → ℤ × Table
hash_ins_adr adr list lstlen nlink =
    elim (probe_from (other_adr_used adr) lstlen (hash_fun adr lstlen) list) [
      | none ↦ (pos 0, list)
      | some k ↦
          if (list k).adr == adr then (sub_ℕ 0 k, list) else (pos k, link_adr k adr nlink list)
    ]

-- the writes of hash_ins_name, before the address
pub enter_name : ℕ → ℕ → ℕ → ℕ → Table → Table
enter_name k name type tsk list =
    set_entry k (record (list k) { name = name; type = type; tsk = tsk; count = 1; alink = 0 }) list

pub count_up : ℕ → Table → Table
count_up k list = set_entry k (record (list k) { count = ((list k).count + 1) % 2 ^ 16 }) list

pub hash_ins_name : ℕ → ℕ → ℕ → ℕ → Table → ℕ → Bool → ℤ × Table
hash_ins_name name adr type tsk list lstlen inc =
    elim (probe_from (other_name_used name) lstlen (hash_fun name lstlen) list) [
      | none ↦ (pos 0, list)
      | some k ↦
          let a = hash_ins_adr adr (enter_name k name type tsk list) lstlen k in
          if (list k).name == name
          then (sub_ℕ 0 k, if inc then count_up k list else list)
          else if leb_ℤ a.0 (pos 0)
          then (pos 0, a.1)
          else (pos k, a.1)
    ]

-- The address, the slot of the name (0 where none is stored), and the table.
pub hash_find_name : ℕ → Table → ℕ → Bool → (ℕ × ℕ) × Table
hash_find_name name list lstlen inc =
    elim (probe_from (other_name name) lstlen (hash_fun name lstlen) list) [
      | none ↦ ((0, 0), list)
      | some k ↦
          if (list k).name == name
          then (((list (list k).alink).adr, k), if inc then count_up k list else list)
          else ((0, 0), list)
    ]

pub hash_find_adr : ℕ → Table → ℕ → Bool → ℕ × Table
hash_find_adr adr list lstlen inc =
    elim (probe_from (other_adr adr) lstlen (hash_fun adr lstlen) list) [
      | none ↦ (0, list)
      | some k ↦
          if (list k).adr == adr
          then ((list (list k).nlink).name, if inc then count_up (list k).nlink list else list)
          else (0, list)
    ]

-- A slot is given up: for good only when the next one is in use, or has been.
pub clear_name : ℕ → ℕ → Table → Table
clear_name lstlen k list =
    let mark = if (list (next_slot lstlen k)).name == 0 then 0 else 1 in
    set_entry k (record (list k) { name = mark }) list

pub clear_adr : ℕ → ℕ → Table → Table
clear_adr lstlen k list =
    let mark = if (list (next_slot lstlen k)).adr == 0 then 0 else 1 in
    set_entry k (record (list k) { adr = mark }) list

-- `!dec || (list[k].count && !--list[k].count)`: whether the object goes, and the table.
pub last_use : Bool → ℕ → Table → Bool × Table
last_use dec k list =
    let n = (list k).count in
    if not dec
    then (true, list)
    else if n == 0
    then (false, list)
    else (n - 1 == 0, set_entry k (record (list k) { count = n - 1 }) list)

-- what hash_rem_name does with a slot
pub drop_name : ℕ → ℕ → Table → Table
drop_name lstlen k list =
    let l = clear_name lstlen k list in
    let j = (l k).alink in if j == 0 then l else clear_adr lstlen j l

pub hash_rem_name : ℕ → Table → ℕ → Bool → ℤ × Table
hash_rem_name name list lstlen dec =
    elim (probe_from (other_name name) lstlen (hash_fun name lstlen) list) [
      | none ↦ (pos 0, list)
      | some k ↦
          let u = last_use dec k list in
          let l = if u.0 then drop_name lstlen k u.1 else u.1 in
          if (list k).name == name
          then (pos (if dec then (l k).count else k), l)
          else (if dec then negsuc 13 else pos 0, list)
    ]

pub hash_rem_adr : ℕ → Table → ℕ → Bool → ℤ × Table
hash_rem_adr adr list lstlen dec =
    elim (probe_from (other_adr adr) lstlen (hash_fun adr lstlen) list) [
      | none ↦ (pos 0, list)
      | some k ↦
          let j = (list k).nlink in
          let u = last_use dec j list in
          let l = if u.0 then clear_name lstlen j (clear_adr lstlen k u.1) else u.1 in
          if (list k).adr == adr
          then (pos (if dec then (l (l k).nlink).count else k), l)
          else (if dec then negsuc 13 else pos 0, list)
    ]

-- lxrt_list and max_slots
pub record Registry : Type 0 where
  pub lxrt_list : Table
  pub max_slots : ℕ

abbrev put_list : Registry → ℤ × Table → ℤ × Registry
put_list r x = (x.0, record r { lxrt_list = x.1 })

-- abs() of what hash_ins_name returns
pub registr : ℕ → ℕ → ℕ → ℕ → Registry → ℕ × Registry
registr name adr type tsk r =
    let x = hash_ins_name name adr type tsk r.lxrt_list r.max_slots true in
    (pos_part x.0 + neg_part x.0, record r { lxrt_list = x.1 })

pub rt_get_adr : ℕ → Registry → ℕ
rt_get_adr name r = ((hash_find_name name r.lxrt_list r.max_slots false).0).0

pub rt_get_adr_cnt : ℕ → Registry → ℕ × Registry
rt_get_adr_cnt name r =
    let x = hash_find_name name r.lxrt_list r.max_slots true in
    ((x.0).0, record r { lxrt_list = x.1 })

-- rt_get_name of an address that is not NULL
pub rt_get_name : ℕ → Registry → ℕ
rt_get_name adr r = (hash_find_adr adr r.lxrt_list r.max_slots false).0

pub rt_get_type : ℕ → Registry → ℤ
rt_get_type name r =
    let x = hash_find_name name r.lxrt_list r.max_slots false in
    if not ((x.0).0 == 0) then pos (r.lxrt_list (x.0).1).type else negsuc 21

pub rt_register : ℕ → ℕ → ℕ → ℕ → Registry → ℕ × Registry
rt_register name adr type t r =
    if not (rt_get_adr name r == 0) then (0, r) else registr name adr type t r

pub rt_drg_on_name : ℕ → Registry → ℤ × Registry
rt_drg_on_name name r = put_list r (hash_rem_name name r.lxrt_list r.max_slots false)

pub rt_drg_on_name_cnt : ℕ → Registry → ℤ × Registry
rt_drg_on_name_cnt name r = put_list r (hash_rem_name name r.lxrt_list r.max_slots true)

pub rt_drg_on_adr : ℕ → Registry → ℤ × Registry
rt_drg_on_adr adr r = put_list r (hash_rem_adr adr r.lxrt_list r.max_slots false)

pub rt_drg_on_adr_cnt : ℕ → Registry → ℤ × Registry
rt_drg_on_adr_cnt adr r = put_list r (hash_rem_adr adr r.lxrt_list r.max_slots true)

-- the slot's entry with its address, and the slot
pub rt_get_registry_slot : ℕ → Registry → Option (ℕ × Entry)
rt_get_registry_slot slot r =
    let e = r.lxrt_list slot in
    if ltb 1 e.name then some (slot, record e { adr = (r.lxrt_list e.alink).adr }) else none
