-- ===== src/Registry/Tests.antt =====
-- The registry at concrete inputs (src/sched/api.c).
use rtai.Base.{◌≡◌, refl, arith, ◌==◌, if◌then◌else◌}
use rtai.Base.Int.{pos}
use rtai.Registry.{
  Entry, Registry, probe, hash_fun, rt_register, rt_get_adr, rt_get_name, rt_drg_on_name,
  hash_find_name,
}
use rtai.Registry.Register.{Room, rt_get_adr-rt_register}
use rtai.Registry.Remove.{IsLinked, Found, rt_get_adr-rt_drg_on_name}
use rtai.Registry.KnownAddress.{Known, rt_register-known_address}

abbrev unused_entry : Entry
unused_entry = record { name = 0; adr = 0; nlink = 0; alink = 0; count = 0; type = 0; tsk = 0 }

-- Three slots. Object 5 has the address 100, which stands in slot 2, and its name in slot 3.
abbrev one_object : Registry
one_object = record {
  lxrt_list = λ j.
      if j == 3
      then record unused_entry { name = 5; alink = 2; count = 1 }
      else if j == 2
      then record unused_entry { adr = 100; nlink = 3 }
      else unused_entry;
  max_slots = 3;
}

-- Object 8 as well, whose name belongs in slot 3 and stands in slot 1; its address 103 is in slot 3.
abbrev two_objects : Registry
two_objects = record {
  lxrt_list = λ j.
      if j == 3
      then record unused_entry { name = 5; alink = 2; count = 1; adr = 103; nlink = 1 }
      else if j == 2
      then record unused_entry { adr = 100; nlink = 3 }
      else if j == 1
      then record unused_entry { name = 8; alink = 3; count = 1 }
      else unused_entry;
  max_slots = 3;
}

object_8-Room : Room 8 103 one_object 1 3
unfolding hash_fun probe
object_8-Room = record {
  good_name = omega arith;
  good_adr = omega arith;
  name_slot = refl;
  name_free = omega arith;
  adr_slot = refl;
  adr_free = omega arith;
}

no_8 : rt_get_adr 8 one_object ≡ 0
unfolding rt_get_adr hash_find_name hash_fun probe
no_8 = refl

rt_get_adr-rt_register_example :
    let x = rt_register 8 103 0 0 one_object in
    (x.0 ≡ 1) × (rt_get_adr 8 x.1 ≡ 103) × (rt_get_name 103 x.1 ≡ 8)
rt_get_adr-rt_register_example = rt_get_adr-rt_register 8 103 0 0 1 3 one_object object_8-Room no_8

two_objects-IsLinked : IsLinked two_objects.lxrt_list
two_objects-IsLinked = record { back = λ j h. ground arith }

object_5-Found : Found 5 two_objects 3
unfolding hash_fun probe
object_5-Found = record { good = omega arith; stop = refl; hit = refl }

object_8-Found : Found 8 two_objects 1
unfolding hash_fun probe
object_8-Found = record { good = omega arith; stop = refl; hit = refl }

-- The name in slot 3 is given up, and the loop for the other name still passes it.
rt_get_adr-rt_drg_on_name_example :
    let x = rt_drg_on_name 5 two_objects in
    (x.0 ≡ pos 3) × (rt_get_adr 8 x.1 ≡ rt_get_adr 8 two_objects)
rt_get_adr-rt_drg_on_name_example =
    rt_get_adr-rt_drg_on_name 5 8 3 1 two_objects two_objects-IsLinked object_5-Found object_8-Found
      (λ e. omega arith)

address_100-Known : Known 8 100 one_object 1 2
unfolding hash_fun probe
address_100-Known = record {
  good_name = omega arith;
  name_slot = refl;
  name_free = omega arith;
  adr_slot = refl;
  adr_there = refl;
  null_slot = refl;
}

rt_register-known_address_example :
    let x = rt_register 8 100 0 0 one_object in
    let y = rt_register 8 100 0 0 x.1 in
    (x.0 ≡ 0) × (rt_get_adr 8 x.1 ≡ 0) × (y.0 ≡ 1) × (rt_get_adr 8 y.1 ≡ 0)
rt_register-known_address_example =
    rt_register-known_address 8 100 0 0 1 2 one_object address_100-Known no_8
