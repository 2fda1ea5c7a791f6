-- ===== src/Spl/Tests.antt =====
-- A spin lock that two tasks try for (src/ipc/sem/sem.c).
use rtai.Base.{◌+◌, ◌≡◌, refl, List, [], ◌∷◌}
use rtai.Spl.{rt_spl_init, rt_spl_lock_if, rt_spl_unlock, owns}
use rtai.Spl.Owning.{Event, lock_if, unlock, run, call, depth, all_gained, all_returned, run-depth}

-- Task 1 takes the lock twice, task 2 tries, and task 1 gives it back once.
abbrev two_tries : List Event
two_tries = lock_if 1 ∷ lock_if 2 ∷ lock_if 1 ∷ unlock 2 ∷ unlock 1 ∷ []

held_once : depth (run two_tries rt_spl_init) 1 ≡ 1
unfolding run call depth owns rt_spl_lock_if rt_spl_unlock rt_spl_init
held_once = refl

run-depth_example :
    depth (run two_tries rt_spl_init) 1 + all_returned 1 two_tries rt_spl_init
    ≡ depth rt_spl_init 1 + all_gained 1 two_tries rt_spl_init
unfolding rt_spl_init
run-depth_example = run-depth 1 two_tries rt_spl_init refl
