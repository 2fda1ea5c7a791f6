-- ===== src/Sem/Balance.antt =====
-- The count of a semaphore and the tasks in its queue.
use rtai.Base.{
  ℕ, suc, ◌≡◌, ◌≢◌, refl, ap, List, [], ◌∷◌, arith, length, length-append, Bool, true, false,
}
use rtai.Base.Int.{ℤ, pos, neg_part, ◌+ℤ◌, ◌-ℤ◌, ◌≤ℤ◌}
use rtai.Kernel.{Sem}
use rtai.Sched.{insert_after_equals, enqueue_in}
use rtai.Sem.{count_up, rt_typed_sem_init}

-- Every task in the queue has brought the count down by one below 0, and but for a counting
-- semaphore the count is at most 1.
pub record Balanced (m : Sem) : Type 0 where
  pub waiters : length m.queue ≡ neg_part m.count
  pub capped : m.type ≢ pos 0 → m.count ≤ℤ pos 1

pub length-insert_after_equals :
    (key : ℕ → ℕ) (t : ℕ) (xs : List ℕ) → length (insert_after_equals key t xs) ≡ suc (length xs)
unfolding insert_after_equals
length-insert_after_equals key t [] = refl
length-insert_after_equals key t (x ∷ xs) = ground (arith, length-insert_after_equals key t xs)

pub length-enqueue_in :
    (fifo : Bool) (key : ℕ → ℕ) (t : ℕ) (xs : List ℕ)
    → length (enqueue_in fifo key t xs) ≡ suc (length xs)
unfolding enqueue_in
length-enqueue_in true key t xs = omega (arith, length-append xs (t ∷ []))
length-enqueue_in false key t xs = length-insert_after_equals key t xs

-- A new semaphore is balanced, if its first count is not negative or it is a resource.
rt_typed_sem_init-Balanced :
    (value : ℤ) (type : ℕ) → pos 0 ≤ℤ value → Balanced (rt_typed_sem_init value type)
unfolding rt_typed_sem_init ◌-ℤ◌
rt_typed_sem_init-Balanced value type h = record {
  waiters = ground arith;
  capped = λ n. ground arith;
}

-- One task more in the queue, one less in the count: what a wait does that blocks.
pub blocked-Balanced :
    (m : Sem) (q : List ℕ)
    → Balanced m
    → m.count ≤ℤ pos 0
    → length q ≡ suc (length m.queue)
    → Balanced (record m { count = m.count -ℤ pos 1; queue = q })
unfolding ◌-ℤ◌
blocked-Balanced m q b h e = record {
  waiters = ground (arith, b.waiters);
  capped = λ n. ground arith;
}

-- A wait that need not block.
pub taken-Balanced :
    (m : Sem) → Balanced m → pos 1 ≤ℤ m.count → Balanced (record m { count = m.count -ℤ pos 1 })
unfolding ◌-ℤ◌
taken-Balanced m b h = record {
  waiters = ground (arith, b.waiters);
  capped = λ n. ground (arith, b.capped n);
}

-- The count goes up and the first task, if there is one, leaves the queue.
pub count_up-Balanced_nil : (m : Sem) → Balanced m → m.queue ≡ [] → Balanced (count_up m)
unfolding count_up ◌+ℤ◌
count_up-Balanced_nil m b e = record {
  waiters = ground (arith, b.waiters, ap length e);
  capped = λ n. ground (arith, b.capped n);
}

pub count_up-Balanced :
    (m : Sem) (q : List ℕ)
    → Balanced m
    → length m.queue ≡ suc (length q)
    → Balanced (record (count_up m) { queue = q })
unfolding count_up ◌+ℤ◌
count_up-Balanced m q b e = record {
  waiters = ground (arith, b.waiters, e);
  capped = λ n. ground (arith, b.capped n);
}
