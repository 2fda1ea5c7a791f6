-- ===== src/Fifos/Tests.antt =====
-- The fifos at concrete inputs (src/ipc/fifos/fifos.c).
use rtai.Base.{
  ℕ, ◌<◌, ◌≡◌, refl, List, [], ◌∷◌, ◌++◌, arith, Bool, true, false, ◌==◌, Option, none, some,
  if◌then◌else◌, replicate,
}
use rtai.Base.Int.{ℤ, pos, negsuc}
use rtai.Mbx.Ring.{Ring}
use rtai.Mbx.Ring.Window.{contents}
use rtai.Mbx.Ring.Wrap.{IsBuffer}
use rtai.Fifos.State.{FSem, Fifo, Fifos, Pending, sem_of, get_sem, set_fifo, max_fifos, push}
use rtai.Fifos.State.Queue.{InBounds, count, to_wake, to_wake-push}
use rtai.Fifos.Block.{mbx_sem_wait_timed, mbx_sem_wait_if}
use rtai.Fifos.Block.Timeout.{mbx_sem_wait_timed-frees}
use rtai.Fifos.Block.Wakes.{WakesWell}
use rtai.Fifos.Transfer.{mbx_send, frbs_of}
use rtai.Fifos.Transfer.Stores.{ring_of}
use rtai.Fifos.Transfer.Ends.{Returns, mbx_send-Returns}
use rtai.Fifos.Service.{valid_fifo, rtf_put}
use rtai.Fifos.Service.Data.{rtf_put-stores}
use rtai.Fifos.Drain.{rtf_sysrq_handler}
use rtai.Fifos.Drain.Woken.{rtf_sysrq_handler-woken, those}
use rtai.Fifos.Lifetime.{rtf_resize, new_buffer}
use rtai.Fifos.Lifetime.ResizeAlone.{Outcome, rtf_resize-alone}
use rtai.Fifos.Named.{rtf_named_create, rtf_getfifobyname, find_unused, same_name, unused}
use rtai.Fifos.Named.Lookup.{rtf_getfifobyname-rtf_named_create}

-- three bytes, of which the last stands at the start of the buffer
abbrev three_bytes : Ring
three_bytes = record {
  size = 4;
  fbyte = 2;
  lbyte = 1;
  avbs = 3;
  frbs = 1;
  bufadr = 3 ∷ 0 ∷ 1 ∷ 2 ∷ [];
}

abbrev empty_ring : Ring
empty_ring = record {
  size = 4;
  fbyte = 0;
  lbyte = 0;
  avbs = 0;
  frbs = 4;
  bufadr = 0 ∷ 0 ∷ 0 ∷ 0 ∷ [];
}

abbrev free_sem : FSem
free_sem = record { free = 1; qtype = 0; queue = [] }

abbrev held_sem : FSem
held_sem = record { free = 0; qtype = 0; queue = [] }

abbrev open_fifo : Fifo
open_fifo = record {
  ring = three_bytes;
  sndsem = free_sem;
  rcvsem = free_sem;
  waiting_task = none;
  opncnt = 1;
  malloc_type = b'k';
  pol_asyn_pended = false;
  pollq = false;
  asynq = false;
  handler = 1;
  sem = held_sem;
  name = [];
}

abbrev closed_fifo : Fifo
closed_fifo = record open_fifo { opncnt = 0; ring = empty_ring }

-- processes 7 and 8 are to be woken
abbrev two_pending : Pending
two_pending = record { in_at = 1; out_at = 63; entries = 8 ∷ (replicate 62 0 ++ (7 ∷ [])) }

abbrev none_pending : Pending
none_pending = record { in_at = 0; out_at = 0; entries = replicate 64 0 }

-- Fifo 0 is open, and the others are not.
abbrev one_open : Fifos
one_open = record {
  fifo = λ i. if i == 0 then open_fifo else closed_fifo;
  lx = λ t. record { blocked = false; priority = 0 };
  taskq = two_pending;
  pol_asyn_q = none_pending;
  current = 5;
  rt_priority = λ t. 0;
  srq = 0;
  woken = [];
  polled = [];
  live = 1;
}

three_bytes-IsBuffer : IsBuffer three_bytes
three_bytes-IsBuffer = omega arith

empty_ring-IsBuffer : IsBuffer empty_ring
empty_ring-IsBuffer = omega arith

-- What goes on while a process sleeps: the fifo is read empty, and the waiting process is woken.
abbrev drained_meanwhile : Fifos → Bool × Fifos
drained_meanwhile s =
    (false, set_fifo 0 (record (s.fifo 0) { ring = empty_ring; waiting_task = none }) s)

abbrev drained_later : ℕ → Fifos → Bool × Fifos
drained_later delay s = drained_meanwhile s

abbrev zeros : ℕ → Option (List ℕ)
zeros n = some (replicate n 0)

two_pending-InBounds : InBounds two_pending
two_pending-InBounds = omega arith

to_wake-push_example :
    (count two_pending < 63 → to_wake (push 9 two_pending) ≡ to_wake two_pending ++ (9 ∷ []))
    × (count two_pending ≡ 63 → to_wake (push 9 two_pending) ≡ [])
to_wake-push_example = to_wake-push 9 two_pending two_pending-InBounds

rtf_sysrq_handler-woken_example :
    let t = rtf_sysrq_handler (λ p. p == 7) one_open in
    (t.taskq.out_at ≡ t.taskq.in_at)
    × (t.pol_asyn_q.out_at ≡ t.pol_asyn_q.in_at)
    × (t.woken ≡ [] ++ those (λ p. p == 7) (to_wake two_pending))
rtf_sysrq_handler-woken_example =
    rtf_sysrq_handler-woken (λ p. p == 7) one_open two_pending-InBounds (omega arith)

open_valid : valid_fifo 0 one_open ≡ none
unfolding valid_fifo
open_valid = refl

rtf_put-stores_example :
    let r = rtf_put 0 (4 ∷ 5 ∷ []) 2 one_open in
    (r.0 ≡ pos 1)
    × IsBuffer (ring_of 0 r.1)
    × (contents (ring_of 0 r.1) ≡ contents three_bytes ++ (4 ∷ []))
rtf_put-stores_example =
    rtf_put-stores 0 (4 ∷ 5 ∷ []) 2 one_open open_valid three_bytes-IsBuffer (omega arith)

memory_2 : new_buffer zeros zeros 2 ≡ some (0 ∷ 0 ∷ [])
unfolding new_buffer
memory_2 = refl

memory_3 : new_buffer zeros zeros 3 ≡ some (0 ∷ 0 ∷ 0 ∷ [])
unfolding new_buffer
memory_3 = refl

-- a buffer of just the bytes that are there
rtf_resize-alone_example :
    (r : ℤ × Fifos) × (rtf_resize drained_meanwhile drained_later zeros zeros 1 0 3 one_open
      ≡ some r)
    × Outcome 0 3 one_open r
rtf_resize-alone_example =
    rtf_resize-alone drained_meanwhile drained_later zeros zeros 0 0 3 (0 ∷ 0 ∷ 0 ∷ []) one_open
      open_valid three_bytes-IsBuffer (omega arith) memory_3 (omega arith) refl refl

fifo_1_unused : find_unused max_fifos 0 (b'a' ∷ []) one_open ≡ some 1
unfolding find_unused same_name unused
fifo_1_unused = refl

rtf_getfifobyname-rtf_named_create_example :
    (t : Fifos) × (rtf_named_create drained_meanwhile drained_later zeros zeros 0
        (b'a' ∷ [])
        2
        one_open
      ≡ some (pos 1, t))
    × (rtf_getfifobyname (b'a' ∷ []) t ≡ pos 1)
rtf_getfifobyname-rtf_named_create_example =
    rtf_getfifobyname-rtf_named_create drained_meanwhile drained_later zeros zeros 0 1 2 (b'a' ∷ [])
      (0 ∷ 0 ∷ []) one_open (omega arith) fifo_1_unused memory_2

-- The semaphore of the user, which is held.
held_alone : (get_sem (sem_of 0) one_open).free ≡ 0
unfolding get_sem
held_alone = refl

nobody_waits : (get_sem (sem_of 0) one_open).queue ≡ []
unfolding get_sem
nobody_waits = refl

mbx_sem_wait_timed-frees_example :
    let r = mbx_sem_wait_timed (λ d t. (false, t)) (sem_of 0) 100 one_open in
    (r.0 ≡ negsuc 0)
    × ((mbx_sem_wait_if (sem_of 0) one_open).0 ≡ false)
    × ((mbx_sem_wait_if (sem_of 0) r.1).0 ≡ true)
mbx_sem_wait_timed-frees_example =
    mbx_sem_wait_timed-frees (sem_of 0) 100 one_open held_alone nobody_waits

drained_WakesWell : WakesWell drained_meanwhile frbs_of 0
drained_WakesWell = record {
  buffer = λ s b. empty_ring-IsBuffer;
  counted = λ t s waits ended. omega arith;
}

mbx_send-Returns_example :
    Returns 6 (mbx_send drained_meanwhile 6 0 (1 ∷ 2 ∷ 3 ∷ 4 ∷ 5 ∷ 6 ∷ []) 6 one_open)
mbx_send-Returns_example =
    mbx_send-Returns drained_meanwhile 0 (1 ∷ 2 ∷ 3 ∷ 4 ∷ 5 ∷ 6 ∷ []) 6 one_open drained_WakesWell
      three_bytes-IsBuffer (omega arith)
