-- ===== src/Fifos/Transfer.antt =====
-- src/ipc/fifos/fifos.c: mbx_send, mbx_receive and their kin. The copy loops are those of a mailbox,
-- line for line, with rt_copy_from_user and rt_copy_to_user (which `lnx` selects) taken for memcpy;
-- mbx_evdrp reads from its own fbyte in both cases. Sizes are natural numbers. A loop that waits runs
-- on fuel, and has no result when it is used up.
pub mod Stores
pub mod Fetches
pub mod Ends
use rtai.Base.{
  ℕ, zero, suc, ◌+◌, ◌-◌, ◌*◌, ◌==◌, leb, drop, List, [], ◌++◌, Bool, true, false, not, ◌&&◌,
  if◌then◌else◌, Option, none, some,
}
use rtai.Base.Int.{ℤ, pos, eq_ℤ}
use rtai.Mbx.Ring.{Ring, mbxput_loop, mbxget, mbxevdrp, ovrwr_loop}
use rtai.Fifos.State.{Fifos, snd_of, rcv_of, set_fifo}
use rtai.Fifos.Block.{
  mbx_sem_signal, mbx_signal, set_free, mbx_sem_wait, mbx_wait, mbx_sem_wait_timed, mbx_wait_timed,
}

abbrev pub set_ring : ℕ → Ring → Fifos → Fifos
set_ring i r s = set_fifo i (record (s.fifo i) { ring = r }) s

abbrev pub frbs_of : Ring → ℕ
frbs_of r = r.frbs

abbrev pub avbs_of : Ring → ℕ
avbs_of r = r.avbs

-- The copy loops on the buffer of a fifo: what is left of the message, or what was read. rtf_resize
-- can leave a write position at the end of the buffer, for which a round is spent.
pub mbx_put : ℕ → List ℕ → ℕ → Fifos → (List ℕ × ℕ) × Fifos
mbx_put i msg msg_size s =
    let p =
      mbxput_loop (suc msg_size)
        (record { ring = (s.fifo i).ring; msg = msg; msg_size = msg_size }) in
    ((p.msg, p.msg_size), set_ring i p.ring s)

pub mbx_ovrwr_put : ℕ → List ℕ → ℕ → Fifos → ℕ × Fifos
mbx_ovrwr_put i msg msg_size s =
    let r = (s.fifo i).ring in
    let n = msg_size - r.size in
    let p =
      ovrwr_loop (2 * (msg_size - n) + 2)
        (record { ring = r; msg = drop n msg; msg_size = msg_size - n }) in
    (0, set_ring i p.ring s)

pub mbx_get : ℕ → ℕ → Fifos → (List ℕ × ℕ) × Fifos
mbx_get i msg_size s =
    let g = mbxget (s.fifo i).ring msg_size in ((g.out, g.msg_size), set_ring i g.ring s)

pub mbx_evdrp : ℕ → ℕ → Fifos → List ℕ × ℕ
mbx_evdrp i msg_size s = let p = mbxevdrp (s.fifo i).ring msg_size true in (p.out, p.msg_size)

-- `mbx_sem_signal(&(mbx->sndsem), (FIFO *)mbx);` and the same for rcvsem
pub release_snd : ℕ → Fifos → Fifos
release_snd i s = mbx_sem_signal (snd_of i) (some i) s

pub release_rcv : ℕ → Fifos → Fifos
release_rcv i s = mbx_sem_signal (rcv_of i) (some i) s

-- The loop of mbx_send and of mbx_send_timed, and the signal after it.
pub send_loop : (ℕ → Fifos → ℤ × Fifos) → ℕ → ℕ → List ℕ → ℕ → Fifos → Option (ℕ × Fifos)
send_loop wait zero i msg msg_size s = if msg_size == 0 then some (0, release_snd i s) else none
send_loop wait (suc fuel) i msg msg_size s = elim (msg_size == 0) [
  | true ↦ some (0, release_snd i s)
  | false ↦
      let w = wait i s in
      let p = mbx_put i msg msg_size w.1 in
      elim (eq_ℤ w.0 (pos 0)) [
        | false ↦ some (msg_size, release_snd i w.1)
        | true ↦ send_loop wait fuel i (p.0).0 (p.0).1 (mbx_signal i p.1)
      ]
]

-- The loop of mbx_receive and of mbx_receive_timed; `out` holds the bytes stored so far.
pub receive_loop :
    (ℕ → Fifos → ℤ × Fifos) → ℕ → ℕ → List ℕ → ℕ → Fifos → Option ((List ℕ × ℕ) × Fifos)
receive_loop wait zero i out msg_size s =
    if msg_size == 0 then some ((out, 0), release_rcv i s) else none
receive_loop wait (suc fuel) i out msg_size s = elim (msg_size == 0) [
  | true ↦ some ((out, 0), release_rcv i s)
  | false ↦
      let w = wait i s in
      let g = mbx_get i msg_size w.1 in
      elim (eq_ℤ w.0 (pos 0)) [
        | false ↦ some ((out, msg_size), release_rcv i w.1)
        | true ↦ receive_loop wait fuel i (out ++ (g.0).0) (g.0).1 (mbx_signal i g.1)
      ]
]

module _ (schedule : Fifos → Bool × Fifos) where
  pub mbx_send : ℕ → ℕ → List ℕ → ℕ → Fifos → Option (ℕ × Fifos)
  mbx_send fuel i msg msg_size s =
      let w = mbx_sem_wait schedule (snd_of i) s in
      if not (eq_ℤ w.0 (pos 0))
      then some (msg_size, w.1)
      else send_loop (mbx_wait schedule frbs_of) fuel i msg msg_size w.1

  pub mbx_receive : ℕ → ℕ → ℕ → Fifos → Option ((List ℕ × ℕ) × Fifos)
  mbx_receive fuel i msg_size s =
      let w = mbx_sem_wait schedule (rcv_of i) s in
      if not (eq_ℤ w.0 (pos 0))
      then some (([], msg_size), w.1)
      else receive_loop (mbx_wait schedule avbs_of) fuel i [] msg_size w.1

  -- what mbx_receive_wjo does once it has the semaphore
  pub receive_wjo : ℕ → ℕ → Fifos → (List ℕ × ℕ) × Fifos
  receive_wjo i msg_size s =
      let w = mbx_wait schedule avbs_of i s in
      let g = mbx_get i msg_size w.1 in
      if msg_size == 0
      then (([], msg_size), release_rcv i s)
      else if not (eq_ℤ w.0 (pos 0))
      then (([], msg_size), release_rcv i w.1)
      else (g.0, release_rcv i (mbx_signal i g.1))

  pub mbx_receive_wjo : ℕ → ℕ → Fifos → (List ℕ × ℕ) × Fifos
  mbx_receive_wjo i msg_size s =
      let w = mbx_sem_wait schedule (rcv_of i) s in
      if not (eq_ℤ w.0 (pos 0)) then (([], msg_size), w.1) else receive_wjo i msg_size w.1

module _ (schedule_timeout : ℕ → Fifos → Bool × Fifos) where
  pub mbx_send_timed : ℕ → ℕ → List ℕ → ℕ → ℕ → Fifos → Option (ℕ × Fifos)
  mbx_send_timed fuel i msg msg_size delay s =
      let w = mbx_sem_wait_timed schedule_timeout (snd_of i) delay s in
      if not (eq_ℤ w.0 (pos 0))
      then some (msg_size, w.1)
      else send_loop (λ j. mbx_wait_timed schedule_timeout frbs_of j delay) fuel i msg msg_size w.1

  pub mbx_receive_timed : ℕ → ℕ → ℕ → ℕ → Fifos → Option ((List ℕ × ℕ) × Fifos)
  mbx_receive_timed fuel i msg_size delay s =
      let w = mbx_sem_wait_timed schedule_timeout (rcv_of i) delay s in
      if not (eq_ℤ w.0 (pos 0))
      then some (([], msg_size), w.1)
      else receive_loop (λ j. mbx_wait_timed schedule_timeout avbs_of j delay) fuel i [] msg_size
          w.1

-- The copy of a service that does not wait, with what stands before and behind it.
pub send_now : ℕ → List ℕ → ℕ → Fifos → ℕ × Fifos
send_now i msg msg_size s =
    let p = mbx_put i msg msg_size (set_free 0 (snd_of i) s) in
    ((p.0).1, release_snd i (mbx_signal i p.1))

pub receive_now : ℕ → ℕ → Fifos → (List ℕ × ℕ) × Fifos
receive_now i msg_size s =
    let g = mbx_get i msg_size (set_free 0 (rcv_of i) s) in (g.0, release_rcv i (mbx_signal i g.1))

pub mbx_send_wp : ℕ → List ℕ → ℕ → Fifos → ℕ × Fifos
mbx_send_wp i msg msg_size s =
    let x = s.fifo i in
    if not (x.sndsem.free == 0) && not (x.ring.frbs == 0)
    then send_now i msg msg_size s
    else (msg_size, s)

pub mbx_send_if : ℕ → List ℕ → ℕ → Fifos → ℕ × Fifos
mbx_send_if i msg msg_size s =
    let x = s.fifo i in
    if not (x.sndsem.free == 0) && leb msg_size x.ring.frbs
    then send_now i msg msg_size s
    else (msg_size, s)

pub mbx_receive_wp : ℕ → ℕ → Fifos → (List ℕ × ℕ) × Fifos
mbx_receive_wp i msg_size s =
    let x = s.fifo i in
    if not (x.rcvsem.free == 0) && not (x.ring.avbs == 0)
    then receive_now i msg_size s
    else (([], msg_size), s)

pub mbx_receive_if : ℕ → ℕ → Fifos → (List ℕ × ℕ) × Fifos
mbx_receive_if i msg_size s =
    let x = s.fifo i in
    if not (x.rcvsem.free == 0) && leb msg_size x.ring.avbs
    then receive_now i msg_size s
    else (([], msg_size), s)

pub mbx_ovrwr_send : ℕ → List ℕ → ℕ → Fifos → ℕ × Fifos
mbx_ovrwr_send i msg msg_size s =
    let p = mbx_ovrwr_put i msg msg_size (set_free 0 (snd_of i) s) in
    if not ((s.fifo i).sndsem.free == 0)
    then (p.0, release_snd i (mbx_signal i p.1))
    else (msg_size, s)
