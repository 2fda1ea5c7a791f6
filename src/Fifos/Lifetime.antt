-- ===== src/Fifos/Lifetime.antt =====
-- src/ipc/fifos/fifos.c: rtf_reset, rtf_resize, rtf_create and rtf_destroy.
-- Parameters: kmalloc and vmalloc give a buffer's bytes, or nothing. A size is a natural number, not 0
-- where a fifo is created. For `handler` 0 is NULL and 1 is do_nothing. The loop that keeps senders
-- away runs on fuel, and has no result when it is used up.
pub mod Created
pub mod Resize
pub mod ResizeAlone
use rtai.Base.{
  ℕ, zero, suc, ◌+◌, ◌-◌, ◌*◌, ◌==◌, leb, ltb, length, List, [], Bool, true, false, if◌then◌else◌,
  Option, none, some,
}
use rtai.Base.Int.{ℤ, pos, eq_ℤ}
use rtai.Mbx.Ring.{Ring, memcpy, mbxget}
use rtai.Fifos.State.{Fifos, snd_of, rcv_of, sem_of, set_fifo, max_fifos}
use rtai.Fifos.Block.{
  mbx_sem_wait, mbx_sem_wait_if, mbx_sem_init, mbx_sem_delete, mbx_signal, set_waiting,
}
use rtai.Fifos.Transfer.{set_ring, release_snd, release_rcv}
use rtai.Fifos.Service.{valid_fifo, enodev, einval, enomem, ebadf, ebusy}

-- What rtf_reset does to the buffer.
pub emptied : Ring → Ring
emptied r = record r { frbs = r.size; fbyte = 0; lbyte = 0; avbs = 0 }

-- How rtf_resize fills a new buffer of `size` bytes; mbx->size is still the old one.
pub refilled : Ring → List ℕ → ℕ → Ring
refilled r newbuf size =
    let g = mbxget r size in
    record g.ring {
      frbs = g.msg_size;
      avbs = size - g.msg_size;
      lbyte = size - g.msg_size;
      fbyte = 0;
      bufadr = memcpy newbuf 0 g.out (length g.out);
    }

-- What rtf_reset does with the semaphores, once it has them.
pub reset_held : ℕ → Bool × Fifos → ℤ × Fifos
reset_held i held =
    let (semval, s) = held in
    let r = set_ring i (emptied (s.fifo i).ring) s in
    (pos 0, release_rcv i (if semval then release_snd i r else mbx_signal i r))

pub malloc_type_of : ℕ → ℕ
malloc_type_of size = if leb size (4096 * 32) then b'k' else b'v'

-- `size < mbx->avbs`
pub too_small : ℕ → Bool × Fifos → ℤ × Fifos
too_small i held =
    let (semval, s) = held in
    let r = release_rcv i (if semval then release_snd i s else s) in
    (ebusy, record r { live = r.live - 1 })

-- The new buffer takes the place of the old one, which is freed at the end.
pub install : ℕ → ℕ → List ℕ → Fifos → Fifos
install i size newbuf s =
    set_fifo i
      (record (s.fifo i) {
        ring = refilled (s.fifo i).ring newbuf size;
        malloc_type = malloc_type_of size;
      })
      s

abbrev set_size : ℕ → ℕ → Fifos → Fifos
set_size i size s = set_ring i (record (s.fifo i).ring { size = size }) s

pub resize_held : ℕ → ℕ → List ℕ → Bool × Fifos → ℤ × Fifos
resize_held i size newbuf held =
    let (semval, s) = held in
    let r = install i size newbuf s in
    let let_go =
      if semval
      then release_snd i (set_size i size r)
      else if ltb (r.fifo i).ring.size size
      then mbx_signal i (set_size i size r)
      else r in
    let t = release_rcv i let_go in
    if ltb size (s.fifo i).ring.avbs
    then too_small i held
    else (pos size, record t { live = t.live - 1 })

abbrev pub set_opncnt : ℕ → ℕ → Fifos → Fifos
set_opncnt i n s = set_fifo i (record (s.fifo i) { opncnt = n }) s

-- mbx_init, on a fifo
pub mbx_init : ℕ → ℕ → List ℕ → Fifos → Fifos
mbx_init i size bufadr s =
    set_ring i
      (record { size = size; fbyte = 0; lbyte = 0; avbs = 0; frbs = size; bufadr = bufadr })
      (set_waiting i none (mbx_sem_init (rcv_of i) 1 (mbx_sem_init (snd_of i) 1 s)))

-- the rest of what rtf_create sets up in a new fifo
pub set_up : ℕ → ℕ → List ℕ → Fifos → Fifos
set_up i size buf s =
    let r : Fifos =
      set_fifo i (record (s.fifo i) { malloc_type = malloc_type_of size; handler = 1 }) s in
    let t = mbx_sem_init (sem_of i) 0 (mbx_init i size buf r) in
    set_fifo i (record (t.fifo i) { pol_asyn_pended = false; asynq = false })
      (record t { live = t.live + 1 })

module _ (schedule_timeout : ℕ → Fifos → Bool × Fifos) where
  -- A sender is kept away: its semaphore is taken, or it waits for room. The loop may go on for as
  -- long as a sender copies.
  pub keep_senders_away : ℕ → ℕ → Fifos → Option (Bool × Fifos)
  keep_senders_away zero i s = none
  keep_senders_away (suc fuel) i s =
      let w = mbx_sem_wait_if (snd_of i) s in
      elim w.0 [
        | true ↦ some (true, w.1)
        | false ↦ elim ((w.1).fifo i).waiting_task [
          | some t ↦ some (false, w.1)
          | none ↦ keep_senders_away fuel i (schedule_timeout 1 w.1).1
        ]
      ]

module _ (schedule : Fifos → Bool × Fifos) (schedule_timeout : ℕ → Fifos → Bool × Fifos) where
  pub rtf_reset : ℕ → ℕ → Fifos → Option (ℤ × Fifos)
  rtf_reset fuel i s = elim (valid_fifo i s) [
    | some e ↦ some (e, s)
    | none ↦
        let w = mbx_sem_wait schedule (rcv_of i) s in
        elim (eq_ℤ w.0 (pos 0)) [
          | false ↦ some (ebadf, w.1)
          | true ↦ elim (keep_senders_away schedule_timeout fuel i w.1) [
            | none ↦ none
            | some held ↦ some (reset_held i held)
          ]
        ]
  ]

module _ (kmalloc vmalloc : ℕ → Option (List ℕ)) where
  -- kmalloc for small buffers, vmalloc for large ones
  unfoldable pub new_buffer : ℕ → Option (List ℕ)
  new_buffer size = if leb size (4096 * 32) then kmalloc size else vmalloc size

module _ (schedule : Fifos → Bool × Fifos) (schedule_timeout : ℕ → Fifos → Bool × Fifos)
    (kmalloc vmalloc : ℕ → Option (List ℕ)) where
  pub resize_with : ℕ → ℕ → ℕ → List ℕ → Fifos → Option (ℤ × Fifos)
  resize_with fuel i size newbuf s =
      let w = mbx_sem_wait schedule (rcv_of i) s in
      elim (eq_ℤ w.0 (pos 0)) [
        | false ↦ some (ebadf, w.1)
        | true ↦ elim (keep_senders_away schedule_timeout fuel i w.1) [
          | none ↦ none
          | some held ↦ some (resize_held i size newbuf held)
        ]
      ]

  pub rtf_resize : ℕ → ℕ → ℕ → Fifos → Option (ℤ × Fifos)
  rtf_resize fuel i size s = elim (valid_fifo i s) [
    | some e ↦ some (e, s)
    | none ↦ elim (size == 0) [
      | true ↦ some (einval, s)
      | false ↦ elim (new_buffer kmalloc vmalloc size) [
        | none ↦ some (enomem, s)
        | some newbuf ↦ resize_with fuel i size newbuf (record s { live = s.live + 1 })
      ]
    ]
  ]

  pub rtf_create : ℕ → ℕ → ℕ → Fifos → Option (ℤ × Fifos)
  rtf_create fuel i size s =
      let x = s.fifo i in
      let opened_again =
        if ltb x.ring.size size then rtf_resize fuel i size s else some (pos 0, s) in
      elim (leb max_fifos i) [
        | true ↦ some (enodev, s)
        | false ↦ elim (x.opncnt == 0) [
          | true ↦ elim (new_buffer kmalloc vmalloc size) [
            | none ↦ some (enomem, set_opncnt i 0 s)
            | some buf ↦ some (pos 0, set_up i size buf (set_opncnt i 1 s))
          ]
          | false ↦ elim opened_again [
            | none ↦ none
            | some r ↦ some (pos 0, set_opncnt i (((r.1).fifo i).opncnt + 1) r.1)
          ]
        ]
      ]

-- mbx_delete, on a fifo
pub mbx_delete : ℕ → Fifos → Fifos
mbx_delete i s = mbx_sem_delete (rcv_of i) (mbx_sem_delete (snd_of i) (mbx_signal i s))

-- What rtf_destroy does after the last close, after it has freed the buffer.
pub tear_down : ℕ → Fifos → Fifos
tear_down i s =
    let r : Fifos = set_fifo i (record (s.fifo i) { handler = 1 }) s in
    let t = mbx_delete i r in
    set_fifo i (record (t.fifo i) { pol_asyn_pended = false; asynq = false; name = [] })
      (record t { live = t.live - 1 })

pub rtf_destroy : ℕ → Fifos → ℤ × Fifos
rtf_destroy i s = elim (valid_fifo i s) [
  | some e ↦ (e, s)
  | none ↦
      let n = (s.fifo i).opncnt - 1 in
      let r : Fifos = set_fifo i (record (s.fifo i) { opncnt = n }) s in
      let t = if n == 0 then tear_down i r else r in (pos (t.fifo i).opncnt, t)
]
