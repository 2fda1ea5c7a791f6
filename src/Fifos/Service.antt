-- ===== src/Fifos/Service.antt =====
-- src/ipc/fifos/fifos.c: the rtf_ functions that real time tasks call and that do not wait. Those that
-- read return the bytes with the code. Sizes are natural numbers. For `handler` 0 is NULL.
pub mod Data
use rtai.Base.{ℕ, ◌-◌, ◌==◌, leb, List, [], ◌||◌, if◌then◌else◌, Option, none, some}
use rtai.Base.Int.{ℤ, pos, negsuc}
use rtai.Fifos.State.{Fifos, sem_of, set_fifo, max_fifos}
use rtai.Fifos.Block.{mbx_sem_wait_if, mbx_sem_signal, mbx_sem_init, mbx_sem_delete}
use rtai.Fifos.Transfer.{
  mbx_send_wp, mbx_send_if, mbx_receive_wp, mbx_receive_if, mbx_ovrwr_send, mbx_evdrp,
}

abbrev pub enodev : ℤ
enodev = negsuc 18

abbrev pub einval : ℤ
einval = negsuc 21

abbrev pub enomem : ℤ
enomem = negsuc 11

abbrev pub ebadf : ℤ
ebadf = negsuc 8

abbrev pub ebusy : ℤ
ebusy = negsuc 15

-- VALID_FIFO: the error, if there is one.
unfoldable pub valid_fifo : ℕ → Fifos → Option ℤ
valid_fifo minor s =
    if leb max_fifos minor
    then some enodev
    else if (s.fifo minor).opncnt == 0
    then some einval
    else none

pub rtf_put : ℕ → List ℕ → ℕ → Fifos → ℤ × Fifos
rtf_put minor buf count s = elim (valid_fifo minor s) [
  | some e ↦ (e, s)
  | none ↦ let r = mbx_send_wp minor buf count s in (pos (count - r.0), r.1)
]

pub rtf_put_if : ℕ → List ℕ → ℕ → Fifos → ℤ × Fifos
rtf_put_if minor buf count s = elim (valid_fifo minor s) [
  | some e ↦ (e, s)
  | none ↦ let r = mbx_send_if minor buf count s in (pos (count - r.0), r.1)
]

pub rtf_ovrwr_put : ℕ → List ℕ → ℕ → Fifos → ℤ × Fifos
rtf_ovrwr_put minor buf count s = elim (valid_fifo minor s) [
  | some e ↦ (e, s)
  | none ↦ let r = mbx_ovrwr_send minor buf count s in (pos r.0, r.1)
]

pub rtf_get : ℕ → ℕ → Fifos → (List ℕ × ℤ) × Fifos
rtf_get minor count s = elim (valid_fifo minor s) [
  | some e ↦ (([], e), s)
  | none ↦ let r = mbx_receive_wp minor count s in (((r.0).0, pos (count - (r.0).1)), r.1)
]

pub rtf_get_if : ℕ → ℕ → Fifos → (List ℕ × ℤ) × Fifos
rtf_get_if minor count s = elim (valid_fifo minor s) [
  | some e ↦ (([], e), s)
  | none ↦ let r = mbx_receive_if minor count s in (((r.0).0, pos (count - (r.0).1)), r.1)
]

pub rtf_evdrp : ℕ → ℕ → Fifos → List ℕ × ℤ
rtf_evdrp minor msg_size s = elim (valid_fifo minor s) [
  | some e ↦ ([], e)
  | none ↦ let r = mbx_evdrp minor msg_size s in (r.0, pos (msg_size - r.1))
]

pub rtf_get_avbs : ℕ → Fifos → ℤ
rtf_get_avbs minor s = elim (valid_fifo minor s) [
  | some e ↦ e
  | none ↦ pos (s.fifo minor).ring.avbs
]

pub rtf_get_frbs : ℕ → Fifos → ℤ
rtf_get_frbs minor s = elim (valid_fifo minor s) [
  | some e ↦ e
  | none ↦ pos (s.fifo minor).ring.frbs
]

pub rtf_create_handler : ℕ → ℕ → Fifos → ℤ × Fifos
rtf_create_handler minor handler s =
    if leb max_fifos minor || handler == 0
    then (einval, s)
    else (pos 0, set_fifo minor (record (s.fifo minor) { handler = handler }) s)

pub rtf_sem_init : ℕ → ℕ → Fifos → ℤ × Fifos
rtf_sem_init minor value s = elim (valid_fifo minor s) [
  | some e ↦ (e, s)
  | none ↦ (pos 0, mbx_sem_init (sem_of minor) value s)
]

pub rtf_sem_post : ℕ → Fifos → ℤ × Fifos
rtf_sem_post minor s = elim (valid_fifo minor s) [
  | some e ↦ (e, s)
  | none ↦ (pos 0, mbx_sem_signal (sem_of minor) none s)
]

pub rtf_sem_trywait : ℕ → Fifos → ℤ × Fifos
rtf_sem_trywait minor s = elim (valid_fifo minor s) [
  | some e ↦ (e, s)
  | none ↦ let r = mbx_sem_wait_if (sem_of minor) s in (if r.0 then pos 1 else pos 0, r.1)
]

pub rtf_sem_destroy : ℕ → Fifos → ℤ × Fifos
rtf_sem_destroy minor s = elim (valid_fifo minor s) [
  | some e ↦ (e, s)
  | none ↦ (pos 0, mbx_sem_delete (sem_of minor) s)
]
