-- ===== src/Mbx/Ring.antt =====
-- src/ipc/mbx/mbx.c: the byte buffer of a mailbox and the four copy loops over it.
-- A memory area is the list of its bytes. Where the source holds a pointer `*msg` that a loop
-- moves on, the model holds the bytes from there on (put) or the bytes stored so far (get).
-- Sizes are natural numbers: the callers hand over no negative `msg_size`.
-- The spin lock round the two counters has no effect on a sequential run and is left out.
pub mod Inv
pub mod Window
pub mod Put
pub mod Get
pub mod Peek
pub mod PeekUser
pub mod Discard
pub mod Overwrite
pub mod RoundTrip
pub mod Refine
pub mod Wrap
pub mod WrapGet
mod Tests
use rtai.Base.{
  ℕ, zero, suc, ◌+◌, ◌-◌, ◌*◌, List, [], ◌∷◌, ◌++◌, Bool, true, false, ◌&&◌, ltb, if◌then◌else◌,
  get_or, set, drop,
}

-- The fields of MBX (include/rtai_mbx.h) that the copy loops use.
pub record Ring : Type 0 where
  pub size : ℕ
  pub fbyte : ℕ
  pub lbyte : ℕ
  pub avbs : ℕ
  pub frbs : ℕ
  pub bufadr : List ℕ

-- memcpy(dst + off, src, n)
unfoldable pub memcpy : List ℕ → ℕ → List ℕ → ℕ → List ℕ
memcpy dst off src zero = dst
memcpy dst off [] (suc n) = dst
memcpy dst off (x ∷ src) (suc n) = memcpy (set dst off x) (off + 1) src n

-- the n bytes that a memcpy from src + off reads
unfoldable pub bytes_at : List ℕ → ℕ → ℕ → List ℕ
bytes_at src off zero = []
bytes_at src off (suc n) = get_or src off 0 ∷ bytes_at src (off + 1) n

-- #define MOD_SIZE(indx)
abbrev pub mod_size : ℕ → ℕ → ℕ
mod_size size indx = if ltb indx size then indx else indx - size

-- `if ((tocpy = size - byte) > msg_size) tocpy = msg_size; if (tocpy > limit) tocpy = limit;`
abbrev pub tocpy : ℕ → ℕ → ℕ → ℕ
tocpy room msg_size limit =
    let t : ℕ = if ltb msg_size room then msg_size else room in if ltb limit t then limit else t

-- one round of the loop of mbxput
pub put_chunk : Ring → List ℕ → ℕ → Ring
put_chunk r msg k = record r {
  bufadr = memcpy r.bufadr r.lbyte msg k;
  frbs = r.frbs - k;
  avbs = r.avbs + k;
  lbyte = mod_size r.size (r.lbyte + k);
}

pub record PutState : Type 0 where
  pub ring : Ring
  pub msg : List ℕ
  pub msg_size : ℕ

-- The loop of mbxput. A round copies at least one byte, so `msg_size` rounds are enough.
pub mbxput_loop : ℕ → PutState → PutState
mbxput_loop zero s = s
mbxput_loop (suc fuel) s = elim (ltb 0 s.msg_size && ltb 0 s.ring.frbs) [
  | true ↦
      let k = tocpy (s.ring.size - s.ring.lbyte) s.msg_size s.ring.frbs in
      mbxput_loop fuel
        (record { ring = put_chunk s.ring s.msg k; msg = drop k s.msg; msg_size = s.msg_size - k })
  | false ↦ s
]

pub mbxput : Ring → List ℕ → ℕ → PutState
mbxput r msg msg_size = mbxput_loop msg_size (record { ring = r; msg = msg; msg_size = msg_size })

-- one round of the loop of mbxget, the copy to the caller aside
pub get_chunk : Ring → ℕ → Ring
get_chunk r k = record r {
  frbs = r.frbs + k;
  avbs = r.avbs - k;
  fbyte = mod_size r.size (r.fbyte + k);
}

pub record GetState : Type 0 where
  pub ring : Ring
  pub out : List ℕ
  pub msg_size : ℕ

-- The loop of mbxget; `out` holds the bytes stored at the caller's buffer so far.
pub mbxget_loop : ℕ → GetState → GetState
mbxget_loop zero s = s
mbxget_loop (suc fuel) s = elim (ltb 0 s.msg_size && ltb 0 s.ring.avbs) [
  | true ↦
      let k = tocpy (s.ring.size - s.ring.fbyte) s.msg_size s.ring.avbs in
      mbxget_loop fuel (record {
        ring = get_chunk s.ring k;
        out = s.out ++ bytes_at s.ring.bufadr s.ring.fbyte k;
        msg_size = s.msg_size - k;
      })
  | false ↦ s
]

pub mbxget : Ring → ℕ → GetState
mbxget r msg_size = mbxget_loop msg_size (record { ring = r; out = []; msg_size = msg_size })

-- The variables of mbxevdrp, which leaves the mailbox as it is.
pub record PeekState : Type 0 where
  pub fbyte : ℕ
  pub avbs : ℕ
  pub out : List ℕ
  pub msg_size : ℕ

-- The loop of mbxevdrp. The copy to user space (`space` is 0) reads from `mbx->fbyte`, the copy
-- in kernel space from the loop's own `fbyte`.
pub mbxevdrp_loop : ℕ → Ring → Bool → PeekState → PeekState
mbxevdrp_loop zero r space s = s
mbxevdrp_loop (suc fuel) r space s = elim (ltb 0 s.msg_size && ltb 0 s.avbs) [
  | true ↦
      let k = tocpy (r.size - s.fbyte) s.msg_size s.avbs in
      mbxevdrp_loop fuel r space (record {
        fbyte = mod_size r.size (s.fbyte + k);
        avbs = s.avbs - k;
        out = s.out ++ bytes_at r.bufadr (if space then s.fbyte else r.fbyte) k;
        msg_size = s.msg_size - k;
      })
  | false ↦ s
]

pub mbxevdrp : Ring → ℕ → Bool → PeekState
mbxevdrp r msg_size space =
    mbxevdrp_loop msg_size r space
      (record { fbyte = r.fbyte; avbs = r.avbs; out = []; msg_size = msg_size })

-- `while ((n = msg_size - mbx->frbs) > 0)`: the oldest bytes are given up, n at least one a round.
pub discard_loop : ℕ → Ring → ℕ → Ring
discard_loop zero r msg_size = r
discard_loop (suc fuel) r msg_size = elim (ltb 0 (msg_size - r.frbs)) [
  | true ↦
      discard_loop fuel (get_chunk r (tocpy (r.size - r.fbyte) (msg_size - r.frbs) r.avbs)) msg_size
  | false ↦ r
]

-- the first `if` of the loop of mbxovrwrput: as a round of mbxput, if there is room
pub ovrwr_chunk : PutState → PutState
ovrwr_chunk s =
    let k = tocpy (s.ring.size - s.ring.lbyte) s.msg_size s.ring.frbs in
    if ltb 0 s.ring.frbs
    then record { ring = put_chunk s.ring s.msg k; msg = drop k s.msg; msg_size = s.msg_size - k }
    else s

-- A round stores a byte or makes room for the next round, so twice `msg_size` rounds and one
-- more are enough.
pub ovrwr_loop : ℕ → PutState → PutState
ovrwr_loop zero s = s
ovrwr_loop (suc fuel) s = elim (ltb 0 s.msg_size) [
  | true ↦
      let t = ovrwr_chunk s in
      ovrwr_loop fuel (
        if ltb 0 t.msg_size
        then record t { ring = discard_loop t.msg_size t.ring t.msg_size }
        else t)
  | false ↦ s
]

-- A message longer than the buffer loses its first bytes at once.
pub mbxovrwrput : Ring → List ℕ → ℕ → PutState
mbxovrwrput r msg msg_size =
    let n = msg_size - r.size in
    ovrwr_loop (2 * (msg_size - n) + 1)
      (record { ring = r; msg = drop n msg; msg_size = msg_size - n })
