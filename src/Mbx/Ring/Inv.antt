-- ===== src/Mbx/Ring/Inv.antt =====
-- The representation invariant of the mailbox buffer.
use rtai.Base.{◌+◌, ◌≤◌, ◌<◌, ◌≡◌, length}
use rtai.Mbx.Ring.{Ring, mod_size}

pub record IsValid (r : Ring) : Type 0 where
  pub storage : r.size ≤ length r.bufadr
  pub first_in : r.fbyte < r.size
  pub last_in : r.lbyte < r.size
  pub filled : r.avbs + r.frbs ≡ r.size
  pub wraps : r.lbyte ≡ mod_size r.size (r.fbyte + r.avbs)
