-- ===== src/Mbx/Ring/PeekUser.antt =====
-- mbxevdrp on contents that go round the end of the buffer.
use rtai.Base.{
  ℕ, zero, suc, ◌+◌, ◌-◌, ◌<◌, min, ◌≡◌, refl, ap, ◌∙◌, [], ◌++◌, arith, Bool, true, false, ltb,
  ◌&&◌, ◌⊎◌, if◌then◌else◌,
}
use rtai.Mbx.Ring.{Ring, PeekState, bytes_at, tocpy, mod_size, mbxevdrp_loop, mbxevdrp}
use rtai.Mbx.Ring.Inv.{IsValid}

mbxevdrp_loop_stops :
    (fuel : ℕ) (r : Ring) (space : Bool) (s : PeekState)
    → (s.msg_size ≡ 0) ⊎ (s.avbs ≡ 0)
    → mbxevdrp_loop fuel r space s ≡ s
unfolding mbxevdrp_loop
mbxevdrp_loop_stops zero r space s h = refl
mbxevdrp_loop_stops (suc fuel) r space s h =
    let e : (ltb 0 s.msg_size && ltb 0 s.avbs) ≡ false = ground arith in rw (e, mbxevdrp_loop)

-- One round that copies k bytes.
peek_round : Ring → Bool → PeekState → ℕ → PeekState
peek_round r space s k = record {
  fbyte = mod_size r.size (s.fbyte + k);
  avbs = s.avbs - k;
  out = s.out ++ bytes_at r.bufadr (if space then s.fbyte else r.fbyte) k;
  msg_size = s.msg_size - k;
}

mbxevdrp_loop_step :
    (fuel : ℕ) (r : Ring) (space : Bool) (s : PeekState) (k : ℕ)
    → 0 < s.msg_size
    → 0 < s.avbs
    → tocpy (r.size - s.fbyte) s.msg_size s.avbs ≡ k
    → mbxevdrp_loop (suc fuel) r space s ≡ mbxevdrp_loop fuel r space (peek_round r space s k)
unfolding mbxevdrp_loop peek_round
mbxevdrp_loop_step fuel r space s k p q e =
    let more : (ltb 0 s.msg_size && ltb 0 s.avbs) ≡ true = ground arith in
    rw (more, mbxevdrp_loop) (ap (λ j. mbxevdrp_loop fuel r space (peek_round r space s j)) e)

first_round :
    (r : Ring) (space : Bool) (n : ℕ)
    → r.fbyte < r.size
    → peek_round r space
        (record { fbyte = r.fbyte; avbs = r.avbs; out = []; msg_size = n })
        (r.size - r.fbyte)
      ≡ record {
        fbyte = 0;
        avbs = r.avbs - (r.size - r.fbyte);
        out = bytes_at r.bufadr r.fbyte (r.size - r.fbyte);
        msg_size = n - (r.size - r.fbyte);
      }
unfolding peek_round
first_round r true n h = ground arith
first_round r false n h = ground arith

left_over :
    (n avbs room : ℕ)
    → (n - room - (min n avbs - room) ≡ 0) ⊎ (avbs - room - (min n avbs - room) ≡ 0)
left_over n avbs room = omega arith

-- Where more is asked for and there than stands before the end of the buffer, mbxevdrp copies the
-- bytes up to the end, and then: in kernel space the bytes from the start of the buffer, to user
-- space once more the bytes from `mbx->fbyte` on, whatever the buffer holds.
pub mbxevdrp_wrapped :
    (r : Ring) (n : ℕ) (space : Bool)
    → IsValid r
    → r.size - r.fbyte < n
    → r.size - r.fbyte < r.avbs
    → (mbxevdrp r n space).out
      ≡ bytes_at r.bufadr r.fbyte (r.size - r.fbyte)
        ++ bytes_at r.bufadr (if space then 0 else r.fbyte) (min n r.avbs - (r.size - r.fbyte))
unfolding mbxevdrp peek_round
mbxevdrp_wrapped r zero space v h k = absurd (omega arith)
mbxevdrp_wrapped r (suc zero) space v h k = absurd (omega arith)
mbxevdrp_wrapped r (suc (suc m)) space v h k =
    let room = r.size - r.fbyte in
    let n : ℕ = suc (suc m) in
    let j = min n r.avbs - room in
    let s : PeekState = record { fbyte = r.fbyte; avbs = r.avbs; out = []; msg_size = n } in
    let t : PeekState = record {
      fbyte = 0;
      avbs = r.avbs - room;
      out = bytes_at r.bufadr r.fbyte room;
      msg_size = n - room;
    } in
    ap (λ u. u.out)
      (mbxevdrp_loop_step (suc m) r space s room (omega arith) (omega arith) (ground arith)
        ∙ ap (mbxevdrp_loop (suc m) r space) (first_round r space n (omega arith))
        ∙ mbxevdrp_loop_step m r space t j (omega arith) (omega arith) (ground arith)
        ∙ mbxevdrp_loop_stops m r space (peek_round r space t j) (left_over n r.avbs room))
