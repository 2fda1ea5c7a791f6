-- ===== src/Fifos/Drain.antt =====
-- src/ipc/fifos/fifos.c: rtf_sysrq_handler, which runs in Linux. `asleep` is whether a process is in
-- TASK_INTERRUPTIBLE, and is taken to stay so: a process that is pending twice is listed in `woken`
-- twice, where the source finds it awake the second time and leaves it.
pub mod Woken
use rtai.Base.{ℕ, zero, suc, ◌==◌, [], ◌++◌, Bool, true, false, ◌||◌, if◌then◌else◌, ◌∷◌}
use rtai.Fifos.State.{Fifos, set_fifo, head_of, advance, maxreqs}

module _ (asleep : ℕ → Bool) where
  -- The first loop of the handler. At most MAXREQS rounds are to be done.
  pub wake_loop : ℕ → Fifos → Fifos
  wake_loop zero s = s
  wake_loop (suc fuel) s = elim (s.taskq.out_at == s.taskq.in_at) [
    | true ↦ s
    | false ↦
        let t = head_of s.taskq in
        wake_loop fuel (record s {
          woken = if asleep t then s.woken ++ (t ∷ []) else s.woken;
          taskq = advance s.taskq;
        })
  ]

-- The second loop of the handler.
pub poll_loop : ℕ → Fifos → Fifos
poll_loop zero s = s
poll_loop (suc fuel) s = elim (s.pol_asyn_q.out_at == s.pol_asyn_q.in_at) [
  | true ↦ s
  | false ↦
      let i = head_of s.pol_asyn_q in
      let x = s.fifo i in
      poll_loop fuel (record (set_fifo i (record x { pol_asyn_pended = false }) s) {
        polled = if x.pollq || x.asynq then s.polled ++ (i ∷ []) else s.polled;
        pol_asyn_q = advance s.pol_asyn_q;
      })
]

pub rtf_sysrq_handler : (ℕ → Bool) → Fifos → Fifos
rtf_sysrq_handler asleep s = poll_loop maxreqs (wake_loop asleep maxreqs s)
