-- ===== src/Poll/Collect/Call.antt =====
-- What one call of `poll_cq` takes, with a limit that may be 0.
use fioplugin.Prelude.{
  ℕ, zero, suc, ◌+◌, ◌%◌, ◌^◌, ◌≤◌, ◌<◌, ◌≡◌, refl, ◌∙◌, arith, ◌∷◌, some, ◌!=◌, if◌then◌else◌,
  Bool-cases, inl, inr,
}
use fioplugin.Machine.{Event, Log, Platform}
use fioplugin.Machine.Reads.{LooksFrom}
use fioplugin.Nvme.{State}
use fioplugin.Poll.{poll_cq}
use fioplugin.Poll.Complete.{poll_cq-Polled}
use fioplugin.Poll.Finish.{Polled}
use fioplugin.Poll.Count.{poll_cq-zero}
use fioplugin.Poll.Protocol.{Completion}
use fioplugin.Poll.Collect.{
  PollsFrom, rung, LooksFrom-PollsFrom, head_doorbell, Answers, Expects, Collected, Collected-none,
}

module _ {p : Platform} {entry : ℕ → Completion} {posted : Log → ℕ} {k last : ℕ} (s : State)
    (answers : Answers p s.io.io_cq_virt_addr s.io.io_cq_depth (head_doorbell s) entry posted)
    (expects : Expects entry posted k last s) where
  rung_if :
      (taken : ℕ) {log log' : Log}
      → LooksFrom s.log log
      → k + taken ≤ posted log
      → log' ≡ (
          if taken != 0
          then Event.reg_store (head_doorbell s) ((k + taken) % s.io.io_cq_depth) ∷ log
          else log)
      → PollsFrom (head_doorbell s) s.log log' × (k + taken ≤ posted log')
  rung_if taken {log} {log'} q r e = elim (Bool-cases (taken != 0)) [
    | inl rings ↦
        let at : log' ≡ Event.reg_store (head_doorbell s) ((k + taken) % s.io.io_cq_depth) ∷ log =
          e ∙ rw rings refl in
        rw at (
          rung _ (LooksFrom-PollsFrom q),
          omega (arith, answers.kept log ((k + taken) % s.io.io_cq_depth)),
        )
    | inr quiet ↦ let at : log' ≡ log = e ∙ rw quiet refl in rw at (LooksFrom-PollsFrom q, r)
  ]

  Polled-Collected :
      {max taken : ℕ} {s' : State}
      → Polled s entry posted k last max taken s'
      → Collected entry posted k last taken s s'
  Polled-Collected {max} {taken} {s'} o =
      let (log, looks, reach, is) = o.doorbell in
      let (polls, reached) = rung_if taken looks reach is in
      record {
        head = o.head;
        phase = o.phase;
        in_posted = o.in_posted;
        reached = reached;
        nr_events = o.nr_events;
        earlier = o.earlier;
        events = o.events;
        cleared = o.cleared;
        others = o.others;
        sq_head = o.sq_head;
        sq_head_kept = o.sq_head_kept;
        rest = o.rest;
        ctrl = o.ctrl;
        polls = polls;
      }

  pub poll_cq-Collected :
      (max : ℕ)
      → 0 < s.io.io_cq_depth
      → s.io.io_cq_depth ≤ 65536
      → max < 2 ^ 31
      → (s' : State) × (taken : ℕ) × (poll_cq p s max ≡ some (s', taken))
        × (taken ≤ max)
        × Collected entry posted k last taken s s'
  poll_cq-Collected zero pos small h = (s, 0, poll_cq-zero p s, omega arith, Collected-none expects)
  poll_cq-Collected (suc m) pos small h =
      let (s', taken, runs, o) =
        poll_cq-Polled s (suc m) answers.posts pos small (omega arith) h expects.head expects.phase
          expects.reached (λ log q. expects.bounded log (LooksFrom-PollsFrom q)) expects.lap
          expects.expected in
      (s', taken, runs, o.in_max, Polled-Collected o)
