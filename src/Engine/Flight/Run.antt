-- ===== src/Engine/Flight/Run.antt =====
-- Any sequence of calls keeps the account, from a queue pair that was just created on.
use native.Mathlib.Nat.{zero-mod, zero-div}
use fioplugin.Prelude.{ℕ, ◌≡◌, ◌≢◌, ◌<◌, ◌+◌, ◌%◌, refl, sym, ◌∙◌, ap, arith, List, [], ◌∷◌, some}
use fioplugin.Machine.{Log, Platform}
use fioplugin.Nvme.{State}
use fioplugin.Poll.Protocol.{Completion}
use fioplugin.QueuePair.{create_io_queue_pair}
use fioplugin.QueuePair.Create.{IsCreated, create_io_queue_pair-IsCreated}
use fioplugin.Engine.Collect.{AnswersTo}
use fioplugin.Engine.Flight.{
  Client, Turn, submit, collect, run_turn, run_turns, holds, identifiers, Allowed, AllAllowed,
  IsBalanced,
}
use fioplugin.Engine.Flight.Table.{holds_beyond, holds_first}
use fioplugin.Engine.Flight.Submitted.{submit-IsBalanced}
use fioplugin.Engine.Flight.Delivered.{collect-IsBalanced}

-- A thread that has a queue pair and has made no request.
abbrev pub fresh : State → Client
fresh s = record { state = s; sent = []; done = [] }

account-fresh :
    (s : State)
    → ((c : ℕ) → s.io.cmd_io_u c ≡ 0)
    → (x : ℕ) → x ≢ 0
    → 0 ≡ 0 + holds x s.io.cmd_io_u identifiers
account-fresh s clear x nz = omega (
  arith,
  holds_beyond x s.io.cmd_io_u 0 identifiers nz (λ i h. clear i) (omega arith),
  holds_first x s.io.cmd_io_u,
)

module _ {p : Platform} {entry : ℕ → Completion} {posted : Log → ℕ} {fetched : ℕ → ℕ} where
  run_turn-IsBalanced :
      (c : Turn) (w : Client)
      → IsBalanced p entry posted fetched w
      → Allowed p entry posted fetched c w
      → (w' : Client) × (run_turn p c w ≡ some w') × IsBalanced p entry posted fetched w'
  run_turn-IsBalanced (submit td io_u) w b a = submit-IsBalanced td io_u w b
  run_turn-IsBalanced (collect timed_out end min max) w b (late, small, v) =
      collect-IsBalanced w b v timed_out end min max late small

  -- For a controller that serves each wait as the protocol says, with clocks that run out and limits
  -- below 2^31: any sequence of requests and waits runs to its end, whatever the requests are, and
  -- keeps the account. In particular a tail never laps an entry that was not fetched, and each
  -- request that was queued has come back or is under way, as often as it was queued.
  pub run_turns-IsBalanced :
      (cs : List Turn) (w : Client)
      → IsBalanced p entry posted fetched w
      → AllAllowed p entry posted fetched cs w
      → (w' : Client) × (run_turns p cs w ≡ some w') × IsBalanced p entry posted fetched w'
  unfolding run_turns
  run_turns-IsBalanced [] w b a = (w, refl, b)
  run_turns-IsBalanced (c ∷ cs) w b (first, later) =
      let (w', runs, b') = run_turn-IsBalanced c w b first in
      let (w'', runs', b'') = run_turns-IsBalanced cs w' b' (rw runs at later) in
      (w'', rw (runs, run_turns) runs', b'')

  fresh-IsBalanced :
      (s : State) {most sq_asked cq_asked : ℕ}
      → IsCreated most sq_asked cq_asked s.io
      → AnswersTo p entry posted s
      → ((c : ℕ) → s.io.cmd_io_u c ≡ 0)
      → s.ctrl.lba_shift < 64
      → fetched 0 ≡ 0
      → IsBalanced p entry posted fetched (fresh s)
  fresh-IsBalanced s c a clear shift none_yet = record {
    tail = c.sq_tail ∙ sym (zero-mod s.io.io_sq_depth);
    head =
        c.sq_head ∙ sym (ap (λ (t : ℕ). t % s.io.io_sq_depth) none_yet ∙ zero-mod s.io.io_sq_depth);
    behind = omega arith;
    not_full = omega (arith, c.sq_depth);
    sq_small = omega (arith, c.sq_depth);
    cq_head = c.cq_head ∙ sym (zero-mod s.io.io_cq_depth);
    cq_phase = c.cq_phase ∙ sym (ap (λ (t : ℕ). (t + 1) % 2) (zero-div s.io.io_cq_depth));
    cq_pos = omega (arith, c.cq_depth);
    cq_small = omega (arith, c.cq_depth);
    shift = shift;
    answers = a;
    account = account-fresh s clear;
  }

  -- A queue pair that `create_io_queue_pair` has just made, for a thread whose table of requests is
  -- clear: the account is balanced, nothing being queued or fetched.
  pub create_io_queue_pair-IsBalanced :
      (s s' : State)
      → create_io_queue_pair p s ≡ (some tt, s')
      → AnswersTo p entry posted s'
      → ((c : ℕ) → s'.io.cmd_io_u c ≡ 0)
      → s'.ctrl.lba_shift < 64
      → fetched 0 ≡ 0
      → IsBalanced p entry posted fetched (fresh s')
  create_io_queue_pair-IsBalanced s s' runs =
      let (cap, reads, made) = create_io_queue_pair-IsCreated p s s' runs in
      fresh-IsBalanced s' made
