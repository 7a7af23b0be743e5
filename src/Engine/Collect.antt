-- ===== src/Engine/Collect.antt =====
-- What `nvme_getevents` delivers, against a controller that follows the protocol.
use fioplugin.Prelude.{
  ℕ, zero, suc, ◌+◌, ◌-◌, ◌^◌, ◌≤◌, ◌<◌, ◌≡◌, refl, arith, Bool, true, false, Option, some,
  Bool-cases, inl, inr, ◌||◌,
}
use fioplugin.Prelude.Word.{u32}
use fioplugin.Machine.{Log, Platform}
use fioplugin.Nvme.{State}
use fioplugin.Poll.Collect.{
  head_doorbell, Answers, Expects, Collected, Collected-depth, Collected-base, Collected-doorbell,
  Collected-Expects, Collected-none,
}
use fioplugin.Poll.Collect.Compose.{Collected-trans}
use fioplugin.Poll.Collect.Call.{poll_cq-Collected}
use fioplugin.Poll.Protocol.{Completion}
use fioplugin.Engine.{enough_events, getevents_loop, nvme_getevents}
use fioplugin.Engine.Rounds.{Stops, getevents_loop-Stops, restarted}

abbrev pub AnswersTo : Platform → (ℕ → Completion) → (Log → ℕ) → State → Type 0
AnswersTo p entry posted s =
    Answers p s.io.io_cq_virt_addr s.io.io_cq_depth (head_doorbell s) entry posted

-- The loop returned with `count` completions, no more than `max`.
record Reached (max : ℕ) (entry : ℕ → Completion) (posted : Log → ℕ) (k last : ℕ) (s : State)
    (out : Option (Option (State × ℕ))) : Type 0 where
  count : ℕ
  after : State
  returns : out ≡ some (some (after, count))
  in_max : count ≤ max
  collected : Collected entry posted k last count s after

-- The call returned with `count` completions, no more than `max`, when it had to stop.
pub record Gathered (p : Platform) (timed_out : ℕ → Bool) (min max : ℕ) (entry : ℕ → Completion)
    (posted : Log → ℕ) (k last : ℕ) (s : State) (out : Option (Option (State × ℕ))) : Type 0 where
  pub count : ℕ
  pub after : State
  pub returns : out ≡ some (some (after, count))
  pub in_max : count ≤ max
  pub stops : Stops p timed_out min max 0 0 s after count
  pub collected : Collected entry posted k last count s after

restarted-Expects :
    {entry : ℕ → Completion} {posted : Log → ℕ} {k last : ℕ} {s : State}
    → Expects entry posted k last s
    → Expects entry posted k last (restarted s)
restarted-Expects e = record {
  head = e.head;
  phase = e.phase;
  reached = e.reached;
  bounded = e.bounded;
  lap = e.lap;
  expected = record {
    success = e.expected.success;
    known = e.expected.known;
    distinct = e.expected.distinct;
  };
}

module _ {p : Platform} {entry : ℕ → Completion} {posted : Log → ℕ} {last : ℕ}
    (timed_out : ℕ → Bool) (min max : ℕ) (small : max < 2 ^ 31) (end k : ℕ) (s0 : State)
    (answers : AnswersTo p entry posted s0) (expects : Expects entry posted k last s0)
    (pos : 0 < s0.io.io_cq_depth) (depth_small : s0.io.io_cq_depth ≤ 65536)
    (late : timed_out end ≡ true) where
  still-AnswersTo :
      {n : ℕ} {s : State} → Collected entry posted k last n s0 s → AnswersTo p entry posted s
  still-AnswersTo c = rw (Collected-base c, Collected-depth c, Collected-doorbell c) answers

  gathers :
      (fuel i c : ℕ) (s : State)
      → c ≤ max
      → i + fuel ≡ suc end
      → (i ≡ suc end → timed_out end ≡ false)
      → Collected entry posted k last c s0 s
      → Reached max entry posted k last s0 (getevents_loop p timed_out fuel min max i c s)
  unfolding getevents_loop enough_events
  gathers zero i c s h f g d = let never : timed_out end ≡ false = g (omega arith) in cc
  gathers (suc fuel) i c s h f g d =
      let (s', taken, runs, within, d') =
        poll_cq-Collected s (still-AnswersTo d) (Collected-Expects d expects)
          (u32 (max + 2 ^ 32 - c)) (omega (arith, Collected-depth d))
          (omega (arith, Collected-depth d)) (omega arith) in
      let both = Collected-trans expects.expected d d' in
      let in_max : c + taken ≤ max = omega arith in
      elim (Bool-cases (enough_events min (c + taken) || timed_out i)) [
        | inl stop ↦
            rw (runs, getevents_loop, stop)
              (record {
                count = c + taken;
                after = s';
                returns = refl;
                in_max = in_max;
                collected = both;
              })
        | inr again ↦
            rw (runs, getevents_loop, again)
              (gathers fuel (i + 1) (c + taken) s' in_max (omega arith) (λ e. ground arith) both)
      ]

-- For a controller that follows the protocol, a completion queue of 1 to 65536 entries, a limit below
-- 2^31, a clock that runs out in round `end`, and a state that expects the completions from `k` on:
-- `nvme_getevents` returns within `end + 1` rounds. Its events, at most `max`, are the requests of the
-- next completions, in the order of the queue, from `events[0]` on; their identifiers and no others
-- are free, the head, the phase and the head of the submission queue are those after the last of them,
-- and nothing else of the data has changed. They are what its polls took up to the first round in
-- which there were at least `min`, `min` being an `int`, or the clock ran out.
pub nvme_getevents-Gathered :
    {p : Platform} {entry : ℕ → Completion} {posted : Log → ℕ} {last : ℕ} (timed_out : ℕ → Bool)
    (min max end k : ℕ) (s : State)
    → AnswersTo p entry posted s
    → Expects entry posted k last s
    → 0 < s.io.io_cq_depth
    → s.io.io_cq_depth ≤ 65536
    → max < 2 ^ 31
    → timed_out end ≡ true
    → Gathered p timed_out min max entry posted k last
        (restarted s)
        (nvme_getevents p timed_out (suc end) min max s)
unfolding nvme_getevents
nvme_getevents-Gathered {p} timed_out min max end k s answers expects pos small limit late =
    let r =
      gathers timed_out min max limit end k (restarted s) answers (restarted-Expects expects) pos
        small late (suc end) 0 0 (restarted s) (omega arith) (omega arith)
        (λ z. absurd (omega arith)) (Collected-none (restarted-Expects expects)) in
    record {
      count = r.count;
      after = r.after;
      returns = r.returns;
      in_max = r.in_max;
      stops =
          getevents_loop-Stops p timed_out min max (suc end) 0 0 (restarted s) r.after r.count
            r.returns;
      collected = r.collected;
    }
