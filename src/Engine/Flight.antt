-- ===== src/Engine/Flight.antt =====
-- A thread of fio at work: the requests that it queues by `nvme_queue` and those that it gets back by
-- `nvme_getevents` and `nvme_event` of newperf.c, in any order of the calls.
pub mod Table
pub mod Submitted
pub mod Delivered
pub mod Run
mod Tests
use fioplugin.Prelude.{
  ℕ, zero, suc, ◌+◌, ◌%◌, ◌^◌, ◌≤◌, ◌<◌, ◌≡◌, ◌≢◌, Bool, true, Option, none, some, List, [], ◌∷◌,
  ◌++◌, length, ◌==◌, if◌then◌else◌, ⊤,
}
use fioplugin.Machine.{Log, Platform}
use fioplugin.Nvme.{NvmeData, State}
use fioplugin.Poll.Accept.{AreExpected}
use fioplugin.Poll.Collect.{PollsFrom, head_doorbell}
use fioplugin.Poll.Protocol.{Completion, tag}
use fioplugin.Engine.{
  IoU, Thread, QStatus, queued, busy, invalid, nvme_queue, nvme_getevents, nvme_event,
}
use fioplugin.Engine.Collect.{AnswersTo}

-- The state of the thread, with the requests that were queued and those that came back, both newest
-- first and by their addresses.
pub record Client : Type 0 where
  pub state : State
  pub sent : List ℕ
  pub done : List ℕ

-- A turn: one request, or a wait for completions with a clock that runs out in round `end`.
pub data Turn : Type 0 where
  submit : Thread → IoU → Turn
  collect : (timed_out : ℕ → Bool) → (end min max : ℕ) → Turn

-- The list of the requests after the answer of `nvme_queue`.
unfoldable pub noted : ℕ → QStatus → List ℕ → List ℕ
noted ptr queued sent = ptr ∷ sent
noted ptr busy sent = sent
noted ptr invalid sent = sent

-- What `nvme_event` gives at 0, …, `n - 1`.
unfoldable pub handed : NvmeData → ℕ → List ℕ
handed io zero = []
handed io (suc n) = nvme_event (some io) n ∷ handed io n

-- `none` is the end of the process.
unfoldable pub run_turn : Platform → Turn → Client → Option Client
run_turn p (submit td io_u) w =
    let (s', status) = nvme_queue td io_u w.state in
    some (record { state = s'; sent = noted io_u.ptr status w.sent; done = w.done })
run_turn p (collect timed_out end min max) w =
    elim (nvme_getevents p timed_out (suc end) min max w.state) [
      | none ↦ none
      | some none ↦ none
      | some (some (s', n)) ↦
          some (record { state = s'; sent = w.sent; done = handed s'.io n ++ w.done })
    ]

unfoldable pub run_turns : Platform → List Turn → Client → Option Client
run_turns p [] w = some w
run_turns p (c ∷ cs) w = elim (run_turn p c w) [ none ↦ none | some w' ↦ run_turns p cs w' ]

-- How often a number stands in a list, and how often among the first `n` values of a function.
abbrev pub one_if : (x y : ℕ) → ℕ
one_if x y = if y == x then 1 else 0

abbrev pub count : ℕ → List ℕ → ℕ
count x [] = 0
count x (y ∷ ys) = one_if x y + count x ys

unfoldable pub holds : ℕ → (ℕ → ℕ) → (n : ℕ) → ℕ
holds x f zero = 0
holds x f (suc n) = one_if x (f n) + holds x f n

-- The identifiers of commands.
abbrev pub identifiers : ℕ
identifiers = 65536

module _ (p : Platform) (entry : ℕ → Completion) (posted : Log → ℕ) (fetched : ℕ → ℕ) where
  -- What the controller does while `nvme_getevents` waits: it posts no more completions than up to
  -- `last`, a lap at most, each of them the success of another command that is under way, with a
  -- head of the submission queue that has moved on at most to the end of what was submitted.
  -- `fetched j` is how many entries it had fetched when it had posted `j` completions.
  pub record Serves (w : Client) : Type 0 where
    pub last : ℕ
    pub reached : length w.done ≤ posted w.state.log
    pub bounded :
        (log : Log) → PollsFrom (head_doorbell w.state) w.state.log log → posted log ≤ last
    pub lap : last ≤ length w.done + w.state.io.io_cq_depth
    pub expected : AreExpected entry w.state.io (length w.done) last
    pub sqhd :
        (j : ℕ)
        → length w.done ≤ j
        → j < last
        → (entry j).sqhd ≡ fetched (suc j) % w.state.io.io_sq_depth
    pub onward : (j : ℕ) → length w.done ≤ j → j < last → fetched j ≤ fetched (suc j)
    pub submitted : (j : ℕ) → length w.done ≤ j → j < last → fetched (suc j) ≤ length w.sent

  abbrev pub Allowed : Turn → Client → Type 0
  Allowed (submit td io_u) w = ⊤
  Allowed (collect timed_out end min max) w = (timed_out end ≡ true) × (max < 2 ^ 31) × Serves w

  -- Each call is allowed in the state that the calls before it lead to.
  abbrev pub AllAllowed : List Turn → Client → Type 0
  AllAllowed [] w = ⊤
  AllAllowed (c ∷ cs) w =
      Allowed c w × elim (run_turn p c w) [ none ↦ ⊤ | some w' ↦ AllAllowed cs w' ]

  -- The tail is behind the last submission and the head behind the last entry known to be fetched,
  -- less than the queue apart; the completion queue is read where the next completion comes; and
  -- each request that was queued has come back or is under way under an identifier, as often as it
  -- was queued.
  pub record IsBalanced (w : Client) : Type 0 where
    pub tail : w.state.io.io_sq_tail ≡ length w.sent % w.state.io.io_sq_depth
    pub head : w.state.io.io_sq_head ≡ fetched (length w.done) % w.state.io.io_sq_depth
    pub behind : fetched (length w.done) ≤ length w.sent
    pub not_full : length w.sent < fetched (length w.done) + w.state.io.io_sq_depth
    pub sq_small : w.state.io.io_sq_depth < 2 ^ 32
    pub cq_head : w.state.io.ic_cq_head ≡ length w.done % w.state.io.io_cq_depth
    pub cq_phase : w.state.io.io_cq_pahse ≡ tag w.state.io.io_cq_depth (length w.done)
    pub cq_pos : 0 < w.state.io.io_cq_depth
    pub cq_small : w.state.io.io_cq_depth ≤ 65536
    pub shift : w.state.ctrl.lba_shift < 64
    pub answers : AnswersTo p entry posted w.state
    pub account :
        (x : ℕ) → x ≢ 0 → count x w.sent ≡ count x w.done + holds x w.state.io.cmd_io_u identifiers
