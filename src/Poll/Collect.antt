-- ===== src/Poll/Collect.antt =====
-- Several calls of `poll_cq`, one after the other: what they have taken together.
pub mod Compose
pub mod Call
use mathlib.Core.Path.{subst}
use native.Mathlib.Nat.{add-zero, add_assoc}
use native.Mathlib.Decide.{dec_lt}
use fioplugin.Prelude.{
  ℕ, zero, suc, ◌+◌, ◌-◌, ◌%◌, ◌^◌, ◌≤◌, ◌<◌, ◌≡◌, ◌≢◌, refl, sym, ◌∙◌, ap, ap₂, arith, ◌∷◌, some,
  Option, ◌!=◌, if◌then◌else◌, true, false, Bool-cases, inl, inr,
}
use fioplugin.Machine.{Event, Log, Platform}
use fioplugin.Machine.Reads.{LooksFrom}
use fioplugin.Nvme.{Controller, NvmeData, State}
use fioplugin.Poll.{poll_cq}
use fioplugin.Poll.Accept.{AreExpected}
use fioplugin.Poll.Complete.{poll_cq-Polled}
use fioplugin.Poll.Finish.{Polled, with_completions}
use fioplugin.Poll.Count.{poll_cq-zero}
use fioplugin.Poll.Protocol.{Completion, Posts, tag}

-- The second log is the first after some reads and some stores to the head doorbell.
pub data PollsFrom (doorbell : ℕ) (log : Log) : Log → Type 0 where
  here : PollsFrom doorbell log log
  looked :
      {log' : Log} (w a : ℕ)
      → PollsFrom doorbell log log'
      → PollsFrom doorbell log (Event.look w a ∷ log')
  rung :
      {log' : Log} (v : ℕ)
      → PollsFrom doorbell log log'
      → PollsFrom doorbell log (Event.reg_store doorbell v ∷ log')

pub PollsFrom-trans :
    {db : ℕ} {a b c : Log} → PollsFrom db a b → PollsFrom db b c → PollsFrom db a c
PollsFrom-trans r here = r
PollsFrom-trans r (looked w a q) = looked w a (PollsFrom-trans r q)
PollsFrom-trans r (rung v q) = rung v (PollsFrom-trans r q)

pub LooksFrom-PollsFrom : {db : ℕ} {a b : Log} → LooksFrom a b → PollsFrom db a b
LooksFrom-PollsFrom LooksFrom.here = here
LooksFrom-PollsFrom (LooksFrom.next w a q) = looked w a (LooksFrom-PollsFrom q)

-- The register behind the head doorbell of a queue.
abbrev pub head_doorbell : State → ℕ
head_doorbell s = s.ctrl.bar0_virt + s.io.io_cq_head_db

-- The controller posts as `Posts` says, and takes back nothing when the head doorbell rings.
pub record Answers (p : Platform) (base depth doorbell : ℕ) (entry : ℕ → Completion)
    (posted : Log → ℕ) : Type 0 where
  pub posts : Posts p base depth entry posted
  pub kept : (log : Log) (v : ℕ) → posted log ≤ posted (Event.reg_store doorbell v ∷ log)

-- The thread is about to look at completion `k`; while it only polls, none is posted from `last` on,
-- which is a lap at most, and those before `last` are the ones of commands under way.
pub record Expects (entry : ℕ → Completion) (posted : Log → ℕ) (k last : ℕ) (s : State)
    : Type 0 where
  pub head : s.io.ic_cq_head ≡ k % s.io.io_cq_depth
  pub phase : s.io.io_cq_pahse ≡ tag s.io.io_cq_depth k
  pub reached : k ≤ posted s.log
  pub bounded : (log : Log) → PollsFrom (head_doorbell s) s.log log → posted log ≤ last
  pub lap : last ≤ k + s.io.io_cq_depth
  pub expected : AreExpected entry s.io k last

-- From `s` to `s'`, completions `k`, …, `k + n - 1` were taken, and nothing else was done.
pub record Collected (entry : ℕ → Completion) (posted : Log → ℕ) (k last n : ℕ) (s s' : State)
    : Type 0 where
  pub head : s'.io.ic_cq_head ≡ (k + n) % s.io.io_cq_depth
  pub phase : s'.io.io_cq_pahse ≡ tag s.io.io_cq_depth (k + n)
  pub in_posted : k + n ≤ last
  pub reached : k + n ≤ posted s'.log
  pub nr_events : s'.io.nr_events ≡ s.io.nr_events + n
  pub earlier : (x : ℕ) → x < s.io.nr_events → s'.io.events x ≡ s.io.events x
  pub events :
      (j : ℕ) → j < n → s'.io.events (s.io.nr_events + j) ≡ s.io.cmd_io_u (entry (k + j)).cid
  pub cleared : (j : ℕ) → j < n → s'.io.cmd_io_u (entry (k + j)).cid ≡ 0
  pub others :
      (x : ℕ)
      → ((j : ℕ) → k ≤ j → j < k + n → (entry j).cid ≢ x)
      → s'.io.cmd_io_u x ≡ s.io.cmd_io_u x
  pub sq_head : (j : ℕ) → n ≡ suc j → s'.io.io_sq_head ≡ (entry (k + j)).sqhd
  pub sq_head_kept : n ≡ 0 → s'.io.io_sq_head ≡ s.io.io_sq_head
  pub rest : s'.io ≡ with_completions s.io s'.io
  pub ctrl : s'.ctrl ≡ s.ctrl
  pub polls : PollsFrom (head_doorbell s) s.log s'.log

module _ {entry : ℕ → Completion} {posted : Log → ℕ} {last : ℕ} where
  module _ {k n : ℕ} {s s' : State} (c : Collected entry posted k last n s s') where
    pub Collected-depth : s'.io.io_cq_depth ≡ s.io.io_cq_depth
    Collected-depth = ap (λ (m : NvmeData). m.io_cq_depth) c.rest

    pub Collected-base : s'.io.io_cq_virt_addr ≡ s.io.io_cq_virt_addr
    Collected-base = ap (λ (m : NvmeData). m.io_cq_virt_addr) c.rest

    pub Collected-doorbell : head_doorbell s' ≡ head_doorbell s
    Collected-doorbell =
        ap₂ (λ (r : Controller) (m : NvmeData). r.bar0_virt + m.io_cq_head_db) c.ctrl c.rest

    -- A later completion is of a command that is still under way.
    pub Collected-later :
        (j : ℕ)
        → AreExpected entry s.io k last
        → k + n ≤ j
        → j < last
        → s'.io.cmd_io_u (entry j).cid ≡ s.io.cmd_io_u (entry j).cid
    Collected-later j e h g = c.others (entry j).cid (λ i a b. e.distinct i j a (omega arith) g)

    pub Collected-Expects : Expects entry posted k last s → Expects entry posted (k + n) last s'
    Collected-Expects e = record {
      head = c.head ∙ ap (λ (d : ℕ). (k + n) % d) (sym Collected-depth);
      phase = c.phase ∙ ap (λ (d : ℕ). tag d (k + n)) (sym Collected-depth);
      reached = c.reached;
      bounded = λ log q. e.bounded log (
          PollsFrom-trans c.polls
            (subst (λ (db : ℕ). PollsFrom db s'.log log) Collected-doorbell q));
      lap = omega (arith, e.lap, Collected-depth);
      expected = record {
        success = λ j a b. e.expected.success j (omega arith) b;
        known = λ j a b z.
            e.expected.known j (omega arith) b (sym (Collected-later j e.expected a b) ∙ z);
        distinct = λ i j a b g. e.expected.distinct i j (omega arith) b g;
      };
    }

  pub Collected-none :
      {k : ℕ} {s : State} → Expects entry posted k last s → Collected entry posted k last 0 s s
  Collected-none {k} {s} e = record {
    head = e.head ∙ ap (λ (j : ℕ). j % s.io.io_cq_depth) (sym (add-zero k));
    phase = e.phase ∙ ap (tag s.io.io_cq_depth) (sym (add-zero k));
    in_posted = omega (arith, e.reached, e.bounded s.log here);
    reached = omega (arith, e.reached);
    nr_events = omega arith;
    earlier = λ x h. refl;
    events = λ j h. absurd (omega arith);
    cleared = λ j h. absurd (omega arith);
    others = λ x h. refl;
    sq_head = λ j h. absurd (omega arith);
    sq_head_kept = λ h. refl;
    rest = refl;
    ctrl = refl;
    polls = here;
  }
