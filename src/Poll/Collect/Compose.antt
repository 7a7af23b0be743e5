-- ===== src/Poll/Collect/Compose.antt =====
-- Completions that are taken in two steps.
use mathlib.Core.Path.{subst}
use native.Mathlib.Decide.{dec_lt}
use fioplugin.Prelude.{ℕ, suc, ◌+◌, ◌-◌, ◌%◌, ◌≤◌, ◌<◌, ◌≡◌, sym, ◌∙◌, ap, ap₂, arith}
use fioplugin.Machine.{Log}
use fioplugin.Nvme.{NvmeData, State}
use fioplugin.Poll.Accept.{AreExpected}
use fioplugin.Poll.Finish.{with_completions}
use fioplugin.Poll.Protocol.{Completion, tag}
use fioplugin.Poll.Collect.{
  PollsFrom, PollsFrom-trans, Collected, Collected-depth, Collected-doorbell, Collected-later,
}

module _ {entry : ℕ → Completion} {posted : Log → ℕ} {last k a b : ℕ} {s t u : State}
    (e : AreExpected entry s.io k last) (c : Collected entry posted k last a s t)
    (d : Collected entry posted (k + a) last b t u) where
  moved : (j : ℕ) → a ≤ j → k + j ≡ k + a + (j - a)
  moved j h = omega arith

  trans-events :
      (j : ℕ) → j < a + b → u.io.events (s.io.nr_events + j) ≡ s.io.cmd_io_u (entry (k + j)).cid
  trans-events j h = elim (dec_lt j a) [
    | yes first ↦ d.earlier (s.io.nr_events + j) (omega (arith, c.nr_events)) ∙ c.events j first
    | no second ↦
        ap u.io.events {x = s.io.nr_events + j} {y = t.io.nr_events + (j - a)}
          (omega (arith, c.nr_events))
        ∙ d.events (j - a) (omega arith)
        ∙ ap (λ (i : ℕ). t.io.cmd_io_u (entry i).cid) (sym (moved j (omega arith)))
        ∙ Collected-later c (k + j) e (omega arith) (omega (arith, d.in_posted))
  ]

  trans-cleared : (j : ℕ) → j < a + b → u.io.cmd_io_u (entry (k + j)).cid ≡ 0
  trans-cleared j h = elim (dec_lt j a) [
    | yes first ↦
        d.others (entry (k + j)).cid (λ i p q same.
          e.distinct (k + j) i (omega arith) (omega arith) (omega (arith, d.in_posted)) (sym same))
        ∙ c.cleared j first
    | no second ↦
        ap (λ (i : ℕ). u.io.cmd_io_u (entry i).cid) (moved j (omega arith))
        ∙ d.cleared (j - a) (omega arith)
  ]

  trans-sq_head : (j : ℕ) → a + b ≡ suc j → u.io.io_sq_head ≡ (entry (k + j)).sqhd
  trans-sq_head j h = elim (dec_lt 0 b) [
    | yes some_more ↦
        d.sq_head (b - 1) (omega arith)
        ∙ ap (λ (i : ℕ). (entry i).sqhd) {x = k + a + (b - 1)} {y = k + j} (omega arith)
    | no no_more ↦ d.sq_head_kept (omega arith) ∙ c.sq_head j (omega arith)
  ]

  pub Collected-trans : Collected entry posted k last (a + b) s u
  Collected-trans = record {
    head =
        d.head
        ∙ ap₂ (λ (i j : ℕ). i % j) {x = k + a + b} {y = k + (a + b)} (omega arith)
            (Collected-depth c);
    phase =
        d.phase
        ∙ ap₂ (λ (i j : ℕ). tag j i) {x = k + a + b} {y = k + (a + b)} (omega arith)
            (Collected-depth c);
    in_posted = omega (arith, d.in_posted);
    reached = omega (arith, d.reached);
    nr_events = omega (arith, c.nr_events, d.nr_events);
    earlier = λ x h. d.earlier x (omega (arith, c.nr_events)) ∙ c.earlier x h;
    events = trans-events;
    cleared = trans-cleared;
    others = λ x h.
        d.others x (λ j p q. h j (omega arith) (omega arith))
        ∙ c.others x (λ j p q. h j p (omega arith));
    sq_head = trans-sq_head;
    sq_head_kept = λ h. d.sq_head_kept (omega arith) ∙ c.sq_head_kept (omega arith);
    rest = d.rest ∙ ap (λ (n : NvmeData). with_completions n u.io) c.rest;
    ctrl = d.ctrl ∙ c.ctrl;
    polls =
        PollsFrom-trans c.polls
          (subst (λ (db : ℕ). PollsFrom db t.log u.log) (Collected-doorbell c) d.polls);
  }
