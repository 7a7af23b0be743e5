-- ===== src/Poll/Complete.antt =====
-- `poll_cq` as a whole, against a controller that follows the protocol.
use native.Mathlib.Nat.{add-zero}
use fioplugin.Prelude.{
  ℕ, ◌+◌, ◌*◌, ◌%◌, ◌^◌, ◌≤◌, ◌<◌, ◌≡◌, refl, sym, ◌∙◌, ap, ap₂, arith, ◌∷◌, ◌==◌, ◌!=◌,
  if◌then◌else◌, false, some, Option, ◌⊎◌, inl, inr, ◌||◌, ltb, leb, min,
}
use fioplugin.Machine.{Event, Log, Platform}
use fioplugin.Machine.Reads.{LooksFrom}
use fioplugin.Nvme.{NvmeData, State}
use fioplugin.Poll.{Scan, scan_loop, scan_start, finish, poll_cq}
use fioplugin.Poll.Accept.{
  accept_run, AreExpected, accept_run-events_below, accept_run-sq_head, accept_run-rest,
  accept_run-fields, accept_run-events, accept_run-cleared, accept_run-others,
}
use fioplugin.Poll.Finish.{
  with_completions, Polled, finish-count, finish-io, finish-sq_head, finish-rest, finish-head,
  finish-log,
}
use fioplugin.Poll.Loop.{Scanned, scan_loop-Scanned}
use fioplugin.Poll.Protocol.{Completion, tag, Posts, At}

module _ (s : State) {entry : ℕ → Completion} {posted : Log → ℕ} {k last left : ℕ}
    (h0 : s.io.ic_cq_head ≡ k % s.io.io_cq_depth) (h1 : s.io.io_cq_pahse ≡ tag s.io.io_cq_depth k)
    (e : AreExpected entry s.io k last) where
  stops_at :
      (max : ℕ) {taken : ℕ}
      → left ≡ min max 65535
      → (taken ≡ left) ⊎ ((log : Log) × LooksFrom s.log log × (posted log ≡ k + taken))
      → (taken ≡ min max 65535) ⊎ ((log : Log) × LooksFrom s.log log × (posted log ≡ k + taken))
  stops_at max q (inl p) = inl (p ∙ q)
  stops_at max q (inr p) = inr p

  finish_heads :
      {out : Option Scan}
      (r : Scanned s.io.io_cq_virt_addr s.io.io_cq_depth entry posted k last left
        (scan_start s)
        out)
      → ((finish s r.after).0.io.ic_cq_head ≡ r.after.head)
        × ((finish s r.after).0.io.io_cq_pahse ≡ r.after.phase_tag)
        × ((finish s r.after).0.io.nr_events ≡ r.after.io.nr_events + r.after.count)
  finish_heads r =
      let at_k = λ (z : r.after.count ≡ 0).
        ap (λ (j : ℕ). k + j) {x = r.taken} {y = 0} (omega (arith, r.count)) ∙ add-zero k in
      finish-head s r.after
        (λ z.
          ap (λ (n : NvmeData). n.ic_cq_head) r.io
          ∙ (accept_run-fields entry r.taken k 0 s.io).4
          ∙ h0
          ∙ ap (λ (j : ℕ). j % s.io.io_cq_depth) (sym (at_k z))
          ∙ sym r.at.head)
        (λ z.
          ap (λ (n : NvmeData). n.io_cq_pahse) r.io
          ∙ (accept_run-fields entry r.taken k 0 s.io).5
          ∙ h1
          ∙ ap (tag s.io.io_cq_depth) (sym (at_k z))
          ∙ sym r.at.phase)

  rung :
      {out : Option Scan}
      (r : Scanned s.io.io_cq_virt_addr s.io.io_cq_depth entry posted k last left
        (scan_start s)
        out)
      → (if r.after.count != 0
          then Event.reg_store (s.ctrl.bar0_virt + s.io.io_cq_head_db) r.after.head ∷ r.after.log
          else r.after.log)
        ≡ (if r.taken != 0
            then Event.reg_store
                (s.ctrl.bar0_virt + s.io.io_cq_head_db)
                ((k + r.taken) % s.io.io_cq_depth)
              ∷ r.after.log
            else r.after.log)
  rung r =
      ap₂
        (λ (c h : ℕ).
          if c != 0
          then Event.reg_store (s.ctrl.bar0_virt + s.io.io_cq_head_db) h ∷ r.after.log
          else r.after.log)
        {x = r.after.count} {y = r.taken} (omega (arith, r.count)) r.at.head

  finished_rest :
      {out : Option Scan}
      (r : Scanned s.io.io_cq_virt_addr s.io.io_cq_depth entry posted k last left
        (scan_start s)
        out)
      → (finish s r.after).0.io ≡ with_completions s.io (finish s r.after).0.io
  finished_rest r =
      let n : NvmeData = (finish s r.after).0.io in
      ap (λ (m : NvmeData). with_completions m n) (finish-rest s r.after)
      ∙ ap (λ (m : NvmeData). with_completions m n) (r.io ∙ accept_run-rest entry r.taken k 0 s.io)

  -- Reading the parts off the reference run.
  finish-Polled :
      {max : ℕ} {out : Option Scan} (limit : left ≡ min max 65535)
      (r : Scanned s.io.io_cq_virt_addr s.io.io_cq_depth entry posted k last left
        (scan_start s)
        out)
      → Polled s entry posted k last max r.taken (finish s r.after).0
  finish-Polled {max} limit r = record {
    in_max = omega (arith, r.in_rounds);
    in_posted = r.in_posted;
    head = (finish_heads r).0 ∙ r.at.head;
    phase = (finish_heads r).1 ∙ r.at.phase;
    nr_events = omega (
      arith,
      (finish_heads r).2,
      r.count,
      (accept_run-fields entry r.taken k 0 s.io).0,
      ap (λ (n : NvmeData). n.nr_events) r.io,
    );
    events = λ j h.
        ap (λ f. f (s.io.nr_events + j)) (finish-io s r.after).0
        ∙ ap (λ (n : NvmeData). n.events (s.io.nr_events + j)) r.io
        ∙ ap (accept_run entry r.taken k 0 s.io).events {x = s.io.nr_events + j}
            {y = s.io.nr_events + 0 + j} (omega arith)
        ∙ accept_run-events entry r.taken k 0 last s.io j e r.in_posted h;
    cleared = λ j h.
        ap (λ f. f (entry (k + j)).cid) (finish-io s r.after).1
        ∙ ap (λ (n : NvmeData). n.cmd_io_u (entry (k + j)).cid) r.io
        ∙ accept_run-cleared entry r.taken k 0 last s.io j e r.in_posted h;
    others = λ x h.
        ap (λ f. f x) (finish-io s r.after).1
        ∙ ap (λ (n : NvmeData). n.cmd_io_u x) r.io
        ∙ accept_run-others entry r.taken k 0 s.io x h;
    earlier = λ x h.
        ap (λ f. f x) (finish-io s r.after).0
        ∙ ap (λ (n : NvmeData). n.events x) r.io
        ∙ accept_run-events_below entry r.taken k 0 s.io x (omega arith);
    sq_head = λ j e.
        finish-sq_head s r.after
        ∙ ap (λ (n : NvmeData). n.io_sq_head) r.io
        ∙ ap (λ (c : ℕ). (accept_run entry c k 0 s.io).io_sq_head) e
        ∙ accept_run-sq_head entry j k 0 s.io;
    sq_head_kept = λ e.
        finish-sq_head s r.after
        ∙ ap (λ (n : NvmeData). n.io_sq_head) r.io
        ∙ ap (λ (c : ℕ). (accept_run entry c k 0 s.io).io_sq_head) e;
    rest = finished_rest r;
    ctrl = (finish-io s r.after).2;
    stops = stops_at max limit r.stops;
    doorbell = (r.after.log, r.looks, r.reached, finish-log s r.after ∙ rung r);
  }

poll_cq-runs :
    (p : Platform) (s : State) (max : ℕ) {t : Scan}
    → 0 < max
    → max < 2 ^ 31
    → scan_loop p s.io.io_cq_virt_addr (min max 65535) (scan_start s) ≡ some t
    → poll_cq p s max ≡ some (finish s t)
unfolding poll_cq
poll_cq-runs p s max h g e =
    let runs : (max == 0 || leb (2 ^ 31) max) ≡ false = ground arith in
    let bound : (if ltb 65535 max then 65535 else max) ≡ min max 65535 = ground arith in
    rw (runs, bound, e)

finish-some :
    (s : State) (t : Scan) {taken : ℕ}
    → t.count ≡ taken
    → some (finish s t) ≡ some ((finish s t).0, taken)
finish-some s t e = ap (λ (c : ℕ). some ((finish s t).0, c)) (finish-count s t ∙ e)

-- For a controller that follows the protocol, a queue of 1 to 65536 entries, a limit from 1 to
-- 2^31 - 1, a state whose head and phase are those of entry `k`, and completions from `k` up to
-- `last`, at most a lap, that belong to commands under way, each to another one, and succeeded:
-- `poll_cq` returns with the completions from `k` on, in the order of the queue, as many as its limit
-- or 65535 allows, or as are posted at some time after the call. It has put the requests into
-- `events` after those that are there, freed their identifiers and no others, taken over the head of
-- the submission queue from the last of them, moved the head and the phase and rung the doorbell of
-- the head, unless there was none, and changed nothing else of the data.
pub poll_cq-Polled :
    {p : Platform} (s : State) (max : ℕ) {entry : ℕ → Completion} {posted : Log → ℕ} {k last : ℕ}
    → Posts p s.io.io_cq_virt_addr s.io.io_cq_depth entry posted
    → 0 < s.io.io_cq_depth
    → s.io.io_cq_depth ≤ 65536
    → 0 < max
    → max < 2 ^ 31
    → s.io.ic_cq_head ≡ k % s.io.io_cq_depth
    → s.io.io_cq_pahse ≡ tag s.io.io_cq_depth k
    → k ≤ posted s.log
    → ((log : Log) → LooksFrom s.log log → posted log ≤ last)
    → last ≤ k + s.io.io_cq_depth
    → AreExpected entry s.io k last
    → (s' : State) × (taken : ℕ) × (poll_cq p s max ≡ some (s', taken))
      × Polled s entry posted k last max taken s'
poll_cq-Polled {p} s max {entry} {posted} {k} {last} device pos small h g h0 h1 reach room b e =
    let start : At s.io.io_cq_virt_addr s.io.io_cq_depth k (scan_start s) = record {
      head = h0;
      cqe = omega (arith, ap (λ (x : ℕ). 16 * x) h0);
      phase = h1;
      depth_is = refl;
    } in
    let r =
      scan_loop-Scanned device pos (omega arith) (min max 65535) start (omega arith) reach room b
        e in
    (
      (finish s r.after).0,
      r.taken,
      poll_cq-runs p s max h g r.ends ∙ finish-some s r.after (omega (arith, r.count)),
      finish-Polled s h0 h1 e refl r,
    )
