-- ===== src/Engine/Flight/Delivered.antt =====
-- `nvme_getevents` keeps the account.
use native.Mathlib.Nat.{add-zero}
use fioplugin.Prelude.{
  ℕ, zero, suc, ◌+◌, ◌-◌, ◌%◌, ◌^◌, ◌≤◌, ◌<◌, ◌≡◌, ◌≢◌, refl, sym, ◌∙◌, ap, ap₂, arith, ◌++◌,
  length, length-append, some, Bool, true, false, leb,
}
use fioplugin.Machine.{Log, Platform}
use fioplugin.Nvme.{NvmeData, State}
use fioplugin.Poll.Collect.{Expects, Collected, Collected-depth, Collected-base, Collected-doorbell}
use fioplugin.Poll.Protocol.{Completion, tag}
use fioplugin.Engine.{nvme_event}
use fioplugin.Engine.Rounds.{restarted}
use fioplugin.Engine.Collect.{nvme_getevents-Gathered}
use fioplugin.Engine.Flight.{
  Client, collect, handed, run_turn, count, holds, identifiers, Serves, IsBalanced,
}
use fioplugin.Engine.Flight.Table.{count-append, total, holds-cleared}

pub length-handed : (n : NvmeData) (c : ℕ) → length (handed n c) ≡ c
unfolding handed
length-handed n zero = refl
length-handed n (suc c) = ap suc (length-handed n c)

-- `nvme_event` gives the requests of the completions.
count-handed :
    (x : ℕ) (n : NvmeData) (f place : ℕ → ℕ) (c : ℕ)
    → c ≤ n.nr_events
    → ((j : ℕ) → j < c → n.events j ≡ f (place j))
    → count x (handed n c) ≡ total x f place c
unfolding handed nvme_event
count-handed x n f place zero h e = refl
count-handed x n f place (suc c) h e =
    let inside : leb n.nr_events c ≡ false = ground arith in
    rw (inside, e c (omega arith))
      (omega (arith, count-handed x n f place c (omega arith) (λ j g. e j (omega arith))))

module _ {p : Platform} {entry : ℕ → Completion} {posted : Log → ℕ} {fetched : ℕ → ℕ} (w : Client)
    (b : IsBalanced p entry posted fetched w) (v : Serves p entry posted fetched w) where
  serves-Expects : Expects entry posted (length w.done) v.last w.state
  serves-Expects = record {
    head = b.cq_head;
    phase = b.cq_phase;
    reached = v.reached;
    bounded = v.bounded;
    lap = v.lap;
    expected = v.expected;
  }

  -- The entries that the controller has fetched grow with the completions.
  fetched-le :
      (n : ℕ) → length w.done + n ≤ v.last → fetched (length w.done) ≤ fetched (length w.done + n)
  fetched-le zero h = omega (arith, ap fetched (add-zero (length w.done)))
  fetched-le (suc n) h = omega (
    arith,
    fetched-le n (omega arith),
    v.onward (length w.done + n) (omega arith) (omega arith),
    ap fetched {x = suc (length w.done + n)} {y = length w.done + suc n} (omega arith),
  )

  fetched-le-sent :
      (n : ℕ) → length w.done + n ≤ v.last → fetched (length w.done + n) ≤ length w.sent
  fetched-le-sent zero h = omega (arith, b.behind, ap fetched (add-zero (length w.done)))
  fetched-le-sent (suc n) h = omega (
    arith,
    v.submitted (length w.done + n) (omega arith) (omega arith),
    ap fetched {x = suc (length w.done + n)} {y = length w.done + suc n} (omega arith),
  )

  module _ {n : ℕ} {s : State}
      (c : Collected entry posted (length w.done) v.last n (restarted w.state) s) where
    place : ℕ → ℕ
    place j = (entry (length w.done + j)).cid

    place-lt : (j : ℕ) → j < n → place j < identifiers
    unfolding place
    place-lt j h = omega (
      arith,
      b.answers.posts.cid s.log (length w.done + j) (omega (arith, c.reached))
          (omega (arith, v.lap, v.bounded s.log c.polls)),
    )

    place-other :
        (x : ℕ)
        → ((j : ℕ) → j < n → place j ≢ x)
        → (j : ℕ) → length w.done ≤ j
        → j < length w.done + n
        → (entry j).cid ≢ x
    unfolding place
    place-other x h j a g e = h (j - length w.done) (omega arith) (
        ap (λ (i : ℕ). (entry i).cid) {x = length w.done + (j - length w.done)} {y = j}
          (omega arith)
        ∙ e)

    account-collected :
        (x : ℕ)
        → x ≢ 0
        → count x w.sent ≡ count x (handed s.io n ++ w.done) + holds x s.io.cmd_io_u identifiers
    unfolding place
    account-collected x nz = omega (
      arith,
      b.account x nz,
      count-append x (handed s.io n) w.done,
      count-handed x s.io w.state.io.cmd_io_u place n (omega (arith, c.nr_events))
          (λ j h. ap s.io.events {x = j} {y = 0 + j} (omega arith) ∙ c.events j h),
      holds-cleared x w.state.io.cmd_io_u s.io.cmd_io_u place identifiers n nz place-lt
          (λ i j a h.
            v.expected.distinct (length w.done + i) (length w.done + j) (omega arith) (omega arith)
              (omega (arith, c.in_posted)))
          c.cleared (λ x h. c.others x (place-other x h)),
    )

    head-collected :
        (m : ℕ) → n ≡ m → s.io.io_sq_head ≡ fetched (length w.done + m) % w.state.io.io_sq_depth
    head-collected zero e =
        c.sq_head_kept e
        ∙ b.head
        ∙ ap (λ (i : ℕ). fetched i % w.state.io.io_sq_depth) (sym (add-zero (length w.done)))
    head-collected (suc m) e =
        c.sq_head m e
        ∙ v.sqhd (length w.done + m) (omega arith) (omega (arith, c.in_posted))
        ∙ ap (λ (i : ℕ). fetched i % w.state.io.io_sq_depth) {x = suc (length w.done + m)}
            {y = length w.done + suc m} (omega arith)

    collected-IsBalanced :
        IsBalanced p entry posted fetched
          (record { state = s; sent = w.sent; done = handed s.io n ++ w.done })
    collected-IsBalanced =
        let sq_depth : s.io.io_sq_depth ≡ w.state.io.io_sq_depth =
          ap (λ (m : NvmeData). m.io_sq_depth) c.rest in
        let cq_depth : s.io.io_cq_depth ≡ w.state.io.io_cq_depth = Collected-depth c in
        let length_done : length (handed s.io n ++ w.done) ≡ length w.done + n =
          omega (arith, length-append {0} (handed s.io n) w.done, length-handed s.io n) in
        record {
          tail =
              ap (λ (m : NvmeData). m.io_sq_tail) c.rest
              ∙ b.tail
              ∙ ap (λ (d : ℕ). length w.sent % d) (sym sq_depth);
          head =
              head-collected n refl
              ∙ ap₂ (λ (i d : ℕ). fetched i % d) (sym length_done) (sym sq_depth);
          behind = omega (arith, fetched-le-sent n c.in_posted, ap fetched length_done);
          not_full =
              omega (arith, fetched-le n c.in_posted, ap fetched length_done, sq_depth, b.not_full);
          sq_small = omega (arith, sq_depth, b.sq_small);
          cq_head = c.head ∙ ap₂ (λ (i d : ℕ). i % d) (sym length_done) (sym cq_depth);
          cq_phase = c.phase ∙ ap₂ (λ (i d : ℕ). tag d i) (sym length_done) (sym cq_depth);
          cq_pos = omega (arith, cq_depth, b.cq_pos);
          cq_small = omega (arith, cq_depth, b.cq_small);
          shift = rw c.ctrl b.shift;
          answers = rw (Collected-base c, cq_depth, Collected-doorbell c) b.answers;
          account = account-collected;
        }

  pub collect-IsBalanced :
      (timed_out : ℕ → Bool) (end min max : ℕ)
      → timed_out end ≡ true
      → max < 2 ^ 31
      → (w' : Client) × (run_turn p (collect timed_out end min max) w ≡ some w')
        × IsBalanced p entry posted fetched w'
  unfolding run_turn
  collect-IsBalanced timed_out end min max late small =
      let g =
        nvme_getevents-Gathered timed_out min max end (length w.done) w.state b.answers
          serves-Expects b.cq_pos b.cq_small small late in
      (
        record { state = g.after; sent = w.sent; done = handed g.after.io g.count ++ w.done },
        rw (g.returns, run_turn) refl,
        collected-IsBalanced g.collected,
      )
