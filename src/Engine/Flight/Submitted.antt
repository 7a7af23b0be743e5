-- ===== src/Engine/Flight/Submitted.antt =====
-- `nvme_queue` keeps the account.
use native.Mathlib.Nat.{mod-add-mod, add-mod_right, mod-lt}
use native.Mathlib.Decide.{ℕ_discrete}
use fioplugin.Prelude.{
  ℕ, suc, ◌+◌, ◌%◌, ◌^◌, ◌≤◌, ◌<◌, ◌≡◌, ◌≢◌, refl, sym, ◌∙◌, ap, ap₂, arith, ◌∷◌, length, inl, inr,
  some, ne→==,
}
use fioplugin.Machine.{Log, Platform}
use fioplugin.Nvme.{Controller, NvmeData, State}
use fioplugin.Poll.Collect.{head_doorbell}
use fioplugin.Poll.Protocol.{Completion, tag}
use fioplugin.Submit.{next_tail}
use fioplugin.Submit.Tail.{next_tail-mod}
use fioplugin.Engine.{IoU, Thread, QStatus, next_sq_tail, nvme_queue}
use fioplugin.Engine.Queue.{nvme_queue-Outcome}
use fioplugin.Engine.Dispatch.{IsQueued, Outcome}
use fioplugin.Engine.Flight.{
  Client, submit, noted, run_turn, one_if, count, holds, identifiers, IsBalanced,
}
use fioplugin.Engine.Flight.Table.{holds-update}

next_sq_tail-eq : (n : NvmeData) → next_sq_tail n ≡ next_tail n.io_sq_tail n.io_sq_depth
unfolding next_sq_tail next_tail
next_sq_tail-eq n = refl

-- The tail after one more submission.
mod_suc : (m d : ℕ) → 0 < d → (m % d + 1) % d ≡ suc m % d
mod_suc m d h = mod-add-mod m d 1 ∙ ap (λ (t : ℕ). t % d) {x = m + 1} {y = suc m} (omega arith)

next_sq_tail-suc :
    (n : NvmeData) (m : ℕ)
    → 0 < n.io_sq_depth
    → n.io_sq_depth < 2 ^ 32
    → n.io_sq_tail ≡ m % n.io_sq_depth
    → next_sq_tail n ≡ suc m % n.io_sq_depth
next_sq_tail-suc n m pos small e =
    next_sq_tail-eq n
    ∙ ap (λ (t : ℕ). next_tail t n.io_sq_depth) e
    ∙ next_tail-mod (m % n.io_sq_depth) n.io_sq_depth (mod-lt m pos) small
    ∙ mod_suc m n.io_sq_depth pos

-- A ring that is not full has a free slot besides the one that is written.
still_room :
    (sent fetched depth : ℕ)
    → fetched ≤ sent
    → sent < fetched + depth
    → suc sent % depth ≢ fetched % depth
    → suc sent < fetched + depth
still_room sent fetched depth a b ne = elim (ℕ_discrete (suc sent) (fetched + depth)) [
  | yes full ↦ absurd (ne (ap (λ (t : ℕ). t % depth) full ∙ add-mod_right fetched depth))
  | no room ↦ omega arith
]

module _ {p : Platform} {entry : ℕ → Completion} {posted : Log → ℕ} {fetched : ℕ → ℕ} (td : Thread)
    (io_u : IoU) (w : Client) (b : IsBalanced p entry posted fetched w) where
  account-queued :
      {r : State × QStatus}
      → IsQueued io_u w.state r
      → (x : ℕ) → x ≢ 0
      → count x (io_u.ptr ∷ w.sent) ≡ count x w.done + holds x r.0.io.cmd_io_u identifiers
  account-queued {r} q x nz =
      let nothing : one_if x (w.state.io.cmd_io_u ((w.state.io.io_cmd_id + 1) % 2 ^ 16)) ≡ 0 =
        ap (one_if x) q.was_free ∙ rw (ne→== 0 x (λ e. nz (sym e))) in
      omega (
        arith,
        b.account x nz,
        nothing,
        ap (λ f. holds x f identifiers) q.cmd_io_u,
        holds-update x w.state.io.cmd_io_u identifiers ((w.state.io.io_cmd_id + 1) % 2 ^ 16)
            io_u.ptr (omega arith),
      )

  queued-IsBalanced :
      {r : State × QStatus}
      → IsQueued io_u w.state r
      → IsBalanced p entry posted fetched
          (record { state = r.0; sent = io_u.ptr ∷ w.sent; done = w.done })
  queued-IsBalanced {r} q =
      let sq_depth : r.0.io.io_sq_depth ≡ w.state.io.io_sq_depth =
        ap (λ (n : NvmeData). n.io_sq_depth) q.rest in
      let cq_depth : r.0.io.io_cq_depth ≡ w.state.io.io_cq_depth =
        ap (λ (n : NvmeData). n.io_cq_depth) q.rest in
      let tail : r.0.io.io_sq_tail ≡ suc (length w.sent) % w.state.io.io_sq_depth =
        q.tail
        ∙ next_sq_tail-suc w.state.io (length w.sent) (omega (arith, b.behind, b.not_full))
            b.sq_small b.tail in
      record {
        tail = tail ∙ ap (λ (d : ℕ). suc (length w.sent) % d) (sym sq_depth);
        head = q.head ∙ b.head ∙ ap (λ (d : ℕ). fetched (length w.done) % d) (sym sq_depth);
        behind = omega (arith, b.behind);
        not_full = omega (
          arith,
          sq_depth,
          still_room (length w.sent) (fetched (length w.done)) w.state.io.io_sq_depth b.behind
              b.not_full (λ e. q.not_full (tail ∙ e ∙ sym b.head ∙ sym q.head)),
        );
        sq_small = omega (arith, sq_depth, b.sq_small);
        cq_head = q.cq_head ∙ b.cq_head ∙ ap (λ (d : ℕ). length w.done % d) (sym cq_depth);
        cq_phase = q.cq_phase ∙ b.cq_phase ∙ ap (λ (d : ℕ). tag d (length w.done)) (sym cq_depth);
        cq_pos = omega (arith, cq_depth, b.cq_pos);
        cq_small = omega (arith, cq_depth, b.cq_small);
        shift = rw q.ctrl b.shift;
        answers =
            let base : r.0.io.io_cq_virt_addr ≡ w.state.io.io_cq_virt_addr =
              ap (λ (n : NvmeData). n.io_cq_virt_addr) q.rest in
            let bell : head_doorbell r.0 ≡ head_doorbell w.state =
              ap₂ (λ (c : Controller) (n : NvmeData). c.bar0_virt + n.io_cq_head_db) q.ctrl
                q.rest in
            rw (base, cq_depth, bell) b.answers;
        account = account-queued q;
      }

  -- The state and the list after an answer.
  answered : State × QStatus → Client
  answered r = record { state = r.0; sent = noted io_u.ptr r.1 w.sent; done = w.done }

  answered-IsBalanced :
      {r : State × QStatus}
      → Outcome io_u w.state r
      → IsBalanced p entry posted fetched (answered r)
  unfolding answered noted
  answered-IsBalanced (inl (why, e)) = rw e b
  answered-IsBalanced (inr (inl (ready, why, e))) = rw e b
  answered-IsBalanced {r} (inr (inr (ready, good, q))) = rw q.status (queued-IsBalanced q)

  pub submit-IsBalanced :
      (w' : Client) × (run_turn p (submit td io_u) w ≡ some w')
      × IsBalanced p entry posted fetched w'
  unfolding run_turn answered
  submit-IsBalanced = (
    answered (nvme_queue td io_u w.state),
    refl,
    answered-IsBalanced (nvme_queue-Outcome td io_u w.state b.shift),
  )
