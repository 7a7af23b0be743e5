-- ===== src/Submit/Tail.antt =====
-- The submission queue as a ring: the tail, the doorbell and the command identifier.
use fioplugin.Prelude.{ℕ, ◌+◌, ◌%◌, ◌^◌, ◌<◌, ◌≡◌, ap, refl, arith}
use native.Mathlib.Nat.{mod-eq_of_lt, mod_self}
use native.Mathlib.Decide.{ℕ_discrete}
use fioplugin.Machine.{Log}
use fioplugin.Nvme.{State}
use fioplugin.Submit.{
  submit, next_tail, submit_rw_command, next_cmd_id, nvme_read, nvme_write, nvme_trim,
  nvme_multi_range_trim, TrimRange,
}

-- A tail inside a queue of at most 2^32 - 1 entries moves on by one, round the ring.
pub next_tail-mod :
    (tail depth : ℕ) → tail < depth → depth < 2 ^ 32 → next_tail tail depth ≡ (tail + 1) % depth
unfolding next_tail
next_tail-mod tail depth h b = elim (ℕ_discrete (tail + 1) depth) [
  | yes e ↦ ground (arith, ap (λ (t : ℕ). t % depth) e, mod_self depth)
  | no ne ↦ ground (arith, mod-eq_of_lt {n = tail + 1} {m = depth})
]

pub next_tail-lt : (tail depth : ℕ) → tail < depth → depth < 2 ^ 32 → next_tail tail depth < depth
unfolding next_tail
next_tail-lt tail depth h b = ground arith

-- What every submission does to the thread's data: the next identifier and the next tail.
pub record Advances (s : State) (r : State × ℕ) : Type 0 where
  pub cid : r.1 ≡ next_cmd_id s
  pub io : r.0.io ≡ record s.io {
    io_cmd_id = next_cmd_id s;
    io_sq_tail = next_tail s.io.io_sq_tail s.io.io_sq_depth;
  }
  pub ctrl : r.0.ctrl ≡ s.ctrl

submit-Advances : (s : State) (log : Log) → Advances s (submit s (next_cmd_id s) log)
unfolding submit
submit-Advances s log = record { cid = refl; io = refl; ctrl = refl }

module _ (s : State) (offset size addr : ℕ) where
  pub nvme_read-Advances : Advances s (nvme_read s offset size addr)
  unfolding nvme_read submit_rw_command
  nvme_read-Advances = submit-Advances s _

  pub nvme_write-Advances : Advances s (nvme_write s offset size addr)
  unfolding nvme_write submit_rw_command
  nvme_write-Advances = submit-Advances s _

pub nvme_trim-Advances : (s : State) (offset size : ℕ) → Advances s (nvme_trim s offset size)
unfolding nvme_trim
nvme_trim-Advances s offset size = submit-Advances s _

pub nvme_multi_range_trim-Advances :
    (s : State) (count : ℕ) (tr : ℕ → TrimRange) → Advances s (nvme_multi_range_trim s count tr)
unfolding nvme_multi_range_trim
nvme_multi_range_trim-Advances s count tr = submit-Advances s _
