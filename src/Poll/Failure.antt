-- ===== src/Poll/Failure.antt =====
-- The completions at which `poll_cq` ends the process.
use fioplugin.Prelude.{
  ℕ, suc, ◌+◌, ◌-◌, ◌*◌, ◌/◌, ◌%◌, ◌^◌, ◌≤◌, ◌<◌, ◌≡◌, ◌≢◌, refl, ◌∙◌, ap, arith, ◌==◌, ◌!=◌,
  if◌then◌else◌, true, false, none, ◌⊎◌, inl, inr, bit_and, ◌||◌, eq→==, min, ltb, leb,
}
use native.Mathlib.Decide.{ℕ_discrete}
use fioplugin.Prelude.Bits.{bit_and-mask}
use fioplugin.Prelude.Word.{u16}
use fioplugin.Machine.{Log, Platform}
use fioplugin.Nvme.{State}
use fioplugin.Poll.{Scan, exit, take_entry, round, scan_loop, scan_start, poll_cq}
use fioplugin.Poll.Protocol.{Completion, IsSuccess, tag, Posts, At}
use fioplugin.Poll.Entry.{phase_of_psf, round-take, psf_read, cid_read}
use fioplugin.Machine.Reads.{LooksFrom, here, next}
use native.Mathlib.Nat.{le_refl}

module _ (p : Platform) (base : ℕ) (t : Scan) where
  round-failed :
      (b status : ℕ)
      → b < 2
      → u16 (p.mem t.log 2 (t.cqe + 14)) ≡ b + 2 * status
      → t.phase_tag ≡ b
      → status % 2 ^ 11 ≢ 0
      → round p base t ≡ exit
  unfolding round
  round-failed b status bit e ph bad =
      let same : (b != t.phase_tag) ≡ false = ground arith in
      let failed : (bit_and ((b + 2 * status) / 2 ^ 9) 7 != 0
            || bit_and ((b + 2 * status) / 2 ^ 1) 255 != 0)
          ≡ true =
        ground (
          arith,
          bit_and-mask 3 ((b + 2 * status) / 2 ^ 9) 7 refl,
          bit_and-mask 8 ((b + 2 * status) / 2 ^ 1) 255 refl,
        ) in
      rw (e, phase_of_psf b status bit, same, failed)

  take_entry-unknown :
      (cid : ℕ)
      → u16 (p.mem t.log 2 (t.cqe + 12)) ≡ cid
      → t.io.cmd_io_u cid ≡ 0
      → take_entry p base t ≡ exit
  unfolding take_entry
  take_entry-unknown cid e unknown = rw (e, eq→== _ _ unknown)

scan_loop-exit :
    (p : Platform) (base left : ℕ) (t : Scan)
    → round p base t ≡ exit
    → scan_loop p base (suc left) t ≡ none
unfolding scan_loop
scan_loop-exit p base left t e = rw (e, scan_loop)

poll_cq-exits :
    (p : Platform) (s : State) (max : ℕ)
    → 0 < max
    → max < 2 ^ 31
    → round p s.io.io_cq_virt_addr (scan_start s) ≡ exit
    → poll_cq p s max ≡ none
unfolding poll_cq
poll_cq-exits p s max h g e =
    let runs : (max == 0 || leb (2 ^ 31) max) ≡ false = ground arith in
    let bound : (if ltb 65535 max then 65535 else max) ≡ suc (min max 65535 - 1) = ground arith in
    rw (runs, bound, scan_loop-exit p s.io.io_cq_virt_addr (min max 65535 - 1) (scan_start s) e)

-- For a controller that follows the protocol, with at most a lap posted, a limit from 1 to 2^31 - 1
-- and a state whose head and phase are those of entry `k`: `poll_cq` ends the process if entry `k` is
-- posted and reports an error, or belongs to no command under way.
pub poll_cq-exit :
    {p : Platform} (s : State) (max : ℕ) {entry : ℕ → Completion} {posted : Log → ℕ} {k : ℕ}
    → Posts p s.io.io_cq_virt_addr s.io.io_cq_depth entry posted
    → ((log : Log) → LooksFrom s.log log → posted log ≤ k + s.io.io_cq_depth)
    → 0 < max
    → max < 2 ^ 31
    → s.io.ic_cq_head ≡ k % s.io.io_cq_depth
    → s.io.io_cq_pahse ≡ tag s.io.io_cq_depth k
    → k < posted s.log
    → (¬ IsSuccess (entry k)) ⊎ (s.io.cmd_io_u (entry k).cid ≡ 0)
    → poll_cq p s max ≡ none
poll_cq-exit {p} s max {entry} {posted} {k} device room h g h0 h1 there bad =
    let start : At s.io.io_cq_virt_addr s.io.io_cq_depth k (scan_start s) = record {
      head = h0;
      cqe = omega (arith, ap (λ (x : ℕ). 16 * x) h0);
      phase = h1;
      depth_is = refl;
    } in
    let psf = psf_read device start there room (le_refl _) in
    poll_cq-exits p s max h g (elim (ℕ_discrete ((entry k).status % 2 ^ 11) 0) [
      | no failed ↦
          round-failed p s.io.io_cq_virt_addr (scan_start s) (tag s.io.io_cq_depth k)
            (entry k).status (omega arith) psf h1 failed
      | yes ok ↦
          round-take p s.io.io_cq_virt_addr (scan_start s) (tag s.io.io_cq_depth k) (entry k).status
            (omega arith) psf h1 ok
          ∙ take_entry-unknown p s.io.io_cq_virt_addr _ (entry k).cid
              (cid_read device start there room (le_refl _) _ (next 2 _ here)) (unknown ok bad)
    ])
  where
    unknown :
        (entry k).status % 2 ^ 11 ≡ 0
        → (¬ IsSuccess (entry k)) ⊎ (s.io.cmd_io_u (entry k).cid ≡ 0)
        → s.io.cmd_io_u (entry k).cid ≡ 0
    unknown ok (inl failed) = absurd (failed ok)
    unknown ok (inr free) = free
