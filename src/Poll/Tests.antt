-- ===== src/Poll/Tests.antt =====
-- `poll_cq` at inputs: a controller that has posted two completions of eight.
use fioplugin.Prelude.{
  ◌≤◌, ℕ, zero, suc, ◌+◌, ◌*◌, ◌<◌, ◌≡◌, ◌≢◌, refl, arith, inl, none, some, [], ◌%◌, ◌^◌,
}
use fioplugin.Prelude.Word.{u16}
use fioplugin.Machine.{Log}
use fioplugin.Nvme.{State}
use fioplugin.Poll.{poll_cq, scan_loop, round, take_entry, advance, accept, finish}
use fioplugin.Poll.Count.{poll_cq-count}
use fioplugin.Poll.Protocol.{Completion, Posts, slot_address, tag}
use fioplugin.Poll.Complete.{poll_cq-Polled}
use fioplugin.Poll.Finish.{Polled}
use fioplugin.Poll.Failure.{poll_cq-exit}
use fioplugin.Sample.{ready}
use fioplugin.Sample.Completions.{entries, device, two, device-Posts, entries-AreExpected}

-- The same with an error in entry 0.
abbrev failing : ℕ → Completion
failing k = record { sqhd = 1; cid = 2; status = 5 }

abbrev one : Log → ℕ
one _ = 1

failing-Posts : Posts (device 11 0) 0x9000000 8 failing one
failing-Posts = record {
  psf = λ _ k h _. psf k h;
  cid = λ _ k h _. cid k h;
  sqhd = λ _ k h _. sqhd k h;
  empty = λ _ k e. empty k e;
  more = λ _ _ _. omega arith;
}
  where
    psf :
        (k : ℕ)
        → k < 1
        → u16 ((device 11 0).mem [] 2 (slot_address 0x9000000 8 k + 14))
          ≡ tag 8 k + 2 * (failing k).status
    psf zero h = refl
    psf (suc k) h = absurd (omega arith)

    cid :
        (k : ℕ)
        → k < 1
        → u16 ((device 11 0).mem [] 2 (slot_address 0x9000000 8 k + 12)) ≡ (failing k).cid
    cid zero h = refl
    cid (suc k) h = absurd (omega arith)

    sqhd :
        (k : ℕ)
        → k < 1
        → u16 ((device 11 0).mem [] 2 (slot_address 0x9000000 8 k + 8)) ≡ (failing k).sqhd
    sqhd zero h = refl
    sqhd (suc k) h = absurd (omega arith)

    empty :
        (k : ℕ)
        → k ≡ 1
        → u16 ((device 11 0).mem [] 2 (slot_address 0x9000000 8 k + 14)) % 2 ≢ tag 8 k
    empty k e = rw e (λ (z : 0 ≡ 1). absurd (omega arith))

poll_cq-Polled_example :
    (s' : State) × (taken : ℕ) × (poll_cq (device 1 1) ready 5 ≡ some (s', taken))
    × Polled ready entries two 0 2 5 taken s'
poll_cq-Polled_example =
    poll_cq-Polled ready 5 device-Posts (omega arith) (omega arith) (omega arith) (omega arith) refl
      refl (omega arith) (λ _ _. omega arith) (omega arith) entries-AreExpected

poll_cq-exit_example : poll_cq (device 11 0) ready 5 ≡ none
poll_cq-exit_example =
    poll_cq-exit ready 5 {k = 0} failing-Posts (λ _ _. omega arith) (omega arith) (omega arith) refl
      refl (omega arith) (inl five)
  where
    five : 5 % 2 ^ 11 ≢ 0
    five = λ (z : 5 ≡ 0). absurd (omega arith)

abbrev with_two : State
with_two = elim (poll_cq (device 1 1) ready 5) [ none ↦ ready | some r ↦ r.0 ]

takes_two : poll_cq (device 1 1) ready 5 ≡ some (with_two, 2)
unfolding poll_cq scan_loop round take_entry advance accept finish
takes_two = refl

poll_cq-count_example : (2 ≤ 5) × (2 ≤ 65535) × (with_two.io.nr_events ≡ 0 + 2)
poll_cq-count_example = poll_cq-count (device 1 1) ready 5 (omega arith) takes_two
