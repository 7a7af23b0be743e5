-- ===== src/Admin/Tests.antt =====
-- Commands of the admin queue at inputs.
use fioplugin.Prelude.{arith, refl, ◌≡◌, ◌==◌, if◌then◌else◌, true, none, some, ℕ, [], ◌∷◌}
use fioplugin.Machine.{Platform, Event, Log}
use fioplugin.Nvme.{State}
use fioplugin.Call.{◌>>=◌, ◌>>◌, fail_if, get, modify}
use fioplugin.Regs.{controller_reg_write32}
use fioplugin.Admin.{
  submit_admin_command, wait_admin_completion, take_admin_cqe, next_admin_cqe, look_cqe,
}
use fioplugin.Admin.Served.{Served, wait_admin_completion-Served}
use fioplugin.Admin.Ring.{InBounds}
use fioplugin.Admin.Announce.{Announces, IsMapped, admin_entry, submit_admin_command-Announces}
use fioplugin.Sample.{ready}

ready-InBounds : InBounds ready.ctrl
ready-InBounds = record {
  sq_depth = refl;
  cq_depth = refl;
  sq_tail = omega arith;
  cq_head = omega arith;
  cq_phase = omega arith;
}

ready-IsMapped : IsMapped ready
ready-IsMapped = record { bar0 = omega arith; doorbell = refl }

-- The creation of a completion queue of 8 entries.
submit_admin_command-Announces_example :
    Announces ready
      (admin_entry 5 0 0x300000 0x70001 1 2)
      (submit_admin_command 5 0 0x300000 0x70001 1 2 ready)
submit_admin_command-Announces_example =
    submit_admin_command-Announces ready ready-InBounds ready-IsMapped 5 0 0x300000 0x70001 1 2
      (omega arith) (omega arith) (omega arith) (omega arith) (omega arith) (omega arith)

-- 1 once the host has slept.
abbrev slept : Log → ℕ
slept [] = 0
slept (Event.sleep ∷ _) = 1
slept (_ ∷ log) = slept log

-- Command 0 completes in the second millisecond: the phase of the first entry is 1 from then on.
abbrev slow : Platform
slow = record {
  reg = λ _ _. 0;
  mem = λ log _ a. if a == 0xb00100e then slept log else 0;
  open_bar0 = λ _ _ _ _. none;
  mmap = λ _ _ _. none;
  munmap = λ _ _ _. true;
  get_meminfo = λ _ _. none;
  dev_entries = λ _. none;
  open_dev = λ _ _. none;
  get_bdf = λ _ _. none;
}

abbrev served : State
served = (wait_admin_completion slow 0 10 ready).1

serves : wait_admin_completion slow 0 10 ready ≡ (some tt, served)
unfolding wait_admin_completion take_admin_cqe next_admin_cqe look_cqe controller_reg_write32
    fail_if get modify ◌>>=◌ ◌>>◌
serves = refl

wait_admin_completion-Served_example : Served slow 0 ready.ctrl served
wait_admin_completion-Served_example =
    wait_admin_completion-Served slow 0 10 ready served ready-InBounds serves
