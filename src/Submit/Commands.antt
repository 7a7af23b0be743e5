-- ===== src/Submit/Commands.antt =====
-- What a controller finds in memory when the doorbell of a read, a write or a trim rings.
use fioplugin.Prelude.{ℕ, ◌+◌, ◌-◌, ◌*◌, ◌/◌, ◌%◌, ◌^◌, ◌≤◌, ◌<◌, ◌≡◌, refl, ap, ◌⊎◌, arith, ◌∷◌}
use fioplugin.Machine.{Event, Log}
use fioplugin.Machine.Memory.{load}
use fioplugin.Nvme.{State}
use fioplugin.Prp.{Prps}
use fioplugin.Prp.Cover.{device_address}
use fioplugin.Submit.{submit, next_tail}
use fioplugin.Submit.Sqe.{Sqe, decode}

-- A thread's data after `create_io_queue_pair`, as far as the submissions rely on it.
pub record IsReady (s : State) : Type 0 where
  pub tail_in : s.io.io_sq_tail < s.io.io_sq_depth
  pub small : s.io.io_sq_depth ≤ 65536
  pub nsid_fits : s.ctrl.nsid < 2 ^ 16
  pub apart :
      (s.io.io_sq_virt_addr + 64 * s.io.io_sq_depth ≤ s.io.io_prp_list_virt_addr)
      ⊎ (s.io.io_prp_list_virt_addr + 4096 * s.io.io_sq_depth ≤ s.io.io_sq_virt_addr)
  pub list_phys : s.io.io_prp_list_phys_addr + 4096 * s.io.io_sq_depth ≤ 2 ^ 64

-- The log that a submission leaves: the doorbell of the new tail last, behind a barrier, with
-- everything else before.
pub record Rings (s s' : State) (before : Log) : Type 0 where
  pub log :
      s'.log
      ≡ Event.reg_store (s.ctrl.bar0_virt + s.io.io_sq_tail_db) s'.io.io_sq_tail
        ∷ Event.fence
        ∷ before
  pub tail : s'.io.io_sq_tail ≡ next_tail s.io.io_sq_tail s.io.io_sq_depth

pub submit-Rings : (s : State) (cmd_id : ℕ) (log : Log) → Rings s (submit s cmd_id log).0 log
unfolding submit
submit-Rings s cmd_id log = record { log = refl; tail = refl }

-- What a controller makes of the entry at `a` and of the memory around it.
abbrev pub prps_at : Log → ℕ → Prps
prps_at log a =
    let sqe : Sqe = decode log a in record { prp1 = sqe.prp1; prp2 = sqe.prp2; log = log }

-- The entry of a read or a write.
abbrev pub rw_entry : (opcode command_id nsid prp1 prp2 slba length : ℕ) → Sqe
rw_entry opcode command_id nsid prp1 prp2 slba length = record {
  opcode = opcode;
  flags = 0;
  command_id = command_id;
  nsid = nsid;
  prp1 = prp1;
  prp2 = prp2;
  cdw10 = slba % 2 ^ 32;
  cdw11 = slba / 2 ^ 32;
  cdw12 = length;
}

-- Only the list's page matters to the controller.
pub device_address_same :
    (virt_of : ℕ → ℕ) (p q : Prps) (size i : ℕ)
    → p.prp1 ≡ q.prp1
    → p.prp2 ≡ q.prp2
    → ((j : ℕ)
        → 8192 < q.prp1 % 4096 + size
        → j < 512
        → load 8 p.log (virt_of q.prp2 + 8 * j) ≡ load 8 q.log (virt_of q.prp2 + 8 * j))
    → device_address virt_of p size i ≡ device_address virt_of q size i
device_address_same virt_of p q size i e1 e2 same =
    ground
      (arith, ap virt_of e2, ap (λ (t : ℕ). t % 4096) e1, same ((q.prp1 % 4096 + i) / 4096 - 1))
