-- ===== src/Submit/Sqe.antt =====
-- A submission queue entry as an NVMe controller reads it from memory.
use fioplugin.Prelude.{ℕ, ◌+◌, ◌*◌, ◌/◌, ◌%◌, ◌^◌, ◌≤◌, ◌<◌, ◌≡◌, refl, arith, some, ◌∷◌}
use fioplugin.Prelude.Bits.{bit_or-fields'}
use fioplugin.Machine.{Event, Log}
use fioplugin.Machine.Memory.{load}
use fioplugin.Machine.Fields.{assign, read_fields, load-assign-zero_fill}
use fioplugin.Submit.{command_fields, dsm_fields}

-- The parts of an entry that the commands of this engine use.
pub record Sqe : Type 0 where
  pub opcode : ℕ
  pub flags : ℕ
  pub command_id : ℕ
  pub nsid : ℕ
  pub prp1 : ℕ
  pub prp2 : ℕ
  pub cdw10 : ℕ
  pub cdw11 : ℕ
  pub cdw12 : ℕ

abbrev pub decode : Log → ℕ → Sqe
decode log a = record {
  opcode = load 1 log (a + 0);
  flags = load 1 log (a + 1);
  command_id = load 2 log (a + 2);
  nsid = load 4 log (a + 4);
  prp1 = load 4 log (a + 24) + 2 ^ 32 * load 4 log (a + 28);
  prp2 = load 4 log (a + 32) + 2 ^ 32 * load 4 log (a + 36);
  cdw10 = load 4 log (a + 40);
  cdw11 = load 4 log (a + 44);
  cdw12 = load 4 log (a + 48);
}

module _ (a : ℕ) (log : Log) (opcode cmd_id nsid prp1 prp2 slba length : ℕ) where
  rw_log : Log
  rw_log =
      assign a (command_fields opcode cmd_id nsid prp1 prp2 slba length)
        (Event.zero_fill a 64 ∷ log)

  rw_part :
      (k at : ℕ) {v : ℕ}
      → at + k ≤ 64
      → read_fields (command_fields opcode cmd_id nsid prp1 prp2 slba length) k at (some 0) ≡ some v
      → load k rw_log (a + at) ≡ v
  unfolding rw_log
  rw_part k at h e = load-assign-zero_fill k a at 64 _ log h e

  -- The entry that the assignments of `submit_rw_command` make.
  pub decode-command_fields :
      opcode < 2 ^ 8
      → cmd_id < 2 ^ 16
      → nsid < 2 ^ 32
      → prp1 < 2 ^ 64
      → prp2 < 2 ^ 64
      → slba < 2 ^ 64
      → length < 2 ^ 32
      → decode
          (assign a
            (command_fields opcode cmd_id nsid prp1 prp2 slba length)
            (Event.zero_fill a 64 ∷ log))
          a
        ≡ record {
          opcode = opcode;
          flags = 0;
          command_id = cmd_id;
          nsid = nsid;
          prp1 = prp1;
          prp2 = prp2;
          cdw10 = slba % 2 ^ 32;
          cdw11 = slba / 2 ^ 32;
          cdw12 = length;
        }
  unfolding rw_log
  decode-command_fields h0 h1 h2 h3 h4 h5 h6 = ground (
    arith,
    rw_part 1 0 (omega arith) refl,
    rw_part 1 1 (omega arith) refl,
    rw_part 2 2 (omega arith) refl,
    rw_part 4 4 (omega arith) refl,
    rw_part 4 24 (omega arith) refl,
    rw_part 4 28 (omega arith) refl,
    rw_part 4 32 (omega arith) refl,
    rw_part 4 36 (omega arith) refl,
    rw_part 4 40 (omega arith) refl,
    rw_part 4 44 (omega arith) refl,
    rw_part 4 48 (omega arith) refl,
  )

module _ (a : ℕ) (log : Log) (cmd_id nsid range_phys cdw10 : ℕ) where
  dsm_part :
      (k at : ℕ) {v : ℕ}
      → at + k ≤ 64
      → read_fields (dsm_fields cmd_id nsid range_phys cdw10) k at (some 0) ≡ some v
      → load k
          (assign a (dsm_fields cmd_id nsid range_phys cdw10) (Event.zero_fill a 64 ∷ log))
          (a + at)
        ≡ v
  dsm_part k at h e = load-assign-zero_fill k a at 64 _ log h e

  -- The entry that the assignments of the trims make.
  pub decode-dsm_fields :
      cmd_id < 2 ^ 16
      → nsid < 2 ^ 32
      → range_phys < 2 ^ 64
      → cdw10 < 2 ^ 32
      → decode (assign a (dsm_fields cmd_id nsid range_phys cdw10) (Event.zero_fill a 64 ∷ log)) a
        ≡ record {
          opcode = 9;
          flags = 0;
          command_id = cmd_id;
          nsid = nsid;
          prp1 = range_phys;
          prp2 = 0;
          cdw10 = cdw10;
          cdw11 = 4;
          cdw12 = 0;
        }
  unfolding dsm_fields
  decode-dsm_fields h1 h2 h3 h4 = ground (
    arith,
    bit_or-fields' 16 9 cmd_id,
    dsm_part 1 0 (omega arith) refl,
    dsm_part 1 1 (omega arith) refl,
    dsm_part 2 2 (omega arith) refl,
    dsm_part 4 4 (omega arith) refl,
    dsm_part 4 24 (omega arith) refl,
    dsm_part 4 28 (omega arith) refl,
    dsm_part 4 32 (omega arith) refl,
    dsm_part 4 36 (omega arith) refl,
    dsm_part 4 40 (omega arith) refl,
    dsm_part 4 44 (omega arith) refl,
    dsm_part 4 48 (omega arith) refl,
  )
