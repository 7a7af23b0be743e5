-- ===== src/Submit.antt =====
-- The I/O submissions of tools/nvme.c: `nvme_read`, `nvme_write`, `nvme_trim` and
-- `nvme_multi_range_trim`. Each writes one entry of the submission queue and rings its doorbell.
pub mod Sqe
pub mod Commands
pub mod Ranges
pub mod Tail
pub mod Transfer
mod Tests
use fioplugin.Prelude.{ℕ, zero, suc, ◌+◌, ◌-◌, ◌*◌, ◌^◌, bit_or, List, [], ◌∷◌, ◌==◌, if◌then◌else◌}
use fioplugin.Prelude.Word.{u16, u32, u64, ◌<<<◌, ◌>>>◌}
use fioplugin.Machine.{Event, Log}
use fioplugin.Machine.Fields.{Field, field, assign}
use fioplugin.Nvme.{State, page_shift}
use fioplugin.Prp.{Prps, setup_prps}

abbrev pub write_opcode : ℕ
write_opcode = 0x01

abbrev pub read_opcode : ℕ
read_opcode = 0x02

abbrev pub dataset_management_opcode : ℕ
dataset_management_opcode = 0x09

abbrev pub sq_entry_size : ℕ
sq_entry_size = 64

-- `NVME_DSM_ATTR_DEALLOCATE`
abbrev pub attr_deallocate : ℕ
attr_deallocate = 4

-- `(volatile struct nvme_command *)n->io_sq_virt_addr + sq_slot`
abbrev pub sqe_address : State → ℕ → ℕ
sqe_address s sq_slot = s.io.io_sq_virt_addr + sq_entry_size * sq_slot

-- The byte offsets in `struct nvme_command`.
abbrev pub opcode_at : ℕ
opcode_at = 0

abbrev pub command_id_at : ℕ
command_id_at = 2

abbrev pub nsid_at : ℕ
nsid_at = 4

abbrev pub prp1_at : ℕ
prp1_at = 24

abbrev pub prp2_at : ℕ
prp2_at = 32

abbrev pub slba_at : ℕ
slba_at = 40

abbrev pub length_at : ℕ
length_at = 48

abbrev pub command_fields : (opcode command_id nsid prp1 prp2 slba length : ℕ) → List Field
command_fields opcode command_id nsid prp1 prp2 slba length =
    field opcode_at 1 opcode
    ∷ field command_id_at 2 command_id
    ∷ field nsid_at 4 nsid
    ∷ field prp1_at 8 prp1
    ∷ field prp2_at 8 prp2
    ∷ field slba_at 8 slba
    ∷ field length_at 4 length
    ∷ []

-- The dwords of a command.
abbrev pub dword : ℕ → ℕ → Field
dword i value = field (4 * i) 4 value

-- `struct nvme_dsm_range`
abbrev pub range_fields : (context_attributes length slba : ℕ) → List Field
range_fields context_attributes length slba =
    field 0 4 context_attributes ∷ field 4 4 length ∷ field 8 8 slba ∷ []

-- `nvme_reg_write32_fast`
pub reg_write32_fast : ℕ → ℕ → ℕ → Log → Log
reg_write32_fast bar0 offset value log = Event.reg_store (bar0 + offset) value ∷ log

-- `++n->io_sq_tail`, set back to 0 at the depth
unfoldable pub next_tail : ℕ → ℕ → ℕ
next_tail tail depth = let t : ℕ = u32 (tail + 1) in if t == depth then 0 else t

-- The end of each submission: the new tail, the barrier and the doorbell.
pub submit : State → ℕ → Log → State × ℕ
unfolding reg_write32_fast
submit s cmd_id log =
    let tail : ℕ = next_tail s.io.io_sq_tail s.io.io_sq_depth in
    (
      record s {
        io = record s.io { io_cmd_id = cmd_id; io_sq_tail = tail };
        log = reg_write32_fast s.ctrl.bar0_virt s.io.io_sq_tail_db tail (Event.fence ∷ log);
      },
      cmd_id,
    )

-- `++n->io_cmd_id`
abbrev pub next_cmd_id : State → ℕ
next_cmd_id s = u16 (s.io.io_cmd_id + 1)

pub submit_rw_command : State → (opcode offset size dma_addr : ℕ) → State × ℕ
submit_rw_command s opcode offset size dma_addr =
    let transfer_size : ℕ = u64 (size <<< s.ctrl.lba_shift) in
    let sq_slot : ℕ = s.io.io_sq_tail in
    let prps : Prps = setup_prps s.io sq_slot dma_addr transfer_size s.log in
    let cmd_id : ℕ = next_cmd_id s in
    let cmd : ℕ = sqe_address s sq_slot in
    let length : ℕ = u32 (size + 2 ^ 64 - 1) in
    let fields : List Field =
      command_fields opcode cmd_id s.ctrl.nsid prps.prp1 prps.prp2 offset length in
    submit s cmd_id (assign cmd fields (Event.zero_fill cmd sq_entry_size ∷ prps.log))

pub nvme_read : State → (offset size dma_addr : ℕ) → State × ℕ
nvme_read s offset size dma_addr = submit_rw_command s read_opcode offset size dma_addr

pub nvme_write : State → (offset size dma_addr : ℕ) → State × ℕ
nvme_write s offset size dma_addr = submit_rw_command s write_opcode offset size dma_addr

-- `(uint64_t)sq_slot << NVME_PAGE_SHIFT`
abbrev pub range_offset : State → ℕ
range_offset s = u64 (s.io.io_sq_tail <<< page_shift)

-- The dataset management command of both trims, `cdw10` being one less than the ranges.
pub dsm_fields : (cmd_id nsid range_phys cdw10 : ℕ) → List Field
dsm_fields cmd_id nsid range_phys cdw10 =
    dword 0 (bit_or dataset_management_opcode (u32 (cmd_id <<< 16)))
    ∷ dword 1 nsid
    ∷ dword 6 (u32 range_phys)
    ∷ dword 7 (u32 (range_phys >>> 32))
    ∷ dword 10 cdw10
    ∷ dword 11 attr_deallocate
    ∷ []

pub nvme_trim : State → (offset size : ℕ) → State × ℕ
nvme_trim s offset size =
    let range : ℕ = s.io.io_prp_list_virt_addr + range_offset s in
    let range_phys : ℕ = u64 (s.io.io_prp_list_phys_addr + range_offset s) in
    let cmd_id : ℕ = next_cmd_id s in
    let cmd : ℕ = sqe_address s s.io.io_sq_tail in
    let log : Log = assign range (range_fields 0 (u32 size) offset) s.log in
    submit s cmd_id (
      assign cmd (dsm_fields cmd_id s.ctrl.nsid range_phys 0)
        (Event.zero_fill cmd sq_entry_size ∷ log))

-- `struct trim_range` of fio
pub record TrimRange : Type 0 where
  pub start : ℕ
  pub len : ℕ

-- `for (i = 0; i < num_range; i++)`: the rounds left, the address `range` and the index of `tr`.
-- The ranges are those that `io_u->xfer_buf` points at.
pub write_ranges : ℕ → (lba_shift range i : ℕ) → (ℕ → TrimRange) → Log → Log
write_ranges zero lba_shift range i tr log = log
write_ranges (suc rounds) lba_shift range i tr log =
    write_ranges rounds lba_shift (range + 16) (i + 1) tr (
      assign range (range_fields 0 (u32 ((tr i).len >>> lba_shift)) ((tr i).start >>> lba_shift))
        log)

pub nvme_multi_range_trim : State → (num_range : ℕ) → (ℕ → TrimRange) → State × ℕ
nvme_multi_range_trim s num_range tr =
    let range : ℕ = s.io.io_prp_list_virt_addr + range_offset s in
    let range_phys : ℕ = u64 (s.io.io_prp_list_phys_addr + range_offset s) in
    let cmd_id : ℕ = next_cmd_id s in
    let cmd : ℕ = sqe_address s s.io.io_sq_tail in
    let log : Log = write_ranges num_range s.ctrl.lba_shift range 0 tr s.log in
    submit s cmd_id (
      assign cmd (dsm_fields cmd_id s.ctrl.nsid range_phys (u32 (num_range + 2 ^ 32 - 1)))
        (Event.zero_fill cmd sq_entry_size ∷ log))
