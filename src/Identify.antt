-- ===== src/Identify.antt =====
-- `nvme_get_file_size` of tools/nvme.c: the size of the namespace, from the identify command.
use fioplugin.Prelude.{
  ℕ, zero, suc, ◌+◌, ◌-◌, ◌*◌, ◌%◌, ◌^◌, bit_and, bit_or, bit_xor, Bool, true, false, ◌||◌, ◌&&◌,
  Option, none, some, List, [], ◌∷◌, ltb, leb, ◌==◌, ◌!=◌, if◌then◌else◌, not, ⊤,
}
use fioplugin.Prelude.Word.{u16, u32, u64, ◌<<<◌, ◌>>>◌}
use fioplugin.Machine.{Event, Log, Platform}
use fioplugin.Machine.Fields.{Field, assign}
use fioplugin.Machine.Reads.{look16}
use fioplugin.Nvme.{Controller, NvmeData, Mem, State, page_size}
use fioplugin.Call.{Call, ◌>>=◌, ◌>>◌, pure, get, modify, fail_if, or_undo, and_then}
use fioplugin.Regs.{
  controller_reg_write32, nvme_reg_read64, reg_cap, ready_timeout_ms, cap_mqes_entries,
  round_up_page, io_sq_tail_doorbell, io_cq_head_doorbell,
}
use fioplugin.Dma.{nvme_alloc_dma_mem, free_dma}
use fioplugin.Init.{memset, sleep_1ms}
use fioplugin.Submit.{dword}
use fioplugin.Poll.{cid_at, psf_at, cq_entry_size}
use fioplugin.Admin.{
  no_admin_queue, admin_command, next_admin_cmd_id, submit_identify_namespace,
  wait_admin_completion, admin_cmd_timeout_ms,
}
pub mod Keep
pub mod Read
pub mod Sized
mod Tests

abbrev pub identify_data_size : ℕ
identify_data_size = 4096

-- Where the size and the format of a namespace and the formats themselves are in its data, the size
-- of a format and where the shift of its blocks is in it.
abbrev pub nsze_offset : ℕ
nsze_offset = 0

abbrev pub flbas_offset : ℕ
flbas_offset = 26

abbrev pub lbaf_offset : ℕ
lbaf_offset = 128

abbrev pub lbaf_entry_size : ℕ
lbaf_entry_size = 4

abbrev pub lbads_offset : ℕ
lbads_offset = 2

-- A plain read of `w` bytes of the identify data, which the controller has written.
pub look_byte : Platform → (a : ℕ) → Call ℕ
look_byte p a s = (some (p.mem s.log 1 a % 2 ^ 8), record s { log = Event.look 1 a ∷ s.log })

-- `load_le64`, of 8 bytes lowest first
pub load_le64 : Platform → (a : ℕ) → Call ℕ
load_le64 p a s = (some (p.mem s.log 8 a % 2 ^ 64), record s { log = Event.look 8 a ∷ s.log })

pub read_identify : Platform → (page : ℕ) → Call ℕ
read_identify p page = do
  nsze ← load_le64 p (page + nsze_offset)
  flbas ← look_byte p (page + flbas_offset)
  lba_shift ←
      look_byte p (page + (lbaf_offset + lbaf_entry_size * bit_and flbas 0xf) + lbads_offset)
  fail_if (leb 64 lba_shift)
  modify (λ s. record s {
    ctrl = record s.ctrl { lba_shift = lba_shift; size = u64 (nsze <<< lba_shift) };
  })
  pure (u64 (nsze <<< lba_shift))

-- After the allocation, up to the release of the buffer.
pub identify_namespace : Platform → (identify : Mem) → Call ℕ
identify_namespace p identify = do
  memset (λ _. identify)
  cmd_id ← next_admin_cmd_id
  submit_identify_namespace identify.dma_addr cmd_id
  wait_admin_completion p cmd_id admin_cmd_timeout_ms
  read_identify p identify.user_virtaddr

-- A failure is the source's `return 0u`.
pub nvme_get_file_size : Platform → Call ℕ
nvme_get_file_size p = do
  no_queue ← get no_admin_queue
  fail_if no_queue
  opened ← get (λ s. s.ctrl.dma_fd_opened)
  fail_if (not opened)
  cap ← nvme_reg_read64 p reg_cap
  fail_if (ready_timeout_ms cap == 0)
  identify ← nvme_alloc_dma_mem p identify_data_size (λ _ s. s)
  and_then (λ s. record s { log = (free_dma identify s.log).1 }) (identify_namespace p identify)
