-- ===== src/QueuePair.antt =====
-- `create_io_queue_pair` and `delete_io_queue_pair` of tools/nvme.c.
use fioplugin.Prelude.{
  ℕ, zero, suc, ◌+◌, ◌-◌, ◌*◌, ◌%◌, ◌^◌, bit_and, bit_or, bit_xor, Bool, true, false, ◌||◌, ◌&&◌,
  Option, none, some, List, [], ◌∷◌, ltb, leb, ◌==◌, ◌!=◌, if◌then◌else◌, not, ⊤,
}
use fioplugin.Prelude.Word.{u16, u32, u64, ◌<<<◌, ◌>>>◌}
use fioplugin.Machine.{Event, Log, Platform}
use fioplugin.Machine.Fields.{Field, assign}
use fioplugin.Machine.Reads.{look16}
use fioplugin.Nvme.{Controller, NvmeData, Mem, State, page_size}
use fioplugin.Call.{Call, ◌>>=◌, ◌>>◌, pure, get, modify, fail_if, or_undo, and_then}
use fioplugin.Regs.{
  controller_reg_write32, nvme_reg_read64, reg_cap, ready_timeout_ms, cap_mqes_entries,
  round_up_page, io_sq_tail_doorbell, io_cq_head_doorbell,
}
use fioplugin.Dma.{nvme_alloc_dma_mem, free_dma}
use fioplugin.Init.{memset, sleep_1ms}
use fioplugin.Submit.{dword}
use fioplugin.Poll.{cid_at, psf_at, cq_entry_size}
use fioplugin.Admin.{
  no_admin_queue, admin_command, next_admin_cmd_id, submit_identify_namespace,
  wait_admin_completion, admin_cmd_timeout_ms,
}
pub mod Keep
pub mod Create
pub mod Identity
pub mod Delete
mod Tests

abbrev pub default_io_qid : ℕ
default_io_qid = 1

abbrev pub delete_io_sq_opcode : ℕ
delete_io_sq_opcode = 0x00

abbrev pub create_io_sq_opcode : ℕ
create_io_sq_opcode = 0x01

abbrev pub delete_io_cq_opcode : ℕ
delete_io_cq_opcode = 0x04

abbrev pub create_io_cq_opcode : ℕ
create_io_cq_opcode = 0x05

abbrev pub queue_phys_contiguous : ℕ
queue_phys_contiguous = 0x1

-- `n->io_qid != 0u ? n->io_qid : NVME_IO_QID`
unfoldable pub nvme_io_qid : NvmeData → ℕ
nvme_io_qid n = if n.io_qid != 0 then n.io_qid else default_io_qid

-- The depth asked for, or the largest; an error above the largest.
unfoldable pub queue_depth : (asked max_io_depth : ℕ) → Call ℕ
queue_depth asked max_io_depth = do
  let depth : ℕ = if asked == 0 then max_io_depth else asked
  fail_if (ltb max_io_depth depth)
  pure depth

abbrev pub set_io_sq : Mem → State → State
set_io_sq m s = record s { io = record s.io { io_sq_mem = m } }

abbrev pub set_io_cq : Mem → State → State
set_io_cq m s = record s { io = record s.io { io_cq_mem = m } }

abbrev pub set_prp_list : Mem → State → State
set_prp_list m s = record s { io = record s.io { io_prp_list_mem = m } }

-- `free_dma` of a buffer that `of` and `set` say.
abbrev pub free_mem : (of : State → Mem) → (set : Mem → State → State) → State → State
free_mem of set s = let (m, log) = free_dma (of s) s.log in set m (record s { log = log })

abbrev pub free_io_sq : State → State
free_io_sq = free_mem (λ s. s.io.io_sq_mem) set_io_sq

abbrev pub free_io_cq : State → State
free_io_cq = free_mem (λ s. s.io.io_cq_mem) set_io_cq

abbrev pub free_prp_list : State → State
free_prp_list = free_mem (λ s. s.io.io_prp_list_mem) set_prp_list

-- The three buffers, each released when a later one cannot be had.
unfoldable pub alloc_io_queues : Platform → (sq_depth cq_depth : ℕ) → Call ⊤
alloc_io_queues p sq_depth cq_depth = do
  nvme_alloc_dma_mem p (round_up_page (16 * cq_depth)) set_io_cq
  or_undo free_io_cq (nvme_alloc_dma_mem p (round_up_page (64 * sq_depth)) set_io_sq)
  or_undo (λ s. free_io_cq (free_io_sq s))
      (nvme_alloc_dma_mem p (page_size * sq_depth) set_prp_list)
  memset (λ s. s.io.io_cq_mem)
  memset (λ s. s.io.io_sq_mem)
  memset (λ s. s.io.io_prp_list_mem)

-- The state of a queue pair that the controller has created.
unfoldable pub created : (cap qid sq_depth cq_depth : ℕ) → State → State
created cap qid sq_depth cq_depth s = record s {
  io = record s.io {
    io_sq_head = 0;
    io_sq_tail = 0;
    ic_cq_head = 0;
    io_cq_pahse = 1;
    io_sq_phys_addr = s.io.io_sq_mem.dma_addr;
    io_cq_phys_addr = s.io.io_cq_mem.dma_addr;
    io_prp_list_phys_addr = s.io.io_prp_list_mem.dma_addr;
    io_sq_virt_addr = s.io.io_sq_mem.user_virtaddr;
    io_cq_virt_addr = s.io.io_cq_mem.user_virtaddr;
    io_prp_list_virt_addr = s.io.io_prp_list_mem.user_virtaddr;
    io_sq_depth = sq_depth;
    io_cq_depth = cq_depth;
    io_sq_tail_db = io_sq_tail_doorbell cap qid;
    io_cq_head_db = io_cq_head_doorbell cap qid;
  };
}

unfoldable pub create_io_queue_pair : Platform → Call ⊤
create_io_queue_pair p = do
  no_queue ← get no_admin_queue
  fail_if no_queue
  opened ← get (λ s. s.ctrl.dma_fd_opened)
  fail_if (not opened)
  cap ← nvme_reg_read64 p reg_cap
  qid ← get (λ s. nvme_io_qid s.io)
  fail_if (ready_timeout_ms cap == 0)
  sq_asked ← get (λ s. s.io.io_sq_depth)
  sq_depth ← queue_depth sq_asked (cap_mqes_entries cap)
  cq_asked ← get (λ s. s.io.io_cq_depth)
  cq_depth ← queue_depth cq_asked (cap_mqes_entries cap)
  alloc_io_queues p sq_depth cq_depth
  cq_phys ← get (λ s. s.io.io_cq_mem.dma_addr)
  admin_command p create_io_cq_opcode cq_phys (bit_or qid (u32 ((cq_depth - 1) <<< 16)))
      queue_phys_contiguous
  sq_phys ← get (λ s. s.io.io_sq_mem.dma_addr)
  admin_command p create_io_sq_opcode sq_phys (bit_or qid (u32 ((sq_depth - 1) <<< 16)))
      (bit_or (u32 (qid <<< 16)) queue_phys_contiguous)
  modify (created cap qid sq_depth cq_depth)

-- `n->io_sq_virt_addr == NULL && …`
abbrev pub no_io_queue : State → Bool
no_io_queue s =
    s.io.io_sq_virt_addr == 0
    && s.io.io_cq_virt_addr == 0
    && s.io.io_u_data_virt_addr == 0
    && s.io.io_u_data_phys_addr == 0

unfoldable pub delete_command : Platform → (opcode queue qid : ℕ) → Call ⊤
delete_command p opcode queue qid = if queue != 0 then admin_command p opcode 0 qid 0 else pure tt

-- Everything after the commands.
unfoldable pub deleted : State → State
deleted s =
    let t = record s {
      io = record s.io {
        io_sq_head = 0;
        io_sq_tail = 0;
        ic_cq_head = 0;
        io_cq_pahse = 0;
        io_sq_phys_addr = 0;
        io_cq_phys_addr = 0;
        io_prp_list_phys_addr = 0;
        io_u_data_phys_addr = 0;
        io_sq_virt_addr = 0;
        io_cq_virt_addr = 0;
        io_prp_list_virt_addr = 0;
        io_u_data_virt_addr = 0;
      };
    } in
    let u =
      free_mem (λ (r : State). r.io.io_u_data_mem)
        (λ m r. record r { io = record r.io { io_u_data_mem = m } })
        (free_prp_list (free_io_cq (free_io_sq t))) in
    record u {
      io = record u.io { io_sq_depth = 0; io_cq_depth = 0; io_sq_tail_db = 0; io_cq_head_db = 0 };
    }

unfoldable pub delete_queues : Platform → Call ⊤
delete_queues p = do
  cap ← nvme_reg_read64 p reg_cap
  qid ← get (λ s. nvme_io_qid s.io)
  fail_if (ready_timeout_ms cap == 0)
  sq ← get (λ s. s.io.io_sq_virt_addr)
  delete_command p delete_io_sq_opcode sq qid
  cq ← get (λ s. s.io.io_cq_virt_addr)
  delete_command p delete_io_cq_opcode cq qid
  modify deleted

unfoldable pub delete_io_queue_pair : Platform → Call ⊤
delete_io_queue_pair p = do
  no_queue ← get no_admin_queue
  fail_if no_queue
  nothing ← get no_io_queue
  if nothing then pure tt else delete_queues p
