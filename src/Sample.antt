-- ===== src/Sample.antt =====
-- A thread and its controller with concrete values: eight slots, pages of lists at 0x100000 that are
-- mapped at 0x7000000, and blocks of 512 bytes.
pub mod Completions
use fioplugin.Prelude.{ℕ, zero, suc, ◌+◌, true, List, [], ◌∷◌}
use fioplugin.Nvme.{Controller, NvmeData, State, no_mem}

-- Commands 1 and 2 are under way.
abbrev pub under_way : ℕ → ℕ
under_way zero = 0
under_way (suc zero) = 501
under_way (suc (suc zero)) = 502
under_way (suc (suc (suc _))) = 0

abbrev pub lane : NvmeData
lane = record {
  io_sq_head = 0;
  io_sq_tail = 2;
  ic_cq_head = 0;
  io_cq_pahse = 1;
  io_sq_phys_addr = 0x200000;
  io_sq_virt_addr = 0x8000000;
  io_sq_mem = no_mem;
  io_cq_phys_addr = 0x300000;
  io_cq_virt_addr = 0x9000000;
  io_cq_mem = no_mem;
  io_prp_list_phys_addr = 0x100000;
  io_prp_list_virt_addr = 0x7000000;
  io_prp_list_mem = no_mem;
  io_u_data_phys_addr = 0x400100;
  io_u_data_virt_addr = 0xa000100;
  io_u_data_mem = no_mem;
  io_sq_depth = 8;
  io_cq_depth = 8;
  io_qid = 1;
  io_cmd_id = 2;
  io_sq_tail_db = 0x1008;
  io_cq_head_db = 0x100c;
  cmd_io_u = under_way;
  events = λ _. 0;
  nr_events = 0;
}

abbrev pub controller : Controller
controller = record {
  bus = 1;
  dev = 0;
  func = 0;
  nsid = 1;
  bar0_phys = 0;
  bar0_virt = 0x6000000;
  admin_sq_tail = 0;
  admin_cq_head = 0;
  admin_cq_phase = 1;
  admin_sq_phys_addr = 0x500000;
  admin_sq_virt_addr = 0xb000000;
  admin_sq_mem = no_mem;
  admin_cq_phys_addr = 0x501000;
  admin_cq_virt_addr = 0xb001000;
  admin_cq_mem = no_mem;
  admin_sq_depth = 32;
  admin_cq_depth = 32;
  admin_cmd_id = 0;
  admin_sq_tail_db = 0x1000;
  admin_cq_head_db = 0x1004;
  lba_shift = 9;
  size = 0;
  dma_fd = 3;
  dma_fd_opened = true;
}

abbrev pub ready : State
ready = record { ctrl = controller; io = lane; log = [] }

-- The bytes of `genpci0`.
abbrev pub genpci0 : List ℕ
genpci0 = 103 ∷ 101 ∷ 110 ∷ 112 ∷ 99 ∷ 105 ∷ 48 ∷ []

-- Where the pages of lists are mapped.
abbrev pub virt_of : ℕ → ℕ
virt_of a = a + 0x6f00000
