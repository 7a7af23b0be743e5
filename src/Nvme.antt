-- ===== src/Nvme.antt =====
-- The structures and constants of tools/nvme.h and tools/nvme.c, and `struct mem` of
-- tools/lib/driver/common.h. A pointer is its address, and `NULL` is 0.
use fioplugin.Prelude.{ℕ, ◌-◌, Bool}
use fioplugin.Machine.{Log}

abbrev pub page_size : ℕ
page_size = 4096

abbrev pub page_shift : ℕ
page_shift = 12

abbrev pub page_mask : ℕ
page_mask = page_size - 1

-- `1u << (NVME_PAGE_SHIFT - NVME_PRP_LIST_ENTRY_SHIFT)`
abbrev pub prp_list_entries : ℕ
prp_list_entries = 512

-- `struct mem`
pub record Mem : Type 0 where
  pub fd : ℕ
  pub kernel_virtaddr : ℕ
  pub user_virtaddr : ℕ
  pub dma_addr : ℕ
  pub size : ℕ

-- `(struct mem){ 0 }`
abbrev pub no_mem : Mem
no_mem = record { fd = 0; kernel_virtaddr = 0; user_virtaddr = 0; dma_addr = 0; size = 0 }

-- `struct controller_data`, one for each controller
pub record Controller : Type 0 where
  pub bus : ℕ
  pub dev : ℕ
  pub func : ℕ
  pub nsid : ℕ
  pub bar0_phys : ℕ
  pub bar0_virt : ℕ
  pub admin_sq_tail : ℕ
  pub admin_cq_head : ℕ
  pub admin_cq_phase : ℕ
  pub admin_sq_phys_addr : ℕ
  pub admin_sq_virt_addr : ℕ
  pub admin_sq_mem : Mem
  pub admin_cq_phys_addr : ℕ
  pub admin_cq_virt_addr : ℕ
  pub admin_cq_mem : Mem
  pub admin_sq_depth : ℕ
  pub admin_cq_depth : ℕ
  pub admin_cmd_id : ℕ
  pub admin_sq_tail_db : ℕ
  pub admin_cq_head_db : ℕ
  pub lba_shift : ℕ
  pub size : ℕ
  pub dma_fd : ℕ
  pub dma_fd_opened : Bool

-- `struct nvme_data`, one for each thread. Its pointer to the controller is the `ctrl` of `State`;
-- the spelling of `io_cq_pahse` is the source's.
pub record NvmeData : Type 0 where
  pub io_sq_head : ℕ
  pub io_sq_tail : ℕ
  pub ic_cq_head : ℕ
  pub io_cq_pahse : ℕ
  pub io_sq_phys_addr : ℕ
  pub io_sq_virt_addr : ℕ
  pub io_sq_mem : Mem
  pub io_cq_phys_addr : ℕ
  pub io_cq_virt_addr : ℕ
  pub io_cq_mem : Mem
  pub io_prp_list_phys_addr : ℕ
  pub io_prp_list_virt_addr : ℕ
  pub io_prp_list_mem : Mem
  pub io_u_data_phys_addr : ℕ
  pub io_u_data_virt_addr : ℕ
  pub io_u_data_mem : Mem
  pub io_sq_depth : ℕ
  pub io_cq_depth : ℕ
  pub io_qid : ℕ
  pub io_cmd_id : ℕ
  pub io_sq_tail_db : ℕ
  pub io_cq_head_db : ℕ
  -- the arrays `cmd_io_u` and `events` of 65536 pointers to `struct io_u`
  pub cmd_io_u : ℕ → ℕ
  pub events : ℕ → ℕ
  pub nr_events : ℕ

-- What a function of tools/nvme.c can reach: the controller, the data of its thread and the machine.
pub record State : Type 0 where
  pub ctrl : Controller
  pub io : NvmeData
  pub log : Log
