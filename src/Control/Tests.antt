-- ===== src/Control/Tests.antt =====
-- A controller that comes up.
use fioplugin.Prelude.{◌+◌, ◌≡◌, refl, ◌==◌, if◌then◌else◌, false, true, some, [], ◌∷◌, ◌*◌, arith}
use fioplugin.Machine.{Platform}
use fioplugin.Nvme.{State}
use fioplugin.Call.{◌>>=◌, ◌>>◌, or_undo, fail_if, get, modify, pure}
use fioplugin.Dma.{
  nvme_alloc_dma_mem, nvme_dma_open_controller, dma_open, dma_open_domain, find_device,
  is_genpci_name, starts_with, path_fits, bdf_matches, alloc_dma, is_no_mem,
}
use fioplugin.Init.{
  controller_init, map_bar0, controller_bar0_map, open_pci_bar0, pci_bdf_is_valid, read_cap, start,
  alloc_admin_queues, disable, enable, wait_ready, check_csts, initialised,
}
use fioplugin.Regs.{
  nvme_reg_read64, nvme_reg_write64, controller_reg_read32, controller_reg_write32,
  ready_timeout_ms, cap_mpsmin, round_up_page, admin_sq_tail_doorbell, admin_cq_head_doorbell,
  io_sq_tail_doorbell, io_cq_head_doorbell,
}
use fioplugin.Regs.Doorbells.{stride, doorbells-at}
use fioplugin.Admin.Ring.{InBounds}
use fioplugin.Control.{Reachable-InBounds, init, create}
use fioplugin.QueuePair.{create_io_queue_pair}
use fioplugin.Sample.{ready, controller, genpci0}

-- BAR0 is mapped at 0x6000000. CAP has a timeout of one unit, CC is 0 and CSTS shows RDY.
abbrev platform : Platform
platform = record {
  reg = λ _ a. if a == 0x6000000 then 0x100_0000 else if a == 0x600001c then 1 else 0;
  mem = λ _ _ _. 0;
  open_bar0 = λ _ _ _ _. some 4;
  mmap = λ _ len _. if len == 0x4000 then some 0x6000000 else some 0xb000000;
  munmap = λ _ _ _. true;
  get_meminfo = λ _ _. some (record { kernel_virtaddr = 1; dma_addr = 0x500000; size = 4096 });
  dev_entries = λ _. some (genpci0 ∷ []);
  open_dev = λ _ _. some 5;
  get_bdf = λ _ _. some (record { domain = 0; bus = 1; dev = 0; func = 0 });
}

abbrev cold : State
cold = record ready {
  ctrl = record controller { bar0_virt = 0; dma_fd_opened = false; lba_shift = 0 };
}

doorbells-at_example :
    (admin_sq_tail_doorbell 0 ≡ 4096 + 2 * 0 * stride 0)
    × (admin_cq_head_doorbell 0 ≡ 4096 + (2 * 0 + 1) * stride 0)
    × (io_sq_tail_doorbell 0 3 ≡ 4096 + 2 * 3 * stride 0)
    × (io_cq_head_doorbell 0 3 ≡ 4096 + (2 * 3 + 1) * stride 0)
doorbells-at_example = doorbells-at 0 3 (omega arith)

abbrev warm : State
warm = (controller_init platform cold).1

comes_up : (controller_init platform cold).0 ≡ some tt
unfolding controller_init map_bar0 controller_bar0_map open_pci_bar0 pci_bdf_is_valid read_cap start
    alloc_admin_queues disable enable wait_ready check_csts initialised nvme_reg_read64
    nvme_reg_write64 controller_reg_read32 controller_reg_write32 ready_timeout_ms cap_mpsmin
    round_up_page nvme_alloc_dma_mem nvme_dma_open_controller dma_open dma_open_domain find_device
    is_genpci_name starts_with path_fits bdf_matches alloc_dma is_no_mem ◌>>=◌ ◌>>◌ or_undo fail_if
    get modify pure
comes_up = refl

Reachable-InBounds_example : InBounds (create_io_queue_pair platform warm).1.ctrl
Reachable-InBounds_example = Reachable-InBounds (create warm (init cold refl comes_up))
