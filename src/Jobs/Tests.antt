-- ===== src/Jobs/Tests.antt =====
-- A thread from its setup to its cleanup, on a machine that answers.
use fioplugin.Prelude.{refl, ◌==◌, if◌then◌else◌, true, none, some, List, [], ◌∷◌, arith}
use fioplugin.Machine.{Platform}
use fioplugin.Call.{◌>>=◌, ◌>>◌, or_undo, fail_if, get, modify, pure}
use fioplugin.Dma.{
  nvme_alloc_dma_mem, nvme_dma_open_controller, dma_open, dma_open_domain, find_device,
  is_genpci_name, starts_with, path_fits, bdf_matches, alloc_dma, is_no_mem, free_dma,
}
use fioplugin.Regs.{
  nvme_reg_read64, nvme_reg_write64, controller_reg_read32, controller_reg_write32,
  ready_timeout_ms, cap_mqes_entries, round_up_page, admin_sq_tail_doorbell, admin_cq_head_doorbell,
  cap_dstrd,
}
use fioplugin.Admin.{
  ring_admin, write_admin, submit_admin_command, look_cqe, next_admin_cqe, take_admin_cqe,
  wait_admin_completion, next_admin_cmd_id, admin_command,
}
use fioplugin.Init.{
  controller_init, map_bar0, controller_bar0_map, open_pci_bar0, pci_bdf_is_valid, read_cap, start,
  alloc_admin_queues, disable, enable, initialised, wait_ready, check_csts,
}
use fioplugin.QueuePair.{nvme_io_qid, queue_depth, alloc_io_queues, created, create_io_queue_pair}
use fioplugin.Target.{
  Strtoul, parse_target, after_bus, after_dev, after_func, after_nsid, parse_ulong_field, bounded,
  delimited,
}
use fioplugin.Jobs.{
  Shared, ThreadData, nvme_setup, share_controller, set_up, came_up, then_files, size_files,
  nvme_init, attach, attached, new_data, nvme_size, nvme_cleanup, detach, nvme_free, free_for,
}
use fioplugin.Jobs.Keep.{nvme_size-Inv}
use fioplugin.Jobs.Steps.{
  Step, setup, init, cleanup, free, fresh, NoWrap, run_step, run_steps, SharesAfter,
  run_steps-Shares,
}
use fioplugin.Sample.{lane, controller, genpci0}

-- CAP has room for 256 entries; the controller is ready, and the first two admin commands complete.
abbrev serving : Platform
serving = record {
  reg = λ _ a. if a == 0x6000000 then 0x100_00ff else if a == 0x600001c then 1 else 0;
  mem = λ _ _ a.
      if a == 0xc00000e then 1 else if a == 0xc00001e then 1 else if a == 0xc00001c then 1 else 0;
  open_bar0 = λ _ _ _ _. some 3;
  mmap = λ _ _ fd. if fd == 3 then some 0x6000000 else some 0xc000000;
  munmap = λ _ _ _. true;
  get_meminfo = λ _ _. some (record { kernel_virtaddr = 1; dma_addr = 0x600000; size = 32768 });
  dev_entries = λ _. some (genpci0 ∷ []);
  open_dev = λ _ _. some 4;
  get_bdf = λ _ _. some (record { domain = 0; bus = 1; dev = 0; func = 0 });
}

-- Reads names of the form `1:0.0,1`, with a digit for each field.
abbrev one_digit : Strtoul
one_digit [] base = none
one_digit (c ∷ rest) base = if c == 48 then some (0, rest) else some (1, rest)

abbrev thread : ThreadData
thread = record {
  td = 77;
  nr_files = 1;
  use_thread = true;
  iodepth = 7;
  first_name = none;
  filename = some (49 ∷ 58 ∷ 48 ∷ 46 ∷ 48 ∷ 44 ∷ 49 ∷ []);
  files = [];
}

abbrev life : List Step
life = setup true thread ∷ init true thread ∷ free 77 ∷ cleanup 77 ∷ []

-- The state with the controller, and with the thread.
abbrev set_up_state : Shared
set_up_state = (nvme_setup serving one_digit true (nvme_size serving) thread fresh).1

life-NoWrap : NoWrap serving one_digit (nvme_size serving) life fresh
unfolding run_step nvme_setup share_controller set_up came_up then_files size_files nvme_init attach
    attached new_data parse_target after_bus after_dev after_func after_nsid parse_ulong_field
    bounded delimited controller_init map_bar0 controller_bar0_map open_pci_bar0 pci_bdf_is_valid
    read_cap start alloc_admin_queues disable enable initialised wait_ready check_csts
    ready_timeout_ms round_up_page nvme_reg_read64 nvme_reg_write64 controller_reg_read32
    controller_reg_write32 nvme_alloc_dma_mem nvme_dma_open_controller dma_open dma_open_domain
    find_device is_genpci_name starts_with path_fits bdf_matches alloc_dma is_no_mem or_undo fail_if
    get modify pure ◌>>=◌ ◌>>◌ nvme_cleanup detach nvme_free free_for create_io_queue_pair
    nvme_io_qid queue_depth cap_mqes_entries alloc_io_queues created ring_admin write_admin
    submit_admin_command look_cqe next_admin_cqe take_admin_cqe wait_admin_completion
    next_admin_cmd_id admin_command free_dma admin_sq_tail_doorbell admin_cq_head_doorbell cap_dstrd
life-NoWrap = (tt, ((omega arith, refl), (tt, (tt, tt))))

run_steps-Shares_example : SharesAfter (run_steps serving one_digit (nvme_size serving) life fresh)
run_steps-Shares_example =
    run_steps-Shares serving one_digit (nvme_size serving) (nvme_size-Inv serving) life life-NoWrap

-- One thread that is attached.
abbrev one_thread : Shared
one_thread = record {
  curr_thread_num = 1;
  next_io_qid = 2;
  g_ctrl = some controller;
  io_ops_data = (77, lane) ∷ [];
  sizes = [];
  log = [];
}
