-- ===== src/QueuePair/Tests.antt =====
-- A queue pair that is created.
use fioplugin.Poll.Protocol.{Posts, slot_address, tag}
use fioplugin.Prelude.Word.{u16}
use fioplugin.Engine.Flight.{IsBalanced}
use fioplugin.Engine.Flight.Run.{fresh, create_io_queue_pair-IsBalanced}
use fioplugin.Prelude.{
  ℕ, ◌+◌, ◌%◌, ◌≢◌, arith, [], ◌≡◌, refl, ap, ◌==◌, if◌then◌else◌, true, none, some,
}
use fioplugin.Machine.{Platform}
use fioplugin.Nvme.{State}
use fioplugin.Call.{◌>>=◌, ◌>>◌, or_undo, fail_if, get, modify, pure}
use fioplugin.Dma.{nvme_alloc_dma_mem, nvme_dma_open_controller, alloc_dma, is_no_mem}
use fioplugin.Regs.{
  nvme_reg_read64, controller_reg_read32, controller_reg_write32, ready_timeout_ms,
  cap_mqes_entries, round_up_page,
}
use fioplugin.Admin.{
  ring_admin, write_admin, submit_admin_command, look_cqe, next_admin_cqe, take_admin_cqe,
  wait_admin_completion, next_admin_cmd_id, admin_command,
}
use fioplugin.QueuePair.{nvme_io_qid, queue_depth, alloc_io_queues, created, create_io_queue_pair}
use fioplugin.QueuePair.{delete_io_queue_pair}
use fioplugin.Sample.{ready}

-- CAP has room for 256 entries, and commands 0 and 1 of the admin queue have completed.
abbrev serving : Platform
serving = record {
  reg = λ _ a. if a == 0x6000000 then 0x100_00ff else 0;
  mem = λ _ _ a.
      if a == 0xb00100e then 1 else if a == 0xb00101e then 1 else if a == 0xb00101c then 1 else 0;
  open_bar0 = λ _ _ _ _. none;
  mmap = λ _ _ _. some 0xc000000;
  munmap = λ _ _ _. true;
  get_meminfo = λ _ _. some (record { kernel_virtaddr = 1; dma_addr = 0x600000; size = 32768 });
  dev_entries = λ _. none;
  open_dev = λ _ _. none;
  get_bdf = λ _ _. none;
}

-- A thread without requests.
abbrev blank : State
blank = record ready { io = record ready.io { cmd_io_u = λ _. 0 } }

abbrev with_pair : State
with_pair = (create_io_queue_pair serving blank).1

creates : create_io_queue_pair serving blank ≡ (some tt, with_pair)
unfolding create_io_queue_pair nvme_io_qid queue_depth alloc_io_queues created ring_admin
    write_admin submit_admin_command look_cqe next_admin_cqe take_admin_cqe wait_admin_completion
    next_admin_cmd_id admin_command nvme_reg_read64 controller_reg_read32 controller_reg_write32
    ready_timeout_ms cap_mqes_entries round_up_page nvme_alloc_dma_mem nvme_dma_open_controller
    alloc_dma is_no_mem ◌>>=◌ ◌>>◌ or_undo fail_if get modify pure
creates = refl

with_pair_parts :
    (with_pair.io.io_cq_virt_addr ≡ 0xc000000)
    × (with_pair.io.io_cq_depth ≡ 8)
    × (with_pair.io.cmd_io_u ≡ λ _. 0)
    × (with_pair.ctrl.lba_shift ≡ 9)
unfolding create_io_queue_pair nvme_io_qid queue_depth alloc_io_queues created ring_admin
    write_admin submit_admin_command look_cqe next_admin_cqe take_admin_cqe wait_admin_completion
    next_admin_cmd_id admin_command nvme_reg_read64 controller_reg_read32 controller_reg_write32
    ready_timeout_ms cap_mqes_entries round_up_page nvme_alloc_dma_mem nvme_dma_open_controller
    alloc_dma is_no_mem ◌>>=◌ ◌>>◌ or_undo fail_if get modify pure
with_pair_parts = (refl, refl, refl, refl)

none_posted : Posts serving 0xc000000 8 (λ _. record { sqhd = 0; cid = 0; status = 0 }) (λ _. 0)
none_posted = record {
  psf = λ _ k h _. absurd (omega arith);
  cid = λ _ k h _. absurd (omega arith);
  sqhd = λ _ k h _. absurd (omega arith);
  empty = λ _ k e. empty k e;
  more = λ _ _ _. omega arith;
}
  where
    empty : (k : ℕ) → k ≡ 0 → u16 (serving.mem [] 2 (slot_address 0xc000000 8 k + 14)) % 2 ≢ tag 8 k
    empty k e = rw e (λ (z : 0 ≡ 1). absurd (omega arith))

create_io_queue_pair-IsBalanced_example :
    IsBalanced serving
      (λ _. record { sqhd = 0; cid = 0; status = 0 })
      (λ _. 0)
      (λ j. j)
      (fresh with_pair)
create_io_queue_pair-IsBalanced_example =
    create_io_queue_pair-IsBalanced blank with_pair creates
      (record {
        posts = rw (with_pair_parts.0, with_pair_parts.1) none_posted;
        kept = λ _ _. omega arith;
      })
      (λ c. ap (λ f. f c) with_pair_parts.2) (omega (arith, with_pair_parts.3)) refl

abbrev without_pair : State
without_pair = (delete_io_queue_pair serving ready).1
