-- ===== src/Identify/Tests.antt =====
-- A namespace of 1000 blocks of 512 bytes.
use fioplugin.Prelude.{◌==◌, if◌then◌else◌, true, none, some}
use fioplugin.Machine.{Platform}
use fioplugin.Nvme.{State}
use fioplugin.Identify.{nvme_get_file_size}
use fioplugin.Sample.{ready}

-- The buffer is mapped at 0xc000000, and command 0 of the admin queue has completed.
abbrev identifying : Platform
identifying = record {
  reg = λ _ a. if a == 0x6000000 then 0x100_00ff else 0;
  mem = λ _ _ a.
      if a == 0xb00100e
      then 1
      else if a == 0xc000000
      then 1000
      else if a == 0xc000082
      then 9
      else 0;
  open_bar0 = λ _ _ _ _. none;
  mmap = λ _ _ _. some 0xc000000;
  munmap = λ _ _ _. true;
  get_meminfo = λ _ _. some (record { kernel_virtaddr = 1; dma_addr = 0x600000; size = 4096 });
  dev_entries = λ _. none;
  open_dev = λ _ _. none;
  get_bdf = λ _ _. none;
}

abbrev with_size : State
with_size = (nvme_get_file_size identifying ready).1
