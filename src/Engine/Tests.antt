-- ===== src/Engine/Tests.antt =====
-- The callbacks for each I/O at inputs.
use fioplugin.Prelude.{◌≡◌, refl, none, true, leb, arith, false}
use fioplugin.Engine.{Ddir, IoU, Thread, nvme_queue, nvme_getevents}
use fioplugin.Engine.Events.{Returned, nvme_getevents-Returned}
use fioplugin.Machine.{Platform}
use fioplugin.Engine.Queue.{nvme_queue-Outcome}
use fioplugin.Engine.Dispatch.{Outcome}
use fioplugin.Engine.Trim.{nvme_queue-one_range}
use fioplugin.Sample.{ready}
use fioplugin.Sample.Completions.{entries, device, two, device-Posts, entries-AreExpected}
use fioplugin.Engine.Rounds.{restarted}
use fioplugin.Engine.Collect.{Gathered, nvme_getevents-Gathered}

abbrev thread : Thread
thread = record { orig_buffer = 0xa000100; num_range = 1; has_mrt = false }

abbrev write_request : IoU
write_request = record {
  ptr = 503;
  ddir = Ddir.write;
  offset = 0x2000;
  xfer_buflen = 0x1000;
  xfer_buf = 0xa001100;
  number_trim = 0;
  trim_ranges = λ _. record { start = 0; len = 0 };
}

nvme_queue-Outcome_example : Outcome write_request ready (nvme_queue thread write_request ready)
nvme_queue-Outcome_example = nvme_queue-Outcome thread write_request ready (omega arith)

-- Eight blocks to trim.
abbrev trim_request : IoU
trim_request = record write_request {
  ddir = Ddir.trim;
  number_trim = 1;
  trim_ranges = λ _. record { start = 0x2000; len = 0x1000 };
}

abbrev four_ranges : Thread
four_ranges = record { orig_buffer = 0xa000100; num_range = 4; has_mrt = true }

nvme_queue-one_range_example :
    nvme_queue thread trim_request ready ≡ nvme_queue four_ranges trim_request ready
nvme_queue-one_range_example =
    nvme_queue-one_range trim_request ready (record { trims = refl; one = refl; range = refl })
      thread four_ranges

-- A device that posts nothing.
abbrev quiet : Platform
quiet = record {
  reg = λ _ _. 0;
  mem = λ _ _ _. 0;
  open_bar0 = λ _ _ _ _. none;
  mmap = λ _ _ _. none;
  munmap = λ _ _ _. true;
  get_meminfo = λ _ _. none;
  dev_entries = λ _. none;
  open_dev = λ _ _. none;
  get_bdf = λ _ _. none;
}

nvme_getevents-Returned_example :
    Returned quiet (λ i. leb 2 i) 1 4 ready (nvme_getevents quiet (λ i. leb 2 i) 3 1 4 ready)
nvme_getevents-Returned_example =
    nvme_getevents-Returned quiet (λ i. leb 2 i) 1 4 (omega arith) 2 ready refl

-- Two completions are posted.
nvme_getevents-Gathered_example :
    Gathered
      (device 1 1)
      (λ i. leb 2 i)
      1
      4
      entries
      two
      0
      2
      (restarted ready)
      (nvme_getevents (device 1 1) (λ i. leb 2 i) 3 1 4 ready)
nvme_getevents-Gathered_example =
    nvme_getevents-Gathered (λ i. leb 2 i) 1 4 2 0 ready
      (record { posts = device-Posts; kept = λ _ _. omega arith })
      (record {
        head = refl;
        phase = refl;
        reached = omega arith;
        bounded = λ _ _. omega arith;
        lap = omega arith;
        expected = entries-AreExpected;
      })
      (omega arith) (omega arith) (omega arith) refl
