-- ===== src/Submit/Tests.antt =====
-- The submissions at inputs.
use fioplugin.Prelude.{ℕ, zero, suc, refl, inl, inr, arith, ◌<◌, ◌^◌}
use fioplugin.Prp.Cover.{Fits}
use fioplugin.Submit.{TrimRange, nvme_read, nvme_write, nvme_multi_range_trim}
use fioplugin.Submit.Commands.{IsReady}
use fioplugin.Submit.Transfer.{Announces, nvme_read-Announces, nvme_write-Announces}
use fioplugin.Submit.Ranges.{Deallocates, blocks, nvme_multi_range_trim-Deallocates}
use fioplugin.Sample.{ready, virt_of}

ready-IsReady : IsReady ready
ready-IsReady = record {
  tail_in = omega arith;
  small = omega arith;
  nsid_fits = omega arith;
  apart = inr (omega arith);
  list_phys = omega arith;
}

-- Twenty blocks over four pages.
blocks-Fits : Fits ready.io virt_of 2 0x40_0100 0x2800
blocks-Fits = record {
  some_bytes = omega arith;
  no_wrap = omega arith;
  slot_fits = omega arith;
  mapped = refl;
}

nvme_read-Announces_example :
    Announces ready virt_of 700 20 0x40_0100 2 (nvme_read ready 700 20 0x40_0100)
nvme_read-Announces_example =
    nvme_read-Announces 700 20 0x40_0100 ready-IsReady blocks-Fits (omega arith) (omega arith)
      (omega arith) (inl (omega arith)) (omega arith)

nvme_write-Announces_example :
    Announces ready virt_of 700 20 0x40_0100 1 (nvme_write ready 700 20 0x40_0100)
nvme_write-Announces_example =
    nvme_write-Announces 700 20 0x40_0100 ready-IsReady blocks-Fits (omega arith) (omega arith)
      (omega arith) (inl (omega arith)) (omega arith)

abbrev two_ranges : ℕ → TrimRange
two_ranges zero = record { start = 0x1000; len = 0x400 }
two_ranges (suc _) = record { start = 0x8000; len = 0x200 }

two_ranges-fit : (m : ℕ) → (two_ranges m).start < 2 ^ 64
two_ranges-fit zero = omega arith
two_ranges-fit (suc m) = omega arith

nvme_multi_range_trim-Deallocates_example :
    Deallocates ready 2 (λ j. blocks 9 (two_ranges j)) (nvme_multi_range_trim ready 2 two_ranges)
nvme_multi_range_trim-Deallocates_example =
    nvme_multi_range_trim-Deallocates ready-IsReady 2 two_ranges (omega arith) (omega arith)
      two_ranges-fit
