-- ===== src/Prp.antt =====
-- `setup_prps` of tools/nvme.c: the physical region pages of a transfer.
pub mod Cover
pub mod Frame
pub mod Entries
pub mod Pages
mod Tests
use fioplugin.Prelude.{ℕ, zero, suc, ◌+◌, ◌-◌, ◌^◌, bit_and, ◌∷◌, ◌==◌, if◌then◌else◌}
use fioplugin.Prelude.Word.{u64, ◌<<<◌, ◌>>>◌}
use fioplugin.Machine.{Event, Log}
use fioplugin.Nvme.{NvmeData, page_size, page_shift, page_mask}

-- `nvme_page_offset`
pub page_offset : ℕ → ℕ
page_offset addr = bit_and addr page_mask

-- `nvme_page_align_up`; `~(uint64_t)NVME_PAGE_MASK` is `2^64 - 1 - page_mask`
pub page_align_up : ℕ → ℕ
page_align_up addr = bit_and (u64 (addr + page_mask)) (2 ^ 64 - 1 - page_mask)

-- `while (remaining_pages != 0u)`
pub write_list : ℕ → ℕ → ℕ → Log → Log
write_list zero list next_page log = log
write_list (suc remaining_pages) list next_page log =
    write_list remaining_pages (list + 8) (u64 (next_page + page_size))
      (Event.store 8 list next_page ∷ log)

-- What goes out through `*prp1` and `*prp2`, and the log with the list's stores.
pub record Prps : Type 0 where
  pub prp1 : ℕ
  pub prp2 : ℕ
  pub log : Log

-- `(total_size + NVME_PAGE_MASK) >> NVME_PAGE_SHIFT`
pub page_count : ℕ → ℕ → ℕ
page_count dma_addr transfer_size =
    let total_size : ℕ = u64 (page_offset dma_addr + transfer_size) in
    u64 (total_size + page_mask) >>> page_shift

pub setup_prps : NvmeData → ℕ → ℕ → ℕ → Log → Prps
setup_prps n sq_slot dma_addr transfer_size log =
    let pages : ℕ = page_count dma_addr transfer_size in
    let next_page : ℕ = page_align_up dma_addr in
    let list_offset : ℕ = u64 (sq_slot <<< page_shift) in
    if pages == 1
    then record { prp1 = dma_addr; prp2 = 0; log = log }
    else if pages == 2
    then record { prp1 = dma_addr; prp2 = next_page; log = log }
    else record {
      prp1 = dma_addr;
      prp2 = u64 (n.io_prp_list_phys_addr + list_offset);
      log =
          write_list (u64 (pages + 2 ^ 64 - 1)) (n.io_prp_list_virt_addr + list_offset) next_page
            log;
    }
