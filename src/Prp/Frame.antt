-- ===== src/Prp/Frame.antt =====
-- Where `setup_prps` writes: the page of the list area that belongs to the slot.
use native.Mathlib.Decide.{dec_le}
use fioplugin.Prelude.{ℕ, ◌+◌, ◌-◌, ◌*◌, ◌/◌, ◌%◌, ◌^◌, ◌≤◌, ◌<◌, ◌≡◌, ◌∙◌, ◌⊎◌, arith}
use fioplugin.Prelude.Word.{u64, ◌<<<◌}
use fioplugin.Machine.{Log}
use fioplugin.Machine.Memory.{load}
use fioplugin.Nvme.{NvmeData, page_shift}
use fioplugin.Prp.{page_count, setup_prps}
use fioplugin.Prp.Pages.{page_count-div, page_align_up-mul}
use fioplugin.Prp.Entries.{load-write_list, load-write_list-frame}
use fioplugin.Prp.Cover.{Fits, setup_prps-one, setup_prps-two, setup_prps-list}

module _ {n : NvmeData} {virt_of : ℕ → ℕ} {slot addr size : ℕ} (log : Log)
    (fits : Fits n virt_of slot addr size) where
  abbrev Kept : ℕ → ℕ → Type 0
  Kept k x = load k (setup_prps n slot addr size log).log x ≡ load k log x

  pages : page_count addr size ≡ (addr % 4096 + size + 4095) / 4096
  pages = page_count-div addr size (omega arith)

  pub prp2-lt : (setup_prps n slot addr size log).prp2 < 2 ^ 64
  prp2-lt = elim (dec_le (addr % 4096 + size) 4096) [
    | yes one ↦ rw (setup_prps-one n slot addr size log (pages ∙ omega arith)) (omega arith)
    | no more ↦ elim (dec_le (addr % 4096 + size) 8192) [
      | yes two ↦
          rw
            (
              setup_prps-two n slot addr size log (pages ∙ omega arith),
              page_align_up-mul addr (omega arith),
            )
            (omega arith)
      | no listed ↦
          let m : ℕ = (addr % 4096 + size + 4095) / 4096 - 3 in
          rw (setup_prps-list n slot addr size log m (pages ∙ omega arith) (omega arith))
            (omega arith)
    ]
  ]

  pub prp2-listed :
      8192 < addr % 4096 + size
      → (setup_prps n slot addr size log).prp2 ≡ n.io_prp_list_phys_addr + slot * 4096
  prp2-listed listed =
      let m : ℕ = (addr % 4096 + size + 4095) / 4096 - 3 in
      rw (setup_prps-list n slot addr size log m (pages ∙ omega arith) (omega arith)) (omega arith)

  -- For a transfer of some bytes whose addresses do not wrap, of at most 513 pages: memory outside the
  -- slot's page of the list area stays as it was.
  pub setup_prps-keeps :
      (k x : ℕ)
      → addr % 4096 + size ≤ 4096 * 513
      → (x + k ≤ n.io_prp_list_virt_addr + slot * 4096)
        ⊎ (n.io_prp_list_virt_addr + (slot + 1) * 4096 ≤ x)
      → load k (setup_prps n slot addr size log).log x ≡ load k log x
  setup_prps-keeps k x few out = elim (dec_le (addr % 4096 + size) 4096) [
    | yes one ↦ rw (setup_prps-one n slot addr size log (pages ∙ omega arith))
    | no more ↦ elim (dec_le (addr % 4096 + size) 8192) [
      | yes two ↦ rw (setup_prps-two n slot addr size log (pages ∙ omega arith))
      | no listed ↦
          let m : ℕ = (addr % 4096 + size + 4095) / 4096 - 3 in
          let offset : u64 (slot <<< page_shift) ≡ slot * 4096 = omega arith in
          rw (setup_prps-list n slot addr size log m (pages ∙ omega arith) (omega arith), offset)
            (load-write_list-frame (m + 2) (n.io_prp_list_virt_addr + slot * 4096) _ log k x
              (omega arith))
    ]
  ]

  -- For a transfer of some bytes whose addresses do not wrap, of more than 513 pages: its 513th list
  -- entry stands where the list of the next slot begins.
  pub setup_prps-spills :
      4096 * 513 < addr % 4096 + size
      → load 8 (setup_prps n slot addr size log).log (n.io_prp_list_virt_addr + (slot + 1) * 4096)
        ≡ (addr + 4095) / 4096 * 4096 + 4096 * 512
  setup_prps-spills many =
      let m : ℕ = (addr % 4096 + size + 4095) / 4096 - 3 in
      let offset : u64 (slot <<< page_shift) ≡ slot * 4096 = omega arith in
      let at : n.io_prp_list_virt_addr + (slot + 1) * 4096
          ≡ n.io_prp_list_virt_addr + slot * 4096 + 8 * 512 =
        omega arith in
      rw
        (
          setup_prps-list n slot addr size log m (pages ∙ omega arith) (omega arith),
          offset,
          at,
          page_align_up-mul addr (omega arith),
        )
        (load-write_list (m + 2) (n.io_prp_list_virt_addr + slot * 4096)
          ((addr + 4095) / 4096 * 4096) log 512 (omega arith) (omega arith))
