-- ===== src/Prp/Cover.antt =====
-- The entries that `setup_prps` makes, read back the way an NVMe controller reads them.
use native.Mathlib.Decide.{dec_lt, dec_le}
use fioplugin.Prelude.{
  ◌≢◌, ℕ, ◌+◌, ◌-◌, ◌*◌, ◌/◌, ◌%◌, ◌^◌, ◌≤◌, ◌<◌, ◌≡◌, ◌∙◌, ap, ◌⊎◌, arith, Option, none, some,
  true, false, ltb, leb, if◌then◌else◌, ◌==◌,
}
use fioplugin.Prelude.Word.{u64, ◌<<<◌}
use fioplugin.Machine.{Log}
use fioplugin.Machine.Memory.{load}
use fioplugin.Nvme.{NvmeData, page_shift, prp_list_entries}
use fioplugin.Prp.{Prps, page_count, page_align_up, write_list, setup_prps}
use fioplugin.Prp.Pages.{page_count-div, page_align_up-mul}
use fioplugin.Prp.Entries.{load-write_list}

-- The physical address from which a controller takes byte `i` of a transfer of `size` bytes:
-- PRP1 up to the end of its page; then PRP2, which is the second page if there are two, and else
-- the address of a list of pages. It follows a list to the end of the list's page. `virt_of` leads
-- from a physical address to the virtual one at which the host wrote.
abbrev pub device_address : (ℕ → ℕ) → Prps → ℕ → ℕ → Option ℕ
device_address virt_of p size i =
    let behind : ℕ = p.prp1 % 4096 + i in
    if ltb behind 4096
    then some (p.prp1 + i)
    else if leb (p.prp1 % 4096 + size) 8192
    then some (p.prp2 + (behind - 4096))
    else if ltb (behind / 4096 - 1) prp_list_entries
    then some (load 8 p.log (virt_of p.prp2 + 8 * (behind / 4096 - 1)) + behind % 4096)
    else none

-- The three forms of the result, by the number of pages.
module _ (n : NvmeData) (slot addr size : ℕ) (log : Log) where
  pub setup_prps-one :
      page_count addr size ≡ 1
      → setup_prps n slot addr size log ≡ record { prp1 = addr; prp2 = 0; log = log }
  unfolding setup_prps
  setup_prps-one e = rw e

  pub setup_prps-two :
      page_count addr size ≡ 2
      → setup_prps n slot addr size log
        ≡ record { prp1 = addr; prp2 = page_align_up addr; log = log }
  unfolding setup_prps
  setup_prps-two e = rw e

  pub setup_prps-list :
      (m : ℕ)
      → page_count addr size ≡ m + 3
      → m < 2 ^ 52
      → let list_offset = u64 (slot <<< page_shift) in
        setup_prps n slot addr size log ≡ record {
          prp1 = addr;
          prp2 = u64 (n.io_prp_list_phys_addr + list_offset);
          log = write_list (m + 2) (n.io_prp_list_virt_addr + list_offset) (page_align_up addr) log;
        }
  unfolding setup_prps
  setup_prps-list m e h =
      let one : ((m + 3) == 1) ≡ false = ground arith in
      let two : ((m + 3) == 2) ≡ false = ground arith in
      let left : u64 (m + 3 + 2 ^ 64 - 1) ≡ m + 2 = omega arith in rw (e, one, two, left)

pub prp1-setup_prps :
    (n : NvmeData) (slot addr size : ℕ) (log : Log) → (setup_prps n slot addr size log).prp1 ≡ addr
unfolding setup_prps
prp1-setup_prps n slot addr size log = ground arith

-- What the transfer must be for the arithmetic not to wrap, and where the controller finds the list.
pub record Fits (n : NvmeData) (virt_of : ℕ → ℕ) (slot addr size : ℕ) : Type 0 where
  pub some_bytes : 0 < size
  pub no_wrap : addr + size + 8192 ≤ 2 ^ 64
  pub slot_fits : n.io_prp_list_phys_addr + (slot + 1) * 4096 ≤ 2 ^ 64
  pub mapped :
      virt_of (n.io_prp_list_phys_addr + slot * 4096) ≡ n.io_prp_list_virt_addr + slot * 4096

-- The branches of `device_address`.
module _ (virt_of : ℕ → ℕ) (p : Prps) (size i : ℕ) where
  first_page : p.prp1 % 4096 + i < 4096 → device_address virt_of p size i ≡ some (p.prp1 + i)
  first_page h = let t : ltb (p.prp1 % 4096 + i) 4096 ≡ true = ground arith in rw t

  second_page :
      4096 ≤ p.prp1 % 4096 + i
      → p.prp1 % 4096 + size ≤ 8192
      → device_address virt_of p size i ≡ some (p.prp2 + (p.prp1 % 4096 + i - 4096))
  second_page h few =
      let t : ltb (p.prp1 % 4096 + i) 4096 ≡ false = ground arith in
      let u : leb (p.prp1 % 4096 + size) 8192 ≡ true = ground arith in rw (t, u)

  listed_page :
      4096 ≤ p.prp1 % 4096 + i
      → 8192 < p.prp1 % 4096 + size
      → (p.prp1 % 4096 + i) / 4096 - 1 < 512
      → device_address virt_of p size i
        ≡ some (
            load 8 p.log (virt_of p.prp2 + 8 * ((p.prp1 % 4096 + i) / 4096 - 1))
            + (p.prp1 % 4096 + i) % 4096)
  listed_page h more inside =
      let t : ltb (p.prp1 % 4096 + i) 4096 ≡ false = ground arith in
      let u : leb (p.prp1 % 4096 + size) 8192 ≡ false = ground arith in
      let v : ltb ((p.prp1 % 4096 + i) / 4096 - 1) 512 ≡ true = ground arith in rw (t, u, v)

module _ {n : NvmeData} {virt_of : ℕ → ℕ} {slot addr size : ℕ} (log : Log)
    (fits : Fits n virt_of slot addr size) where
  -- The address `next_page + (off + i - 4096)`, which the code means for byte `i`.
  abbrev Behind : ℕ → Type 0
  Behind i =
      device_address virt_of (setup_prps n slot addr size log) size i
      ≡ some ((addr + 4095) / 4096 * 4096 + (addr % 4096 + i - 4096))

  pages : page_count addr size ≡ (addr % 4096 + size + 4095) / 4096
  pages = page_count-div addr size (omega arith)

  Behind-two : (i : ℕ) → 4096 ≤ addr % 4096 + i → i < size → addr % 4096 + size ≤ 8192 → Behind i
  Behind-two i behind h two =
      rw
        (
          setup_prps-two n slot addr size log (pages ∙ omega arith),
          page_align_up-mul addr (omega arith),
        )
        (second_page virt_of _ size i behind two)

  Behind-listed :
      (i : ℕ)
      → 4096 ≤ addr % 4096 + i
      → i < size
      → 8192 < addr % 4096 + size
      → addr % 4096 + size ≤ 4096 * 513
      → Behind i
  Behind-listed i behind h more few =
      let m : ℕ = (addr % 4096 + size + 4095) / 4096 - 3 in
      let j : ℕ = (addr % 4096 + i) / 4096 - 1 in
      let offset : u64 (slot <<< page_shift) ≡ slot * 4096 = omega arith in
      let at : u64 (n.io_prp_list_phys_addr + slot * 4096) ≡ n.io_prp_list_phys_addr + slot * 4096 =
        omega arith in
      rw
        (
          setup_prps-list n slot addr size log m (pages ∙ omega arith) (omega arith),
          page_align_up-mul addr (omega arith),
          offset,
          at,
        )
        (listed_page virt_of _ size i behind more (omega arith)
          ∙ rw fits.mapped (
              ap some (
                omega (
                  arith,
                  load-write_list (m + 2) (n.io_prp_list_virt_addr + slot * 4096)
                      ((addr + 4095) / 4096 * 4096) log j (omega arith) (omega arith),
                ))))

  -- What the controller reads behind the first page: `next_page` on, in order.
  Behind-first :
      (i : ℕ) → i < size → 4096 ≤ addr % 4096 + i → addr % 4096 + size ≤ 4096 * 513 → Behind i
  Behind-first i h behind few = elim (dec_le (addr % 4096 + size) 8192) [
    | yes two ↦ Behind-two i behind h two
    | no more ↦ Behind-listed i behind h (omega arith) few
  ]

  first_bytes :
      (i : ℕ)
      → addr % 4096 + i < 4096
      → device_address virt_of (setup_prps n slot addr size log) size i ≡ some (addr + i)
  first_bytes i h =
      let e = prp1-setup_prps n slot addr size log in
      first_page virt_of (setup_prps n slot addr size log) size i (rw e h)
      ∙ ap (λ (t : ℕ). some (t + i)) e

  -- For a transfer of some bytes whose addresses do not wrap and whose list is mapped: if it has at
  -- most 513 pages, and the buffer does not begin at a page or lies in one page, the controller takes
  -- every byte from its place in the buffer.
  pub setup_prps-covers :
      (i : ℕ)
      → i < size
      → (addr % 4096 ≢ 0) ⊎ (addr % 4096 + size ≤ 4096)
      → addr % 4096 + size ≤ 4096 * 513
      → device_address virt_of (setup_prps n slot addr size log) size i ≡ some (addr + i)
  setup_prps-covers i h at few = elim (dec_lt (addr % 4096 + i) 4096) [
    | yes first ↦ first_bytes i first
    | no behind ↦ Behind-first i h (omega arith) few ∙ ap some (omega arith)
  ]

  -- For a transfer of some bytes whose addresses do not wrap and whose list is mapped: if it has at
  -- most 513 pages and the buffer begins at a page, the controller takes every byte behind the first
  -- page from one page too early.
  pub setup_prps-aligned :
      (i : ℕ)
      → i < size
      → addr % 4096 ≡ 0
      → 4096 ≤ i
      → size ≤ 4096 * 513
      → device_address virt_of (setup_prps n slot addr size log) size i ≡ some (addr + i - 4096)
  setup_prps-aligned i h at behind few =
      Behind-first i h (omega arith) (omega arith) ∙ ap some (omega arith)
