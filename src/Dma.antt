-- ===== src/Dma.antt =====
-- DMA memory: tools/lib/driver/api/dma.c and its callers in tools/nvme.c.
use fioplugin.Prelude.{
  ℕ, ◌+◌, ◌^◌, Bool, true, false, ◌&&◌, ◌||◌, not, length, Option, none, some, List, [], ◌∷◌, ltb,
  leb, ◌==◌, ◌!=◌, if◌then◌else◌, ⊤,
}
use fioplugin.Prelude.Word.{u16, u32}
use fioplugin.Machine.{Event, Log, Bdf, MemInfo, Platform}
use fioplugin.Nvme.{Controller, Mem, State, no_mem}
use fioplugin.Call.{Call, ◌>>=◌, ◌>>◌, pure, fail_if}
pub mod Alloc
pub mod Search
pub mod Tidy
mod Tests

unfoldable pub bdf_matches : Bdf → (domain bus dev func : ℕ) → Bool
bdf_matches b domain bus dev func =
    b.domain == domain && b.bus == bus && b.dev == dev && b.func == func

-- `GENPCI_PREFIX`, the bytes of `genpci`
abbrev pub genpci_prefix : List ℕ
genpci_prefix = 103 ∷ 101 ∷ 110 ∷ 112 ∷ 99 ∷ 105 ∷ []

-- `strncmp(text, prefix, strlen(prefix)) == 0`
unfoldable pub starts_with : (text prefix : List ℕ) → Bool
starts_with text [] = true
starts_with [] (c ∷ prefix) = false
starts_with (b ∷ text) (c ∷ prefix) = b == c && starts_with text prefix

unfoldable pub is_genpci_name : List ℕ → Bool
is_genpci_name name = starts_with name genpci_prefix

abbrev pub path_max : ℕ
path_max = 4096

-- Whether `/dev/` and the name fit into `path`, with the 0 byte.
unfoldable pub path_fits : List ℕ → Bool
path_fits name = ltb (5 + length name) path_max

-- `while ((dent = readdir(dir)) != NULL)`, over the names that are left.
unfoldable pub find_device :
    Platform → (domain bus dev func : ℕ) → List (List ℕ) → Log → Option ℕ × Log
find_device p domain bus dev func [] log = (none, Event.closedir ∷ log)
find_device p domain bus dev func (name ∷ names) log =
    let skip = find_device p domain bus dev func names log in
    if not (is_genpci_name name) || not (path_fits name) then skip else elim (p.open_dev log name) [
      | none ↦ find_device p domain bus dev func names (Event.open_dev name ∷ log)
      | some fd ↦
          let opened : Log = Event.open_dev name ∷ log in
          let asked : Log = Event.get_bdf fd ∷ opened in
          let rest = find_device p domain bus dev func names (Event.close fd ∷ asked) in
          elim (p.get_bdf opened fd) [
            | none ↦ rest
            | some b ↦
                if bdf_matches b domain bus dev func
                then (some fd, Event.closedir ∷ asked)
                else rest
          ]
    ]

unfoldable pub dma_open_domain : Platform → (domain bus dev func : ℕ) → Log → Option ℕ × Log
dma_open_domain p domain bus dev func log = elim (p.dev_entries log) [
  | none ↦ (none, Event.opendir ∷ log)
  | some entries ↦ find_device p domain bus dev func entries (Event.opendir ∷ log)
]

unfoldable pub dma_open : Platform → (bus dev func : ℕ) → Log → Option ℕ × Log
dma_open p bus dev func log = dma_open_domain p 0 bus dev func log

-- A failure returns a `struct mem` of zeros.
unfoldable pub alloc_dma : Platform → (fd len : ℕ) → Log → Mem × Log
alloc_dma p fd len log = if len == 0 then (no_mem, log) else elim (p.mmap log len fd) [
  | none ↦ (no_mem, Event.mmap len fd ∷ log)
  | some virt ↦
      let mapped : Log = Event.mmap len fd ∷ log in
      let asked : Log = Event.get_meminfo fd ∷ mapped in
      elim (p.get_meminfo mapped fd) [
        | none ↦ (no_mem, Event.munmap virt len ∷ asked)
        | some info ↦ (
          record {
            fd = fd;
            kernel_virtaddr = info.kernel_virtaddr;
            user_virtaddr = virt;
            dma_addr = info.dma_addr;
            size = info.size;
          },
          asked,
        )
      ]
]

-- `mem->user_virtaddr == NULL || mem->size <= 0`, the size being a `long`
unfoldable pub is_no_mem : Mem → Bool
is_no_mem m = m.user_virtaddr == 0 || (m.size == 0 || leb (2 ^ 63) m.size)

unfoldable pub free_dma : Mem → Log → Mem × Log
free_dma m log = if is_no_mem m then (m, log) else (
  no_mem,
  Event.munmap m.user_virtaddr m.size ∷ Event.release_mem m.fd m.dma_addr m.size ∷ log,
)

unfoldable pub nvme_dma_open_controller : Platform → Call ⊤
nvme_dma_open_controller p s =
    if s.ctrl.dma_fd_opened
    then (some tt, s)
    else (let (fd, log) = dma_open p s.ctrl.bus s.ctrl.dev s.ctrl.func s.log in
        elim fd [
          | none ↦ (none, record s { log = log })
          | some fd ↦ (
            some tt,
            record s { ctrl = record s.ctrl { dma_fd = fd; dma_fd_opened = true }; log = log },
          )
        ])

-- `*mem` is set whether the allocation fails or not, unless the device cannot be opened.
unfoldable pub nvme_alloc_dma_mem : Platform → (size : ℕ) → (set : Mem → State → State) → Call Mem
nvme_alloc_dma_mem p size set = do
  nvme_dma_open_controller p
  mem ← (λ s.
      let (mem, log) = alloc_dma p s.ctrl.dma_fd size s.log in
      (some mem, set mem (record s { log = log })))
  fail_if (is_no_mem mem)
  pure mem

-- `c->dma_fd = -1` is the bit pattern of that `int`.
unfoldable pub nvme_close_dma : State → State
nvme_close_dma s =
    if s.ctrl.dma_fd_opened
    then record s {
      ctrl = record s.ctrl { dma_fd = 0xffff_ffff; dma_fd_opened = false };
      log = Event.close s.ctrl.dma_fd ∷ s.log;
    }
    else s

abbrev pub free_admin_sq : State → State
free_admin_sq s =
    let (m, log) = free_dma s.ctrl.admin_sq_mem s.log in
    record s { ctrl = record s.ctrl { admin_sq_mem = m }; log = log }

abbrev pub free_admin_cq : State → State
free_admin_cq s =
    let (m, log) = free_dma s.ctrl.admin_cq_mem s.log in
    record s { ctrl = record s.ctrl { admin_cq_mem = m }; log = log }

unfoldable pub nvme_release_controller_dma : State → State
nvme_release_controller_dma s = nvme_close_dma (free_admin_cq (free_admin_sq s))
