-- ===== src/Machine.antt =====
-- The machine that the C code runs on: DMA memory, the registers behind BAR0 and the calls into the
-- kernel, seen as a log of what the host did.
--
-- A `Platform` answers every read and every system call from the log so far, so that it can stand
-- for any device and any kernel: two reads of one register may differ, because the log has grown.
pub mod Memory
pub mod Fields
pub mod Reads
use fioplugin.Prelude.{ℕ, Bool, List, [], ◌∷◌, Option}

-- What the host did, one entry for each access or call.
pub data Event : Type 0 where
  -- `store w a v`: `w` bytes of the value `v`, lowest first, at the virtual address `a`
  store : ℕ → ℕ → ℕ → Event
  -- `memset(a, 0, n)`
  zero_fill : ℕ → ℕ → Event
  -- a volatile read of `w` bytes at an address
  look : ℕ → ℕ → Event
  -- a volatile access to a 32-bit register at an address
  reg_load : ℕ → Event
  reg_store : ℕ → ℕ → Event
  -- `__sync_synchronize`, and `nanosleep` of a millisecond
  fence sleep : Event
  -- `opendir`, `open`, `close`, `mmap`, `munmap` and `ioctl`
  opendir closedir : Event
  open_bar0 : ℕ → ℕ → ℕ → Event
  open_dev : List ℕ → Event
  close : ℕ → Event
  mmap : ℕ → ℕ → Event
  munmap : ℕ → ℕ → Event
  get_meminfo get_bdf : ℕ → Event
  release_mem : ℕ → ℕ → ℕ → Event

-- The newest event first.
abbrev pub Log : Type 0
Log = List Event

-- What `IOCTL_GET_MEMFINFO` fills in.
pub record MemInfo : Type 0 where
  pub kernel_virtaddr : ℕ
  pub dma_addr : ℕ
  pub size : ℕ

-- `struct bdf`
pub record Bdf : Type 0 where
  pub domain : ℕ
  pub bus : ℕ
  pub dev : ℕ
  pub func : ℕ

-- The device and the kernel. Each answer may depend on all that the host did before.
pub record Platform : Type 0 where
  -- the value of a register, and of `w` bytes of memory that the device may write
  pub reg : Log → ℕ → ℕ
  pub mem : Log → ℕ → ℕ → ℕ
  -- `none` is a call that fails
  pub open_bar0 : Log → ℕ → ℕ → ℕ → Option ℕ
  pub mmap : Log → ℕ → ℕ → Option ℕ
  pub munmap : Log → ℕ → ℕ → Bool
  pub get_meminfo : Log → ℕ → Option MemInfo
  -- the names in `/dev`, as bytes, and the file of a name
  pub dev_entries : Log → Option (List (List ℕ))
  pub open_dev : Log → List ℕ → Option ℕ
  pub get_bdf : Log → ℕ → Option Bdf
