-- ===== src/Driver/File.antt =====
-- The file operations of tools/lib/driver/driver.c besides `mmap`: `genpci_open`, `genpci_close` and
-- `genpci_ioctl`. The `private_data` of a file is its device.
pub mod Answers
use fioplugin.Prelude.{
  ℕ, Bool, true, false, Option, none, some, bit_and, if◌then◌else◌, update, ⊤, ◌^◌, ◌%◌,
}
use fioplugin.Prelude.Word.{u8, u32, ◌>>>◌}
use fioplugin.Machine.{Bdf, MemInfo}
use fioplugin.Driver.{Kernel, Location, Run, Status, ◌>>=◌, ◌>>◌, pure, modify, lock, get_memfinfo}
use fioplugin.Driver as Driver

-- `pgenpci_dev->is_open = …`; the device must be there.
unfoldable pub set_open : Bool → ℕ → Run ⊤
set_open b d k =
    if k.devices d then some (tt, record k { is_open = update k.is_open d b }) else none

unfoldable pub genpci_open : ℕ → Run ⊤
genpci_open d = set_open true d

unfoldable pub genpci_close : ℕ → Run ⊤
genpci_close d = set_open false d

-- The number of a request, with what `IOCTL_RELEASE_MEM` reads of the caller's `struct mem`.
pub data Request : Type 0 where
  memfinfo bdf : Request
  release_mem : (kernel_virtaddr dma_addr : ℕ) → Request
  unknown : Request

-- 0 with what was copied to the caller, or an error.
pub data Reply : Type 0 where
  mem : MemInfo → Reply
  at : Bdf → Reply
  released efault enoent enotty : Reply

-- `PCI_SLOT` and `PCI_FUNC`
abbrev pub pci_slot : ℕ → ℕ
pci_slot devfn = bit_and (devfn >>> 3) 0x1f

abbrev pub pci_func : ℕ → ℕ
pci_func devfn = bit_and devfn 0x07

-- `struct bdf` of a device.
pub bdf_of : Location → Bdf
bdf_of l = record {
  domain = l.domain;
  bus = u8 l.bus;
  dev = u8 (pci_slot l.devfn);
  func = u8 (pci_func l.devfn);
}

-- `pgenpci_dev->pdev`
unfoldable pub location_of : ℕ → Run Location
location_of d k = if k.devices d then some (k.location d, k) else none

-- The end of `IOCTL_GET_MEMFINFO` and of `IOCTL_RELEASE_MEM`.
unfoldable pub tell_mem : (copies : Bool) → Option MemInfo → Reply
tell_mem copies none = enoent
tell_mem copies (some m) = if copies then mem m else efault

unfoldable pub tell_release : Status → Reply
tell_release Status.ok = released
tell_release Status.enomem = enoent
tell_release Status.enoent = enoent
tell_release Status.remap_error = enoent

-- `copies` says whether `copy_to_user` or `copy_from_user` can reach the caller's memory.
unfoldable pub genpci_ioctl : (copies : Bool) → Request → ℕ → Run Reply
genpci_ioctl copies memfinfo d = do found ← get_memfinfo d; pure (tell_mem copies found)
genpci_ioctl copies bdf d = do l ← location_of d; pure (if copies then at (bdf_of l) else efault)
genpci_ioctl copies (release_mem virt dma) d =
    if copies then (do s ← Driver.release_mem d virt dma; pure (tell_release s)) else pure efault
genpci_ioctl copies unknown d = pure enotty
