-- ===== src/Driver.antt =====
-- The kernel module of tools/lib/driver/driver.c: the DMA buffers that it hands out by `mmap`, who
-- refers to them and when they are freed.
pub mod Mappings
pub mod Safe
pub mod Areas
pub mod Map
pub mod Mmap
pub mod Ioctl
pub mod Detach
pub mod Arrive
pub mod Calls
pub mod Ops
pub mod Release
pub mod Race
pub mod Faults
pub mod Device
pub mod Loading
pub mod File
mod Tests
use fioplugin.Prelude.{
  ℕ, zero, suc, ◌+◌, ◌-◌, ◌*◌, ◌/◌, ◌^◌, Bool, true, false, ◌&&◌, ◌||◌, not, Option, none, some,
  List, [], ◌∷◌, ◌==◌, ◌!=◌, if◌then◌else◌, update, ⊤,
}
use fioplugin.Prelude.Word.{u64, ◌>>>◌}
use fioplugin.Machine.{MemInfo}

-- `struct dma_entry`; its place in a list is kept in the lists, and its reference to the `struct
-- device` is left out.
pub record Entry : Type 0 where
  pub pgenpci_dev : ℕ
  pub virt_addr : ℕ
  pub dma_addr : ℕ
  pub size : ℕ
  pub vma_refs : ℕ
  pub release_requested : Bool
  pub listed : Bool

-- Where the `pci_dev` of a device is on the bus: `pci_domain_nr`, `bus->number` and `devfn`.
pub record Location : Type 0 where
  pub domain : ℕ
  pub bus : ℕ
  pub devfn : ℕ

-- The kernel's memory, as far as the module uses it. A pointer is its address and `NULL` is 0; an
-- object that is not allocated is `none` or `false`.
pub record Kernel : Type 0 where
  -- the `struct dma_entry` at an address
  pub entries : ℕ → Option Entry
  -- the `struct genpci_dev` at an address, and its `memlist`, the head first
  pub devices : ℕ → Bool
  pub memlist : ℕ → List ℕ
  -- its `is_open`, and its `pdev`
  pub is_open : ℕ → Bool
  pub location : ℕ → Location
  -- the areas that are mapped, each with its `vm_private_data`
  pub vmas : List (ℕ × ℕ)
  -- the coherent buffers that are allocated, by their virtual address
  pub coherent : ℕ → Bool

-- A function of the module: `none` is an access to memory that is not allocated.
abbrev pub Run : Type 0 → Type 0
Run A = Kernel → Option (A × Kernel)

infixl 5 ◌>>=◌ ◌>>◌
unfoldable pub ◌>>=◌ : {A B : Type 0} → Run A → (A → Run B) → Run B
◌>>=◌ m f k = elim (m k) [ none ↦ none | some (a, k') ↦ f a k' ]

unfoldable pub ◌>>◌ : {A B : Type 0} → Run A → Run B → Run B
m >> f = m >>= λ _. f

unfoldable pub pure : {A : Type 0} → A → Run A
pure a k = some (a, k)

unfoldable pub modify : (Kernel → Kernel) → Run ⊤
modify f k = some (tt, f k)

-- Reads and writes through a pointer.
unfoldable pub load : ℕ → Run Entry
load e k = elim (k.entries e) [ none ↦ none | some r ↦ some (r, k) ]

abbrev pub set_entry : ℕ → Option Entry → Kernel → Kernel
set_entry e r k = record k { entries = update k.entries e r }

abbrev pub set_list : ℕ → List ℕ → Kernel → Kernel
set_list d l k = record k { memlist = update k.memlist d l }

-- `mutex_lock` of a device; the functions below hold a lock without a pause.
unfoldable pub lock : ℕ → Run ⊤
lock d k = if k.devices d then some (tt, k) else none

unfoldable pub lock_if : ℕ → Run ⊤
lock_if d = if d == 0 then pure tt else lock d

-- `pgenpci_dev->pdev`
unfoldable pub look_device : ℕ → Run ⊤
look_device d k = if k.devices d then some (tt, k) else none

-- `list_del`
abbrev pub list_del : ℕ → List ℕ → List ℕ
list_del e [] = []
list_del e (x ∷ xs) = if x == e then xs else x ∷ list_del e xs

-- `&pgenpci_dev->memlist`
unfoldable pub memlist_of : ℕ → Run (List ℕ)
memlist_of d k = some (k.memlist d, k)

-- What `genpci_detach_dma_entries` makes of an entry.
abbrev pub detached : Entry → Entry
detached r = record r { listed = false; pgenpci_dev = 0; release_requested = true }

-- `list_for_each_entry_safe` of `genpci_detach_dma_entries`
pub detach_each : List ℕ → Run ⊤
detach_each [] = pure tt
detach_each (e ∷ es) = do r ← load e; modify (set_entry e (some (detached r))); detach_each es

pub genpci_detach_dma_entries : ℕ → Run ⊤
genpci_detach_dma_entries d = do
  lock d
  entries ← memlist_of d
  modify (set_list d [])
  detach_each entries

-- The first pair of a key, and the list without it.
abbrev pub find : ℕ → List (ℕ × ℕ) → Option ℕ
find vma [] = none
find vma ((v, e) ∷ rest) = if v == vma then some e else find vma rest

abbrev pub drop_area : ℕ → List (ℕ × ℕ) → List (ℕ × ℕ)
drop_area vma [] = []
drop_area vma ((v, e) ∷ rest) = if v == vma then rest else (v, e) ∷ drop_area vma rest

-- `vma->vm_private_data` of an area that is mapped.
unfoldable pub private_of : ℕ → Run ℕ
private_of vma k = elim (find vma k.vmas) [ none ↦ none | some e ↦ some (e, k) ]

-- The kernel copies the area before it calls `dma_vma_open` with the copy.
pub dma_vma_open : (vma copy : ℕ) → Run ⊤
dma_vma_open vma copy = do
  e ← private_of vma
  r ← load e
  modify (λ k. record k {
    entries = update k.entries e (some (record r { vma_refs = r.vma_refs + 1 }));
    vmas = (copy, e) ∷ k.vmas;
  })

-- `list_del(&entry->list)`
abbrev pub unlist : ℕ → Entry → Kernel → Kernel
unlist e r k = set_list r.pgenpci_dev (list_del e (k.memlist r.pgenpci_dev)) k

-- The last reference: the buffer and the entry are freed, after the list has lost the entry.
pub free_entry : ℕ → Entry → Kernel → Kernel
free_entry e r k =
    let k' : Kernel = if r.listed then unlist e r k else k in
    record k' {
      coherent = update k'.coherent r.virt_addr false;
      entries = update k'.entries e none;
    }

-- What `dma_vma_close` does once it has read `entry->pgenpci_dev`.
pub close_locked : (vma e d : ℕ) → Run ⊤
close_locked vma e d = do
  lock_if d
  r ← load e
  modify (λ k. record k { vmas = drop_area vma k.vmas })
  modify (
      if r.vma_refs == 1
      then free_entry e r
      else set_entry e (some (record r { vma_refs = r.vma_refs - 1 })))

-- Without a pause between the read of `entry->pgenpci_dev` and the lock.
pub dma_vma_close : ℕ → Run ⊤
dma_vma_close vma = do e ← private_of vma; r ← load e; close_locked vma e r.pgenpci_dev

-- `PAGE_ALIGN`, of pages of 4096 bytes
abbrev pub page_align : ℕ → ℕ
page_align size = u64 (size + 4095) / 4096 * 4096

-- What the kernel gives to `mmap_dma`: the addresses of a new entry and of a new buffer, and the
-- result of the mapping, 0 being success.
pub record Grant : Type 0 where
  pub entry : Option ℕ
  pub buffer : Option (ℕ × ℕ)
  pub mapped : ℕ

-- `mmap_dma` returns 0 or an error.
pub data Status : Type 0 where
  ok enomem enoent remap_error : Status

-- `kzalloc`
abbrev pub zero_entry : Entry
zero_entry = record {
  pgenpci_dev = 0;
  virt_addr = 0;
  dma_addr = 0;
  size = 0;
  vma_refs = 0;
  release_requested = false;
  listed = false;
}

abbrev pub set_coherent : ℕ → Bool → Kernel → Kernel
set_coherent virt b k = record k { coherent = update k.coherent virt b }

-- The fields of a new entry, and of its area.
abbrev pub fill_entry : (d vma e virt dma size : ℕ) → Kernel → Kernel
fill_entry d vma e virt dma size k = record k {
  entries = update k.entries e (
      some (record zero_entry {
        pgenpci_dev = d;
        size = size;
        dma_addr = dma;
        virt_addr = virt;
        vma_refs = 1;
      }));
  vmas = (vma, e) ∷ k.vmas;
}

-- `list_add` and `entry->listed = true`
pub list_add : (d e : ℕ) → Run ⊤
list_add d e = do
  lock d
  r ← load e
  modify (λ k. record k {
    entries = update k.entries e (some (record r { listed = true }));
    memlist = update k.memlist d (e ∷ k.memlist d);
  })

-- The end of `mmap_dma`, by the result of the mapping: an error frees the buffer and the entry.
-- `mapped` stands for the result of either way to map the buffer. What follows the allocation looks at
-- the device again, on every way.
unfoldable pub map_area : (mapped d vma length e virt dma : ℕ) → Run Status
map_area mapped d vma length e virt dma =
    if mapped != 0
    then (do
      look_device d
      modify (set_coherent virt false)
      modify (set_entry e none)
      pure remap_error)
    else (do
      look_device d
      modify (fill_entry d vma e virt dma (page_align length))
      list_add d e
      pure ok)

-- After `dma_alloc_coherent`.
pub map_buffer : (mapped d vma length e : ℕ) → Option (ℕ × ℕ) → Run Status
map_buffer mapped d vma length e none = do modify (set_entry e none); pure enomem
map_buffer mapped d vma length e (some (virt, dma)) = do
  modify (set_coherent virt true)
  map_area mapped d vma length e virt dma

-- After `kzalloc`.
pub map_entry : Grant → (d vma length : ℕ) → Option ℕ → Run Status
map_entry g d vma length none = pure enomem
map_entry g d vma length (some e) = do
  modify (set_entry e (some zero_entry))
  look_device d
  map_buffer g.mapped d vma length e g.buffer

pub mmap_dma : Grant → (d vma length : ℕ) → Run Status
mmap_dma g d vma length = map_entry g d vma length g.entry

-- `list_for_each_entry` up to the first entry whose release is not requested.
pub first_held : List ℕ → Run (Option Entry)
first_held [] = pure none
first_held (e ∷ es) = do r ← load e; if r.release_requested then first_held es else pure (some r)

-- `IOCTL_GET_MEMFINFO`; `none` is `-ENOENT`.
pub get_memfinfo : ℕ → Run (Option MemInfo)
get_memfinfo d = do
  lock d
  es ← memlist_of d
  found ← first_held es
  elim found [
    | none ↦ pure none
    | some r ↦
        pure (some (record { kernel_virtaddr = r.virt_addr; dma_addr = r.dma_addr; size = r.size }))
  ]

-- `IOCTL_RELEASE_MEM`: the first entry of these addresses.
pub mark_released : (virt dma : ℕ) → List ℕ → Run Status
mark_released virt dma [] = pure enoent
mark_released virt dma (e ∷ es) = do
  r ← load e
  if r.virt_addr != virt || r.dma_addr != dma
      then mark_released virt dma es
      else (modify (set_entry e (some (record r { release_requested = true }))) >> pure ok)

pub release_mem : (d virt dma : ℕ) → Run Status
release_mem d virt dma = do lock d; es ← memlist_of d; mark_released virt dma es

-- `genpci_remove`, as far as the buffers go: the entries are detached and the device freed.
pub genpci_remove : ℕ → Run ⊤
genpci_remove d = do
  genpci_detach_dma_entries d
  modify (λ k. record k { devices = update k.devices d false })

-- `genpci_probe` with success: a new device with an empty list, made by `kzalloc`.
pub add_device : ℕ → Location → Run ⊤
add_device d at = modify (λ k. record k {
  devices = update k.devices d true;
  memlist = update k.memlist d [];
  is_open = update k.is_open d false;
  location = update k.location d at;
})
