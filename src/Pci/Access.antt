-- ===== src/Pci/Access.antt =====
-- How `pci_config_read` and `pci_config_write` end, on every branch.
use fioplugin.Prelude.{ℕ, ◌+◌, ◌≤◌, ◌<◌, ◌≡◌, Bool, true, false, some, [], ◌∷◌, ◌⊎◌}
use fioplugin.Pci.{Direction, open_rw, open_ro, file, denied, refused, Kernel, Trace, Outcome}
use fioplugin.Pci.Transfer.{pieces, closes, Ends}

-- Why there is no file, with the calls that were made for it.
pub data NotOpened (k : Kernel) (bus dev func : ℕ) : Trace → Type 0 where
  out_of_range : (32 ≤ dev) ⊎ (8 ≤ func) → NotOpened k bus dev func []
  no_path : k.path ≡ false → NotOpened k bus dev func []
  refused_rw : k.open_rw ≡ refused → NotOpened k bus dev func (open_rw bus dev func ∷ [])
  refused_ro :
      k.open_rw ≡ denied
      → (k.open_ro ≡ denied) ⊎ (k.open_ro ≡ refused)
      → NotOpened k bus dev func (open_ro bus dev func ∷ open_rw bus dev func ∷ [])

-- The kernel opens the file, for reading alone where it denies more.
pub record HasFile (k : Kernel) : Type 0 where
  pub named : k.path ≡ true
  pub opens : (k.open_rw ≡ file) ⊎ ((k.open_rw ≡ denied) × (k.open_ro ≡ file))

-- How an access ends: refused for its arguments without a system call, without a file, or with its
-- transfer, within the 4096 bytes, of a device and a function in range.
pub data Accessed (d : Direction) (k : Kernel) (bus dev func offset sz : ℕ) (has_buf : Bool)
    (o : Outcome) : Type 0 where
  rejected :
      ((has_buf ≡ false) × (0 < sz)) ⊎ ((4096 ≤ offset) ⊎ (4096 < offset + sz))
      → o ≡ some (false, [])
      → Accessed d k bus dev func offset sz has_buf o
  unopened :
      (trace : Trace)
      → NotOpened k bus dev func trace
      → o ≡ some (false, trace)
      → Accessed d k bus dev func offset sz has_buf o
  accessed :
      offset + sz ≤ 4096
      → dev < 32
      → func < 8
      → HasFile k
      → Ends d k.close offset sz o
      → Accessed d k bus dev func offset sz has_buf o

-- How `open_pci_config` ends with a path.
record IsUntouched (trace : Trace) : Type 0 where
  nothing : pieces trace ≡ []
  unclosed : closes trace ≡ 0

module _ (k : Kernel) (bus dev func : ℕ) (named : k.path ≡ true) where
  abbrev Tried : Bool × Trace → Type 0
  Tried (false, trace) = NotOpened k bus dev func trace
  Tried (true, trace) = HasFile k × IsUntouched trace
