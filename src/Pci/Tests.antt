-- ===== src/Pci/Tests.antt =====
-- Accesses of four bytes at 16, with an interruption and a transfer of two bytes at first.
use fioplugin.Prelude.{true, [], ◌∷◌}
use fioplugin.Pci.{Kernel, interrupted, error, count, file, denied}

-- The file can be opened for reading alone.
abbrev read_only : Kernel
read_only = record {
  path = true;
  open_rw = denied;
  open_ro = file;
  answers = interrupted ∷ count 2 ∷ count 1 ∷ count 1 ∷ count 0 ∷ [];
  close = true;
}

-- The third byte cannot be written.
abbrev failing : Kernel
failing = record {
  path = true;
  open_rw = file;
  open_ro = file;
  answers = count 2 ∷ error ∷ error ∷ error ∷ [];
  close = true;
}
