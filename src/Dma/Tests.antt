-- ===== src/Dma/Tests.antt =====
-- A search of `/dev` at a directory of three names.
use fioplugin.Prelude.{ℕ, ◌≡◌, true, none, some, List, [], ◌∷◌, ◌⊎◌, ◌==◌, if◌then◌else◌}
use fioplugin.Machine.{Event, Platform}
use fioplugin.Dma.{dma_open_domain}
use fioplugin.Dma.Search.{Searched, dma_open_domain-Searched}
use fioplugin.Sample.{genpci0}

-- `null`, `genpci0` and `genpci1`; the second is another device.
abbrev names : List (List ℕ)
names = (110 ∷ 117 ∷ 108 ∷ 108 ∷ []) ∷ genpci0 ∷ (103 ∷ 101 ∷ 110 ∷ 112 ∷ 99 ∷ 105 ∷ 49 ∷ []) ∷ []

abbrev three_names : Platform
three_names = record {
  reg = λ _ _. 0;
  mem = λ _ _ _. 0;
  open_bar0 = λ _ _ _ _. none;
  mmap = λ _ _ _. none;
  munmap = λ _ _ _. true;
  get_meminfo = λ _ _. none;
  dev_entries = λ _. some names;
  open_dev = λ log _. elim log [ [] ↦ none | _ ∷ [] ↦ some 3 | _ ∷ _ ∷ _ ↦ some 4 ];
  get_bdf = λ _ fd.
      if fd == 4
      then some (record { domain = 0; bus = 1; dev = 0; func = 0 })
      else some (record { domain = 0; bus = 2; dev = 0; func = 0 });
}

dma_open_domain-Searched_example :
    ((three_names.dev_entries [] ≡ none)
      × (dma_open_domain three_names 0 1 0 0 [] ≡ (none, Event.opendir ∷ [])))
    ⊎ ((listed : List (List ℕ)) × (three_names.dev_entries [] ≡ some listed)
        × Searched three_names 0 1 0 0 listed
            (Event.opendir ∷ [])
            (dma_open_domain three_names 0 1 0 0 []))
dma_open_domain-Searched_example = dma_open_domain-Searched three_names 0 1 0 0 []
