-- ===== src/Driver/Mappings.antt =====
-- Who refers to an entry: the lists of the devices and the mapped areas, counted.
use fioplugin.Prelude.{
  ℕ, ◌+◌, ◌-◌, ◌<◌, ◌≡◌, ◌≢◌, arith, true, false, ◌&&◌, Option, none, some, List, [], ◌∷◌, ◌==◌,
  if◌then◌else◌, ◌⊎◌,
}
use fioplugin.Driver.{Entry, Kernel, find, drop_area, list_del}

abbrev pub occurs : ℕ → List ℕ → ℕ
occurs e [] = 0
occurs e (x ∷ xs) = (if x == e then 1 else 0) + occurs e xs

-- How many areas have an entry as their private data.
abbrev pub areas : ℕ → List (ℕ × ℕ) → ℕ
areas e [] = 0
areas e ((v, x) ∷ rest) = (if x == e then 1 else 0) + areas e rest

-- 1 for an entry that says that it is in the list of `d`.
abbrev pub listed_at : ℕ → Option Entry → ℕ
listed_at d none = 0
listed_at d (some r) = if r.listed && (r.pgenpci_dev == d) then 1 else 0

abbrev pub refs_of : Option Entry → ℕ
refs_of none = 0
refs_of (some r) = r.vma_refs

-- Of what the module keeps: the lists hold the entries that say so, once each; an entry is
-- allocated as long as areas refer to it, and counts these; a listed entry has a device that is
-- there; and the buffers are those of the entries, one each.
pub record Inv (k : Kernel) : Type 0 where
  pub lists : (e d : ℕ) → occurs e (k.memlist d) ≡ listed_at d (k.entries e)
  pub refs : (e : ℕ) → areas e k.vmas ≡ refs_of (k.entries e)
  pub used : (e : ℕ) (r : Entry) → k.entries e ≡ some r → 0 < r.vma_refs
  pub device :
      (e : ℕ) (r : Entry)
      → k.entries e ≡ some r
      → ((r.listed ≡ true) × (k.devices r.pgenpci_dev ≡ true) × (r.pgenpci_dev ≢ 0))
        ⊎ ((r.listed ≡ false) × (r.pgenpci_dev ≡ 0))
  pub owner :
      (v : ℕ)
      → k.coherent v ≡ true
      → (e : ℕ) × (r : Entry) × (k.entries e ≡ some r) × (r.virt_addr ≡ v)
  pub buffer : (e : ℕ) (r : Entry) → k.entries e ≡ some r → k.coherent r.virt_addr ≡ true
  pub distinct :
      (a b : ℕ) (r s : Entry)
      → k.entries a ≡ some r
      → k.entries b ≡ some s
      → r.virt_addr ≡ s.virt_addr
      → a ≡ b

pub occurs-list_del :
    (e x : ℕ) (l : List ℕ) → occurs e (list_del x l) ≡ occurs e l - (if x == e then 1 else 0)
occurs-list_del e x [] = ground arith
occurs-list_del e x (y ∷ l) = ground (arith, occurs-list_del e x l)

pub areas-drop_area :
    (e vma x : ℕ) (l : List (ℕ × ℕ))
    → find vma l ≡ some x
    → areas e (drop_area vma l) + (if x == e then 1 else 0) ≡ areas e l
areas-drop_area e vma x [] h = cc
areas-drop_area e vma x ((v, y) ∷ l) h = ground (arith, areas-drop_area e vma x l)

-- An area that is mapped counts for its entry.
pub areas-find : (vma x : ℕ) (l : List (ℕ × ℕ)) → find vma l ≡ some x → 0 < areas x l
areas-find vma x [] h = cc
areas-find vma x ((v, y) ∷ l) h = ground (arith, areas-find vma x l)
