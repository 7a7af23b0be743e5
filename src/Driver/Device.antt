-- ===== src/Driver/Device.antt =====
-- `genpci_probe`, `genpci_remove`, `genpci_init` and `genpci_exit` of tools/lib/driver/driver.c: what
-- they acquire and give back. `pci_set_master` and the log have no counterpart to give back.
pub mod Labels
pub mod Balance
use fioplugin.Prelude.{
  ℕ, zero, suc, ◌+◌, ◌-◌, Bool, true, false, Option, none, some, ◌==◌, ◌!=◌, if◌then◌else◌, update,
}

-- What is held for one PCI device; `devt` is given by the instance.
pub record Bus : Type 0 where
  -- the `instance` of the `struct genpci_dev` at an address
  pub structs : ℕ → Option ℕ
  -- `genpci_instance_ida`
  pub instances : ℕ → Bool
  pub enabled : Bool
  pub regions : Bool
  -- references to the device, and its driver data
  pub refs : ℕ
  pub drvdata : ℕ
  pub cdevs : ℕ → Bool
  pub nodes : ℕ → Bool

-- The kernel's answers to a probe: an address, an instance, and results of which 0 is success.
pub record Answers : Type 0 where
  pub kzalloc : Option ℕ
  pub ida : Option ℕ
  pub enable : ℕ
  pub set_mask : ℕ
  pub request_regions : ℕ
  pub add_cdev : ℕ
  pub create_node : Bool

-- The result of `genpci_probe`.
pub data Result : Type 0 where
  bound no_memory no_instance not_enabled no_mask no_regions no_cdev no_node : Result

-- Giving back what is not held is `none`.
abbrev pub kfree : ℕ → Bus → Option Bus
kfree p s = elim (s.structs p) [
  | none ↦ none
  | some n ↦ some (record s { structs = update s.structs p none })
]

abbrev pub ida_simple_remove : ℕ → Bus → Option Bus
ida_simple_remove n s =
    if s.instances n then some (record s { instances = update s.instances n false }) else none

abbrev pub pci_disable_device : Bus → Option Bus
pci_disable_device s = if s.enabled then some (record s { enabled = false }) else none

abbrev pub pci_release_regions : Bus → Option Bus
pci_release_regions s = if s.regions then some (record s { regions = false }) else none

abbrev pub pci_dev_put : Bus → Option Bus
pci_dev_put s = if s.refs == 0 then none else some (record s { refs = s.refs - 1 })

abbrev pub cdev_del : ℕ → Bus → Option Bus
cdev_del n s = if s.cdevs n then some (record s { cdevs = update s.cdevs n false }) else none

abbrev pub device_destroy : ℕ → Bus → Option Bus
device_destroy n s = if s.nodes n then some (record s { nodes = update s.nodes n false }) else none

infixl 5 ◌>=>◌
abbrev pub ◌>=>◌ : (Bus → Option Bus) → (Bus → Option Bus) → Bus → Option Bus
◌>=>◌ f g s = elim (f s) [ none ↦ none | some s' ↦ g s' ]

abbrev pub pci_set_drvdata : ℕ → Bus → Option Bus
pci_set_drvdata p s = some (record s { drvdata = p })

-- The labels at the end of `genpci_probe`, each falling through to the next.
abbrev pub out_remove_ida : (p n : ℕ) → Bus → Option Bus
out_remove_ida p n = ida_simple_remove n >=> kfree p

abbrev pub out_disable_device : (p n : ℕ) → Bus → Option Bus
out_disable_device p n = pci_disable_device >=> out_remove_ida p n

abbrev pub out_clear_drvdata : (p n : ℕ) → Bus → Option Bus
out_clear_drvdata p n =
    pci_set_drvdata 0 >=> pci_release_regions >=> pci_dev_put >=> out_disable_device p n

abbrev pub out_del_cdev : (p n : ℕ) → Bus → Option Bus
out_del_cdev p n = cdev_del n >=> out_clear_drvdata p n

-- `return ret` after a label's clean-up.
abbrev pub failing : Result → Option Bus → Option (Result × Bus)
failing r none = none
failing r (some s) = some (r, s)

-- `genpci_probe` from `cdev_add` on.
pub probe_cdev : Answers → (p n : ℕ) → Bus → Option (Result × Bus)
probe_cdev a p n s =
    if a.add_cdev != 0
    then failing Result.no_cdev (out_clear_drvdata p n s)
    else let s : Bus = record s { cdevs = update s.cdevs n true } in
      if a.create_node
      then some (Result.bound, record s { nodes = update s.nodes n true })
      else failing Result.no_node (out_del_cdev p n s)

-- From `pci_enable_device_mem` on.
pub probe_device : Answers → (p n : ℕ) → Bus → Option (Result × Bus)
probe_device a p n s =
    if a.enable != 0
    then failing Result.not_enabled (out_remove_ida p n s)
    else let s : Bus = record s { enabled = true } in
      if a.set_mask != 0
      then failing Result.no_mask (out_disable_device p n s)
      else if a.request_regions != 0
      then failing Result.no_regions (out_disable_device p n s)
      else let s : Bus = record s { regions = true; refs = s.refs + 1; drvdata = p } in
        probe_cdev a p n s

-- After `ida_simple_get`.
pub probe_instance : Answers → ℕ → Option ℕ → Bus → Option (Result × Bus)
probe_instance a p none s = failing Result.no_instance (kfree p s)
probe_instance a p (some n) s =
    probe_device a p n
      (record s { instances = update s.instances n true; structs = update s.structs p (some n) })

-- After `kzalloc`.
pub probe_struct : Answers → Option ℕ → Bus → Option (Result × Bus)
probe_struct a none s = some (Result.no_memory, s)
probe_struct a (some p) s =
    probe_instance a p a.ida (record s { structs = update s.structs p (some 0) })

pub genpci_probe : Answers → Bus → Option (Result × Bus)
genpci_probe a s = probe_struct a a.kzalloc s

-- `genpci_remove` after the entries are detached: the device's driver data is its `genpci_dev`.
pub release_device : (p : ℕ) → Option ℕ → Bus → Option Bus
release_device p none s = none
release_device p (some n) s =
    (pci_set_drvdata 0
        >=> pci_release_regions
        >=> pci_disable_device
        >=> pci_dev_put
        >=> device_destroy n
        >=> cdev_del n
        >=> ida_simple_remove n
        >=> kfree p)
      s

pub genpci_remove : Bus → Option Bus
genpci_remove s = release_device s.drvdata (s.structs s.drvdata) s
