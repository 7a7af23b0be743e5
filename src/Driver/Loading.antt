-- ===== src/Driver/Loading.antt =====
-- `genpci_init` and `genpci_exit` of tools/lib/driver/driver.c: what the module acquires when it is
-- loaded, and gives back.
use fioplugin.Prelude.{
  ℕ, ◌≡◌, ◌≢◌, refl, Bool, true, false, Option, none, some, ◌!=◌, if◌then◌else◌, Bool-cases, inl,
  inr,
}

pub record Loaded : Type 0 where
  pub ida : Bool
  pub chrdev_region : Bool
  pub class : Bool
  pub driver : Bool

-- The kernel's answers: results of which 0 is success, and whether `class_create` gives a class.
pub record Answers : Type 0 where
  pub alloc_chrdev_region : ℕ
  pub class_create : Bool
  pub pci_register_driver : ℕ

pub data Result : Type 0 where
  loaded no_region no_class no_driver : Result

-- Giving back what is not held is `none`.
abbrev pub ida_destroy : Loaded → Option Loaded
ida_destroy m = if m.ida then some (record m { ida = false }) else none

abbrev pub unregister_chrdev_region : Loaded → Option Loaded
unregister_chrdev_region m =
    if m.chrdev_region then some (record m { chrdev_region = false }) else none

abbrev pub class_destroy : Loaded → Option Loaded
class_destroy m = if m.class then some (record m { class = false }) else none

abbrev pub pci_unregister_driver : Loaded → Option Loaded
pci_unregister_driver m = if m.driver then some (record m { driver = false }) else none

infixl 5 ◌>=>◌
abbrev ◌>=>◌ : (Loaded → Option Loaded) → (Loaded → Option Loaded) → Loaded → Option Loaded
◌>=>◌ f g m = elim (f m) [ none ↦ none | some m' ↦ g m' ]

abbrev returning : Result → Option Loaded → Option (Result × Loaded)
returning r none = none
returning r (some m) = some (r, m)

pub genpci_init : Answers → Loaded → Option (Result × Loaded)
genpci_init a m =
    let m : Loaded = record m { ida = true } in
    if a.alloc_chrdev_region != 0
    then returning no_region (ida_destroy m)
    else let m : Loaded = record m { chrdev_region = true } in
      if a.class_create
      then (let m : Loaded = record m { class = true } in
          if a.pci_register_driver != 0
          then returning no_driver ((class_destroy >=> unregister_chrdev_region >=> ida_destroy) m)
          else some (loaded, record m { driver = true }))
      else returning no_class ((unregister_chrdev_region >=> ida_destroy) m)

pub genpci_exit : Loaded → Option Loaded
genpci_exit m =
    (pci_unregister_driver >=> class_destroy >=> unregister_chrdev_region >=> ida_destroy) m

abbrev pub unloaded : Loaded
unloaded = record { ida = false; chrdev_region = false; class = false; driver = false }

-- The outcomes: an error with nothing held, or a state from which `genpci_exit` leads to that.
pub data Outcome : Option (Result × Loaded) → Type 0 where
  failed : {r : Result} → r ≢ loaded → Outcome (some (r, unloaded))
  done : (m : Loaded) → genpci_exit m ≡ some unloaded → Outcome (some (loaded, m))

exit_lem :
    genpci_exit (record { ida = true; chrdev_region = true; class = true; driver = true })
    ≡ some unloaded
unfolding genpci_exit
exit_lem = refl

-- Whatever the kernel answers, loading the module either fails with nothing held, or ends in a state
-- from which `genpci_exit` gives everything back, and neither gives back what is not held.
pub genpci_init-Outcome : (a : Answers) → Outcome (genpci_init a unloaded)
unfolding genpci_init
genpci_init-Outcome a = elim (Bool-cases (a.alloc_chrdev_region != 0)) [
  | inl refused ↦ rw refused (failed (λ q. cc))
  | inr region ↦ elim (Bool-cases a.class_create) [
    | inr missing ↦ rw (region, missing) (failed (λ q. cc))
    | inl there ↦ elim (Bool-cases (a.pci_register_driver != 0)) [
      | inl refused ↦ rw (region, there, refused) (failed (λ q. cc))
      | inr on ↦ rw (region, there, on) (done _ exit_lem)
    ]
  ]
]
