-- ===== src/Driver/Device/Balance.antt =====
-- What a probe acquires is given back, by the probe itself when it fails and else by the removal.
use fioplugin.Prelude.{
  ℕ, ◌+◌, ◌≡◌, ◌≢◌, refl, sym, ◌∙◌, ap, arith, true, false, Option, none, some, ◌==◌, ◌!=◌, update,
  Bool-cases, inl, inr,
}
use fioplugin.Driver.Map.{update-update, update_same, update_at}
use fioplugin.Driver.Device.{
  Bus, Answers, Result, bound, out_remove_ida, out_disable_device, out_clear_drvdata, out_del_cdev,
  failing, probe_cdev, probe_device, probe_instance, probe_struct, genpci_probe, release_device,
  genpci_remove,
}
use fioplugin.Driver.Device.Labels.{
  same_bus, put_back, kfree_lem, out_remove_ida_lem, out_disable_device_lem, out_clear_drvdata_lem,
  out_del_cdev_lem, release_device_lem,
}

-- Before a probe the device is not in use, and the kernel hands out an address and an instance that
-- are not.
pub record Ready (a : Answers) (s : Bus) : Type 0 where
  pub struct : (p : ℕ) → a.kzalloc ≡ some p → s.structs p ≡ none
  pub instance_free : (n : ℕ) → a.ida ≡ some n → s.instances n ≡ false
  pub cdev : (n : ℕ) → a.ida ≡ some n → s.cdevs n ≡ false
  pub node : (n : ℕ) → a.ida ≡ some n → s.nodes n ≡ false
  pub enabled : s.enabled ≡ false
  pub regions : s.regions ≡ false
  pub drvdata : s.drvdata ≡ 0

-- The outcomes: an error and the state before, or a state from which the removal leads back.
pub data Outcome (s : Bus) : Option (Result × Bus) → Type 0 where
  failed : {r : Result} → r ≢ bound → Outcome s (some (r, s))
  probed : (s' : Bus) → genpci_remove s' ≡ some s → Outcome s (some (bound, s'))

module _ (s : Bus) (a : Answers) (p n : ℕ) (o : Ready a s) (at : a.kzalloc ≡ some p)
    (nat : a.ida ≡ some n) where
  freed : update (update (update s.structs p (some 0)) p (some n)) p none ≡ s.structs
  freed =
      update-update (update s.structs p (some 0)) p (some n) none
      ∙ update-update s.structs p (some 0) none
      ∙ update_same s.structs p none (o.struct p at)

  unnamed : update (update s.instances n true) n false ≡ s.instances
  unnamed = put_back s.instances n (o.instance_free n nat)

  -- With the memory and the instance.
  abbrev named : Bus
  named = record s {
    structs = update (update s.structs p (some 0)) p (some n);
    instances = update s.instances n true;
  }

  there : named.structs p ≡ some n
  there = update_at (update s.structs p (some 0)) p (some n)

  taken : named.instances n ≡ true
  taken = update_at s.instances n true

  out_remove_ida-named : out_remove_ida p n named ≡ some s
  out_remove_ida-named =
      out_remove_ida_lem p n named n there taken
      ∙ ap some (same_bus s freed unnamed refl refl refl refl refl refl)

  -- Enabled too.
  abbrev active : Bus
  active = record named { enabled = true }

  out_disable_device-active : out_disable_device p n active ≡ some s
  out_disable_device-active =
      out_disable_device_lem p n active n there taken refl
      ∙ ap some (same_bus s freed unnamed (sym o.enabled) refl refl refl refl refl)

  -- With the regions, a reference and the driver data.
  abbrev owned : Bus
  owned = record active { regions = true; refs = s.refs + 1; drvdata = p }

  held : (s.refs + 1 == 0) ≡ false
  held = ground arith

  out_clear_drvdata-owned : out_clear_drvdata p n owned ≡ some s
  out_clear_drvdata-owned =
      out_clear_drvdata_lem p n owned n there taken refl refl held
      ∙ ap some (
          same_bus s freed unnamed (sym o.enabled) (sym o.regions) (omega arith) (sym o.drvdata)
            refl refl)

  abbrev with_cdev : Bus
  with_cdev = record owned { cdevs = update s.cdevs n true }

  out_del_cdev-with_cdev : out_del_cdev p n with_cdev ≡ some s
  out_del_cdev-with_cdev =
      out_del_cdev_lem p n with_cdev n there taken refl refl held (update_at s.cdevs n true)
      ∙ ap some (
          same_bus s freed unnamed (sym o.enabled) (sym o.regions) (omega arith) (sym o.drvdata)
            (put_back s.cdevs n (o.cdev n nat)) refl)

  abbrev complete : Bus
  complete = record with_cdev { nodes = update s.nodes n true }

  genpci_remove-complete : genpci_remove complete ≡ some s
  unfolding genpci_remove release_device
  genpci_remove-complete = rw there (
      release_device_lem p n complete n there taken refl refl held (update_at s.cdevs n true)
        (update_at s.nodes n true)
      ∙ ap some (
          same_bus s freed unnamed (sym o.enabled) (sym o.regions) (omega arith) (sym o.drvdata)
            (put_back s.cdevs n (o.cdev n nat)) (put_back s.nodes n (o.node n nat))))

  undone : {r : Result} {t : Option Bus} → r ≢ bound → t ≡ some s → Outcome s (failing r t)
  undone r e = rw e (failed r)

  probe_cdev-Outcome : Outcome s (probe_cdev a p n owned)
  unfolding probe_cdev
  probe_cdev-Outcome = elim (Bool-cases (a.add_cdev != 0)) [
    | inl refused ↦ rw refused (undone (λ q. cc) out_clear_drvdata-owned)
    | inr added ↦ elim (Bool-cases a.create_node) [
      | inl created ↦ rw (added, created) (probed complete genpci_remove-complete)
      | inr missing ↦ rw (added, missing) (undone (λ q. cc) out_del_cdev-with_cdev)
    ]
  ]

  probe_device-Outcome : Outcome s (probe_device a p n named)
  unfolding probe_device
  probe_device-Outcome = elim (Bool-cases (a.enable != 0)) [
    | inl refused ↦ rw refused (undone (λ q. cc) out_remove_ida-named)
    | inr on ↦ elim (Bool-cases (a.set_mask != 0)) [
      | inl narrow ↦ rw (on, narrow) (undone (λ q. cc) out_disable_device-active)
      | inr wide ↦ elim (Bool-cases (a.request_regions != 0)) [
        | inl busy ↦ rw (on, wide, busy) (undone (λ q. cc) out_disable_device-active)
        | inr ours ↦ rw (on, wide, ours) probe_cdev-Outcome
      ]
    ]
  ]

module _ (s : Bus) (a : Answers) (o : Ready a s) where
  probe_instance-Outcome :
      (p : ℕ) (x : Option ℕ)
      → a.kzalloc ≡ some p
      → a.ida ≡ x
      → Outcome s (probe_instance a p x (record s { structs = update s.structs p (some 0) }))
  unfolding probe_instance
  probe_instance-Outcome p none at nat =
      rw
        (kfree_lem p (record s { structs = update s.structs p (some 0) }) 0
            (update_at s.structs p (some 0))
          ∙ ap some (
              same_bus s
                (update-update s.structs p (some 0) none
                  ∙ update_same s.structs p none (o.struct p at))
                refl refl refl refl refl refl refl))
        (failed (λ q. cc))
  probe_instance-Outcome p (some n) at nat = probe_device-Outcome s a p n o at nat

  probe_struct-Outcome : (x : Option ℕ) → a.kzalloc ≡ x → Outcome s (probe_struct a x s)
  unfolding probe_struct
  probe_struct-Outcome none at = failed (λ q. cc)
  probe_struct-Outcome (some p) at = probe_instance-Outcome p a.ida at refl

  -- When the device is not in use and the kernel hands out what is not in use, a probe gives back
  -- nothing that it does not hold, and either fails with the state before, or ends in a state from
  -- which `genpci_remove` leads back to the state before.
  pub genpci_probe-Outcome : Outcome s (genpci_probe a s)
  unfolding genpci_probe
  genpci_probe-Outcome = probe_struct-Outcome a.kzalloc refl
