-- ===== src/Driver/Device/Labels.antt =====
-- What the labels of `genpci_probe` and `genpci_remove` do in a state that holds what they give back.
use fioplugin.Prelude.{ℕ, ◌-◌, ◌≡◌, refl, ◌∙◌, Bool, true, false, Option, none, some, ◌==◌, update}
use fioplugin.Driver.Map.{update-update, update_same}
use fioplugin.Driver.Device.{
  Bus, kfree, ida_simple_remove, pci_release_regions, pci_dev_put, cdev_del, device_destroy, ◌>=>◌,
  out_remove_ida, out_disable_device, out_clear_drvdata, out_del_cdev, release_device,
}

pub same_bus :
    (s : Bus) {st : ℕ → Option ℕ} {is cs ns : ℕ → Bool} {en re : Bool} {rf dr : ℕ}
    → st ≡ s.structs
    → is ≡ s.instances
    → en ≡ s.enabled
    → re ≡ s.regions
    → rf ≡ s.refs
    → dr ≡ s.drvdata
    → cs ≡ s.cdevs
    → ns ≡ s.nodes
    → ◌≡◌ {A = Bus}
        (record {
          structs = st;
          instances = is;
          enabled = en;
          regions = re;
          refs = rf;
          drvdata = dr;
          cdevs = cs;
          nodes = ns;
        })
        s
same_bus s a b c d e f g h = rw (a, b, c, d, e, f, g, h) refl

pub put_back : (f : ℕ → Bool) (n : ℕ) → f n ≡ false → update (update f n true) n false ≡ f
put_back f n h = update-update f n true false ∙ update_same f n false h

pub kfree_lem :
    (p : ℕ) (t : Bus) (m : ℕ)
    → t.structs p ≡ some m
    → kfree p t ≡ some (record t { structs = update t.structs p none })
kfree_lem p t m st = rw (st, kfree) refl

-- The labels in a state that holds what they give back.
module _ (p n : ℕ) where
  pub out_remove_ida_lem :
      (t : Bus) (m : ℕ)
      → t.structs p ≡ some m
      → t.instances n ≡ true
      → out_remove_ida p n t
        ≡ some
            (record t { instances = update t.instances n false; structs = update t.structs p none })
  out_remove_ida_lem t m st ins = rw (ins, st, ◌>=>◌, ida_simple_remove, kfree) refl

  pub out_disable_device_lem :
      (t : Bus) (m : ℕ)
      → t.structs p ≡ some m
      → t.instances n ≡ true
      → t.enabled ≡ true
      → out_disable_device p n t
        ≡ some (record t {
          instances = update t.instances n false;
          structs = update t.structs p none;
          enabled = false;
        })
  out_disable_device_lem t m st ins on =
      rw on (out_remove_ida_lem (record t { enabled = false }) m st ins)

  pub out_clear_drvdata_lem :
      (t : Bus) (m : ℕ)
      → t.structs p ≡ some m
      → t.instances n ≡ true
      → t.enabled ≡ true
      → t.regions ≡ true
      → (t.refs == 0) ≡ false
      → out_clear_drvdata p n t
        ≡ some (record t {
          instances = update t.instances n false;
          structs = update t.structs p none;
          enabled = false;
          regions = false;
          refs = t.refs - 1;
          drvdata = 0;
        })
  out_clear_drvdata_lem t m st ins on re rf =
      rw (re, rf, ◌>=>◌, pci_release_regions, pci_dev_put)
        (out_disable_device_lem (record t { regions = false; refs = t.refs - 1; drvdata = 0 }) m st
          ins on)

  pub out_del_cdev_lem :
      (t : Bus) (m : ℕ)
      → t.structs p ≡ some m
      → t.instances n ≡ true
      → t.enabled ≡ true
      → t.regions ≡ true
      → (t.refs == 0) ≡ false
      → t.cdevs n ≡ true
      → out_del_cdev p n t
        ≡ some (record t {
          instances = update t.instances n false;
          structs = update t.structs p none;
          enabled = false;
          regions = false;
          refs = t.refs - 1;
          drvdata = 0;
          cdevs = update t.cdevs n false;
        })
  out_del_cdev_lem t m st ins on re rf cd =
      rw (cd, ◌>=>◌, cdev_del)
        (out_clear_drvdata_lem (record t { cdevs = update t.cdevs n false }) m st ins on re rf)

  pub release_device_lem :
      (t : Bus) (m : ℕ)
      → t.structs p ≡ some m
      → t.instances n ≡ true
      → t.enabled ≡ true
      → t.regions ≡ true
      → (t.refs == 0) ≡ false
      → t.cdevs n ≡ true
      → t.nodes n ≡ true
      → release_device p (some n) t
        ≡ some (record t {
          instances = update t.instances n false;
          structs = update t.structs p none;
          enabled = false;
          regions = false;
          refs = t.refs - 1;
          drvdata = 0;
          cdevs = update t.cdevs n false;
          nodes = update t.nodes n false;
        })
  unfolding release_device
  release_device_lem t m st ins on re rf cd nd =
      rw
        (
          re, on, rf, nd, cd, ins, st, ◌>=>◌, pci_release_regions, pci_dev_put, device_destroy,
          cdev_del, ida_simple_remove, kfree,
        )
        refl
