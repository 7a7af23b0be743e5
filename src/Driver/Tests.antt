-- ===== src/Driver/Tests.antt =====
-- The kernel module at inputs.
use fioplugin.Prelude.{
  ℕ, ◌≡◌, refl, ap, false, true, Option, none, some, List, [], ◌∷◌, arith, ◌==◌,
}
use fioplugin.Driver.{
  Kernel, Grant, add_device, mmap_dma, map_entry, map_buffer, map_area, list_add, get_memfinfo,
  first_held, mark_released, dma_vma_open, dma_vma_close, close_locked, lock_if, free_entry,
  genpci_remove, genpci_detach_dma_entries, detach_each, load, look_device, lock, memlist_of,
  private_of, pure, modify, ◌>>=◌, ◌>>◌,
}
use fioplugin.Driver.{release_mem as release_mem_of}
use fioplugin.Driver.File.{
  memfinfo, release_mem, genpci_open, genpci_close, set_open, genpci_ioctl, tell_mem, tell_release,
}
use fioplugin.Driver.Mappings.{Inv}
use fioplugin.Driver.Safe.{Safe}
use fioplugin.Driver.Mmap.{mmap_dma-Outcome}
use fioplugin.Driver.Map.{Offers, Outcome}
use fioplugin.Driver.Calls.{
  Op, map, fork, unmap, opened, closed, ioctl, remove, probe, Hands, RunsOr, AllAllowed, run_op,
}
use fioplugin.Driver.Ops.{Accounts, idle, idle-Inv, run_ops-Accounts, run_ops-Safe}
use fioplugin.Driver.Release.{session, Restored, session-Restored}
use fioplugin.Driver.Race.{allocations, first, Mistaken, allocations-Mistaken}
use fioplugin.Driver.Faults.{UsesFreed, genpci_remove-UsesFreed}
use fioplugin.Driver.Device.{Bus, Answers, genpci_probe}
use fioplugin.Driver.Device.Balance
use fioplugin.Driver.Device.Balance.{genpci_probe-Outcome}
use fioplugin.Driver.Loading

-- A device that is there, and memory for one mapping.
abbrev plugged : Kernel
plugged = record idle {
  devices = λ d. d == 7;
  location = λ _. record { domain = 0; bus = 1; devfn = 10 };
}

abbrev grant : Grant
grant = record { entry = some 64; buffer = some (0x5000, 0x9000); mapped = 0 }

grant-Offers : Offers grant 7 plugged
grant-Offers = record {
  device = refl;
  not_null = omega arith;
  entry = λ e h. refl;
  buffer = λ v a h. refl;
}

mmap_dma-Outcome_example :
    Safe (mmap_dma grant 7 100 4096) plugged (Outcome grant 7 100 4096 plugged)
mmap_dma-Outcome_example = mmap_dma-Outcome plugged grant 7 100 4096 grant-Offers

plugged-Inv : Inv plugged
plugged-Inv = record {
  lists = λ e d. refl;
  refs = λ e. refl;
  used = λ e r h. cc;
  device = λ e r h. cc;
  owner = λ v h. cc;
  buffer = λ e r h. cc;
  distinct = λ a b r s h g q. cc;
}

-- A device comes and is opened; a buffer is mapped, its area copied, and its addresses told; the first
-- area ends; the buffer's release is requested; the file is closed and the device goes; the other area
-- ends.
abbrev calls : List Op
calls =
    probe 7 (record { domain = 0; bus = 1; devfn = 8 })
    ∷ opened 7
    ∷ map grant 7 100 4096
    ∷ fork 100 200
    ∷ ioctl true memfinfo 7
    ∷ unmap 100
    ∷ ioctl true (release_mem 0x5000 0x9000) 7
    ∷ closed 7
    ∷ remove 7
    ∷ unmap 200
    ∷ []

calls-AllAllowed : AllAllowed calls idle
unfolding run_op genpci_open genpci_close set_open genpci_ioctl tell_mem tell_release add_device
    mmap_dma map_entry map_buffer map_area list_add get_memfinfo first_held dma_vma_open
    dma_vma_close close_locked lock_if free_entry genpci_remove release_mem_of mark_released
    genpci_detach_dma_entries detach_each load look_device lock memlist_of private_of pure modify
    ◌>>=◌ ◌>>◌
calls-AllAllowed =
    let offers : Hands grant 7 _ = record {
      not_null = omega arith;
      entry = λ e h. refl;
      buffer = λ v a h. refl;
    } in
    (refl, (tt, (offers, ((64, refl), (tt, ((64, refl), (tt, (tt, (refl, ((64, refl), tt))))))))))

run_ops-Safe_example : RunsOr Inv calls idle
run_ops-Safe_example = run_ops-Safe calls idle idle-Inv calls-AllAllowed

run_ops-Accounts_example : RunsOr Accounts calls idle
run_ops-Accounts_example = run_ops-Accounts calls calls-AllAllowed

session-Restored_example :
    Safe
      (session grant 7 100 4096 0x5000 0x9000)
      plugged
      (Restored plugged grant 64 0x5000 0x9000 7 100 4096)
session-Restored_example =
    session-Restored plugged grant 64 0x5000 0x9000 7 100 4096 plugged-Inv grant-Offers refl refl
      refl

-- Memory for the mapping of another thread.
abbrev grant_of_other : Grant
grant_of_other = record { entry = some 65; buffer = some (0x7000, 0xb000); mapped = 0 }

abbrev mapped_once : Kernel
mapped_once =
    first plugged grant grant_of_other 7 100 101 4096 8192 64 0x5000 0x9000 65 0x7000 0xb000

other-Offers : Offers grant_of_other 7 mapped_once
other-Offers = record {
  device = refl;
  not_null = omega arith;
  entry = λ e h. one_entry e h;
  buffer = λ v a h. one_buffer v a h;
}
  where
    one_entry : (e : ℕ) → some 65 ≡ some e → mapped_once.entries e ≡ none
    one_entry e h = ap mapped_once.entries {x = e} {y = 65} cc

    one_buffer :
        (v a : ℕ)
        → ◌≡◌ {A = Option (ℕ × ℕ)} (some (0x7000, 0xb000)) (some (v, a))
        → mapped_once.coherent v ≡ false
    one_buffer v a h = ap mapped_once.coherent {x = v} {y = 0x7000} cc

allocations-Mistaken_example :
    Safe
      (allocations grant grant_of_other 7 100 101 4096 8192)
      plugged
      (Mistaken plugged grant grant_of_other 7 100 101 4096 8192 64 0x5000 0x9000 65 0x7000 0xb000)
allocations-Mistaken_example =
    allocations-Mistaken plugged grant grant_of_other 7 100 101 4096 8192 64 0x5000 0x9000 65 0x7000
      0xb000 plugged-Inv grant-Offers other-Offers refl refl refl refl refl refl

genpci_remove-UsesFreed_example : UsesFreed 7 100 64 0x5000 0x9000 true plugged
genpci_remove-UsesFreed_example =
    genpci_remove-UsesFreed plugged 7 100 64 0x5000 0x9000 true plugged-Inv refl

-- A device that nobody uses, and a kernel that has a problem with its character device.
abbrev unused : Bus
unused = record {
  structs = λ _. none;
  instances = λ n. n == 0;
  enabled = false;
  regions = false;
  refs = 3;
  drvdata = 0;
  cdevs = λ n. n == 0;
  nodes = λ n. n == 0;
}

abbrev answers : Answers
answers = record {
  kzalloc = some 512;
  ida = some 1;
  enable = 0;
  set_mask = 0;
  request_regions = 0;
  add_cdev = 0;
  create_node = false;
}

next_instance : {n : ℕ} → some 1 ≡ some n → (n == 0) ≡ false
next_instance e = ground (arith, e)

genpci_probe-Outcome_example : Balance.Outcome unused (genpci_probe answers unused)
genpci_probe-Outcome_example = genpci_probe-Outcome unused answers (record {
  struct = λ p e. refl;
  instance_free = λ n e. next_instance e;
  cdev = λ n e. next_instance e;
  node = λ n e. next_instance e;
  enabled = refl;
  regions = refl;
  drvdata = refl;
})

abbrev no_class : Loading.Answers
no_class = record { alloc_chrdev_region = 0; class_create = false; pci_register_driver = 0 }

genpci_init-Outcome_example : Loading.Outcome (Loading.genpci_init no_class Loading.unloaded)
genpci_init-Outcome_example = Loading.genpci_init-Outcome no_class
