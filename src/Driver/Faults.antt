-- ===== src/Driver/Faults.antt =====
-- What a file that is still open, or an area that is ending, meets when the device is removed.
use fioplugin.Prelude.{ℕ, Bool, ⊤, ◌≡◌, ◌≢◌, refl, true, false, none, eq→==, ne→==}
use fioplugin.Driver.{
  Kernel, Run, lock, lock_if, ◌>>=◌, ◌>>◌, close_locked, get_memfinfo, release_mem, genpci_remove,
}
use fioplugin.Driver.File.{
  Request, memfinfo, bdf, unknown, set_open, genpci_close, location_of, genpci_ioctl,
}
use fioplugin.Driver.Mappings.{Inv}
use fioplugin.Driver.Safe.{Safe}
use fioplugin.Driver.Detach.{genpci_remove-Safe, without_device}

module _ {A B : Type 0} {m : Run A} {f : Run B} {k : Kernel} where
  fault_after :
      {Q : A → Kernel → Type 0}
      → Safe m k Q
      → ((a : A) (k' : Kernel) → Q a k' → f k' ≡ none)
      → (m >> f) k ≡ none
  unfolding ◌>>=◌ ◌>>◌
  fault_after s h = rw (s.run, ◌>>◌, ◌>>=◌) (h s.value s.after s.holds)

module _ {A B : Type 0} (m : Run A) (f : Run B) (k : Kernel) where
  fault_first : m k ≡ none → (m >> f) k ≡ none
  unfolding ◌>>=◌ ◌>>◌
  fault_first h = rw (h, ◌>>◌, ◌>>=◌) refl

module _ {A B : Type 0} (m : Run A) (f : A → Run B) (k : Kernel) where
  fault_bind : m k ≡ none → (m >>= f) k ≡ none
  unfolding ◌>>=◌
  fault_bind h = rw (h, ◌>>=◌) refl

-- The requests that look at the device.
abbrev Reaches : (copies : Bool) → Request → Type 0
Reaches copies memfinfo = ⊤
Reaches copies bdf = ⊤
Reaches true (Request.release_mem virt dma) = ⊤
Reaches false (Request.release_mem virt dma) = ⊥
Reaches copies unknown = ⊥

module _ (k : Kernel) (d : ℕ) (gone : k.devices d ≡ false) where
  lock-faults : lock d k ≡ none
  unfolding lock
  lock-faults = rw (gone, lock) refl

  get_memfinfo-faults : get_memfinfo d k ≡ none
  unfolding get_memfinfo
  get_memfinfo-faults = fault_first _ _ k lock-faults

  release_mem-faults : (virt dma : ℕ) → release_mem d virt dma k ≡ none
  unfolding release_mem
  release_mem-faults virt dma = fault_first _ _ k lock-faults

  close_locked-faults : (vma e : ℕ) → d ≢ 0 → close_locked vma e d k ≡ none
  unfolding close_locked lock_if
  close_locked-faults vma e not_null =
      fault_first _ _ k (rw (ne→== d 0 not_null, lock_if) lock-faults)

  location_of-faults : location_of d k ≡ none
  unfolding location_of
  location_of-faults = rw (gone, location_of) refl

  genpci_close-faults : genpci_close d k ≡ none
  unfolding genpci_close set_open
  genpci_close-faults = rw (gone, set_open) refl

  ioctl-faults :
      (copies : Bool) (request : Request)
      → Reaches copies request
      → genpci_ioctl copies request d k ≡ none
  unfolding genpci_ioctl
  ioctl-faults copies memfinfo r = fault_bind _ _ k get_memfinfo-faults
  ioctl-faults copies bdf r = fault_bind _ _ k location_of-faults
  ioctl-faults true (Request.release_mem virt dma) r =
      fault_bind _ _ k (release_mem-faults virt dma)
  ioctl-faults false (Request.release_mem virt dma) r = absurd r
  ioctl-faults copies unknown r = absurd r

-- A file that is still open for the removed device uses the freed device when it makes one of the
-- requests, or is closed, and so does the end of an area that had read its entry's device before.
pub record UsesFreed (d vma e virt dma : ℕ) (copies : Bool) (k : Kernel) : Type 0 where
  pub info : (genpci_remove d >> genpci_ioctl copies memfinfo d) k ≡ none
  pub bdf : (genpci_remove d >> genpci_ioctl copies Request.bdf d) k ≡ none
  pub release : (genpci_remove d >> genpci_ioctl true (Request.release_mem virt dma) d) k ≡ none
  pub close_file : (genpci_remove d >> genpci_close d) k ≡ none
  pub close : d ≢ 0 → (genpci_remove d >> close_locked vma e d) k ≡ none

-- In a state with the invariant and the device, `UsesFreed` holds for every area, entry and pair of
-- addresses: after the removal, a file that is still open for the device uses it when it makes one
-- of the requests, RELEASE_MEM with memory that can be read, or is closed, and so does the end of an
-- area that had read its entry's device before.
pub genpci_remove-UsesFreed :
    (k : Kernel) (d vma e virt dma : ℕ) (copies : Bool)
    → Inv k
    → k.devices d ≡ true
    → UsesFreed d vma e virt dma copies k
genpci_remove-UsesFreed k d vma e virt dma copies i alive = record {
  info = after _ (λ k' gone. ioctl-faults k' d gone copies memfinfo tt);
  bdf = after _ (λ k' gone. ioctl-faults k' d gone copies Request.bdf tt);
  release = after _ (λ k' gone. ioctl-faults k' d gone true (Request.release_mem virt dma) tt);
  close_file = after _ (λ k' gone. genpci_close-faults k' d gone);
  close = λ not_null. after _ (λ k' gone. close_locked-faults k' d gone vma e not_null);
}
  where
    removed : (k' : Kernel) → k' ≡ without_device d k → k'.devices d ≡ false
    removed k' eq = rw (eq, eq→== d d refl) refl

    after :
        {B : Type 0} (f : Run B)
        → ((k' : Kernel) → k'.devices d ≡ false → f k' ≡ none)
        → (genpci_remove d >> f) k ≡ none
    after f h = fault_after (genpci_remove-Safe d i alive) λ _ k' eq. h k' (removed k' eq)
