-- ===== src/Driver/Race.antt =====
-- Two threads in `alloc_dma` of tools/lib/driver/api/dma.c at once, on one device.
use fioplugin.Prelude.{ℕ, ◌≡◌, ◌≢◌, refl, sym, ◌∙◌, ap, true, false, Option, some, update}
use fioplugin.Machine.{MemInfo}
use fioplugin.Driver.{Kernel, Run, Grant, ◌>>=◌, ◌>>◌, pure, mmap_dma, get_memfinfo, ok}
use fioplugin.Driver.Mappings.{Inv}
use fioplugin.Driver.Safe.{Safe, safe->>=, safe->>, safe-pure}
use fioplugin.Driver.Map.{Offers, with_entry, with_entry-Inv, update_at}
use fioplugin.Driver.Release.{info_for, granted, get_memfinfo-newest}

-- Each thread's `mmap`, then each thread's `IOCTL_GET_MEMFINFO`, with the answers.
pub allocations :
    (g g' : Grant) (d vma vma' length length' : ℕ) → Run (Option MemInfo × Option MemInfo)
allocations g g' d vma vma' length length' = do
  mmap_dma g d vma length
  mmap_dma g' d vma' length'
  info ← get_memfinfo d
  info' ← get_memfinfo d
  pure (info, info')

module _ (k : Kernel) (g g' : Grant) (d vma vma' length length' e virt dma e' virt' dma' : ℕ) where
  -- The state after the first mapping.
  abbrev pub first : Kernel
  first = with_entry d vma e virt dma length k

  -- The answers are those for the second thread's buffer, and the first thread's is another.
  abbrev pub Mistaken : Option MemInfo × Option MemInfo → Kernel → Type 0
  Mistaken v k' =
      (v ≡ (some (info_for virt' dma' length'), some (info_for virt' dma' length')))
      × (virt ≢ virt')

  abbrev second : Kernel
  second = with_entry d vma' e' virt' dma' length' first

  apart : update k.coherent virt true virt' ≡ false → virt ≢ virt'
  apart unused same = absurd (
      true-false
        (sym (update_at k.coherent virt true) ∙ ap (update k.coherent virt true) same ∙ unused))
    where
      true-false : true ≢ false
      true-false e = cc

  -- From a state with the invariant, when two threads allocate from one device, the kernel grants
  -- both mappings, and both are made before either thread asks which its buffer is, both are told
  -- the addresses of the second thread's, which is not the first thread's.
  pub allocations-Mistaken :
      Inv k
      → Offers g d k
      → Offers g' d first
      → g.entry ≡ some e
      → g.buffer ≡ some (virt, dma)
      → g.mapped ≡ 0
      → g'.entry ≡ some e'
      → g'.buffer ≡ some (virt', dma')
      → g'.mapped ≡ 0
      → Safe (allocations g g' d vma vma' length length') k Mistaken
  unfolding allocations
  allocations-Mistaken i o o' at bat accepted at' bat' accepted' =
      let fresh = o'.entry e' at' in
      let unused = o'.buffer virt' dma' bat' in
      let i1 : Inv first =
        with_entry-Inv d vma dma length i o.device o.not_null (o.entry e at)
          (o.buffer virt dma bat) in
      let told =
        get_memfinfo-newest first e' virt' dma' d vma' length' i1 o'.device o'.not_null fresh
          unused in
      let own : Option MemInfo = some (info_for virt' dma' length') in
      safe->> {Q = λ s k'. (s ≡ ok) × (k' ≡ first)}
        (granted k g e virt dma d vma length o at bat accepted)
        λ s a (es, ea).
          safe->> {Q = λ s k'. (s ≡ ok) × (k' ≡ second)}
            (rw ea (granted first g' e' virt' dma' d vma' length' o' at' bat' accepted'))
            λ s' b (es', eb).
              safe->>= {Q = λ m k'. (m ≡ own) × (k' ≡ second)} (rw eb told) λ m c (em, ec).
                safe->>= {Q = λ m k'. (m ≡ own) × (k' ≡ second)} (rw ec told)
                  λ m' c' (em', ec'). safe-pure _ (rw (em, em') refl, apart unused)
