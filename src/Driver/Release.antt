-- ===== src/Driver/Release.antt =====
-- A buffer from its mapping to its release: what `alloc_dma` and `free_dma` of
-- tools/lib/driver/api/dma.c do with the module.
use fioplugin.Prelude.{
  ℕ, ◌<◌, ◌≡◌, ◌≢◌, refl, sym, ◌∙◌, ap, arith, Bool, true, false, Option, none, some, List, ◌∷◌,
  update, inl, inr, eq→==,
}
use fioplugin.Machine.{MemInfo}
use fioplugin.Driver.{
  Entry, Kernel, Run, Status, ok, Grant, ◌>>=◌, ◌>>◌, pure, dma_vma_close, mmap_dma, get_memfinfo,
  release_mem, free_entry, page_align, set_entry, list_del,
}
use fioplugin.Driver.Mappings.{Inv, occurs, refs_of}
use fioplugin.Driver.Safe.{Safe, safe-weaken, safe->>=, safe->>, safe-pure, Inv-set}
use fioplugin.Driver.Areas.{closed, dma_vma_close-runs}
use fioplugin.Driver.Ioctl.{
  Found, nothing, here, later, Marked, marked, absent, info_of, get_memfinfo-Safe, release_mem-Safe,
}
use fioplugin.Driver.Mmap.{mmap_dma-Outcome}
use fioplugin.Driver.Map.{
  Offers, Outcome, mapped, no_memory, not_mapped, with_entry, with_entry-Inv, new_entry,
  update-update, update_same, update_at,
}

-- What the module tells of a buffer.
abbrev pub info_for : (virt dma length : ℕ) → MemInfo
info_for virt dma length = record {
  kernel_virtaddr = virt;
  dma_addr = dma;
  size = page_align length;
}

-- A mapping, its addresses, the request to release it, and the end of its area.
pub session : Grant → (d vma length virt dma : ℕ) → Run (Status × Option MemInfo × Status)
session g d vma length virt dma = do
  s ← mmap_dma g d vma length
  info ← get_memfinfo d
  t ← release_mem d virt dma
  dma_vma_close vma
  pure (s, info, t)

same_state :
    (k : Kernel) {f f' : ℕ → Option Entry} {g g' : ℕ → List ℕ} {v v' : List (ℕ × ℕ)}
    {c c' : ℕ → Bool}
    → f ≡ f'
    → g ≡ g'
    → v ≡ v'
    → c ≡ c'
    → ◌≡◌ {A = Kernel}
        (record k { entries = f; memlist = g; vmas = v; coherent = c })
        (record k { entries = f'; memlist = g'; vmas = v'; coherent = c' })
same_state k p q r s = rw (p, q, r, s) refl

module _ (k : Kernel) (e virt dma d vma length : ℕ) (i : Inv k) (alive : k.devices d ≡ true)
    (not_null : d ≢ 0) (fresh : k.entries e ≡ none) (unused : k.coherent virt ≡ false) where
  abbrev k1 : Kernel
  k1 = with_entry d vma e virt dma length k

  k1-Inv : Inv k1
  k1-Inv = with_entry-Inv d vma dma length i alive not_null fresh unused

  abbrev requested : Entry
  requested = record (new_entry d virt dma length) { release_requested = true }

  at : k1.entries e ≡ some (new_entry d virt dma length)
  at = update_at k.entries e _

  -- The answer is that of the newest mapping.
  newest :
      (l : List ℕ) (f : Option Entry)
      → Found k1 l f
      → l ≡ e ∷ k.memlist d
      → info_of f ≡ some (info_for virt dma length)
  newest l f nothing is = absurd cc
  newest l f (here {e = a} {r = r} there held) is =
      let first : k1.entries e ≡ some r = ground (arith, there, is) in
      let eq : some (new_entry d virt dma length) ≡ some r = sym at ∙ first in ap info_of (sym eq)
  newest l f (later {e = a} {r = r} there released rest) is =
      let first : k1.entries e ≡ some r = ground (arith, there, is) in
      let eq : some (new_entry d virt dma length) ≡ some r = sym at ∙ first in
      absurd (ground (arith, eq, released))

  -- The entry that is marked is this one.
  its_mark :
      (s : Status) (k' : Kernel)
      → Marked k1 virt dma (k1.memlist d) s k'
      → (s ≡ ok) × (k' ≡ set_entry e (some requested) k1)
  its_mark s k' (marked a r on there v m done after) =
      let same : a ≡ e = k1-Inv.distinct a e r (new_entry d virt dma length) there at v in
      let eq : some r ≡ some (new_entry d virt dma length) = sym there ∙ ap k1.entries same ∙ at in
      (done, after ∙ cc)
  its_mark s k' (absent none_of missing after) =
      let on : 0 < occurs e (k1.memlist d) =
        rw (update_at k.memlist d (e ∷ k.memlist d)) (ground (arith, eq→== e e refl)) in
      absurd (ground (arith, none_of e (new_entry d virt dma length) on at))

  abbrev k2 : Kernel
  k2 = set_entry e (some requested) k1

  k2-Inv : Inv k2
  k2-Inv =
      Inv-set {e = e} requested k1-Inv at refl refl refl (omega arith)
        (λ a. ground (arith, k1-Inv.refs a, ap refs_of at))

  -- The end of the area undoes the mapping.
  undone : closed vma e requested k2 ≡ k
  unfolding free_entry
  undone =
      same_state k
        (update-update k1.entries e (some requested) none
          ∙ update-update k.entries e _ none
          ∙ update_same k.entries e none fresh)
        (ap (λ l. update k1.memlist d (list_del e l)) (update_at k.memlist d (e ∷ k.memlist d))
          ∙ update-update k.memlist d _ _
          ∙ update_same k.memlist d _ (rw (eq→== e e refl) refl))
        (rw (eq→== vma vma refl) refl)
        (update-update k.coherent virt true false ∙ update_same k.coherent virt false unused)

  -- Whoever asks is told of this mapping.
  pub get_memfinfo-newest :
      Safe (get_memfinfo d) k1 (λ o k'. (o ≡ some (info_for virt dma length)) × (k' ≡ k1))
  get_memfinfo-newest =
      safe-weaken (get_memfinfo-Safe d k1-Inv alive) λ o k' (same, (f, found, answer)).
        (answer ∙ newest _ f found (update_at k.memlist d _), same)

  -- What follows the mapping.
  released_after :
      Safe {A = Status × Option MemInfo × Status}
        (do
          info ← get_memfinfo d
          t ← release_mem d virt dma
          dma_vma_close vma
          pure (ok, info, t))
        k1
        (λ v k'. (v ≡ (ok, some (info_for virt dma length), ok)) × (k' ≡ k))
  released_after =
      safe->>= {Q = λ o k'. (o ≡ some (info_for virt dma length)) × (k' ≡ k1)} get_memfinfo-newest
        λ o a (eo, ea).
          safe->>= {Q = λ t k'. (t ≡ ok) × (k' ≡ k2)}
            (rw ea (safe-weaken (release_mem-Safe virt dma d k1-Inv alive) λ t k'. its_mark t k'))
            λ t b (et, eb).
              safe->> {Q = λ _ k'. k' ≡ k}
                (rw eb (
                  safe-weaken
                    (dma_vma_close-runs vma e k2-Inv (rw (eq→== vma vma refl) refl) requested
                      (update_at k1.entries e (some requested)))
                    λ _ k' after. after ∙ undone))
                λ _ c ec. safe-pure _ (rw (eo, et) refl, ec)

module _ (k : Kernel) (g : Grant) (e virt dma d vma length : ℕ) where
  abbrev pub Restored : Status × Option MemInfo × Status → Kernel → Type 0
  Restored v k' = (v ≡ (ok, some (info_for virt dma length), ok)) × (k' ≡ k)

  pub granted :
      Offers g d k
      → g.entry ≡ some e
      → g.buffer ≡ some (virt, dma)
      → g.mapped ≡ 0
      → Safe
          (mmap_dma g d vma length)
          k
          (λ s k'. (s ≡ ok) × (k' ≡ with_entry d vma e virt dma length k))
  granted o at bat accepted = safe-weaken (mmap_dma-Outcome k g d vma length o) only
    where
      only :
          (s : Status) (k' : Kernel)
          → Outcome g d vma length k s k'
          → (s ≡ ok) × (k' ≡ with_entry d vma e virt dma length k)
      only s k' (mapped e' virt' dma' at' bat' z done after) = (done, after ∙ cc)
      only s k' (no_memory (inl none_at) done after) = absurd cc
      only s k' (no_memory (inr none_at) done after) = absurd cc
      only s k' (not_mapped refused done after) = absurd (refused accepted)

  -- When the kernel grants the memory and the mapping, `IOCTL_GET_MEMFINFO` after `mmap_dma` tells
  -- the buffer's addresses and size, the request for these is accepted, and the end of the area
  -- brings the state before the mapping back.
  pub session-Restored :
      Inv k
      → Offers g d k
      → g.entry ≡ some e
      → g.buffer ≡ some (virt, dma)
      → g.mapped ≡ 0
      → Safe (session g d vma length virt dma) k Restored
  unfolding session
  session-Restored i o at bat accepted =
      safe->>= {Q = λ s k'. (s ≡ ok) × (k' ≡ with_entry d vma e virt dma length k)}
        (granted o at bat accepted)
        λ s a (es, ea).
          rw (es, ea)
            (released_after k e virt dma d vma length i o.device o.not_null (o.entry e at)
              (o.buffer virt dma bat))
