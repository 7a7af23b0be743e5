-- ===== src/Driver/Mmap.antt =====
-- `mmap_dma` touches no freed memory and leaves nothing behind when it fails.
use fioplugin.Prelude.{
  ℕ, ◌≡◌, refl, ◌∙◌, ap, arith, true, false, Option, none, some, ◌∷◌, ◌!=◌, update, inl, inr,
  Bool-cases,
}
use fioplugin.Driver.{
  Entry, Kernel, ok, enomem, remap_error, Grant, mmap_dma, map_area, map_buffer, map_entry,
  list_add, set_entry, set_coherent, zero_entry, fill_entry, page_align,
}
use fioplugin.Driver.Safe.{
  Safe, safe->>=, safe->>, safe-modify, safe-pure, safe-load, safe-lock, safe-look_device,
}
use fioplugin.Driver.Map.{
  Offers, Outcome, mapped, no_memory, not_mapped, with_entry, update-update, update_same, update_at,
}

-- `list_add` of an entry that has just been filled in.
list_add-runs :
    {k : Kernel} (d e : ℕ) {r : Entry}
    → k.devices d ≡ true
    → k.entries e ≡ some r
    → Safe (list_add d e) k (λ _ k'. k' ≡ record k {
      entries = update k.entries e (some (record r { listed = true }));
      memlist = update k.memlist d (e ∷ k.memlist d);
    })
unfolding list_add
list_add-runs {k} d e {r} alive there =
    safe->> {Q = λ _ k'. k' ≡ k} (safe-lock d alive refl) λ _ k' ek.
      safe->>= {Q = λ s k''. (s ≡ r) × (k'' ≡ k)} (rw ek (safe-load e there (refl, refl)))
        λ s k'' (es, ek''). rw (es, ek'') (safe-modify _ refl)

abbrev filled : (d vma length e virt dma : ℕ) → Kernel → Kernel
filled d vma length e virt dma k =
    fill_entry d vma e virt dma (page_align length)
      (set_coherent virt true (set_entry e (some zero_entry) k))

module _ (k : Kernel) (g : Grant) (d vma length : ℕ) where
  undone : (e : ℕ) → k.entries e ≡ none → set_entry e none (set_entry e (some zero_entry) k) ≡ k
  undone e fresh =
      ap (λ f. record k { entries = f })
        (update-update k.entries e (some zero_entry) none ∙ update_same k.entries e none fresh)

  finished :
      (e virt dma : ℕ)
      → k.devices d ≡ true
      → Safe
          (list_add d e)
          (filled d vma length e virt dma k)
          (λ _ k'. k' ≡ with_entry d vma e virt dma length k)
  finished e virt dma alive =
      let s =
        list_add-runs {k = filled d vma length e virt dma k} d e alive
          (update_at (update k.entries e (some zero_entry)) e _) in
      record {
        value = s.value;
        after = s.after;
        run = s.run;
        holds =
            s.holds
            ∙ ap
                (λ f. record k {
                  entries = f;
                  memlist = update k.memlist d (e ∷ k.memlist d);
                  vmas = (vma, e) ∷ k.vmas;
                  coherent = update k.coherent virt true;
                })
                (update-update (update k.entries e (some zero_entry)) e _ _
                  ∙ update-update k.entries e _ _);
      }

  map_area-Outcome :
      (e virt dma : ℕ)
      → Offers g d k
      → g.entry ≡ some e
      → g.buffer ≡ some (virt, dma)
      → Safe
          (map_area g.mapped d vma length e virt dma)
          (set_coherent virt true (set_entry e (some zero_entry) k))
          (Outcome g d vma length k)
  unfolding map_area
  map_area-Outcome e virt dma o at bat = elim (Bool-cases (g.mapped != 0)) [
    | inl refused ↦
        rw (refused, map_area)
          (safe->> {Q = λ _ k'. k' ≡ set_coherent virt true (set_entry e (some zero_entry) k)}
            (safe-look_device d o.device refl)
            λ _ k2 e2. rw e2 (
              safe->> {Q = λ _ k'. k' ≡ set_entry e (some zero_entry) k}
                (safe-modify _ (
                  ap
                    (λ f. record k { entries = update k.entries e (some zero_entry); coherent = f })
                    (update-update k.coherent virt true false
                      ∙ update_same k.coherent virt false (o.buffer virt dma bat))))
                λ _ k3 e3.
                  safe->> {Q = λ _ k'. k' ≡ k} (rw e3 (safe-modify _ (undone e (o.entry e at))))
                    λ _ k4 e4.
                      safe-pure remap_error (not_mapped (ground (arith, refused)) refl e4)))
    | inr accepted ↦
        rw (accepted, map_area)
          (safe->> {Q = λ _ k'. k' ≡ set_coherent virt true (set_entry e (some zero_entry) k)}
            (safe-look_device d o.device refl)
            λ _ k2 e2. rw e2 (
              safe->> {Q = λ _ k'. k' ≡ filled d vma length e virt dma k} (safe-modify _ refl)
                λ _ k3 e3.
                  safe->> {Q = λ _ k'. k' ≡ with_entry d vma e virt dma length k}
                    (rw e3 (finished e virt dma o.device))
                    λ _ k4 e4.
                      safe-pure ok (mapped e virt dma at bat (ground (arith, accepted)) refl e4)))
  ]

  map_buffer-Outcome :
      (e : ℕ) (b : Option (ℕ × ℕ))
      → Offers g d k
      → g.entry ≡ some e
      → g.buffer ≡ b
      → Safe
          (map_buffer g.mapped d vma length e b)
          (set_entry e (some zero_entry) k)
          (Outcome g d vma length k)
  unfolding map_buffer
  map_buffer-Outcome e none o at bat =
      safe->> {Q = λ _ k'. k' ≡ k} (safe-modify _ (undone e (o.entry e at)))
        λ _ k' e'. safe-pure enomem (no_memory (inr bat) refl e')
  map_buffer-Outcome e (some (virt, dma)) o at bat =
      safe->> {Q = λ _ k'. k' ≡ set_coherent virt true (set_entry e (some zero_entry) k)}
        (safe-modify _ refl) λ _ k' e'. rw e' (map_area-Outcome e virt dma o at bat)

  map_entry-Outcome :
      (x : Option ℕ)
      → Offers g d k
      → g.entry ≡ x
      → Safe (map_entry g d vma length x) k (Outcome g d vma length k)
  unfolding map_entry
  map_entry-Outcome none o at = safe-pure enomem (no_memory (inl at) refl refl)
  map_entry-Outcome (some e) o at =
      safe->> {Q = λ _ k'. k' ≡ set_entry e (some zero_entry) k} (safe-modify _ refl) λ _ k' e'.
        rw e' (
          safe->> {Q = λ _ k''. k'' ≡ set_entry e (some zero_entry) k}
            (safe-look_device d o.device refl)
            λ _ k'' e''. rw e'' (map_buffer-Outcome e g.buffer o at refl))

  -- On a device that is there, and with memory from the kernel that is not in use, `mmap_dma` touches
  -- no freed memory, and either there is a new
  -- entry, at the head of the device's list, with one area, or it returns the error that the
  -- kernel's refusal calls for and the state is the one before.
  pub mmap_dma-Outcome : Offers g d k → Safe (mmap_dma g d vma length) k (Outcome g d vma length k)
  unfolding mmap_dma
  mmap_dma-Outcome o = map_entry-Outcome g.entry o refl
