-- ===== src/Driver/Areas.antt =====
-- `dma_vma_open` and `dma_vma_close` keep the invariant and touch no freed memory.
use fioplugin.Prelude.{
  ℕ, ◌+◌, ◌-◌, ◌≡◌, ◌≢◌, refl, sym, ap, arith, true, false, none, some, List, ◌==◌, if◌then◌else◌,
  update, ◌⊎◌, inl, inr, Bool-cases, ==→eq, ==→ne, eq→==, ne→==,
}
use fioplugin.Driver.{
  Entry, Kernel, find, drop_area, list_del, lock, lock_if, pure, dma_vma_open, dma_vma_close,
  close_locked, free_entry, set_entry,
}
use fioplugin.Driver.Mappings.{occurs, listed_at, refs_of, Inv, occurs-list_del, areas-drop_area}
use fioplugin.Driver.Safe.{
  Safe, safe-weaken, safe->>=, safe->>, safe-modify, safe-pure, safe-load, safe-private_of,
  safe-lock, held, Inv-set,
}

abbrev pub Keeps : {A : Type 0} → A → Kernel → Type 0
Keeps _ = Inv

-- `dma_vma_open`, for an area that is mapped.
pub dma_vma_open-Safe :
    {k : Kernel} (vma copy e : ℕ)
    → Inv k
    → find vma k.vmas ≡ some e
    → Safe (dma_vma_open vma copy) k Keeps
unfolding dma_vma_open
dma_vma_open-Safe {k} vma copy e i h =
    let (r, there) = held vma e i h in
    safe->>= {Q = λ a k'. (a ≡ e) × (k' ≡ k)} (safe-private_of vma h (refl, refl)) λ a k' (ea, ek).
      safe->>= {Q = λ s k''. (s ≡ r) × (k'' ≡ k)} (rw (ea, ek) (safe-load e there (refl, refl)))
        λ s k'' (es, ek''). safe-modify _ (
          rw (ea, es, ek'')
            (Inv-set {e = e} (record r { vma_refs = r.vma_refs + 1 }) i there refl refl refl
              (omega arith) (λ b. ground (arith, i.refs b, ap refs_of there))))

-- A freed entry, with the lists that have lost it.
module _ {k : Kernel} {e : ℕ} {r : Entry} (i : Inv k) (there : k.entries e ≡ some r)
    (last : r.vma_refs ≡ 1) where
  still :
      (a : ℕ) (s : Entry) → update k.entries e none a ≡ some s → (k.entries a ≡ some s) × (a ≢ e)
  still a s h = elim (Bool-cases (a == e)) [
    | inl same ↦ absurd (ground arith)
    | inr other ↦ (ground (arith, other, h), ==→ne a e other)
  ]

  pub Inv-free :
      {memlist : ℕ → List ℕ} (vma : ℕ)
      → find vma k.vmas ≡ some e
      → ((a d : ℕ) → occurs a (memlist d) ≡ (if a == e then 0 else occurs a (k.memlist d)))
      → Inv (record k {
        memlist = memlist;
        vmas = drop_area vma k.vmas;
        coherent = update k.coherent r.virt_addr false;
        entries = update k.entries e none;
      })
  Inv-free vma mapped lists = record {
    lists = λ a d. ground (arith, lists a d, i.lists a d);
    refs = λ a. ground (arith, areas-drop_area a vma e k.vmas mapped, i.refs a, ap refs_of there);
    used = λ a s h. i.used a s (still a s h).0;
    device = λ a s h. i.device a s (still a s h).0;
    owner = λ v h. elim (Bool-cases (v == r.virt_addr)) [
      | inl same ↦ absurd (ground arith)
      | inr other ↦
          let (a, s, at, virt) = i.owner v (ground (arith, other, h)) in
          let apart : a ≢ e = λ same. ==→ne v r.virt_addr other (freed_virt a s same at virt) in
          (a, s, ground (arith, ne→== a e apart, at), virt)
    ];
    buffer = λ a s h.
        let (at, apart) = still a s h in
        let other : (s.virt_addr == r.virt_addr) ≡ false =
          ne→== _ _ (λ q. apart (i.distinct a e s r at there q)) in
        ground (arith, other, i.buffer a s at);
    distinct = λ a b s t h g q. i.distinct a b s t (still a s h).0 (still b t g).0 q;
  }
    where
      freed_virt :
          (a : ℕ) (s : Entry) {v : ℕ}
          → a ≡ e
          → k.entries a ≡ some s
          → s.virt_addr ≡ v
          → v ≡ r.virt_addr
      freed_virt a s same at virt = ground (arith, ap k.entries same, at, there, virt)

  -- `list_del` takes the entry from the one list that it is in.
  deleted-occurs :
      r.listed ≡ true
      → (a d : ℕ)
      → occurs a (update k.memlist r.pgenpci_dev (list_del e (k.memlist r.pgenpci_dev)) d)
        ≡ (if a == e then 0 else occurs a (k.memlist d))
  deleted-occurs listed a d = elim (Bool-cases (d == r.pgenpci_dev)) [
    | inl here ↦
        let same : r.pgenpci_dev ≡ d = sym (==→eq d r.pgenpci_dev here) in
        rw (here, same)
          (ground (
            arith,
            occurs-list_del a e (k.memlist d),
            i.lists e d,
            ap (listed_at d) there,
            listed,
            same,
          ))
    | inr elsewhere ↦ rw elsewhere (ground (arith, i.lists a d, ap (listed_at d) there, elsewhere))
  ]

  detached-occurs :
      r.listed ≡ false
      → (a d : ℕ) → occurs a (k.memlist d) ≡ (if a == e then 0 else occurs a (k.memlist d))
  detached-occurs detached a d = ground (arith, i.lists a d, ap (listed_at d) there, detached)

  free_entry-Inv :
      (vma : ℕ)
      → find vma k.vmas ≡ some e
      → Inv (free_entry e r (record k { vmas = drop_area vma k.vmas }))
  unfolding free_entry
  free_entry-Inv vma mapped = elim (Bool-cases r.listed) [
    | inl listed ↦ rw listed (Inv-free vma mapped (deleted-occurs listed))
    | inr detached ↦ rw detached (Inv-free vma mapped (detached-occurs detached))
  ]

-- The lock that `dma_vma_close` takes is that of a device that is there.
lock_if-Safe :
    {k : Kernel} {e : ℕ} {r : Entry}
    → Inv k
    → k.entries e ≡ some r
    → Safe (lock_if r.pgenpci_dev) k (λ _ k'. k' ≡ k)
unfolding lock_if
lock_if-Safe {k} {e} {r} i there = on (i.device e r there)
  where
    on :
        ((r.listed ≡ true) × (k.devices r.pgenpci_dev ≡ true) × (r.pgenpci_dev ≢ 0))
          ⊎ ((r.listed ≡ false) × (r.pgenpci_dev ≡ 0))
        → Safe (if r.pgenpci_dev == 0 then pure tt else lock r.pgenpci_dev) k (λ _ k'. k' ≡ k)
    on (inl (listed, alive, not_null)) = rw (ne→== _ _ not_null) (safe-lock _ alive refl)
    on (inr (detached, null)) = rw (eq→== _ _ null) (safe-pure tt refl)

-- The state after an area has ended: the last one frees the entry.
abbrev pub closed : (vma e : ℕ) → Entry → Kernel → Kernel
closed vma e r k =
    (if r.vma_refs == 1
        then free_entry e r
        else set_entry e (some (record r { vma_refs = r.vma_refs - 1 })))
      (record k { vmas = drop_area vma k.vmas })

module _ {k : Kernel} (vma e : ℕ) (i : Inv k) (h : find vma k.vmas ≡ some e) where
  close_locked-runs :
      (r : Entry)
      → k.entries e ≡ some r
      → Safe (close_locked vma e r.pgenpci_dev) k (λ _ k'. k' ≡ closed vma e r k)
  unfolding close_locked
  close_locked-runs r there = safe->> {Q = λ _ k'. k' ≡ k} (lock_if-Safe i there) λ _ k' ek.
      safe->>= {Q = λ s k''. (s ≡ r) × (k'' ≡ k)} (rw ek (safe-load e there (refl, refl)))
        λ s k'' (es, ek'').
          safe->> {Q = λ _ k1. k1 ≡ record k { vmas = drop_area vma k.vmas }}
            (rw ek'' (safe-modify _ refl)) λ _ k1 e1. rw (e1, es) (safe-modify _ refl)

  pub dma_vma_close-runs :
      (r : Entry)
      → k.entries e ≡ some r
      → Safe (dma_vma_close vma) k (λ _ k'. k' ≡ closed vma e r k)
  unfolding dma_vma_close
  dma_vma_close-runs r there =
      safe->>= {Q = λ a k'. (a ≡ e) × (k' ≡ k)} (safe-private_of vma h (refl, refl))
        λ a k' (ea, ek).
          safe->>= {Q = λ s k''. (s ≡ r) × (k'' ≡ k)} (rw (ea, ek) (safe-load e there (refl, refl)))
            λ s k'' (es, ek''). rw (ea, es, ek'') (close_locked-runs r there)

  closed-Inv : (r : Entry) → k.entries e ≡ some r → Inv (closed vma e r k)
  closed-Inv r there = elim (Bool-cases (r.vma_refs == 1)) [
    | inl last ↦ rw last (free_entry-Inv i there (==→eq _ 1 last) vma h)
    | inr more ↦ rw more (
        Inv-set {e = e} (record r { vma_refs = r.vma_refs - 1 }) i there refl refl refl
          (ground (arith, i.used e r there, more))
          (λ b. ground (arith, areas-drop_area b vma e k.vmas h, i.refs b, ap refs_of there)))
  ]

  -- `dma_vma_close`, for an area that is mapped.
  pub dma_vma_close-Safe : Safe (dma_vma_close vma) k Keeps
  dma_vma_close-Safe =
      let (r, there) = held vma e i h in
      safe-weaken (dma_vma_close-runs r there) λ _ k' after. rw after (closed-Inv r there)
