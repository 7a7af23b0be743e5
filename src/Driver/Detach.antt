-- ===== src/Driver/Detach.antt =====
-- `genpci_remove`, for the entries: they lose the device, and stay as long as areas refer to them.
use fioplugin.Prelude.{
  ℕ, ◌≡◌, ◌≢◌, refl, sym, ◌∙◌, ap, fun_ext, arith, true, false, Option, none, some, List, [], ◌∷◌,
  ◌==◌, if◌then◌else◌, update, ◌⊎◌, inl, inr, Bool-cases, Option-cases, eq→==, ==→eq, ==→ne, ne→==,
}
use fioplugin.Driver.{
  Entry, Kernel, detached, detach_each, genpci_detach_dma_entries, genpci_remove, set_entry,
  set_list,
}
use fioplugin.Driver.Mappings.{occurs, areas, listed_at, refs_of, Inv}
use fioplugin.Driver.Safe.{
  Safe, safe-weaken, safe->>=, safe->>, safe-modify, safe-pure, safe-load, safe-lock,
}
use fioplugin.Driver.Ioctl.{AreThere, memlist-AreThere, there_head, there_tail, safe-memlist_of}

abbrev pub map_detached : Option Entry → Option Entry
map_detached none = none
map_detached (some r) = some (detached r)

-- The entries of a list lose their device.
abbrev pub detach_all : List ℕ → (ℕ → Option Entry) → ℕ → Option Entry
detach_all es f a = if occurs a es == 0 then f a else map_detached (f a)

detach_all_cons :
    (e : ℕ) (es : List ℕ) (f : ℕ → Option Entry) (r : Entry)
    → f e ≡ some r
    → detach_all es (update f e (some (detached r))) ≡ detach_all (e ∷ es) f
detach_all_cons e es f r there = fun_ext λ a. elim (Bool-cases (a == e)) [
  | inl same ↦
      let eq : e ≡ a = sym (==→eq a e same) in
      let at : f a ≡ some r = sym (ap f eq) ∙ there in rw (same, eq→== e a eq, at) (ground arith)
  | inr other ↦ rw (other, ne→== e a (λ q. ==→ne a e other (sym q))) (ground arith)
]

detach_each-runs :
    {k : Kernel} (es : List ℕ)
    → AreThere k es
    → Safe (detach_each es) k (λ _ k'. k' ≡ record k { entries = detach_all es k.entries })
unfolding detach_each
detach_each-runs {k} [] h = safe-pure tt refl
detach_each-runs {k} (e ∷ es) h =
    let (r, there) = there_head k e es h in
    safe->>= {Q = λ s k'. (s ≡ r) × (k' ≡ k)} (safe-load e there (refl, refl)) λ s k' (es', ek).
      rw (es', ek)
        (safe->> {Q = λ _ k'. k' ≡ set_entry e (some (detached r)) k} (safe-modify _ refl)
          λ _ k1 e1. rw e1 (
            safe-weaken (detach_each-runs {k = set_entry e (some (detached r)) k} es (still r))
              λ _ k2 e2.
                e2 ∙ ap (λ f. record k { entries = f }) (detach_all_cons e es k.entries r there)))
  where
    still : (r : Entry) → AreThere (set_entry e (some (detached r)) k) es
    still r a p = elim (Bool-cases (a == e)) [
      | inl same ↦ (detached r, rw same refl)
      | inr other ↦ let (s, at) = there_tail k e es h a p in (s, rw other at)
    ]

-- The state after the device has gone.
abbrev pub without_device : ℕ → Kernel → Kernel
without_device d k = record k {
  entries = detach_all (k.memlist d) k.entries;
  memlist = update k.memlist d [];
  devices = update k.devices d false;
}

module _ {k : Kernel} (d : ℕ) (i : Inv k) where
  -- `genpci_remove` touches no freed memory: it empties the list, detaches what was in it and frees
  -- the device.
  pub genpci_remove-Safe :
      k.devices d ≡ true → Safe (genpci_remove d) k (λ _ k'. k' ≡ without_device d k)
  unfolding genpci_remove genpci_detach_dma_entries
  genpci_remove-Safe alive =
      safe->>
        {Q = λ _ k'. k' ≡ record k {
          entries = detach_all (k.memlist d) k.entries;
          memlist = update k.memlist d [];
        }}
        (safe->> {Q = λ _ k'. k' ≡ k} (safe-lock d alive refl) λ _ k1 e1.
          safe->>= {Q = λ l k'. (l ≡ k.memlist d) × (k' ≡ k)}
            (rw e1 (safe-memlist_of d (refl, refl)))
            λ l k2 (el, e2).
              safe->> {Q = λ _ k'. k' ≡ set_list d [] k} (rw e2 (safe-modify _ refl)) λ _ k3 e3.
                rw (el, e3)
                  (detach_each-runs {k = set_list d [] k} (k.memlist d)
                    (λ a p. memlist-AreThere d i a p)))
        λ _ k4 e4. rw e4 (safe-modify _ refl)

  -- What an entry after the removal was before it.
  before :
      (a : ℕ) (s : Entry)
      → detach_all (k.memlist d) k.entries a ≡ some s
      → (s0 : Entry) × (k.entries a ≡ some s0)
        × (s.virt_addr ≡ s0.virt_addr)
        × (s.vma_refs ≡ s0.vma_refs)
        × (((s.listed ≡ false) × (s.pgenpci_dev ≡ 0)) ⊎ ((s ≡ s0) × (occurs a (k.memlist d) ≡ 0)))
  before a s h = elim (Bool-cases (occurs a (k.memlist d) == 0)) [
    | inl outside ↦
        let at : k.entries a ≡ some s = ground (arith, outside, h) in
        (s, at, refl, refl, inr (refl, ==→eq _ 0 outside))
    | inr inside ↦
        let (s0, at) = memlist-AreThere d i a (ground (arith, inside)) in
        let is : detached s0 ≡ s = ground (arith, inside, at, h) in
        (s0, at, rw (sym is), rw (sym is), inl (rw (sym is), rw (sym is)))
  ]

  pub without_device-Inv : Inv (without_device d k)
  without_device-Inv = record {
    lists = λ a x. lists_after a x (Option-cases (k.entries a));
    refs = λ a. refs_after a (Option-cases (k.entries a));
    used = λ a s h. let (s0, at, v, u, p) = before a s h in ground (arith, u, i.used a s0 at);
    device = λ a s h. let (s0, at, v, u, p) = before a s h in device_after a s s0 at p;
    owner = λ v h.
        let (a, s, at, vv) = i.owner v h in
        elim (Bool-cases (occurs a (k.memlist d) == 0)) [
          | inl outside ↦ (a, s, rw (outside, at), vv)
          | inr inside ↦ (a, detached s, rw (inside, at), vv)
        ];
    buffer = λ a s h. let (s0, at, v, u, p) = before a s h in ap k.coherent v ∙ i.buffer a s0 at;
    distinct = λ a b s t h g q.
        let (s0, at, v, u, p) = before a s h in
        let (t0, bt, v', u', p') = before b t g in i.distinct a b s0 t0 at bt (sym v ∙ q ∙ v');
  }
    where
      lists_after :
          (a x : ℕ)
          → (k.entries a ≡ none) ⊎ ((r : Entry) × (k.entries a ≡ some r))
          → occurs a (update k.memlist d [] x) ≡ listed_at x (detach_all (k.memlist d) k.entries a)
      lists_after a x (inl gone) = ground (arith, i.lists a x, ap (listed_at x) gone, gone)
      lists_after a x (inr (r, there)) =
          ground
            (arith, i.lists a x, i.lists a d, ap (listed_at x) there, ap (listed_at d) there, there)

      refs_after :
          (a : ℕ)
          → (k.entries a ≡ none) ⊎ ((r : Entry) × (k.entries a ≡ some r))
          → areas a k.vmas ≡ refs_of (detach_all (k.memlist d) k.entries a)
      refs_after a (inl gone) = ground (arith, i.refs a, gone)
      refs_after a (inr (r, there)) = ground (arith, i.refs a, there)

      device_after :
          (a : ℕ) (s s0 : Entry)
          → k.entries a ≡ some s0
          → ((s.listed ≡ false) × (s.pgenpci_dev ≡ 0)) ⊎ ((s ≡ s0) × (occurs a (k.memlist d) ≡ 0))
          → ((s.listed ≡ true)
              × (update k.devices d false s.pgenpci_dev ≡ true)
              × (s.pgenpci_dev ≢ 0))
            ⊎ ((s.listed ≡ false) × (s.pgenpci_dev ≡ 0))
      device_after a s s0 at (inl gone) = inr gone
      device_after a s s0 at (inr (is, outside)) = rw is (kept (i.device a s0 at))
        where
          kept :
              ((s0.listed ≡ true) × (k.devices s0.pgenpci_dev ≡ true) × (s0.pgenpci_dev ≢ 0))
                ⊎ ((s0.listed ≡ false) × (s0.pgenpci_dev ≡ 0))
              → ((s0.listed ≡ true)
                  × (update k.devices d false s0.pgenpci_dev ≡ true)
                  × (s0.pgenpci_dev ≢ 0))
                ⊎ ((s0.listed ≡ false) × (s0.pgenpci_dev ≡ 0))
          kept (inl (l, alive, not_null)) =
              let apart : (s0.pgenpci_dev == d) ≡ false =
                ground (arith, i.lists a d, ap (listed_at d) at, outside, l) in
              inl (l, rw apart alive, not_null)
          kept (inr gone) = inr gone
