-- ===== src/Driver/Map.antt =====
-- The outcomes of `mmap_dma`, and a new entry under the invariant.
use fioplugin.Prelude.{
  ℕ, ◌<◌, ◌≡◌, ◌≢◌, refl, sym, ◌∙◌, ap, fun_ext, arith, true, false, none, some, ◌∷◌, ◌==◌, update,
  ◌⊎◌, inl, inr, Bool-cases, ==→eq, eq→==, ne→==,
}
use fioplugin.Driver.{Entry, Kernel, Status, ok, enomem, remap_error, Grant, page_align}
use fioplugin.Driver.Mappings.{listed_at, refs_of, Inv}

-- The kernel hands out memory that is not in use, and the device is there.
pub record Offers (g : Grant) (d : ℕ) (k : Kernel) : Type 0 where
  pub device : k.devices d ≡ true
  pub not_null : d ≢ 0
  pub entry : (e : ℕ) → g.entry ≡ some e → k.entries e ≡ none
  pub buffer : (virt dma : ℕ) → g.buffer ≡ some (virt, dma) → k.coherent virt ≡ false

-- The entry that `mmap_dma` makes.
abbrev pub new_entry : (d virt dma length : ℕ) → Entry
new_entry d virt dma length = record {
  pgenpci_dev = d;
  virt_addr = virt;
  dma_addr = dma;
  size = page_align length;
  vma_refs = 1;
  release_requested = false;
  listed = true;
}

-- The state with a new entry.
abbrev pub with_entry : (d vma e virt dma length : ℕ) → Kernel → Kernel
with_entry d vma e virt dma length k = record k {
  entries = update k.entries e (some (new_entry d virt dma length));
  memlist = update k.memlist d (e ∷ k.memlist d);
  vmas = (vma, e) ∷ k.vmas;
  coherent = update k.coherent virt true;
}

-- The outcomes: a new entry, or an error that leaves the state as it was.
pub data Outcome (g : Grant) (d vma length : ℕ) (k : Kernel) : Status → Kernel → Type 0 where
  mapped :
      {s : Status} {k' : Kernel} (e virt dma : ℕ)
      → g.entry ≡ some e
      → g.buffer ≡ some (virt, dma)
      → g.mapped ≡ 0
      → s ≡ ok
      → k' ≡ with_entry d vma e virt dma length k
      → Outcome g d vma length k s k'
  no_memory :
      {s : Status} {k' : Kernel}
      → (g.entry ≡ none) ⊎ (g.buffer ≡ none)
      → s ≡ enomem
      → k' ≡ k
      → Outcome g d vma length k s k'
  not_mapped :
      {s : Status} {k' : Kernel}
      → g.mapped ≢ 0
      → s ≡ remap_error
      → k' ≡ k
      → Outcome g d vma length k s k'

module _ {A : Type 0} (f : ℕ → A) (e : ℕ) where
  pub update-update : (x y : A) → update (update f e x) e y ≡ update f e y
  update-update x y =
      fun_ext λ a. elim (Bool-cases (a == e)) [ inl same ↦ rw same | inr other ↦ rw other ]

  pub update_same : (x : A) → f e ≡ x → update f e x ≡ f
  update_same x h = fun_ext λ a. elim (Bool-cases (a == e)) [
    | inl same ↦ let eq : e ≡ a = sym (==→eq a e same) in rw same (sym h ∙ ap f eq)
    | inr other ↦ rw other
  ]

  pub update_at : (x : A) → update f e x e ≡ x
  update_at x = rw (eq→== e e refl)

none-some : {A : Type 0} {a : A} → none ≢ some a
none-some e = cc

-- A new entry under the invariant.
module _ {k : Kernel} {e virt : ℕ} (d vma dma length : ℕ) (i : Inv k) (alive : k.devices d ≡ true)
    (not_null : d ≢ 0) (fresh : k.entries e ≡ none) (unused : k.coherent virt ≡ false) where
  -- An entry is the new one, or was there and has another buffer.
  new_or_old :
      (a : ℕ) (s : Entry)
      → (with_entry d vma e virt dma length k).entries a ≡ some s
      → ((a ≡ e) × (s ≡ new_entry d virt dma length))
        ⊎ ((k.entries a ≡ some s) × (s.virt_addr ≢ virt))
  new_or_old a s h = elim (Bool-cases (a == e)) [
    | inl same ↦
        let eq : a ≡ e = ==→eq a e same in
        let is : some s ≡ some (new_entry d virt dma length) = sym h ∙ rw same in inl (eq, cc)
    | inr other ↦
        let is : k.entries a ≡ some s = ground (arith, other, h) in
        inr (is, λ q. unused_buffer a s is q)
  ]
    where
      unused_buffer : (a : ℕ) (s : Entry) → k.entries a ≡ some s → s.virt_addr ≢ virt
      unused_buffer a s is q = ground (arith, i.buffer a s is, ap k.coherent q, unused)

  pub with_entry-Inv : Inv (with_entry d vma e virt dma length k)
  with_entry-Inv = record {
    lists = λ a x. elim (Bool-cases (x == d)) [
      | inl here ↦
          let same : d ≡ x = sym (==→eq x d here) in
          rw (here, same)
            (ground (arith, i.lists a x, i.lists e x, ap (listed_at x) fresh, eq→== x x refl))
      | inr elsewhere ↦
          rw elsewhere (ground (arith, i.lists a x, ap (listed_at x) fresh, elsewhere))
    ];
    refs = λ a. ground (arith, i.refs a, ap refs_of fresh);
    used = λ a s h. old_used a s (new_or_old a s h);
    device = λ a s h. old_device a s (new_or_old a s h);
    owner = λ v h. elim (Bool-cases (v == virt)) [
      | inl new ↦ (e, new_entry d virt dma length, update_at k.entries e _, sym (==→eq v virt new))
      | inr old ↦
          let (a, s, at, vv) = i.owner v (ground (arith, old, h)) in
          let apart : (a == e) ≡ false =
            ne→== a e (λ q. absurd (none-some (sym fresh ∙ ap k.entries (sym q) ∙ at))) in
          (a, s, ground (arith, apart, at), vv)
    ];
    buffer = λ a s h. old_buffer a s (new_or_old a s h);
    distinct = λ a b s t h g q. old_distinct a b s t q (new_or_old a s h) (new_or_old b t g);
  }
    where
      old_used :
          (a : ℕ) (s : Entry)
          → ((a ≡ e) × (s ≡ new_entry d virt dma length))
            ⊎ ((k.entries a ≡ some s) × (s.virt_addr ≢ virt))
          → 0 < s.vma_refs
      old_used a s (inl (x, y)) = rw y (omega arith)
      old_used a s (inr (x, y)) = i.used a s x

      old_device :
          (a : ℕ) (s : Entry)
          → ((a ≡ e) × (s ≡ new_entry d virt dma length))
            ⊎ ((k.entries a ≡ some s) × (s.virt_addr ≢ virt))
          → ((s.listed ≡ true) × (k.devices s.pgenpci_dev ≡ true) × (s.pgenpci_dev ≢ 0))
            ⊎ ((s.listed ≡ false) × (s.pgenpci_dev ≡ 0))
      old_device a s (inl (x, y)) = rw y (inl (refl, alive, not_null))
      old_device a s (inr (x, y)) = i.device a s x

      old_buffer :
          (a : ℕ) (s : Entry)
          → ((a ≡ e) × (s ≡ new_entry d virt dma length))
            ⊎ ((k.entries a ≡ some s) × (s.virt_addr ≢ virt))
          → update k.coherent virt true s.virt_addr ≡ true
      old_buffer a s (inl (x, y)) = rw (y, eq→== virt virt refl)
      old_buffer a s (inr (x, y)) = ground (arith, i.buffer a s x)

      old_distinct :
          (a b : ℕ) (s t : Entry)
          → s.virt_addr ≡ t.virt_addr
          → ((a ≡ e) × (s ≡ new_entry d virt dma length))
            ⊎ ((k.entries a ≡ some s) × (s.virt_addr ≢ virt))
          → ((b ≡ e) × (t ≡ new_entry d virt dma length))
            ⊎ ((k.entries b ≡ some t) × (t.virt_addr ≢ virt))
          → a ≡ b
      old_distinct a b s t q (inl (x, y)) (inl (x', y')) = x ∙ sym x'
      old_distinct a b s t q (inl (x, y)) (inr (x', y')) =
          absurd (y' (sym q ∙ ap (λ (u : Entry). u.virt_addr) y))
      old_distinct a b s t q (inr (x, y)) (inl (x', y')) =
          absurd (y (q ∙ ap (λ (u : Entry). u.virt_addr) y'))
      old_distinct a b s t q (inr (x, y)) (inr (x', y')) = i.distinct a b s t x x' q
