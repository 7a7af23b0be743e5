-- ===== src/Driver/Safe.antt =====
-- Runs that touch no freed memory, and how an entry may change under the invariant.
use fioplugin.Prelude.{
  ℕ, ◌<◌, ◌≡◌, ◌≢◌, refl, sym, ◌∙◌, ap, arith, true, false, some, List, ◌==◌, if◌then◌else◌, update,
  ◌⊎◌, inl, inr, Bool-cases, ⊤, ==→eq, Option-cases,
}
use fioplugin.Driver.{
  Entry, Kernel, Run, find, load, private_of, lock, look_device, ◌>>=◌, ◌>>◌, modify, pure,
}
use fioplugin.Driver.Mappings.{areas, listed_at, refs_of, Inv, areas-find}

-- The call runs to its end with a value and a state for which `Q` holds.
pub record Safe {A : Type 0} (m : Run A) (k : Kernel) (Q : A → Kernel → Type 0) : Type 0 where
  pub value : A
  pub after : Kernel
  pub run : m k ≡ some (value, after)
  pub holds : Q value after

module _ {A B : Type 0} {k : Kernel} where
  pub safe->>= :
      {m : Run A} {f : A → Run B} {Q : A → Kernel → Type 0} {R : B → Kernel → Type 0}
      → Safe m k Q
      → ((a : A) (k' : Kernel) → Q a k' → Safe (f a) k' R)
      → Safe (m >>= f) k R
  unfolding ◌>>=◌
  safe->>= {m} {f} {Q} {R} s g =
      let t = g s.value s.after s.holds in
      record { value = t.value; after = t.after; run = rw (s.run, ◌>>=◌) t.run; holds = t.holds }

  pub safe->> :
      {m : Run A} {f : Run B} {Q : A → Kernel → Type 0} {R : B → Kernel → Type 0}
      → Safe m k Q
      → ((a : A) (k' : Kernel) → Q a k' → Safe f k' R)
      → Safe (m >> f) k R
  unfolding ◌>>◌
  safe->> s g = safe->>= s g

module _ {A : Type 0} {k : Kernel} where
  pub safe-weaken :
      {m : Run A} {Q R : A → Kernel → Type 0}
      → Safe m k Q
      → ((a : A) (k' : Kernel) → Q a k' → R a k')
      → Safe m k R
  safe-weaken s f = record {
    value = s.value;
    after = s.after;
    run = s.run;
    holds = f s.value s.after s.holds;
  }

module _ {k : Kernel} where
  pub safe-modify :
      {Q : ⊤ → Kernel → Type 0} (f : Kernel → Kernel) → Q tt (f k) → Safe (modify f) k Q
  unfolding modify
  safe-modify f q = record { value = tt; after = f k; run = refl; holds = q }

  pub safe-pure : {A : Type 0} {Q : A → Kernel → Type 0} (a : A) → Q a k → Safe (pure a) k Q
  unfolding pure
  safe-pure a q = record { value = a; after = k; run = refl; holds = q }

  pub safe-load :
      {r : Entry} {Q : Entry → Kernel → Type 0} (e : ℕ)
      → k.entries e ≡ some r
      → Q r k
      → Safe (load e) k Q
  unfolding load
  safe-load {r} e h q = record { value = r; after = k; run = rw (h, load); holds = q }

  pub safe-private_of :
      {e : ℕ} {Q : ℕ → Kernel → Type 0} (vma : ℕ)
      → find vma k.vmas ≡ some e
      → Q e k
      → Safe (private_of vma) k Q
  unfolding private_of
  safe-private_of {e} vma h q = record { value = e; after = k; run = rw (h, private_of); holds = q }

  pub safe-lock :
      {Q : ⊤ → Kernel → Type 0} (d : ℕ) → k.devices d ≡ true → Q tt k → Safe (lock d) k Q
  unfolding lock
  safe-lock d h q = record { value = tt; after = k; run = rw (h, lock); holds = q }

module _ {k : Kernel} where
  pub safe-look_device :
      {Q : ⊤ → Kernel → Type 0} (d : ℕ) → k.devices d ≡ true → Q tt k → Safe (look_device d) k Q
  unfolding look_device
  safe-look_device d h q = record { value = tt; after = k; run = rw (h, look_device); holds = q }

-- The entry that references count is there.
pub counted :
    (k : Kernel) (e : ℕ) → 0 < refs_of (k.entries e) → (r : Entry) × (k.entries e ≡ some r)
counted k e h = elim (Option-cases (k.entries e)) [
  | inl gone ↦ absurd (ground arith)
  | inr there ↦ there
]

-- The entry of a mapped area is there.
pub held :
    {k : Kernel} (vma e : ℕ)
    → Inv k
    → find vma k.vmas ≡ some e
    → (r : Entry) × (k.entries e ≡ some r)
held {k} vma e i h = counted k e (omega (arith, areas-find vma e k.vmas h, i.refs e))

-- One entry changed, its place and its buffer not.
module _ {k : Kernel} {e : ℕ} {r : Entry} (r' : Entry) (i : Inv k) (there : k.entries e ≡ some r)
    (virt : r'.virt_addr ≡ r.virt_addr) (on_list : r'.listed ≡ r.listed)
    (dev : r'.pgenpci_dev ≡ r.pgenpci_dev) (refs : 0 < r'.vma_refs) where
  -- What an entry after the change was before it.
  was :
      (a : ℕ) (s : Entry)
      → update k.entries e (some r') a ≡ some s
      → (s0 : Entry) × (k.entries a ≡ some s0)
        × (s.virt_addr ≡ s0.virt_addr)
        × (s.listed ≡ s0.listed)
        × (s.pgenpci_dev ≡ s0.pgenpci_dev)
        × (0 < s.vma_refs)
  was a s h = elim (Bool-cases (a == e)) [
    | inl same ↦
        let eq : a ≡ e = ==→eq a e same in
        let is : r' ≡ s = ground (arith, same, h) in
        (r, ground (arith, eq, there), ground arith, ground arith, ground arith, ground arith)
    | inr other ↦
        let is : k.entries a ≡ some s = ground (arith, other, h) in
        (s, is, refl, refl, refl, i.used a s is)
  ]

  pub Inv-set :
      {vmas : List (ℕ × ℕ)}
      → ((a : ℕ) → areas a vmas ≡ (if a == e then r'.vma_refs else areas a k.vmas))
      → Inv (record k { entries = update k.entries e (some r'); vmas = vmas })
  Inv-set count = record {
    lists = λ a d. ground (arith, i.lists a d, there, ap (listed_at d) there);
    refs = λ a. ground (arith, i.refs a, count a);
    used = λ a s h. let (s0, h0, v, l, p, u) = was a s h in u;
    device =
        λ a s h. let (s0, h0, v, l, p, u) = was a s h in same_device a s s0 l p (i.device a s0 h0);
    owner = λ v h.
        let (a, s, h0, e0) = i.owner v h in
        elim (Bool-cases (a == e)) [
          | inl same ↦ (a, r', ground (arith, same), ground (arith, same, there))
          | inr other ↦ (a, s, ground (arith, other), e0)
        ];
    buffer = λ a s h. let (s0, h0, v, l, p, u) = was a s h in rw v (i.buffer a s0 h0);
    distinct = λ a b s t h g q.
        let (s0, h0, v, l, p, u) = was a s h in
        let (t0, g0, v', l', p', u') = was b t g in i.distinct a b s0 t0 h0 g0 (sym v ∙ q ∙ v');
  }
    where
      same_device :
          (a : ℕ) (s s0 : Entry)
          → s.listed ≡ s0.listed
          → s.pgenpci_dev ≡ s0.pgenpci_dev
          → ((s0.listed ≡ true) × (k.devices s0.pgenpci_dev ≡ true) × (s0.pgenpci_dev ≢ 0))
            ⊎ ((s0.listed ≡ false) × (s0.pgenpci_dev ≡ 0))
          → ((s.listed ≡ true) × (k.devices s.pgenpci_dev ≡ true) × (s.pgenpci_dev ≢ 0))
            ⊎ ((s.listed ≡ false) × (s.pgenpci_dev ≡ 0))
      same_device a s s0 l p (inl (x, y, z)) = inl (l ∙ x, ap k.devices p ∙ y, λ e. z (sym p ∙ e))
      same_device a s s0 l p (inr (x, y)) = inr (l ∙ x, p ∙ y)
