-- ===== src/Driver/Ioctl.antt =====
-- `IOCTL_GET_MEMFINFO` and `IOCTL_RELEASE_MEM` keep the invariant and touch no freed memory.
use fioplugin.Prelude.{
  ℕ, ◌<◌, ◌≡◌, refl, sym, ◌∙◌, ap, arith, true, false, ◌||◌, Option, none, some, List, [], ◌∷◌,
  ◌==◌, ◌!=◌, inl, inr, Bool-cases, Option-cases, eq→==, ==→eq,
}
use fioplugin.Machine.{MemInfo}
use fioplugin.Driver.{
  Entry, Kernel, Run, Status, ok, enoent, pure, memlist_of, first_held, get_memfinfo, mark_released,
  release_mem, set_entry,
}
use fioplugin.Driver.Mappings.{occurs, listed_at, refs_of, Inv}
use fioplugin.Driver.Safe.{
  Safe, safe->>=, safe->>, safe-modify, safe-pure, safe-load, safe-lock, Inv-set,
}

-- The entries of a list are there.
abbrev pub AreThere : Kernel → List ℕ → Type 0
AreThere k l = (e : ℕ) → 0 < occurs e l → (r : Entry) × (k.entries e ≡ some r)

pub memlist-AreThere : {k : Kernel} (d : ℕ) → Inv k → AreThere k (k.memlist d)
memlist-AreThere {k} d i e h = elim (Option-cases (k.entries e)) [
  | inl gone ↦ absurd (ground (arith, i.lists e d, ap (listed_at d) gone))
  | inr there ↦ there
]

module _ (k : Kernel) (e : ℕ) (l : List ℕ) (h : AreThere k (e ∷ l)) where
  pub there_head : (r : Entry) × (k.entries e ≡ some r)
  there_head = h e (ground (arith, eq→== e e refl))

  pub there_tail : AreThere k l
  there_tail a p = h a (omega arith)

module _ {k : Kernel} where
  pub safe-memlist_of :
      {Q : List ℕ → Kernel → Type 0} (d : ℕ) → Q (k.memlist d) k → Safe (memlist_of d) k Q
  unfolding memlist_of
  safe-memlist_of d q = record { value = k.memlist d; after = k; run = refl; holds = q }

-- What the first entry not to be released gives.
pub data Found (k : Kernel) : List ℕ → Option Entry → Type 0 where
  nothing : Found k [] none
  here :
      {e : ℕ} {l : List ℕ} {r : Entry}
      → k.entries e ≡ some r
      → r.release_requested ≡ false
      → Found k (e ∷ l) (some r)
  later :
      {e : ℕ} {l : List ℕ} {r : Entry} {o : Option Entry}
      → k.entries e ≡ some r
      → r.release_requested ≡ true
      → Found k l o
      → Found k (e ∷ l) o

pub first_held-Safe :
    {k : Kernel} (l : List ℕ)
    → AreThere k l
    → Safe (first_held l) k (λ o k'. (k' ≡ k) × Found k l o)
unfolding first_held
first_held-Safe [] h = safe-pure none (refl, nothing)
first_held-Safe {k} (e ∷ es) h =
    let (r, there) = there_head k e es h in
    let rest = first_held-Safe {k = k} es (there_tail k e es h) in
    safe->>= {Q = λ s k'. (s ≡ r) × (k' ≡ k)} (safe-load e there (refl, refl)) λ s k' (es', ek).
      rw (es', ek)
        (elim (Bool-cases r.release_requested) [
          | inl released ↦ rw released (record {
            value = rest.value;
            after = rest.after;
            run = rest.run;
            holds = (rest.holds.0, later there released rest.holds.1);
          })
          | inr held ↦ rw held (safe-pure (some r) (refl, here there held))
        ])

-- The answer, from the entry that was found.
abbrev pub info_of : Option Entry → Option MemInfo
info_of none = none
info_of (some r) =
    some (record { kernel_virtaddr = r.virt_addr; dma_addr = r.dma_addr; size = r.size })

-- `IOCTL_GET_MEMFINFO` changes nothing and answers for the first entry that is not to be released.
pub get_memfinfo-Safe :
    {k : Kernel} (d : ℕ)
    → Inv k
    → k.devices d ≡ true
    → Safe
        (get_memfinfo d)
        k
        (λ o k'. (k' ≡ k) × ((f : Option Entry) × Found k (k.memlist d) f × (o ≡ info_of f)))
unfolding get_memfinfo
get_memfinfo-Safe {k} d i alive = safe->> {Q = λ _ k'. k' ≡ k} (safe-lock d alive refl) λ _ k1 e1.
    safe->>= {Q = λ l k'. (l ≡ k.memlist d) × (k' ≡ k)} (rw e1 (safe-memlist_of d (refl, refl)))
      λ l k2 (el, e2).
        safe->>= {Q = λ o k'. (k' ≡ k) × Found k (k.memlist d) o}
          (rw (el, e2) (first_held-Safe (k.memlist d) (memlist-AreThere d i)))
          λ f k3 (e3, found). answer f k3 e3 found
  where
    answer :
        (f : Option Entry) (k3 : Kernel)
        → k3 ≡ k
        → Found k (k.memlist d) f
        → Safe
            (elim f as (λ _. Run (Option MemInfo)) [
              | none ↦ pure none
              | some r ↦ pure (
                  some (record {
                    kernel_virtaddr = r.virt_addr;
                    dma_addr = r.dma_addr;
                    size = r.size;
                  }))
            ])
            k3
            (λ o k'. (k' ≡ k) × ((g : Option Entry) × Found k (k.memlist d) g × (o ≡ info_of g)))
    answer none k3 e3 found = safe-pure none (e3, (none, found, refl))
    answer (some r) k3 e3 found = safe-pure _ (e3, (some r, found, refl))

-- The marked state, or none of the list has these addresses.
pub data Marked (k : Kernel) (virt dma : ℕ) (l : List ℕ) : Status → Kernel → Type 0 where
  marked :
      {s : Status} {k' : Kernel} (e : ℕ) (r : Entry)
      → 0 < occurs e l
      → k.entries e ≡ some r
      → r.virt_addr ≡ virt
      → r.dma_addr ≡ dma
      → s ≡ ok
      → k' ≡ set_entry e (some (record r { release_requested = true })) k
      → Marked k virt dma l s k'
  absent :
      {s : Status} {k' : Kernel}
      → ((e : ℕ) (r : Entry)
          → 0 < occurs e l
          → k.entries e ≡ some r
          → (r.virt_addr != virt || r.dma_addr != dma) ≡ true)
      → s ≡ enoent
      → k' ≡ k
      → Marked k virt dma l s k'

-- `mark_released` of a list whose entries are there.
module _ {k : Kernel} (virt dma : ℕ) where
  Marked-later :
      (e : ℕ) (r : Entry) (es : List ℕ) (s : Status) (k' : Kernel)
      → k.entries e ≡ some r
      → (r.virt_addr != virt || r.dma_addr != dma) ≡ true
      → Marked k virt dma es s k'
      → Marked k virt dma (e ∷ es) s k'
  Marked-later e r es s k' there other (marked a t on at v m done after) =
      marked a t (omega arith) at v m done after
  Marked-later e r es s k' there other (absent none_of missing after) = absent others missing after
    where
      others :
          (a : ℕ) (t : Entry)
          → 0 < occurs a (e ∷ es)
          → k.entries a ≡ some t
          → (t.virt_addr != virt || t.dma_addr != dma) ≡ true
      others a t on at = elim (Bool-cases (e == a)) [
        | inl same ↦
            let eq : e ≡ a = ==→eq e a same in
            let is : some r ≡ some t = sym there ∙ ap k.entries eq ∙ at in ground (arith, other, is)
        | inr apart ↦ none_of a t (ground (arith, on, apart)) at
      ]

  mark_released-Safe :
      (l : List ℕ) → AreThere k l → Safe (mark_released virt dma l) k (Marked k virt dma l)
  unfolding mark_released
  mark_released-Safe [] h = safe-pure enoent (absent (λ e r on at. absurd (omega arith)) refl refl)
  mark_released-Safe (e ∷ es) h =
      let (r, there) = there_head k e es h in
      let rest = mark_released-Safe es (there_tail k e es h) in
      safe->>= {Q = λ s k'. (s ≡ r) × (k' ≡ k)} (safe-load e there (refl, refl)) λ s k' (es', ek).
        rw (es', ek)
          (elim (Bool-cases (r.virt_addr != virt || r.dma_addr != dma)) [
            | inl other ↦ rw other (record {
              value = rest.value;
              after = rest.after;
              run = rest.run;
              holds = Marked-later e r es rest.value rest.after there other rest.holds;
            })
            | inr same ↦ rw same (
                safe->>
                  {Q = λ _ k'. k' ≡ set_entry e (some (record r { release_requested = true })) k}
                  (safe-modify _ refl)
                  λ _ k1 e1. safe-pure ok (
                    marked e r (ground (arith, eq→== e e refl)) there (ground (arith, same))
                      (ground (arith, same)) refl e1))
          ])

  -- `IOCTL_RELEASE_MEM` marks one entry of these addresses, if the device has one, and changes
  -- nothing else.
  pub release_mem-Safe :
      (d : ℕ)
      → Inv k
      → k.devices d ≡ true
      → Safe (release_mem d virt dma) k (Marked k virt dma (k.memlist d))
  unfolding release_mem
  release_mem-Safe d i alive = safe->> {Q = λ _ k'. k' ≡ k} (safe-lock d alive refl) λ _ k1 e1.
      safe->>= {Q = λ l k'. (l ≡ k.memlist d) × (k' ≡ k)} (rw e1 (safe-memlist_of d (refl, refl)))
        λ l k2 (el, e2). rw (el, e2) (mark_released-Safe (k.memlist d) (memlist-AreThere d i))

-- The marked state has the invariant.
pub Marked-Inv :
    {k : Kernel} (virt dma : ℕ) (l : List ℕ) (s : Status) (k' : Kernel)
    → Inv k
    → Marked k virt dma l s k'
    → Inv k'
Marked-Inv {k} virt dma l s k' i (absent none_of missing after) = rw after i
Marked-Inv {k} virt dma l s k' i (marked e r on at v m done after) = rw after (
    Inv-set {e = e} (record r { release_requested = true }) i at refl refl refl (i.used e r at)
      (λ a. ground (arith, i.refs a, ap refs_of at)))
