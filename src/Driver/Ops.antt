-- ===== src/Driver/Ops.antt =====
-- Any sequence of the kernel's calls of the module, and what it leaves behind.
use fioplugin.Prelude.{
  ℕ, ◌≡◌, ◌≢◌, refl, ap, arith, true, false, none, some, List, [], ◌∷◌, ◌⊎◌, inl, inr, Bool-cases,
  Option-cases,
}
use fioplugin.Driver.{Entry, Kernel, Run, Status, Grant, find, ◌>>◌, ◌>>=◌, pure}
use fioplugin.Driver.Mappings.{areas, refs_of, Inv, areas-find}
use fioplugin.Driver.Safe.{Safe, safe-weaken, safe->>, safe-pure, counted}
use fioplugin.Driver.Arrive.{add_device-Safe}
use fioplugin.Driver.Areas.{Keeps, dma_vma_open-Safe, dma_vma_close-Safe}
use fioplugin.Driver.Mmap.{mmap_dma-Outcome}
use fioplugin.Driver.Map.{Offers, Outcome, mapped, no_memory, not_mapped, with_entry-Inv}
use fioplugin.Driver.File.Answers.{
  genpci_open-Safe, genpci_close-Safe, set_open-Inv, genpci_ioctl-Answered, Answered-Inv,
}
use fioplugin.Driver.Detach.{genpci_remove-Safe, without_device-Inv}
use fioplugin.Driver.Calls.{
  Op, map, fork, unmap, opened, closed, ioctl, remove, probe, Hands, Allowed, run_op, run_ops,
  AllAllowed, RunsOr, There, file_of-There,
}

module _ {k : Kernel} where
  Outcome-Inv :
      {g : Grant} {s : Status} {k' : Kernel} (d vma length : ℕ)
      → Inv k
      → Offers g d k
      → Outcome g d vma length k s k'
      → Inv k'
  Outcome-Inv d vma length i o (mapped e virt dma at bat accepted done after) =
      rw after (
        with_entry-Inv d vma dma length i o.device o.not_null (o.entry e at)
          (o.buffer virt dma bat))
  Outcome-Inv d vma length i o (no_memory why done after) = rw after i
  Outcome-Inv d vma length i o (not_mapped why done after) = rw after i

  and_return :
      {A : Type 0} {m : Run A} {Q : A → Kernel → Type 0}
      → Safe m k Q
      → ((a : A) (k' : Kernel) → Q a k' → Inv k')
      → Safe (m >> pure tt) k Keeps
  and_return s f = safe->> (safe-weaken s f) λ _ k' i. safe-pure tt i

  offered : {g : Grant} (d : ℕ) → Hands g d k → k.devices d ≡ true → Offers g d k
  offered d h there = record {
    device = there;
    not_null = h.not_null;
    entry = h.entry;
    buffer = h.buffer;
  }

  run_op-Safe : (o : Op) → Inv k → Allowed o k → There o k → Safe (run_op o) k Keeps
  unfolding run_op
  run_op-Safe (map g d vma length) i h there =
      let o = offered d h (there d refl) in
      and_return (mmap_dma-Outcome k g d vma length o) λ s k' q. Outcome-Inv d vma length i o q
  run_op-Safe (fork vma copy) i (e, at) there = dma_vma_open-Safe vma copy e i at
  run_op-Safe (unmap vma) i (e, at) there = dma_vma_close-Safe vma e i at
  run_op-Safe (opened d) i h there =
      safe-weaken (genpci_open-Safe d (there d refl)) λ _ k' e. rw e (set_open-Inv d true i)
  run_op-Safe (closed d) i h there =
      safe-weaken (genpci_close-Safe d (there d refl)) λ _ k' e. rw e (set_open-Inv d false i)
  run_op-Safe (ioctl copies request d) i h there =
      and_return (genpci_ioctl-Answered copies request d i (there d refl))
        λ s k' a. Answered-Inv request d i a
  run_op-Safe (remove d) i alive there =
      safe-weaken (genpci_remove-Safe d i alive) λ _ k' e. rw e (without_device-Inv d i)
  run_op-Safe (probe d at) i gone there = add_device-Safe d at i gone

ran_none : (k : Kernel) → run_ops [] k ≡ some (tt, k)
unfolding run_ops pure
ran_none k = refl

ran_first :
    (k k' k'' : Kernel) (o : Op) (os : List Op)
    → run_op o k ≡ some (tt, k')
    → run_ops os k' ≡ some (tt, k'')
    → run_ops (o ∷ os) k ≡ some (tt, k'')
unfolding run_ops ◌>>◌ ◌>>=◌
ran_first k k' k'' o os first rest = rw (first, ◌>>◌, ◌>>=◌) rest

-- From a state with the invariant, a sequence of calls of which each is allowed when it is made
-- runs to its end without an access to freed memory, with the invariant there, or without one comes to
-- a call for a file whose device has been removed, in a state with the invariant.
pub run_ops-Safe : (os : List Op) (k : Kernel) → Inv k → AllAllowed os k → RunsOr Inv os k
unfolding run_ops
run_ops-Safe [] k i a = inl (safe-pure tt i)
run_ops-Safe (o ∷ os) k i (first, rest) = elim (file_of-There o k) [
  | inr (d, e, gone) ↦ inr (record {
    before = [];
    call = o;
    after = os;
    splits = refl;
    state = k;
    ran = ran_none k;
    holds = i;
    device = d;
    for_file = e;
    removed = gone;
  })
  | inl there ↦
      let s = run_op-Safe o i first there in
      elim (run_ops-Safe os s.after s.holds (rw s.run at rest)) [
        | inl t ↦ inl (
            safe->> {Q = λ _ k'. k' ≡ s.after}
              (record { value = tt; after = s.after; run = s.run; holds = refl }) λ _ k' e. rw e t)
        | inr t ↦ inr (record {
          before = o ∷ t.before;
          call = t.call;
          after = t.after;
          splits = ap (λ (l : List Op). o ∷ l) t.splits;
          state = t.state;
          ran = ran_first k s.after t.state o t.before s.run t.ran;
          holds = t.holds;
          device = t.device;
          for_file = t.for_file;
          removed = t.removed;
        })
      ]
]

-- The module's state before its first device.
abbrev pub idle : Kernel
idle = record {
  entries = λ _. none;
  devices = λ _. false;
  memlist = λ _. [];
  is_open = λ _. false;
  location = λ _. record { domain = 0; bus = 0; devfn = 0 };
  vmas = [];
  coherent = λ _. false;
}

pub idle-Inv : Inv idle
idle-Inv = record {
  lists = λ e d. refl;
  refs = λ e. refl;
  used = λ e r h. cc;
  device = λ e r h. cc;
  owner = λ v h. cc;
  buffer = λ e r h. cc;
  distinct = λ a b r s h g q. cc;
}

-- No entry and no buffer is allocated.
pub record IsClean (k : Kernel) : Type 0 where
  pub entries : (e : ℕ) → k.entries e ≡ none
  pub coherent : (v : ℕ) → k.coherent v ≡ false

-- What the areas that are mapped have, and what is left when there are none.
pub record Accounts (k : Kernel) : Type 0 where
  pub live :
      (vma e : ℕ)
      → find vma k.vmas ≡ some e
      → (r : Entry) × (k.entries e ≡ some r) × (k.coherent r.virt_addr ≡ true)
  pub clean : k.vmas ≡ [] → IsClean k

Inv-Accounts : {k : Kernel} → Inv k → Accounts k
Inv-Accounts {k} i = record {
  live = λ vma e h.
      let (r, at) = counted k e (omega (arith, areas-find vma e k.vmas h, i.refs e)) in
      (r, at, i.buffer e r at);
  clean = λ none_mapped. record {
    entries = λ e. gone none_mapped e (Option-cases (k.entries e));
    coherent = λ v. elim (Bool-cases (k.coherent v)) [
      | inl left ↦ let (e, r, at, vv) = i.owner v left in absurd (unheld none_mapped e r at)
      | inr freed ↦ freed
    ];
  };
}
  where
    unheld : k.vmas ≡ [] → (e : ℕ) (r : Entry) → k.entries e ≢ some r
    unheld none_mapped e r at =
        ground (arith, i.used e r at, i.refs e, ap refs_of at, ap (areas e) none_mapped)

    gone :
        k.vmas ≡ []
        → (e : ℕ) → (k.entries e ≡ none) ⊎ ((r : Entry) × (k.entries e ≡ some r))
        → k.entries e ≡ none
    gone none_mapped e (inl absent) = absent
    gone none_mapped e (inr (r, at)) = absurd (unheld none_mapped e r at)

-- After any sequence of allowed calls from the idle module, or when it comes to a call for a file whose
-- device has been removed, each area that is mapped has an entry and a buffer that are allocated, and
-- when no area is mapped, no entry and no buffer is left.
pub run_ops-Accounts : (os : List Op) → AllAllowed os idle → RunsOr Accounts os idle
run_ops-Accounts os a = elim (run_ops-Safe os idle idle-Inv a) [
  | inl s ↦ inl (safe-weaken s λ _ k i. Inv-Accounts i)
  | inr t ↦ inr (record {
    before = t.before;
    call = t.call;
    after = t.after;
    splits = t.splits;
    state = t.state;
    ran = t.ran;
    holds = Inv-Accounts t.holds;
    device = t.device;
    for_file = t.for_file;
    removed = t.removed;
  })
]
