-- ===== src/Driver/Arrive.antt =====
-- A device that comes keeps the invariant.
use fioplugin.Prelude.{
  ℕ, ◌≡◌, ◌≢◌, refl, sym, ◌∙◌, ap, arith, true, false, none, some, [], ◌==◌, update, ◌⊎◌, inl, inr,
  Bool-cases, Option-cases, ==→eq, ne→==,
}
use fioplugin.Driver.{Entry, Kernel, add_device, Location}
use fioplugin.Driver.Mappings.{listed_at, Inv}
use fioplugin.Driver.Safe.{Safe, safe-modify}
use fioplugin.Driver.Areas.{Keeps}

module _ {k : Kernel} where
  -- A device that comes has no entry in its list: none refers to it.
  probe-Inv :
      (d : ℕ) (at : Location)
      → Inv k
      → k.devices d ≡ false
      → Inv (record k {
        devices = update k.devices d true;
        memlist = update k.memlist d [];
        is_open = update k.is_open d false;
        location = update k.location d at;
      })
  probe-Inv d at i gone = record {
    lists = λ a x. elim (Bool-cases (x == d)) [
      | inl here ↦ rw here (none_at a x (==→eq x d here) (Option-cases (k.entries a)))
      | inr elsewhere ↦ rw elsewhere (i.lists a x)
    ];
    refs = i.refs;
    used = i.used;
    device = λ a s at. still a s (i.device a s at);
    owner = i.owner;
    buffer = i.buffer;
    distinct = i.distinct;
  }
    where
      no_device :
          (a x : ℕ) (r : Entry)
          → x ≡ d
          → ((r.listed ≡ true) × (k.devices r.pgenpci_dev ≡ true) × (r.pgenpci_dev ≢ 0))
            ⊎ ((r.listed ≡ false) × (r.pgenpci_dev ≡ 0))
          → 0 ≡ listed_at x (some r)
      no_device a x r is (inl (l, alive, not_null)) =
          let apart : (r.pgenpci_dev == x) ≡ false =
            ne→== _ _ (λ q. true-false (sym alive ∙ ap k.devices (q ∙ is) ∙ gone)) in
          rw (l, apart) refl
        where
          true-false : true ≢ false
          true-false e = cc
      no_device a x r is (inr (l, null)) = rw l refl

      none_at :
          (a x : ℕ)
          → x ≡ d
          → (k.entries a ≡ none) ⊎ ((r : Entry) × (k.entries a ≡ some r))
          → 0 ≡ listed_at x (k.entries a)
      none_at a x is (inl absent) = sym (ap (listed_at x) absent)
      none_at a x is (inr (r, at)) =
          no_device a x r is (i.device a r at) ∙ sym (ap (listed_at x) at)

      still :
          (a : ℕ) (s : Entry)
          → ((s.listed ≡ true) × (k.devices s.pgenpci_dev ≡ true) × (s.pgenpci_dev ≢ 0))
            ⊎ ((s.listed ≡ false) × (s.pgenpci_dev ≡ 0))
          → ((s.listed ≡ true)
              × (update k.devices d true s.pgenpci_dev ≡ true)
              × (s.pgenpci_dev ≢ 0))
            ⊎ ((s.listed ≡ false) × (s.pgenpci_dev ≡ 0))
      still a s (inl (l, alive, not_null)) = inl (l, ground (arith, alive), not_null)
      still a s (inr unlisted) = inr unlisted

  pub add_device-Safe :
      (d : ℕ) (at : Location) → Inv k → k.devices d ≡ false → Safe (add_device d at) k Keeps
  unfolding add_device
  add_device-Safe d at i gone = safe-modify _ (probe-Inv d at i gone)
