-- ===== src/Init/Failure.antt =====
-- How `controller_init` fails, and the first part of it.
use fioplugin.Prelude.{
  ◌∷◌, ◌⊎◌, sym, ==→eq, ℕ, ◌≡◌, ◌≢◌, refl, false, none, some, Bool-cases, inl, inr, if◌then◌else◌,
  ◌==◌, ◌!=◌, arith, ap, ◌∙◌, ◌%◌, ◌^◌,
}
use fioplugin.Machine.{Event, Log, Platform}
use fioplugin.Nvme.{State}
use fioplugin.Call.Meets.{Ends, Meets, meets->>=, meets->>, meets-fail_if, meets-pure}
use fioplugin.Regs.{ready_timeout_ms}
use fioplugin.Regs.Access.{read64-Meets}
use fioplugin.Dma.{nvme_release_controller_dma}
use fioplugin.Dma.Alloc.{release-closed}
use fioplugin.Init.{
  bar0_map_size, map_bar0, controller_bar0_map, read_cap, nvme_unmap_controller_bar0, invalid64,
}
use fioplugin.Init.Down.{released_log, release_log, unmap-runs}

-- The attempt to map BAR0 of the controller.
abbrev pub bar0_of : Platform → State → ℕ × Log
bar0_of p s =
    controller_bar0_map p (s.ctrl.bus % 2 ^ 8) (s.ctrl.dev % 2 ^ 8) (s.ctrl.func % 2 ^ 8)
      bar0_map_size s.log

-- BAR0 is mapped at `v`, where it was or where the call has mapped it.
pub record Mapping (p : Platform) (s : State) (v : ℕ) : Type 0 where
  pub nonzero : v ≢ 0
  pub there : (v ≡ s.ctrl.bar0_virt) ⊎ ((s.ctrl.bar0_virt ≡ 0) × (v ≡ (bar0_of p s).0))

-- Why `controller_init` failed from `s`, with the release of what it held as the last events.
pub data Cause (p : Platform) (s s' : State) : Type 0 where
  not_mapped : s.ctrl.bar0_virt ≡ 0 → (bar0_of p s).0 ≡ 0 → s'.log ≡ (bar0_of p s).1 → Cause p s s'
  not_usable :
      (t : State)
      → Mapping p s t.ctrl.bar0_virt
      → s'.log ≡ Event.munmap t.ctrl.bar0_virt bar0_map_size ∷ t.log
      → Cause p s s'
  not_started :
      (t : State)
      → Mapping p s t.ctrl.bar0_virt
      → s'.log ≡ released_log t.ctrl (Event.munmap t.ctrl.bar0_virt bar0_map_size ∷ t.log)
      → Cause p s s'

-- How `controller_init` fails from `s`: BAR0 was not mapped and could not be; or CAP was not usable and
-- the mapping at `v` was unmapped last; or the controller did not come up and the mapping was unmapped,
-- the admin queues released and the device closed, if it was open. BAR0 counts as unmapped and the
-- device as closed.
pub record Failed (p : Platform) (s s' : State) : Type 0 where
  pub unmapped : s'.ctrl.bar0_virt ≡ 0
  pub closed : s'.ctrl.dma_fd_opened ≡ false
  pub cause : Cause p s s'

-- BAR0 is mapped as it should be from `s0`, and the device of the allocator is closed.
abbrev pub Fresh : Platform → State → State → Type 0
Fresh p s0 s = Mapping p s0 s.ctrl.bar0_virt × (s.ctrl.dma_fd_opened ≡ false)

pub map_bar0-Meets :
    (p : Platform) (s0 : State)
    → s0.ctrl.dma_fd_opened ≡ false
    → Ends (Failed p s0) (λ _. Fresh p s0) (map_bar0 p s0)
unfolding map_bar0
map_bar0-Meets p s0 closed = elim (Bool-cases (s0.ctrl.bar0_virt != 0)) [
  | inl already ↦
      rw already (record { nonzero = ground (arith, already); there = inl refl }, closed)
  | inr none_yet ↦ rw none_yet (maps (ground (arith, none_yet)) (bar0_of p s0) refl)
]
  where
    maps :
        s0.ctrl.bar0_virt ≡ 0
        → (r : ℕ × Log) → bar0_of p s0 ≡ r
        → Ends
            (Failed p s0)
            (λ _. Fresh p s0)
            (
              if r.0 == 0 then none else some tt,
              record s0 { ctrl = record s0.ctrl { bar0_virt = r.0 }; log = r.1 },
            )
    maps unmapped (virt, log) e = elim (Bool-cases (virt == 0)) [
      | inl failed ↦
          let null : virt ≡ 0 = ==→eq virt 0 failed in
          rw failed (record {
            unmapped = null;
            closed = closed;
            cause =
                not_mapped unmapped (ap (λ (r : ℕ × Log). r.0) e ∙ null)
                  (sym (ap (λ (r : ℕ × Log). r.1) e));
          })
      | inr good ↦ rw good (
        record {
          nonzero = ground (arith, good);
          there = inr (unmapped, sym (ap (λ (r : ℕ × Log). r.0) e));
        },
        closed,
      )
    ]

module _ (p : Platform) (s0 : State) where
  pub read_cap-Meets : Meets (Fresh p s0) (read_cap p) (Fresh p s0) (λ _. Fresh p s0)
  unfolding read_cap
  read_cap-Meets = meets->>= (read64-Meets {P = Fresh p s0} p 0 (λ _ _ x. x) (λ _ _ x. x)) (λ cap.
      meets->> (meets-fail_if (cap == 0) (λ _ x. x) (λ _ x _. x)) (
        meets->> (meets-fail_if (cap == invalid64) (λ _ x. x) (λ _ x _. x)) (
          meets->> (meets-fail_if (ready_timeout_ms cap == 0) (λ _ x. x) (λ _ x _. x))
            (meets-pure cap (λ _ x. x)))))

-- The release of a controller whose BAR0 is mapped.
module _ (p : Platform) (s0 t : State) (m : Mapping p s0 t.ctrl.bar0_virt) where
  pub unmap-Failed : t.ctrl.dma_fd_opened ≡ false → Failed p s0 (nvme_unmap_controller_bar0 p t)
  unmap-Failed closed =
      rw (unmap-runs p t m.nonzero)
        (record { unmapped = refl; closed = closed; cause = not_usable t m refl })

  pub release-Failed : Failed p s0 (nvme_release_controller_dma (nvme_unmap_controller_bar0 p t))
  release-Failed =
      let u : State = record t {
        ctrl = record t.ctrl { bar0_virt = 0 };
        log = Event.munmap t.ctrl.bar0_virt bar0_map_size ∷ t.log;
      } in
      rw (unmap-runs p t m.nonzero) (record {
        unmapped = (release-closed u).1;
        closed = (release-closed u).0;
        cause = not_started t m (release_log u);
      })
