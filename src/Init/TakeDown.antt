-- ===== src/Init/TakeDown.antt =====
-- What `controller_deinit` releases.
use fioplugin.Prelude.{
  ◌≡◌, ◌≢◌, refl, sym, ◌∙◌, ap, Bool, false, Option, none, some, Bool-cases, inl, inr, ⊤, ◌∷◌,
  if◌then◌else◌, ◌==◌, ◌!=◌, ℕ, bit_and, ne→==, arith,
}
use fioplugin.Machine.{Event, Log, Platform}
use fioplugin.Nvme.{Controller, State}
use fioplugin.Call.Meets.{Ends, Meets, meets->>=, meets->>, meets-fail_if, meets-pure}
use fioplugin.Regs.Access.{read32-Meets, read64-Meets, write32-Meets}
use fioplugin.Dma.{nvme_release_controller_dma}
use fioplugin.Init.{
  bar0_map_size, controller_deinit, disable, nvme_unmap_controller_bar0, stop, take_down,
  wait_ready,
}
use fioplugin.Init.Down.{released_log, release_log, unmap-runs}
use fioplugin.Init.Ready.{Waited, SawReady, wait_ready-Out}

module _ (p : Platform) (c : Controller) (mapped : c.bar0_virt ≢ 0) where
  abbrev Same : State → Type 0
  Same s = s.ctrl ≡ c

  wait-Same : (b : Bool) (left : ℕ) → Meets Same (wait_ready p b left) Same (λ _. Same)
  wait-Same b left = record {
    run = λ s x. waited s x (wait_ready p b left s) (
        wait_ready-Out p b left s (λ e. mapped (sym (ap (λ (d : Controller). d.bar0_virt) x) ∙ e)));
  }
    where
      waited :
          (s : State)
          → Same s
          → (r : Option ⊤ × State) → Ends (Waited s) (λ _ t. Waited s t × SawReady p b t) r
          → Ends Same (λ _. Same) r
      waited s x (none, t) (same, _, _) = same ∙ x
      waited s x (some a, t) ((same, _, _), _) = same ∙ x

  disable-Same : (timeout_ms cc : ℕ) → Meets Same (disable p timeout_ms cc) Same (λ _. Same)
  unfolding disable
  disable-Same timeout_ms cc = elim (Bool-cases (bit_and cc 1 != 0)) [
    | inl enabled ↦
        rw (enabled, disable)
          (meets->> (write32-Meets {Q = Same} _ _ (λ _ x. x) (λ _ x. x))
            (wait-Same false timeout_ms))
    | inr disabled ↦ rw (disabled, disable) (meets-pure tt (λ _ x. x))
  ]

  -- The attempt to disable the controller leaves its data.
  stop-Same : Meets Same (stop p) Same (λ _. Same)
  unfolding stop
  stop-Same = meets->>= (read64-Meets {P = Same} {Q = Same} p _ (λ _ _ x. x) (λ _ _ x. x)) (λ cap.
      meets->> (meets-fail_if _ (λ _ x. x) (λ _ x _. x)) (
        meets->>= (read32-Meets {Q = λ _. Same} p _ (λ _ x. x) (λ _ x. x))
          (λ cc. disable-Same _ cc)))

-- The log ends with the release of the controller `c`: BAR0 is unmapped, if it is mapped, the admin
-- queues are released and the device is closed, if it is open.
pub record Releases (c : Controller) (log : Log) : Type 0 where
  pub before : Log
  pub events :
      log
      ≡ released_log c
          (if c.bar0_virt == 0 then before else Event.munmap c.bar0_virt bar0_map_size ∷ before)

deinit_log :
    (p : Platform) (s : State)
    → (controller_deinit p s).log ≡ released_log (take_down p s).ctrl (take_down p s).log
unfolding controller_deinit nvme_release_controller_dma
deinit_log p s = release_log (take_down p s)

taken :
    (p : Platform) (s : State)
    → s.ctrl.bar0_virt ≢ 0
    → released_log (take_down p s).ctrl (take_down p s).log
      ≡ released_log s.ctrl (Event.munmap s.ctrl.bar0_virt bar0_map_size ∷ (stop p s).1.log)
taken p s mapped =
    let there : (s.ctrl.bar0_virt == 0) ≡ false = ne→== s.ctrl.bar0_virt 0 mapped in
    rw there (unmapped (stop p s) ((stop-Same p s.ctrl mapped).run s refl))
  where
    unmapped :
        (r : Option ⊤ × State)
        → Ends (λ t. t.ctrl ≡ s.ctrl) (λ _ t. t.ctrl ≡ s.ctrl) r
        → released_log
            (nvme_unmap_controller_bar0 p r.1).ctrl
            (nvme_unmap_controller_bar0 p r.1).log
          ≡ released_log s.ctrl (Event.munmap s.ctrl.bar0_virt bar0_map_size ∷ r.1.log)
    unmapped r x = released r.1 (same r x)
      where
        same :
            (r : Option ⊤ × State)
            → Ends (λ t. t.ctrl ≡ s.ctrl) (λ _ t. t.ctrl ≡ s.ctrl) r
            → r.1.ctrl ≡ s.ctrl
        same (none, t) x = x
        same (some a, t) x = x

        released :
            (t : State)
            → t.ctrl ≡ s.ctrl
            → released_log
                (nvme_unmap_controller_bar0 p t).ctrl
                (nvme_unmap_controller_bar0 p t).log
              ≡ released_log s.ctrl (Event.munmap s.ctrl.bar0_virt bar0_map_size ∷ t.log)
        released t e =
            let still : t.ctrl.bar0_virt ≢ 0 =
              λ z. mapped (sym (ap (λ (c : Controller). c.bar0_virt) e) ∙ z) in
            rw (unmap-runs p t still) (
              ap
                (λ (c : Controller).
                  released_log c (Event.munmap c.bar0_virt bar0_map_size ∷ t.log))
                e)

pub controller_deinit-Releases :
    (p : Platform) (s : State) → Releases s.ctrl (controller_deinit p s).log
controller_deinit-Releases p s = elim (Bool-cases (s.ctrl.bar0_virt == 0)) [
  | inl absent ↦ record { before = s.log; events = deinit_log p s ∙ rw absent refl }
  | inr mapped ↦ record {
    before = (stop p s).1.log;
    events = deinit_log p s ∙ taken p s (ground (arith, mapped)) ∙ rw mapped refl;
  }
]
