-- ===== src/Init/Down.antt =====
-- What the release of a controller does, and that the bring-up leaves BAR0 where it is mapped.
use fioplugin.Prelude.{
  ℕ, Bool, ◌≡◌, ◌≢◌, refl, sym, ◌∙◌, true, false, Option, none, some, Bool-cases, inl, inr, ⊤, ◌∷◌,
  if◌then◌else◌, ◌!=◌, bit_and, ne→==,
}
use fioplugin.Machine.{Event, Log, Platform}
use fioplugin.Nvme.{Controller, State}
use fioplugin.Call.{Call, ◌>>=◌, ◌>>◌}
use fioplugin.Call.Meets.{Ends, Meets, meets->>=, meets->>, meets-fail_if, meets-modify, meets-pure}
use fioplugin.Regs.Access.{read32-Meets, write32-Meets}
use fioplugin.Dma.{free_dma, nvme_close_dma, nvme_release_controller_dma}
use fioplugin.Dma.Alloc.{alloc-Keeps}
use fioplugin.Init.{
  controller_bar0_unmap, alloc_admin_queues, bar0_map_size, disable, enable, initialised,
  nvme_unmap_controller_bar0, start, wait_ready,
}
use fioplugin.Init.Ready.{Waited, SawReady, wait_ready-Out}
use fioplugin.Init.Enable.{programmed, enable-runs}

-- What is logged for the release of the admin queues and the close of the device, if it is open.
abbrev pub released_log : Controller → Log → Log
released_log c log =
    let (_, log) = free_dma c.admin_sq_mem log in
    let (_, log) = free_dma c.admin_cq_mem log in
    if c.dma_fd_opened then Event.close c.dma_fd ∷ log else log

pub release_log : (s : State) → (nvme_release_controller_dma s).log ≡ released_log s.ctrl s.log
unfolding nvme_release_controller_dma nvme_close_dma
release_log s = elim (Bool-cases s.ctrl.dma_fd_opened) [
  | inl in_use ↦ rw in_use refl
  | inr closed ↦ rw closed refl
]

module _ (p : Platform) (s : State) (mapped : s.ctrl.bar0_virt ≢ 0) where
  -- A mapped BAR0 is unmapped by a `munmap` of its address, whose result is not used.
  pub unmap-runs : nvme_unmap_controller_bar0 p s ≡ record s {
    ctrl = record s.ctrl { bar0_virt = 0 };
    log = Event.munmap s.ctrl.bar0_virt bar0_map_size ∷ s.log;
  }
  unfolding nvme_unmap_controller_bar0 controller_bar0_unmap
  unmap-runs = let there = ne→== s.ctrl.bar0_virt 0 mapped in rw there refl

module _ {A : Type 0} {m : Call A} {P P' E E' : State → Type 0} {Q Q' : A → State → Type 0} where
  pub meets-both :
      Meets P m E Q
      → Meets P' m E' Q'
      → Meets (λ s. P s × P' s) m (λ s. E s × E' s) (λ a s. Q a s × Q' a s)
  meets-both h g = record { run = λ s (x, y). both (m s) (h.run s x) (g.run s y) }
    where
      both :
          (r : Option A × State)
          → Ends E Q r
          → Ends E' Q' r
          → Ends (λ s. E s × E' s) (λ a s. Q a s × Q' a s) r
      both (none, s) x y = (x, y)
      both (some a, s) x y = (x, y)

module _ (p : Platform) (v : ℕ) (nonzero : v ≢ 0) where
  -- BAR0 is mapped at `v`.
  abbrev pub At : State → Type 0
  At s = s.ctrl.bar0_virt ≡ v

  mapped_at : (s : State) → At s → s.ctrl.bar0_virt ≢ 0
  mapped_at s x e = nonzero (sym x ∙ e)

  alloc-At : Meets At (alloc_admin_queues p) At (λ _. At)
  unfolding alloc_admin_queues ◌>>=◌ ◌>>◌
  alloc-At = meets->>= (alloc-Keeps {P = At} p _ _ (λ _ _ _ x. x) (λ _ _ x. x) (λ _ _ x. x)) (λ _.
      meets->>= (alloc-Keeps {P = At} p _ _ (λ _ _ _ x. x) (λ _ _ x. x) (λ _ _ x. x))
        (λ _. meets->> (meets-modify {Q = At} _ (λ _ x. x)) (meets-modify _ (λ _ x. x))))

  wait-At : (b : Bool) (left : ℕ) → Meets At (wait_ready p b left) At (λ _. At)
  wait-At b left = record {
    run = λ s x. waited s x (wait_ready p b left s) (wait_ready-Out p b left s (mapped_at s x));
  }
    where
      waited :
          (s : State)
          → At s
          → (r : Option ⊤ × State) → Ends (Waited s) (λ _ t. Waited s t × SawReady p b t) r
          → Ends At (λ _. At) r
      waited s x (none, t) (c, _, _) = rw c x
      waited s x (some a, t) ((c, _, _), _) = rw c x

  disable-At : (timeout_ms cc : ℕ) → Meets At (disable p timeout_ms cc) At (λ _. At)
  unfolding disable
  disable-At timeout_ms cc = elim (Bool-cases (bit_and cc 1 != 0)) [
    | inl enabled ↦
        rw (enabled, disable)
          (meets->> (write32-Meets {Q = At} _ _ (λ _ x. x) (λ _ x. x)) (wait-At false timeout_ms))
    | inr disabled ↦ rw (disabled, disable) (meets-pure tt (λ _ x. x))
  ]

  enable-At : (cap : ℕ) → Meets At (enable p cap) At (λ _. At)
  enable-At cap = record {
    run = λ s x.
        rw (enable-runs p cap s (mapped_at s x))
          ((wait-At true _).run (record s { log = programmed s.ctrl cap s.log }) x);
  }

  -- However it ends.
  pub start-At : (cap : ℕ) → Meets At (start p cap) At (λ _. At)
  unfolding start initialised
  start-At cap = meets->> alloc-At (
      meets->>= (read32-Meets {Q = λ _. At} p _ (λ _ x. x) (λ _ x. x)) (λ cc.
        meets->> (meets-fail_if _ (λ _ x. x) (λ _ x _. x)) (
          meets->> (disable-At _ cc)
            (meets->> (enable-At cap) (meets-modify {P = At} _ (λ _ x. x))))))
