-- ===== src/Dma/Alloc.antt =====
-- Contracts of the DMA allocator.
use fioplugin.Prelude.{
  ℕ, ◌≡◌, ◌≢◌, refl, Bool, true, false, Option, none, some, Bool-cases, inl, inr, ⊤, ◌∷◌,
  if◌then◌else◌, ◌==◌, arith,
}
use fioplugin.Machine.{Event, Log, Platform}
use fioplugin.Nvme.{Mem, State}
use fioplugin.Call.Meets.{Ends, Meets, meets->>=, meets->>, meets-fail_if, meets-pure}
use fioplugin.Dma.{
  dma_open, is_no_mem, nvme_dma_open_controller, nvme_alloc_dma_mem, nvme_close_dma,
  nvme_release_controller_dma,
}

abbrev pub opened : (fd : ℕ) → Log → State → State
opened fd log s = record s { ctrl = record s.ctrl { dma_fd = fd; dma_fd_opened = true }; log = log }

module _ {P : State → Type 0} where
  pub open-Meets :
      (p : Platform)
      → ((s : State) (fd : ℕ) (log : Log) → P s → P (opened fd log s))
      → Meets P (nvme_dma_open_controller p) (λ _. ⊤) (λ _ s. P s × (s.ctrl.dma_fd_opened ≡ true))
  unfolding nvme_dma_open_controller
  open-Meets p h = record {
    run = λ s x.
        either s x s.ctrl.dma_fd_opened refl (dma_open p s.ctrl.bus s.ctrl.dev s.ctrl.func s.log);
  }
    where
      opens :
          (s : State)
          → P s
          → (r : Option ℕ × Log)
          → Ends
              (λ _. ⊤)
              (λ _ s'. P s' × (s'.ctrl.dma_fd_opened ≡ true))
              (elim r.0 as (λ _. Option ⊤ × State) [
                | none ↦ (none, record s { log = r.1 })
                | some fd ↦ (some tt, opened fd r.1 s)
              ])
      opens s x (none, log) = tt
      opens s x (some fd, log) = (h s fd log x, refl)

      either :
          (s : State)
          → P s
          → (b : Bool) → s.ctrl.dma_fd_opened ≡ b
          → (r : Option ℕ × Log)
          → Ends
              (λ _. ⊤)
              (λ _ s'. P s' × (s'.ctrl.dma_fd_opened ≡ true))
              (if b then (some tt, s) else (elim r.0 as (λ _. Option ⊤ × State) [
                | none ↦ (none, record s { log = r.1 })
                | some fd ↦ (some tt, opened fd r.1 s)
              ]))
      either s x true e r = (x, e)
      either s x false e r = opens s x r

module _ {P : State → Type 0} {R : Mem → State → Type 0} where
  -- `set` is where the caller keeps the buffer.
  pub alloc-Meets :
      (p : Platform) (size : ℕ) (set : Mem → State → State)
      → ((s : State) (fd : ℕ) (log : Log) → P s → P (opened fd log s))
      → ((s : State) (m : Mem) (log : Log)
          → P s
          → s.ctrl.dma_fd_opened ≡ true
          → R m (set m (record s { log = log })))
      → Meets P (nvme_alloc_dma_mem p size set) (λ _. ⊤) (λ m s. R m s × (is_no_mem m ≡ false))
  unfolding nvme_alloc_dma_mem
  alloc-Meets p size set h g = meets->> (open-Meets p h) (
      meets->>= (record { run = λ s (x, o). g s _ _ x o })
        (λ m.
          meets->> (meets-fail_if (is_no_mem m) (λ _ _. tt) (λ s x e. (x, e)))
            (meets-pure m (λ s x. x))))

-- The same for a property that also holds after a failure.
module _ {P : State → Type 0} where
  pub alloc-Keeps :
      (p : Platform) (size : ℕ) (set : Mem → State → State)
      → ((s : State) (fd : ℕ) (log : Log) → P s → P (opened fd log s))
      → ((s : State) (log : Log) → P s → P (record s { log = log }))
      → ((m : Mem) (s : State) → P s → P (set m s))
      → Meets P (nvme_alloc_dma_mem p size set) P (λ _. P)
  unfolding nvme_alloc_dma_mem nvme_dma_open_controller
  alloc-Keeps p size set h l g =
      meets->>
        (record {
          run = λ s x.
              either s x s.ctrl.dma_fd_opened (dma_open p s.ctrl.bus s.ctrl.dev s.ctrl.func s.log);
        })
        (meets->>= (record { run = λ s x. g _ _ (l s _ x) })
          (λ m.
            meets->> (meets-fail_if (is_no_mem m) (λ _ x. x) (λ _ x _. x))
              (meets-pure m (λ _ x. x))))
    where
      opens :
          (s : State)
          → P s
          → (r : Option ℕ × Log)
          → Ends P
              (λ _. P)
              (elim r.0 as (λ _. Option ⊤ × State) [
                | none ↦ (none, record s { log = r.1 })
                | some fd ↦ (some tt, opened fd r.1 s)
              ])
      opens s x (none, log) = l s log x
      opens s x (some fd, log) = h s fd log x

      either :
          (s : State)
          → P s
          → (b : Bool) → (r : Option ℕ × Log)
          → Ends P
              (λ _. P)
              (if b then (some tt, s) else (elim r.0 as (λ _. Option ⊤ × State) [
                | none ↦ (none, record s { log = r.1 })
                | some fd ↦ (some tt, opened fd r.1 s)
              ]))
      either s x true r = x
      either s x false r = opens s x r

-- A buffer that was allocated has an address.
pub address-is_no_mem : (m : Mem) → is_no_mem m ≡ false → m.user_virtaddr ≢ 0
unfolding is_no_mem
address-is_no_mem m h e = elim (Bool-cases (m.user_virtaddr == 0)) [
  | inl zero_address ↦ absurd (ground arith)
  | inr other ↦ absurd (ground arith)
]

-- After `nvme_close_dma` the device is closed and BAR0 as it was.
close-closed :
    (s : State)
    → ((nvme_close_dma s).ctrl.dma_fd_opened ≡ false)
      × ((nvme_close_dma s).ctrl.bar0_virt ≡ s.ctrl.bar0_virt)
unfolding nvme_close_dma
close-closed s = either s.ctrl.dma_fd_opened refl
  where
    Closed : State → Type 0
    Closed t = (t.ctrl.dma_fd_opened ≡ false) × (t.ctrl.bar0_virt ≡ s.ctrl.bar0_virt)

    either :
        (b : Bool)
        → s.ctrl.dma_fd_opened ≡ b
        → Closed (
            if b
            then record s {
              ctrl = record s.ctrl { dma_fd = 0xffff_ffff; dma_fd_opened = false };
              log = Event.close s.ctrl.dma_fd ∷ s.log;
            }
            else s)
    either true e = (refl, refl)
    either false e = (e, refl)

pub release-closed :
    (s : State)
    → ((nvme_release_controller_dma s).ctrl.dma_fd_opened ≡ false)
      × ((nvme_release_controller_dma s).ctrl.bar0_virt ≡ s.ctrl.bar0_virt)
unfolding nvme_release_controller_dma
release-closed s = close-closed _
