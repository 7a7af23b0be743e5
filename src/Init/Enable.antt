-- ===== src/Init/Enable.antt =====
-- The registers that `controller_init` programs.
use fioplugin.Prelude.{ℕ, ◌+◌, ◌≡◌, ◌≢◌, refl, ◌∙◌, true, Option, none, some, ◌∷◌, ⊤}
use fioplugin.Prelude.Word.{u32, ◌>>>◌}
use fioplugin.Machine.{Event, Log, Platform}
use fioplugin.Nvme.{Controller, State}
use fioplugin.Call.Runs.{runs->>=, runs->>, runs-get}
use fioplugin.Regs.Access.{write32-runs, write64-runs}
use fioplugin.Call.Meets.{Ends}
use fioplugin.Regs.{reg_csts, ready_timeout_ms, cap_mpsmin}
use fioplugin.Init.{enable, enable_cc, wait_ready}
use fioplugin.Init.Ready.{Waits, Waited, SawReady, wait_ready-Out}

-- AQA, ASQ and ACQ, low halves first, and then CC with the enable bit.
abbrev pub programmed : Controller → (cap : ℕ) → Log → Log
programmed c cap before =
    Event.reg_store (c.bar0_virt + 0x14) (enable_cc (cap_mpsmin cap))
    ∷ Event.reg_store (c.bar0_virt + 0x34) (u32 (c.admin_cq_mem.dma_addr >>> 32))
    ∷ Event.reg_store (c.bar0_virt + 0x30) (u32 c.admin_cq_mem.dma_addr)
    ∷ Event.reg_store (c.bar0_virt + 0x2c) (u32 (c.admin_sq_mem.dma_addr >>> 32))
    ∷ Event.reg_store (c.bar0_virt + 0x28) (u32 c.admin_sq_mem.dma_addr)
    ∷ Event.reg_store (c.bar0_virt + 0x24) 0x1f_001f
    ∷ before

pub enable-runs :
    (p : Platform) (cap : ℕ) (s : State)
    → s.ctrl.bar0_virt ≢ 0
    → enable p cap s
      ≡ wait_ready p true (ready_timeout_ms cap) (record s { log = programmed s.ctrl cap s.log })
unfolding enable
enable-runs p cap s h =
    runs->> _ _ _ (write32-runs 0x24 0x1f_001f s h refl)
    ∙ runs->>= _ _ _ (runs-get _ _)
    ∙ runs->> _ _ _ (write64-runs 0x28 _ _ h refl refl)
    ∙ runs->>= _ _ _ (runs-get _ _)
    ∙ runs->> _ _ _ (write64-runs 0x30 _ _ h refl refl)
    ∙ runs->> _ _ _ (write32-runs 0x14 _ _ h refl)

-- After `enable` the registers have been programmed, and a success has seen CSTS.RDY set since.
pub enable-Out :
    (p : Platform) (cap : ℕ) (s : State)
    → s.ctrl.bar0_virt ≢ 0
    → Ends
        (λ _. ⊤)
        (λ _ s'.
          (s'.ctrl ≡ s.ctrl)
          × SawReady p true s'
          × Waits (s.ctrl.bar0_virt + reg_csts) (programmed s.ctrl cap s.log) s'.log)
        (enable p cap s)
enable-Out p cap s h = rw (enable-runs p cap s h) (
    weaker (wait_ready p true (ready_timeout_ms cap) from)
      (wait_ready-Out p true (ready_timeout_ms cap) from h))
  where
    from : State
    from = record s { log = programmed s.ctrl cap s.log }

    weaker :
        (r : Option ⊤ × State)
        → Ends (Waited from) (λ _ s'. Waited from s' × SawReady p true s') r
        → Ends
            (λ _. ⊤)
            (λ _ s'.
              (s'.ctrl ≡ s.ctrl)
              × SawReady p true s'
              × Waits (s.ctrl.bar0_virt + reg_csts) (programmed s.ctrl cap s.log) s'.log)
            r
    weaker (none, s') w = tt
    weaker (some a, s') ((c, _, w), saw) = (c, saw, w)
