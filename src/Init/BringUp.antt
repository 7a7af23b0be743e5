-- ===== src/Init/BringUp.antt =====
-- `controller_init` as a whole.
use mathlib.Core.Path.{subst}
use fioplugin.Prelude.{
  sym, ℕ, ◌+◌, ◌≡◌, ◌≢◌, refl, true, false, Option, none, some, Bool-cases, inl, inr, ⊤, ◌!=◌,
  arith, bit_and, ap, ◌∙◌,
}
use fioplugin.Machine.{Log, Platform}
use fioplugin.Nvme.{State}
use fioplugin.Call.{◌>>=◌, ◌>>◌}
use fioplugin.Call.Meets.{
  Ends, Meets, meets->>=, meets->>, meets-or_undo, meets-fail_if, meets-modify, meets-pure,
  meets-weaken,
}
use fioplugin.Regs.{reg_csts, admin_sq_tail_doorbell, admin_cq_head_doorbell}
use fioplugin.Regs.Access.{read32-Meets, write32-Meets}
use fioplugin.Dma.{is_no_mem, nvme_release_controller_dma}
use fioplugin.Dma.Alloc.{alloc-Meets, address-is_no_mem}
use fioplugin.Init.{
  map_bar0, alloc_admin_queues, disable, enable, initialised, start, controller_init,
  nvme_unmap_controller_bar0, wait_ready,
}
use fioplugin.Init.Ready.{Waits, Waited, SawReady, wait_ready-Out}
use fioplugin.Init.Down.{meets-both, start-At}
use fioplugin.Init.Enable.{programmed, enable-Out}
use fioplugin.Init.Failure.{
  Failed, Fresh, Mapping, map_bar0-Meets, read_cap-Meets, unmap-Failed, release-Failed,
}

-- A controller that has come up.
pub record IsUp (p : Platform) (s : State) : Type 0 where
  pub cap : ℕ
  pub mapped : s.ctrl.bar0_virt ≢ 0
  pub opened : s.ctrl.dma_fd_opened ≡ true
  pub sq_tail : s.ctrl.admin_sq_tail ≡ 0
  pub cq_head : s.ctrl.admin_cq_head ≡ 0
  pub cq_phase : s.ctrl.admin_cq_phase ≡ 1
  pub sq_depth : s.ctrl.admin_sq_depth ≡ 32
  pub cq_depth : s.ctrl.admin_cq_depth ≡ 32
  pub sq_virt : s.ctrl.admin_sq_virt_addr ≢ 0
  pub cq_virt : s.ctrl.admin_cq_virt_addr ≢ 0
  pub sq_tail_db : s.ctrl.admin_sq_tail_db ≡ admin_sq_tail_doorbell cap
  pub cq_head_db : s.ctrl.admin_cq_head_db ≡ admin_cq_head_doorbell cap
  pub lba_shift : s.ctrl.lba_shift ≢ 0
  pub before : Log
  pub waited : Waits (s.ctrl.bar0_virt + reg_csts) (programmed s.ctrl cap before) s.log
  pub saw_ready : SawReady p true s

abbrev Mapped : State → Type 0
Mapped s = s.ctrl.bar0_virt ≢ 0

record Allocated (s : State) : Type 0 where
  pub mapped : s.ctrl.bar0_virt ≢ 0
  pub opened : s.ctrl.dma_fd_opened ≡ true
  pub sq : is_no_mem s.ctrl.admin_sq_mem ≡ false
  pub cq : is_no_mem s.ctrl.admin_cq_mem ≡ false

alloc_admin_queues-Meets :
    (p : Platform) → Meets Mapped (alloc_admin_queues p) (λ _. ⊤) (λ _. Allocated)
unfolding alloc_admin_queues ◌>>=◌ ◌>>◌
alloc_admin_queues-Meets p =
    meets->>=
      (alloc-Meets {R = λ m s. Mapped s × (s.ctrl.admin_sq_mem ≡ m)} p _ _ (λ _ _ _ x. x)
        (λ _ _ _ x _. (x, refl)))
      (λ m.
        meets->>=
          (alloc-Meets
            {R = λ m' s.
              Mapped s
              × (is_no_mem s.ctrl.admin_sq_mem ≡ false)
              × (s.ctrl.dma_fd_opened ≡ true)
              × (s.ctrl.admin_cq_mem ≡ m')}
            p _ _ (λ _ _ _ x. x)
            (λ _ _ _ ((x, e), no_error) o. (x, ap is_no_mem e ∙ no_error, o, refl)))
          (λ m'.
            meets->>
              (meets-modify {Q = Allocated} _ (λ s ((x, sq, o, e), no_error). record {
                mapped = x;
                opened = o;
                sq = sq;
                cq = ap is_no_mem e ∙ no_error;
              }))
              (meets-modify _
                (λ s x. record { mapped = x.mapped; opened = x.opened; sq = x.sq; cq = x.cq }))))

disable-Meets :
    (p : Platform) (timeout_ms cc : ℕ)
    → Meets Allocated (disable p timeout_ms cc) (λ _. ⊤) (λ _. Allocated)
unfolding disable
disable-Meets p timeout_ms cc = elim (Bool-cases (bit_and cc 1 != 0)) [
  | inl enabled ↦
      rw (enabled, disable)
        (meets->> (write32-Meets {Q = Allocated} _ _ (λ _ _. tt) (λ s x. moved x refl)) (record {
          run = λ s x.
              waited s x (wait_ready p false timeout_ms s)
                (wait_ready-Out p false timeout_ms s x.mapped);
        }))
  | inr disabled ↦ rw (disabled, disable) (meets-pure tt (λ _ x. x))
]
  where
    moved : {s s' : State} → Allocated s → s'.ctrl ≡ s.ctrl → Allocated s'
    moved x e = record {
      mapped = rw e x.mapped;
      opened = rw e x.opened;
      sq = rw e x.sq;
      cq = rw e x.cq;
    }

    waited :
        (s : State)
        → Allocated s
        → (r : Option ⊤ × State) → Ends (Waited s) (λ _ s'. Waited s s' × SawReady p false s') r
        → Ends (λ _. ⊤) (λ _. Allocated) r
    waited s x (none, s') w = tt
    waited s x (some a, s') ((c, _, _), _) = moved x c

start-Meets : (p : Platform) (cap : ℕ) → Meets Mapped (start p cap) (λ _. ⊤) (λ _. IsUp p)
unfolding start initialised
start-Meets p cap = meets->> (alloc_admin_queues-Meets p) (
    meets->>=
      (read32-Meets {Q = λ _. Allocated} p _ (λ _ _. tt)
        (λ s x. record { mapped = x.mapped; opened = x.opened; sq = x.sq; cq = x.cq }))
      (λ cc. meets->> (meets-fail_if _ (λ _ _. tt) (λ _ x _. x)) (
        meets->> (disable-Meets p _ cc) (
          meets->>
            (record { run = λ s x. enabled s x (enable p cap s) (enable-Out p cap s x.mapped) })
            (meets-modify {P = Ready} _ up)))))
  where
    Ready : State → Type 0
    Ready s =
        Allocated s
        × SawReady p true s
        × ((before : Log) × Waits (s.ctrl.bar0_virt + reg_csts) (programmed s.ctrl cap before)
              s.log)

    enabled :
        (s : State)
        → Allocated s
        → (r : Option ⊤ × State)
        → Ends
            (λ _. ⊤)
            (λ _ s'.
              (s'.ctrl ≡ s.ctrl)
              × SawReady p true s'
              × Waits (s.ctrl.bar0_virt + reg_csts) (programmed s.ctrl cap s.log) s'.log)
            r
        → Ends (λ _. ⊤) (λ _. Ready) r
    enabled s x (none, s') w = tt
    enabled s x (some a, s') (c, saw, w) = (
      record { mapped = rw c x.mapped; opened = rw c x.opened; sq = rw c x.sq; cq = rw c x.cq },
      saw,
      (s.log, rw c w),
    )

    up : (s : State) → Ready s → IsUp p (initialised cap s)
    up s (x, saw, (before, w)) = record {
      cap = cap;
      mapped = x.mapped;
      opened = x.opened;
      sq_tail = refl;
      cq_head = refl;
      cq_phase = refl;
      sq_depth = refl;
      cq_depth = refl;
      sq_virt = address-is_no_mem _ x.sq;
      cq_virt = address-is_no_mem _ x.cq;
      sq_tail_db = refl;
      cq_head_db = refl;
      lba_shift = ground arith;
      before = before;
      waited = w;
      saw_ready = record {
        before = saw.before;
        log = saw.log;
        valid = saw.valid;
        ready_bit = saw.ready_bit;
      };
    }

pub controller_init-Outcome :
    (p : Platform) (s : State)
    → s.ctrl.dma_fd_opened ≡ false
    → Ends (Failed p s) (λ _. IsUp p) (controller_init p s)
unfolding controller_init
controller_init-Outcome p s closed =
    (meets->>
        (record {
          run = λ t e.
              subst (λ (u : State). Ends (Failed p s) (λ _. Fresh p s) (map_bar0 p u)) (sym e)
                (map_bar0-Meets p s closed);
        })
        (meets->>=
          (meets-or_undo {E = Fresh p s} (nvme_unmap_controller_bar0 p) (read_cap-Meets p s)
            (λ t (m, c). unmap-Failed p s t m c))
          (λ cap.
            meets-or_undo {E = λ t. Mapping p s t.ctrl.bar0_virt}
              (λ t. nvme_release_controller_dma (nvme_unmap_controller_bar0 p t)) (starts cap)
              (λ t m. release-Failed p s t m)))).run
      s refl
  where
    starts :
        (cap : ℕ)
        → Meets (Fresh p s) (start p cap) (λ t. Mapping p s t.ctrl.bar0_virt) (λ _. IsUp p)
    starts cap = record {
      run = λ t (m, c).
          (meets-weaken (meets-both (start-Meets p cap) (start-At p t.ctrl.bar0_virt m.nonzero cap))
              (λ _ x. x)
              (λ u (_, same).
                subst (λ (v : ℕ). Mapping p s v) {x = t.ctrl.bar0_virt} {y = u.ctrl.bar0_virt}
                  (sym same) m)
              (λ _ _ x. x.0)).run
            t (m.nonzero, refl);
    }
