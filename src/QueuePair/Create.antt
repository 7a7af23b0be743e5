-- ===== src/QueuePair/Create.antt =====
-- What a successful `create_io_queue_pair` leaves to the submissions and to `poll_cq`.
use fioplugin.Prelude.{
  ℕ, ◌≡◌, ◌≢◌, ◌≤◌, ◌<◌, refl, sym, Bool, false, Option, none, some, ⊤, arith, ap, ◌∙◌,
  if◌then◌else◌, ◌==◌, ltb,
}
use mathlib.Core.Path.{subst}
use fioplugin.Prelude.Bits.{bit_and-mask}
use fioplugin.Machine.{Platform}
use fioplugin.Nvme.{NvmeData, State}
use fioplugin.Call.{Call, get, fail_if, ◌>>◌}
use fioplugin.Call.Meets.{
  Ends, Meets, meets->>=, meets->>, meets-or_undo, meets-fail_if, meets-get, meets-modify,
  meets-pure, meets-weaken,
}
use fioplugin.Regs.{cap_mqes_entries, nvme_reg_read64, reg_cap}
use fioplugin.Regs.Access.{read64-Meets}
use fioplugin.Dma.{is_no_mem}
use fioplugin.Dma.Alloc.{alloc-Meets, address-is_no_mem}
use fioplugin.Admin.Frame.{admin_command-Spares}
use fioplugin.QueuePair.{queue_depth, alloc_io_queues, created, create_io_queue_pair}

-- A depth is the one asked for, or the controller's largest, `most`, if none was, and not beyond that.
pub record Granted (most asked depth : ℕ) : Type 0 where
  pub some_entries : 0 < depth
  pub in_most : depth ≤ most
  pub in_max : depth ≤ 65536
  pub as_asked : asked ≢ 0 → depth ≡ asked
  pub by_default : asked ≡ 0 → depth ≡ most

granted :
    (asked most : ℕ)
    → 0 < most
    → most ≤ 65536
    → ltb most (if asked == 0 then most else asked) ≡ false
    → Granted most asked (if asked == 0 then most else asked)
granted asked most h g small = record {
  some_entries = ground arith;
  in_max = ground arith;
  in_most = ground arith;
  as_asked = λ ne. ground arith;
  by_default = λ e. ground arith;
}

mqes-range : (cap : ℕ) → (0 < cap_mqes_entries cap) × (cap_mqes_entries cap ≤ 65536)
unfolding cap_mqes_entries
mqes-range cap =
    (omega (arith, bit_and-mask 16 cap 0xffff refl), omega (arith, bit_and-mask 16 cap 0xffff refl))

queue_depth-Granted :
    {P : State → Type 0} (asked cap : ℕ)
    → Meets P
        (queue_depth asked (cap_mqes_entries cap))
        (λ _. ⊤)
        (λ depth s. P s × Granted (cap_mqes_entries cap) asked depth)
unfolding queue_depth
queue_depth-Granted {P} asked cap =
    meets->>
      (meets-fail_if {Q = λ s. P s × Granted (cap_mqes_entries cap) asked _} _ (λ _ _. tt)
        (λ s x small. (x, granted asked _ (mqes-range cap).0 (mqes-range cap).1 small)))
      (meets-pure _ (λ _ x. x))

-- The three buffers have addresses.
pub record HasBuffers (n : NvmeData) : Type 0 where
  pub cq : is_no_mem n.io_cq_mem ≡ false
  pub sq : is_no_mem n.io_sq_mem ≡ false
  pub prp_list : is_no_mem n.io_prp_list_mem ≡ false

alloc_io_queues-HasBuffers :
    (p : Platform) (sq_depth cq_depth : ℕ)
    → Meets (λ _. ⊤) (alloc_io_queues p sq_depth cq_depth) (λ _. ⊤) (λ _ s. HasBuffers s.io)
unfolding alloc_io_queues ◌>>◌
alloc_io_queues-HasBuffers p sq_depth cq_depth =
    meets->>= (alloc-Meets {R = λ m s. s.io.io_cq_mem ≡ m} p _ _ (λ _ _ _ x. x) (λ _ _ _ _ _. refl))
      (λ m.
        meets->>=
          (meets-or_undo _
            (alloc-Meets {R = λ m' s. (is_no_mem s.io.io_cq_mem ≡ false) × (s.io.io_sq_mem ≡ m')} p
              _ _ (λ _ _ _ x. x) (λ _ _ _ (e, x) _. (ap is_no_mem e ∙ x, refl)))
            (λ _ _. tt))
          (λ m'.
            meets->>=
              (meets-or_undo _
                (alloc-Meets
                  {R = λ m'' s.
                    (is_no_mem s.io.io_cq_mem ≡ false)
                    × (is_no_mem s.io.io_sq_mem ≡ false)
                    × (s.io.io_prp_list_mem ≡ m'')}
                  p _ _ (λ _ _ _ x. x) (λ _ _ _ ((c, e), x) _. (c, ap is_no_mem e ∙ x, refl)))
                (λ _ _. tt))
              (λ m''.
                meets->>
                  (meets-modify {Q = λ s. HasBuffers s.io} _
                    (λ s ((c, q, e), x). record { cq = c; sq = q; prp_list = ap is_no_mem e ∙ x }))
                  (meets->> (meets-modify {Q = λ s. HasBuffers s.io} _ (λ _ x. x))
                    (meets-modify _ (λ _ x. x))))))

-- A queue pair at its start, as `create_io_queue_pair` leaves it: `most` is the controller's largest
-- depth, and `sq_asked` and `cq_asked` are the depths that were asked for.
pub record IsCreated (most sq_asked cq_asked : ℕ) (n : NvmeData) : Type 0 where
  pub sq_depth : Granted most sq_asked n.io_sq_depth
  pub cq_depth : Granted most cq_asked n.io_cq_depth
  pub sq_head : n.io_sq_head ≡ 0
  pub sq_tail : n.io_sq_tail ≡ 0
  pub cq_head : n.ic_cq_head ≡ 0
  pub cq_phase : n.io_cq_pahse ≡ 1
  pub sq_virt : n.io_sq_virt_addr ≢ 0
  pub cq_virt : n.io_cq_virt_addr ≢ 0
  pub prp_list_virt : n.io_prp_list_virt_addr ≢ 0
  pub sq_phys : n.io_sq_phys_addr ≡ n.io_sq_mem.dma_addr
  pub cq_phys : n.io_cq_phys_addr ≡ n.io_cq_mem.dma_addr
  pub prp_list_phys : n.io_prp_list_phys_addr ≡ n.io_prp_list_mem.dma_addr

created-IsCreated :
    {most sq_asked cq_asked sq_depth cq_depth : ℕ} (cap qid : ℕ) (s : State)
    → Granted most sq_asked sq_depth
    → Granted most cq_asked cq_depth
    → HasBuffers s.io
    → IsCreated most sq_asked cq_asked (created cap qid sq_depth cq_depth s).io
unfolding created
created-IsCreated cap qid s a b x = record {
  sq_depth = a;
  cq_depth = b;
  sq_head = refl;
  sq_tail = refl;
  cq_head = refl;
  cq_phase = refl;
  sq_virt = address-is_no_mem _ x.sq;
  cq_virt = address-is_no_mem _ x.cq;
  prp_list_virt = address-is_no_mem _ x.prp_list;
  sq_phys = refl;
  cq_phys = refl;
  prp_list_phys = refl;
}

get-Meets : {A : Type 0} {P : State → Type 0} (f : State → A) → Meets P (get f) (λ _. ⊤) (λ _. P)
get-Meets f = meets-weaken (meets-get f) (λ _ x. x) (λ _ x. x) (λ _ _ x. x.0)

check-Meets : {P : State → Type 0} (c : Bool) → Meets P (fail_if c) (λ _. ⊤) (λ _. P)
check-Meets c = meets-fail_if c (λ _ _. tt) (λ _ x _. x)

module _ (p : Platform) (sq_asked cq_asked : ℕ) where
  -- The thread's data ask for these depths.
  abbrev Asks : State → Type 0
  Asks s = (s.io.io_sq_depth ≡ sq_asked) × (s.io.io_cq_depth ≡ cq_asked)

  -- What is known once both depths are.
  abbrev Grants : (most sq_depth cq_depth : ℕ) → Type 0
  Grants most sq_depth cq_depth = Granted most sq_asked sq_depth × Granted most cq_asked cq_depth

  commands-Meets :
      (most sq_depth cq_depth : ℕ)
      → Meets
          (λ s. Asks s × Grants most sq_depth cq_depth)
          (alloc_io_queues p sq_depth cq_depth)
          (λ _. ⊤)
          (λ _ s. HasBuffers s.io × Grants most sq_depth cq_depth)
  commands-Meets most sq_depth cq_depth = record {
    run = λ s (x, g).
        (meets-weaken (alloc_io_queues-HasBuffers p sq_depth cq_depth) (λ _ x. x) (λ _ x. x)
            (λ _ _ y. (y, g))).run
          s tt;
  }

  module _ (s0 : State) (asks : Asks s0) where
    -- CAP as it is read from `s0`.
    abbrev Reads : ℕ → Type 0
    Reads cap = (nvme_reg_read64 p reg_cap s0).0 ≡ some cap

    read-Meets :
        Meets (λ s. s ≡ s0) (nvme_reg_read64 p reg_cap) (λ _. ⊤) (λ cap s. Asks s × Reads cap)
    read-Meets = record {
      run = λ s e.
          subst
            (λ (t : State).
              Ends (λ _. ⊤) (λ cap u. Asks u × Reads cap) (nvme_reg_read64 p reg_cap t))
            (sym e)
            (known (nvme_reg_read64 p reg_cap s0) refl
              ((read64-Meets {P = Asks} {Q = Asks} p _ (λ _ _ _. tt) (λ _ _ x. x)).run s0 asks));
    }
      where
        known :
            (r : Option ℕ × State)
            → nvme_reg_read64 p reg_cap s0 ≡ r
            → Ends (λ _. ⊤) (λ _. Asks) r
            → Ends (λ _. ⊤) (λ cap u. Asks u × Reads cap) r
        known (none, t) e x = tt
        known (some cap, t) e x = (x, ap (λ (r : Option ℕ × State). r.0) e)

    -- The pair for the depths of the controller.
    abbrev pub Created : State → Type 0
    Created t = (cap : ℕ) × Reads cap × IsCreated (cap_mqes_entries cap) sq_asked cq_asked t.io

    with_cap :
        {m : Call ⊤} (cap : ℕ)
        → Meets Asks m (λ _. ⊤) (λ _ t. IsCreated (cap_mqes_entries cap) sq_asked cq_asked t.io)
        → Meets (λ s. Asks s × Reads cap) m (λ _. ⊤) (λ _. Created)
    with_cap {m} cap h = record {
      run =
          λ s (x, reads). (meets-weaken h (λ _ y. y) (λ _ y. y) (λ _ _ y. (cap, reads, y))).run s x;
    }

    create-Meets : Meets (λ s. s ≡ s0) (create_io_queue_pair p) (λ _. ⊤) (λ _. Created)
    unfolding create_io_queue_pair
    create-Meets = meets->>= (get-Meets _) (λ no_queue. meets->> (check-Meets _) (
        meets->>= (get-Meets _) (λ opened. meets->> (check-Meets _) (
          meets->>= read-Meets (λ cap. with_cap cap (
            meets->>= (get-Meets _) (λ qid. meets->> (check-Meets _) (
              meets->>= (meets-get {P = Asks} _) (λ sq.
                meets->>= (queue_depth-Granted sq cap) (λ sq_depth. meets->>= (meets-get _) (λ cq.
                  meets->>= (queue_depth-Granted cq cap) (λ cq_depth.
                    meets->>
                      (meets-weaken (commands-Meets (cap_mqes_entries cap) sq_depth cq_depth) grants
                        (λ _ x. x) (λ _ _ x. x))
                      (meets->>= (get-Meets _) (λ cq_phys.
                        meets->> (admin_command-Spares (Known cap sq_depth cq_depth) p _ _ _ _) (
                          meets->>= (get-Meets _) (λ sq_phys.
                            meets->> (admin_command-Spares (Known cap sq_depth cq_depth) p _ _ _ _)
                              (meets-modify _ (λ s (x, (a, b)).
                                created-IsCreated cap qid s a b x))))))))))))))))))
      where
        Known : (cap sq_depth cq_depth : ℕ) → NvmeData → Type 0
        Known cap sq_depth cq_depth n =
            HasBuffers n × Grants (cap_mqes_entries cap) sq_depth cq_depth

        grants :
            {most sq sq_depth cq cq_depth : ℕ} (s : State)
            → (((Asks s × (s.io.io_sq_depth ≡ sq)) × Granted most sq sq_depth)
                × (s.io.io_cq_depth ≡ cq))
              × Granted most cq cq_depth
            → Asks s × Grants most sq_depth cq_depth
        grants {most} {sq} {sq_depth} {cq} {cq_depth} s (((((a, b), e), g), e'), g') = (
          (a, b),
          (
            subst (λ (x : ℕ). Granted most x sq_depth) {x = sq} {y = sq_asked} (sym e ∙ a) g,
            subst (λ (x : ℕ). Granted most x cq_depth) {x = cq} {y = cq_asked} (sym e' ∙ b) g',
          ),
        )

pub create_io_queue_pair-IsCreated :
    (p : Platform) (s s' : State)
    → create_io_queue_pair p s ≡ (some tt, s')
    → (cap : ℕ) × ((nvme_reg_read64 p reg_cap s).0 ≡ some cap)
      × IsCreated (cap_mqes_entries cap) s.io.io_sq_depth s.io.io_cq_depth s'.io
create_io_queue_pair-IsCreated p s s' e =
    subst (Ends (λ _. ⊤) (λ _. Created p s.io.io_sq_depth s.io.io_cq_depth s (refl, refl))) e
      ((create-Meets p s.io.io_sq_depth s.io.io_cq_depth s (refl, refl)).run s refl)
