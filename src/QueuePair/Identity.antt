-- ===== src/QueuePair/Identity.antt =====
-- `create_io_queue_pair` does not change the thread's queue identifier.
use fioplugin.Prelude.{ℕ, ◌≡◌, refl, Bool, ⊤, some}
use mathlib.Core.Path.{subst}
use fioplugin.Machine.{Platform}
use fioplugin.Nvme.{NvmeData, Mem, State}
use fioplugin.Call.{get, fail_if}
use fioplugin.Call.Meets.{
  Ends, meets->>=, meets->>, meets-or_undo, meets-fail_if, meets-get, meets-modify, meets-pure,
  meets-weaken,
}
use fioplugin.Regs.Access.{read64-Meets}
use fioplugin.Dma.{nvme_alloc_dma_mem}
use fioplugin.Dma.Alloc.{alloc-Meets}
use fioplugin.Admin.Frame.{Spares, admin_command-Spares}
use fioplugin.QueuePair.{queue_depth, alloc_io_queues, created, create_io_queue_pair}

module _ (p : Platform) (q : ℕ) where
  -- The identifier is `q`.
  abbrev HasId : NvmeData → Type 0
  HasId n = n.io_qid ≡ q

  get-Spares : {A : Type 0} (f : State → A) → Spares HasId (get f)
  get-Spares f = meets-weaken (meets-get f) (λ _ x. x) (λ _ x. x) (λ _ _ x. x.0)

  check-Spares : (c : Bool) → Spares HasId (fail_if c)
  check-Spares c = meets-fail_if c (λ _ _. tt) (λ _ x _. x)

  depth-Spares : (asked max : ℕ) → Spares HasId (queue_depth asked max)
  unfolding queue_depth
  depth-Spares asked max = meets->> (check-Spares _) (meets-pure _ (λ _ x. x))

  buffer-Spares :
      (size : ℕ) (set : Mem → State → State)
      → ((m : Mem) (s : State) → HasId s.io → HasId (set m s).io)
      → Spares HasId (nvme_alloc_dma_mem p size set)
  buffer-Spares size set keeps =
      meets-weaken
        (alloc-Meets {P = λ s. HasId s.io} {R = λ _ s. HasId s.io} p size set (λ _ _ _ x. x)
          (λ _ _ _ x _. keeps _ _ x))
        (λ _ x. x) (λ _ x. x) (λ _ _ x. x.0)

  queues-Spares : (sq_depth cq_depth : ℕ) → Spares HasId (alloc_io_queues p sq_depth cq_depth)
  unfolding alloc_io_queues
  queues-Spares sq_depth cq_depth = meets->> (buffer-Spares _ _ (λ _ _ x. x)) (
      meets->> (meets-or_undo _ (buffer-Spares _ _ (λ _ _ x. x)) (λ _ _. tt)) (
        meets->> (meets-or_undo _ (buffer-Spares _ _ (λ _ _ x. x)) (λ _ _. tt)) (
          meets->> (meets-modify _ (λ _ x. x))
            (meets->> (meets-modify _ (λ _ x. x)) (meets-modify _ (λ _ x. x))))))

  pair-Spares : Spares HasId (create_io_queue_pair p)
  unfolding create_io_queue_pair created
  pair-Spares = meets->>= (get-Spares _) (λ no_queue. meets->> (check-Spares _) (
      meets->>= (get-Spares _) (λ opened. meets->> (check-Spares _) (
        meets->>= (read64-Meets {Q = λ s. HasId s.io} p _ (λ _ _ _. tt) (λ _ _ x. x)) (λ cap.
          meets->>= (get-Spares _) (λ qid. meets->> (check-Spares _) (
            meets->>= (get-Spares _) (λ sq. meets->>= (depth-Spares _ _) (λ sq_depth.
              meets->>= (get-Spares _) (λ cq. meets->>= (depth-Spares _ _) (λ cq_depth.
                meets->> (queues-Spares _ _) (
                  meets->>= (get-Spares _) (λ cq_phys.
                    meets->> (admin_command-Spares HasId p _ _ _ _) (
                      meets->>= (get-Spares _) (λ sq_phys.
                        meets->> (admin_command-Spares HasId p _ _ _ _)
                          (meets-modify _ (λ _ x. x)))))))))))))))))

-- What a successful creation leaves as it was.
pub create_io_queue_pair-id :
    (p : Platform) (s s' : State)
    → create_io_queue_pair p s ≡ (some tt, s')
    → s'.io.io_qid ≡ s.io.io_qid
create_io_queue_pair-id p s s' e =
    subst (Ends (λ _. ⊤) (λ _ t. t.io.io_qid ≡ s.io.io_qid)) e
      ((pair-Spares p s.io.io_qid).run s refl)
