-- ===== src/QueuePair/Keep.antt =====
-- `create_io_queue_pair` and `delete_io_queue_pair` keep the admin queues in bounds.
use fioplugin.Prelude.{ℕ, Bool, true, false, if◌then◌else◌, ◌!=◌, Bool-cases, inl, inr}
use fioplugin.Machine.{Platform}
use fioplugin.Nvme.{State}
use fioplugin.Call.{get, fail_if, pure}
use fioplugin.Call.Meets.{
  meets->>=, meets->>, meets-or_undo, meets-fail_if, meets-get, meets-modify, meets-pure,
  meets-weaken,
}
use fioplugin.Admin.Ring.{Keeps, admin_command-Keeps}
use fioplugin.Admin.Buffers.{read64-Keeps, alloc_mem-Keeps}
use fioplugin.QueuePair.{
  queue_depth, alloc_io_queues, created, create_io_queue_pair, delete_command, deleted,
  delete_queues, delete_io_queue_pair,
}

pub get-Keeps : {A : Type 0} (f : State → A) → Keeps (get f)
get-Keeps f = meets-weaken (meets-get f) (λ _ x. x) (λ _ x. x) (λ _ _ x. x.0)

pub fail_if-Keeps : (c : Bool) → Keeps (fail_if c)
fail_if-Keeps c = meets-fail_if c (λ _ x. x) (λ _ x _. x)

queue_depth-Keeps : (asked max : ℕ) → Keeps (queue_depth asked max)
unfolding queue_depth
queue_depth-Keeps asked max = meets->> (fail_if-Keeps _) (meets-pure _ (λ _ x. x))

alloc_io_queues-Keeps :
    (p : Platform) (sq_depth cq_depth : ℕ) → Keeps (alloc_io_queues p sq_depth cq_depth)
unfolding alloc_io_queues
alloc_io_queues-Keeps p sq_depth cq_depth = meets->> (alloc_mem-Keeps p _ _ (λ _ _ x. x)) (
    meets->> (meets-or_undo _ (alloc_mem-Keeps p _ _ (λ _ _ x. x)) (λ _ x. x)) (
      meets->> (meets-or_undo _ (alloc_mem-Keeps p _ _ (λ _ _ x. x)) (λ _ x. x)) (
        meets->> (meets-modify _ (λ _ x. x))
          (meets->> (meets-modify _ (λ _ x. x)) (meets-modify _ (λ _ x. x))))))

pub create_io_queue_pair-Keeps : (p : Platform) → Keeps (create_io_queue_pair p)
unfolding create_io_queue_pair created
create_io_queue_pair-Keeps p = meets->>= (get-Keeps _) (λ no_queue. meets->> (fail_if-Keeps _) (
    meets->>= (get-Keeps _) (λ opened. meets->> (fail_if-Keeps _) (
      meets->>= (read64-Keeps p _) (λ cap. meets->>= (get-Keeps _) (λ qid.
        meets->> (fail_if-Keeps _) (
          meets->>= (get-Keeps _) (λ sq_asked. meets->>= (queue_depth-Keeps _ _) (λ sq_depth.
            meets->>= (get-Keeps _) (λ cq_asked. meets->>= (queue_depth-Keeps _ _) (λ cq_depth.
              meets->> (alloc_io_queues-Keeps p _ _) (
                meets->>= (get-Keeps _) (λ cq_phys. meets->> (admin_command-Keeps p _ _ _ _) (
                  meets->>= (get-Keeps _) (λ sq_phys.
                    meets->> (admin_command-Keeps p _ _ _ _)
                      (meets-modify _ (λ _ x. x)))))))))))))))))

delete_command-Keeps :
    (p : Platform) (opcode queue qid : ℕ) → Keeps (delete_command p opcode queue qid)
unfolding delete_command
delete_command-Keeps p opcode queue qid = elim (Bool-cases (queue != 0)) [
  | inl there ↦ rw (there, delete_command) (admin_command-Keeps p _ _ _ _)
  | inr none_there ↦ rw (none_there, delete_command) (meets-pure tt (λ _ x. x))
]

delete_queues-Keeps : (p : Platform) → Keeps (delete_queues p)
unfolding delete_queues deleted
delete_queues-Keeps p = meets->>= (read64-Keeps p _) (λ cap. meets->>= (get-Keeps _) (λ qid.
    meets->> (fail_if-Keeps _) (
      meets->>= (get-Keeps _) (λ sq. meets->> (delete_command-Keeps p _ _ _) (
        meets->>= (get-Keeps _)
          (λ cq. meets->> (delete_command-Keeps p _ _ _) (meets-modify _ (λ _ x. x))))))))

pub delete_io_queue_pair-Keeps : (p : Platform) → Keeps (delete_io_queue_pair p)
unfolding delete_io_queue_pair
delete_io_queue_pair-Keeps p =
    meets->>= (get-Keeps _)
      (λ no_queue. meets->> (fail_if-Keeps _) (meets->>= (get-Keeps _) (λ nothing. either nothing)))
  where
    either : (b : Bool) → Keeps (if b then pure tt else delete_queues p)
    either true = meets-pure tt (λ _ x. x)
    either false = delete_queues-Keeps p
