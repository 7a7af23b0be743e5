-- ===== src/Identify/Keep.antt =====
-- `nvme_get_file_size` keeps the admin queues in bounds.
use fioplugin.Prelude.{ℕ, Option, none, some}
use fioplugin.Machine.{Platform}
use fioplugin.Nvme.{Controller, Mem, State}
use fioplugin.Call.{Call, and_then}
use fioplugin.Call.Meets.{Ends, meets->>=, meets->>, meets-modify, meets-pure}
use fioplugin.Admin.Ring.{
  InBounds, Ok, Keeps, next_admin_cmd_id-Keeps, submit_identify_namespace-Keeps,
  wait_admin_completion-Keeps,
}
use fioplugin.Admin.Buffers.{read64-Keeps, alloc_mem-Keeps}
use fioplugin.QueuePair.Keep.{get-Keeps, fail_if-Keeps}
use fioplugin.Identify.{look_byte, load_le64, read_identify, identify_namespace, nvme_get_file_size}

module _ {A : Type 0} where
  and_then-Keeps :
      (last : State → State) {m : Call A}
      → ((s : State) → Ok s → Ok (last s))
      → Keeps m
      → Keeps (and_then last m)
  unfolding and_then
  and_then-Keeps last {m} l h = record { run = λ s x. after (m s) (h.run s x) }
    where
      after : (r : Option A × State) → Ends Ok (λ _. Ok) r → Ends Ok (λ _. Ok) (r.0, last r.1)
      after (none, s) x = l s x
      after (some a, s) x = l s x

load_le64-Keeps : (p : Platform) (a : ℕ) → Keeps (load_le64 p a)
unfolding load_le64
load_le64-Keeps p a = record { run = λ _ x. x }

look_byte-Keeps : (p : Platform) (a : ℕ) → Keeps (look_byte p a)
unfolding look_byte
look_byte-Keeps p a = record { run = λ _ x. x }

set_size :
    (c : Controller) (shift bytes : ℕ)
    → InBounds c
    → InBounds (record c { lba_shift = shift; size = bytes })
set_size c shift bytes x = record {
  sq_depth = x.sq_depth;
  cq_depth = x.cq_depth;
  sq_tail = x.sq_tail;
  cq_head = x.cq_head;
  cq_phase = x.cq_phase;
}

read_identify-Keeps : (p : Platform) (page : ℕ) → Keeps (read_identify p page)
unfolding read_identify
read_identify-Keeps p page = meets->>= (load_le64-Keeps p _) (λ nsze.
    meets->>= (look_byte-Keeps p _) (λ flbas. meets->>= (look_byte-Keeps p _) (λ shift.
      meets->> (fail_if-Keeps _) (
        meets->> (meets-modify {Q = Ok} _ (λ s x. set_size s.ctrl _ _ x))
          (meets-pure _ (λ _ x. x))))))

identify_namespace-Keeps : (p : Platform) (m : Mem) → Keeps (identify_namespace p m)
unfolding identify_namespace
identify_namespace-Keeps p m = meets->> (meets-modify {Q = Ok} _ (λ _ x. x)) (
    meets->>= next_admin_cmd_id-Keeps (λ cmd_id.
      meets->> (submit_identify_namespace-Keeps _ _)
        (meets->> (wait_admin_completion-Keeps p _ _) (read_identify-Keeps p _))))

pub nvme_get_file_size-Keeps : (p : Platform) → Keeps (nvme_get_file_size p)
unfolding nvme_get_file_size
nvme_get_file_size-Keeps p = meets->>= (get-Keeps _) (λ no_queue. meets->> (fail_if-Keeps _) (
    meets->>= (get-Keeps _) (λ opened. meets->> (fail_if-Keeps _) (
      meets->>= (read64-Keeps p _) (λ cap. meets->> (fail_if-Keeps _) (
        meets->>= (alloc_mem-Keeps p _ _ (λ _ _ x. x))
          (λ m. and_then-Keeps _ (λ _ x. x) (identify_namespace-Keeps p m))))))))
