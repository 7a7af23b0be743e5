-- ===== src/Control.antt =====
-- The life of a controller between `controller_init` and `controller_deinit`: the control functions
-- of tools/nvme.c, in any order and from any thread.
mod Tests
use fioplugin.Prelude.{ℕ, ◌≡◌, ◌≢◌, refl, ◌<◌, Option, none, some, true, false, ⊤, arith}
use fioplugin.Machine.{Log, Platform}
use fioplugin.Nvme.{Controller, NvmeData, State}
use fioplugin.Call.Meets.{Ends}
use fioplugin.Init.{controller_init}
use fioplugin.Init.Failure.{Failed}
use fioplugin.Init.BringUp.{IsUp, controller_init-Outcome}
use fioplugin.Admin.Ring.{InBounds, Ok}
use fioplugin.QueuePair.{create_io_queue_pair, delete_io_queue_pair}
use fioplugin.QueuePair.Keep.{create_io_queue_pair-Keeps, delete_io_queue_pair-Keeps}
use fioplugin.Identify.{nvme_get_file_size}
use fioplugin.Identify.Keep.{nvme_get_file_size-Keeps}

-- The states that the calls of the engine lead to, whatever their outcomes. In `switch` another
-- thread goes on with data of its own, after I/O that the log shows.
pub data Reachable (p : Platform) : State → Type 0 where
  init :
      (s : State)
      → s.ctrl.dma_fd_opened ≡ false
      → (controller_init p s).0 ≡ some tt
      → Reachable p (controller_init p s).1
  create : (s : State) → Reachable p s → Reachable p (create_io_queue_pair p s).1
  delete : (s : State) → Reachable p s → Reachable p (delete_io_queue_pair p s).1
  size : (s : State) → Reachable p s → Reachable p (nvme_get_file_size p s).1
  switch :
      (s : State) (io : NvmeData) (log : Log)
      → Reachable p s
      → Reachable p (record s { io = io; log = log })

up-InBounds : {p : Platform} {s : State} → IsUp p s → Ok s
up-InBounds u = record {
  sq_depth = u.sq_depth;
  cq_depth = u.cq_depth;
  sq_tail = omega (arith, u.sq_tail);
  cq_head = omega (arith, u.cq_head);
  cq_phase = omega (arith, u.cq_phase);
}

came_up :
    (p : Platform) (s : State) (r : Option ⊤ × State)
    → Ends (Failed p s) (λ _. IsUp p) r
    → r.0 ≡ some tt
    → Ok r.1
came_up p s (none, s') e same = cc
came_up p s (some a, s') e same = up-InBounds e

after : {A : Type 0} (r : Option A × State) → Ends Ok (λ _. Ok) r → Ok r.1
after (none, s) x = x
after (some a, s) x = x

-- Once `controller_init` has succeeded, the admin queues keep 32 entries, and their tail and head
-- stay indices of theirs and the phase a bit, through all calls of `create_io_queue_pair`,
-- `delete_io_queue_pair` and `nvme_get_file_size`, whether these succeed or not.
pub Reachable-InBounds : {p : Platform} {s : State} → Reachable p s → InBounds s.ctrl
Reachable-InBounds {p} (init s closed e) = came_up p s _ (controller_init-Outcome p s closed) e
Reachable-InBounds {p} (create s r) =
    after (create_io_queue_pair p s) ((create_io_queue_pair-Keeps p).run s (Reachable-InBounds r))
Reachable-InBounds {p} (delete s r) =
    after (delete_io_queue_pair p s) ((delete_io_queue_pair-Keeps p).run s (Reachable-InBounds r))
Reachable-InBounds {p} (size s r) =
    after (nvme_get_file_size p s) ((nvme_get_file_size-Keeps p).run s (Reachable-InBounds r))
Reachable-InBounds {p} (switch s io log r) = Reachable-InBounds r
