-- ===== src/Identify/Sized.antt =====
-- What `nvme_get_file_size` returns when it succeeds.
use fioplugin.Prelude.{ℕ, ◌≡◌, false, some, ◌∷◌}
use fioplugin.Machine.{Event, Platform}
use fioplugin.Nvme.{Mem, State}
use fioplugin.Call.{Call}
use fioplugin.Call.Meets.{Meets}
use fioplugin.Dma.{free_dma, is_no_mem, nvme_alloc_dma_mem}
use fioplugin.Admin.{
  submit_identify_namespace, wait_admin_completion, next_admin_cmd_id, admin_cmd_timeout_ms,
}
use fioplugin.Admin.Ring.{Ok}
use fioplugin.Admin.Served.{Served}
use fioplugin.Identify.Read.{WasRead}

-- The state with the buffer cleared.
abbrev pub cleared : Mem → State → State
cleared m s = record s { log = Event.zero_fill m.user_virtaddr m.size ∷ s.log }

-- From `start` the buffer has been cleared and the identify command for its address has been submitted
-- with the next identifier.
pub record Issued (identify : Mem) (start : State) (cmd_id : ℕ) (s : State) : Type 0 where
  pub earlier : State
  pub named : next_admin_cmd_id (cleared identify start) ≡ (some cmd_id, earlier)
  pub submits : submit_identify_namespace identify.dma_addr cmd_id earlier ≡ (some tt, s)
  pub ok : Ok s

-- Then the command was completed, and when the state was `at` the data were read.
pub record Identified (p : Platform) (identify : Mem) (start : State) (size : ℕ) (s : State)
    : Type 0 where
  pub cmd_id : ℕ
  pub submitted : State
  pub issued : Issued identify start cmd_id submitted
  pub at : State
  pub waits : wait_admin_completion p cmd_id admin_cmd_timeout_ms submitted ≡ (some tt, at)
  pub served : Served p cmd_id submitted.ctrl at
  pub read : WasRead p identify.user_virtaddr at.log size s

-- The call has allocated a buffer, its identify command for this buffer completed, the data in the
-- buffer say the size, and the buffer was released at the end.
pub record IsSized (p : Platform) (size : ℕ) (s : State) : Type 0 where
  pub identify : Mem
  pub before : State
  pub start : State
  pub allocates : nvme_alloc_dma_mem p 4096 (λ _ t. t) before ≡ (some identify, start)
  pub allocated : is_no_mem identify ≡ false
  pub reading : State
  pub identified : Identified p identify start size reading
  pub released : s ≡ record reading { log = (free_dma identify reading.log).1 }

module _ (p : Platform) where
  module _ (m : Mem) (start : State) where
    -- The identifier has been taken.
    abbrev Named : ℕ → State → Type 0
    Named cmd_id t = Ok t × (next_admin_cmd_id (cleared m start) ≡ (some cmd_id, t))

    -- The command `cmd_id` was submitted and has been completed.
    abbrev Completed : ℕ → State → Type 0
    Completed cmd_id t =
        (c : State) × Issued m start cmd_id c
        × (wait_admin_completion p cmd_id admin_cmd_timeout_ms c ≡ (some tt, t))
        × Served p cmd_id c.ctrl t

  -- A buffer that was allocated.
  abbrev Allocated : Mem → State → Type 0
  Allocated m t =
      Ok t
      × (is_no_mem m ≡ false)
      × ((before : State) × (nvme_alloc_dma_mem p 4096 (λ _ u. u) before ≡ (some m, t)))
