-- ===== src/Jobs/Steps.antt =====
-- Any sequence of the callbacks of any threads.
use fioplugin.Prelude.{
  ℕ, ◌<◌, ◌≡◌, ◌≢◌, refl, arith, Bool, Option, none, some, List, [], ◌∷◌, length, ⊤,
}
use fioplugin.Machine.{Platform}
use fioplugin.Nvme.{Controller, NvmeData}
use fioplugin.Target.{Strtoul}
use fioplugin.Init.TakeDown.{Releases}
use fioplugin.QueuePair.{delete_io_queue_pair}
use fioplugin.Jobs.{
  Shared, ThreadData, Ret, failed, find, nvme_setup, nvme_init, nvme_cleanup, nvme_size, nvme_alloc,
  nvme_free, nvme_open_file, nvme_close_file,
}
use fioplugin.Jobs.Threads.{Inv, Below-apart, find-Below}
use fioplugin.Jobs.Keep.{nvme_setup-Inv, nvme_init-Inv, nvme_size-Inv}
use fioplugin.Jobs.Attached.{Lands, nvme_cleanup-Lands, nvme_alloc-Lands, nvme_free-Inv, state_of}

-- The callbacks, and whether `calloc` succeeds in those that call it.
pub data Step : Type 0 where
  setup init : (memory : Bool) → ThreadData → Step
  cleanup size free : ℕ → Step
  alloc : (td total_sz : ℕ) → Step
  open_file close_file : (td f : ℕ) → Step

-- The variables before the first callback.
abbrev pub fresh : Shared
fresh = record {
  curr_thread_num = 0;
  next_io_qid = 1;
  g_ctrl = none;
  io_ops_data = [];
  sizes = [];
  log = [];
}

fresh-Inv : Inv fresh
fresh-Inv = record {
  count = refl;
  qids = tt;
  next = (omega arith, omega arith);
  controller = λ _. refl;
}

-- What the threads and the controller of a state are: the counter is the number of threads, each has
-- a queue of its own from 1 to 65535, and if there is a thread there is a controller.
pub record Shares (j : Shared) : Type 0 where
  pub count : j.curr_thread_num ≡ length j.io_ops_data
  pub some_queue :
      (td : ℕ) (n : NvmeData) → find td j.io_ops_data ≡ some n → (0 < n.io_qid) × (n.io_qid < 65536)
  pub own_queue :
      (a b : ℕ) (n m : NvmeData)
      → a ≢ b
      → find a j.io_ops_data ≡ some n
      → find b j.io_ops_data ≡ some m
      → n.io_qid ≢ m.io_qid
  pub controller : j.g_ctrl ≡ none → j.io_ops_data ≡ []

Inv-Shares : {j : Shared} → Inv j → Shares j
Inv-Shares {j} i = record {
  count = i.count;
  some_queue = λ td n h.
      let (q, v) = find-Below j.next_io_qid td j.io_ops_data n i.qids h in
      (q, omega (arith, v, i.next.1));
  own_queue = λ a b n m ne h g. Below-apart j.next_io_qid a b j.io_ops_data n m i.qids ne h g;
  controller = i.controller;
}

-- The result of a sequence from `fresh`.
pub record SharesAfter (r : Option Shared) : Type 0 where
  pub after : Shared
  pub returns : r ≡ some after
  pub shares : Shares after

-- fio initialises a thread that has no data, and `next_io_qid++` does not wrap then.
abbrev pub InRange : Step → Shared → Type 0
InRange (setup memory t) j = ⊤
InRange (init memory t) j = (j.next_io_qid < 65535) × (find t.td j.io_ops_data ≡ none)
InRange (cleanup td) j = ⊤
InRange (size f) j = ⊤
InRange (free td) j = ⊤
InRange (alloc td total_sz) j = ⊤
InRange (open_file td f) j = ⊤
InRange (close_file td f) j = ⊤

module _ (p : Platform) (strtoul : Strtoul) (get_file_size : ℕ → Shared → Ret × Shared) where
  unfoldable pub run_step : Step → Shared → Option Shared
  run_step (setup memory t) j = some (nvme_setup p strtoul memory get_file_size t j).1
  run_step (init memory t) j = some (nvme_init p memory t j).1
  run_step (cleanup td) j = nvme_cleanup p td j
  run_step (size f) j = some (nvme_size p f j).1
  run_step (free td) j = some (nvme_free td j)
  run_step (alloc td total_sz) j = state_of (nvme_alloc p td total_sz j)
  run_step (open_file td f) j = some (nvme_open_file td f j).1
  run_step (close_file td f) j = some (nvme_close_file td f j).1

  -- `none` is a use of a controller that was freed.
  unfoldable pub run_steps : List Step → Shared → Option Shared
  run_steps [] j = some j
  run_steps (x ∷ xs) j = elim (run_step x j) [ none ↦ none | some j' ↦ run_steps xs j' ]

  abbrev pub NoWrap : List Step → Shared → Type 0
  NoWrap [] j = ⊤
  NoWrap (x ∷ xs) j = InRange x j × elim (run_step x j) [ none ↦ ⊤ | some j' ↦ NoWrap xs j' ]

  module _ (keeps : (f : ℕ) (j : Shared) → Inv j → Inv (get_file_size f j).1) where
    run_step-Lands : (x : Step) (j : Shared) → InRange x j → Inv j → Lands (run_step x j)
    unfolding run_step nvme_open_file nvme_close_file
    run_step-Lands (setup memory t) j r i = record {
      after = (nvme_setup p strtoul memory get_file_size t j).1;
      returns = refl;
      inv = nvme_setup-Inv get_file_size keeps p strtoul memory t j i;
    }
    run_step-Lands (init memory t) j r i = record {
      after = (nvme_init p memory t j).1;
      returns = refl;
      inv = nvme_init-Inv p memory t j r.0 r.1 i;
    }
    run_step-Lands (cleanup td) j r i = nvme_cleanup-Lands p td j i
    run_step-Lands (size f) j r i = record {
      after = (nvme_size p f j).1;
      returns = refl;
      inv = nvme_size-Inv p f j i;
    }
    run_step-Lands (free td) j r i = record {
      after = nvme_free td j;
      returns = refl;
      inv = nvme_free-Inv td j i;
    }
    run_step-Lands (alloc td total_sz) j r i = nvme_alloc-Lands p td total_sz j i
    run_step-Lands (open_file td f) j r i = record { after = j; returns = refl; inv = i }
    run_step-Lands (close_file td f) j r i = record { after = j; returns = refl; inv = i }

    run_steps-Lands : (xs : List Step) (j : Shared) → NoWrap xs j → Inv j → Lands (run_steps xs j)
    unfolding run_steps
    run_steps-Lands [] j r i = record { after = j; returns = refl; inv = i }
    run_steps-Lands (x ∷ xs) j (here, rest) i =
        let s = run_step-Lands x j here i in
        let t = run_steps-Lands xs s.after (rw s.returns at rest) s.inv in
        record { after = t.after; returns = rw (s.returns, run_steps) t.returns; inv = t.inv }

    -- When fio's `td_io_get_file_size` keeps the invariant, `nvme_init` is called only for threads
    -- that have no data and `next_io_qid` does not wrap, any sequence of callbacks from the start uses no controller that was freed, and after it the
    -- counter is the number of attached threads, each of these has a queue of its own from 1 to
    -- 65535, and there is a controller if there is a thread.
    pub run_steps-Shares : (xs : List Step) → NoWrap xs fresh → SharesAfter (run_steps xs fresh)
    run_steps-Shares xs r =
        let s = run_steps-Lands xs fresh r fresh-Inv in
        record { after = s.after; returns = s.returns; shares = Inv-Shares s.inv }

-- The state after the last thread has gone: nothing is shared, and a thread cannot start before a new
-- `nvme_setup`.
pub record IsDown (p : Platform) (j : Shared) : Type 0 where
  pub count : j.curr_thread_num ≡ 0
  pub next : j.next_io_qid ≡ 1
  pub no_ctrl : j.g_ctrl ≡ none
  pub no_thread : j.io_ops_data ≡ []
  pub refuses : (memory : Bool) (t : ThreadData) → nvme_init p memory t j ≡ (failed, j)

-- The queue pair of the thread was deleted, and what the controller had then was released last.
pub record TakenDown (p : Platform) (n : NvmeData) (j : Shared) (r : Option Shared) : Type 0 where
  pub ctrl : Controller
  pub shared : j.g_ctrl ≡ some ctrl
  pub after : Shared
  pub returns : r ≡ some after
  pub released :
      Releases
        (delete_io_queue_pair p (record { ctrl = ctrl; io = n; log = j.log })).1.ctrl
        after.log
  pub down : IsDown p after
