-- ===== src/Jobs.antt =====
-- The callbacks of newperf.c that run once for a thread or a file, and the variables that all threads
-- share: `nvme_setup`, `nvme_init`, `nvme_cleanup`, `nvme_size`, `nvme_alloc` and `nvme_free`. Each
-- holds `g_mutex` while it uses the variables, so a callback is one step.
pub mod Threads
pub mod Keep
pub mod Attached
pub mod Steps
mod Tests
use fioplugin.Prelude.{
  ℕ, ◌+◌, ◌-◌, ◌^◌, Bool, true, false, Option, none, some, List, [], ◌∷◌, ltb, ◌==◌, ◌!=◌,
  if◌then◌else◌, ⊤,
}
use fioplugin.Prelude.Word.{u16, u32}
use fioplugin.Machine.{Log, Platform}
use fioplugin.Nvme.{Controller, NvmeData, Mem, State, no_mem}
use fioplugin.Target.{Strtoul, parse_target}
use fioplugin.Init.{controller_init, controller_deinit}
use fioplugin.QueuePair.{create_io_queue_pair, delete_io_queue_pair}
use fioplugin.Identify.{nvme_get_file_size}
use fioplugin.Dma.{nvme_alloc_dma_mem, free_dma}

-- `curr_thread_num`, `next_io_qid` and `g_ctrl`, the `io_ops_data` of the threads that have one, the
-- newest first, and the sizes that files were given. An `int` is its bit pattern.
pub record Shared : Type 0 where
  pub curr_thread_num : ℕ
  pub next_io_qid : ℕ
  pub g_ctrl : Option Controller
  pub io_ops_data : List (ℕ × NvmeData)
  pub sizes : List (ℕ × ℕ)
  pub log : Log

-- The parts of `struct thread_data` that are read: the thread, its options, the name of its first
-- file, if it has one, and its files.
pub record ThreadData : Type 0 where
  pub td : ℕ
  pub nr_files : ℕ
  pub use_thread : Bool
  pub iodepth : ℕ
  pub first_name : Option (List ℕ)
  pub filename : Option (List ℕ)
  pub files : List ℕ

-- A name, if there is one, and else the other.
abbrev or_else : Option (List ℕ) → Option (List ℕ) → Option (List ℕ)
or_else none other = other
or_else (some name) other = some name

-- `target_name`, with the name of `f`, if there is one.
abbrev pub target_name : ThreadData → Option (List ℕ) → Option (List ℕ)
target_name t f = or_else f (or_else t.first_name t.filename)

-- A callback returns 0 or 1; no result at all is a use of the controller after it was freed.
pub data Ret : Type 0 where
  ok failed : Ret

-- `calloc` of `struct nvme_data`
abbrev pub zero_data : NvmeData
zero_data = record {
  io_sq_head = 0;
  io_sq_tail = 0;
  ic_cq_head = 0;
  io_cq_pahse = 0;
  io_sq_phys_addr = 0;
  io_sq_virt_addr = 0;
  io_sq_mem = no_mem;
  io_cq_phys_addr = 0;
  io_cq_virt_addr = 0;
  io_cq_mem = no_mem;
  io_prp_list_phys_addr = 0;
  io_prp_list_virt_addr = 0;
  io_prp_list_mem = no_mem;
  io_u_data_phys_addr = 0;
  io_u_data_virt_addr = 0;
  io_u_data_mem = no_mem;
  io_sq_depth = 0;
  io_cq_depth = 0;
  io_qid = 0;
  io_cmd_id = 0;
  io_sq_tail_db = 0;
  io_cq_head_db = 0;
  cmd_io_u = λ _. 0;
  events = λ _. 0;
  nr_events = 0;
}

-- `td->io_ops_data`, its change and its end.
abbrev pub find : ℕ → List (ℕ × NvmeData) → Option NvmeData
find td [] = none
find td ((t, n) ∷ rest) = if t == td then some n else find td rest

abbrev pub put : ℕ → NvmeData → List (ℕ × NvmeData) → List (ℕ × NvmeData)
put td n [] = []
put td n ((t, m) ∷ rest) = if t == td then (t, n) ∷ rest else (t, m) ∷ put td n rest

abbrev pub drop_data : ℕ → List (ℕ × NvmeData) → List (ℕ × NvmeData)
drop_data td [] = []
drop_data td ((t, n) ∷ rest) = if t == td then rest else (t, n) ∷ drop_data td rest

-- `controller_deinit(g_ctrl)`, `free(g_ctrl)` and the reset of the variables.
unfoldable pub tear_down : Platform → Controller → NvmeData → Shared → Shared
tear_down p c n j =
    let s = controller_deinit p (record { ctrl = c; io = n; log = j.log }) in
    record j { g_ctrl = none; next_io_qid = 1; log = s.log }

-- `--curr_thread_num == 0` and what follows it; the last controller's state is `c`.
unfoldable pub one_less : Platform → Controller → NvmeData → Shared → Shared
one_less p c n j =
    let left : ℕ = u32 (j.curr_thread_num + 0xffff_ffff) in
    let j : Shared = record j { curr_thread_num = left; g_ctrl = some c } in
    if left == 0 then tear_down p c n j else j

-- After `controller_init(g_ctrl)`.
unfoldable pub came_up : Option ⊤ × State → Shared → Ret × Shared
came_up (none, s) j = (failed, record j { log = s.log })
came_up (some _, s) j = (ok, record j { g_ctrl = some s.ctrl; log = s.log })

-- A new controller, if there is one; the thread has no data yet.
unfoldable pub set_up : Platform → Option Controller → Shared → Ret × Shared
set_up p none j = (failed, j)
set_up p (some c) j =
    came_up (controller_init p (record { ctrl = c; io = zero_data; log = j.log })) j

-- The first part of `nvme_setup`, up to the unlock.
unfoldable pub share_controller :
    Platform → Strtoul → (memory : Bool) → ThreadData → Shared → Ret × Shared
share_controller p strtoul memory t j = elim j.g_ctrl [
  | some _ ↦ (ok, j)
  | none ↦ set_up p (parse_target strtoul memory (target_name t none)) j
]

-- `nvme_size` after `nvme_get_file_size`; the file's size is set when it is known.
unfoldable pub sized : ℕ → Option ℕ × State → Shared → Ret × Shared
sized f (none, s) j = (failed, record j { g_ctrl = some s.ctrl; log = s.log })
sized f (some size, s) j =
    let j : Shared = record j { g_ctrl = some s.ctrl; log = s.log } in
    if size == 0 then (failed, j) else (ok, record j { sizes = (f, size) ∷ j.sizes })

unfoldable pub size_of : Platform → ℕ → Option Controller → Shared → Ret × Shared
size_of p f none j = (failed, j)
size_of p f (some c) j =
    sized f (nvme_get_file_size p (record { ctrl = c; io = zero_data; log = j.log })) j

pub nvme_size : Platform → ℕ → Shared → Ret × Shared
nvme_size p f j = size_of p f j.g_ctrl j

-- `nvme_open_file` and `nvme_close_file` have nothing to do.
pub nvme_open_file : (td f : ℕ) → Shared → Ret × Shared
nvme_open_file td f j = (ok, j)

pub nvme_close_file : (td f : ℕ) → Shared → Ret × Shared
nvme_close_file td f j = (ok, j)

-- `for_each_file` of `nvme_setup`: `get_file_size` is fio's `td_io_get_file_size`.
pub size_files : (get_file_size : ℕ → Shared → Ret × Shared) → List ℕ → Shared → Ret × Shared
size_files get_file_size [] j = (ok, j)
size_files get_file_size (f ∷ fs) j =
    let (r, j') = get_file_size f j in
    elim r [ failed ↦ (failed, j') | ok ↦ size_files get_file_size fs j' ]

-- What follows the unlock.
pub then_files : (get_file_size : ℕ → Shared → Ret × Shared) → List ℕ → Ret × Shared → Ret × Shared
then_files get_file_size fs (failed, j) = (failed, j)
then_files get_file_size fs (ok, j) = size_files get_file_size fs j

pub nvme_setup :
    Platform
    → Strtoul
    → (memory : Bool) → (get_file_size : ℕ → Shared → Ret × Shared) → ThreadData
    → Shared
    → Ret × Shared
nvme_setup p strtoul memory get_file_size t j =
    if ltb 1 t.nr_files
    then (failed, j)
    else then_files get_file_size t.files (share_controller p strtoul memory t j)

-- The depth of both queues that `nvme_init` asks for.
abbrev pub asked_depth : ℕ → ℕ
asked_depth iodepth = let depth : ℕ = u32 (iodepth + 1) in if ltb depth 2 then 2 else depth

-- The data of a new thread.
unfoldable pub new_data : (qid iodepth : ℕ) → NvmeData
new_data qid iodepth = record zero_data {
  io_qid = qid;
  io_sq_depth = asked_depth iodepth;
  io_cq_depth = asked_depth iodepth;
}

-- After `create_io_queue_pair`: `td->io_ops_data` is the new data or `NULL`, whatever it was.
unfoldable pub attached : Platform → ℕ → Option ⊤ × State → Shared → Ret × Shared
attached p td (none, s) j = (
  failed,
  one_less p s.ctrl s.io (record j { io_ops_data = drop_data td j.io_ops_data; log = s.log }),
)
attached p td (some _, s) j = (
  ok,
  record j {
    g_ctrl = some s.ctrl;
    io_ops_data = (td, s.io) ∷ drop_data td j.io_ops_data;
    log = s.log;
  },
)

-- With the lock, and `g_ctrl` as it is.
unfoldable pub attach : Platform → ThreadData → Option Controller → Shared → Ret × Shared
attach p t none j = (failed, j)
attach p t (some c) j =
    let n = new_data j.next_io_qid t.iodepth in
    let j : Shared = record j {
      next_io_qid = u16 (j.next_io_qid + 1);
      curr_thread_num = u32 (j.curr_thread_num + 1);
    } in
    attached p t.td (create_io_queue_pair p (record { ctrl = c; io = n; log = j.log })) j

-- `memory` says whether `calloc` succeeds.
pub nvme_init : Platform → (memory : Bool) → ThreadData → Shared → Ret × Shared
nvme_init p memory t j =
    if t.use_thread
    then if ltb 1 t.nr_files
      then (failed, j)
      else if memory
      then attach p t j.g_ctrl j
      else (failed, j)
    else (failed, j)

-- The thread's data, and the controller that it points at.
unfoldable pub detach : Platform → ℕ → Option NvmeData → Option Controller → Shared → Option Shared
detach p td none g j = some j
detach p td (some n) none j = none
detach p td (some n) (some c) j =
    let (_, s) = delete_io_queue_pair p (record { ctrl = c; io = n; log = j.log }) in
    some
      (one_less p s.ctrl s.io (record j { io_ops_data = drop_data td j.io_ops_data; log = s.log }))

pub nvme_cleanup : Platform → ℕ → Shared → Option Shared
nvme_cleanup p td j = detach p td (find td j.io_ops_data) j.g_ctrl j

-- `n->io_u_data_mem = mem` and its addresses.
abbrev pub set_io_u_data : Mem → NvmeData → NvmeData
set_io_u_data m n = record n {
  io_u_data_phys_addr = m.dma_addr;
  io_u_data_virt_addr = m.user_virtaddr;
  io_u_data_mem = m;
}

-- `nvme_alloc` after its allocation into a `struct mem` of its own; the address is that of
-- `td->orig_buffer`.
unfoldable pub buffered : ℕ → NvmeData → Option Mem × State → Shared → Option ℕ × Shared
buffered td n (none, s) j = (none, record j { g_ctrl = some s.ctrl; log = s.log })
buffered td n (some m, s) j =
    let j : Shared = record j {
      g_ctrl = some s.ctrl;
      io_ops_data = put td (set_io_u_data m n) j.io_ops_data;
      log = s.log;
    } in
    (if m.user_virtaddr == 0 then none else some m.user_virtaddr, j)

-- The first `Option` is a use of a freed controller, the second the failure of the callback.
unfoldable pub alloc_for :
    Platform
    → (td total_sz : ℕ) → Option NvmeData
    → Option Controller
    → Shared
    → Option (Option ℕ × Shared)
alloc_for p td total_sz none g j = some (none, j)
alloc_for p td total_sz (some n) none j = none
alloc_for p td total_sz (some n) (some c) j = some (
    buffered td n
      (nvme_alloc_dma_mem p total_sz (λ _ s. s) (record { ctrl = c; io = n; log = j.log })) j)

pub nvme_alloc : Platform → (td total_sz : ℕ) → Shared → Option (Option ℕ × Shared)
nvme_alloc p td total_sz j = alloc_for p td total_sz (find td j.io_ops_data) j.g_ctrl j

unfoldable pub free_for : ℕ → Option NvmeData → Shared → Shared
free_for td none j = j
free_for td (some n) j =
    let (m, log) = free_dma n.io_u_data_mem j.log in
    record j { io_ops_data = put td (record n { io_u_data_mem = m }) j.io_ops_data; log = log }

pub nvme_free : ℕ → Shared → Shared
nvme_free td j = free_for td (find td j.io_ops_data) j
