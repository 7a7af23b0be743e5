-- ===== src/Engine.antt =====
-- The callbacks of newperf.c that run for each I/O: `nvme_queue`, `nvme_getevents` and `nvme_event`.
pub mod Dispatch
pub mod Queue
pub mod Trim
pub mod Rounds
pub mod Collect
pub mod Events
pub mod Flight
mod Tests
use fioplugin.Prelude.{
  ℕ, zero, suc, ◌+◌, ◌-◌, ◌*◌, ◌^◌, bit_and, bit_or, Bool, true, false, ◌&&◌, ◌||◌, Option, none,
  some, List, ltb, leb, ◌==◌, ◌!=◌, if◌then◌else◌, update,
}
use fioplugin.Prelude.Word.{u16, u32, u64, ◌<<<◌, ◌>>>◌}
use fioplugin.Machine.{Platform}
use fioplugin.Nvme.{NvmeData, State}
use fioplugin.Submit.{TrimRange, nvme_read, nvme_write, nvme_trim, nvme_multi_range_trim}
use fioplugin.Poll.{poll_cq}

-- `enum fio_ddir`
pub data Ddir : Type 0 where
  read write trim other : Ddir

-- The parts of fio's `struct io_u` that the engine reads; `ptr` is its address, and `trim_ranges`
-- is what `xfer_buf` points at for a trim of several ranges.
pub record IoU : Type 0 where
  pub ptr : ℕ
  pub ddir : Ddir
  pub offset : ℕ
  pub xfer_buflen : ℕ
  pub xfer_buf : ℕ
  pub number_trim : ℕ
  pub trim_ranges : ℕ → TrimRange

-- The parts of `struct thread_data`, and whether fio has `FIO_HAS_MRT`.
pub record Thread : Type 0 where
  pub orig_buffer : ℕ
  pub num_range : ℕ
  pub has_mrt : Bool

-- `enum fio_q_status`; `invalid` is `FIO_Q_COMPLETED` with `io_u->error` set to `EINVAL`.
pub data QStatus : Type 0 where
  busy invalid queued : QStatus

pub next_sq_tail : NvmeData → ℕ
next_sq_tail n = let tail : ℕ = u32 (n.io_sq_tail + 1) in if tail == n.io_sq_depth then 0 else tail

-- `(1ULL << lba_shift) - 1`
abbrev pub lba_mask : ℕ → ℕ
lba_mask lba_shift = u64 (u64 (1 <<< lba_shift) + 2 ^ 64 - 1)

-- `n->cmd_io_u[cid] = io_u`
pub remember : IoU → State × ℕ → State × QStatus
remember io_u (s, cid) =
    (record s { io = record s.io { cmd_io_u = update s.io.cmd_io_u cid io_u.ptr } }, queued)

-- `n->io_u_data_phys_addr + (buf - base)`
pub data_phys_addr : Thread → IoU → State → ℕ
data_phys_addr td io_u s =
    u64 (s.io.io_u_data_phys_addr + u64 (io_u.xfer_buf + 2 ^ 64 - td.orig_buffer))

pub queue_trim : Thread → IoU → State → (offset len : ℕ) → State × ℕ
queue_trim td io_u s offset len =
    if td.has_mrt && td.num_range != 1
    then nvme_multi_range_trim s io_u.number_trim io_u.trim_ranges
    else nvme_trim s offset len

-- The `switch` over `io_u->ddir`.
pub dispatch : Thread → IoU → State → (offset len : ℕ) → Ddir → State × QStatus
dispatch td io_u s offset len Ddir.read =
    if len == 0
    then (s, invalid)
    else remember io_u (nvme_read s offset len (data_phys_addr td io_u s))
dispatch td io_u s offset len Ddir.write =
    if len == 0
    then (s, invalid)
    else remember io_u (nvme_write s offset len (data_phys_addr td io_u s))
dispatch td io_u s offset len Ddir.trim =
    if len == 0 then (s, invalid) else remember io_u (queue_trim td io_u s offset len)
dispatch td io_u s offset len Ddir.other = (s, invalid)

pub nvme_queue : Thread → IoU → State → State × QStatus
nvme_queue td io_u s =
    let next_cid : ℕ = u16 (s.io.io_cmd_id + 1) in
    if next_sq_tail s.io == s.io.io_sq_head
    then (s, busy)
    else if s.io.cmd_io_u next_cid != 0
    then (s, busy)
    else if bit_and (bit_or io_u.offset io_u.xfer_buflen) (lba_mask s.ctrl.lba_shift) != 0
    then (s, invalid)
    else dispatch td io_u s (io_u.offset >>> s.ctrl.lba_shift)
        (io_u.xfer_buflen >>> s.ctrl.lba_shift) io_u.ddir

-- `completions >= (int)min`, for completions below 2^31: a `min` from 2^31 on is negative.
pub enough_events : (min completions : ℕ) → Bool
enough_events min completions = leb (2 ^ 31) min || leb min completions

-- `for (;;)` of `nvme_getevents`, with a bound on the rounds: `none` is that bound, and
-- `some none` the end of the process in `poll_cq`. `timed_out i` is the outcome of the test of the
-- clock in round `i`, which is `false` without a timeout.
pub getevents_loop :
    Platform
    → (timed_out : ℕ → Bool) → (fuel min max i completions : ℕ) → State
    → Option (Option (State × ℕ))
getevents_loop p timed_out zero min max i completions s = none
getevents_loop p timed_out (suc fuel) min max i completions s =
    elim (poll_cq p s (u32 (max + 2 ^ 32 - completions))) [
      | none ↦ some none
      | some (s', count) ↦ elim (enough_events min (completions + count) || timed_out i) [
        | true ↦ some (some (s', completions + count))
        | false ↦ getevents_loop p timed_out fuel min max (i + 1) (completions + count) s'
      ]
    ]

pub nvme_getevents :
    Platform → (timed_out : ℕ → Bool) → (fuel min max : ℕ) → State → Option (Option (State × ℕ))
nvme_getevents p timed_out fuel min max s =
    getevents_loop p timed_out fuel min max 0 0 (record s { io = record s.io { nr_events = 0 } })

-- `nvme_event` at an index that is not negative; 0 is `NULL`, which it returns without data too.
pub nvme_event : Option NvmeData → (event : ℕ) → ℕ
nvme_event none event = 0
nvme_event (some n) event = if leb n.nr_events event then 0 else n.events event
