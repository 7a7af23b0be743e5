-- ===== src/Poll.antt =====
-- `poll_cq` of tools/nvme.c: the completions that the controller has posted.
pub mod Accept
pub mod Complete
pub mod Collect
pub mod Count
pub mod Failure
pub mod Finish
pub mod Loop
pub mod Protocol
mod Tests
pub mod Entry
use fioplugin.Prelude.{
  ℕ, zero, suc, ◌+◌, ◌*◌, ◌^◌, bit_and, bit_xor, Bool, ◌||◌, Option, none, some, ◌∷◌, ltb, leb,
  ◌==◌, ◌!=◌, if◌then◌else◌, update,
}
use fioplugin.Prelude.Word.{u16, u32, ◌>>>◌}
use fioplugin.Machine.{Event, Log, Platform}
use fioplugin.Machine.Reads.{look16}
use fioplugin.Nvme.{NvmeData, State}

-- The offsets of `sqhd`, `cid` and `psf` in `struct nvme_cq_entry`, and its size.
abbrev pub sqhd_at : ℕ
sqhd_at = 8

abbrev pub cid_at : ℕ
cid_at = 12

abbrev pub psf_at : ℕ
psf_at = 14

abbrev pub cq_entry_size : ℕ
cq_entry_size = 16

-- The parts of `psf`.
abbrev pub phase_mask : ℕ
phase_mask = 0x1

abbrev pub sc_shift : ℕ
sc_shift = 1

abbrev pub sc_mask : ℕ
sc_mask = 0xff

abbrev pub sct_shift : ℕ
sct_shift = 9

abbrev pub sct_mask : ℕ
sct_mask = 0x7

-- The locals of the loop, with the data and the log that it changes.
pub record Scan : Type 0 where
  pub io : NvmeData
  pub log : Log
  pub head : ℕ
  pub count : ℕ
  pub cqe : ℕ
  pub phase_tag : ℕ

-- A round breaks off, ends the process by `exit(EXIT_FAILURE)`, or goes on.
pub data Round : Type 0 where
  break : Scan → Round
  exit : Round
  continue : Scan → Round

-- `events[nr_events + count] = io_u; cmd_io_u[cid] = NULL; io_sq_head = sqhd`
pub accept : (count io_u cid sqhd : ℕ) → NvmeData → NvmeData
accept count io_u cid sqhd n = record n {
  events = update n.events (n.nr_events + count) io_u;
  cmd_io_u = update n.cmd_io_u cid 0;
  io_sq_head = sqhd;
}

-- The end of a round: the next entry, round the queue with the other phase.
pub advance : (cq_base depth : ℕ) → Scan → Scan
advance cq_base depth t =
    let head : ℕ = u32 (t.head + 1) in
    if head == depth
    then record t {
      head = 0;
      count = u16 (t.count + 1);
      cqe = cq_base;
      phase_tag = bit_xor t.phase_tag 1;
    }
    else record t { head = head; count = u16 (t.count + 1); cqe = t.cqe + cq_entry_size }

-- `cqe->cid` is read twice, as the source does.
pub take_entry : Platform → (cq_base : ℕ) → Scan → Round
take_entry p cq_base t =
    let (cid, log1) = look16 p (t.cqe + cid_at) t.log in
    let io_u : ℕ = t.io.cmd_io_u cid in
    if io_u == 0
    then exit
    else (let (cid', log2) = look16 p (t.cqe + cid_at) log1 in
        let (sqhd, log3) = look16 p (t.cqe + sqhd_at) log2 in
        continue (
          advance cq_base t.io.io_cq_depth
            (record t { io = accept t.count io_u cid' sqhd t.io; log = log3 })))

pub round : Platform → (cq_base : ℕ) → Scan → Round
round p cq_base t =
    let (psf, log1) = look16 p (t.cqe + psf_at) t.log in
    let sc : ℕ = bit_and (psf >>> sc_shift) sc_mask in
    let sct : ℕ = bit_and (psf >>> sct_shift) sct_mask in
    if bit_and psf phase_mask != t.phase_tag
    then break (record t { log = log1 })
    else if sct != 0 || sc != 0
    then exit
    else take_entry p cq_base (record t { log = log1 })

-- `for (;;)`, with `max_count - count` rounds left; `none` is the end of the process.
pub scan_loop : Platform → (cq_base left : ℕ) → Scan → Option Scan
scan_loop p cq_base zero t = some t
scan_loop p cq_base (suc left) t = elim (round p cq_base t) [
  | break t' ↦ some t'
  | exit ↦ none
  | continue t' ↦ scan_loop p cq_base left t'
]

-- `if (count != 0u)`
pub finish : State → Scan → State × ℕ
finish s t =
    if t.count != 0
    then (
      record s {
        io = record t.io {
          ic_cq_head = t.head;
          io_cq_pahse = t.phase_tag;
          nr_events = t.io.nr_events + t.count;
        };
        log = Event.reg_store (s.ctrl.bar0_virt + s.io.io_cq_head_db) t.head ∷ t.log;
      },
      t.count,
    )
    else (record s { io = t.io; log = t.log }, t.count)

abbrev pub scan_start : State → Scan
scan_start s = record {
  io = s.io;
  log = s.log;
  head = s.io.ic_cq_head;
  count = 0;
  cqe = s.io.io_cq_virt_addr + cq_entry_size * s.io.ic_cq_head;
  phase_tag = s.io.io_cq_pahse;
}

-- `max` is the bit pattern of an `int`; half of them are not above 0.
pub poll_cq : Platform → State → (max : ℕ) → Option (State × ℕ)
poll_cq p s max =
    if max == 0 || leb (2 ^ 31) max
    then some (s, 0)
    else (let max_count : ℕ = if ltb 65535 max then 65535 else max in
        elim (scan_loop p s.io.io_cq_virt_addr max_count (scan_start s)) [
          | none ↦ none
          | some t ↦ some (finish s t)
        ])
