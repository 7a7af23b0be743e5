-- ===== src/Submit/Ranges.antt =====
-- What a controller finds in memory when the doorbell of a trim rings: the command and its ranges.
use native.Mathlib.Nat.{div-le_self}
use fioplugin.Prelude.{
  ℕ, zero, suc, ◌+◌, ◌-◌, ◌*◌, ◌%◌, ◌^◌, ◌≤◌, ◌<◌, ◌≡◌, refl, ◌∙◌, ap₂, ◌⊎◌, arith, ◌∷◌,
}
use fioplugin.Prelude.Word.{u32, ◌>>>◌}
use fioplugin.Machine.{Event, Log}
use fioplugin.Machine.Memory.{load}
use fioplugin.Machine.Fields.{assign, load-assign, assign-frame, assign-zero_fill-frame}
use fioplugin.Nvme.{State}
use fioplugin.Submit.{
  TrimRange, range_fields, dsm_fields, range_offset, write_ranges, sqe_address, next_cmd_id, submit,
  nvme_trim, nvme_multi_range_trim,
}
use fioplugin.Submit.Sqe.{Sqe, decode, decode-dsm_fields}
use fioplugin.Submit.Commands.{IsReady, Rings, submit-Rings}

-- A range descriptor as a controller reads it.
pub record DsmRange : Type 0 where
  pub context_attributes : ℕ
  pub length : ℕ
  pub slba : ℕ

abbrev pub decode_range : Log → ℕ → DsmRange
decode_range log a = record {
  context_attributes = load 4 log (a + 0);
  length = load 4 log (a + 4);
  slba = load 8 log (a + 8);
}

decode-range_fields :
    (a length slba : ℕ) (log : Log)
    → length < 2 ^ 32
    → slba < 2 ^ 64
    → decode_range (assign a (range_fields 0 length slba) log) a
      ≡ record { context_attributes = 0; length = length; slba = slba }
decode-range_fields a length slba log h g = ground (
  arith,
  load-assign 4 a 0 (range_fields 0 length slba) log refl,
  load-assign 4 a 4 (range_fields 0 length slba) log refl,
  load-assign 8 a 8 (range_fields 0 length slba) log refl,
)

-- The loop leaves what stands outside its ranges.
write_ranges-frame :
    (rounds shift range i : ℕ) (tr : ℕ → TrimRange) (log : Log) (k x : ℕ)
    → (x + k ≤ range) ⊎ (range + 16 * rounds ≤ x)
    → load k (write_ranges rounds shift range i tr log) x ≡ load k log x
unfolding write_ranges
write_ranges-frame zero shift range i tr log k x h = refl
write_ranges-frame (suc rounds) shift range i tr log k x h =
    write_ranges-frame rounds shift (range + 16) (i + 1) tr _ k x (omega arith)
    ∙ assign-frame 16 range k x _ log refl (omega arith)

-- The blocks of a range of bytes.
abbrev pub blocks : ℕ → TrimRange → DsmRange
blocks shift t = record {
  context_attributes = 0;
  length = u32 (t.len >>> shift);
  slba = t.start >>> shift;
}

-- A descriptor depends on its own sixteen bytes only.
decode_range-same :
    (log log' : Log) (a : ℕ)
    → load 4 log (a + 0) ≡ load 4 log' (a + 0)
    → load 4 log (a + 4) ≡ load 4 log' (a + 4)
    → load 8 log (a + 8) ≡ load 8 log' (a + 8)
    → decode_range log a ≡ decode_range log' a
decode_range-same log log' a e0 e1 e2 = ground arith

decode-write_ranges :
    (rounds shift range i : ℕ) (tr : ℕ → TrimRange) (log : Log) (j : ℕ)
    → j < rounds
    → ((m : ℕ) → (tr m).start < 2 ^ 64)
    → decode_range (write_ranges rounds shift range i tr log) (range + 16 * j)
      ≡ blocks shift (tr (i + j))
unfolding write_ranges
decode-write_ranges zero shift range i tr log j h b = absurd (omega arith)
decode-write_ranges (suc rounds) shift range i tr log zero h b =
    let at : range + 16 * 0 ≡ range = omega arith in
    let ix : i + 0 ≡ i = omega arith in
    let t : TrimRange = tr i in
    let here : Log =
      assign range (range_fields 0 (u32 (t.len >>> shift)) (t.start >>> shift)) log in
    let keep = write_ranges-frame rounds shift (range + 16) (i + 1) tr here in
    rw (at, ix)
      (decode_range-same _ here range (keep 4 (range + 0) (omega arith))
          (keep 4 (range + 4) (omega arith)) (keep 8 (range + 8) (omega arith))
        ∙ decode-range_fields range (u32 (t.len >>> shift)) (t.start >>> shift) log (omega arith)
            (omega (arith, b i, div-le_self t.start (2 ^ shift))))
decode-write_ranges (suc rounds) shift range i tr log (suc j) h b =
    let at : range + 16 * suc j ≡ range + 16 + 16 * j = omega arith in
    let ix : i + suc j ≡ i + 1 + j = omega arith in
    rw (at, ix) (decode-write_ranges rounds shift (range + 16) (i + 1) tr _ j (omega arith) b)

-- The entry of a trim of `cdw10 + 1` ranges.
abbrev pub dsm_entry : (command_id nsid prp1 cdw10 : ℕ) → Sqe
dsm_entry command_id nsid prp1 cdw10 = record {
  opcode = 9;
  flags = 0;
  command_id = command_id;
  nsid = nsid;
  prp1 = prp1;
  prp2 = 0;
  cdw10 = cdw10;
  cdw11 = 4;
  cdw12 = 0;
}

-- What the doorbell of a trim announces, `r` being the outcome of the call: a dataset management
-- command that deallocates, with the next identifier, at the slot of the old tail, whose PRP1 is the
-- slot's page of the list area, and in that page the `count` descriptors `ranges`.
pub record Deallocates (s : State) (count : ℕ) (ranges : ℕ → DsmRange) (r : State × ℕ)
    : Type 0 where
  pub cid : r.1 ≡ (s.io.io_cmd_id + 1) % 2 ^ 16
  pub log : Log
  pub rings : Rings s r.0 log
  pub entry :
      decode log (sqe_address s s.io.io_sq_tail)
      ≡ dsm_entry r.1 s.ctrl.nsid (s.io.io_prp_list_phys_addr + s.io.io_sq_tail * 4096) (count - 1)
  pub descriptors :
      (j : ℕ)
      → j < count
      → decode_range log (s.io.io_prp_list_virt_addr + s.io.io_sq_tail * 4096 + 16 * j) ≡ ranges j

module _ {s : State} (ready : IsReady s) where
  -- The command's entry, written after the ranges, leaves them as they are.
  ranges_kept :
      (cmd_id range_phys cdw10 : ℕ) (log : Log) (j : ℕ)
      → j < 256
      → decode_range
          (assign
            (sqe_address s s.io.io_sq_tail)
            (dsm_fields cmd_id s.ctrl.nsid range_phys cdw10)
            (Event.zero_fill (sqe_address s s.io.io_sq_tail) 64 ∷ log))
          (s.io.io_prp_list_virt_addr + s.io.io_sq_tail * 4096 + 16 * j)
        ≡ decode_range log (s.io.io_prp_list_virt_addr + s.io.io_sq_tail * 4096 + 16 * j)
  unfolding dsm_fields
  ranges_kept cmd_id range_phys cdw10 log j h =
      let keep = λ (k x : ℕ).
        assign-zero_fill-frame 64 (sqe_address s s.io.io_sq_tail) k x
          (dsm_fields cmd_id s.ctrl.nsid range_phys cdw10) log refl in
      decode_range-same _ log _ (keep 4 _ (omega arith)) (keep 4 _ (omega arith))
        (keep 8 _ (omega arith))

  -- Both trims, once the descriptors are in place.
  dsm-Deallocates :
      (count cdw10 range_phys : ℕ) (ranges : ℕ → DsmRange) (log : Log)
      → 0 < count
      → count ≤ 256
      → cdw10 ≡ count - 1
      → range_phys ≡ s.io.io_prp_list_phys_addr + s.io.io_sq_tail * 4096
      → ((j : ℕ)
          → j < count
          → decode_range log (s.io.io_prp_list_virt_addr + s.io.io_sq_tail * 4096 + 16 * j)
            ≡ ranges j)
      → Deallocates s count ranges (
          submit s (next_cmd_id s) (
            assign
              (sqe_address s s.io.io_sq_tail)
              (dsm_fields (next_cmd_id s) s.ctrl.nsid range_phys cdw10)
              (Event.zero_fill (sqe_address s s.io.io_sq_tail) 64 ∷ log)))
  unfolding submit
  dsm-Deallocates count cdw10 range_phys ranges log h g e1 e2 there = record {
    cid = refl;
    log = _;
    rings = submit-Rings s _ _;
    entry =
        decode-dsm_fields (sqe_address s s.io.io_sq_tail) log (next_cmd_id s) s.ctrl.nsid range_phys
          cdw10 (omega arith) (omega arith) (omega arith) (omega arith)
        ∙ ap₂ (dsm_entry (next_cmd_id s) s.ctrl.nsid) e2 e1;
    descriptors =
        λ j b. ranges_kept (next_cmd_id s) range_phys cdw10 log j (omega arith) ∙ there j b;
  }

  -- From a state that is ready, for an address below 2^64 and a count below 2^32: `nvme_trim` announces
  -- the deallocation of its one range.
  pub nvme_trim-Deallocates :
      (offset size : ℕ)
      → offset < 2 ^ 64
      → size < 2 ^ 32
      → Deallocates s 1
          (λ _. record { context_attributes = 0; length = size; slba = offset })
          (nvme_trim s offset size)
  unfolding nvme_trim
  nvme_trim-Deallocates offset size h g =
      dsm-Deallocates 1 0 _ _ _ (omega arith) (omega arith) refl (omega arith) λ j b.
        let at : s.io.io_prp_list_virt_addr + s.io.io_sq_tail * 4096 + 16 * j
            ≡ s.io.io_prp_list_virt_addr + range_offset s =
          omega arith in
        let fits : u32 size ≡ size = omega arith in
        rw (at, fits) (decode-range_fields _ size offset s.log g h)

  -- From a state that is ready, for 1 to 256 ranges that start below 2^64: `nvme_multi_range_trim`
  -- announces the deallocation of these ranges, each in blocks.
  pub nvme_multi_range_trim-Deallocates :
      (count : ℕ) (tr : ℕ → TrimRange)
      → 0 < count
      → count ≤ 256
      → ((m : ℕ) → (tr m).start < 2 ^ 64)
      → Deallocates s count (λ j. blocks s.ctrl.lba_shift (tr j)) (nvme_multi_range_trim s count tr)
  unfolding nvme_multi_range_trim
  nvme_multi_range_trim-Deallocates count tr h g b =
      dsm-Deallocates count _ _ _ _ h g (omega arith) (omega arith) λ j below.
        let at : range_offset s ≡ s.io.io_sq_tail * 4096 = omega arith in
        let ix : 0 + j ≡ j = omega arith in
        rw at (
          decode-write_ranges count s.ctrl.lba_shift
            (s.io.io_prp_list_virt_addr + s.io.io_sq_tail * 4096) 0 tr s.log j below b
          ∙ rw ix)

-- A multi-range trim of one range does what a trim of the range's start and length in blocks does: it
-- returns the same identifier and leads to the same state.
pub nvme_multi_range_trim-nvme_trim :
    (s : State) (tr : ℕ → TrimRange)
    → nvme_multi_range_trim s 1 tr
      ≡ nvme_trim s ((tr 0).start >>> s.ctrl.lba_shift) ((tr 0).len >>> s.ctrl.lba_shift)
unfolding nvme_trim nvme_multi_range_trim write_ranges
nvme_multi_range_trim-nvme_trim s tr = refl
