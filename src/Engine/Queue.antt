-- ===== src/Engine/Queue.antt =====
-- The outcomes of `nvme_queue`.
use fioplugin.Prelude.{
  ◌+◌, ◌%◌, ◌^◌, ◌<◌, ◌≡◌, ◌≢◌, ◌∙◌, arith, ◌!=◌, inl, inr, true, false, bit_and, bit_or, eq→==,
  ne→==,
}
use native.Mathlib.Decide.{ℕ_discrete}
use fioplugin.Prelude.Bits.{bit_or-aligned, aligned-bit_or}
use fioplugin.Prelude.Word.{◌>>>◌}
use fioplugin.Nvme.{State}
use fioplugin.Engine.Dispatch.{
  IsBusy, IsAcceptable, Outcome, lba_mask-pow, other_or_known, dispatch-IsQueued, dispatch-invalid,
}
use fioplugin.Engine.{IoU, Thread, busy, invalid, next_sq_tail, lba_mask, dispatch, nvme_queue}

module _ (td : Thread) (io_u : IoU) (s : State) where
  queue_full : next_sq_tail s.io ≡ s.io.io_sq_head → nvme_queue td io_u s ≡ (s, busy)
  unfolding nvme_queue
  queue_full e = rw (eq→== _ _ e)

  queue_taken :
      next_sq_tail s.io ≢ s.io.io_sq_head
      → s.io.cmd_io_u ((s.io.io_cmd_id + 1) % 2 ^ 16) ≢ 0
      → nvme_queue td io_u s ≡ (s, busy)
  unfolding nvme_queue
  queue_taken room taken =
      let h : (s.io.cmd_io_u ((s.io.io_cmd_id + 1) % 2 ^ 16) != 0) ≡ true = ground arith in
      rw (ne→== _ _ room, h)

  module _ (room : next_sq_tail s.io ≢ s.io.io_sq_head)
      (free : s.io.cmd_io_u ((s.io.io_cmd_id + 1) % 2 ^ 16) ≡ 0) where
    not-IsBusy : ¬ IsBusy s
    not-IsBusy (inl full) = room full
    not-IsBusy (inr taken) = taken free

    queue_misaligned :
        bit_and (bit_or io_u.offset io_u.xfer_buflen) (lba_mask s.ctrl.lba_shift) ≢ 0
        → nvme_queue td io_u s ≡ (s, invalid)
    unfolding nvme_queue
    queue_misaligned odd =
        let h : (s.io.cmd_io_u ((s.io.io_cmd_id + 1) % 2 ^ 16) != 0) ≡ false = ground arith in
        let g : (bit_and (bit_or io_u.offset io_u.xfer_buflen) (lba_mask s.ctrl.lba_shift) != 0)
            ≡ true =
          ground arith in
        rw (ne→== _ _ room, h, g)

    queue_dispatch :
        bit_and (bit_or io_u.offset io_u.xfer_buflen) (lba_mask s.ctrl.lba_shift) ≡ 0
        → nvme_queue td io_u s
          ≡ dispatch td io_u s
              (io_u.offset >>> s.ctrl.lba_shift)
              (io_u.xfer_buflen >>> s.ctrl.lba_shift)
              io_u.ddir
    unfolding nvme_queue
    queue_dispatch even =
        let h : (s.io.cmd_io_u ((s.io.io_cmd_id + 1) % 2 ^ 16) != 0) ≡ false = ground arith in
        let g : (bit_and (bit_or io_u.offset io_u.xfer_buflen) (lba_mask s.ctrl.lba_shift) != 0)
            ≡ false =
          ground arith in
        rw (ne→== _ _ room, h, g)

    refused :
        (¬ IsAcceptable io_u s.ctrl.lba_shift)
        → nvme_queue td io_u s ≡ (s, invalid)
        → Outcome io_u s (nvme_queue td io_u s)
    refused no_good e = inr (inl (not-IsBusy, no_good, e))

    aligned-Outcome :
        s.ctrl.lba_shift < 64
        → bit_and (bit_or io_u.offset io_u.xfer_buflen) (lba_mask s.ctrl.lba_shift) ≡ 0
        → Outcome io_u s (nvme_queue td io_u s)
    aligned-Outcome h even =
        let parts =
          bit_or-aligned s.ctrl.lba_shift io_u.offset io_u.xfer_buflen _
            (lba_mask-pow s.ctrl.lba_shift h) even in
        elim (ℕ_discrete (io_u.xfer_buflen >>> s.ctrl.lba_shift) 0) [
          | yes empty ↦
              refused (λ a. a.not_empty empty)
                (queue_dispatch even ∙ dispatch-invalid td io_u s _ _ io_u.ddir (inl empty))
          | no some_blocks ↦ elim (other_or_known io_u.ddir) [
            | inl other ↦
                refused (λ a. a.known other)
                  (queue_dispatch even ∙ dispatch-invalid td io_u s _ _ io_u.ddir (inr other))
            | inr known ↦ inr (
                inr (
                  not-IsBusy,
                  record {
                    offset_aligned = parts.0;
                    length_aligned = parts.1;
                    not_empty = some_blocks;
                    known = known;
                  },
                  rw (queue_dispatch even)
                      (dispatch-IsQueued td io_u s _ _ io_u.ddir some_blocks known free room),
                ))
          ]
        ]

    free-Outcome : s.ctrl.lba_shift < 64 → Outcome io_u s (nvme_queue td io_u s)
    free-Outcome h =
        elim (ℕ_discrete (bit_and (bit_or io_u.offset io_u.xfer_buflen) (lba_mask s.ctrl.lba_shift))
          0) [
            | yes even ↦ aligned-Outcome h even
            | no odd ↦
                refused
                  (λ a. odd (
                    aligned-bit_or s.ctrl.lba_shift io_u.offset io_u.xfer_buflen _
                      (lba_mask-pow s.ctrl.lba_shift h) a.offset_aligned a.length_aligned))
                  (queue_misaligned odd)
          ]

  -- For blocks of less than 2^64 bytes: `nvme_queue` answers `FIO_Q_BUSY`, and changes nothing,
  -- exactly if the submission queue is full or the next identifier is in use; else it completes the
  -- request with `EINVAL`, and changes nothing, exactly if the request is not acceptable; and else it
  -- queues it.
  pub nvme_queue-Outcome : s.ctrl.lba_shift < 64 → Outcome io_u s (nvme_queue td io_u s)
  nvme_queue-Outcome h = elim (ℕ_discrete (next_sq_tail s.io) s.io.io_sq_head) [
    | yes full ↦ inl (inl full, queue_full full)
    | no room ↦ elim (ℕ_discrete (s.io.cmd_io_u ((s.io.io_cmd_id + 1) % 2 ^ 16)) 0) [
      | yes free ↦ free-Outcome room free h
      | no taken ↦ inl (inr taken, queue_taken room taken)
    ]
  ]
