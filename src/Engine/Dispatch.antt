-- ===== src/Engine/Dispatch.antt =====
-- What `nvme_queue` may answer, and the submissions that it ends with.
use fioplugin.Prelude.{
  ℕ, ◌+◌, ◌/◌, ◌%◌, ◌^◌, ◌<◌, ◌≡◌, ◌≢◌, refl, sym, ◌∙◌, ap, ap₂, arith, ◌&&◌, ◌!=◌, ◌⊎◌, inl, inr,
  update, eq→==, ne→==, Bool-cases,
}
use native.Mathlib.Nat.{one-le-pow, pow-le-pow_right}
use fioplugin.Nvme.{NvmeData, State}
use fioplugin.Submit.{next_tail}
use fioplugin.Submit.Tail.{
  Advances, nvme_read-Advances, nvme_write-Advances, nvme_trim-Advances,
  nvme_multi_range_trim-Advances,
}
use fioplugin.Engine.{
  Ddir, IoU, Thread, QStatus, busy, invalid, queued, next_sq_tail, lba_mask, remember, queue_trim,
  dispatch,
}

-- No slot of the submission queue is free, or the next identifier is in use.
abbrev pub IsBusy : State → Type 0
IsBusy s =
    (next_sq_tail s.io ≡ s.io.io_sq_head) ⊎ (s.io.cmd_io_u ((s.io.io_cmd_id + 1) % 2 ^ 16) ≢ 0)

-- The request is in whole blocks, is not empty, and has a direction that the engine knows.
pub record IsAcceptable (io_u : IoU) (shift : ℕ) : Type 0 where
  pub offset_aligned : io_u.offset % 2 ^ shift ≡ 0
  pub length_aligned : io_u.xfer_buflen % 2 ^ shift ≡ 0
  pub not_empty : io_u.xfer_buflen / 2 ^ shift ≢ 0
  pub known : io_u.ddir ≢ Ddir.other

-- What a queued request changes: a new tail that does not meet the head, the next identifier, which
-- was free, the request under it, and no other of the thread's data or the controller's.
pub record IsQueued (io_u : IoU) (s : State) (r : State × QStatus) : Type 0 where
  pub status : r.1 ≡ queued
  pub was_free : s.io.cmd_io_u ((s.io.io_cmd_id + 1) % 2 ^ 16) ≡ 0
  pub cmd_id : r.0.io.io_cmd_id ≡ (s.io.io_cmd_id + 1) % 2 ^ 16
  pub cmd_io_u : r.0.io.cmd_io_u ≡ update s.io.cmd_io_u ((s.io.io_cmd_id + 1) % 2 ^ 16) io_u.ptr
  pub tail : r.0.io.io_sq_tail ≡ next_sq_tail s.io
  pub not_full : r.0.io.io_sq_tail ≢ r.0.io.io_sq_head
  pub head : r.0.io.io_sq_head ≡ s.io.io_sq_head
  pub cq_head : r.0.io.ic_cq_head ≡ s.io.ic_cq_head
  pub cq_phase : r.0.io.io_cq_pahse ≡ s.io.io_cq_pahse
  pub rest : r.0.io ≡ record s.io {
    io_cmd_id = r.0.io.io_cmd_id;
    io_sq_tail = r.0.io.io_sq_tail;
    cmd_io_u = r.0.io.cmd_io_u;
  }
  pub ctrl : r.0.ctrl ≡ s.ctrl

abbrev pub Outcome : IoU → State → State × QStatus → Type 0
Outcome io_u s r =
    (IsBusy s × (r ≡ (s, busy)))
    ⊎ ((¬ IsBusy s × (¬ IsAcceptable io_u s.ctrl.lba_shift) × (r ≡ (s, invalid)))
        ⊎ ((¬ IsBusy s) × IsAcceptable io_u s.ctrl.lba_shift × IsQueued io_u s r))

pub lba_mask-pow : (shift : ℕ) → shift < 64 → lba_mask shift + 1 ≡ 2 ^ shift
lba_mask-pow shift h = omega (
  arith,
  one-le-pow shift 2 (omega arith),
  pow-le-pow_right {n = 2} (omega arith) {i = shift} {j = 63} (omega arith),
)

pub other_or_known : (d : Ddir) → (d ≡ Ddir.other) ⊎ (d ≢ Ddir.other)
other_or_known Ddir.read = inr (λ e. cc)
other_or_known Ddir.write = inr (λ e. cc)
other_or_known Ddir.trim = inr (λ e. cc)
other_or_known Ddir.other = inl refl

module _ (td : Thread) (io_u : IoU) (s : State) where
  -- Every submission ends alike.
  remember-IsQueued :
      (r : State × ℕ)
      → Advances s r
      → s.io.cmd_io_u ((s.io.io_cmd_id + 1) % 2 ^ 16) ≡ 0
      → next_sq_tail s.io ≢ s.io.io_sq_head
      → IsQueued io_u s (remember io_u r)
  unfolding remember next_tail next_sq_tail
  remember-IsQueued r a free room = record {
    status = refl;
    was_free = free;
    cmd_id = ap (λ (n : NvmeData). n.io_cmd_id) a.io;
    cmd_io_u = ap₂ (λ (n : NvmeData) c. update n.cmd_io_u c io_u.ptr) a.io a.cid;
    tail = ap (λ (n : NvmeData). n.io_sq_tail) a.io;
    not_full = λ full. room (
        sym (ap (λ (n : NvmeData). n.io_sq_tail) a.io)
        ∙ full
        ∙ ap (λ (n : NvmeData). n.io_sq_head) a.io);
    head = ap (λ (n : NvmeData). n.io_sq_head) a.io;
    cq_head = ap (λ (n : NvmeData). n.ic_cq_head) a.io;
    cq_phase = ap (λ (n : NvmeData). n.io_cq_pahse) a.io;
    rest =
        ap
          (λ (n : NvmeData). record n {
            io_cmd_id = r.0.io.io_cmd_id;
            io_sq_tail = r.0.io.io_sq_tail;
            cmd_io_u = update r.0.io.cmd_io_u r.1 io_u.ptr;
          })
          a.io;
    ctrl = a.ctrl;
  }

  queue_trim-Advances : (offset len : ℕ) → Advances s (queue_trim td io_u s offset len)
  unfolding queue_trim
  queue_trim-Advances offset len = elim (Bool-cases (td.has_mrt && td.num_range != 1)) [
    | inl h ↦
        rw (h, queue_trim) (nvme_multi_range_trim-Advances s io_u.number_trim io_u.trim_ranges)
    | inr h ↦ rw (h, queue_trim) (nvme_trim-Advances s offset len)
  ]

  pub dispatch-IsQueued :
      (offset len : ℕ) (d : Ddir)
      → len ≢ 0
      → d ≢ Ddir.other
      → s.io.cmd_io_u ((s.io.io_cmd_id + 1) % 2 ^ 16) ≡ 0
      → next_sq_tail s.io ≢ s.io.io_sq_head
      → IsQueued io_u s (dispatch td io_u s offset len d)
  unfolding dispatch
  dispatch-IsQueued offset len Ddir.read h g free room =
      rw (ne→== len 0 h) (remember-IsQueued _ (nvme_read-Advances s _ _ _) free room)
  dispatch-IsQueued offset len Ddir.write h g free room =
      rw (ne→== len 0 h) (remember-IsQueued _ (nvme_write-Advances s _ _ _) free room)
  dispatch-IsQueued offset len Ddir.trim h g free room =
      rw (ne→== len 0 h) (remember-IsQueued _ (queue_trim-Advances offset len) free room)
  dispatch-IsQueued offset len Ddir.other h g free room = absurd (g refl)

  pub dispatch-invalid :
      (offset len : ℕ) (d : Ddir)
      → (len ≡ 0) ⊎ (d ≡ Ddir.other)
      → dispatch td io_u s offset len d ≡ (s, invalid)
  unfolding dispatch
  dispatch-invalid offset len Ddir.read (inl e) = rw (eq→== len 0 e)
  dispatch-invalid offset len Ddir.read (inr e) = cc
  dispatch-invalid offset len Ddir.write (inl e) = rw (eq→== len 0 e)
  dispatch-invalid offset len Ddir.write (inr e) = cc
  dispatch-invalid offset len Ddir.trim (inl e) = rw (eq→== len 0 e)
  dispatch-invalid offset len Ddir.trim (inr e) = cc
  dispatch-invalid offset len Ddir.other e = refl
