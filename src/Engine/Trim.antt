-- ===== src/Engine/Trim.antt =====
-- A trim of one range, for a thread with multi-range trims and for one without.
use mathlib.Core.Path.{subst}
use fioplugin.Prelude.{sym, ◌≡◌, refl, ◌&&◌, ◌!=◌, inl, inr, Bool-cases}
use fioplugin.Prelude.Word.{◌>>>◌}
use fioplugin.Nvme.{State}
use fioplugin.Submit.{nvme_trim}
use fioplugin.Submit.Ranges.{nvme_multi_range_trim-nvme_trim}
use fioplugin.Engine.{Ddir, IoU, Thread, dispatch, nvme_queue, queue_trim}

-- A request to trim one range, which is where the request says.
pub record IsOneRange (io_u : IoU) : Type 0 where
  pub trims : io_u.ddir ≡ Ddir.trim
  pub one : io_u.number_trim ≡ 1
  pub range : io_u.trim_ranges 0 ≡ record { start = io_u.offset; len = io_u.xfer_buflen }

module _ (io_u : IoU) (s : State) (h : IsOneRange io_u) where
  queue_trim-one :
      (td : Thread)
      → queue_trim td io_u s
          (io_u.offset >>> s.ctrl.lba_shift)
          (io_u.xfer_buflen >>> s.ctrl.lba_shift)
        ≡ nvme_trim s (io_u.offset >>> s.ctrl.lba_shift) (io_u.xfer_buflen >>> s.ctrl.lba_shift)
  unfolding queue_trim
  queue_trim-one td = elim (Bool-cases (td.has_mrt && td.num_range != 1)) [
    | inl several ↦
        rw (several, h.one, nvme_multi_range_trim-nvme_trim s io_u.trim_ranges, h.range) refl
    | inr single ↦ rw single refl
  ]

  dispatch-one :
      (td td' : Thread)
      → dispatch td io_u s
          (io_u.offset >>> s.ctrl.lba_shift)
          (io_u.xfer_buflen >>> s.ctrl.lba_shift)
          io_u.ddir
        ≡ dispatch td' io_u s
            (io_u.offset >>> s.ctrl.lba_shift)
            (io_u.xfer_buflen >>> s.ctrl.lba_shift)
            io_u.ddir
  unfolding dispatch
  dispatch-one td td' =
      subst
        (λ x.
          dispatch td io_u s (io_u.offset >>> s.ctrl.lba_shift)
            (io_u.xfer_buflen >>> s.ctrl.lba_shift) x
          ≡ dispatch td' io_u s (io_u.offset >>> s.ctrl.lba_shift)
              (io_u.xfer_buflen >>> s.ctrl.lba_shift) x)
        (sym h.trims) (rw (queue_trim-one td, queue_trim-one td') refl)

  -- Whether fio has multi-range trims and whatever number of ranges a thread is for, `nvme_queue` of a
  -- request to trim one range that is the one the request's offset and length say has the same status
  -- and leads to the same state.
  pub nvme_queue-one_range : (td td' : Thread) → nvme_queue td io_u s ≡ nvme_queue td' io_u s
  unfolding nvme_queue
  nvme_queue-one_range td td' = rw (dispatch-one td td') refl
