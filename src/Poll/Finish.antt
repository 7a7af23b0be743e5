-- ===== src/Poll/Finish.antt =====
-- What a call of `poll_cq` leaves, and the parts of its end.
use fioplugin.Prelude.{
  Bool-cases, ℕ, ◌+◌, ◌%◌, ◌≤◌, ◌<◌, ◌≡◌, ◌≢◌, refl, suc, arith, ◌∷◌, ◌!=◌, if◌then◌else◌, ◌⊎◌, inl,
  inr, min,
}
use fioplugin.Machine.{Event, Log}
use fioplugin.Machine.Reads.{LooksFrom}
use fioplugin.Nvme.{NvmeData, State}
use fioplugin.Poll.{Scan, finish}
use fioplugin.Poll.Protocol.{Completion, tag}

-- The data of a thread, with the fields that completions move taken from other data.
abbrev pub with_completions : NvmeData → NvmeData → NvmeData
with_completions n n' = record n {
  events = n'.events;
  cmd_io_u = n'.cmd_io_u;
  io_sq_head = n'.io_sq_head;
  ic_cq_head = n'.ic_cq_head;
  io_cq_pahse = n'.io_cq_pahse;
  nr_events = n'.nr_events;
}

-- What a call that took `taken` completions from `k` on leaves, `max` being its limit.
pub record Polled (s : State) (entry : ℕ → Completion) (posted : Log → ℕ) (k last max : ℕ)
    (taken : ℕ) (s' : State) : Type 0 where
  pub in_max : taken ≤ max
  pub in_posted : k + taken ≤ last
  pub head : s'.io.ic_cq_head ≡ (k + taken) % s.io.io_cq_depth
  pub phase : s'.io.io_cq_pahse ≡ tag s.io.io_cq_depth (k + taken)
  pub nr_events : s'.io.nr_events ≡ s.io.nr_events + taken
  pub events :
      (j : ℕ) → j < taken → s'.io.events (s.io.nr_events + j) ≡ s.io.cmd_io_u (entry (k + j)).cid
  pub cleared : (j : ℕ) → j < taken → s'.io.cmd_io_u (entry (k + j)).cid ≡ 0
  pub others :
      (x : ℕ)
      → ((j : ℕ) → k ≤ j → j < k + taken → (entry j).cid ≢ x)
      → s'.io.cmd_io_u x ≡ s.io.cmd_io_u x
  pub earlier : (x : ℕ) → x < s.io.nr_events → s'.io.events x ≡ s.io.events x
  pub sq_head : (j : ℕ) → taken ≡ suc j → s'.io.io_sq_head ≡ (entry (k + j)).sqhd
  pub sq_head_kept : taken ≡ 0 → s'.io.io_sq_head ≡ s.io.io_sq_head
  pub rest : s'.io ≡ with_completions s.io s'.io
  pub ctrl : s'.ctrl ≡ s.ctrl
  pub stops :
      (taken ≡ min max 65535) ⊎ ((log : Log) × LooksFrom s.log log × (posted log ≡ k + taken))
  pub doorbell :
      (log : Log) × LooksFrom s.log log
      × (k + taken ≤ posted log)
      × (s'.log ≡ (
          if taken != 0
          then Event.reg_store
              (s.ctrl.bar0_virt + s.io.io_cq_head_db)
              ((k + taken) % s.io.io_cq_depth)
            ∷ log
          else log))

-- The parts of `finish`.
module _ (s : State) (t : Scan) where
  pub finish-count : (finish s t).1 ≡ t.count
  unfolding finish
  finish-count = ground arith

  pub finish-io :
      ((finish s t).0.io.events ≡ t.io.events)
      × ((finish s t).0.io.cmd_io_u ≡ t.io.cmd_io_u)
      × ((finish s t).0.ctrl ≡ s.ctrl)
  unfolding finish
  finish-io = elim (Bool-cases (t.count != 0)) [
    | inl h ↦ rw (h, finish) (refl, refl, refl)
    | inr h ↦ rw (h, finish) (refl, refl, refl)
  ]

  pub finish-sq_head : (finish s t).0.io.io_sq_head ≡ t.io.io_sq_head
  unfolding finish
  finish-sq_head = ground arith

  pub finish-rest : (finish s t).0.io ≡ record t.io {
    ic_cq_head = (finish s t).0.io.ic_cq_head;
    io_cq_pahse = (finish s t).0.io.io_cq_pahse;
    nr_events = (finish s t).0.io.nr_events;
  }
  unfolding finish
  finish-rest = elim (Bool-cases (t.count != 0)) [
    | inl h ↦ rw (h, finish) refl
    | inr h ↦ rw (h, finish) refl
  ]

  pub finish-head :
      (t.count ≡ 0 → t.io.ic_cq_head ≡ t.head)
      → (t.count ≡ 0 → t.io.io_cq_pahse ≡ t.phase_tag)
      → ((finish s t).0.io.ic_cq_head ≡ t.head)
        × ((finish s t).0.io.io_cq_pahse ≡ t.phase_tag)
        × ((finish s t).0.io.nr_events ≡ t.io.nr_events + t.count)
  unfolding finish
  finish-head p q = ground arith

  pub finish-log : (finish s t).0.log ≡ (
      if t.count != 0
      then Event.reg_store (s.ctrl.bar0_virt + s.io.io_cq_head_db) t.head ∷ t.log
      else t.log)
  unfolding finish
  finish-log = ground arith
