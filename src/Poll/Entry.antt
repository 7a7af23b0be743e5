-- ===== src/Poll/Entry.antt =====
-- One round of `scan_loop`, by what the controller has posted.
use fioplugin.Prelude.{
  ℕ, ◌+◌, ◌*◌, ◌/◌, ◌%◌, ◌^◌, ◌≤◌, ◌<◌, ◌≡◌, ◌≢◌, refl, sym, ◌∙◌, ap, arith, ◌∷◌, ◌==◌, ◌!=◌, true,
  false, bit_and, ne→==,
}
use fioplugin.Prelude.Bits.{bit_and-mask}
use fioplugin.Prelude.Word.{u16}
use fioplugin.Machine.{Event, Log, Platform}
use fioplugin.Machine.Reads.{LooksFrom, here, next}
use fioplugin.Poll.{Scan, break, continue, accept, advance, take_entry, round}
use fioplugin.Poll.Accept.{AreExpected}
use fioplugin.Poll.Protocol.{Completion, tag, Posts, At}

-- The decoding of `psf`.
module _ (b status : ℕ) (bit : b < 2) where
  pub phase_of_psf : bit_and (b + 2 * status) 1 ≡ b
  phase_of_psf = bit_and-mask 1 (b + 2 * status) 1 refl ∙ omega arith

  sc_of_psf : status % 2 ^ 11 ≡ 0 → bit_and ((b + 2 * status) / 2 ^ 1) 0xff ≡ 0
  sc_of_psf h = bit_and-mask 8 ((b + 2 * status) / 2 ^ 1) 0xff refl ∙ omega arith

  sct_of_psf : status % 2 ^ 11 ≡ 0 → bit_and ((b + 2 * status) / 2 ^ 9) 0x7 ≡ 0
  sct_of_psf h = bit_and-mask 3 ((b + 2 * status) / 2 ^ 9) 0x7 refl ∙ omega arith

-- The branches of a round, by what the reads return.
module _ (p : Platform) (base : ℕ) (t : Scan) where
  round-break :
      u16 (p.mem t.log 2 (t.cqe + 14)) % 2 ≢ t.phase_tag
      → round p base t ≡ break (record t { log = Event.look 2 (t.cqe + 14) ∷ t.log })
  unfolding round
  round-break h =
      let psf : ℕ = u16 (p.mem t.log 2 (t.cqe + 14)) in
      let e : (bit_and psf 1 != t.phase_tag) ≡ true = ground (arith, bit_and-mask 1 psf 1 refl) in
      rw e

  pub round-take :
      (b status : ℕ)
      → b < 2
      → u16 (p.mem t.log 2 (t.cqe + 14)) ≡ b + 2 * status
      → t.phase_tag ≡ b
      → status % 2 ^ 11 ≡ 0
      → round p base t ≡ take_entry p base (record t { log = Event.look 2 (t.cqe + 14) ∷ t.log })
  unfolding round
  round-take b status bit e ph ok =
      let same : (b != t.phase_tag) ≡ false = ground arith in
      rw (e, phase_of_psf b status bit, same, sct_of_psf b status bit ok, sc_of_psf b status bit ok)

  take_entry-continue :
      (cid sqhd : ℕ)
      → u16 (p.mem t.log 2 (t.cqe + 12)) ≡ cid
      → u16 (p.mem (Event.look 2 (t.cqe + 12) ∷ t.log) 2 (t.cqe + 12)) ≡ cid
      → u16 (p.mem (Event.look 2 (t.cqe + 12) ∷ Event.look 2 (t.cqe + 12) ∷ t.log) 2 (t.cqe + 8))
        ≡ sqhd
      → t.io.cmd_io_u cid ≢ 0
      → take_entry p base t
        ≡ continue (
            advance base t.io.io_cq_depth (record t {
              io = accept t.count (t.io.cmd_io_u cid) cid sqhd t.io;
              log =
                  Event.look 2 (t.cqe + 8)
                  ∷ Event.look 2 (t.cqe + 12)
                  ∷ Event.look 2 (t.cqe + 12)
                  ∷ t.log;
            }))
  unfolding take_entry
  take_entry-continue cid sqhd e1 e2 e3 known =
      let n : (t.io.cmd_io_u cid == 0) ≡ false = ne→== _ _ known in rw (e1, e2, e3, n)

-- The log after a round that took an entry.
abbrev pub taken_log : ℕ → Log → Log
taken_log cqe log =
    Event.look 2 (cqe + 8)
    ∷ Event.look 2 (cqe + 12)
    ∷ Event.look 2 (cqe + 12)
    ∷ Event.look 2 (cqe + 14)
    ∷ log

module _ {p : Platform} {base depth : ℕ} {entry : ℕ → Completion} {posted : Log → ℕ}
    (device : Posts p base depth entry posted) where
  -- No entry: the round breaks off after one read.
  pub round-empty :
      {k : ℕ} {t : Scan}
      → At base depth k t
      → k ≡ posted t.log
      → round p base t ≡ break (record t { log = Event.look 2 (t.cqe + 14) ∷ t.log })
  round-empty {k} {t} a e = round-break p base t (λ h.
      device.empty t.log k e
        (ap (λ (x : ℕ). u16 (p.mem t.log 2 (x + 14)) % 2) (sym a.cqe) ∙ h ∙ a.phase))

  pub posted_grows : {log log' : Log} → LooksFrom log log' → posted log ≤ posted log'
  posted_grows here = omega arith
  posted_grows (next {log'} w a r) = omega (arith, posted_grows r, device.more log' w a)

  module _ {k last : ℕ} {t : Scan} (a : At base depth k t) (h : k < posted t.log)
      (room : (log : Log) → LooksFrom t.log log → posted log ≤ last) (b : last ≤ k + depth) where
    pub psf_read : u16 (p.mem t.log 2 (t.cqe + 14)) ≡ tag depth k + 2 * (entry k).status
    psf_read =
        ap (λ (x : ℕ). u16 (p.mem t.log 2 (x + 14))) a.cqe
        ∙ device.psf t.log k h (omega (arith, room t.log here))

    pub cid_read :
        (log : Log) → LooksFrom t.log log → u16 (p.mem log 2 (t.cqe + 12)) ≡ (entry k).cid
    cid_read log r =
        ap (λ (x : ℕ). u16 (p.mem log 2 (x + 12))) a.cqe
        ∙ device.cid log k (omega (arith, posted_grows r)) (omega (arith, room log r))

    sqhd_read : (log : Log) → LooksFrom t.log log → u16 (p.mem log 2 (t.cqe + 8)) ≡ (entry k).sqhd
    sqhd_read log r =
        ap (λ (x : ℕ). u16 (p.mem log 2 (x + 8))) a.cqe
        ∙ device.sqhd log k (omega (arith, posted_grows r)) (omega (arith, room log r))

    -- An entry of a command under way: the round takes it.
    pub round-entry :
        AreExpected entry t.io k last
        → round p base t
          ≡ continue (
              advance base depth (record t {
                io = accept t.count (t.io.cmd_io_u (entry k).cid) (entry k).cid (entry k).sqhd t.io;
                log = taken_log t.cqe t.log;
              }))
    round-entry e =
        let log1 : Log = Event.look 2 (t.cqe + 14) ∷ t.log in
        let from1 : LooksFrom t.log log1 = next 2 _ here in
        let from2 : LooksFrom t.log (Event.look 2 (t.cqe + 12) ∷ log1) = next 2 _ from1 in
        let inside : k < last = omega (arith, room t.log here) in
        round-take p base t (tag depth k) (entry k).status (omega arith) psf_read a.phase
          (e.success k (omega arith) inside)
        ∙ take_entry-continue p base (record t { log = log1 }) (entry k).cid (entry k).sqhd
            (cid_read log1 from1) (cid_read _ from2) (sqhd_read _ (next 2 _ from2))
            (e.known k (omega arith) inside)
        ∙ ap
            (λ (d : ℕ). continue (
              advance base d (record t {
                io = accept t.count (t.io.cmd_io_u (entry k).cid) (entry k).cid (entry k).sqhd t.io;
                log = taken_log t.cqe t.log;
              })))
            a.depth_is
