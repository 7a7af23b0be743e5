-- ===== src/Identify/Read.antt =====
-- What `nvme_get_file_size` reads off the identify data.
use fioplugin.Prelude.{
  ℕ, ◌+◌, ◌*◌, ◌%◌, ◌^◌, ◌<◌, ◌≡◌, refl, ◌∙◌, arith, bit_and, ◌∷◌, leb, Bool-cases, inl, inr, ⊤,
}
use fioplugin.Prelude.Bits.{bit_and-mask}
use fioplugin.Machine.{Event, Log, Platform}
use fioplugin.Nvme.{State}
use fioplugin.Call.{◌>>=◌, ◌>>◌, fail_if, modify, pure}
use fioplugin.Call.Meets.{Ends}
use fioplugin.Identify.{look_byte, load_le64, read_identify}

-- What the identify data at an address say from a log on, one read after the other: NSZE, the format
-- in use of FLBAS, and LBADS of this format.
module _ (p : Platform) (page : ℕ) (log : Log) where
  abbrev pub after_nsze : Log
  after_nsze = Event.look 8 page ∷ log

  abbrev pub after_flbas : Log
  after_flbas = Event.look 1 (page + 26) ∷ after_nsze

  abbrev pub nsze : ℕ
  nsze = p.mem log 8 page % 2 ^ 64

  abbrev pub format : ℕ
  format = p.mem after_nsze 1 (page + 26) % 16

  abbrev pub lbads : ℕ
  lbads = p.mem after_flbas 1 (page + 128 + 4 * format + 2) % 2 ^ 8

  abbrev pub after_lbads : Log
  after_lbads = Event.look 1 (page + 128 + 4 * format + 2) ∷ after_flbas

-- The size and the state that were read off the data at `page` after `log`.
pub record WasRead (p : Platform) (page : ℕ) (log : Log) (size : ℕ) (s : State) : Type 0 where
  pub in_range : lbads p page log < 64
  pub size_is : size ≡ nsze p page log * 2 ^ lbads p page log % 2 ^ 64
  pub ctrl_size : s.ctrl.size ≡ size
  pub lba_shift : s.ctrl.lba_shift ≡ lbads p page log
  pub log_is : s.log ≡ after_lbads p page log

module _ (p : Platform) (page : ℕ) where
  format_lem :
      (log : Log)
      → bit_and (p.mem (after_nsze p page log) 1 (page + 26) % 2 ^ 8) 0xf ≡ format p page log
  format_lem log =
      bit_and-mask 4 (p.mem (after_nsze p page log) 1 (page + 26) % 2 ^ 8) 15 refl ∙ omega arith

  pub read_identify-WasRead :
      (s : State) → Ends (λ _. ⊤) (WasRead p page s.log) (read_identify p page s)
  unfolding read_identify look_byte load_le64 ◌>>=◌ ◌>>◌ fail_if modify pure
  read_identify-WasRead s =
      let at_page : page + 0 ≡ page = omega arith in
      let at_lbads : page + (128 + 4 * format p page s.log) + 2
          ≡ page + 128 + 4 * format p page s.log + 2 =
        omega arith in
      rw (at_page, format_lem s.log, at_lbads)
        (elim (Bool-cases (leb 64 (lbads p page s.log))) [
          | inl large ↦ rw (large, fail_if) tt
          | inr small ↦
              rw (small, fail_if)
                (record {
                  in_range = ground arith;
                  size_is = refl;
                  ctrl_size = refl;
                  lba_shift = refl;
                  log_is = refl;
                })
        ])
