-- ===== src/Regs/Access.antt =====
-- Contracts of the register accesses.
use fioplugin.Prelude.{
  ℕ, ◌+◌, ◌≡◌, ◌≢◌, refl, ◌∙◌, false, some, ◌∷◌, bit_and, ◌==◌, ◌!=◌, ◌||◌, arith, Bool-cases, inl,
  inr,
}
use fioplugin.Prelude.Word.{u32, ◌>>>◌}
use fioplugin.Machine.{Event, Log, Platform}
use fioplugin.Nvme.{State}
use fioplugin.Call.Runs.{runs->>}
use fioplugin.Call.Meets.{Meets, meets->>=, meets-pure}
use fioplugin.Regs.{
  controller_reg_read32, controller_reg_write32, nvme_reg_read64, nvme_reg_write64,
}

-- The state after one more event.
abbrev pub logged : Event → State → State
logged e s = record s { log = e ∷ s.log }

module _ {P E : State → Type 0} where
  pub read32-Meets :
      {Q : ℕ → State → Type 0} (p : Platform) (offset : ℕ)
      → ((s : State) → P s → E s)
      → ((s : State)
          → P s
          → Q
              (u32 (p.reg s.log (s.ctrl.bar0_virt + offset)))
              (logged (Event.reg_load (s.ctrl.bar0_virt + offset)) s))
      → Meets P (controller_reg_read32 p offset) E Q
  unfolding controller_reg_read32
  read32-Meets p offset e q = record {
    run = λ s x. elim (Bool-cases (s.ctrl.bar0_virt == 0 || bit_and offset 3 != 0)) [
      | inl bad ↦ rw bad (e s x)
      | inr good ↦ rw good (q s x)
    ];
  }

  pub write32-Meets :
      {Q : State → Type 0} (offset value : ℕ)
      → ((s : State) → P s → E s)
      → ((s : State) → P s → Q (logged (Event.reg_store (s.ctrl.bar0_virt + offset) value) s))
      → Meets P (controller_reg_write32 offset value) E (λ _. Q)
  unfolding controller_reg_write32
  write32-Meets offset value e q = record {
    run = λ s x. elim (Bool-cases (s.ctrl.bar0_virt == 0 || bit_and offset 3 != 0)) [
      | inl bad ↦ rw bad (e s x)
      | inr good ↦ rw good (q s x)
    ];
  }

module _ {P E Q : State → Type 0} where
  -- `nvme_reg_read64` only adds to the log.
  pub read64-Meets :
      (p : Platform) (offset : ℕ)
      → ((s : State) (log : Log) → P s → E (record s { log = log }))
      → ((s : State) (log : Log) → P s → Q (record s { log = log }))
      → Meets P (nvme_reg_read64 p offset) E (λ _. Q)
  unfolding nvme_reg_read64
  read64-Meets p offset e q =
      meets->>=
        (read32-Meets {Q = λ _. Later} p offset (λ s x. e s s.log x) (λ s x. (s, _, x, refl)))
        (λ lo.
          meets->>= (read32-Meets {Q = λ _. Q} p _ (λ t x. failed t x) (λ t x. done t _ x))
            (λ hi. meets-pure _ (λ s x. x)))
    where
      Later : State → Type 0
      Later t = (s : State) × (log : Log) × P s × (t ≡ record s { log = log })

      failed : (t : State) → Later t → E t
      failed t (s, log, x, same) = rw same (e s log x)

      done : (t : State) (log' : Log) → Later t → Q (record t { log = log' })
      done t log' (s, log, x, same) = rw same (q s log' x)

-- A write to an aligned register of a mapped BAR0 succeeds.
module _ (offset value : ℕ) (s : State) (h : s.ctrl.bar0_virt ≢ 0) (e : bit_and offset 3 ≡ 0) where
  pub write32-runs :
      controller_reg_write32 offset value s
      ≡ (some tt, logged (Event.reg_store (s.ctrl.bar0_virt + offset) value) s)
  unfolding controller_reg_write32
  write32-runs =
      let mapped : (s.ctrl.bar0_virt == 0 || bit_and offset 3 != 0) ≡ false = ground arith in
      rw mapped

pub write64-runs :
    (offset value : ℕ) (s : State)
    → s.ctrl.bar0_virt ≢ 0
    → bit_and offset 3 ≡ 0
    → bit_and (u32 (offset + 4)) 3 ≡ 0
    → nvme_reg_write64 offset value s ≡ (
      some tt,
      logged
          (Event.reg_store (s.ctrl.bar0_virt + u32 (offset + 4)) (u32 (value >>> 32)))
          (logged (Event.reg_store (s.ctrl.bar0_virt + offset) (u32 value)) s),
    )
unfolding nvme_reg_write64
write64-runs offset value s h e e' =
    runs->> _ _ _ (write32-runs offset (u32 value) s h e)
    ∙ write32-runs (u32 (offset + 4)) (u32 (value >>> 32)) _ h e'
