-- ===== src/Init/Ready.antt =====
-- What `wait_ready` saw.
use fioplugin.Prelude.{
  ℕ, zero, suc, ◌+◌, ◌≡◌, ◌≢◌, refl, arith, Bool, false, Option, some, ◌∷◌, bit_and, ◌==◌, ◌!=◌,
  ◌||◌, if◌then◌else◌, Bool-cases, ⊤, inl, inr,
}
use fioplugin.Prelude.Word.{u32}
use fioplugin.Machine.{Event, Log, Platform}
use fioplugin.Nvme.{State}
use fioplugin.Call.Meets.{Ends}
use fioplugin.Regs.{controller_reg_read32, reg_csts}
use fioplugin.Call.{◌>>◌, ◌>>=◌, modify}
use fioplugin.Init.{wait_ready, check_csts, invalid32}

abbrev pub wanted : Bool → ℕ
wanted ready = if ready then 1 else 0

-- The second log is the first after reads of CSTS and sleeps.
pub data Waits (csts : ℕ) (log : Log) : Log → Type 0 where
  start_wait : Waits csts log log
  load : {log' : Log} → Waits csts log log' → Waits csts log (Event.reg_load csts ∷ log')
  pause : {log' : Log} → Waits csts log log' → Waits csts log (Event.sleep ∷ log')

-- The last event was a read of CSTS, and what it gave is a register with the wanted bit.
pub record SawReady (p : Platform) (ready : Bool) (s : State) : Type 0 where
  pub before : Log
  pub log : s.log ≡ Event.reg_load (s.ctrl.bar0_virt + reg_csts) ∷ before
  pub valid : u32 (p.reg before (s.ctrl.bar0_virt + reg_csts)) ≢ invalid32
  pub ready_bit : bit_and (u32 (p.reg before (s.ctrl.bar0_virt + reg_csts))) 1 ≡ wanted ready

read_csts :
    (p : Platform) (s : State)
    → s.ctrl.bar0_virt ≢ 0
    → controller_reg_read32 p reg_csts s ≡ (
      some (u32 (p.reg s.log (s.ctrl.bar0_virt + reg_csts))),
      record s { log = Event.reg_load (s.ctrl.bar0_virt + reg_csts) ∷ s.log },
    )
unfolding controller_reg_read32
read_csts p s h =
    let mapped : (s.ctrl.bar0_virt == 0 || bit_and 28 3 != 0) ≡ false = ground arith in rw mapped

-- `s'` is `s` after waiting.
abbrev pub Waited : State → State → Type 0
Waited s s' = (s'.ctrl ≡ s.ctrl) × (s'.io ≡ s.io) × Waits (s.ctrl.bar0_virt + reg_csts) s.log s'.log

-- Each way out of a round.
module _ (p : Platform) (ready : Bool) (s0 : State) where
  abbrev Out : Option ⊤ × State → Type 0
  Out = Ends (Waited s0) (λ _ s'. Waited s0 s' × SawReady p ready s')

  wait_ready-from :
      (left : ℕ) (log : Log)
      → s0.ctrl.bar0_virt ≢ 0
      → Waits (s0.ctrl.bar0_virt + reg_csts) s0.log log
      → Out (wait_ready p ready left (record s0 { log = log }))
  unfolding wait_ready check_csts modify ◌>>◌ ◌>>=◌
  wait_ready-from zero log h w = (refl, refl, w)
  wait_ready-from (suc left) log h w =
      let csts : ℕ = u32 (p.reg log (s0.ctrl.bar0_virt + reg_csts)) in
      rw (read_csts p (record s0 { log = log }) h, wait_ready)
        (elim (Bool-cases (csts == invalid32)) [
          | inl bad ↦ rw bad (refl, refl, load w)
          | inr valid ↦ elim (Bool-cases (bit_and csts 1 == wanted ready)) [
            | inl now ↦
                rw (valid, now)
                  (
                    (refl, refl, load w),
                    record {
                      before = log;
                      log = refl;
                      valid = ground arith;
                      ready_bit = ground arith;
                    },
                  )
            | inr later ↦ rw (valid, later) (wait_ready-from left _ h (pause (load w)))
          ]
        ])

-- `wait_ready` only reads CSTS and sleeps, and if it succeeds its last read showed the bit.
pub wait_ready-Out :
    (p : Platform) (ready : Bool) (left : ℕ) (s : State)
    → s.ctrl.bar0_virt ≢ 0
    → Ends (Waited s) (λ _ s'. Waited s s' × SawReady p ready s') (wait_ready p ready left s)
wait_ready-Out p ready left s h = wait_ready-from p ready s left s.log h start_wait
