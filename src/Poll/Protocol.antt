-- ===== src/Poll/Protocol.antt =====
-- The completion queue as the controller fills it: entry `k` of all that it ever posts stands in
-- slot `k % depth`, with a phase bit that changes from lap to lap.
use native.Mathlib.Decide.{ℕ_discrete}
use native.Mathlib.Nat.{
  mod-add-div', mod-lt, add-mul-div_right, div-eq_of_lt, div_self, add-mul-mod_self_right,
  mod-eq_of_lt, mod_self,
}
use fioplugin.Prelude.{
  ℕ, zero, suc, ◌+◌, ◌*◌, ◌/◌, ◌%◌, ◌^◌, ◌≤◌, ◌<◌, ◌≡◌, ◌≢◌, refl, sym, ◌∙◌, ap, arith, bit_xor,
  ◌∷◌, ◌==◌, true, false,
}
use fioplugin.Prelude.Word.{u16, u32}
use fioplugin.Machine.{Event, Log, Platform}
use fioplugin.Poll.{Scan, advance}

-- What a completion says. `status` is the part of `psf` above the phase bit.
pub record Completion : Type 0 where
  pub sqhd : ℕ
  pub cid : ℕ
  pub status : ℕ

-- `sc` and `sct` are 0.
abbrev pub IsSuccess : Completion → Type 0
IsSuccess e = e.status % 2 ^ 11 ≡ 0

-- The phase bit of entry `k`.
abbrev pub tag : ℕ → ℕ → ℕ
tag depth k = (k / depth + 1) % 2

abbrev pub slot_address : ℕ → ℕ → ℕ → ℕ
slot_address base depth k = base + 16 * (k % depth)

-- What a controller does that follows the NVMe specification: entry `k` can be read from the time
-- at which it is posted until its slot is used again, and the slot after the last entry shows the
-- phase of the lap before. `posted log` is how many entries there are after the events of `log`.
pub record Posts (p : Platform) (base depth : ℕ) (entry : ℕ → Completion) (posted : Log → ℕ)
    : Type 0 where
  pub psf :
      (log : Log) (k : ℕ)
      → k < posted log
      → posted log ≤ k + depth
      → u16 (p.mem log 2 (slot_address base depth k + 14)) ≡ tag depth k + 2 * (entry k).status
  pub cid :
      (log : Log) (k : ℕ)
      → k < posted log
      → posted log ≤ k + depth
      → u16 (p.mem log 2 (slot_address base depth k + 12)) ≡ (entry k).cid
  pub sqhd :
      (log : Log) (k : ℕ)
      → k < posted log
      → posted log ≤ k + depth
      → u16 (p.mem log 2 (slot_address base depth k + 8)) ≡ (entry k).sqhd
  pub empty :
      (log : Log) (k : ℕ)
      → k ≡ posted log
      → u16 (p.mem log 2 (slot_address base depth k + 14)) % 2 ≢ tag depth k
  pub more : (log : Log) (w a : ℕ) → posted log ≤ posted (Event.look w a ∷ log)

-- The loop is about to look at entry `k`.
pub record At (base depth k : ℕ) (t : Scan) : Type 0 where
  pub head : t.head ≡ k % depth
  pub cqe : t.cqe ≡ slot_address base depth k
  pub phase : t.phase_tag ≡ tag depth k
  pub depth_is : t.io.io_cq_depth ≡ depth

-- One step within a lap, and one into the next.
module _ (k d : ℕ) where
  split : k + 1 ≡ k % d + 1 + k / d * d
  split = omega (arith, mod-add-div' k d)

  within_lap : k % d + 1 < d → ((k + 1) % d ≡ k % d + 1) × ((k + 1) / d ≡ k / d)
  within_lap h = (
    rw split (add-mul-mod_self_right (k % d + 1) (k / d) d ∙ mod-eq_of_lt h),
    rw split (
        add-mul-div_right (k % d + 1) (k / d) (omega arith)
        ∙ ap (λ (t : ℕ). t + k / d) (div-eq_of_lt h)
        ∙ omega arith),
  )

  next_lap : 0 < d → k % d + 1 ≡ d → ((k + 1) % d ≡ 0) × ((k + 1) / d ≡ k / d + 1)
  next_lap pos h = (
    rw split (add-mul-mod_self_right (k % d + 1) (k / d) d ∙ ap (λ (t : ℕ). t % d) h ∙ mod_self d),
    rw split (
        add-mul-div_right (k % d + 1) (k / d) pos
        ∙ ap (λ (t : ℕ). t / d + k / d) h
        ∙ ap (λ (t : ℕ). t + k / d) (div_self pos)
        ∙ omega arith),
  )

flip_phase_bit : (b : ℕ) → b < 2 → bit_xor b 1 ≡ (b + 1) % 2
flip_phase_bit zero h = refl
flip_phase_bit (suc zero) h = refl
flip_phase_bit (suc (suc b)) h = absurd (omega arith)

flip_phase : (q : ℕ) → bit_xor ((q + 1) % 2) 1 ≡ (q + 1 + 1) % 2
flip_phase q = flip_phase_bit ((q + 1) % 2) (omega arith) ∙ omega arith

-- `advance` moves on to the next entry.
pub advance-At :
    {base depth k : ℕ} {t : Scan}
    → At base depth k t
    → 0 < depth
    → depth < 2 ^ 32
    → At base depth (k + 1) (advance base depth t)
unfolding advance
advance-At {base} {depth} {k} {t} a pos small = elim (ℕ_discrete (k % depth + 1) depth) [
  | yes wrap ↦
      let h : (u32 (t.head + 1) == depth) ≡ true = ground (arith, mod-lt k pos) in
      rw h (record {
        head = sym (next_lap k depth pos wrap).0;
        cqe = omega (arith, ap (λ (m : ℕ). 16 * m) (next_lap k depth pos wrap).0);
        phase =
            ap (λ (b : ℕ). bit_xor b 1) a.phase
            ∙ flip_phase (k / depth)
            ∙ ap (λ (q : ℕ). (q + 1) % 2) (sym (next_lap k depth pos wrap).1);
        depth_is = a.depth_is;
      })
  | no inside ↦
      let below : k % depth + 1 < depth = omega (arith, mod-lt k pos) in
      let h : (u32 (t.head + 1) == depth) ≡ false = ground arith in
      rw h (record {
        head = omega (arith, (within_lap k depth below).0);
        cqe = omega (arith, ap (λ (m : ℕ). 16 * m) (within_lap k depth below).0);
        phase = a.phase ∙ ap (λ (q : ℕ). (q + 1) % 2) (sym (within_lap k depth below).1);
        depth_is = a.depth_is;
      })
]
