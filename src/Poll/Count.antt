-- ===== src/Poll/Count.antt =====
-- How many completions `poll_cq` takes, whatever the device does.
use fioplugin.Prelude.{
  ℕ, zero, suc, ◌+◌, ◌^◌, ◌≤◌, ◌<◌, ◌≡◌, refl, sym, ◌∙◌, min, arith, false, Option, none, some,
  Bool-cases, inl, inr, ⊤, ◌==◌, ◌!=◌, ◌||◌, if◌then◌else◌, bit_and, ltb, leb,
}
use mathlib.Core.Path.{subst}
use fioplugin.Prelude.Word.{u16, u32, ◌>>>◌}
use fioplugin.Machine.{Platform}
use fioplugin.Nvme.{State}
use fioplugin.Poll.{
  Scan, Round, break, exit, continue, accept, advance, take_entry, round, scan_loop, finish,
  scan_start, poll_cq,
}

-- A round takes one completion or none, and `nr_events` waits for the end.
abbrev Counts : Scan → Round → Type 0
Counts t (break t') = (t'.count ≡ t.count) × (t'.io.nr_events ≡ t.io.nr_events)
Counts t exit = ⊤
Counts t (continue t') = (t'.count ≡ u16 (t.count + 1)) × (t'.io.nr_events ≡ t.io.nr_events)

advance-count :
    (base depth : ℕ) (t : Scan)
    → ((advance base depth t).count ≡ u16 (t.count + 1))
      × ((advance base depth t).io.nr_events ≡ t.io.nr_events)
unfolding advance
advance-count base depth t = elim (Bool-cases (u32 (t.head + 1) == depth)) [
  | inl wrap ↦ rw wrap (refl, refl)
  | inr inside ↦ rw inside (refl, refl)
]

take_entry-Counts : (p : Platform) (base : ℕ) (t : Scan) → Counts t (take_entry p base t)
unfolding take_entry accept
take_entry-Counts p base t =
    elim (Bool-cases (t.io.cmd_io_u (u16 (p.mem t.log 2 (t.cqe + 12))) == 0)) [
      | inl unknown ↦ rw (unknown, take_entry) tt
      | inr known ↦ rw (known, take_entry) (advance-count base t.io.io_cq_depth _)
    ]

round-Counts : (p : Platform) (base : ℕ) (t : Scan) → Counts t (round p base t)
unfolding round
round-Counts p base t =
    let psf : ℕ = u16 (p.mem t.log 2 (t.cqe + 14)) in
    elim (Bool-cases (bit_and psf 1 != t.phase_tag)) [
      | inl old ↦ rw (old, round) (refl, refl)
      | inr posted ↦
          elim (Bool-cases (bit_and (psf >>> 9) 0x7 != 0 || bit_and (psf >>> 1) 0xff != 0)) [
            | inl bad ↦ rw (posted, bad, round) tt
            | inr good ↦ rw (posted, good, round) (take_entry-Counts p base _)
          ]
    ]

-- What a run of the loop with `left` rounds may make of `t`.
abbrev Within : (left : ℕ) → Scan → Scan → Type 0
Within left t t' = (t'.count ≤ t.count + left) × (t'.io.nr_events ≡ t.io.nr_events)

after_round :
    (p : Platform) (base left : ℕ) (t t' : Scan)
    → t.count + suc left ≤ 65535
    → ((u : Scan) → u.count + left ≤ 65535 → scan_loop p base left u ≡ some t' → Within left u t')
    → (r : Round) → Counts t r
    → (elim r as (λ _. Option Scan) [
      | break u ↦ some u
      | exit ↦ none
      | continue u ↦ scan_loop p base left u
    ])
      ≡ some t'
    → Within (suc left) t t'
after_round p base left t t' h rec (break u) (a, b) e =
    let same : u ≡ t' = cc in rw⁻¹ same (omega arith, b)
after_round p base left t t' h rec exit c e = cc
after_round p base left t t' h rec (continue u) (a, b) e =
    let next = rec u (omega arith) e in (omega (arith, next.0), omega (arith, next.1))

scan_loop-Within :
    (p : Platform) (base left : ℕ) (t t' : Scan)
    → t.count + left ≤ 65535
    → scan_loop p base left t ≡ some t'
    → Within left t t'
unfolding scan_loop
scan_loop-Within p base zero t t' h e = let same : t ≡ t' = cc in rw⁻¹ same (omega arith, refl)
scan_loop-Within p base (suc left) t t' h e =
    after_round p base left t t' h (λ u b e'. scan_loop-Within p base left u t' b e')
      (round p base t) (round-Counts p base t) e

finish-count :
    (s : State) (t : Scan)
    → ((finish s t).1 ≡ t.count) × ((finish s t).0.io.nr_events ≡ t.io.nr_events + t.count)
unfolding finish
finish-count s t = (ground arith, ground arith)

some-inj : {A : Type 0} {a b : A} → some a ≡ some b → a ≡ b
some-inj e = cc

abbrev Result : (max : ℕ) → State → State → (c : ℕ) → Type 0
Result max s s' c = (c ≤ max) × (c ≤ 65535) × (s'.io.nr_events ≡ s.io.nr_events + c)

abbrev ended : State → Option Scan → Option (State × ℕ)
ended s none = none
ended s (some t) = some (finish s t)

pub poll_cq-zero : (p : Platform) (s : State) → poll_cq p s 0 ≡ some (s, 0)
unfolding poll_cq
poll_cq-zero p s = refl

poll_cq-ended :
    (p : Platform) (s : State) (max : ℕ)
    → 0 < max
    → max < 2 ^ 31
    → poll_cq p s max ≡ ended s (scan_loop p s.io.io_cq_virt_addr (min max 65535) (scan_start s))
unfolding poll_cq
poll_cq-ended p s max h g =
    let runs : (max == 0 || leb (2 ^ 31) max) ≡ false = ground arith in
    let bound : (if ltb 65535 max then 65535 else max) ≡ min max 65535 = ground arith in
    rw (runs, bound) (same (scan_loop p s.io.io_cq_virt_addr (min max 65535) (scan_start s)))
  where
    same :
        (r : Option Scan)
        → (elim r as (λ _. Option (State × ℕ)) [ none ↦ none | some t ↦ some (finish s t) ])
          ≡ ended s r
    same none = refl
    same (some t) = refl

ended-Result :
    (s : State) (max : ℕ) {s' : State} {c : ℕ} (r : Option Scan)
    → ((t : Scan) → r ≡ some t → Within (min max 65535) (scan_start s) t)
    → ended s r ≡ some (s', c)
    → Result max s s' c
ended-Result s max none w e = cc
ended-Result s max {s'} {c} (some t) w e =
    let done : finish s t ≡ (s', c) = cc in
    subst (λ (r : State × ℕ). Result max s r.0 r.1) done
      (
        omega (arith, (w t refl).0, (finish-count s t).0),
        omega (arith, (w t refl).0, (finish-count s t).0),
        omega (arith, (w t refl).1, (finish-count s t).0, (finish-count s t).1),
      )

-- For a limit below 2^31, on any device: if `poll_cq` does not end the process it returns at most as
-- many completions as its limit, and at most 65535, and has counted them in `nr_events`.
pub poll_cq-count :
    (p : Platform) (s : State) (max : ℕ) {s' : State} {c : ℕ}
    → max < 2 ^ 31
    → poll_cq p s max ≡ some (s', c)
    → (c ≤ max) × (c ≤ 65535) × (s'.io.nr_events ≡ s.io.nr_events + c)
poll_cq-count p s zero {s'} {c} small e =
    let nothing : (s, 0) ≡ (s', c) = some-inj (sym (poll_cq-zero p s) ∙ e) in
    subst (λ (r : State × ℕ). Result 0 s r.0 r.1) nothing (omega arith, omega arith, omega arith)
poll_cq-count p s (suc m) small e =
    ended-Result s (suc m) _
      (λ t h.
        scan_loop-Within p s.io.io_cq_virt_addr (min (suc m) 65535) (scan_start s) t (omega arith)
          h)
      (sym (poll_cq-ended p s (suc m) (omega arith) small) ∙ e)
