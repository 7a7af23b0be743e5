-- ===== src/Engine/Rounds.antt =====
-- In which round `nvme_getevents` stops, and what it has done until then.
use mathlib.Core.Path.{subst}
use fioplugin.Prelude.{
  ℕ, zero, suc, ◌+◌, ◌-◌, ◌^◌, ◌≤◌, ◌<◌, ◌≡◌, refl, sym, ◌∙◌, arith, Bool, true, false, Option,
  none, some, Bool-cases, inl, inr, ◌⊎◌, ◌||◌, leb,
}
use fioplugin.Prelude.Word.{u32}
use fioplugin.Machine.{Platform}
use fioplugin.Nvme.{State}
use fioplugin.Poll.{poll_cq}
use fioplugin.Engine.{enough_events, getevents_loop}

-- `n->nr_events = 0`
abbrev pub restarted : State → State
restarted s = record s { io = record s.io { nr_events = 0 } }

-- `rounds` calls of `poll_cq` in a row, each for what is left of `max`, from `c` completions on; `none`
-- is the end of the process.
unfoldable pub polls : Platform → (max rounds c : ℕ) → State → Option (State × ℕ)
polls p max zero c s = some (s, c)
polls p max (suc rounds) c s = elim (poll_cq p s (u32 (max + 2 ^ 32 - c))) [
  | none ↦ none
  | some (s', count) ↦ polls p max rounds (c + count) s'
]

-- `n` completions are as many as a caller wants that asks for `min`, an `int`.
abbrev pub Enough : (min n : ℕ) → Type 0
Enough min n = (2 ^ 31 ≤ min) ⊎ (min ≤ n)

-- A call that made its first round as number `i`, from the state `s` with `c` completions, and ended in
-- `s'` with `n`: it has polled up to the round in which there were enough or the clock ran out, and in
-- no round before were there enough or had the clock run out.
pub record Stops (p : Platform) (timed_out : ℕ → Bool) (min max i c : ℕ) (s s' : State) (n : ℕ)
    : Type 0 where
  pub waited : ℕ
  pub polled : polls p max (suc waited) c s ≡ some (s', n)
  pub stopped : Enough min n ⊎ (timed_out (i + waited) ≡ true)
  pub not_before :
      (j : ℕ)
      → j < waited
      → (timed_out (i + j) ≡ false)
        × ((t : State) (m : ℕ) → polls p max (suc j) c s ≡ some (t, m) → (min < 2 ^ 31) × (m < min))

module _ (p : Platform) (timed_out : ℕ → Bool) (min max : ℕ) where
  -- One more round before.
  later :
      {i c taken n : ℕ} {s t s' : State}
      → poll_cq p s (u32 (max + 2 ^ 32 - c)) ≡ some (t, taken)
      → (enough_events min (c + taken) || timed_out i) ≡ false
      → Stops p timed_out min max (i + 1) (c + taken) t s' n
      → Stops p timed_out min max i c s s' n
  unfolding polls enough_events
  later {i} {c} {taken} {n} {s} {t} {s'} e more r = record {
    waited = suc r.waited;
    polled = rw (e, polls) r.polled;
    stopped =
        subst (λ (x : ℕ). Enough min n ⊎ (timed_out x ≡ true)) {x = i + 1 + r.waited}
          {y = i + suc r.waited} (omega arith) r.stopped;
    not_before = earlier;
  }
    where
      earlier :
          (j : ℕ)
          → j < suc r.waited
          → (timed_out (i + j) ≡ false)
            × ((u : State) (m : ℕ)
                → polls p max (suc j) c s ≡ some (u, m)
                → (min < 2 ^ 31) × (m < min))
      earlier zero h = (
        subst (λ (x : ℕ). timed_out x ≡ false) {x = i} {y = i + 0} (omega arith)
            (ground (arith, more)),
        λ u m polled.
            let one : ◌≡◌ {A = Option (State × ℕ)} (some (t, c + taken)) (some (u, m)) =
              sym (rw (e, polls) refl) ∙ polled in
            let same : c + taken ≡ m = cc in (ground (arith, more), ground (arith, more, same)),
      )
      earlier (suc j) h =
          let (in_time, few) = r.not_before j (omega arith) in
          (
            subst (λ (x : ℕ). timed_out x ≡ false) {x = i + 1 + j} {y = i + suc j} (omega arith)
                in_time,
            λ u m polled. few u m (sym (rw (e, polls) refl) ∙ polled),
          )

  -- The last round.
  last :
      {i c taken : ℕ} {s t : State}
      → poll_cq p s (u32 (max + 2 ^ 32 - c)) ≡ some (t, taken)
      → (enough_events min (c + taken) || timed_out i) ≡ true
      → Stops p timed_out min max i c s t (c + taken)
  unfolding polls enough_events
  last {i} {c} {taken} e stop = record {
    waited = 0;
    polled = rw (e, polls) refl;
    stopped = elim (Bool-cases (timed_out i)) [
      | inl out ↦ inr (subst (λ (x : ℕ). timed_out x ≡ true) {x = i} {y = i + 0} (omega arith) out)
      | inr in_time ↦ elim (Bool-cases (leb (2 ^ 31) min)) [
        | inl negative ↦ inl (inl (ground (arith, negative)))
        | inr natural ↦ inl (inr (ground (arith, stop, in_time, natural)))
      ]
    ];
    not_before = λ j h. absurd (omega arith);
  }

  -- When the loop returns it has made the rounds that it says.
  pub getevents_loop-Stops :
      (fuel i c : ℕ) (s s' : State) (n : ℕ)
      → getevents_loop p timed_out fuel min max i c s ≡ some (some (s', n))
      → Stops p timed_out min max i c s s' n
  unfolding getevents_loop
  getevents_loop-Stops zero i c s s' n e = absurd cc
  getevents_loop-Stops (suc fuel) i c s s' n e =
      polled (poll_cq p s (u32 (max + 2 ^ 32 - c))) refl e
        (λ t taken. getevents_loop-Stops fuel (i + 1) (c + taken) t s' n)
    where
      Rest : Type 0
      Rest =
          (t : State) (taken : ℕ)
          → getevents_loop p timed_out fuel min max (i + 1) (c + taken) t ≡ some (some (s', n))
          → Stops p timed_out min max (i + 1) (c + taken) t s' n

      chosen :
          (t : State) (taken : ℕ) (b : Bool)
          → poll_cq p s (u32 (max + 2 ^ 32 - c)) ≡ some (t, taken)
          → (enough_events min (c + taken) || timed_out i) ≡ b
          → (elim b as (λ _. Option (Option (State × ℕ))) [
            | true ↦ some (some (t, c + taken))
            | false ↦ getevents_loop p timed_out fuel min max (i + 1) (c + taken) t
          ])
            ≡ some (some (s', n))
          → Rest
          → Stops p timed_out min max i c s s' n
      chosen t taken true q stop out rest =
          let at : t ≡ s' = cc in
          let count : c + taken ≡ n = cc in
          subst (λ (x : ℕ). Stops p timed_out min max i c s s' x) count
            (subst (λ (x : State). Stops p timed_out min max i c s x (c + taken)) at (last q stop))
      chosen t taken false q more out rest = later q more (rest t taken out)

      polled :
          (r : Option (State × ℕ))
          → poll_cq p s (u32 (max + 2 ^ 32 - c)) ≡ r
          → (elim r as (λ _. Option (Option (State × ℕ))) [
            | none ↦ some none
            | some x ↦
                elim (enough_events min (c + x.1) || timed_out i)
                  as (λ _. Option (Option (State × ℕ))) [
                    | true ↦ some (some (x.0, c + x.1))
                    | false ↦ getevents_loop p timed_out fuel min max (i + 1) (c + x.1) x.0
                  ]
          ])
            ≡ some (some (s', n))
          → Rest
          → Stops p timed_out min max i c s s' n
      polled none q out rest = absurd cc
      polled (some (t, taken)) q out rest = chosen t taken _ q refl out rest
