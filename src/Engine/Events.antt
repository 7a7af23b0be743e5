-- ===== src/Engine/Events.antt =====
-- What `nvme_getevents` returns.
use mathlib.Core.Path.{subst}
use fioplugin.Prelude.{
  ℕ, zero, suc, ◌+◌, ◌-◌, ◌^◌, ◌≤◌, ◌<◌, ◌≡◌, refl, arith, Bool, true, false, Option, none, some,
  inl, inr, ◌⊎◌, ◌||◌,
}
use fioplugin.Prelude.Word.{u32}
use fioplugin.Machine.{Platform}
use fioplugin.Nvme.{State}
use fioplugin.Poll.{poll_cq}
use fioplugin.Poll.Count.{poll_cq-count}
use fioplugin.Engine.{enough_events, getevents_loop, nvme_getevents}
use fioplugin.Engine.Rounds.{Stops, getevents_loop-Stops, restarted}

-- `n` events are in `events`, at most `max`.
pub record Delivered (max : ℕ) (s' : State) (n : ℕ) : Type 0 where
  pub in_max : n ≤ max
  pub counted : s'.io.nr_events ≡ n

-- The process ended in `poll_cq`, or the call returned when it had to stop.
abbrev pub Returned :
    Platform → (timed_out : ℕ → Bool) → (min max : ℕ) → State → Option (Option (State × ℕ)) → Type 0
Returned p timed_out min max s r =
    (r ≡ some none)
    ⊎ ((s' : State) × (n : ℕ) × (r ≡ some (some (s', n)))
        × Delivered max s' n
        × Stops p timed_out min max 0 0 (restarted s) s' n)

no_timeout : (a b : Bool) → (a || b) ≡ false → b ≡ false
no_timeout true b e = cc
no_timeout false b e = e

module _ (p : Platform) (timed_out : ℕ → Bool) (min max : ℕ) (small : max < 2 ^ 31) (k : ℕ) where
  abbrev Goal : Option (Option (State × ℕ)) → Type 0
  Goal none = timed_out k ≡ false
  Goal (some none) = Unit
  Goal (some (some (s', n))) = Delivered max s' n

  loop-Delivered :
      (fuel i c : ℕ) (s : State)
      → c ≤ max
      → s.io.nr_events ≡ c
      → i + fuel ≡ suc k
      → (i ≡ suc k → timed_out k ≡ false)
      → Goal (getevents_loop p timed_out fuel min max i c s)
  unfolding getevents_loop
  loop-Delivered zero i c s h e f g = g (omega arith)
  loop-Delivered (suc fuel) i c s h e f g =
      polled (λ d s' a b q. loop-Delivered fuel (i + 1) d s' a b (omega arith) q)
        (poll_cq p s (u32 (max + 2 ^ 32 - c))) refl
    where
      Again : Type 0
      Again =
          (d : ℕ) (s' : State)
          → d ≤ max
          → s'.io.nr_events ≡ d
          → (i + 1 ≡ suc k → timed_out k ≡ false)
          → Goal (getevents_loop p timed_out fuel min max (i + 1) d s')

      room : u32 (max + 2 ^ 32 - c) ≡ max - c
      room = omega arith

      stop :
          Again
          → (s' : State) (taken : ℕ) (b : Bool) → (enough_events min (c + taken) || timed_out i) ≡ b
          → c + taken ≤ max
          → s'.io.nr_events ≡ c + taken
          → Goal (elim b as (λ _. Option (Option (State × ℕ))) [
            | true ↦ some (some (s', c + taken))
            | false ↦ getevents_loop p timed_out fuel min max (i + 1) (c + taken) s'
          ])
      stop again s' taken true b a g = record { in_max = a; counted = g }
      stop again s' taken false b a g = again (c + taken) s' a g (λ last.
          (subst (λ (j : ℕ). timed_out j ≡ false) {x = i} {y = k} (omega arith) (no_timeout _ _ b)))

      polled :
          Again
          → (r : Option (State × ℕ)) → poll_cq p s (u32 (max + 2 ^ 32 - c)) ≡ r
          → Goal (elim r as (λ _. Option (Option (State × ℕ))) [
            | none ↦ some none
            | some x ↦
                elim (enough_events min (c + x.1) || timed_out i)
                  as (λ _. Option (Option (State × ℕ))) [
                    | true ↦ some (some (x.0, c + x.1))
                    | false ↦ getevents_loop p timed_out fuel min max (i + 1) (c + x.1) x.0
                  ]
          ])
      polled again none q = tt
      polled again (some (s', taken)) q =
          let counts = poll_cq-count p s (u32 (max + 2 ^ 32 - c)) (omega arith) q in
          stop again s' taken _ refl (omega (arith, counts.0, room)) (omega (arith, counts.2))

  returned :
      (s : State) (r : Option (Option (State × ℕ)))
      → timed_out k ≡ true
      → Goal r
      → ((s' : State) (n : ℕ)
          → r ≡ some (some (s', n))
          → Stops p timed_out min max 0 0 (restarted s) s' n)
      → Returned p timed_out min max s r
  returned s none late g stops = cc
  returned s (some none) late g stops = inl refl
  returned s (some (some (s', n))) late g stops = inr (s', n, refl, g, stops s' n refl)

  -- For a limit below 2^31, on any device, with a clock that runs out in round `k`:
  -- `nvme_getevents` needs at most `k + 1` rounds. Unless the process ends it returns at most `max`
  -- events, which are those that it counts in `nr_events`, and are what its polls took up to the
  -- first round in which there were at least `min`, `min` being an `int`, or the clock ran out.
  pub nvme_getevents-Returned :
      (s : State)
      → timed_out k ≡ true
      → Returned p timed_out min max s (nvme_getevents p timed_out (suc k) min max s)
  unfolding nvme_getevents
  nvme_getevents-Returned s late =
      returned s _ late
        (loop-Delivered (suc k) 0 0 (restarted s) (omega arith) refl (omega arith)
          (λ z. absurd (omega arith)))
        (λ s' n e. getevents_loop-Stops p timed_out min max (suc k) 0 0 (restarted s) s' n e)
