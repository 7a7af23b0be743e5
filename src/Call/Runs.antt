-- ===== src/Call/Runs.antt =====
-- Runs of calls that succeed.
use fioplugin.Prelude.{Option, none, some, ◌≡◌, refl, ap}
use fioplugin.Nvme.{State}
use fioplugin.Call.{Call, ◌>>=◌, ◌>>◌, get}

module _ {A B : Type 0} {s' : State} {a : A} (m : Call A) where
  pub runs->>= : (f : A → Call B) (s : State) → m s ≡ (some a, s') → (m >>= f) s ≡ f a s'
  unfolding ◌>>=◌
  runs->>= f s e =
      ap
        (λ (r : Option A × State). elim r.0 as (λ _. Option B × State) [
          | none ↦ (none, r.1)
          | some b ↦ f b r.1
        ])
        e

  pub runs->> : (k : Call B) (s : State) → m s ≡ (some a, s') → (m >> k) s ≡ k s'
  unfolding ◌>>◌
  runs->> k s e = runs->>= (λ _. k) s e

pub runs-get : {A : Type 0} (f : State → A) (s : State) → get f s ≡ (some (f s), s)
unfolding get
runs-get f s = refl
