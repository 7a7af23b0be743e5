-- ===== src/Call/Meets.antt =====
-- Contracts of calls: from a state with `P` a call fails with `E` or succeeds with `Q`.
use fioplugin.Prelude.{Option, none, some, Bool, true, false, ◌≡◌, refl}
use fioplugin.Nvme.{State}
use fioplugin.Call.{Call, ◌>>=◌, ◌>>◌, or_undo, fail_if, get, modify, pure}

abbrev pub Ends :
    {A : Type 0} → (E : State → Type 0) → (Q : A → State → Type 0) → Option A × State → Type 0
Ends E Q (none, s) = E s
Ends E Q (some a, s) = Q a s

pub record Meets {A : Type 0} (P : State → Type 0) (m : Call A) (E : State → Type 0)
    (Q : A → State → Type 0) : Type 0 where
  pub run : (s : State) → P s → Ends E Q (m s)

module _ {A B : Type 0} {P E : State → Type 0} {Q : A → State → Type 0}
    {R : B → State → Type 0} where
  pub meets->>= :
      {m : Call A} {f : A → Call B}
      → Meets P m E Q
      → ((a : A) → Meets (Q a) (f a) E R)
      → Meets P (m >>= f) E R
  unfolding ◌>>=◌
  meets->>= {m} {f} h g = record { run = λ s p. bound (m s) (h.run s p) }
    where
      bound :
          (r : Option A × State)
          → Ends E Q r
          → Ends E R (elim r.0 [ none ↦ (none, r.1) | some a ↦ f a r.1 ])
      bound (none, s) q = q
      bound (some a, s) q = (g a).run s q

module _ {A B : Type 0} {P E : State → Type 0} {Q : State → Type 0} {R : B → State → Type 0} where
  pub meets->> :
      {m : Call A} {k : Call B} → Meets P m E (λ _. Q) → Meets Q k E R → Meets P (m >> k) E R
  unfolding ◌>>◌
  meets->> h g = meets->>= h (λ _. g)

module _ {A : Type 0} {P E F : State → Type 0} {Q : A → State → Type 0} where
  pub meets-or_undo :
      (undo : State → State) {m : Call A}
      → Meets P m E Q
      → ((s : State) → E s → F (undo s))
      → Meets P (or_undo undo m) F Q
  unfolding or_undo
  meets-or_undo undo {m} h u = record { run = λ s p. undone (m s) (h.run s p) }
    where
      undone :
          (r : Option A × State)
          → Ends E Q r
          → Ends F Q (elim r.0 [ none ↦ (none, undo r.1) | some a ↦ (some a, r.1) ])
      undone (none, s) q = u s q
      undone (some a, s) q = q

module _ {P : State → Type 0} where
  pub meets-fail_if :
      {E : State → Type 0} {Q : State → Type 0} (c : Bool)
      → ((s : State) → P s → E s)
      → ((s : State) → P s → c ≡ false → Q s)
      → Meets P (fail_if c) E (λ _. Q)
  unfolding fail_if
  meets-fail_if true e q = record { run = e }
  meets-fail_if false e q = record { run = λ s p. q s p refl }

  pub meets-get :
      {A : Type 0} {E : State → Type 0} (f : State → A) → Meets P (get f) E (λ a s. P s × (f s ≡ a))
  unfolding get
  meets-get f = record { run = λ s p. (p, refl) }

  pub meets-modify :
      {E Q : State → Type 0} (f : State → State)
      → ((s : State) → P s → Q (f s))
      → Meets P (modify f) E (λ _. Q)
  unfolding modify
  meets-modify f h = record { run = h }

  pub meets-pure :
      {A : Type 0} {E : State → Type 0} {Q : A → State → Type 0} (a : A)
      → ((s : State) → P s → Q a s)
      → Meets P (pure a) E Q
  unfolding pure
  meets-pure a h = record { run = h }

module _ {A : Type 0} {P P' E E' : State → Type 0} {Q Q' : A → State → Type 0} where
  pub meets-weaken :
      {m : Call A}
      → Meets P m E Q
      → ((s : State) → P' s → P s)
      → ((s : State) → E s → E' s)
      → ((a : A) (s : State) → Q a s → Q' a s)
      → Meets P' m E' Q'
  meets-weaken {m} h p e q = record { run = λ s x. weaker (m s) (h.run s (p s x)) }
    where
      weaker : (r : Option A × State) → Ends E Q r → Ends E' Q' r
      weaker (none, s) z = e s z
      weaker (some a, s) z = q a s z
