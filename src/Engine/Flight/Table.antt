-- ===== src/Engine/Flight/Table.antt =====
-- How the number of places that hold a request changes.
use native.Mathlib.Decide.{ℕ_discrete}
use fioplugin.Prelude.{
  ℕ, zero, suc, ◌+◌, ◌≤◌, ◌<◌, ◌≡◌, ◌≢◌, refl, sym, ◌∙◌, ap, arith, ne→==, eq→==, update, List, [],
  ◌∷◌, ◌++◌,
}
use fioplugin.Engine.Flight.{one_if, count, holds}

module _ (x : ℕ) where
  pub count-append : (xs ys : List ℕ) → count x (xs ++ ys) ≡ count x xs + count x ys
  count-append [] ys = omega arith
  count-append (y ∷ xs) ys = omega (arith, count-append xs ys)

  -- A write outside of the first `n` places.
  holds-update_out : (f : ℕ → ℕ) (n c v : ℕ) → n ≤ c → holds x (update f c v) n ≡ holds x f n
  unfolding holds
  holds-update_out f zero c v h = refl
  holds-update_out f (suc n) c v h =
      rw (ne→== n c (omega arith))
        (ap (λ (r : ℕ). one_if x (f n) + r) (holds-update_out f n c v (omega arith)))

  -- A write among them.
  pub holds-update :
      (f : ℕ → ℕ) (n c v : ℕ)
      → c < n
      → holds x (update f c v) n + one_if x (f c) ≡ holds x f n + one_if x v
  unfolding holds
  holds-update f zero c v h = absurd (omega arith)
  holds-update f (suc n) c v h = elim (ℕ_discrete n c) [
    | yes here ↦
        rw (eq→== n c here) (
          omega
            (arith, holds-update_out f n c v (omega arith), ap (λ (i : ℕ). one_if x (f i)) here))
    | no elsewhere ↦ rw (ne→== n c elsewhere) (omega (arith, holds-update f n c v (omega arith)))
  ]

  pub holds-same : (f g : ℕ → ℕ) (n : ℕ) → ((c : ℕ) → f c ≡ g c) → holds x f n ≡ holds x g n
  unfolding holds
  holds-same f g zero h = refl
  holds-same f g (suc n) h = omega (arith, holds-same f g n h, ap (one_if x) (h n))

  -- `f` at `n` places.
  abbrev pub total : (f : ℕ → ℕ) → (place : ℕ → ℕ) → (n : ℕ) → ℕ
  total f place zero = 0
  total f place (suc n) = one_if x (f (place n)) + total f place n

  -- Where `n` different places are cleared and all else stays, what they held is missing.
  pub holds-cleared :
      (f f' : ℕ → ℕ) (place : ℕ → ℕ) (size n : ℕ)
      → x ≢ 0
      → ((j : ℕ) → j < n → place j < size)
      → ((i j : ℕ) → i < j → j < n → place i ≢ place j)
      → ((j : ℕ) → j < n → f' (place j) ≡ 0)
      → ((c : ℕ) → ((j : ℕ) → j < n → place j ≢ c) → f' c ≡ f c)
      → holds x f size ≡ total f place n + holds x f' size
  holds-cleared f f' place size zero nz b d z o =
      omega (arith, holds-same f f' size (λ c. sym (o c (λ j h. absurd (omega arith)))))
  holds-cleared f f' place size (suc n) nz b d z o =
      let g : ℕ → ℕ = update f' (place n) (f (place n)) in
      let before : holds x f size ≡ total f place n + holds x g size =
        holds-cleared f g place size n nz (λ j h. b j (omega arith))
          (λ i j p q. d i j p (omega arith))
          (λ j h. rw (ne→== (place j) (place n) (d j n h (omega arith))) (z j (omega arith)))
          (λ c h. restored c h) in
      let nothing : one_if x (f' (place n)) ≡ 0 =
        ap (one_if x) (z n (omega arith)) ∙ rw (ne→== 0 x (λ e. nz (sym e))) in
      omega
        (arith, before, nothing, holds-update f' size (place n) (f (place n)) (b n (omega arith)))
    where
      restored :
          (c : ℕ) → ((j : ℕ) → j < n → place j ≢ c) → update f' (place n) (f (place n)) c ≡ f c
      restored c h = elim (ℕ_discrete c (place n)) [
        | yes here ↦ rw (eq→== c (place n) here) (ap f (sym here))
        | no elsewhere ↦ rw (ne→== c (place n) elsewhere) (o c (λ j q. other c j h elsewhere q))
      ]
        where
          other :
              (c j : ℕ) → ((i : ℕ) → i < n → place i ≢ c) → c ≢ place n → j < suc n → place j ≢ c
          other c j h elsewhere q = elim (ℕ_discrete j n) [
            | yes last ↦ λ e. elsewhere (sym e ∙ ap place last)
            | no before ↦ h j (omega arith)
          ]

  pub holds_first : (f : ℕ → ℕ) → holds x f 0 ≡ 0
  unfolding holds
  holds_first f = refl

  -- Places that hold nothing do not count.
  pub holds_beyond :
      (f : ℕ → ℕ) (k n : ℕ)
      → x ≢ 0
      → ((c : ℕ) → k ≤ c → f c ≡ 0)
      → k ≤ n
      → holds x f n ≡ holds x f k
  unfolding holds
  holds_beyond f k zero nz z h = ap (holds x f) {x = 0} {y = k} (omega arith)
  holds_beyond f k (suc n) nz z h = elim (ℕ_discrete k (suc n)) [
    | yes all ↦ ap (holds x f) {x = suc n} {y = k} (sym all)
    | no less ↦
        let nothing : one_if x (f n) ≡ 0 =
          ap (one_if x) (z n (omega arith)) ∙ rw (ne→== 0 x (λ e. nz (sym e))) in
        omega (arith, nothing, holds_beyond f k n nz z (omega arith))
  ]
