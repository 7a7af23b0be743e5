-- ===== src/Prelude/Bits.antt =====
-- Laws of `&` and `|` at every width, from the digit recursion that the native operations stand for.
use Prim.Native.Nat.{
  ℕ, zero, suc, ◌+◌, ◌*◌, ◌/◌, ◌%◌, ◌^◌, ◌≤◌, ◌<◌, min, max, bit_and, bit_or, digits,
  bit_and-bitwise, bit_or-bitwise,
}
use mathlib.Core.Path.{◌≡◌, refl, sym, ap, ap₂, ◌∙◌}
use native.Mathlib.Nat.{
  pow-suc, one-le-pow, mod-add-div', div-div-eq-div-mul, mul_comm, mul-one, div-one, mul-div_left,
}
use native.Mathlib.Omega.{arith}

module _ (z : ℕ → ℕ) (f : ℕ → ℕ → ℕ) where
  digits-zero : (k b : ℕ) → digits z f k 0 b ≡ z b
  digits-zero zero b = refl
  digits-zero (suc k) b = refl

  -- Any count of digits from the first number up gives the same result.
  digits-count : (k l a b : ℕ) → a ≤ k → a ≤ l → digits z f k a b ≡ digits z f l a b
  digits-count k l zero b p q = digits-zero k b ∙ sym (digits-zero l b)
  digits-count zero l (suc a) b p q = absurd (omega arith)
  digits-count (suc k) zero (suc a) b p q = absurd (omega arith)
  digits-count (suc k) (suc l) (suc a) b p q =
      ap (λ t. t * 2 + f (suc a % 2) (b % 2))
        (digits-count k l (suc a / 2) (b / 2) (omega arith) (omega arith))

  digits-halve :
      (a b : ℕ)
      → digits z f (suc a) (suc a) b
        ≡ digits z f (suc a / 2) (suc a / 2) (b / 2) * 2 + f (suc a % 2) (b % 2)
  digits-halve a b =
      ap (λ t. t * 2 + f (suc a % 2) (b % 2))
        (digits-count a (suc a / 2) (suc a / 2) (b / 2) (omega arith) (omega arith))

bit_and-halve : (a b : ℕ) → bit_and a b ≡ bit_and (a / 2) (b / 2) * 2 + min (a % 2) (b % 2)
bit_and-halve zero b = simp bit_and-bitwise (omega arith)
bit_and-halve (suc a) b = simp bit_and-bitwise (digits-halve (λ y. 0) min a b)

bit_or-halve : (a b : ℕ) → bit_or a b ≡ bit_or (a / 2) (b / 2) * 2 + max (a % 2) (b % 2)
bit_or-halve zero b = simp bit_or-bitwise (omega arith)
bit_or-halve (suc a) b = simp bit_or-bitwise (digits-halve (λ y. y) max a b)

half-mod_pos : (p a : ℕ) → 0 < p → a % (p * 2) ≡ a / 2 % p * 2 + a % 2
half-mod_pos p a h = omega (
  arith,
  mod-add-div' a (p * 2),
  mod-add-div' (a / 2) p,
  div-div-eq-div-mul a 2 p,
  ap (λ (t : ℕ). a / t) (mul_comm 2 p),
  ap (λ (t : ℕ). t * p) (div-div-eq-div-mul a 2 p ∙ ap (λ (t : ℕ). a / t) (mul_comm 2 p)),
)

-- Halving takes a mask of `k + 1` low bits to one of `k`.
half-mod : (k a : ℕ) → a % 2 ^ suc k ≡ a / 2 % 2 ^ k * 2 + a % 2
half-mod k a = rw (pow-suc 2 k) (half-mod_pos (2 ^ k) a (one-le-pow k 2 (omega arith)))

bit_and-zero_below : (n a : ℕ) → a ≤ n → bit_and a 0 ≡ 0
bit_and-zero_below n zero h = refl
bit_and-zero_below zero (suc a) h = absurd (omega arith)
bit_and-zero_below (suc n) (suc a) h =
    omega (arith, bit_and-halve (suc a) 0, bit_and-zero_below n (suc a / 2) (omega arith))

pub bit_and-zero : (a : ℕ) → bit_and a 0 ≡ 0
bit_and-zero a = bit_and-zero_below a a (omega arith)

bit_or-zero_below : (n a : ℕ) → a ≤ n → bit_or a 0 ≡ a
bit_or-zero_below n zero h = refl
bit_or-zero_below zero (suc a) h = absurd (omega arith)
bit_or-zero_below (suc n) (suc a) h =
    omega (arith, bit_or-halve (suc a) 0, bit_or-zero_below n (suc a / 2) (omega arith))

pub bit_or-zero : (a : ℕ) → bit_or a 0 ≡ a
bit_or-zero a = bit_or-zero_below a a (omega arith)

-- `a & (2^k - 1)` is the remainder by `2 ^ k`.
pub bit_and-mask : (k a m : ℕ) → m + 1 ≡ 2 ^ k → bit_and a m ≡ a % 2 ^ k
bit_and-mask zero a m e = let e' : m ≡ 0 = omega arith in rw e' (omega (arith, bit_and-zero a))
bit_and-mask (suc k) a m e = omega (
  arith,
  pow-suc 2 k,
  one-le-pow k 2 (omega arith),
  half-mod k a,
  bit_and-halve a m,
  bit_and-mask k (a / 2) (m / 2) (omega (arith, pow-suc 2 k, one-le-pow k 2 (omega arith))),
)

-- `(a << k) & m` keeps the low zeros: `a & ~(2^k - 1)` rounds down.
pub bit_and-shifted : (k a m : ℕ) → bit_and a (m * 2 ^ k) ≡ bit_and (a / 2 ^ k) m * 2 ^ k
bit_and-shifted zero a m = simp (mul-one, div-one)
bit_and-shifted (suc k) a m =
    let e : m * 2 ^ suc k ≡ m * 2 ^ k * 2 = omega (arith, ap (λ (t : ℕ). m * t) (pow-suc 2 k)) in
    let d : a / 2 / 2 ^ k ≡ a / 2 ^ suc k =
      div-div-eq-div-mul a 2 (2 ^ k)
      ∙ ap (λ (t : ℕ). a / t) (mul_comm 2 (2 ^ k) ∙ sym (pow-suc 2 k)) in
    rw e (
      omega (
        arith,
        bit_and-halve a (m * 2 ^ k * 2),
        ap (λ (t : ℕ). bit_and (a / 2) t) (mul-div_left (m * 2 ^ k) {n = 2} (omega arith)),
        bit_and-shifted k (a / 2) m,
        ap (λ (t : ℕ). bit_and t m * 2 ^ k) d,
        ap (λ (t : ℕ). bit_and (a / 2 ^ suc k) m * t) (pow-suc 2 k),
      ))

-- `(q << k) | r` is a sum where `r` fits `k` bits.
pub bit_or-fields : (k q r : ℕ) → r < 2 ^ k → bit_or (q * 2 ^ k) r ≡ q * 2 ^ k + r
bit_or-fields zero q r h = let e : r ≡ 0 = omega arith in rw e (bit_or-zero (q * 1) ∙ omega arith)
bit_or-fields (suc k) q r h =
    let e : q * 2 ^ suc k ≡ q * 2 ^ k * 2 = omega (arith, ap (λ (t : ℕ). q * t) (pow-suc 2 k)) in
    rw e (
      omega (
        arith,
        bit_or-halve (q * 2 ^ k * 2) r,
        ap (λ (t : ℕ). bit_or t (r / 2)) (mul-div_left (q * 2 ^ k) {n = 2} (omega arith)),
        bit_or-fields k q (r / 2) (omega (arith, pow-suc 2 k)),
      ))

bit_or_comm_below : (n a b : ℕ) → a ≤ n → b ≤ n → bit_or a b ≡ bit_or b a
bit_or_comm_below zero a b p q =
    let e : a ≡ 0 = omega arith in let d : b ≡ 0 = omega arith in rw (e, d)
bit_or_comm_below (suc n) a b p q = omega (
  arith,
  bit_or-halve a b,
  bit_or-halve b a,
  bit_or_comm_below n (a / 2) (b / 2) (omega arith) (omega arith),
)

pub bit_or_comm : (a b : ℕ) → bit_or a b ≡ bit_or b a
bit_or_comm a b = bit_or_comm_below (a + b) a b (omega arith) (omega arith)

pub bit_or-fields' : (k r q : ℕ) → r < 2 ^ k → bit_or r (q * 2 ^ k) ≡ r + q * 2 ^ k
bit_or-fields' k r q h = omega (arith, bit_or_comm r (q * 2 ^ k), bit_or-fields k q r h)

bit_or-digits :
    (x y p q : ℕ) → p < 2 → q < 2 → bit_or (x * 2 + p) (y * 2 + q) ≡ bit_or x y * 2 + max p q
bit_or-digits x y p q hp hq =
    let ex : (x * 2 + p) / 2 ≡ x = omega arith in
    let ey : (y * 2 + q) / 2 ≡ y = omega arith in
    omega (arith, bit_or-halve (x * 2 + p) (y * 2 + q), ap₂ bit_or ex ey)

half-bit_or : (a b : ℕ) → bit_or a b / 2 ≡ bit_or (a / 2) (b / 2)
half-bit_or a b = omega (arith, bit_or-halve a b)

-- The low bits of `a | b` are those of `a` and of `b`.
pub bit_or-mod : (k a b : ℕ) → bit_or a b % 2 ^ k ≡ bit_or (a % 2 ^ k) (b % 2 ^ k)
bit_or-mod zero a b =
    let p : a % 1 ≡ 0 = omega arith in let q : b % 1 ≡ 0 = omega arith in rw (p, q) (omega arith)
bit_or-mod (suc k) a b =
    rw (half-mod k a, half-mod k b, half-mod k (bit_or a b), half-bit_or a b)
      (omega (
        arith,
        bit_or-halve a b,
        bit_or-digits (a / 2 % 2 ^ k) (b / 2 % 2 ^ k) (a % 2) (b % 2) (omega arith) (omega arith),
        bit_or-mod k (a / 2) (b / 2),
      ))

le-bit_or_below : (n a b : ℕ) → a ≤ n → a ≤ bit_or a b
le-bit_or_below zero a b p = omega arith
le-bit_or_below (suc n) zero b p = omega arith
le-bit_or_below (suc n) (suc a) b p =
    omega (arith, bit_or-halve (suc a) b, le-bit_or_below n (suc a / 2) (b / 2) (omega arith))

pub le-bit_or : (a b : ℕ) → (a ≤ bit_or a b) × (b ≤ bit_or a b)
le-bit_or a b = (
  le-bit_or_below a a b (omega arith),
  omega (arith, bit_or_comm a b, le-bit_or_below b b a (omega arith)),
)

-- `(a | b) & (2^k - 1)` is zero exactly if both numbers are multiples of `2 ^ k`.
pub bit_or-aligned :
    (k a b m : ℕ) → m + 1 ≡ 2 ^ k → bit_and (bit_or a b) m ≡ 0 → (a % 2 ^ k ≡ 0) × (b % 2 ^ k ≡ 0)
bit_or-aligned k a b m e h =
    omega
      (arith, bit_and-mask k (bit_or a b) m e, bit_or-mod k a b, le-bit_or (a % 2 ^ k) (b % 2 ^ k))

pub aligned-bit_or :
    (k a b m : ℕ) → m + 1 ≡ 2 ^ k → a % 2 ^ k ≡ 0 → b % 2 ^ k ≡ 0 → bit_and (bit_or a b) m ≡ 0
aligned-bit_or k a b m e p q =
    bit_and-mask k (bit_or a b) m e ∙ bit_or-mod k a b ∙ rw (p, q) (bit_or-zero 0)
