-- ===== src/Machine/Memory.antt =====
-- The bytes that the host's stores leave in memory, read back from the log.
use native.Mathlib.Nat.{mod-add-div', pow-suc, one-le-pow, div-div-eq-div-mul, mul_comm}
use fioplugin.Prelude.{
  ℕ, zero, suc, ◌+◌, ◌-◌, ◌*◌, ◌/◌, ◌%◌, ◌^◌, ◌≤◌, ◌<◌, ◌≡◌, refl, ap, ◌∙◌, ◌⊎◌, Bool, ◌&&◌, [],
  ◌∷◌, arith, leb, if◌then◌else◌,
}
use fioplugin.Machine.{Event, Log}

-- `v >> 8 * i`
abbrev pub drop_bytes : ℕ → ℕ → ℕ
drop_bytes zero v = v
drop_bytes (suc i) v = drop_bytes i (v / 256)

-- Whether `n` bytes from `a` on hold the address `x`.
abbrev pub covers : ℕ → ℕ → ℕ → Bool
covers a n x = leb a x && leb (x + 1) (a + n)

-- The byte that the host last wrote to an address. Memory that it never wrote counts as zero.
abbrev pub byte_at : Log → ℕ → ℕ
byte_at [] x = 0
byte_at (Event.store w a v ∷ log) x =
    if covers a w x then drop_bytes (x - a) v % 256 else byte_at log x
byte_at (Event.zero_fill a n ∷ log) x = if covers a n x then 0 else byte_at log x
byte_at (_ ∷ log) x = byte_at log x

-- A number of `k` bytes, lowest first.
pub load : ℕ → Log → ℕ → ℕ
load zero log x = 0
load (suc k) log x = byte_at log x + 256 * load k log (x + 1)

drop_bytes-suc : (i v : ℕ) → drop_bytes (suc i) v ≡ drop_bytes i v / 256
drop_bytes-suc zero v = refl
drop_bytes-suc (suc i) v = drop_bytes-suc i (v / 256)

mod-byte_pos : (p v : ℕ) → 0 < p → v % (p * 256) ≡ v % 256 + 256 * (v / 256 % p)
mod-byte_pos p v h = omega (
  arith,
  mod-add-div' v (p * 256),
  mod-add-div' (v / 256) p,
  ap (λ (t : ℕ). t * p) (div-div-eq-div-mul v 256 p ∙ ap (λ (t : ℕ). v / t) (mul_comm 256 p)),
)

mod-byte : (k v : ℕ) → v % 256 ^ suc k ≡ v % 256 + 256 * (v / 256 % 256 ^ k)
mod-byte k v = rw (pow-suc 256 k) (mod-byte_pos (256 ^ k) v (one-le-pow k 256 (omega arith)))

-- Bytes inside one store come from its value.
pub load-store :
    (k w a v : ℕ) (log : Log) (x : ℕ)
    → a ≤ x
    → x + k ≤ a + w
    → load k (Event.store w a v ∷ log) x ≡ drop_bytes (x - a) v % 256 ^ k
unfolding load
load-store zero w a v log x p q = omega arith
load-store (suc k) w a v log x p q =
    let e : x + 1 - a ≡ suc (x - a) = omega arith in
    ground (
      arith,
      mod-byte k (drop_bytes (x - a) v),
      load-store k w a v log (x + 1),
      ap (λ (i : ℕ). drop_bytes i v) e,
      drop_bytes-suc (x - a) v,
    )

-- Bytes beside a store are as they were.
pub load-frame :
    (k w a v : ℕ) (log : Log) (x : ℕ)
    → (x + k ≤ a) ⊎ (a + w ≤ x)
    → load k (Event.store w a v ∷ log) x ≡ load k log x
unfolding load
load-frame zero w a v log x h = refl
load-frame (suc k) w a v log x h = ground (arith, load-frame k w a v log (x + 1))

pub load-zero_fill :
    (k a n : ℕ) (log : Log) (x : ℕ)
    → a ≤ x
    → x + k ≤ a + n
    → load k (Event.zero_fill a n ∷ log) x ≡ 0
unfolding load
load-zero_fill zero a n log x p q = refl
load-zero_fill (suc k) a n log x p q = ground (arith, load-zero_fill k a n log (x + 1))

pub zero_fill-frame :
    (k a n : ℕ) (log : Log) (x : ℕ)
    → (x + k ≤ a) ⊎ (a + n ≤ x)
    → load k (Event.zero_fill a n ∷ log) x ≡ load k log x
unfolding load
zero_fill-frame zero a n log x h = refl
zero_fill-frame (suc k) a n log x h = ground (arith, zero_fill-frame k a n log (x + 1))
