-- ===== src/Machine/Fields.antt =====
-- A structure in memory, written field by field, and what a read of it gives.
use fioplugin.Prelude.{
  ℕ, ◌+◌, ◌-◌, ◌%◌, ◌^◌, ◌≤◌, ◌≡◌, refl, ap, ◌∙◌, ◌⊎◌, inl, inr, Bool, true, ◌&&◌, ◌||◌, Option,
  none, some, List, [], ◌∷◌, arith, leb, if◌then◌else◌, Bool-cases,
}
use fioplugin.Machine.{Event, Log}
use fioplugin.Machine.Memory.{
  load, drop_bytes, load-store, load-frame, load-zero_fill, zero_fill-frame,
}
use mathlib.Core.Path.{subst}

-- A field of `width` bytes, `at` bytes into a structure, and the value that it is given.
pub record Field : Type 0 where
  pub at : ℕ
  pub width : ℕ
  pub value : ℕ

abbrev pub field : ℕ → ℕ → ℕ → Field
field at width value = record { at = at; width = width; value = value }

-- Assignments to fields of the structure at an address, in the order of the program.
pub assign : ℕ → List Field → Log → Log
assign base [] log = log
assign base (f ∷ fs) log = assign base fs (Event.store f.width (base + f.at) f.value ∷ log)

-- What `k` bytes at an offset hold after one assignment, and after all: `none` where the fields do
-- not settle it.
abbrev pub after_field : ℕ → ℕ → Field → Option ℕ → Option ℕ
after_field k at f before =
    if leb f.at at && leb (at + k) (f.at + f.width)
    then some (drop_bytes (at - f.at) f.value % 256 ^ k)
    else if leb (at + k) f.at || leb (f.at + f.width) at
    then before
    else none

abbrev pub read_fields : List Field → ℕ → ℕ → Option ℕ → Option ℕ
read_fields [] k at before = before
read_fields (f ∷ fs) k at before = read_fields fs k at (after_field k at f before)

module _ (k base at : ℕ) where
  abbrev Holds : Log → Option ℕ → Type 0
  Holds log none = Unit {0}
  Holds log (some v) = load k log (base + at) ≡ v

  Holds-store :
      (f : Field) (log : Log) (before : Option ℕ)
      → Holds log before
      → Holds (Event.store f.width (base + f.at) f.value ∷ log) (after_field k at f before)
  Holds-store f log before h = elim (Bool-cases (leb f.at at && leb (at + k) (f.at + f.width))) [
    | inl inside ↦ rw inside (
        load-store k f.width (base + f.at) f.value log (base + at) (ground arith) (ground arith)
        ∙ ap (λ (i : ℕ). drop_bytes i f.value % 256 ^ k) {x = base + at - (base + f.at)}
            {y = at - f.at} (omega arith))
    | inr outside ↦ rw outside (elim (Bool-cases (leb (at + k) f.at || leb (f.at + f.width) at)) [
      | inl beside ↦ rw beside (frame beside before h)
      | inr across ↦ rw across tt
    ])
  ]
    where
      frame :
          (leb (at + k) f.at || leb (f.at + f.width) at) ≡ true
          → (b : Option ℕ) → Holds log b
          → Holds (Event.store f.width (base + f.at) f.value ∷ log) b
      frame beside none g = tt
      frame beside (some v) g =
          load-frame k f.width (base + f.at) f.value log (base + at) (ground arith) ∙ g

  assign-Holds :
      (fs : List Field) (log : Log) (before : Option ℕ)
      → Holds log before
      → Holds (assign base fs log) (read_fields fs k at before)
  unfolding assign
  assign-Holds [] log before h = h
  assign-Holds (f ∷ fs) log before h = assign-Holds fs _ _ (Holds-store f log before h)

-- A read of the structure gives what the last assignment to those bytes left there.
pub load-assign :
    (k base at : ℕ) (fs : List Field) (log : Log) {v : ℕ}
    → read_fields fs k at none ≡ some v
    → load k (assign base fs log) (base + at) ≡ v
load-assign k base at fs log e =
    subst (Holds k base at (assign base fs log)) e (assign-Holds k base at fs log none tt)

-- The same after a `memset` of the whole structure.
pub load-assign-zero_fill :
    (k base at n : ℕ) (fs : List Field) (log : Log) {v : ℕ}
    → at + k ≤ n
    → read_fields fs k at (some 0) ≡ some v
    → load k (assign base fs (Event.zero_fill base n ∷ log)) (base + at) ≡ v
load-assign-zero_fill k base at n fs log h e =
    subst (Holds k base at (assign base fs (Event.zero_fill base n ∷ log))) e (
      assign-Holds k base at fs _ (some 0)
        (load-zero_fill k base n log (base + at) (omega arith) (omega arith)))

-- All the fields lie in the first `n` bytes.
abbrev pub fields_within : ℕ → List Field → Bool
fields_within n [] = true
fields_within n (f ∷ fs) = leb (f.at + f.width) n && fields_within n fs

-- Assignments leave the memory outside the structure as it was.
pub assign-frame :
    (n base k x : ℕ) (fs : List Field) (log : Log)
    → fields_within n fs ≡ true
    → (x + k ≤ base) ⊎ (base + n ≤ x)
    → load k (assign base fs log) x ≡ load k log x
unfolding assign
assign-frame n base k x [] log w h = refl
assign-frame n base k x (f ∷ fs) log w h =
    assign-frame n base k x fs _ (ground arith) h
    ∙ load-frame k f.width (base + f.at) f.value log x (ground arith)

pub assign-zero_fill-frame :
    (n base k x : ℕ) (fs : List Field) (log : Log)
    → fields_within n fs ≡ true
    → (x + k ≤ base) ⊎ (base + n ≤ x)
    → load k (assign base fs (Event.zero_fill base n ∷ log)) x ≡ load k log x
assign-zero_fill-frame n base k x fs log w h =
    assign-frame n base k x fs _ w h ∙ zero_fill-frame k base n log x h
