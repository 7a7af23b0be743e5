-- ===== src/Call.antt =====
-- The control functions of the C code: they return `false` on an error, or a value, and change the
-- state either way. An early `return false` is a bind that stops.
use fioplugin.Prelude.{Option, none, some, Bool, true, false, if◌then◌else◌, ⊤}
use fioplugin.Nvme.{Controller, State}
pub mod Meets
pub mod Runs

abbrev pub Call : Type 0 → Type 0
Call A = State → Option A × State

infixl 5 ◌>>=◌ ◌>>◌
unfoldable pub ◌>>=◌ : {A B : Type 0} → Call A → (A → Call B) → Call B
◌>>=◌ m f s = let (r, s') = m s in elim r [ none ↦ (none, s') | some a ↦ f a s' ]

unfoldable pub ◌>>◌ : {A B : Type 0} → Call A → Call B → Call B
m >> k = m >>= λ _. k

-- The cleanup that an error branch runs before its `return false`.
unfoldable pub or_undo : {A : Type 0} → (State → State) → Call A → Call A
or_undo undo m s = let (r, s') = m s in elim r [ none ↦ (none, undo s') | some a ↦ (some a, s') ]

-- The cleanup that both ways out share.
unfoldable pub and_then : {A : Type 0} → (State → State) → Call A → Call A
and_then last m s = let (r, s') = m s in (r, last s')

unfoldable pub pure : {A : Type 0} → A → Call A
pure a s = (some a, s)

unfoldable pub modify : (State → State) → Call ⊤
modify f s = (some tt, f s)

-- `if (c) return false`
unfoldable pub fail_if : Bool → Call ⊤
fail_if c s = (if c then none else some tt, s)

unfoldable pub get : {A : Type 0} → (State → A) → Call A
get f s = (some (f s), s)
