-- ===== src/Prelude/Options.antt =====
-- Nullable values, with the operators that the source applies to them.
use asset_it.Prelude.Tests.{◌==◌}
use Prim.Native.Nat.{ℕ}
use mathlib.Core.Bool.{Bool, true, false}
use mathlib.Core.Option.{Option, none, some}

module _ {ℓ} {A : Type ℓ} where
  -- `Boolean(value)` on a nullable identifier
  abbrev pub is_some : Option A → Bool
  is_some none = false
  is_some (some a) = true

  -- `value || fallback`
  abbrev pub get_or : Option A → A → A
  get_or none d = d
  get_or (some a) d = a

  abbrev pub or_else : Option A → Option A → Option A
  or_else none d = d
  or_else (some a) d = some a

  -- `value?.f`
  abbrev pub option_map {κ} : {B : Type κ} → (A → B) → Option A → Option B
  option_map f none = none
  option_map f (some a) = some (f a)

  abbrev pub option_bind {κ} : {B : Type κ} → Option A → (A → Option B) → Option B
  option_bind none f = none
  option_bind (some a) f = f a

  -- the value, if it passes a test: the `where` of a query on one row
  abbrev pub only_if : (A → Bool) → Option A → Option A
  only_if p none = none
  only_if p (some a) = elim (p a) [ true ↦ some a | false ↦ none ]

-- `a === b` on nullable identifiers
abbrev pub same_id : Option ℕ → Option ℕ → Bool
same_id none none = true
same_id none (some b) = false
same_id (some a) none = false
same_id (some a) (some b) = a == b
