-- ===== src/Prelude/Tests.antt =====
-- Boolean tests on the native numbers, the conditional, and case splits that keep the equation.
use Prim.Native.Nat.{ℕ, ◌<◌, compare, Ordering}
use mathlib.Core.Path.{◌≡◌, refl, ap, ◌∙◌}
use mathlib.Core.Logic.{◌↔◌, ◌⊎◌, inl, inr}
use mathlib.Core.Bool.{Bool, true, false, ◌||◌}
use mathlib.Core.Option.{Option, none, some}
use native.Mathlib.Omega.{arith}

abbrev pub ltb : ℕ → ℕ → Bool
ltb a b = elim (compare a b) [ Ordering.lt ↦ true | _ ↦ false ]

abbrev pub leb : ℕ → ℕ → Bool
leb a b = elim (compare a b) [ Ordering.gt ↦ false | _ ↦ true ]

infix 50 ◌==◌
abbrev pub ◌==◌ : ℕ → ℕ → Bool
a == b = elim (compare a b) [ Ordering.eq ↦ true | _ ↦ false ]

infix 1 if◌then◌else◌
abbrev pub if◌then◌else◌ {ℓ} : {A : Type ℓ} → Bool → A → A → A
if true then x else y = x
if false then x else y = y

pub ==_iff : (a b : ℕ) → ((a == b) ≡ true) ↔ (a ≡ b)
==_iff a b = ground arith

pub ==_refl : (a : ℕ) → (a == a) ≡ true
==_refl a = ground arith

pub Bool-cases : (b : Bool) → (b ≡ true) ⊎ (b ≡ false)
Bool-cases true = inl refl
Bool-cases false = inr refl

pub Option-cases {ℓ} : {A : Type ℓ} (o : Option A) → (o ≡ none) ⊎ ((a : A) × (o ≡ some a))
Option-cases none = inl refl
Option-cases (some a) = inr (a, refl)

-- `p x` for every `x` below a bound, by evaluation.
unfoldable pub all_below : ℕ → (ℕ → Bool) → Bool
all_below ℕ.zero p = true
all_below (ℕ.suc n) p = elim (p n) [ true ↦ all_below n p | false ↦ false ]

-- `p x` for some `x` below a bound.
unfoldable pub any_below : ℕ → (ℕ → Bool) → Bool
any_below ℕ.zero p = false
any_below (ℕ.suc n) p = p n || any_below n p

pub any_below-false : (n : ℕ) (p : ℕ → Bool) (k : ℕ) → any_below n p ≡ false → k < n → p k ≡ false
unfolding any_below
any_below-false ℕ.zero p k h lt = absurd (omega (arith, lt))
any_below-false (ℕ.suc n) p k h lt = elim (Bool-cases (k == n)) [
  | inl here ↦ let at : k ≡ n = (==_iff k n).0 here in ap p at ∙ ground arith
  | inr away ↦ any_below-false n p k (ground arith) (ground arith)
]

pub all_below-true : (n : ℕ) (p : ℕ → Bool) (k : ℕ) → all_below n p ≡ true → k < n → p k ≡ true
unfolding all_below
all_below-true ℕ.zero p k h lt = absurd (omega (arith, lt))
all_below-true (ℕ.suc n) p k h lt = elim (Bool-cases (k == n)) [
  | inl here ↦ let at : k ≡ n = (==_iff k n).0 here in ap p at ∙ ground arith
  | inr away ↦ all_below-true n p k (ground arith) (ground arith)
]
