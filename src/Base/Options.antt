-- ===== src/Base/Options.antt =====
-- Splitting on a computed option.
use mathlib.Core.Path.{◌≡◌, refl, ap}
use mathlib.Core.Logic.{◌⊎◌, inl, inr}
use mathlib.Core.Option.{Option, none, some}

module _ {ℓ} {A : Type ℓ} where
  pub Option-cases : (m : Option A) → ((a : A) × (m ≡ some a)) ⊎ (m ≡ none)
  Option-cases none = inr refl
  Option-cases (some a) = inl (a, refl)

  abbrev pub some_or : A → Option A → A
  some_or d none = d
  some_or d (some a) = a

  pub some-injective : {a b : A} → ◌≡◌ {A = Option A} (some a) (some b) → a ≡ b
  some-injective {a} h = ap (some_or a) h

  pub some-ne-none : {a : A} → ◌≡◌ {A = Option A} (some a) none → ⊥
  some-ne-none h = cc
