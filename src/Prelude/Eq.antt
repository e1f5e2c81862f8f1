-- ===== src/Prelude/Eq.antt =====
-- `==` of Python at a type whose equality is structural, and `in` on its lists.
use Prim.Native.Nat.{ℕ}
use Prim.Native.String.{String}
use mathlib.Core.Bool.{Bool, true, false, ◌||◌}
use mathlib.Core.List.{List, [], ◌∷◌}
use mathlib.Core.Logic.{◌↔◌, ◌≢◌, inl, inr}
use mathlib.Core.Path.{◌≡◌, refl}
use text.Mathlib.Text.{◌==◌ as same_string}
use text.Mathlib.TextEquality.{eq_iff as same_string_iff}
use zen_ma2_agent.Prelude.Tests.{nat_beq, nat_beq_iff, Bool-cases}

-- The test that `__eq__` makes, which holds exactly of equal values.
pub record Comparable {ℓ} (Item : Type ℓ) : Type ℓ where
  pub same : Item → Item → Bool
  pub same_iff : (x y : Item) → (same x y ≡ true) ↔ (x ≡ y)

-- A text that is only compared, never taken apart, is a native `String`.
instance abbrev pub string_eq : Comparable String
string_eq = record { same = same_string; same_iff = same_string_iff }

instance abbrev pub nat_eq : Comparable ℕ
nat_eq = record { same = nat_beq; same_iff = nat_beq_iff }

-- `a in l`
abbrev pub member {ℓ} : {Item : Type ℓ} ⦃c : Comparable Item⦄ → Item → List Item → Bool
member a [] = false
member ⦃c⦄ a (x ∷ xs) = c.same x a || member a xs

infix 50 ◌==◌
abbrev pub ◌==◌ {ℓ} : {A : Type ℓ} ⦃c : Comparable A⦄ → A → A → Bool
◌==◌ ⦃c⦄ = c.same

module _ {ℓ} {Item : Type ℓ} ⦃c : Comparable Item⦄ where
  pub ==_self : (x : Item) → (x == x) ≡ true
  ==_self x = (c.same_iff x x).1 refl

  pub ==_ne : (x y : Item) → x ≢ y → (x == y) ≡ false
  ==_ne x y h = elim (Bool-cases (x == y)) [
    | inl equal ↦ absurd (h ((c.same_iff x y).0 equal))
    | inr other ↦ other
  ]

  pub ==_true : (x y : Item) → (x == y) ≡ true → x ≡ y
  ==_true x y h = (c.same_iff x y).0 h

  pub ==_false : (x y : Item) → (x == y) ≡ false → x ≢ y
  ==_false x y h equal = cc ((c.same_iff x y).1 equal)
