-- ===== src/Prelude/Equality.antt =====
-- `===` on the types that the program compares: one operator, by an instance for each type.
use Prim.Native.Nat.{ℕ, compare, Ordering}
use Prim.Native.String.{String}
use mathlib.Core.Path.{◌≡◌, refl}
use mathlib.Core.Logic.{◌↔◌}
use mathlib.Core.Bool.{Bool, true, false}
use mathlib.Core.Option.{Option, none, some}
use nest_rest_backend_templa.Prelude.Tests.{if◌then◌else◌}
use native.Mathlib.Omega.{arith}
use text.Mathlib.Text.{◌==◌ as str_eq}
use text.Mathlib.TextEquality.{eq_iff}

pub record Eq {ℓ} (A : Type ℓ) : Type ℓ where
  pub equals : A → A → Bool
  pub equals_iff : (x y : A) → (equals x y ≡ true) ↔ (x ≡ y)

instance abbrev pub string_eq : Eq String
string_eq = record { equals = str_eq; equals_iff = eq_iff }

abbrev nat_equals : ℕ → ℕ → Bool
nat_equals m n = elim (compare m n) [ Ordering.eq ↦ true | _ ↦ false ]

pub nat_equals_iff : (m n : ℕ) → (nat_equals m n ≡ true) ↔ (m ≡ n)
nat_equals_iff m n = ground arith

instance abbrev pub nat_eq : Eq ℕ
nat_eq = record { equals = nat_equals; equals_iff = nat_equals_iff }

module _ {ℓ} {A : Type ℓ} ⦃e : Eq A⦄ where
  infix 50 ◌==◌
  abbrev pub ◌==◌ : A → A → Bool
  x == y = e.equals x y

  pub ==_refl : (x : A) → (x == x) ≡ true
  ==_refl x = (e.equals_iff x x).1 refl

-- A string that is there and not empty: what `!value` lets through.
abbrev pub present : Option String → Option String
present none = none
present (some s) = if s == "" then none else some s
