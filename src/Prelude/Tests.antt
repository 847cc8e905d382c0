-- ===== src/Prelude/Tests.antt =====
-- Boolean tests on the native numbers, the conditional, and equality tests as an instance.
use Prim.Native.Nat.{ℕ, compare, Ordering}
use Prim.Native.String.{String, ◌++◌}
use mathlib.Core.Path.{◌≡◌, refl}
use mathlib.Core.Logic.{◌↔◌, ◌⊎◌, inl, inr}
use mathlib.Core.Bool.{Bool, true, false, ◌&&◌}
use mathlib.Core.Option.{Option, none, some}
use mathlib.Core.List.{List, [], ◌∷◌}
use native.Mathlib.Omega.{arith}
use text.Mathlib.Text.{◌==◌ as str_eq}
use text.Mathlib.TextEquality.{eq_iff}

abbrev pub ltb : ℕ → ℕ → Bool
ltb a b = elim (compare a b) [ Ordering.lt ↦ true | _ ↦ false ]

abbrev pub leb : ℕ → ℕ → Bool
leb a b = elim (compare a b) [ Ordering.gt ↦ false | _ ↦ true ]

abbrev pub nat_beq : ℕ → ℕ → Bool
nat_beq a b = elim (compare a b) [ Ordering.eq ↦ true | _ ↦ false ]

infix 1 if◌then◌else◌
abbrev pub if◌then◌else◌ {ℓ} : {A : Type ℓ} → Bool → A → A → A
if true then x else y = x
if false then x else y = y

pub nat_beq_iff : (a b : ℕ) → (nat_beq a b ≡ true) ↔ (a ≡ b)
nat_beq_iff a b = ground arith

pub Bool-cases : (b : Bool) → (b ≡ true) ⊎ (b ≡ false)
Bool-cases true = inl refl
Bool-cases false = inr refl

pub Option-cases {ℓ} : {A : Type ℓ} (o : Option A) → (o ≡ none) ⊎ ((a : A) × (o ≡ some a))
Option-cases none = inl refl
Option-cases (some a) = inr (a, refl)

-- A type that Python compares by `__eq__`: `same` decides its equations.
pub record Comparable {ℓ} (K : Type ℓ) : Type ℓ where
  pub same : K → K → Bool
  pub same_iff : (j k : K) → (same j k ≡ true) ↔ (j ≡ k)

infix 50 ◌==◌
abbrev pub ◌==◌ {ℓ} : {K : Type ℓ} ⦃c : Comparable K⦄ → K → K → Bool
◌==◌ ⦃c⦄ j k = c.same j k

instance abbrev pub string_comparable : Comparable String
string_comparable = record { same = str_eq; same_iff = eq_iff }

instance abbrev pub ℕ_comparable : Comparable ℕ
ℕ_comparable = record { same = nat_beq; same_iff = nat_beq_iff }

module _ {ℓ} {K : Type ℓ} ⦃c : Comparable K⦄ where
  abbrev pub list_beq : List K → List K → Bool
  list_beq [] [] = true
  list_beq (j ∷ js) (k ∷ ks) = c.same j k && list_beq js ks
  list_beq _ _ = false

  pub list_beq_iff : (js ks : List K) → (list_beq js ks ≡ true) ↔ (js ≡ ks)
  list_beq_iff [] [] = ground arith
  list_beq_iff [] (k ∷ ks) = ground arith
  list_beq_iff (j ∷ js) [] = ground arith
  list_beq_iff (j ∷ js) (k ∷ ks) = ground (arith, c.same_iff j k, list_beq_iff js ks)

  pub list_beq_refl : (ks : List K) → list_beq ks ks ≡ true
  list_beq_refl ks = (list_beq_iff ks ks).1 refl

  instance abbrev pub list_comparable : Comparable (List K)
  list_comparable = record { same = list_beq; same_iff = list_beq_iff }

  -- `k in ks`
  abbrev pub elem : K → List K → Bool
  elem k [] = false
  elem k (j ∷ js) = if c.same k j then true else elem k js

-- Text put together, as `+` and f-strings do.
infixr 65 ◌<>◌
abbrev pub ◌<>◌ : String → String → String
s <> t = s ++ t
