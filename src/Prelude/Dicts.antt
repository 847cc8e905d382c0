-- ===== src/Prelude/Dicts.antt =====
-- Python's `dict`, in insertion order: an overwritten key keeps its place.
use mathlib.Core.Path.{◌≡◌, refl}
use mathlib.Core.Bool.{Bool, true, false}
use mathlib.Core.Option.{Option, none, some}
use mathlib.Core.List.{List, [], ◌∷◌, ◌++◌}
use native.Mathlib.Omega.{arith}
use banxe_payment_core.Prelude.Tests.{Comparable, if◌then◌else◌}

abbrev pub Dict {ℓ κ} : Type ℓ → Type κ → Type (ℓ ⊔ κ)
Dict K V = List (K × V)

module _ {ℓ κ} {K : Type ℓ} {V : Type κ} ⦃c : Comparable K⦄ where
  -- d.get(k)
  unfoldable pub lookup : K → Dict K V → Option V
  lookup k [] = none
  lookup k ((j, v) ∷ d) = if c.same j k then some v else lookup k d

  -- `k in d`
  unfoldable pub contains : K → Dict K V → Bool
  unfolding lookup
  contains k d = elim (lookup k d) [ none ↦ false | some v ↦ true ]

  -- d[k] = v
  unfoldable pub insert : K → V → Dict K V → Dict K V
  insert k v [] = (k, v) ∷ []
  insert k v ((j, w) ∷ d) = if c.same j k then (j, v) ∷ d else (j, w) ∷ insert k v d

  pub lookup-insert :
      (k j : K) (v : V) (d : Dict K V)
      → lookup j (insert k v d) ≡ (if c.same k j then some v else lookup j d)
  unfolding lookup insert
  lookup-insert k j v [] = refl
  lookup-insert k j v ((i, w) ∷ d) =
      ground (arith, c.same_iff k j, c.same_iff i k, c.same_iff i j, lookup-insert k j v d)

  -- The first entry has the key.
  pub insert-here :
      (k j : K) (v w : V) (d : Dict K V)
      → c.same j k ≡ true
      → (lookup k ((j, w) ∷ d) ≡ some w) × (insert k v ((j, w) ∷ d) ≡ (j, v) ∷ d)
  unfolding lookup insert
  insert-here k j v w d h = rw h (refl, refl)

  -- The first entry has another key.
  pub insert-there :
      (k j : K) (v w : V) (d : Dict K V)
      → c.same j k ≡ false
      → (lookup k ((j, w) ∷ d) ≡ lookup k d) × (insert k v ((j, w) ∷ d) ≡ (j, w) ∷ insert k v d)
  unfolding lookup insert
  insert-there k j v w d h = rw h (refl, refl)

  -- A new key is added behind the others.
  pub insert-new :
      (k : K) (v : V) (d : Dict K V) → lookup k d ≡ none → insert k v d ≡ d ++ (k, v) ∷ []
  unfolding lookup insert
  insert-new k v [] h = refl
  insert-new k v ((i, w) ∷ d) h = ground (arith, insert-new k v d)

-- d.values()
abbrev pub values {ℓ κ} : {K : Type ℓ} {V : Type κ} → Dict K V → List V
values [] = []
values ((k, v) ∷ d) = v ∷ values d
