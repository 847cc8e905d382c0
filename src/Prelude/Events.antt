-- ===== src/Prelude/Events.antt =====
-- What is in flight, in a list, and events that take something out of it.
use Prim.Native.Nat.{ℕ, zero, suc, ◌+◌, ◌<◌}
use mathlib.Core.Path.{◌≡◌, refl}
use mathlib.Core.List.{List, [], ◌∷◌, ◌++◌}
use mathlib.Core.Option.{Option, none, some}
use native.Mathlib.Omega.{arith}
use banxe_payment_core.Prelude.Lists.{length}

module _ {ℓ} {A : Type ℓ} where
  abbrev pub shifted : A → Option (A × List A) → Option (A × List A)
  shifted x none = none
  shifted x (some (y, ys)) = some (y, x ∷ ys)

  -- The element at a place, and the others.
  unfoldable pub pick : ℕ → List A → Option (A × List A)
  pick n [] = none
  pick zero (x ∷ xs) = some (x, xs)
  pick (suc n) (x ∷ xs) = shifted x (pick n xs)

  -- Something was taken of a list of this length.
  abbrev pub Shorter : ℕ → Option (A × List A) → Type 0
  Shorter k none = ⊥
  Shorter k (some (x, xs)) = k ≡ suc (length xs)

  shifted-Shorter :
      (k : ℕ) (x : A) (o : Option (A × List A)) → Shorter k o → Shorter (suc k) (shifted x o)
  shifted-Shorter k x none h = elim h [ ]
  shifted-Shorter k x (some (y, ys)) h = omega (arith, h)

  pub pick-Shorter : (n : ℕ) (xs : List A) → n < length xs → Shorter (length xs) (pick n xs)
  unfolding pick
  pick-Shorter zero [] h = elim h [ ]
  pick-Shorter (suc n) [] h = elim h [ ]
  pick-Shorter zero (x ∷ xs) h = refl
  pick-Shorter (suc n) (x ∷ xs) h =
      shifted-Shorter (length xs) x (pick n xs) (pick-Shorter n xs (omega (arith, h)))

  pub empty_of : (xs : List A) → length xs ≡ 0 → xs ≡ []
  empty_of [] h = refl
  empty_of (x ∷ xs) h = absurd (omega (arith, h))

-- The sum of the members' weights.
abbrev pub total {ℓ} : {A : Type ℓ} → (A → ℕ) → List A → ℕ
total weight [] = 0
total weight (x ∷ xs) = weight x + total weight xs

pub total-append {ℓ} :
    {A : Type ℓ} (weight : A → ℕ) (l r : List A)
    → total weight (l ++ r) ≡ total weight l + total weight r
total-append weight [] r = omega arith
total-append weight (x ∷ l) r = omega (arith, total-append weight l r)

-- The events one after the other.
abbrev pub replay {ℓ κ} : {E : Type ℓ} {S : Type κ} → (E → S → S) → List E → S → S
replay step [] s = s
replay step (e ∷ es) s = replay step es (step e s)

-- Answers as events, each for the place of what it answers.
abbrev pub answers {ℓ κ} : {R : Type ℓ} {E : Type κ} → (ℕ → R → E) → List (ℕ × R) → List E
answers event [] = []
answers event ((n, r) ∷ rs) = event n r ∷ answers event rs

-- Each answer, in its turn, is for one of those that are still in flight, `k` at first.
abbrev pub InTurn {ℓ} : {R : Type ℓ} → ℕ → List (ℕ × R) → Type 0
InTurn k [] = Unit
InTurn zero (a ∷ rs) = ⊥
InTurn (suc k) ((n, r) ∷ rs) = (n < suc k) × InTurn k rs

module _ {ℓ κ μ} {R : Type ℓ} {E : Type κ} {S : Type μ} (event : ℕ → R → E) (step : E → S → S)
    (count : S → ℕ)
    (shorter : (n : ℕ) (r : R) (s : S)
      → n < count s
      → count s ≡ suc (count (step (event n r) s))) where
  -- If each answer takes one away, as many are left as were not answered.
  pub replay-answers :
      (rs : List (ℕ × R)) (s : S) (k : ℕ)
      → count s ≡ k
      → InTurn k rs
      → count (replay step (answers event rs) s) + length rs ≡ k
  replay-answers [] s k e h = omega (arith, e)
  replay-answers ((n, r) ∷ rs) s zero e h = elim h [ ]
  replay-answers ((n, r) ∷ rs) s (suc k) e h =
      let one_less = shorter n r s (omega (arith, e, h.0)) in
      omega (arith, replay-answers rs (step (event n r) s) k (omega (arith, e, one_less)) h.1)
