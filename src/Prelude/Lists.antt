-- ===== src/Prelude/Lists.antt =====
-- Lists measured and cut by native numbers, under the library's names, and predicates on them.
use Prim.Native.Nat.{ℕ, zero, suc, ◌+◌}
use mathlib.Core.Path.{◌≡◌, refl, ap}
use mathlib.Core.List.{List, [], ◌∷◌, ◌++◌, map}
use native.Mathlib.Omega.{arith}

module _ {ℓ} {A : Type ℓ} where
  abbrev pub length : List A → ℕ
  length [] = 0
  length (x ∷ xs) = suc (length xs)

  abbrev pub take : ℕ → List A → List A
  take zero xs = []
  take (suc n) [] = []
  take (suc n) (x ∷ xs) = x ∷ take n xs

  abbrev pub drop : ℕ → List A → List A
  drop zero xs = xs
  drop (suc n) [] = []
  drop (suc n) (x ∷ xs) = drop n xs

  pub length-append : (xs ys : List A) → length (xs ++ ys) ≡ length xs + length ys
  length-append [] ys = omega arith
  length-append (x ∷ xs) ys = omega (arith, length-append xs ys)

pub length-map {ℓ κ} :
    {A : Type ℓ} {B : Type κ} (f : A → B) (xs : List A) → length (map f xs) ≡ length xs
length-map f [] = refl
length-map f (x ∷ xs) = ap suc (length-map f xs)

-- `P` holds of every element.
abbrev pub All {ℓ κ} : {A : Type ℓ} → (A → Type κ) → List A → Type κ
All P [] = Unit
All P (a ∷ l) = P a × All P l

module _ {ℓ κ} {A : Type ℓ} (P : A → Type κ) where
  pub All-append : (l r : List A) → All P l → All P r → All P (l ++ r)
  All-append [] r left right = right
  All-append (a ∷ l) r left right = (left.0, All-append l r left.1 right)

  pub All-every : ((a : A) → P a) → (l : List A) → All P l
  All-every f [] = tt
  All-every f (a ∷ l) = (f a, All-every f l)

module _ {ℓ κ μ} {A : Type ℓ} {P : A → Type κ} {Q : A → Type μ} where
  pub All-map : ((a : A) → P a → Q a) → (l : List A) → All P l → All Q l
  All-map f [] h = tt
  All-map f (a ∷ l) h = (f a h.0, All-map f l h.1)

module _ {ℓ κ μ} {A : Type ℓ} (P : A → Type κ) (Q : A → Type μ) where
  pub All-both : (l : List A) → All P l → All Q l → All (λ a. P a × Q a) l
  All-both [] p q = tt
  All-both (a ∷ l) p q = ((p.0, q.0), All-both l p.1 q.1)
