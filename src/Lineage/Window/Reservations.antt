-- ===== src/Lineage/Window/Reservations.antt =====
-- What the budget of src/agents/_lineage.py promises to actions that overlap: reservations that are
-- granted, kept and given back one at a time. The three masks implement it.
use banxe_payment_core.Prelude.{
  ℕ, zero, suc, ℤ, pos, ◌+ℤ◌, ◌≡◌, refl, Bool, true, false, if◌then◌else◌, Option, some, none, List,
  [], ◌∷◌, ◌++◌, pick, shifted, All, ◌+◌, total, arith,
}
use mathlib.Core.List.{append_assoc}
use banxe_payment_core.Lineage.Types.{Decimal, RequestCost, CostCap}
use banxe_payment_core.Lineage.Window.{CostWindow, add, release}
use banxe_payment_core.Lineage.Window.Budget.{WithinCap}

-- One element of a list, and the others.
pub data Takes {ℓ} {A : Type ℓ} (x : A) : List A → List A → Type ℓ where
  here : (l : List A) → Takes x (x ∷ l) l
  there : (y : A) {l r : List A} → Takes x l r → Takes x (y ∷ l) (y ∷ r)

module _ {ℓ} {A : Type ℓ} where
  abbrev pub Taken : List A → Option (A × List A) → Type ℓ
  Taken l none = Unit
  Taken l (some (x, r)) = Takes x l r

  shifted-Taken :
      (y : A) (l : List A) (o : Option (A × List A)) → Taken l o → Taken (y ∷ l) (shifted y o)
  shifted-Taken y l none h = tt
  shifted-Taken y l (some (x, r)) h = there y h

  pub pick-Taken : (n : ℕ) (l : List A) → Taken l (pick n l)
  unfolding pick
  pick-Taken zero [] = tt
  pick-Taken (suc n) [] = tt
  pick-Taken zero (x ∷ l) = here l
  pick-Taken (suc n) (x ∷ l) = shifted-Taken x l (pick n l) (pick-Taken n l)

  pub Takes-All {κ} :
      (P : A → Type κ) {x : A} {l r : List A} → Takes x l r → All P l → P x × All P r
  Takes-All P (here l) h = h
  Takes-All P (there y t) h = let k = Takes-All P t h.1 in (k.0, (h.0, k.1))

pub total-Takes {ℓ} :
    {A : Type ℓ} (weight : A → ℕ) {x : A} {l r : List A}
    → Takes x l r
    → total weight l ≡ weight x + total weight r
total-Takes weight (here l) = refl
total-Takes weight (there y t) = omega (arith, total-Takes weight t)

-- The costs that the members of a list hold.
abbrev pub held_by {ℓ} : {A : Type ℓ} → (A → List RequestCost) → List A → List RequestCost
held_by g [] = []
held_by g (x ∷ l) = g x ++ held_by g l

module _ {ℓ} {A : Type ℓ} (g : A → List RequestCost) where
  pub held_by-append : (l r : List A) → held_by g (l ++ r) ≡ held_by g l ++ held_by g r
  held_by-append [] r = refl
  held_by-append (x ∷ l) r = rw (held_by-append l r, append_assoc) refl

  Takes-behind :
      {c : RequestCost} (p : List RequestCost) {l r : List RequestCost}
      → Takes c l r
      → Takes c (p ++ l) (p ++ r)
  Takes-behind [] t = t
  Takes-behind (d ∷ p) t = there d (Takes-behind p t)

  -- The cost of the member that is taken is taken from the costs.
  pub held_by-Takes :
      {x : A} {l r : List A} {c : RequestCost}
      → Takes x l r
      → g x ≡ c ∷ []
      → Takes c (held_by g l) (held_by g r)
  held_by-Takes {c} (here l) e = rw e (here (held_by g l))
  held_by-Takes (there y t) e = Takes-behind (g y) (held_by-Takes t e)

  pub held_by-idle : {x : A} {l r : List A} → Takes x l r → g x ≡ [] → held_by g l ≡ held_by g r
  held_by-idle (here l) e = rw e refl
  held_by-idle (there y t) e = rw (held_by-idle t e) refl

abbrev pub tokens_of : List RequestCost → ℤ
tokens_of [] = pos 0
tokens_of (c ∷ l) = c.tokens +ℤ tokens_of l

abbrev pub cost_of : List RequestCost → Decimal
cost_of [] = pos 0
cost_of (c ∷ l) = c.cost +ℤ cost_of l

-- The window, the costs reserved for actions whose port has not answered, and those kept.
pub record Book : Type 0 where
  pub window : CostWindow
  pub held : List RequestCost
  pub kept : List RequestCost

-- What may happen to the book: a reservation within the cap, and the end of one, which is kept or
-- given back.
pub data Move (P : RequestCost → Type 0) (cap : CostCap) (b : Book) : Book → Type 0 where
  stay : Move P cap b b
  granted :
      (c : RequestCost)
      → P c
      → WithinCap cap (add c b.window)
      → Move P cap b (record b { window = add c b.window; held = b.held ++ c ∷ [] })
  charged :
      {c : RequestCost} {l : List RequestCost}
      → Takes c b.held l
      → Move P cap b (record b { held = l; kept = c ∷ b.kept })
  given_back :
      {c : RequestCost} {l : List RequestCost}
      → Takes c b.held l
      → Move P cap b (record b { window = release c b.window; held = l })

module _ {P : RequestCost → Type 0} {cap : CostCap} {c : RequestCost} where
  -- How a reservation ends.
  pub ended_Move :
      (b : Book) (l : List RequestCost) (kept : Bool)
      → Takes c b.held l
      → Move P cap b (record {
        window = if kept then b.window else release c b.window;
        held = l;
        kept = if kept then c ∷ b.kept else b.kept;
      })
  ended_Move b l true t = charged t
  ended_Move b l false t = given_back t

pub data Moves (P : RequestCost → Type 0) (cap : CostCap) : Book → Book → Type 0 where
  start : (b : Book) → Moves P cap b b
  later : {b c d : Book} → Move P cap b c → Moves P cap c d → Moves P cap b d
