-- ===== src/Lineage/Window/Accounts.antt =====
-- The accounts of actions that overlap: what their reservations leave of the budget of
-- src/agents/_lineage.py.
use banxe_payment_core.Prelude.{
  ℤ, pos, ◌+ℤ◌, ◌-ℤ◌, ◌≤ℤ◌, int_laws, +ℤ_zero, +ℤ_right, ap, ◌∙◌, +ℤ_assoc, +ℤ_swap, ◌≡◌, refl, sym,
  List, [], ◌∷◌, ◌++◌, All, All-append,
}
use banxe_payment_core.Lineage.Types.{RequestCost, CostCap}
use banxe_payment_core.Lineage.Window.{CostWindow, add, release}
use banxe_payment_core.Lineage.Window.Budget.{WithinCap}
use banxe_payment_core.Lineage.Window.Reservations.{
  Takes, here, there, Takes-All, tokens_of, cost_of, Book, Move, stay, granted, charged, given_back,
  Moves, start, later,
}

-- A cost that is not negative.
abbrev pub NonNegative : RequestCost → Type 0
NonNegative c = (pos 0 ≤ℤ c.tokens) × (pos 0 ≤ℤ c.cost)

-- The usage is within the caps, and no cost that is held is negative.
pub record IsFunded (cap : CostCap) (b : Book) : Type 0 where
  pub within : WithinCap cap b.window
  pub fair : All NonNegative b.held

-- The usage is the window's at first, with what is held and what was kept since.
pub record Balanced (w : CostWindow) (b : Book) : Type 0 where
  pub tokens : b.window.used_tokens ≡ w.used_tokens +ℤ tokens_of b.held +ℤ tokens_of b.kept
  pub cost : b.window.used_cost ≡ w.used_cost +ℤ cost_of b.held +ℤ cost_of b.kept

release-WithinCap :
    (cap : CostCap) (c : RequestCost) (w : CostWindow)
    → NonNegative c
    → WithinCap cap w
    → WithinCap cap (release c w)
unfolding release
release-WithinCap cap c w n h = omega int_laws

module _ {cap : CostCap} where
  Move-IsFunded : {b d : Book} → Move NonNegative cap b d → IsFunded cap b → IsFunded cap d
  Move-IsFunded stay h = h
  Move-IsFunded {b} (granted c n w) h = record {
    within = w;
    fair = All-append _ b.held _ h.fair (n, tt);
  }
  Move-IsFunded (charged t) h = record {
    within = h.within;
    fair = (Takes-All NonNegative t h.fair).1;
  }
  Move-IsFunded {b} (given_back {c} t) h =
      let k = Takes-All NonNegative t h.fair in
      record { within = release-WithinCap cap c b.window k.0 h.within; fair = k.1 }

  pub Moves-IsFunded : {b d : Book} → Moves NonNegative cap b d → IsFunded cap b → IsFunded cap d
  Moves-IsFunded (start b) h = h
  Moves-IsFunded (later m ms) h = Moves-IsFunded ms (Move-IsFunded m h)

tokens_of-append : (l r : List RequestCost) → tokens_of (l ++ r) ≡ tokens_of l +ℤ tokens_of r
tokens_of-append [] r = sym (+ℤ_zero (tokens_of r))
tokens_of-append (c ∷ l) r = rw (tokens_of-append l r, +ℤ_assoc) refl

cost_of-append : (l r : List RequestCost) → cost_of (l ++ r) ≡ cost_of l +ℤ cost_of r
cost_of-append [] r = sym (+ℤ_zero (cost_of r))
cost_of-append (c ∷ l) r = rw (cost_of-append l r, +ℤ_assoc) refl

tokens_of-Takes :
    {c : RequestCost} {l r : List RequestCost} → Takes c l r → tokens_of l ≡ c.tokens +ℤ tokens_of r
tokens_of-Takes (here l) = refl
tokens_of-Takes {c} (there y {l} {r} t) =
    rw (tokens_of-Takes t) (+ℤ_swap y.tokens c.tokens (tokens_of r))

cost_of-Takes :
    {c : RequestCost} {l r : List RequestCost} → Takes c l r → cost_of l ≡ c.cost +ℤ cost_of r
cost_of-Takes (here l) = refl
cost_of-Takes {c} (there y {l} {r} t) = rw (cost_of-Takes t) (+ℤ_swap y.cost c.cost (cost_of r))

reserve_sum : (w h k c : ℤ) → w +ℤ h +ℤ k +ℤ c ≡ w +ℤ (h +ℤ (c +ℤ pos 0)) +ℤ k
reserve_sum w h k c = omega int_laws

keep_sum : (w l k c : ℤ) → w +ℤ (c +ℤ l) +ℤ k ≡ w +ℤ l +ℤ (c +ℤ k)
keep_sum w l k c = omega int_laws

give_back_sum : (w l k c : ℤ) → w +ℤ (c +ℤ l) +ℤ k -ℤ c ≡ w +ℤ l +ℤ k
give_back_sum w l k c = omega int_laws

module _ {P : RequestCost → Type 0} {cap : CostCap} {w : CostWindow} where
  Move-Balanced : {b d : Book} → Move P cap b d → Balanced w b → Balanced w d
  unfolding add release
  Move-Balanced stay h = h
  Move-Balanced {b} (granted c n e) h = record {
    tokens =
        rw (h.tokens, tokens_of-append b.held (c ∷ []))
          (reserve_sum w.used_tokens (tokens_of b.held) (tokens_of b.kept) c.tokens);
    cost =
        rw (h.cost, cost_of-append b.held (c ∷ []))
          (reserve_sum w.used_cost (cost_of b.held) (cost_of b.kept) c.cost);
  }
  Move-Balanced {b} (charged {c} {l} t) h = record {
    tokens =
        rw (h.tokens, tokens_of-Takes t)
          (keep_sum w.used_tokens (tokens_of l) (tokens_of b.kept) c.tokens);
    cost = rw (h.cost, cost_of-Takes t) (keep_sum w.used_cost (cost_of l) (cost_of b.kept) c.cost);
  }
  Move-Balanced {b} (given_back {c} {l} t) h = record {
    tokens =
        rw (h.tokens, tokens_of-Takes t)
          (give_back_sum w.used_tokens (tokens_of l) (tokens_of b.kept) c.tokens);
    cost =
        rw (h.cost, cost_of-Takes t)
          (give_back_sum w.used_cost (cost_of l) (cost_of b.kept) c.cost);
  }

  pub Moves-Balanced : {b d : Book} → Moves P cap b d → Balanced w b → Balanced w d
  Moves-Balanced (start b) h = h
  Moves-Balanced (later m ms) h = Moves-Balanced ms (Move-Balanced m h)

-- What is used is what the window has used at first, with the costs in addition.
pub record Uses (w : CostWindow) (costs : List RequestCost) (v : CostWindow) : Type 0 where
  pub tokens : v.used_tokens ≡ w.used_tokens +ℤ tokens_of costs
  pub cost : v.used_cost ≡ w.used_cost +ℤ cost_of costs

pub Balanced-Uses :
    (w : CostWindow) (b : Book) (costs : List RequestCost)
    → b.held ≡ []
    → b.kept ≡ costs
    → Balanced w b
    → Uses w costs b.window
Balanced-Uses w b costs e k h = record {
  tokens =
      h.tokens
      ∙ ap (λ l. w.used_tokens +ℤ tokens_of l +ℤ tokens_of b.kept) e
      ∙ ap (λ t. t +ℤ tokens_of b.kept) (+ℤ_right w.used_tokens)
      ∙ ap (λ l. w.used_tokens +ℤ tokens_of l) k;
  cost =
      h.cost
      ∙ ap (λ l. w.used_cost +ℤ cost_of l +ℤ cost_of b.kept) e
      ∙ ap (λ t. t +ℤ cost_of b.kept) (+ℤ_right w.used_cost)
      ∙ ap (λ l. w.used_cost +ℤ cost_of l) k;
}

-- The costs, one after the other, put before those that were kept earlier.
abbrev pub onto : List RequestCost → List RequestCost → List RequestCost
onto [] kept = kept
onto (c ∷ cs) kept = onto cs (c ∷ kept)

pub onto-append : (a b kept : List RequestCost) → onto (a ++ b) kept ≡ onto b (onto a kept)
onto-append [] b kept = refl
onto-append (c ∷ a) b kept = onto-append a b (c ∷ kept)
