-- ===== src/Lineage/Window/Budget.antt =====
-- The budget laws of CostWindow: what a reservation admits, and that a release undoes it.
use banxe_payment_core.Prelude.{◌≡◌, ◌≤ℤ◌, ◌+ℤ◌, +ℤ_cancel, true, false, ◌↔◌, arith}
use banxe_payment_core.Lineage.Types.{RequestCost, CostCap}
use banxe_payment_core.Lineage.Window.{CostWindow, add, try_reserve, release}

-- The usage is within both caps of the window.
pub record WithinCap (cap : CostCap) (w : CostWindow) : Type 0 where
  pub tokens_fit : w.used_tokens ≤ℤ cap.max_window_tokens
  pub cost_fits : w.used_cost ≤ℤ cap.max_window_cost

-- A cost fits the request's caps, and the window's together with what is used.
pub record Affordable (cap : CostCap) (w : CostWindow) (c : RequestCost) : Type 0 where
  pub request_tokens : c.tokens ≤ℤ cap.max_request_tokens
  pub request_cost : c.cost ≤ℤ cap.max_request_cost
  pub window_tokens : (w.used_tokens +ℤ c.tokens) ≤ℤ cap.max_window_tokens
  pub window_cost : (w.used_cost +ℤ c.cost) ≤ℤ cap.max_window_cost

module _ (c : RequestCost) (cap : CostCap) (w : CostWindow) where
  -- A reservation is granted exactly when the usage with it is within both caps.
  pub try_reserve_iff : ((try_reserve c cap w).0 ≡ true) ↔ WithinCap cap (add c w)
  unfolding try_reserve add
  try_reserve_iff = ground arith

  -- A granted reservation debits the cost, and a refused one nothing.
  pub try_reserve-granted : (try_reserve c cap w).0 ≡ true → (try_reserve c cap w).1 ≡ add c w
  unfolding try_reserve add
  try_reserve-granted h = ground arith

  pub try_reserve-refused : (try_reserve c cap w).0 ≡ false → (try_reserve c cap w).1 ≡ w
  unfolding try_reserve
  try_reserve-refused h = ground arith

  -- What is affordable is reserved.
  pub try_reserve-Affordable : Affordable cap w c → try_reserve c cap w ≡ (true, add c w)
  unfolding try_reserve add
  try_reserve-Affordable h = ground arith

  -- What is affordable leaves the usage within the caps.
  pub Affordable-WithinCap : Affordable cap w c → WithinCap cap (add c w)
  unfolding add
  Affordable-WithinCap h = record { tokens_fit = h.window_tokens; cost_fits = h.window_cost }

  pub try_reserve-WithinCap : WithinCap cap w → WithinCap cap (try_reserve c cap w).1
  unfolding try_reserve
  try_reserve-WithinCap h = ground arith

pub release-add : (c : RequestCost) (w : CostWindow) → release c (add c w) ≡ w
unfolding release add
release-add c w = ground (arith, +ℤ_cancel w.used_tokens c.tokens, +ℤ_cancel w.used_cost c.cost)
