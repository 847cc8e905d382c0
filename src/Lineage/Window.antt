-- ===== src/Lineage/Window.antt =====
-- CostWindow of src/agents/_lineage.py: each method is one critical section under its lock.
pub mod Budget
pub mod Reservations
pub mod Accounts
pub mod Desk
use banxe_payment_core.Prelude.{
  String, ℤ, pos, ◌+ℤ◌, ◌-ℤ◌, ltb_ℤ, Bool, true, false, ◌||◌, if◌then◌else◌,
}
use banxe_payment_core.Lineage.Types.{Decimal, RequestCost, CostCap}

pub record CostWindow : Type 0 where
  pub used_tokens : ℤ
  pub used_cost : Decimal
  pub window_ref : String

-- CostWindow(window_ref=…)
abbrev pub empty_window : String → CostWindow
empty_window r = record { used_tokens = pos 0; used_cost = pos 0; window_ref = r }

unfoldable pub add : RequestCost → CostWindow → CostWindow
add c w = record w { used_tokens = w.used_tokens +ℤ c.tokens; used_cost = w.used_cost +ℤ c.cost }

unfoldable pub try_reserve : RequestCost → CostCap → CostWindow → Bool × CostWindow
unfolding add
try_reserve c cap w =
    if ltb_ℤ cap.max_window_tokens (w.used_tokens +ℤ c.tokens)
      || ltb_ℤ cap.max_window_cost (w.used_cost +ℤ c.cost)
    then (false, w)
    else (
      true,
      record w { used_tokens = w.used_tokens +ℤ c.tokens; used_cost = w.used_cost +ℤ c.cost },
    )

unfoldable pub release : RequestCost → CostWindow → CostWindow
release c w = record w {
  used_tokens = w.used_tokens -ℤ c.tokens;
  used_cost = w.used_cost -ℤ c.cost;
}
