-- ===== src/Lineage/Window/Desk.antt =====
-- What the agents of src/agents have in common when their actions overlap: every event does to the
-- budget of src/agents/_lineage.py what its rules allow.
use banxe_payment_core.Prelude.{List, [], ◌∷◌, All, All-every, replay}
use banxe_payment_core.Lineage.Types.{RequestCost, CostCap}
use banxe_payment_core.Lineage.Window.{CostWindow}
use banxe_payment_core.Lineage.Window.Reservations.{Book, Move, Moves, start, later}
use banxe_payment_core.Lineage.Window.Accounts.{
  NonNegative, IsFunded, Balanced, Moves-IsFunded, Moves-Balanced,
}

-- An agent with its actions in flight, as its budget sees it.
pub record Desk (Pool Event : Type 0) : Type 1 where
  pub cap : CostCap
  pub step : Event → Pool → Pool
  pub book : Pool → Book
  -- the costs for which an event may take a reservation
  pub costs : Event → List RequestCost
  pub step-Move :
      (P : RequestCost → Type 0) (e : Event) (p : Pool)
      → All P (costs e)
      → Move P cap (book p) (book (step e p))

module _ {Pool Event : Type 0} (d : Desk Pool Event) where
  open d use {cap, step, book, costs, step-Move}

  pub replay-Moves :
      (P : RequestCost → Type 0) (es : List Event) (p : Pool)
      → All (λ e. All P (costs e)) es
      → Moves P cap (book p) (book (replay step es p))
  replay-Moves P [] p n = start (book p)
  replay-Moves P (e ∷ es) p n = later (step-Move P e p n.0) (replay-Moves P es (step e p) n.1)

  pub replay-IsFunded :
      (es : List Event) (p : Pool)
      → All (λ e. All NonNegative (costs e)) es
      → IsFunded cap (book p)
      → IsFunded cap (book (replay step es p))
  replay-IsFunded es p n h = Moves-IsFunded (replay-Moves NonNegative es p n) h

  pub replay-Balanced :
      (w : CostWindow) (es : List Event) (p : Pool)
      → Balanced w (book p)
      → Balanced w (book (replay step es p))
  replay-Balanced w es p h =
      Moves-Balanced
        (replay-Moves (λ c. Unit) es p (All-every _ (λ e. All-every _ (λ c. tt) (costs e)) es)) h
