-- ===== src/Wallet/Interleaving.antt =====
-- Several actions in flight on one agent of src/agents/wallet_agent.py. `_run_action` suspends where
-- it awaits the wallet; there other requests and answers may come in, in any order. The await of
-- the recorder is taken not to suspend.
pub mod Budget
mod Tests
pub mod Drained
pub mod Sequential
use banxe_payment_core.Prelude.{
  ℕ, Bool, true, false, if◌then◌else◌, Option, none, some, List, [], ◌∷◌, ◌++◌, pick, replay,
}
use banxe_payment_core.Exec.{Result, ok, raised, returned}
use banxe_payment_core.Lineage.{RequestCost, Sink}
use banxe_payment_core.Wallet.Types.{WalletMask, ActionContext, Evaluation, Reply, Call, Agent}
use banxe_payment_core.Wallet.Actions.{conclude, begin, answered}
use banxe_payment_core.Wallet.Actions.Requests.{Request, context, call}

-- An action whose answer is awaited.
pub record Flight : Type 0 where
  pub context : ActionContext
  pub evaluation : Evaluation

-- The agent, the actions in flight, and the costs that answered ones have kept.
pub record Pool : Type 0 where
  pub agent : Agent
  pub flights : List Flight
  pub kept : List RequestCost

pub data Event : Type 0 where
  submit : Request → Event
  answer : ℕ → Result Reply → Event

-- An agent with no action in flight.
abbrev pub idle : Agent → Pool
idle a = record { agent = a; flights = []; kept = [] }

module _ (sink : Sink) (mask : WalletMask) where
  -- What happens behind the gates: the wallet is called, or the action is concluded.
  abbrev pub launched : ActionContext → Call → Result Evaluation × Agent → Pool → Pool
  launched ctx c (raised e, b) p = record p { agent = b }
  launched ctx c (ok ev, b) p =
      if ev.proceed
      then record p {
        agent = record b { calls = b.calls ++ c ∷ [] };
        flights = p.flights ++ record { context = ctx; evaluation = ev } ∷ [];
      }
      else record p { agent = (conclude sink mask ctx ev false none b).1 }

  unfoldable pub launch : ActionContext → Call → Pool → Pool
  launch ctx c p = launched ctx c (begin sink mask ctx p.agent) p

  unfoldable pub land : Flight → List Flight → Result Reply → Pool → Pool
  land f rest r p = record {
    agent = (answered sink mask f.context f.evaluation r p.agent).1;
    flights = rest;
    kept = if returned r then f.context.request_cost ∷ p.kept else p.kept;
  }

  abbrev pub landed : Option (Flight × List Flight) → Result Reply → Pool → Pool
  landed none r p = p
  landed (some (f, fs)) r p = land f fs r p

  unfoldable pub step : Event → Pool → Pool
  step (Event.submit q) p = launch (context mask q) (call q) p
  step (Event.answer n r) p = landed (pick n p.flights) r p

  unfoldable pub run : List Event → Pool → Pool
  run = replay step
