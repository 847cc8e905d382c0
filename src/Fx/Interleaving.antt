-- ===== src/Fx/Interleaving.antt =====
-- Several orders in flight on one agent of src/agents/fx_exchange_agent.py. `place_order` suspends
-- where `_run_action` awaits the exchange, and again where it awaits the wallet; there other orders
-- and answers may come in, in any order. The await of the recorder is taken not to suspend.
pub mod Budget
mod Tests
pub mod Drained
pub mod Executions
pub mod Once
pub mod Races
pub mod Sequential
use banxe_payment_core.Prelude.{
  ℕ, String, Bool, true, false, if◌then◌else◌, Option, none, some, List, [], ◌∷◌, ◌++◌, pick,
  replay, lookup, string_comparable,
}
use banxe_payment_core.Exec.{exchange, Exc, Result, ok, raised, Exec, continue}
use banxe_payment_core.Python.{decimal}
use banxe_payment_core.Ports.{OrderResult, SignedTx}
use banxe_payment_core.Lineage.{Decimal, RequestCost, ComplianceResult, AgentOutcome, Sink}
use banxe_payment_core.Fx.Types.{
  FxExchangeMask, OrderIntent, SettlementInstruction, ActionContext, Evaluation, Reply, Call, Agent,
}
use banxe_payment_core.Fx.Contexts.{order_context}
use banxe_payment_core.Fx.Actions.{begin, leg, keep, conclude, settled, rejected}

-- The arguments of `place_order`.
pub record Placement : Type 0 where
  pub intent : OrderIntent
  pub compliance : ComplianceResult
  pub reviewed_by : Option String

-- An order whose answer is awaited, from the exchange or, once it was filled, from the wallet.
pub data Flight : Type 0 where
  exchanging : ActionContext → Evaluation → OrderIntent → Flight
  signing : ActionContext → Evaluation → OrderIntent → Reply → Flight

-- The agent, the orders in flight, and the costs that answers of the exchange have kept.
pub record Pool : Type 0 where
  pub agent : Agent
  pub flights : List Flight
  pub kept : List RequestCost

pub data Event : Type 0 where
  submit : Placement → Event
  exchange_answers : ℕ → Result OrderResult → Event
  wallet_answers : ℕ → Result SignedTx → Event

-- An answer of the exchange that leaves the reservation taken.
abbrev pub keeps : Result OrderResult → Bool
keeps (ok r) = true
keeps (raised (exchange k m)) = false
keeps (raised e) = true

-- An agent with no order in flight.
abbrev pub idle : Agent → Pool
idle a = record { agent = a; flights = []; kept = [] }

module _ (sink : Sink) (mask : FxExchangeMask) where
  -- What happens behind the gates: the exchange is called, or the action is concluded.
  abbrev pub launched : ActionContext → OrderIntent → Result Evaluation × Agent → Pool → Pool
  launched ctx i (raised e, b) p = record p { agent = b }
  launched ctx i (ok ev, b) p =
      if ev.proceed
      then record p {
        agent = record b { calls = b.calls ++ Call.place_order i.order ∷ [] };
        flights = p.flights ++ exchanging ctx ev i ∷ [];
      }
      else record p { agent = (conclude sink mask ctx ev false none b).1 }

  unfoldable pub launch : Placement → Decimal → Pool → Pool
  launch q x p =
      let ctx = order_context q.intent x q.compliance q.reviewed_by in
      launched ctx q.intent (begin sink mask ctx p.agent) p

  -- `Decimal(amount)` raises before anything else is done.
  abbrev pub priced : Placement → Option Decimal → Pool → Pool
  priced q none p = p
  priced q (some x) p = launch q x p

  -- An order that is kept is not placed again.
  abbrev pub unless_kept : Placement → Option (AgentOutcome Reply) → Pool → Pool
  unless_kept q (some o) p = p
  unless_kept q none p = priced q (decimal q.intent.order.amount) p

  -- The end of an action, and what `place_order` does with its outcome.
  abbrev pub ended :
      OrderIntent → List Flight → Result (AgentOutcome Reply) × Agent → List RequestCost → Pool
  ended i fs out kept = record {
    agent = (continue out (keep i.order.client_order_id)).1;
    flights = fs;
    kept = kept;
  }

  -- The exchange has returned: the wallet is called for an order that settles.
  abbrev pub filled :
      ActionContext
      → Evaluation
      → OrderIntent
      → Reply
      → Option SettlementInstruction
      → List Flight
      → Agent
      → List RequestCost
      → Pool
  filled ctx ev i reply none fs a kept =
      ended i fs (conclude sink mask ctx ev true (some reply) a) kept
  filled ctx ev i reply (some s) fs a kept = record {
    agent = record a { calls = a.calls ++ Call.sign_tx s ∷ [] };
    flights = fs ++ signing ctx ev i reply ∷ [];
    kept = kept;
  }

  abbrev pub exchanged :
      ActionContext
      → Evaluation
      → OrderIntent
      → List Flight
      → Result OrderResult
      → Agent
      → List RequestCost
      → Pool
  exchanged ctx ev i fs (ok r) a kept =
      filled ctx ev i (Reply.order r) (leg i.settlement (Reply.order r)) fs a kept
  exchanged ctx ev i fs (raised e) a kept = ended i fs (rejected sink mask ctx ev e a) kept

  -- An answer of the exchange to the flight; one that waits for the wallet takes none.
  unfoldable pub land : Flight → List Flight → Result OrderResult → Pool → Pool
  land (exchanging ctx ev i) fs r p =
      exchanged ctx ev i fs r p.agent (if keeps r then ctx.request_cost ∷ p.kept else p.kept)
  land (signing ctx ev i reply) fs r p = p

  unfoldable pub settle : Flight → List Flight → Result SignedTx → Pool → Pool
  settle (exchanging ctx ev i) fs t p = p
  settle (signing ctx ev i reply) fs t p =
      ended i fs (settled sink mask ctx ev reply t p.agent) p.kept

  abbrev pub landed : Option (Flight × List Flight) → Result OrderResult → Pool → Pool
  landed none r p = p
  landed (some (f, fs)) r p = land f fs r p

  abbrev pub paid : Option (Flight × List Flight) → Result SignedTx → Pool → Pool
  paid none t p = p
  paid (some (f, fs)) t p = settle f fs t p

  unfoldable pub step : Event → Pool → Pool
  step (submit q) p = unless_kept q (lookup q.intent.order.client_order_id p.agent.placed) p
  step (exchange_answers n r) p = landed (pick n p.flights) r p
  step (wallet_answers n t) p = paid (pick n p.flights) t p

  unfoldable pub run : List Event → Pool → Pool
  run = replay step
