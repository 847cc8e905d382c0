-- ===== src/Payments/Interleaving.antt =====
-- Several payments in flight on one agent of src/agents/payments_agent.py. `_run_action` suspends
-- where it awaits the port; there other submissions and answers may come in, in any order. The
-- awaits of the recorder and of the in-memory store are taken not to suspend.
pub mod Budget
mod Tests
pub mod Collision
pub mod Drained
pub mod Marks
pub mod Once
use banxe_payment_core.Prelude.{
  ℕ, zero, suc, ℤ, pos, String, ◌+ℤ◌, Bool, true, false, if◌then◌else◌, Option, none, some, List,
  [], ◌∷◌, ◌++◌, pick, replay,
}
use banxe_payment_core.Exec.{map_result, Exc, partner, Result, ok, raised, continue}
use banxe_payment_core.Python.{decimal}
use banxe_payment_core.Ports.{PaymentInstruction, PaymentResult}
use banxe_payment_core.Lineage.{Decimal, RequestCost, Sink, has_seen}
use banxe_payment_core.Payments.Types.{
  PaymentsMask, ActionContext, Evaluation, Reply, payment, Call, Agent,
}
use banxe_payment_core.Payments.Actions.{
  conclude, begin, answered, suppress_duplicate, payment_context, mark,
}
use banxe_payment_core.Payments.Actions.Replay.{Request}

-- A payment whose answer is awaited.
pub record Flight : Type 0 where
  pub context : ActionContext
  pub evaluation : Evaluation
  pub instruction : PaymentInstruction

-- The agent, the payments in flight, and the costs that answered ones have kept.
pub record Pool : Type 0 where
  pub agent : Agent
  pub flights : List Flight
  pub kept : List RequestCost

pub data Event : Type 0 where
  submit : Request → Event
  answer : ℕ → Result PaymentResult → Event

-- An answer that leaves the reservation taken.
abbrev pub keeps : Result PaymentResult → Bool
keeps (ok r) = true
keeps (raised (partner k m)) = false
keeps (raised e) = true

module _ (sink : Sink) (mask : PaymentsMask) where
  -- What happens behind the gates: the port is called, or the action is concluded.
  abbrev pub launched : ActionContext → PaymentInstruction → Result Evaluation × Agent → Pool → Pool
  launched ctx i (raised e, b) p = record p { agent = b }
  launched ctx i (ok ev, b) p =
      if ev.proceed
      then record p {
        agent = record b { calls = b.calls ++ Call.initiate_payment i ∷ [] };
        flights = p.flights ++ record { context = ctx; evaluation = ev; instruction = i } ∷ [];
      }
      else record p { agent = (conclude sink mask ctx ev false none b).1 }

  unfoldable pub launch : Request → Decimal → Pool → Pool
  launch q x p =
      let i = q.intent.instruction in
      let ctx = payment_context q.intent x q.compliance q.reviewed_by in
      if has_seen i.idempotency_key p.agent.idempotency
      then record p { agent = (suppress_duplicate sink mask ctx i.idempotency_key p.agent).1 }
      else launched ctx i (begin sink mask ctx p.agent) p

  unfoldable pub land : Flight → List Flight → Result PaymentResult → Pool → Pool
  land f rest r p = record {
    agent =
        (continue (answered sink mask f.context f.evaluation (map_result payment r) p.agent)
          (mark f.instruction.idempotency_key)).1;
    flights = rest;
    kept = if keeps r then f.context.request_cost ∷ p.kept else p.kept;
  }

  -- `Decimal(amount)` raises before anything else is done.
  abbrev pub priced : Request → Option Decimal → Pool → Pool
  priced q none p = p
  priced q (some x) p = launch q x p

  abbrev pub landed : Option (Flight × List Flight) → Result PaymentResult → Pool → Pool
  landed none r p = p
  landed (some (f, fs)) r p = land f fs r p

  unfoldable pub step : Event → Pool → Pool
  step (Event.submit q) p = priced q (decimal q.intent.instruction.amount) p
  step (Event.answer n r) p = landed (pick n p.flights) r p

  unfoldable pub run : List Event → Pool → Pool
  run = replay step
