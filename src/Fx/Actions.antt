-- ===== src/Fx/Actions.antt =====
-- The actions of src/agents/fx_exchange_agent.py: `_emit`, `_run_action` with its settlement leg,
-- `get_rate`, `place_order` and `cancel_order`.
pub mod Effects
pub mod Records
pub mod Orders
pub mod Unsettled
use banxe_payment_core.Prelude.{
  String, ◌<>◌, Bool, true, false, if◌then◌else◌, Option, none, some, List, [], ◌∷◌, ◌++◌, Dict,
  lookup, insert, string_comparable,
}
use banxe_payment_core.Exec.{
  map_result, other, exchange, ExchangeError, Exc, Result, ok, raised, Exec, pure, raise, lift,
  modify, ◌>>=◌, ◌>>◌, type_name, message,
}
use banxe_payment_core.Python.{decimal}
use banxe_payment_core.Ports.{OrderState, SignedTx, ExchangePort, WalletPort}
use banxe_payment_core.Lineage.{
  block, ComplianceResult, fail, na, BudgetBreach, AgentDecisionRecord, AgentOutcome, Decimal,
  CostWindow, empty_window, Journal, try_reserve, release, Sink, persist,
}
use banxe_payment_core.Fx.Types.{
  FxExchangeMask, RateQuoteIntent, SettlementInstruction, OrderIntent, CancelOrderIntent,
  ActionContext, Evaluation, Reply, Call, Agent,
}
use banxe_payment_core.Fx.Contexts.{rate_context, order_context, cancel_context}
use banxe_payment_core.Fx.Gates.{halted, evaluate}

-- FXExchangeAgent(…) with the default window.
abbrev pub new_agent : FxExchangeMask → Agent
new_agent mask = record {
  window = empty_window (mask.agent_id <> ":default");
  placed = [];
  journal = record { records = []; draws = 0 };
  calls = [];
}

-- The injected ports: what a call returns or raises, given the calls made before it.
pub record Ports : Type 0 where
  pub exchange_port : ExchangePort (List Call)
  pub wallet_port : WalletPort (List Call)

-- `_settle`: the wallet signs the transfer that the instruction describes.
unfoldable pub settle_leg : Ports → List Call → SettlementInstruction → Result SignedTx
settle_leg ports calls s =
    ports.wallet_port.sign_tx calls s.seed s.chain s.derivation_path s.tx_payload

abbrev written : Agent → Result AgentDecisionRecord × Journal → Result AgentDecisionRecord × Agent
written a (r, j) = (r, record a { journal = j })

-- The evaluation that replaces `ev` when the reservation is refused.
abbrev exhausted : Evaluation → Evaluation
exhausted ev =
    halted block "HALT_COST_CAP_BREACH"
      "Cost-cap breach (per-window budget exhausted under concurrency); action refused (ADR-047)."
      ev.policies na BudgetBreach.breach "cost_cap_breach" false false

abbrev reserved : Evaluation → Bool × CostWindow → Exec Agent Evaluation
reserved ev (true, w) a = (ok ev, record a { window = w })
reserved ev (false, w) a = (ok (exhausted ev), record a { window = w })

abbrev pub blocked : ExchangeError → ComplianceResult → ComplianceResult
blocked ExchangeError.compliance_block c = fail
blocked _ c = c

-- `result.state is OrderState.FILLED`
abbrev pub is_filled : OrderState → Bool
is_filled OrderState.filled = true
is_filled _ = false

-- The settlement leg that an answer of the exchange calls for.
unfoldable pub leg : Option SettlementInstruction → Reply → Option SettlementInstruction
leg (some s) (Reply.order r) = if is_filled r.state then some s else none
leg _ _ = none

-- `_placed[client_order_id] = outcome` once the order has been executed.
unfoldable pub keep : String → AgentOutcome Reply → Exec Agent (AgentOutcome Reply)
keep id outcome a =
    (ok outcome, if outcome.executed then record a { placed = insert id outcome a.placed } else a)

module _ (sink : Sink) (mask : FxExchangeMask) where
  -- The record that `_emit` makes.
  unfoldable pub lineage :
      ActionContext
      → Evaluation
      → String
      → Bool
      → ComplianceResult
      → String
      → Agent
      → AgentDecisionRecord
  lineage ctx ev action_taken executed compliance reasoning a = record {
    record_id = sink.uuid4 a.journal.draws;
    timestamp = sink.now a.journal.draws;
    agent_id = mask.agent_id;
    triggering_event = ctx.triggering_event;
    intent = ctx.intent_text;
    policies_evaluated = ev.policies;
    compliance_result = compliance;
    reasoning_summary = reasoning;
    confidence_score = ctx.confidence_score;
    action_taken = action_taken;
    human_reviewed_by = ctx.human_reviewed_by;
    correlation_id = ctx.correlation_id;
    cost_tokens = ctx.request_cost.tokens;
    cost_amount = ctx.request_cost.cost;
    budget_window_ref = a.window.window_ref;
    budget_breach_flag = ev.budget_breach;
    immutable_storage_ref = none;
    input_tokens = none;
    output_tokens = none;
  }

  unfoldable pub emit :
      ActionContext
      → Evaluation
      → String
      → Bool
      → ComplianceResult
      → String
      → Exec Agent AgentDecisionRecord
  emit ctx ev action_taken executed compliance reasoning a =
      written a
        (persist sink (lineage ctx ev action_taken executed compliance reasoning a) a.journal)

  -- The record of an action that reached its end, and its outcome.
  unfoldable pub conclude :
      ActionContext → Evaluation → Bool → Option Reply → Exec Agent (AgentOutcome Reply)
  conclude ctx ev executed result = do
    r ← emit ctx ev ev.action_taken executed ev.compliance_result ev.reasoning_summary
    pure (record {
      decision = ev.decision;
      executed = executed;
      lineage = r;
      result = result;
      halt_reason = ev.halt_reason;
      requires_step_up = ev.requires_step_up;
      requires_hitl = ev.requires_hitl;
    })

  -- Up to the `await` of the exchange.
  unfoldable pub begin : ActionContext → Exec Agent Evaluation
  begin ctx = do
    ev ← λ a. lift (evaluate mask a.window ctx) a
    if ev.proceed
        then (λ a. reserved ev (try_reserve ctx.request_cost mask.cost_cap a.window) a)
        else pure ev

  -- From the wallet's answer on. Every exception is recorded and passed on.
  unfoldable pub settled :
      ActionContext → Evaluation → Reply → Result SignedTx → Exec Agent (AgentOutcome Reply)
  settled ctx ev reply (ok tx) = conclude ctx ev true (some reply)
  settled ctx ev reply (raised e) = do
    emit ctx ev ("HALT_SETTLEMENT_ERROR:" <> type_name e) true ev.compliance_result
        ("Order placed but WalletPort settlement leg failed: " <> message e)
    raise e

  -- The exchange raised an exception. One that is no ExchangePortError is not caught.
  unfoldable pub rejected : ActionContext → Evaluation → Exc → Exec Agent (AgentOutcome Reply)
  rejected ctx ev (exchange k m) = do
    modify (λ a. record a { window = release ctx.request_cost a.window })
    emit ctx ev ("HALT_EXCHANGE_ERROR:" <> type_name (exchange k m)) false
        (blocked k ev.compliance_result) ("Port rejected the action: " <> m)
    raise (exchange k m)
  rejected ctx ev e = raise e

  module _ (ports : Ports) where
    -- The settlement leg, if there is one: `_settle` hands the instruction to the wallet.
    unfoldable pub deliver :
        ActionContext
        → Evaluation
        → Reply
        → Option SettlementInstruction
        → Exec Agent (AgentOutcome Reply)
    deliver ctx ev reply none a = conclude ctx ev true (some reply) a
    deliver ctx ev reply (some s) a =
        settled ctx ev reply (settle_leg ports a.calls s)
          (record a { calls = a.calls ++ Call.sign_tx s ∷ [] })

    -- From the exchange's answer on.
    unfoldable pub answered :
        ActionContext
        → Evaluation
        → Option SettlementInstruction
        → Result Reply
        → Exec Agent (AgentOutcome Reply)
    unfolding rejected
    answered ctx ev settle (ok reply) = deliver ctx ev reply (leg settle reply)
    answered ctx ev settle (raised e) = rejected ctx ev e

    unfoldable pub run_action :
        ActionContext
        → Call
        → (List Call → Result Reply)
        → Option SettlementInstruction
        → Exec Agent (AgentOutcome Reply)
    run_action ctx call port settle = do
      ev ← begin ctx
      if ev.proceed
          then (λ a.
              answered ctx ev settle (port a.calls) (record a { calls = a.calls ++ call ∷ [] }))
          else conclude ctx ev false none

    unfoldable pub get_rate : RateQuoteIntent → ComplianceResult → Exec Agent (AgentOutcome Reply)
    get_rate intent compliance =
        run_action (rate_context intent compliance)
          (Call.get_rate intent.base_asset intent.quote_asset)
          (λ calls.
            map_result Reply.rate
              (ports.exchange_port.get_rate calls intent.base_asset intent.quote_asset))
          none

    -- `place_order` behind the cache and `Decimal(amount)`.
    unfoldable pub place :
        OrderIntent
        → ComplianceResult
        → Option String
        → Option Decimal
        → Exec Agent (AgentOutcome Reply)
    place intent compliance reviewed_by none =
        raise (other "InvalidOperation" "[<class 'decimal.ConversionSyntax'>]")
    place intent compliance reviewed_by (some amount) =
        run_action (order_context intent amount compliance reviewed_by)
          (Call.place_order intent.order)
          (λ calls. map_result Reply.order (ports.exchange_port.place_order calls intent.order))
          intent.settlement
        >>= keep intent.order.client_order_id

    -- `place_order` from what the cache holds on.
    unfoldable pub unless_placed :
        Option (AgentOutcome Reply)
        → OrderIntent
        → ComplianceResult
        → Option String
        → Exec Agent (AgentOutcome Reply)
    unless_placed (some cached) intent compliance reviewed_by = pure cached
    unless_placed none intent compliance reviewed_by =
        place intent compliance reviewed_by (decimal intent.order.amount)

    unfoldable pub place_order :
        OrderIntent → ComplianceResult → Option String → Exec Agent (AgentOutcome Reply)
    place_order intent compliance reviewed_by a =
        unless_placed (lookup intent.order.client_order_id a.placed) intent compliance reviewed_by a

    unfoldable pub cancel_order :
        CancelOrderIntent → ComplianceResult → Option String → Exec Agent (AgentOutcome Reply)
    cancel_order intent compliance reviewed_by =
        run_action (cancel_context intent compliance reviewed_by)
          (Call.cancel_order intent.order_id)
          (λ calls.
            map_result Reply.cancelled (ports.exchange_port.cancel_order calls intent.order_id))
          none
