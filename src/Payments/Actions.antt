-- ===== src/Payments/Actions.antt =====
-- The actions of src/agents/payments_agent.py: `_emit`, `_run_action`, `_suppress_duplicate`,
-- `initiate_payment` and `validate_address`. `_run_action` awaits the port once: `begin` is what
-- runs before that point and `finish` what runs after it, so that actions can be interleaved there.
pub mod Effects
pub mod Records
pub mod Replay
mod Tests
pub mod Unrecorded
use banxe_payment_core.Prelude.{
  String, ◌<>◌, Bool, true, false, if◌then◌else◌, Option, none, some, List, [], ◌∷◌, ◌++◌,
}
use banxe_payment_core.Exec.{
  map_result, other, partner, PartnerError, Result, ok, raised, Exec, pure, raise, lift, modify,
  ◌>>=◌, ◌>>◌, type_name, message,
}
use banxe_payment_core.Python.{decimal}
use banxe_payment_core.Ports.{
  PaymentInstruction, PaymentResult, ChainId, chain_value, PartnerPort, WalletPort,
}
use banxe_payment_core.Lineage.{
  auto, block, ComplianceResult, fail, na, BudgetBreach, AgentDecisionRecord, AgentOutcome, Decimal,
  CostWindow, empty_window, Journal, try_reserve, release, Sink, persist, has_seen, mark_seen,
  prior_result,
}
use banxe_payment_core.Payments.Types.{
  PaymentsMask, PaymentIntent, AddressValidationIntent, ActionContext, Evaluation, Reply, payment,
  validity, Call, Agent,
}
use banxe_payment_core.Payments.Gates.{halted, evaluate}

-- PaymentsAgent(…) with the default window and store.
abbrev pub new_agent : PaymentsMask → Agent
new_agent mask = record {
  window = empty_window (mask.agent_id <> ":default");
  idempotency = [];
  journal = record { records = []; draws = 0 };
  calls = [];
}

-- The injected ports: what a call returns or raises, given the calls made before it.
pub record Ports : Type 0 where
  pub partner_port : PartnerPort (List Call)
  pub wallet_port : WalletPort (List Call)

abbrev written : Agent → Result AgentDecisionRecord × Journal → Result AgentDecisionRecord × Agent
written a (r, j) = (r, record a { journal = j })

-- What an idempotent replay is evaluated to.
abbrev duplicate : Evaluation
duplicate = record {
  decision = auto;
  proceed = false;
  action_taken = "DUPLICATE_SUPPRESSED";
  reasoning_summary =
      "Idempotent replay: idempotency_key already executed; re-execution suppressed (no double-payment), prior result returned (ADR-046).";
  policies = "ADR-046-idempotent-replay-protection" ∷ [];
  compliance_result = na;
  budget_breach = BudgetBreach.none;
  halt_reason = some "duplicate_suppressed";
  requires_step_up = false;
  requires_hitl = false;
}

-- The evaluation that replaces `ev` when the reservation is refused.
abbrev exhausted : Evaluation → Evaluation
exhausted ev =
    halted block "HALT_COST_CAP_BREACH"
      "Cost-cap breach (per-window budget exhausted under concurrency); action refused (ADR-047)."
      ev.policies na BudgetBreach.breach "cost_cap_breach" false false

abbrev reserved : Evaluation → Bool × CostWindow → Exec Agent Evaluation
reserved ev (true, w) a = (ok ev, record a { window = w })
reserved ev (false, w) a = (ok (exhausted ev), record a { window = w })

abbrev blocked : PartnerError → ComplianceResult → ComplianceResult
blocked PartnerError.compliance_block c = fail
blocked _ c = c

unfoldable pub payment_context :
    PaymentIntent → Decimal → ComplianceResult → Option String → ActionContext
payment_context intent amount compliance reviewed_by = record {
  intent_text = intent.intent_text;
  process_ref = intent.process_ref;
  correlation_id = intent.correlation_id;
  confidence_score = intent.confidence_score;
  triggering_event = "payment_intent:" <> intent.instruction.idempotency_key;
  success_action = "APPROVE_PAYMENT";
  request_cost = intent.request_cost;
  compliance_result = compliance;
  is_money_movement = true;
  amount = some amount;
  biometric_verified = intent.biometric_verified;
  human_reviewed_by = reviewed_by;
}

unfoldable pub address_context : AddressValidationIntent → ComplianceResult → ActionContext
address_context intent compliance = record {
  intent_text = intent.intent_text;
  process_ref = intent.process_ref;
  correlation_id = intent.correlation_id;
  confidence_score = intent.confidence_score;
  triggering_event = "address_check:" <> chain_value intent.chain <> ":" <> intent.address;
  success_action = "VALIDATE_ADDRESS";
  request_cost = intent.request_cost;
  compliance_result = compliance;
  is_money_movement = false;
  amount = none;
  biometric_verified = false;
  human_reviewed_by = none;
}

-- `mark_seen` once the payment has been executed.
unfoldable pub mark : String → AgentOutcome Reply → Exec Agent (AgentOutcome Reply)
mark key outcome a = (
  ok outcome,
  if outcome.executed
      then record a { idempotency = mark_seen key outcome.result a.idempotency }
      else a,
)

module _ (sink : Sink) (mask : PaymentsMask) where
  -- The record that `_emit` makes.
  unfoldable pub lineage :
      ActionContext
      → Evaluation
      → String
      → Bool
      → ComplianceResult
      → String
      → Agent
      → AgentDecisionRecord
  lineage ctx ev action_taken executed compliance reasoning a = record {
    record_id = sink.uuid4 a.journal.draws;
    timestamp = sink.now a.journal.draws;
    agent_id = mask.agent_id;
    triggering_event = ctx.triggering_event;
    intent = ctx.intent_text;
    policies_evaluated = ev.policies;
    compliance_result = compliance;
    reasoning_summary = reasoning;
    confidence_score = ctx.confidence_score;
    action_taken = action_taken;
    human_reviewed_by = ctx.human_reviewed_by;
    correlation_id = ctx.correlation_id;
    cost_tokens = ctx.request_cost.tokens;
    cost_amount = ctx.request_cost.cost;
    budget_window_ref = a.window.window_ref;
    budget_breach_flag = ev.budget_breach;
    immutable_storage_ref = none;
    input_tokens = none;
    output_tokens = none;
  }

  unfoldable pub emit :
      ActionContext
      → Evaluation
      → String
      → Bool
      → ComplianceResult
      → String
      → Exec Agent AgentDecisionRecord
  emit ctx ev action_taken executed compliance reasoning a =
      written a
        (persist sink (lineage ctx ev action_taken executed compliance reasoning a) a.journal)

  -- The record of an action that reached its end, and its outcome.
  unfoldable pub conclude :
      ActionContext → Evaluation → Bool → Option Reply → Exec Agent (AgentOutcome Reply)
  conclude ctx ev executed result = do
    r ← emit ctx ev ev.action_taken executed ev.compliance_result ev.reasoning_summary
    pure (record {
      decision = ev.decision;
      executed = executed;
      lineage = r;
      result = result;
      halt_reason = ev.halt_reason;
      requires_step_up = ev.requires_step_up;
      requires_hitl = ev.requires_hitl;
    })

  -- Up to the `await` of the port: the evaluation, and the reservation if it lets the action
  -- through. The port is called exactly if the evaluation that comes back proceeds.
  unfoldable pub begin : ActionContext → Exec Agent Evaluation
  begin ctx = do
    ev ← λ a. lift (evaluate mask a.window ctx) a
    if ev.proceed
        then (λ a. reserved ev (try_reserve ctx.request_cost mask.cost_cap a.window) a)
        else pure ev

  -- From the port's answer on. An exception that is no PartnerPortError is not caught.
  unfoldable pub answered :
      ActionContext → Evaluation → Result Reply → Exec Agent (AgentOutcome Reply)
  answered ctx ev (ok reply) = conclude ctx ev true (some reply)
  answered ctx ev (raised (partner k m)) = do
    modify (λ a. record a { window = release ctx.request_cost a.window })
    emit ctx ev ("HALT_PARTNER_ERROR:" <> type_name (partner k m)) false
        (blocked k ev.compliance_result) ("Port rejected the action: " <> m)
    raise (partner k m)
  answered ctx ev (raised e) = raise e

  unfoldable pub run_action :
      ActionContext → Call → (List Call → Result Reply) → Exec Agent (AgentOutcome Reply)
  run_action ctx call port = do
    ev ← begin ctx
    if ev.proceed
        then (λ a. answered ctx ev (port a.calls) (record a { calls = a.calls ++ call ∷ [] }))
        else conclude ctx ev false none

  -- An idempotent replay: one record, no gate, no budget and no call.
  unfoldable pub suppress_duplicate : ActionContext → String → Exec Agent (AgentOutcome Reply)
  suppress_duplicate ctx key a =
      (emit ctx duplicate duplicate.action_taken false na duplicate.reasoning_summary >>= λ r.
      pure (record {
        decision = auto;
        executed = false;
        lineage = r;
        result = prior_result key a.idempotency;
        halt_reason = duplicate.halt_reason;
        requires_step_up = false;
        requires_hitl = false;
      }))
        a

  module _ (ports : Ports) where
    -- `initiate_payment` behind `Decimal(amount)`.
    unfoldable pub pay :
        PaymentIntent → Decimal → ComplianceResult → Option String → Exec Agent (AgentOutcome Reply)
    pay intent amount compliance reviewed_by a =
        let ctx = payment_context intent amount compliance reviewed_by in
        let key = intent.instruction.idempotency_key in
        if has_seen key a.idempotency
        then suppress_duplicate ctx key a
        else (run_action ctx (Call.initiate_payment intent.instruction) (λ calls.
                map_result payment (ports.partner_port.initiate_payment calls intent.instruction))
              >>= mark key)
            a

    unfoldable pub initiate_payment :
        PaymentIntent → ComplianceResult → Option String → Exec Agent (AgentOutcome Reply)
    initiate_payment intent compliance reviewed_by = elim (decimal intent.instruction.amount) [
      | none ↦ raise (other "InvalidOperation" "[<class 'decimal.ConversionSyntax'>]")
      | some amount ↦ pay intent amount compliance reviewed_by
    ]

    unfoldable pub validate_address :
        AddressValidationIntent → ComplianceResult → Exec Agent (AgentOutcome Reply)
    validate_address intent compliance =
        run_action (address_context intent compliance)
          (Call.validate_address intent.chain intent.address)
          (λ calls.
            map_result validity
              (ports.wallet_port.validate_address calls intent.chain intent.address))
