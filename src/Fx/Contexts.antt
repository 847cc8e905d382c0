-- ===== src/Fx/Contexts.antt =====
-- What the public methods of src/agents/fx_exchange_agent.py evaluate: the `_ActionContext` of each.
use banxe_payment_core.Prelude.{String, ◌<>◌, true, false, Option, none, some}
use banxe_payment_core.Lineage.{Decimal, ComplianceResult}
use banxe_payment_core.Fx.Types.{RateQuoteIntent, OrderIntent, CancelOrderIntent, ActionContext}

unfoldable pub rate_context : RateQuoteIntent → ComplianceResult → ActionContext
rate_context intent compliance = record {
  intent_text = intent.intent_text;
  process_ref = intent.process_ref;
  correlation_id = intent.correlation_id;
  confidence_score = intent.confidence_score;
  triggering_event = "rate_quote:" <> intent.base_asset <> "/" <> intent.quote_asset;
  success_action = "QUOTE_RATE";
  op = "ExchangePort.get_rate";
  request_cost = intent.request_cost;
  compliance_result = compliance;
  is_money_movement = false;
  amount = none;
  biometric_verified = false;
  human_reviewed_by = none;
  supports_review_hitl = false;
}

unfoldable pub order_context :
    OrderIntent → Decimal → ComplianceResult → Option String → ActionContext
order_context intent amount compliance reviewed_by = record {
  intent_text = intent.intent_text;
  process_ref = intent.process_ref;
  correlation_id = intent.correlation_id;
  confidence_score = intent.confidence_score;
  triggering_event = "order_intent:" <> intent.order.client_order_id;
  success_action = "PLACE_ORDER";
  op = "ExchangePort.place_order";
  request_cost = intent.request_cost;
  compliance_result = compliance;
  is_money_movement = true;
  amount = some amount;
  biometric_verified = intent.biometric_verified;
  human_reviewed_by = reviewed_by;
  supports_review_hitl = true;
}

unfoldable pub cancel_context : CancelOrderIntent → ComplianceResult → Option String → ActionContext
cancel_context intent compliance reviewed_by = record {
  intent_text = intent.intent_text;
  process_ref = intent.process_ref;
  correlation_id = intent.correlation_id;
  confidence_score = intent.confidence_score;
  triggering_event = "cancel_order:" <> intent.order_id;
  success_action = "CANCEL_ORDER";
  op = "ExchangePort.cancel_order";
  request_cost = intent.request_cost;
  compliance_result = compliance;
  is_money_movement = false;
  amount = none;
  biometric_verified = intent.biometric_verified;
  human_reviewed_by = reviewed_by;
  supports_review_hitl = true;
}
