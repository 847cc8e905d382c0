-- ===== src/Wallet/Contexts.antt =====
-- `_read_ctx` and `_sensitive_ctx` of src/agents/wallet_agent.py.
use banxe_payment_core.Prelude.{String, Bool, true, false, Option, none}
use banxe_payment_core.Lineage.{ComplianceResult}
use banxe_payment_core.Wallet.Types.{WalletMask, WalletIntent, ActionContext}

unfoldable pub read_ctx :
    WalletMask → WalletIntent → String → String → String → ComplianceResult → ActionContext
read_ctx mask intent triggering_event success_action op compliance = record {
  intent_text = intent.intent_text;
  process_ref = intent.process_ref;
  correlation_id = intent.correlation_id;
  confidence_score = intent.confidence_score;
  triggering_event = triggering_event;
  success_action = success_action;
  op = op;
  request_cost = intent.request_cost;
  compliance_result = compliance;
  compliance_contour = mask.compliance_gate_reads;
  is_sensitive = false;
  biometric_verified = false;
  human_reviewed_by = none;
  supports_review_hitl = false;
}

-- The intent is given by the fields that it shares with the others and `biometric_verified`.
unfoldable pub sensitive_ctx :
    WalletMask
    → WalletIntent
    → Bool
    → String
    → String
    → String
    → ComplianceResult
    → Option String
    → ActionContext
sensitive_ctx mask intent biometric triggering_event success_action op compliance reviewed_by =
    record {
      intent_text = intent.intent_text;
      process_ref = intent.process_ref;
      correlation_id = intent.correlation_id;
      confidence_score = intent.confidence_score;
      triggering_event = triggering_event;
      success_action = success_action;
      op = op;
      request_cost = intent.request_cost;
      compliance_result = compliance;
      compliance_contour = mask.compliance_gate_value_movement;
      is_sensitive = true;
      biometric_verified = biometric;
      human_reviewed_by = reviewed_by;
      supports_review_hitl = true;
    }
