-- ===== src/Payments/Types.antt =====
-- The Payments mask's configuration, intents and evaluation records: the types of
-- src/agents/payments_agent.py.
use banxe_payment_core.Prelude.{String, Bool, true, Option, List, [], ◌∷◌}
use banxe_payment_core.Python.{nine_tenths, seven_tenths}
use banxe_payment_core.Ports.{PaymentInstruction, PaymentResult, ChainId}
use banxe_payment_core.Lineage.{
  Decimal, Float, ConfirmationDecision, ComplianceResult, BudgetBreach, ProcessRef, RequestCost,
  CostCap, CostWindow, Store, Journal,
}

pub record PaymentsMask : Type 0 where
  pub cost_cap : CostCap
  pub step_up_materiality : Decimal
  pub auto_threshold : Float
  pub review_floor : Float
  pub require_step_up_for_money_movement : Bool
  pub agent_id : String
  pub scope : List String

-- PaymentsMask(cost_cap=…, step_up_materiality=…), with the defaults of the class.
abbrev pub payments_mask : CostCap → Decimal → PaymentsMask
payments_mask cap materiality = record {
  cost_cap = cap;
  step_up_materiality = materiality;
  auto_threshold = nine_tenths;
  review_floor = seven_tenths;
  require_step_up_for_money_movement = true;
  agent_id = "payments_agent";
  scope = "PartnerPort.initiate_payment" ∷ "WalletPort.validate_address" ∷ [];
}

pub record PaymentIntent : Type 0 where
  pub intent_text : String
  pub process_ref : ProcessRef
  pub instruction : PaymentInstruction
  pub correlation_id : String
  pub confidence_score : Float
  pub request_cost : RequestCost
  pub biometric_verified : Bool

pub record AddressValidationIntent : Type 0 where
  pub intent_text : String
  pub process_ref : ProcessRef
  pub chain : ChainId
  pub address : String
  pub correlation_id : String
  pub confidence_score : Float
  pub request_cost : RequestCost

pub record ActionContext : Type 0 where
  pub intent_text : String
  pub process_ref : ProcessRef
  pub correlation_id : String
  pub confidence_score : Float
  pub triggering_event : String
  pub success_action : String
  pub request_cost : RequestCost
  pub compliance_result : ComplianceResult
  pub is_money_movement : Bool
  pub amount : Option Decimal
  pub biometric_verified : Bool
  pub human_reviewed_by : Option String

pub record Evaluation : Type 0 where
  pub decision : ConfirmationDecision
  pub proceed : Bool
  pub action_taken : String
  pub reasoning_summary : String
  pub policies : List String
  pub compliance_result : ComplianceResult
  pub budget_breach : BudgetBreach
  pub halt_reason : Option String
  pub requires_step_up : Bool
  pub requires_hitl : Bool

-- What the awaited port calls return.
pub data Reply : Type 0 where
  payment : PaymentResult → Reply
  validity : Bool → Reply

-- A call that has been made of a port.
pub data Call : Type 0 where
  initiate_payment : PaymentInstruction → Call
  validate_address : ChainId → String → Call

-- The agent's attributes, what its recorder has persisted, and the calls made of its ports.
pub record Agent : Type 0 where
  pub window : CostWindow
  pub idempotency : Store Reply
  pub journal : Journal
  pub calls : List Call
