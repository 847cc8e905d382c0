-- ===== src/Fx/Types.antt =====
-- The FX mask's configuration, intents and evaluation records: the types of
-- src/agents/fx_exchange_agent.py.
use banxe_payment_core.Prelude.{String, Bool, true, Option, List, [], ◌∷◌, Dict}
use banxe_payment_core.Python.{nine_tenths, seven_tenths}
use banxe_payment_core.Ports.{RateQuote, OrderRequest, OrderResult, ChainId, SeedMaterial}
use banxe_payment_core.Lineage.{
  Decimal, Float, ConfirmationDecision, ComplianceResult, BudgetBreach, ProcessRef, RequestCost,
  CostCap, CostWindow, AgentOutcome, Journal,
}

pub data AutonomyLevel : Type 0 where
  auto_biased review_biased : AutonomyLevel

pub record FxExchangeMask : Type 0 where
  pub cost_cap : CostCap
  pub auto_threshold : Float
  pub review_floor : Float
  pub autonomy_level : AutonomyLevel
  pub lineage_obligation : Bool
  pub require_step_up_for_money_movement : Bool
  pub agent_id : String
  pub scope : List String
  pub compliance_gate : List String

-- FXExchangeMask(cost_cap=…), with the defaults of the class.
abbrev pub fx_mask : CostCap → FxExchangeMask
fx_mask cap = record {
  cost_cap = cap;
  auto_threshold = nine_tenths;
  review_floor = seven_tenths;
  autonomy_level = auto_biased;
  lineage_obligation = true;
  require_step_up_for_money_movement = true;
  agent_id = "fx_exchange_agent";
  scope =
      "ExchangePort.get_rate" ∷ "ExchangePort.place_order" ∷ "ExchangePort.cancel_order"
      ∷ "WalletPort.sign_tx" ∷ [];
  compliance_gate = "AML" ∷ "SANCTIONS" ∷ "TRAVEL_RULE" ∷ [];
}

pub record RateQuoteIntent : Type 0 where
  pub intent_text : String
  pub process_ref : ProcessRef
  pub base_asset : String
  pub quote_asset : String
  pub correlation_id : String
  pub confidence_score : Float
  pub request_cost : RequestCost

-- `tx_payload` is any object, handed on to the wallet; here a text that stands for it.
pub record SettlementInstruction : Type 0 where
  pub chain : ChainId
  pub seed : SeedMaterial
  pub derivation_path : String
  pub tx_payload : String

pub record OrderIntent : Type 0 where
  pub intent_text : String
  pub process_ref : ProcessRef
  pub order : OrderRequest
  pub correlation_id : String
  pub confidence_score : Float
  pub request_cost : RequestCost
  pub biometric_verified : Bool
  pub settlement : Option SettlementInstruction

pub record CancelOrderIntent : Type 0 where
  pub intent_text : String
  pub process_ref : ProcessRef
  pub order_id : String
  pub correlation_id : String
  pub confidence_score : Float
  pub request_cost : RequestCost
  pub biometric_verified : Bool

pub record ActionContext : Type 0 where
  pub intent_text : String
  pub process_ref : ProcessRef
  pub correlation_id : String
  pub confidence_score : Float
  pub triggering_event : String
  pub success_action : String
  pub op : String
  pub request_cost : RequestCost
  pub compliance_result : ComplianceResult
  pub is_money_movement : Bool
  pub amount : Option Decimal
  pub biometric_verified : Bool
  pub human_reviewed_by : Option String
  pub supports_review_hitl : Bool

pub record Evaluation : Type 0 where
  pub decision : ConfirmationDecision
  pub proceed : Bool
  pub action_taken : String
  pub reasoning_summary : String
  pub policies : List String
  pub compliance_result : ComplianceResult
  pub budget_breach : BudgetBreach
  pub halt_reason : Option String
  pub requires_step_up : Bool
  pub requires_hitl : Bool

-- What the exchange's awaited calls return.
pub data Reply : Type 0 where
  rate : RateQuote → Reply
  order : OrderResult → Reply
  cancelled : Bool → Reply

-- A call that has been made of a port. The settlement leg's call of the wallet is `sign_tx`.
pub data Call : Type 0 where
  get_rate : String → String → Call
  place_order : OrderRequest → Call
  cancel_order : String → Call
  sign_tx : SettlementInstruction → Call

-- The agent's attributes, what its recorder has persisted, and the calls made of its ports.
pub record Agent : Type 0 where
  pub window : CostWindow
  pub placed : Dict String (AgentOutcome Reply)
  pub journal : Journal
  pub calls : List Call
