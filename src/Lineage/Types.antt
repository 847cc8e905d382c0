-- ===== src/Lineage/Types.antt =====
-- The shared vocabulary of the masks: the enumerations, the value types and the lineage record of
-- src/agents/_lineage.py.
use banxe_payment_core.Prelude.{
  ℕ, String, ℤ, Bool, not, ◌&&◌, ◌==◌, string_comparable, Option, List,
}

-- A Decimal, counted in a unit small enough for every amount at hand. Python rounds a sum of more
-- than 28 significant digits; such sums are not modelled.
abbrev pub Decimal : Type 0
Decimal = ℤ

-- A finite double, counted in units of 2^-1074, of which every finite double is a whole multiple.
abbrev pub Float : Type 0
Float = ℤ

pub data ConfirmationDecision : Type 0 where
  auto review block : ConfirmationDecision

-- `.value` of the enumeration
abbrev pub decision_value : ConfirmationDecision → String
decision_value ConfirmationDecision.auto = "auto"
decision_value ConfirmationDecision.review = "review"
decision_value ConfirmationDecision.block = "block"

pub data ComplianceResult : Type 0 where
  pass fail escalate na : ComplianceResult

abbrev pub compliance_value : ComplianceResult → String
compliance_value ComplianceResult.pass = "PASS"
compliance_value ComplianceResult.fail = "FAIL"
compliance_value ComplianceResult.escalate = "ESCALATE"
compliance_value ComplianceResult.na = "N/A"

pub data BudgetBreach : Type 0 where
  none warn breach : BudgetBreach

pub record ProcessRef : Type 0 where
  pub process_id : String
  pub version : String

unfoldable pub resolved : ProcessRef → Bool
resolved p = not (p.process_id == "") && not (p.version == "")

pub record RequestCost : Type 0 where
  pub tokens : ℤ
  pub cost : Decimal

pub record CostCap : Type 0 where
  pub max_request_tokens : ℤ
  pub max_request_cost : Decimal
  pub max_window_tokens : ℤ
  pub max_window_cost : Decimal

pub record AgentDecisionRecord : Type 0 where
  pub record_id : String
  pub timestamp : ℕ
  pub agent_id : String
  pub triggering_event : String
  pub intent : String
  pub policies_evaluated : List String
  pub compliance_result : ComplianceResult
  pub reasoning_summary : String
  pub confidence_score : Float
  pub action_taken : String
  pub human_reviewed_by : Option String
  pub correlation_id : String
  pub cost_tokens : ℤ
  pub cost_amount : Decimal
  pub budget_window_ref : String
  pub budget_breach_flag : BudgetBreach
  pub immutable_storage_ref : Option String
  pub input_tokens : Option ℤ
  pub output_tokens : Option ℤ

-- `R` is what the port returns.
pub record AgentOutcome (R : Type 0) : Type 0 where
  pub decision : ConfirmationDecision
  pub executed : Bool
  pub lineage : AgentDecisionRecord
  pub result : Option R
  pub halt_reason : Option String
  pub requires_step_up : Bool
  pub requires_hitl : Bool
