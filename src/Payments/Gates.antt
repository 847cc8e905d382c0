-- ===== src/Payments/Gates.antt =====
-- The governance engine of src/agents/payments_agent.py: `_band`, `_cost_breaches`,
-- `_step_up_required` and `_evaluate`.
pub mod Permission
use banxe_payment_core.Prelude.{
  String, ◌<>◌, pos, ◌+ℤ◌, ltb_ℤ, leb_ℤ, Bool, true, false, not, ◌&&◌, ◌||◌, if◌then◌else◌, Option,
  none, some, List, [], ◌∷◌, ◌++◌,
}
use banxe_payment_core.Exec.{Result, ok, raised, value_error}
use banxe_payment_core.Python.{one}
use banxe_payment_core.Lineage.{
  Float, ConfirmationDecision, auto, review, block, decision_value, ComplianceResult, pass, fail,
  escalate, na, compliance_value, BudgetBreach, RequestCost, CostWindow, resolved, in_range, clears,
  is_none, reviewer, joined,
}
use banxe_payment_core.Payments.Types.{PaymentsMask, ActionContext, Evaluation}

unfoldable pub band : PaymentsMask → Float → ConfirmationDecision
band mask confidence =
    if ltb_ℤ mask.auto_threshold confidence
    then auto
    else if leb_ℤ mask.review_floor confidence
    then review
    else block

unfoldable pub cost_breaches : PaymentsMask → CostWindow → RequestCost → Bool
cost_breaches mask window c =
    ltb_ℤ mask.cost_cap.max_request_tokens c.tokens
    || ltb_ℤ mask.cost_cap.max_request_cost c.cost
    || ltb_ℤ mask.cost_cap.max_window_tokens (window.used_tokens +ℤ c.tokens)
    || ltb_ℤ mask.cost_cap.max_window_cost (window.used_cost +ℤ c.cost)

unfoldable pub step_up_required : PaymentsMask → ActionContext → Bool
step_up_required mask ctx =
    if not (ctx.is_money_movement && mask.require_step_up_for_money_movement)
    then false
    else elim ctx.amount [ none ↦ true | some a ↦ leb_ℤ mask.step_up_materiality a ]

abbrev is_block : ConfirmationDecision → Bool
is_block block = true
is_block auto = false
is_block review = false

-- `band is REVIEW and human_reviewed_by is None`
abbrev pub unreviewed : ConfirmationDecision → Option String → Bool
unreviewed review none = true
unreviewed review (some r) = false
unreviewed auto r = false
unreviewed block r = false

-- A gate that halts the action.
abbrev pub halted :
    ConfirmationDecision
    → String
    → String
    → List String
    → ComplianceResult
    → BudgetBreach
    → String
    → Bool
    → Bool
    → Evaluation
halted d action reasoning policies compliance flag reason step_up hitl = record {
  decision = d;
  proceed = false;
  action_taken = action;
  reasoning_summary = reasoning;
  policies = policies;
  compliance_result = compliance;
  budget_breach = flag;
  halt_reason = some reason;
  requires_step_up = step_up;
  requires_hitl = hitl;
}

-- `ev` for a band that the gates before it have let through: gates 4 and 5.
confidence_gates : PaymentsMask → ActionContext → ConfirmationDecision → List String → Evaluation
unfolding step_up_required
confidence_gates mask ctx b policies =
    if is_block b
    then halted b "BLOCK_LOW_CONFIDENCE"
        "Confidence < 0.70: full stop, human confirmation mandatory (ADR-049 §D4)." policies
        ctx.compliance_result BudgetBreach.none "low_confidence" false true
    else if unreviewed b ctx.human_reviewed_by
    then halted b "HOLD_FOR_REVIEW"
        "Confidence in REVIEW band: paused for HITL; escalates to BLOCK on no response." policies
        ctx.compliance_result BudgetBreach.none "hitl_review_required" false true
    else if step_up_required mask ctx && not ctx.biometric_verified
    then halted b "HALT_STEP_UP_REQUIRED"
        "Critical money movement requires biometric step-up before commit (ADR-049 §D4)."
        (policies ++ "ADR-049-D4-biometric-step-up" ∷ []) ctx.compliance_result BudgetBreach.none
        "step_up_required" true false
    else record {
      decision = b;
      proceed = true;
      action_taken = ctx.success_action;
      reasoning_summary =
          "All mask gates satisfied at "
          <> decision_value b
          <> " confidence"
          <> reviewer ctx.human_reviewed_by
          <> "; executing within scope.";
      policies = policies;
      compliance_result = ctx.compliance_result;
      budget_breach = BudgetBreach.none;
      halt_reason = none;
      requires_step_up = false;
      requires_hitl = false;
    }

-- The policies that have been looked at when gate 2, 3 or 4 is reached.
abbrev policies_resolution : List String
policies_resolution = "ADR-048-process-resolution" ∷ []

abbrev policies_cap : List String
policies_cap = policies_resolution ++ "ADR-047-cost-cap" ∷ []

abbrev policies_compliance : List String
policies_compliance = policies_cap ++ "ADR-049-compliance-gate:AML+SANCTIONS+TRAVEL_RULE" ∷ []

abbrev policies_band : List String
policies_band = policies_compliance ++ "ADR-047-HITL-AUTO-REVIEW-BLOCK" ∷ []

unfoldable pub evaluate : PaymentsMask → CostWindow → ActionContext → Result Evaluation
unfolding band cost_breaches in_range clears confidence_gates
evaluate mask window ctx =
    if not (in_range ctx.confidence_score)
    then raised (value_error "confidence_score must be in [0.0, 1.0]")
    else ok (
        if not (resolved ctx.process_ref)
        then halted block "HALT_UNRESOLVED_PROCESS"
            "Intent has no resolved process_ref; governance event, never improvised."
            policies_resolution na BudgetBreach.none "unresolved_process_ref" false true
        else if cost_breaches mask window ctx.request_cost
        then halted block "HALT_COST_CAP_BREACH"
            "Cost-cap breach (per-request or per-window); action refused (ADR-047)." policies_cap na
            BudgetBreach.breach "cost_cap_breach" false false
        else if not (clears ctx.compliance_result)
        then halted block "HALT_COMPLIANCE_BLOCK"
            ("L3 compliance gate returned "
              <> compliance_value ctx.compliance_result
              <> "; payment blocked.")
            policies_compliance ctx.compliance_result BudgetBreach.none "compliance_block" false
            true
        else confidence_gates mask ctx (band mask ctx.confidence_score) policies_band)
