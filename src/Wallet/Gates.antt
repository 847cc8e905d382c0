-- ===== src/Wallet/Gates.antt =====
-- The governance engine of src/agents/wallet_agent.py: `_band`, `_cost_breaches`,
-- `_step_up_required` and `_evaluate`. The confidence band stands before the cost cap here.
pub mod Permission
use banxe_payment_core.Prelude.{
  String, ◌<>◌, pos, ◌+ℤ◌, ltb_ℤ, leb_ℤ, Bool, true, false, not, ◌&&◌, ◌||◌, if◌then◌else◌, elem,
  string_comparable, Option, none, some, List, [], ◌∷◌, ◌++◌,
}
use banxe_payment_core.Exec.{Result, ok, raised, value_error}
use banxe_payment_core.Python.{one}
use banxe_payment_core.Lineage.{
  Float, ConfirmationDecision, auto, review, block, decision_value, ComplianceResult, pass, fail,
  escalate, na, compliance_value, BudgetBreach, RequestCost, CostWindow, resolved, in_range, clears,
  is_none, reviewer, joined,
}
use banxe_payment_core.Wallet.Types.{WalletMask, ActionContext, Evaluation}

unfoldable pub band : WalletMask → Float → ConfirmationDecision
band mask confidence =
    if ltb_ℤ mask.auto_threshold confidence
    then auto
    else if leb_ℤ mask.review_floor confidence
    then review
    else block

unfoldable pub cost_breaches : WalletMask → CostWindow → RequestCost → Bool
cost_breaches mask window c =
    ltb_ℤ mask.cost_cap.max_request_tokens c.tokens
    || ltb_ℤ mask.cost_cap.max_request_cost c.cost
    || ltb_ℤ mask.cost_cap.max_window_tokens (window.used_tokens +ℤ c.tokens)
    || ltb_ℤ mask.cost_cap.max_window_cost (window.used_cost +ℤ c.cost)

unfoldable pub step_up_required : WalletMask → ActionContext → Bool
step_up_required mask ctx = ctx.is_sensitive && mask.require_step_up_for_sensitive

-- A gate that halts the action.
abbrev pub halted :
    ConfirmationDecision
    → String
    → String
    → List String
    → ComplianceResult
    → BudgetBreach
    → String
    → Bool
    → Bool
    → Evaluation
halted d action reasoning policies compliance flag reason step_up hitl = record {
  decision = d;
  proceed = false;
  action_taken = action;
  reasoning_summary = reasoning;
  policies = policies;
  compliance_result = compliance;
  budget_breach = flag;
  halt_reason = some reason;
  requires_step_up = step_up;
  requires_hitl = hitl;
}

-- The policies that have been looked at when each gate is reached.
abbrev pub policies_scope : List String
policies_scope = "ADR-048-process-resolution" ∷ "ADR-049-scope-allow-list" ∷ []

abbrev pub policies_band : List String
policies_band = policies_scope ++ "ADR-047-HITL-AUTO-REVIEW-BLOCK" ∷ []

abbrev pub policies_cap : List String
policies_cap = policies_band ++ "ADR-047-cost-cap" ∷ []

abbrev pub policies_compliance : ActionContext → List String
policies_compliance ctx =
    policies_cap ++ ("ADR-049-compliance-gate:" <> joined ctx.compliance_contour) ∷ []

-- Gates 4 to 6, for a band that gate 3 has let through.
unfoldable pub later_gates :
    WalletMask → CostWindow → ActionContext → ConfirmationDecision → Evaluation
unfolding cost_breaches clears step_up_required
later_gates mask window ctx b =
    if cost_breaches mask window ctx.request_cost
    then halted block "HALT_COST_CAP_BREACH"
        "Cost-cap breach (per-request or per-window); action refused (ADR-047)." policies_cap na
        BudgetBreach.breach "cost_cap_breach" false false
    else if not (clears ctx.compliance_result)
    then halted block "HALT_COMPLIANCE_BLOCK"
        ("L3 compliance gate returned "
          <> compliance_value ctx.compliance_result
          <> "; action blocked.")
        (policies_compliance ctx) ctx.compliance_result BudgetBreach.none "compliance_block" false
        true
    else if step_up_required mask ctx && not ctx.biometric_verified
    then halted b "HALT_STEP_UP_REQUIRED"
        "Sensitive key-material/value movement requires biometric step-up (ADR-049 §D4)."
        (policies_compliance ctx ++ "ADR-049-D4-biometric-step-up" ∷ []) ctx.compliance_result
        BudgetBreach.none "step_up_required" true false
    else record {
      decision = b;
      proceed = true;
      action_taken = ctx.success_action;
      reasoning_summary =
          "All mask gates satisfied at "
          <> decision_value b
          <> " confidence"
          <> reviewer ctx.human_reviewed_by
          <> "; executing within scope.";
      policies = policies_compliance ctx;
      compliance_result = ctx.compliance_result;
      budget_breach = BudgetBreach.none;
      halt_reason = none;
      requires_step_up = false;
      requires_hitl = false;
    }

-- Gate 3 and those after it.
unfoldable pub band_gate :
    WalletMask → CostWindow → ActionContext → ConfirmationDecision → Evaluation
band_gate mask window ctx block =
    halted block "BLOCK_LOW_CONFIDENCE"
      "Confidence < 0.70: full stop, human confirmation mandatory (ADR-049 §D4)." policies_band
      ctx.compliance_result BudgetBreach.none "low_confidence" false true
band_gate mask window ctx review =
    if not ctx.supports_review_hitl
    then halted review "HALT_REVIEW_DEFERRED"
        "Read intent below AUTO band; reads are AUTO-only, no HITL hold (ADR-049 §D3)."
        policies_band ctx.compliance_result BudgetBreach.none "review_deferred" false true
    else if is_none ctx.human_reviewed_by
    then halted review "HOLD_FOR_REVIEW"
        "Confidence in REVIEW band: paused for HITL; escalates to BLOCK on no response."
        policies_band ctx.compliance_result BudgetBreach.none "hitl_review_required" false true
    else later_gates mask window ctx review
band_gate mask window ctx auto = later_gates mask window ctx auto

unfoldable pub evaluate : WalletMask → CostWindow → ActionContext → Result Evaluation
unfolding band in_range band_gate
evaluate mask window ctx =
    if not (in_range ctx.confidence_score)
    then raised (value_error "confidence_score must be in [0.0, 1.0]")
    else ok (
        if not (resolved ctx.process_ref)
        then halted block "HALT_UNRESOLVED_PROCESS"
            "Intent has no resolved process_ref; governance event, never improvised."
            ("ADR-048-process-resolution" ∷ []) na BudgetBreach.none "unresolved_process_ref" false
            true
        else if not (elem ctx.op mask.scope)
        then halted block "REJECT_OUT_OF_SCOPE"
            ("Operation " <> ctx.op <> " is not on the Wallet mask scope allow-list; refused.")
            policies_scope na BudgetBreach.none "out_of_scope" false false
        else band_gate mask window ctx (band mask ctx.confidence_score))
