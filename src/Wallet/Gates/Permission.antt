-- ===== src/Wallet/Gates/Permission.antt =====
-- When `_evaluate` of the Wallet mask lets an action through, stated without its tests.
use banxe_payment_core.Prelude.{
  pos, ◌≤ℤ◌, ◌<ℤ◌, ◌≡◌, ◌≢◌, ◌↔◌, ◌⊎◌, Bool, true, false, not, none, arith, ◌&&◌, elem,
  string_comparable,
}
use banxe_payment_core.Exec.{Result, ok, raised}
use banxe_payment_core.Python.{one}
use banxe_payment_core.Lineage.{
  clears, in_range_iff, resolved_iff, clears_iff, pass, na, CostWindow, ConfirmationDecision, auto,
  review,
}
use banxe_payment_core.Lineage.Window.Budget.{Affordable}
use banxe_payment_core.Wallet.Types.{WalletMask, ActionContext, Evaluation}
use banxe_payment_core.Wallet.Gates.{
  band, cost_breaches, step_up_required, later_gates, band_gate, evaluate,
}

-- Every condition of the mask holds.
pub record Permitted (mask : WalletMask) (w : CostWindow) (ctx : ActionContext) : Type 0 where
  pub score_low : pos 0 ≤ℤ ctx.confidence_score
  pub score_high : ctx.confidence_score ≤ℤ one
  pub process_named : ctx.process_ref.process_id ≢ ""
  pub version_named : ctx.process_ref.version ≢ ""
  pub in_scope : elem ctx.op mask.scope ≡ true
  pub confident :
      (mask.auto_threshold <ℤ ctx.confidence_score)
      ⊎ ((mask.review_floor ≤ℤ ctx.confidence_score)
          × (ctx.supports_review_hitl ≡ true)
          × (ctx.human_reviewed_by ≢ none))
  pub affordable : Affordable mask.cost_cap w ctx.request_cost
  pub compliant : (ctx.compliance_result ≡ pass) ⊎ (ctx.compliance_result ≡ na)
  pub stepped_up :
      (ctx.is_sensitive ≡ true) × (mask.require_step_up_for_sensitive ≡ true)
      → ctx.biometric_verified ≡ true

abbrev pub proceeds : Result Evaluation → Bool
proceeds (ok ev) = ev.proceed
proceeds (raised e) = false

module _ (mask : WalletMask) (w : CostWindow) (ctx : ActionContext) where
  cost_breaches_iff :
      (cost_breaches mask w ctx.request_cost ≡ false) ↔ Affordable mask.cost_cap w ctx.request_cost
  unfolding cost_breaches
  cost_breaches_iff = ground arith

  step_up_iff : ((step_up_required mask ctx && not ctx.biometric_verified) ≡ false) ↔ (
      (ctx.is_sensitive ≡ true) × (mask.require_step_up_for_sensitive ≡ true)
      → ctx.biometric_verified ≡ true)
  unfolding step_up_required
  step_up_iff = ground arith

  later_gates_iff :
      (b : ConfirmationDecision)
      → ((later_gates mask w ctx b).proceed ≡ true) ↔ (
          (cost_breaches mask w ctx.request_cost ≡ false)
          × (clears ctx.compliance_result ≡ true)
          × ((step_up_required mask ctx && not ctx.biometric_verified) ≡ false))
  unfolding later_gates
  later_gates_iff b = ground arith

  band_gate_iff : ((band_gate mask w ctx (band mask ctx.confidence_score)).proceed ≡ true) ↔ (
      ((mask.auto_threshold <ℤ ctx.confidence_score)
        ⊎ ((mask.review_floor ≤ℤ ctx.confidence_score)
            × (ctx.supports_review_hitl ≡ true)
            × (ctx.human_reviewed_by ≢ none)))
      × ((later_gates mask w ctx auto).proceed ≡ true))
  unfolding band_gate band
  band_gate_iff = ground (arith, later_gates_iff auto, later_gates_iff review)

  -- `_evaluate` of the Wallet mask lets an action through exactly when the score lies in [0.0, 1.0],
  -- process id and version are not empty, the operation is in the mask's scope, the score is above
  -- the AUTO threshold or has reached the review floor for an action that can be reviewed with a
  -- reviewer named, the cost fits the request and window caps, compliance is PASS or N/A, and a
  -- sensitive operation for which the mask asks a step-up is biometrically verified.
  pub evaluate-allows_iff : (proceeds (evaluate mask w ctx) ≡ true) ↔ Permitted mask w ctx
  unfolding evaluate
  evaluate-allows_iff = ground (
    arith,
    in_range_iff ctx.confidence_score,
    resolved_iff ctx.process_ref,
    cost_breaches_iff,
    clears_iff ctx.compliance_result,
    step_up_iff,
    later_gates_iff auto,
    band_gate_iff,
  )
