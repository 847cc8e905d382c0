-- ===== src/Payments/Gates/Permission.antt =====
-- When `_evaluate` of the Payments mask lets an action through, stated without its tests.
use banxe_payment_core.Prelude.{
  pos, ◌≤ℤ◌, ◌<ℤ◌, ◌≡◌, ◌≢◌, ◌↔◌, ◌⊎◌, Bool, true, false, not, Option, none, some, arith, ◌&&◌,
}
use banxe_payment_core.Exec.{Result, ok, raised}
use banxe_payment_core.Python.{one}
use banxe_payment_core.Lineage.{
  in_range_iff, resolved_iff, clears_iff, Decimal, pass, na, CostWindow,
}
use banxe_payment_core.Lineage.Window.Budget.{Affordable}
use banxe_payment_core.Payments.Types.{PaymentsMask, ActionContext, Evaluation}
use banxe_payment_core.Payments.Gates.{
  band, cost_breaches, step_up_required, confidence_gates, evaluate, policies_band,
}

-- An amount that is unknown, or is at least `m`.
abbrev pub Reaches : Decimal → Option Decimal → Type 0
Reaches m none = Unit
Reaches m (some a) = m ≤ℤ a

-- A money movement whose amount is unknown or reaches the mask's materiality.
abbrev pub Material : PaymentsMask → ActionContext → Type 0
Material mask ctx =
    (ctx.is_money_movement ≡ true)
    × (mask.require_step_up_for_money_movement ≡ true)
    × Reaches mask.step_up_materiality ctx.amount

-- Every condition of the mask holds.
pub record Permitted (mask : PaymentsMask) (w : CostWindow) (ctx : ActionContext) : Type 0 where
  pub score_low : pos 0 ≤ℤ ctx.confidence_score
  pub score_high : ctx.confidence_score ≤ℤ one
  pub process_named : ctx.process_ref.process_id ≢ ""
  pub version_named : ctx.process_ref.version ≢ ""
  pub affordable : Affordable mask.cost_cap w ctx.request_cost
  pub compliant : (ctx.compliance_result ≡ pass) ⊎ (ctx.compliance_result ≡ na)
  pub confident :
      (mask.auto_threshold <ℤ ctx.confidence_score)
      ⊎ ((mask.review_floor ≤ℤ ctx.confidence_score) × (ctx.human_reviewed_by ≢ none))
  pub stepped_up : Material mask ctx → ctx.biometric_verified ≡ true

abbrev pub proceeds : Result Evaluation → Bool
proceeds (ok ev) = ev.proceed
proceeds (raised e) = false

module _ (mask : PaymentsMask) (w : CostWindow) (ctx : ActionContext) where
  cost_breaches_iff :
      (cost_breaches mask w ctx.request_cost ≡ false) ↔ Affordable mask.cost_cap w ctx.request_cost
  unfolding cost_breaches
  cost_breaches_iff = ground arith

  step_up_iff :
      (step_up_required mask ctx && not ctx.biometric_verified ≡ false)
      ↔ (Material mask ctx → ctx.biometric_verified ≡ true)
  unfolding step_up_required
  step_up_iff = ground arith

  confident_iff :
      (proceeds (ok (confidence_gates mask ctx (band mask ctx.confidence_score) policies_band))
        ≡ true)
      ↔ (((mask.auto_threshold <ℤ ctx.confidence_score)
            ⊎ ((mask.review_floor ≤ℤ ctx.confidence_score) × (ctx.human_reviewed_by ≢ none)))
          × ((step_up_required mask ctx && not ctx.biometric_verified) ≡ false))
  unfolding confidence_gates band
  confident_iff = ground arith

  -- `_evaluate` lets an action through exactly when every condition of the mask holds.
  pub evaluate_iff : (proceeds (evaluate mask w ctx) ≡ true) ↔ Permitted mask w ctx
  unfolding evaluate
  evaluate_iff = ground (
    arith,
    in_range_iff ctx.confidence_score,
    resolved_iff ctx.process_ref,
    cost_breaches_iff,
    clears_iff ctx.compliance_result,
    step_up_iff,
    confident_iff,
  )
