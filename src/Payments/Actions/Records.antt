-- ===== src/Payments/Actions/Records.antt =====
-- The lineage obligation of the Payments mask: one record for each action.
use banxe_payment_core.Prelude.{
  String, ◌<>◌, ◌+◌, ◌≡◌, Bool, true, false, none, List, [], ◌∷◌, ◌++◌, arith, refl,
}
use banxe_payment_core.Exec.{partner, other, Result, ok, raised, type_name}
use banxe_payment_core.Lineage.{
  Accepts, ComplianceResult, AgentDecisionRecord, Sink, add, release, persist,
}
use banxe_payment_core.Payments.Types.{PaymentsMask, ActionContext, Evaluation, Reply, Call, Agent}
use banxe_payment_core.Payments.Gates.{evaluate}
use banxe_payment_core.Payments.Actions.{lineage, emit, conclude, blocked, answered, run_action}
use banxe_payment_core.Payments.Actions.Effects.{caught, stepped, run_action_lem}

module _ (sink : Sink) (mask : PaymentsMask) (ctx : ActionContext) where
  -- One new record, of this action under this evaluation.
  abbrev pub Recorded : Evaluation → Agent → Agent → Type 0
  Recorded ev a b =
      (r : AgentDecisionRecord) × (b.journal.records ≡ a.journal.records ++ r ∷ [])
      × (r.correlation_id ≡ ctx.correlation_id)
      × (r.triggering_event ≡ ctx.triggering_event)
      × (r.policies_evaluated ≡ ev.policies)
      × (r.budget_breach_flag ≡ ev.budget_breach)
      × (r.cost_tokens ≡ ctx.request_cost.tokens)
      × (r.cost_amount ≡ ctx.request_cost.cost)

  -- With a recorder that accepts, `_emit` returns the record it made.
  pub emit_lem :
      Accepts sink
      → (ev : Evaluation) (act : String) (x : Bool) (c : ComplianceResult) (why : String)
        (a : Agent)
      → let r = lineage sink mask ctx ev act x c why a in
        emit sink mask ctx ev act x c why a ≡ (
          ok r,
          record a {
            journal = record { records = a.journal.records ++ r ∷ []; draws = a.journal.draws + 1 };
          },
        )
  unfolding emit persist
  emit_lem accepts ev act x c why a =
      ground (arith, accepts a.journal.records (lineage sink mask ctx ev act x c why a))

  abbrev Fits : Evaluation → Agent → AgentDecisionRecord → Agent → Type 0
  Fits ev a r b = b.journal.records ≡ a.journal.records ++ r ∷ []

  lineage-Recorded :
      (ev : Evaluation) (act : String) (x : Bool) (c : ComplianceResult) (why : String)
      (a b d : Agent)
      → Fits ev a (lineage sink mask ctx ev act x c why b) d
      → Recorded ev a d
  unfolding lineage
  lineage-Recorded ev act x c why a b d h =
      (lineage sink mask ctx ev act x c why b, h, refl, refl, refl, refl, refl, refl)

  module _ (call : Call) (port : List Call → Result Reply) (a : Agent) where
    answered-Recorded :
        Accepts sink
        → (ev : Evaluation) (r : Result Reply) (b : Agent) → caught r ≡ true
        → Recorded ev b (answered sink mask ctx ev r b).1
    unfolding answered conclude
    answered-Recorded accepts ev (ok r) b h =
        lineage-Recorded ev ev.action_taken true ev.compliance_result ev.reasoning_summary b b
          (answered sink mask ctx ev (ok r) b).1
          (ground (
            arith,
            emit_lem accepts ev ev.action_taken true ev.compliance_result ev.reasoning_summary b,
          ))
    answered-Recorded accepts ev (raised (partner k m)) b h =
        let act : String = "HALT_PARTNER_ERROR:" <> type_name (partner k m) in
        let why : String = "Port rejected the action: " <> m in
        let c = blocked k ev.compliance_result in
        let b' : Agent = record b { window = release ctx.request_cost b.window } in
        lineage-Recorded ev act false c why b b'
          (answered sink mask ctx ev (raised (partner k m)) b).1
          (ground (arith, emit_lem accepts ev act false c why b'))
    answered-Recorded accepts ev (raised (other n m)) b h = cc
    answered-Recorded accepts ev (raised e) b h = cc

    stepped-Recorded :
        Accepts sink
        → (ev : Evaluation) (p : Bool) → ev.proceed ≡ p
        → (p ≡ true → caught (port a.calls) ≡ true)
        → Recorded ev a (stepped sink mask ctx call port a (ok ev)).1
    unfolding conclude
    stepped-Recorded accepts ev true p c = simp p (
        answered-Recorded accepts ev (port a.calls)
          (record a { window = add ctx.request_cost a.window; calls = a.calls ++ call ∷ [] })
          (c refl))
    stepped-Recorded accepts ev false p c = simp p (
        lineage-Recorded ev ev.action_taken false ev.compliance_result ev.reasoning_summary a a
          (conclude sink mask ctx ev false none a).1
          (ground (
            arith,
            emit_lem accepts ev ev.action_taken false ev.compliance_result ev.reasoning_summary a,
          )))

    -- Whatever else happens, an evaluated action leaves exactly one new record, of this action.
    pub run_action-lineage :
        (ev : Evaluation)
        → Accepts sink
        → evaluate mask a.window ctx ≡ ok ev
        → (ev.proceed ≡ true → caught (port a.calls) ≡ true)
        → Recorded ev a (run_action sink mask ctx call port a).1
    run_action-lineage ev accepts h c =
        rw (run_action_lem sink mask ctx call port a, h)
          (stepped-Recorded accepts ev ev.proceed refl c)
