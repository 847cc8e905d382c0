-- ===== src/Fx/Actions/Records.antt =====
-- The lineage obligation of the FX mask: one record for each action.
use banxe_payment_core.Prelude.{
  String, ◌<>◌, ◌+◌, ◌≡◌, Bool, true, false, Option, none, some, List, [], ◌∷◌, ◌++◌, arith, refl,
}
use banxe_payment_core.Exec.{exchange, other, Result, ok, raised, type_name, message}
use banxe_payment_core.Ports.{SignedTx}
use banxe_payment_core.Lineage.{
  Accepts, ComplianceResult, AgentDecisionRecord, Sink, release, persist,
}
use banxe_payment_core.Fx.Types.{
  FxExchangeMask, ActionContext, Evaluation, Reply, Call, Agent, SettlementInstruction,
}
use banxe_payment_core.Fx.Gates.{evaluate}
use banxe_payment_core.Fx.Actions.{
  Ports, settle_leg, lineage, emit, conclude, blocked, leg, settled, deliver, answered, rejected,
  run_action,
}
use banxe_payment_core.Fx.Actions.Effects.{launched, stepped, run_action_lem}

-- What `_run_action` catches of the exchange, or needs not catch.
abbrev pub caught : Result Reply → Bool
caught (ok r) = true
caught (raised (exchange k m)) = true
caught (raised e) = false

module _ (sink : Sink) (mask : FxExchangeMask) (ctx : ActionContext) where
  -- With a recorder that accepts, `_emit` returns the record it made.
  pub emit_lem :
      Accepts sink
      → (ev : Evaluation) (act : String) (x : Bool) (c : ComplianceResult) (why : String)
        (a : Agent)
      → let r = lineage sink mask ctx ev act x c why a in
        emit sink mask ctx ev act x c why a ≡ (
          ok r,
          record a {
            journal = record { records = a.journal.records ++ r ∷ []; draws = a.journal.draws + 1 };
          },
        )
  unfolding emit persist
  emit_lem accepts ev act x c why a =
      ground (arith, accepts a.journal.records (lineage sink mask ctx ev act x c why a))

module _ (sink : Sink) (mask : FxExchangeMask) (ports : Ports) (ctx : ActionContext) where
  -- One new record, of this action under this evaluation.
  abbrev pub Recorded : Evaluation → Agent → Agent → Type 0
  Recorded ev a b =
      (r : AgentDecisionRecord) × (b.journal.records ≡ a.journal.records ++ r ∷ [])
      × (r.correlation_id ≡ ctx.correlation_id)
      × (r.triggering_event ≡ ctx.triggering_event)
      × (r.policies_evaluated ≡ ev.policies)
      × (r.budget_breach_flag ≡ ev.budget_breach)
      × (r.human_reviewed_by ≡ ctx.human_reviewed_by)

  -- `d` has the record that `_emit` makes in `b`, in addition to those of `a`.
  lineage-Recorded :
      (ev : Evaluation) (act : String) (x : Bool) (c : ComplianceResult) (why : String)
      (a b d : Agent)
      → d.journal.records ≡ a.journal.records ++ lineage sink mask ctx ev act x c why b ∷ []
      → Recorded ev a d
  unfolding lineage
  lineage-Recorded ev act x c why a b d h =
      (lineage sink mask ctx ev act x c why b, h, refl, refl, refl, refl, refl)

  module _ (accepts : Accepts sink) (ev : Evaluation) where
    conclude-Recorded :
        (x : Bool) (r : Option Reply) (b : Agent)
        → Recorded ev b (conclude sink mask ctx ev x r b).1
    unfolding conclude
    conclude-Recorded x r b =
        lineage-Recorded ev ev.action_taken x ev.compliance_result ev.reasoning_summary b b
          (conclude sink mask ctx ev x r b).1
          (ground (
            arith,
            emit_lem sink mask ctx accepts ev ev.action_taken x ev.compliance_result
                ev.reasoning_summary b,
          ))

    settled-Recorded :
        (reply : Reply) (t : Result SignedTx) (b : Agent)
        → Recorded ev b (settled sink mask ctx ev reply t b).1
    unfolding settled
    settled-Recorded reply (ok tx) b = conclude-Recorded true (some reply) b
    settled-Recorded reply (raised e) b =
        let act : String = "HALT_SETTLEMENT_ERROR:" <> type_name e in
        let why : String = "Order placed but WalletPort settlement leg failed: " <> message e in
        lineage-Recorded ev act true ev.compliance_result why b b
          (settled sink mask ctx ev reply (raised e) b).1
          (ground (arith, emit_lem sink mask ctx accepts ev act true ev.compliance_result why b))

    deliver-Recorded :
        (reply : Reply) (s : Option SettlementInstruction) (b : Agent)
        → Recorded ev b (deliver sink mask ports ctx ev reply s b).1
    unfolding deliver
    deliver-Recorded reply none b = conclude-Recorded true (some reply) b
    deliver-Recorded reply (some s) b =
        settled-Recorded reply (settle_leg ports b.calls s)
          (record b { calls = b.calls ++ Call.sign_tx s ∷ [] })

    answered-Recorded :
        (settle : Option SettlementInstruction) (r : Result Reply) (b : Agent)
        → caught r ≡ true
        → Recorded ev b (answered sink mask ports ctx ev settle r b).1
    unfolding answered rejected
    answered-Recorded settle (ok reply) b h = deliver-Recorded reply (leg settle reply) b
    answered-Recorded settle (raised (exchange k m)) b h =
        let act : String = "HALT_EXCHANGE_ERROR:" <> type_name (exchange k m) in
        let why : String = "Port rejected the action: " <> m in
        let c = blocked k ev.compliance_result in
        let b' : Agent = record b { window = release ctx.request_cost b.window } in
        lineage-Recorded ev act false c why b b'
          (answered sink mask ports ctx ev settle (raised (exchange k m)) b).1
          (ground (arith, emit_lem sink mask ctx accepts ev act false c why b'))
    answered-Recorded settle (raised (other n m)) b h = cc
    answered-Recorded settle (raised e) b h = cc

    module _ (call : Call) (port : List Call → Result Reply) (settle : Option SettlementInstruction)
        (a : Agent) where
      stepped-Recorded :
          (p : Bool)
          → ev.proceed ≡ p
          → (p ≡ true → caught (port a.calls) ≡ true)
          → Recorded ev a (stepped sink mask ports ctx call port settle a (ok ev)).1
      stepped-Recorded true p c = simp p (
          answered-Recorded settle (port a.calls) (launched sink mask ports ctx call port settle a)
            (c refl))
      stepped-Recorded false p c = simp p (conclude-Recorded false none a)

      -- If the recorder persists every record, an action of the FX mask that was evaluated without
      -- an exception, and for which the exchange, if it was called, returned or raised an
      -- ExchangePortError, leaves exactly one new record, whatever the wallet does; the record
      -- carries the action's correlation id, event and reviewer, and the policies and the budget
      -- flag of the evaluation.
      pub run_action-Recorded :
          evaluate mask a.window ctx ≡ ok ev
          → (ev.proceed ≡ true → caught (port a.calls) ≡ true)
          → Recorded ev a (run_action sink mask ports ctx call port settle a).1
      run_action-Recorded h c =
          rw (run_action_lem sink mask ports ctx call port settle a, h)
            (stepped-Recorded ev.proceed refl c)
