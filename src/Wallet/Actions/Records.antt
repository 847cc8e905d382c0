-- ===== src/Wallet/Actions/Records.antt =====
-- The lineage obligation of the Wallet mask: one record for each action.
use banxe_payment_core.Prelude.{
  String, ◌<>◌, ◌+◌, ◌≡◌, Bool, true, false, Option, none, some, List, [], ◌∷◌, ◌++◌, arith, refl,
}
use banxe_payment_core.Exec.{Result, ok, raised, type_name}
use banxe_payment_core.Lineage.{Accepts, AgentDecisionRecord, Sink, release, persist}
use banxe_payment_core.Wallet.Types.{WalletMask, ActionContext, Evaluation, Reply, Call, Agent}
use banxe_payment_core.Wallet.Gates.{evaluate}
use banxe_payment_core.Wallet.Actions.{lineage, emit, conclude, answered, run_action}
use banxe_payment_core.Wallet.Actions.Effects.{launched, stepped, run_action_lem}

module _ (sink : Sink) (mask : WalletMask) (ctx : ActionContext) where
  -- One new record, of this action under this evaluation.
  abbrev pub Logged : Evaluation → Agent → Agent → Type 0
  Logged ev a b =
      (r : AgentDecisionRecord) × (b.journal.records ≡ a.journal.records ++ r ∷ [])
      × (r.correlation_id ≡ ctx.correlation_id)
      × (r.triggering_event ≡ ctx.triggering_event)
      × (r.policies_evaluated ≡ ev.policies)
      × (r.compliance_result ≡ ev.compliance_result)
      × (r.budget_breach_flag ≡ ev.budget_breach)
      × (r.human_reviewed_by ≡ ctx.human_reviewed_by)

  -- With a recorder that accepts, `_emit` returns the record it made.
  emit_lem :
      Accepts sink
      → (ev : Evaluation) (act : String) (x : Bool) (why : String) (a : Agent)
      → let r = lineage sink mask ctx ev act x why a in
        emit sink mask ctx ev act x why a ≡ (
          ok r,
          record a {
            journal = record { records = a.journal.records ++ r ∷ []; draws = a.journal.draws + 1 };
          },
        )
  unfolding emit persist
  emit_lem accepts ev act x why a =
      ground (arith, accepts a.journal.records (lineage sink mask ctx ev act x why a))

  -- `d` has the record that `_emit` makes in `b`, in addition to those of `a`.
  lineage-Logged :
      (ev : Evaluation) (act : String) (x : Bool) (why : String) (a b d : Agent)
      → d.journal.records ≡ a.journal.records ++ lineage sink mask ctx ev act x why b ∷ []
      → Logged ev a d
  unfolding lineage
  lineage-Logged ev act x why a b d h =
      (lineage sink mask ctx ev act x why b, h, refl, refl, refl, refl, refl, refl)

  module _ (accepts : Accepts sink) (ev : Evaluation) where
    conclude-Logged :
        (x : Bool) (r : Option Reply) (b : Agent) → Logged ev b (conclude sink mask ctx ev x r b).1
    unfolding conclude
    conclude-Logged x r b =
        lineage-Logged ev ev.action_taken x ev.reasoning_summary b b
          (conclude sink mask ctx ev x r b).1
          (ground (arith, emit_lem accepts ev ev.action_taken x ev.reasoning_summary b))

    answered-Logged : (r : Result Reply) (b : Agent) → Logged ev b (answered sink mask ctx ev r b).1
    unfolding answered
    answered-Logged (ok reply) b = conclude-Logged true (some reply) b
    answered-Logged (raised e) b =
        let act : String = "HALT_WALLET_ERROR:" <> type_name e in
        let why : String = "WalletPort raised " <> type_name e <> "; action not completed." in
        let b' : Agent = record b { window = release ctx.request_cost b.window } in
        lineage-Logged ev act false why b b' (answered sink mask ctx ev (raised e) b).1
          (ground (arith, emit_lem accepts ev act false why b'))

    module _ (call : Call) (port : List Call → Result Reply) (a : Agent) where
      stepped-Logged :
          (p : Bool) → ev.proceed ≡ p → Logged ev a (stepped sink mask ctx call port a (ok ev)).1
      stepped-Logged true p =
          simp p (answered-Logged (port a.calls) (launched sink mask ctx call port a))
      stepped-Logged false p = simp p (conclude-Logged false none a)

      -- If the recorder persists every record, an action of the Wallet mask that was evaluated
      -- without an exception leaves exactly one new record, whatever the wallet returns or raises;
      -- the record carries the action's correlation id, event and reviewer, and the policies, the
      -- compliance result and the budget flag of the evaluation.
      pub run_action-Logged :
          evaluate mask a.window ctx ≡ ok ev → Logged ev a (run_action sink mask ctx call port a).1
      run_action-Logged h =
          rw (run_action_lem sink mask ctx call port a, h) (stepped-Logged ev.proceed refl)
