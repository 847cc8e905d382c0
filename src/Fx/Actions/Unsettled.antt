-- ===== src/Fx/Actions/Unsettled.antt =====
-- A filled order of src/agents/fx_exchange_agent.py whose settlement leg fails: the outcome is not
-- kept, so that the order is placed again when it is submitted again.
use banxe_payment_core.Prelude.{
  String, ◌≡◌, true, if◌then◌else◌, Option, none, some, List, [], ◌∷◌, ◌++◌, arith, refl, ap, ◌∙◌,
  ◌<>◌, lookup, string_comparable,
}
use banxe_payment_core.Exec.{map_result, Exc, Result, ok, raised, continue, type_name, message}
use banxe_payment_core.Python.{decimal}
use banxe_payment_core.Ports.{OrderResult, SignedTx}
use banxe_payment_core.Lineage.{Accepts, Decimal, ComplianceResult, AgentOutcome, Sink}
use banxe_payment_core.Fx.Types.{
  FxExchangeMask, OrderIntent, ActionContext, Evaluation, Reply, Call, Agent, SettlementInstruction,
}
use banxe_payment_core.Fx.Gates.{evaluate}
use banxe_payment_core.Fx.Gates.Permission.{proceeds}
use banxe_payment_core.Fx.Contexts.{order_context}
use banxe_payment_core.Fx.Actions.{
  Ports, settle_leg, leg, settled, deliver, answered, rejected, run_action, keep, place,
  unless_placed, place_order,
}
use banxe_payment_core.Fx.Actions.Effects.{
  legs, launched, stepped, run_action_lem, run_action-ports,
}
use banxe_payment_core.Fx.Actions.Records.{emit_lem}
use banxe_payment_core.Fx.Actions.Orders.{run_action-placed}

module _ (sink : Sink) (mask : FxExchangeMask) (ports : Ports) (q : OrderIntent)
    (c : ComplianceResult) (by : Option String) where
  abbrev order_call : Call
  order_call = Call.place_order q.order

  abbrev pub exchange_answer : List Call → Result Reply
  exchange_answer calls = map_result Reply.order (ports.exchange_port.place_order calls q.order)

  -- `keep` makes no call.
  keep-calls :
      (id : String) (r : Result (AgentOutcome Reply)) (b : Agent)
      → (continue (r, b) (keep id)).1.calls ≡ b.calls
  unfolding keep
  keep-calls id (ok o) b = ground arith
  keep-calls id (raised e) b = refl

  keep-raised :
      (id : String) (r : Result (AgentOutcome Reply)) (b : Agent) (e : Exc)
      → r ≡ raised e
      → continue (r, b) (keep id) ≡ (raised e, b)
  keep-raised id r b e h = rw h refl

  module _ (x : Decimal) where
    abbrev pub ctx : ActionContext
    ctx = order_context q x c by

    abbrev run : Agent → Result (AgentOutcome Reply) × Agent
    run a = run_action sink mask ports ctx order_call exchange_answer q.settlement a

    unplaced_lem :
        (a : Agent)
        → lookup q.order.client_order_id a.placed ≡ none
        → decimal q.order.amount ≡ some x
        → place_order sink mask ports q c by a ≡ continue (run a) (keep q.order.client_order_id)
    unfolding place_order unless_placed place
    unplaced_lem a n d = rw (n, d) refl

    settled-raised :
        (ev : Evaluation) (reply : Reply) (t : Result SignedTx) (e : Exc) (b : Agent)
        → Accepts sink
        → t ≡ raised e
        → (settled sink mask ctx ev reply t b).0 ≡ raised e
    unfolding settled
    settled-raised ev reply t e b accepts h =
        let act : String = "HALT_SETTLEMENT_ERROR:" <> type_name e in
        let why : String = "Order placed but WalletPort settlement leg failed: " <> message e in
        rw h (ground (arith, emit_lem sink mask ctx accepts ev act true ev.compliance_result why b))

    deliver-raised :
        (ev : Evaluation) (reply : Reply) (s : SettlementInstruction)
        (o : Option SettlementInstruction) (e : Exc) (b : Agent)
        → Accepts sink
        → o ≡ some s
        → settle_leg ports b.calls s ≡ raised e
        → (deliver sink mask ports ctx ev reply o b).0 ≡ raised e
    unfolding deliver
    deliver-raised ev reply s o e b accepts h w = rw h (
        settled-raised ev reply (settle_leg ports b.calls s) e
          (record b { calls = b.calls ++ Call.sign_tx s ∷ [] }) accepts w)

    answered-raised :
        (ev : Evaluation) (t : Result OrderResult) (r : OrderResult) (s : SettlementInstruction)
        (e : Exc) (b : Agent)
        → Accepts sink
        → t ≡ ok r
        → leg q.settlement (Reply.order r) ≡ some s
        → settle_leg ports b.calls s ≡ raised e
        → (answered sink mask ports ctx ev q.settlement (map_result Reply.order t) b).0 ≡ raised e
    unfolding answered rejected
    answered-raised ev t r s e b accepts h l w =
        rw h (deliver-raised ev (Reply.order r) s _ e b accepts l w)

    stepped-raised :
        (v : Result Evaluation) (a : Agent) (r : OrderResult) (s : SettlementInstruction) (e : Exc)
        → Accepts sink
        → proceeds v ≡ true
        → ports.exchange_port.place_order a.calls q.order ≡ ok r
        → leg q.settlement (Reply.order r) ≡ some s
        → settle_leg ports (a.calls ++ order_call ∷ []) s ≡ raised e
        → (stepped sink mask ports ctx order_call exchange_answer q.settlement a v).0 ≡ raised e
    stepped-raised (raised x) a r s e accepts p o l w = cc p
    stepped-raised (ok ev) a r s e accepts p o l w = simp p (
        answered-raised ev _ r s e
          (launched sink mask ports ctx order_call exchange_answer q.settlement a) accepts o l w)

    -- The failed settlement is passed on, and nothing is kept.
    run-raised :
        (a : Agent) (r : OrderResult) (s : SettlementInstruction) (e : Exc)
        → Accepts sink
        → proceeds (evaluate mask a.window ctx) ≡ true
        → ports.exchange_port.place_order a.calls q.order ≡ ok r
        → leg q.settlement (Reply.order r) ≡ some s
        → settle_leg ports (a.calls ++ order_call ∷ []) s ≡ raised e
        → (run a).0 ≡ raised e
    run-raised a r s e accepts p o l w =
        rw (run_action_lem sink mask ports ctx order_call exchange_answer q.settlement a)
          (stepped-raised (evaluate mask a.window ctx) a r s e accepts p o l w)

    unplaced-calls :
        (a : Agent)
        → lookup q.order.client_order_id a.placed ≡ none
        → decimal q.order.amount ≡ some x
        → (place_order sink mask ports q c by a).1.calls ≡ (
            if proceeds (evaluate mask a.window ctx)
            then (a.calls ++ order_call ∷ []) ++ legs q.settlement (exchange_answer a.calls)
            else a.calls)
    unplaced-calls a n d = rw (unplaced_lem a n d) (
        keep-calls q.order.client_order_id (run a).0 (run a).1
        ∙ run_action-ports sink mask ports ctx order_call exchange_answer q.settlement a)

    -- If the recorder persists every record, an order that is not kept yet and is permitted is
    -- answered as filled with a settlement instruction, and the wallet raises an exception, then
    -- `place_order` raises that exception, and the same order, placed again at once, goes to the
    -- exchange again if the mask still permits it.
    pub place_order-unsettled :
        (a : Agent) (r : OrderResult) (s : SettlementInstruction) (e : Exc)
        → Accepts sink
        → lookup q.order.client_order_id a.placed ≡ none
        → decimal q.order.amount ≡ some x
        → proceeds (evaluate mask a.window ctx) ≡ true
        → ports.exchange_port.place_order a.calls q.order ≡ ok r
        → leg q.settlement (Reply.order r) ≡ some s
        → settle_leg ports (a.calls ++ order_call ∷ []) s ≡ raised e
        → let (t, b) = place_order sink mask ports q c by a in
          (t ≡ raised e)
          × ((place_order sink mask ports q c by b).1.calls ≡ (
              if proceeds (evaluate mask b.window ctx)
              then (b.calls ++ order_call ∷ []) ++ legs q.settlement (exchange_answer b.calls)
              else b.calls))
    place_order-unsettled a r s e accepts n d p o l w =
        let h =
          unplaced_lem a n d
          ∙ keep-raised q.order.client_order_id (run a).0 (run a).1 e
              (run-raised a r s e accepts p o l w) in
        let k = run_action-placed sink mask ports ctx order_call exchange_answer q.settlement a in
        (
          ap (λ t. t.0) h,
          unplaced-calls _
              (ap (λ t. lookup q.order.client_order_id t.1.placed) h
                ∙ ap (lookup q.order.client_order_id) k
                ∙ n)
              d,
        )
