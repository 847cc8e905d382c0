-- ===== src/Fx/Interleaving/Sequential.antt =====
-- An order of src/agents/fx_exchange_agent.py that is answered before the next is placed.
use banxe_payment_core.Prelude.{
  ◌≡◌, refl, sym, ap, ◌∙◌, false, Option, none, some, List, [], ◌∷◌, ◌++◌, arith, pick, lookup,
  string_comparable, Bool-cases, Option-cases, inl, inr,
}
use banxe_payment_core.Exec.{Result, ok, raised, other, map_result, continue}
use banxe_payment_core.Python.{decimal}
use banxe_payment_core.Ports.{OrderResult, SignedTx}
use banxe_payment_core.Lineage.{Decimal, RequestCost, AgentOutcome, Sink, add}
use banxe_payment_core.Fx.Types.{
  FxExchangeMask, SettlementInstruction, ActionContext, Evaluation, Reply, Call, Agent,
}
use banxe_payment_core.Fx.Gates.{evaluate}
use banxe_payment_core.Fx.Actions.{
  Ports, settle_leg, leg, keep, conclude, deliver, answered, place, unless_placed, place_order,
}
use banxe_payment_core.Fx.Actions.Effects.{started, begin_lem, stepped, run_action_lem}
use banxe_payment_core.Fx.Interleaving.{
  Placement, idle, exchanging, Pool, Event, submit, exchange_answers, wallet_answers, launched,
  launch, filled, land, settle, step, run,
}
use banxe_payment_core.Fx.Interleaving.Races.{context_of, id_of}

leg-settlement :
    (o : Option SettlementInstruction) (r : Reply) (s : SettlementInstruction)
    → leg o r ≡ some s
    → o ≡ some s
unfolding leg
leg-settlement none r s h = ground (arith, h)
leg-settlement (some t) r s h = ground (arith, h)

module _ (sink : Sink) (mask : FxExchangeMask) (ports : Ports) (q : Placement) where
  -- What the wallet answers for the order's settlement, if it has any.
  abbrev pub wallet : List Call → Option SettlementInstruction → Result SignedTx
  wallet calls (some s) = settle_leg ports calls s
  wallet calls none = raised (other "" "")

  abbrev closed : Result (AgentOutcome Reply) × Agent → Agent
  closed out = (continue out (keep (id_of q))).1

  filled-delivered :
      (ctx : ActionContext) (ev : Evaluation) (reply : Reply) (o : Option SettlementInstruction)
      (b : Agent) (kept : List RequestCost)
      → leg q.intent.settlement reply ≡ o
      → (step sink mask
          (wallet_answers 0 (wallet b.calls q.intent.settlement))
          (filled sink mask ctx ev q.intent reply o [] b kept)).agent
        ≡ closed (deliver sink mask ports ctx ev reply o b)
  unfolding step settle deliver pick
  filled-delivered ctx ev reply none b kept h = refl
  filled-delivered ctx ev reply (some s) b kept h =
      rw (leg-settlement q.intent.settlement reply s h) refl

  -- The two answers to an order in flight, one after the other.
  answered_twice :
      (ctx : ActionContext) (ev : Evaluation) (r : Result OrderResult) (b : Agent) (p : Pool)
      → p.agent ≡ b
      → (step sink mask
          (wallet_answers 0 (wallet b.calls q.intent.settlement))
          (land sink mask (exchanging ctx ev q.intent) [] r p)).agent
        ≡ closed (answered sink mask ports ctx ev q.intent.settlement (map_result Reply.order r) b)
  unfolding land answered
  answered_twice ctx ev (ok r) b p e = rw e (
      filled-delivered ctx ev (Reply.order r) (leg q.intent.settlement (Reply.order r)) b
        (ctx.request_cost ∷ p.kept) refl)
  answered_twice ctx ev (raised x) b p e = rw e (unfold step in unfold pick in refl)

  landing :
      (ctx : ActionContext) (ev : Evaluation) (r : Result OrderResult) (p : Pool)
      → p.flights ≡ exchanging ctx ev q.intent ∷ []
      → step sink mask (exchange_answers 0 r) p ≡ land sink mask (exchanging ctx ev q.intent) [] r p
  unfolding step pick
  landing ctx ev r p h = rw h refl

  -- Without an outcome that was executed nothing is kept.
  concluded-closed :
      (ctx : ActionContext) (ev : Evaluation) (b : Agent)
      → closed (conclude sink mask ctx ev false none b) ≡ (conclude sink mask ctx ev false none b).1
  unfolding conclude keep
  concluded-closed ctx ev b = ground arith

  module _ (a : Agent) where
    abbrev exchange_reply : Result OrderResult
    exchange_reply = ports.exchange_port.place_order a.calls q.intent.order

    -- What the wallet answers once the exchange has been called.
    abbrev pub wallet_reply : Result SignedTx
    wallet_reply = wallet (a.calls ++ Call.place_order q.intent.order ∷ []) q.intent.settlement

    -- The order is placed, and then answered by the exchange and, if it settles, by the wallet.
    abbrev pub answers : List Event
    answers = submit q ∷ exchange_answers 0 exchange_reply ∷ wallet_answers 0 wallet_reply ∷ []

    answers-stepped :
        (ctx : ActionContext) (e : Result Evaluation)
        → (step sink mask (wallet_answers 0 wallet_reply) (
            step sink mask
              (exchange_answers 0 exchange_reply)
              (launched sink mask ctx q.intent (started sink mask ctx e a) (idle a)))).agent
          ≡ closed (
              stepped sink mask ports ctx
                (Call.place_order q.intent.order)
                (λ calls.
                  map_result Reply.order (ports.exchange_port.place_order calls q.intent.order))
                q.intent.settlement
                a
                e)
    answers-stepped ctx (raised e) = unfold step in unfold pick in refl
    answers-stepped ctx (ok ev) = elim (Bool-cases ev.proceed) [
      | inl h ↦ simp h (
          let b : Agent = record a {
            window = add ctx.request_cost a.window;
            calls = a.calls ++ Call.place_order q.intent.order ∷ [];
          } in
          let p : Pool = record {
            agent = b;
            flights = exchanging ctx ev q.intent ∷ [];
            kept = [];
          } in
          ap (λ s. (step sink mask (wallet_answers 0 wallet_reply) s).agent)
            (landing ctx ev exchange_reply p refl)
          ∙ answered_twice ctx ev exchange_reply b p refl)
      | inr h ↦ simp h (unfold step in unfold pick in sym (concluded-closed ctx ev a))
    ]

    submitted :
        (x : Decimal)
        → decimal q.intent.order.amount ≡ some x
        → lookup (id_of q) a.placed ≡ none
        → step sink mask (submit q) (idle a)
          ≡ launched sink mask
              (context_of q x)
              q.intent
              (started sink mask (context_of q x) (evaluate mask a.window (context_of q x)) a)
              (idle a)
    unfolding step launch
    submitted x d new = rw (new, d, begin_lem sink mask (context_of q x) a) refl

    placed :
        (x : Decimal)
        → decimal q.intent.order.amount ≡ some x
        → lookup (id_of q) a.placed ≡ none
        → (place_order sink mask ports q.intent q.compliance q.reviewed_by a).1
          ≡ closed (
              stepped sink mask ports
                (context_of q x)
                (Call.place_order q.intent.order)
                (λ calls.
                  map_result Reply.order (ports.exchange_port.place_order calls q.intent.order))
                q.intent.settlement
                a
                (evaluate mask a.window (context_of q x)))
    unfolding place_order unless_placed place
    placed x d new =
        rw
          (
            new,
            d,
            run_action_lem sink mask ports (context_of q x) (Call.place_order q.intent.order)
                (λ calls.
                  map_result Reply.order (ports.exchange_port.place_order calls q.intent.order))
                q.intent.settlement a,
          )
          refl

    launched_order :
        (x : Decimal)
        → decimal q.intent.order.amount ≡ some x
        → lookup (id_of q) a.placed ≡ none
        → (run sink mask answers (idle a)).agent
          ≡ (place_order sink mask ports q.intent q.compliance q.reviewed_by a).1
    unfolding run
    launched_order x d new =
        ap
          (λ p.
            (step sink mask (wallet_answers 0 wallet_reply)
              (step sink mask (exchange_answers 0 exchange_reply) p)).agent)
          (submitted x d new)
        ∙ answers-stepped (context_of q x) (evaluate mask a.window (context_of q x))
        ∙ sym (placed x d new)

    -- With no order in flight, a placement that the exchange and then the wallet answer at once
    -- leaves the agent as `place_order` does.
    place_then_answers :
        (run sink mask answers (idle a)).agent
        ≡ (place_order sink mask ports q.intent q.compliance q.reviewed_by a).1
    unfolding run place_order unless_placed place step pick
    place_then_answers = elim (Option-cases (lookup (id_of q) a.placed)) [
      | inr (o, e) ↦ rw e refl
      | inl new ↦ elim (Option-cases (decimal q.intent.order.amount)) [
        | inl d ↦ rw (new, d) refl
        | inr (x, d) ↦ launched_order x d new
      ]
    ]
