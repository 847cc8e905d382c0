-- ===== src/Fx/Interleaving/Once.antt =====
-- Orders that overlap on the FX agent, each of an id that is not in flight when it is placed: no
-- order is executed twice.
use banxe_payment_core.Prelude.{
  String, ◌+◌, ◌≤◌, ◌≡◌, refl, true, if◌then◌else◌, ◌==◌, string_comparable, Option, none, some,
  List, [], ◌∷◌, arith, pick, total-append, lookup, lookup-insert,
}
use banxe_payment_core.Exec.{Exc, Result, ok, raised, continue}
use banxe_payment_core.Ports.{OrderResult, SignedTx}
use banxe_payment_core.Lineage.{Accepts, AgentOutcome, RequestCost, Sink}
use banxe_payment_core.Lineage.Window.Reservations.{Takes, total-Takes, Taken, pick-Taken}
use banxe_payment_core.Fx.Types.{
  FxExchangeMask, OrderIntent, SettlementInstruction, ActionContext, Evaluation, Reply, Agent,
}
use banxe_payment_core.Fx.Actions.{leg, keep, emit, conclude, settled, rejected}
use banxe_payment_core.Fx.Actions.Records.{emit_lem}
use banxe_payment_core.Fx.Interleaving.{
  Flight, exchanging, signing, Pool, Event, submit, exchange_answers, wallet_answers, filled, land,
  settle, landed, paid, step, run,
}
use banxe_payment_core.Fx.Interleaving.Races.{id_of}
use banxe_payment_core.Fx.Interleaving.Executions.{
  has_id, sought, unsigned, in_flight, executed, listed, Fresh, made, bought, Signed, Apart,
  executions_of, AllApart, known, Kept, unless_kept-Kept,
}

keep-listed :
    (id k : String) (o : AgentOutcome Reply) (a : Agent)
    → listed k (keep id o a).1
      ≡ (if o.executed then (if id == k then 1 else listed k a) else listed k a)
unfolding keep
keep-listed id k o a = ground (arith, lookup-insert id k o a.placed)

module _ (sink : Sink) (mask : FxExchangeMask) where
  -- An exception of the exchange leaves the kept outcomes alone.
  rejected-listed :
      (ctx : ActionContext) (ev : Evaluation) (e : Exc) (i : OrderIntent) (a : Agent)
      → (continue (rejected sink mask ctx ev e a) (keep i.order.client_order_id)).1.placed
        ≡ a.placed
  unfolding rejected emit
  rejected-listed ctx ev e i a = ground arith

  module _ (accepts : Accepts sink) where
    -- The outcome of an executed order is kept under its id.
    concluded-listed :
        (ctx : ActionContext) (ev : Evaluation) (reply : Reply) (i : OrderIntent) (a : Agent)
        (k : String)
        → listed k
            (continue
              (conclude sink mask ctx ev true (some reply) a)
              (keep i.order.client_order_id)).1
          ≡ (if i.order.client_order_id == k then 1 else listed k a)
    unfolding conclude
    concluded-listed ctx ev reply i a k =
        rw
          (emit_lem sink mask ctx accepts ev ev.action_taken true ev.compliance_result
            ev.reasoning_summary a)
          (keep-listed i.order.client_order_id k _ _)

    filled-Kept :
        (ctx : ActionContext) (ev : Evaluation) (i : OrderIntent) (reply : Reply)
        (s : Option SettlementInstruction) (fs : List Flight) (costs : List RequestCost) (p : Pool)
        → Takes (exchanging ctx ev i) p.flights fs
        → Fresh p
        → Kept (λ k. has_id k i) p (filled sink mask ctx ev i reply s fs p.agent costs)
    filled-Kept ctx ev i reply none fs costs p t h = (
      λ k. ground (arith, h k, concluded-listed ctx ev reply i p.agent k, total-Takes (sought k) t),
      λ k. ground (
        arith,
        h k,
        concluded-listed ctx ev reply i p.agent k,
        total-Takes (sought k) t,
        total-Takes (unsigned k) t,
      ),
    )
    filled-Kept ctx ev i reply (some s) fs costs p t h =
        let f = signing ctx ev i reply ∷ [] in
        (
          λ k. ground (arith, h k, total-append (sought k) fs f, total-Takes (sought k) t),
          λ k. ground (arith, total-append (unsigned k) fs f, total-Takes (unsigned k) t),
        )

    landed-Kept :
        (o : Option (Flight × List Flight)) (r : Result OrderResult) (p : Pool)
        → Taken p.flights o
        → Fresh p
        → Kept (λ k. made k o r) p (landed sink mask o r p)
    unfolding land
    landed-Kept none r p t h = (h, λ k. omega arith)
    landed-Kept (some (signing ctx ev i reply, fs)) r p t h = (h, λ k. omega arith)
    landed-Kept (some (exchanging ctx ev i, fs)) (ok r) p t h =
        filled-Kept ctx ev i (Reply.order r) (leg i.settlement (Reply.order r)) fs _ p t h
    landed-Kept (some (exchanging ctx ev i, fs)) (raised e) p t h = (
      λ k. rw (rejected-listed ctx ev e i p.agent) (omega (arith, h k, total-Takes (sought k) t)),
      λ k. rw (rejected-listed ctx ev e i p.agent) (omega (arith, total-Takes (unsigned k) t)),
    )

    paid-Kept :
        (o : Option (Flight × List Flight)) (t : Result SignedTx) (p : Pool)
        → Signed t
        → Taken p.flights o
        → Fresh p
        → Kept (λ k. 0) p (paid sink mask o t p)
    unfolding settle settled
    paid-Kept o (raised e) p s t h = elim s [ ]
    paid-Kept none (ok tx) p s t h = (h, λ k. omega arith)
    paid-Kept (some (exchanging ctx ev i, fs)) (ok tx) p s t h = (h, λ k. omega arith)
    paid-Kept (some (signing ctx ev i reply, fs)) (ok tx) p s t h = (
      λ k. ground (arith, h k, concluded-listed ctx ev reply i p.agent k, total-Takes (sought k) t),
      λ k. ground (
        arith,
        h k,
        concluded-listed ctx ev reply i p.agent k,
        total-Takes (sought k) t,
        total-Takes (unsigned k) t,
      ),
    )

    step-Kept :
        (e : Event) (p : Pool)
        → Apart e p
        → Fresh p
        → Kept (λ k. bought k e p) p (step sink mask e p)
    unfolding step
    step-Kept (submit q) p a h =
        unless_kept-Kept sink mask q (lookup (id_of q) p.agent.placed) p refl a h
    step-Kept (exchange_answers n r) p a h =
        landed-Kept (pick n p.flights) r p (pick-Taken n p.flights) h
    step-Kept (wallet_answers n t) p a h =
        paid-Kept (pick n p.flights) t p a (pick-Taken n p.flights) h

    run-known :
        (es : List Event) (p : Pool)
        → Fresh p
        → AllApart sink mask es p
        → Fresh (run sink mask es p)
          × ((k : String)
              → known k p + executions_of sink mask k es p ≡ known k (run sink mask es p))
    unfolding run executions_of
    run-known [] p h a = (h, λ k. omega arith)
    run-known (e ∷ es) p h a =
        let s = step-Kept e p a.0 h in
        let rest = run-known es (step sink mask e p) s.0 a.1 in
        (rest.0, λ k. omega (arith, s.1 k, rest.1 k))

    unsigned_bound : (k : String) (l : List Flight) → executed k l ≤ in_flight k l
    unsigned_bound k [] = omega arith
    unsigned_bound k (exchanging ctx ev i ∷ l) = omega (arith, unsigned_bound k l)
    unsigned_bound k (signing ctx ev i reply ∷ l) = omega (arith, unsigned_bound k l)

    -- If the recorder persists every record, no id is in flight twice or both in flight and kept at
    -- first, each order is placed when none of its id is in flight, and the wallet raises no
    -- exception, then, whatever the order of placements and answers, the exchange executes no more
    -- than one order of an id; and of the orders of an id, those at the end that wait for the
    -- wallet or whose outcome is kept are those at first and those executed.
    pub run-ExecutedOnce :
        (es : List Event) (p : Pool)
        → Fresh p
        → AllApart sink mask es p
        → (k : String)
        → (executions_of sink mask k es p ≤ 1)
          × (known k p + executions_of sink mask k es p ≡ known k (run sink mask es p))
    run-ExecutedOnce es p h a k =
        let s = run-known es p h a in
        let q = run sink mask es p in
        (omega (arith, s.1 k, s.0 k, unsigned_bound k q.flights), s.1 k)
