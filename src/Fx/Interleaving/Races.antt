-- ===== src/Fx/Interleaving/Races.antt =====
-- Two orders of one client order id that overlap, in src/agents/fx_exchange_agent.py.
use banxe_payment_core.Prelude.{
  String, ◌≡◌, true, none, some, [], ◌∷◌, ◌++◌, arith, lookup, string_comparable,
}
use mathlib.Core.List.{append_assoc}
use banxe_payment_core.Exec.{Result, ok, raised}
use banxe_payment_core.Python.{decimal}
use banxe_payment_core.Lineage.{Decimal, Sink, add}
use banxe_payment_core.Fx.Types.{FxExchangeMask, ActionContext, Evaluation, Call, Agent}
use banxe_payment_core.Fx.Contexts.{order_context}
use banxe_payment_core.Fx.Gates.{evaluate}
use banxe_payment_core.Fx.Gates.Permission.{Permitted, proceeds, evaluate-permits_iff}
use banxe_payment_core.Fx.Actions.Effects.{started, begin_lem}
use banxe_payment_core.Fx.Interleaving.{Placement, Pool, submit, launched, launch, step, run}

abbrev pub context_of : Placement → Decimal → ActionContext
context_of q x = order_context q.intent x q.compliance q.reviewed_by

abbrev pub id_of : Placement → String
id_of q = q.intent.order.client_order_id

module _ (sink : Sink) (mask : FxExchangeMask) (q : Placement) (x : Decimal) where
  -- The agent once the exchange has been called for the order.
  abbrev called : Agent → Agent
  called a = record a {
    window = add q.intent.request_cost a.window;
    calls = a.calls ++ Call.place_order q.intent.order ∷ [];
  }

  launched-called :
      (p : Pool) (e : Result Evaluation)
      → proceeds e ≡ true
      → (launched sink mask
          (context_of q x)
          q.intent
          (started sink mask (context_of q x) e p.agent)
          p).agent
        ≡ called p.agent
  unfolding order_context
  launched-called p (ok ev) h = ground arith
  launched-called p (raised e) h = cc

  -- The step of a new permitted order: its cost is reserved and the exchange called.
  submit-called :
      (p : Pool)
      → decimal q.intent.order.amount ≡ some x
      → lookup (id_of q) p.agent.placed ≡ none
      → Permitted mask p.agent.window (context_of q x)
      → (step sink mask (submit q) p).agent ≡ called p.agent
  unfolding step launch
  submit-called p d new h =
      rw (new, step, d, launch, begin_lem sink mask (context_of q x) p.agent)
        (launched-called p (evaluate mask p.agent.window (context_of q x))
          ((evaluate-permits_iff mask p.agent.window (context_of q x)).1 h))

  -- If an order that is not kept yet is placed twice before its first answer, and is permitted both
  -- times, the second time with its cost reserved once, then the exchange is called twice with it,
  -- under one client order id.
  pub double_order :
      (p : Pool)
      → decimal q.intent.order.amount ≡ some x
      → lookup (id_of q) p.agent.placed ≡ none
      → Permitted mask p.agent.window (context_of q x)
      → Permitted mask (add q.intent.request_cost p.agent.window) (context_of q x)
      → let c = Call.place_order q.intent.order in
        (run sink mask (submit q ∷ submit q ∷ []) p).agent.calls ≡ p.agent.calls ++ c ∷ c ∷ []
  unfolding run
  double_order p d new h h' =
      let p' = step sink mask (submit q) p in
      let e = submit-called p d new h in
      let new' : lookup (id_of q) p'.agent.placed ≡ none = rw e new in
      let h'' : Permitted mask p'.agent.window (context_of q x) = rw e h' in
      rw (submit-called p' d new' h'', e, append_assoc)
