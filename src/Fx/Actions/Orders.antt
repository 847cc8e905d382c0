-- ===== src/Fx/Actions/Orders.antt =====
-- Replays of `place_order` of src/agents/fx_exchange_agent.py.
use banxe_payment_core.Prelude.{
  String, ◌≡◌, true, Option, none, some, List, [], ◌∷◌, arith, refl, lookup, lookup-insert,
  string_comparable,
}
use text.Mathlib.TextEquality.{eq_iff}
use banxe_payment_core.Exec.{Result, ok, raised, continue}
use banxe_payment_core.Lineage.{Decimal, ComplianceResult, AgentOutcome, Sink}
use banxe_payment_core.Fx.Types.{
  FxExchangeMask, RateQuoteIntent, OrderIntent, CancelOrderIntent, ActionContext, Reply, Call,
  Agent, SettlementInstruction,
}
use banxe_payment_core.Fx.Actions.{
  Ports, emit, conclude, settled, deliver, answered, rejected, run_action, keep, get_rate, place,
  unless_placed, place_order, cancel_order,
}
use banxe_payment_core.Fx.Actions.Effects.{begin_lem}

-- One call of the agent.
pub data Step : Type 0 where
  rate : RateQuoteIntent → ComplianceResult → Step
  order : OrderIntent → ComplianceResult → Option String → Step
  cancel : CancelOrderIntent → ComplianceResult → Option String → Step

abbrev Outcome : Type 0
Outcome = AgentOutcome Reply

-- An executed outcome that was kept is kept under its id, and no other is lost.
kept :
    (id k : String) (o : Outcome) (r : Result Outcome) (a b : Agent)
    → b.placed ≡ a.placed
    → lookup id a.placed ≡ none
    → lookup k a.placed ≡ some o
    → lookup k (continue (r, b) (keep id)).1.placed ≡ some o
unfolding keep
kept id k o (raised e) a b p n h = rw p h
kept id k o (ok q) a b p n h = ground (arith, p, n, h, lookup-insert id k q a.placed, eq_iff id k)

listed :
    (id : String) (o : Outcome) (r : Result Outcome) (b : Agent)
    → (continue (r, b) (keep id)).0 ≡ ok o
    → o.executed ≡ true
    → lookup id (continue (r, b) (keep id)).1.placed ≡ some o
unfolding keep
listed id o (raised e) b h x = cc h
listed id o (ok p) b h x = ground (arith, h, x, lookup-insert id id p b.placed, eq_iff id id)

module _ (sink : Sink) (mask : FxExchangeMask) (ports : Ports) where
  -- The calls one after the other; the caller goes on after an exception.
  unfoldable pub perform : List Step → Agent → Agent
  perform [] a = a
  perform (rate q c ∷ steps) a = perform steps (get_rate sink mask ports q c a).1
  perform (order q c by ∷ steps) a = perform steps (place_order sink mask ports q c by a).1
  perform (cancel q c by ∷ steps) a = perform steps (cancel_order sink mask ports q c by a).1

  pub run_action-placed :
      (ctx : ActionContext) (call : Call) (port : List Call → Result Reply)
      (settle : Option SettlementInstruction) (a : Agent)
      → (run_action sink mask ports ctx call port settle a).1.placed ≡ a.placed
  unfolding run_action answered rejected deliver settled conclude emit
  run_action-placed ctx call port settle a = ground (arith, begin_lem sink mask ctx a)

  -- What is kept stays kept.
  place-keeps :
      (q : OrderIntent) (c : ComplianceResult) (by : Option String) (x : Option Decimal) (a : Agent)
      (k : String) (o : Outcome)
      → lookup q.order.client_order_id a.placed ≡ none
      → lookup k a.placed ≡ some o
      → lookup k (place sink mask ports q c by x a).1.placed ≡ some o
  unfolding place
  place-keeps q c by none a k o n h = h
  place-keeps q c by (some x) a k o n h =
      kept q.order.client_order_id k o _ a _ (run_action-placed _ _ _ _ a) n h

  unless_placed-keeps :
      (p : Option Outcome) (q : OrderIntent) (c : ComplianceResult) (by : Option String) (a : Agent)
      (k : String) (o : Outcome)
      → lookup q.order.client_order_id a.placed ≡ p
      → lookup k a.placed ≡ some o
      → lookup k (unless_placed sink mask ports p q c by a).1.placed ≡ some o
  unfolding unless_placed
  unless_placed-keeps (some p) q c by a k o n h = h
  unless_placed-keeps none q c by a k o n h = place-keeps q c by _ a k o n h

  perform-keeps :
      (steps : List Step) (a : Agent) (k : String) (o : Outcome)
      → lookup k a.placed ≡ some o
      → lookup k (perform steps a).placed ≡ some o
  unfolding perform place_order get_rate cancel_order
  perform-keeps [] a k o h = h
  perform-keeps (rate q c ∷ steps) a k o h =
      perform-keeps steps _ k o (rw (run_action-placed _ _ _ _ a) h)
  perform-keeps (order q c by ∷ steps) a k o h =
      perform-keeps steps _ k o (unless_placed-keeps _ q c by a k o refl h)
  perform-keeps (cancel q c by ∷ steps) a k o h =
      perform-keeps steps _ k o (rw (run_action-placed _ _ _ _ a) h)

  place-lists :
      (q : OrderIntent) (c : ComplianceResult) (by : Option String) (x : Option Decimal) (a : Agent)
      (o : Outcome)
      → (place sink mask ports q c by x a).0 ≡ ok o
      → o.executed ≡ true
      → lookup q.order.client_order_id (place sink mask ports q c by x a).1.placed ≡ some o
  unfolding place
  place-lists q c by none a o h x = cc h
  place-lists q c by (some d) a o h x = listed q.order.client_order_id o _ _ h x

  unless_placed-lists :
      (p : Option Outcome) (q : OrderIntent) (c : ComplianceResult) (by : Option String) (a : Agent)
      (o : Outcome)
      → lookup q.order.client_order_id a.placed ≡ p
      → (unless_placed sink mask ports p q c by a).0 ≡ ok o
      → o.executed ≡ true
      → lookup q.order.client_order_id (unless_placed sink mask ports p q c by a).1.placed ≡ some o
  unfolding unless_placed
  unless_placed-lists (some p) q c by a o n h x = cc (n, h)
  unless_placed-lists none q c by a o n h x = place-lists q c by _ a o h x

  unless_placed-again :
      (p : Option Outcome) (q : OrderIntent) (c : ComplianceResult) (by : Option String) (a : Agent)
      (o : Outcome)
      → p ≡ some o
      → unless_placed sink mask ports p q c by a ≡ (ok o, a)
  unfolding unless_placed
  unless_placed-again p q c by a o h = rw h refl

  -- Once `place_order` has returned an executed outcome for a client order id, then after any
  -- further calls of the agent, placing any order with this id returns the same outcome and changes
  -- nothing: no call, no record, no cost.
  pub place_order-again :
      (q : OrderIntent) (c : ComplianceResult) (by : Option String) (a : Agent) (o : Outcome)
      (steps : List Step) (again : OrderIntent) (d : ComplianceResult) (reviewer : Option String)
      → (place_order sink mask ports q c by a).0 ≡ ok o
      → o.executed ≡ true
      → again.order.client_order_id ≡ q.order.client_order_id
      → let b = perform steps (place_order sink mask ports q c by a).1 in
        place_order sink mask ports again d reviewer b ≡ (ok o, b)
  unfolding place_order
  place_order-again q c by a o steps again d reviewer h x k =
      unless_placed-again _ again d reviewer _ o
        (rw k (perform-keeps steps _ _ o (unless_placed-lists _ q c by a o refl h x)))
