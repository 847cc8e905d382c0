-- ===== src/Fx/Interleaving/Budget.antt =====
-- The budget under every interleaving of orders on the FX agent.
use banxe_payment_core.Prelude.{
  ◌≡◌, refl, ap, ◌∙◌, Bool, true, false, if◌then◌else◌, Option, none, some, List, [], ◌∷◌, arith,
  pick, All, Bool-cases, inl, inr, lookup, string_comparable,
}
use mathlib.Core.List.{append-nil}
use banxe_payment_core.Exec.{Result, ok, raised}
use banxe_payment_core.Python.{decimal}
use banxe_payment_core.Ports.{OrderResult, SignedTx}
use banxe_payment_core.Lineage.{Decimal, RequestCost, AgentOutcome, CostWindow, Sink, add, release}
use banxe_payment_core.Lineage.Window.Budget.{WithinCap, Affordable-WithinCap}
use banxe_payment_core.Lineage.Window.Reservations.{
  Taken, Takes, pick-Taken, held_by, held_by-append, held_by-Takes, held_by-idle, Book, Move, stay,
  granted, ended_Move, Moves,
}
use banxe_payment_core.Lineage.Window.Desk.{Desk, replay-Moves}
use banxe_payment_core.Fx.Types.{
  FxExchangeMask, OrderIntent, SettlementInstruction, ActionContext, Evaluation, Reply, Agent,
}
use banxe_payment_core.Fx.Contexts.{order_context}
use banxe_payment_core.Fx.Gates.{evaluate}
use banxe_payment_core.Fx.Gates.Permission.{proceeds, evaluate-permits_iff}
use banxe_payment_core.Fx.Actions.{leg, keep, emit, conclude, settled, rejected}
use banxe_payment_core.Fx.Actions.Effects.{started, begin_lem}
use banxe_payment_core.Fx.Interleaving.{
  Placement, Flight, exchanging, signing, Pool, Event, submit, exchange_answers, wallet_answers,
  keeps, launched, launch, priced, unless_kept, ended, filled, exchanged, land, settle, landed,
  paid, step, run,
}

-- What an order in flight holds of the budget: once the exchange has returned, its cost is kept.
abbrev pub reservation : Flight → List RequestCost
reservation (exchanging ctx ev i) = ctx.request_cost ∷ []
reservation (signing ctx ev i reply) = []

abbrev pub book : Pool → Book
book p = record { window = p.agent.window; held = held_by reservation p.flights; kept = p.kept }

-- The costs that an event may reserve.
abbrev pub costs : Event → List RequestCost
costs (submit q) = q.intent.request_cost ∷ []
costs (exchange_answers n r) = []
costs (wallet_answers n t) = []

module _ (sink : Sink) (mask : FxExchangeMask) where
  proceeds-WithinCap :
      (ctx : ActionContext) (w : CostWindow)
      → proceeds (evaluate mask w ctx) ≡ true
      → WithinCap mask.cost_cap (add ctx.request_cost w)
  proceeds-WithinCap ctx w h =
      Affordable-WithinCap ctx.request_cost mask.cost_cap w
        (((evaluate-permits_iff mask w ctx).0 h).affordable)

  concluded-window :
      (ctx : ActionContext) (ev : Evaluation) (x : Bool) (r : Option Reply) (a : Agent)
      → (conclude sink mask ctx ev x r a).1.window ≡ a.window
  unfolding conclude emit
  concluded-window ctx ev x r a = ground arith

  filled-book :
      (ctx : ActionContext) (ev : Evaluation) (i : OrderIntent) (reply : Reply)
      (o : Option SettlementInstruction) (fs : List Flight) (a : Agent) (kept : List RequestCost)
      → book (filled sink mask ctx ev i reply o fs a kept)
        ≡ record { window = a.window; held = held_by reservation fs; kept = kept }
  unfolding conclude emit keep
  filled-book ctx ev i reply none fs a kept = ground arith
  filled-book ctx ev i reply (some s) fs a kept =
      ap (λ (h : List RequestCost). record { window = a.window; held = h; kept = kept })
        (held_by-append reservation fs (signing ctx ev i reply ∷ [])
          ∙ append-nil (held_by reservation fs))

  exchanged-book :
      (ctx : ActionContext) (ev : Evaluation) (i : OrderIntent) (fs : List Flight)
      (r : Result OrderResult) (a : Agent) (kept : List RequestCost)
      → book (exchanged sink mask ctx ev i fs r a kept) ≡ record {
        window = if keeps r then a.window else release ctx.request_cost a.window;
        held = held_by reservation fs;
        kept = kept;
      }
  unfolding rejected emit
  exchanged-book ctx ev i fs (ok r) a kept =
      filled-book ctx ev i (Reply.order r) (leg i.settlement (Reply.order r)) fs a kept
  exchanged-book ctx ev i fs (raised e) a kept = ground arith

  settled-window :
      (ctx : ActionContext) (ev : Evaluation) (i : OrderIntent) (reply : Reply) (fs : List Flight)
      (t : Result SignedTx) (a : Agent) (kept : List RequestCost)
      → (ended sink mask i fs (settled sink mask ctx ev reply t a) kept).agent.window ≡ a.window
  unfolding settled conclude emit keep
  settled-window ctx ev i reply fs t a kept = ground arith

  module _ (P : RequestCost → Type 0) where
    started-Move :
        (ctx : ActionContext) (i : OrderIntent) (p : Pool) (e : Result Evaluation)
        → (proceeds e ≡ true → WithinCap mask.cost_cap (add ctx.request_cost p.agent.window))
        → P ctx.request_cost
        → Move P mask.cost_cap
            (book p)
            (book (launched sink mask ctx i (started sink mask ctx e p.agent) p))
    started-Move ctx i p (raised x) w n = stay
    started-Move ctx i p (ok ev) w n = elim (Bool-cases ev.proceed) [
      | inl e ↦
          simp e (rw (held_by-append reservation p.flights) (granted ctx.request_cost n (w e)))
      | inr e ↦ simp e (rw (concluded-window ctx ev false none p.agent) stay)
    ]

    launch-Move :
        (q : Placement) (x : Decimal) (p : Pool)
        → P q.intent.request_cost
        → Move P mask.cost_cap (book p) (book (launch sink mask q x p))
    unfolding launch order_context
    launch-Move q x p n =
        let ctx = order_context q.intent x q.compliance q.reviewed_by in
        rw (begin_lem sink mask ctx p.agent) (
          started-Move ctx q.intent p (evaluate mask p.agent.window ctx)
            (proceeds-WithinCap ctx p.agent.window) n)

    priced-Move :
        (q : Placement) (x : Option Decimal) (p : Pool)
        → P q.intent.request_cost
        → Move P mask.cost_cap (book p) (book (priced sink mask q x p))
    priced-Move q none p n = stay
    priced-Move q (some x) p n = launch-Move q x p n

    unless_kept-Move :
        (q : Placement) (o : Option (AgentOutcome Reply)) (p : Pool)
        → P q.intent.request_cost
        → Move P mask.cost_cap (book p) (book (unless_kept sink mask q o p))
    unless_kept-Move q (some o) p n = stay
    unless_kept-Move q none p n = priced-Move q (decimal q.intent.order.amount) p n

    land-Move :
        (f : Flight) (fs : List Flight) (r : Result OrderResult) (p : Pool)
        → Takes f p.flights fs
        → Move P mask.cost_cap (book p) (book (land sink mask f fs r p))
    unfolding land
    land-Move (exchanging ctx ev i) fs r p t =
        rw
          (exchanged-book ctx ev i fs r p.agent
            (if keeps r then ctx.request_cost ∷ p.kept else p.kept))
          (ended_Move (book p) (held_by reservation fs) (keeps r)
            (held_by-Takes reservation t refl))
    land-Move (signing ctx ev i reply) fs r p t = stay

    settle-Move :
        (f : Flight) (fs : List Flight) (r : Result SignedTx) (p : Pool)
        → Takes f p.flights fs
        → Move P mask.cost_cap (book p) (book (settle sink mask f fs r p))
    unfolding settle
    settle-Move (exchanging ctx ev i) fs r p t = stay
    settle-Move (signing ctx ev i reply) fs r p t =
        rw (settled-window ctx ev i reply fs r p.agent p.kept, held_by-idle reservation t refl) stay

    landed-Move :
        (o : Option (Flight × List Flight)) (r : Result OrderResult) (p : Pool)
        → Taken p.flights o
        → Move P mask.cost_cap (book p) (book (landed sink mask o r p))
    landed-Move none r p t = stay
    landed-Move (some (f, fs)) r p t = land-Move f fs r p t

    paid-Move :
        (o : Option (Flight × List Flight)) (r : Result SignedTx) (p : Pool)
        → Taken p.flights o
        → Move P mask.cost_cap (book p) (book (paid sink mask o r p))
    paid-Move none r p t = stay
    paid-Move (some (f, fs)) r p t = settle-Move f fs r p t

    pub step-Move :
        (e : Event) (p : Pool)
        → All P (costs e)
        → Move P mask.cost_cap (book p) (book (step sink mask e p))
    unfolding step
    step-Move (submit q) p n =
        unless_kept-Move q (lookup q.intent.order.client_order_id p.agent.placed) p n.0
    step-Move (exchange_answers k r) p n =
        landed-Move (pick k p.flights) r p (pick-Taken k p.flights)
    step-Move (wallet_answers k t) p n = paid-Move (pick k p.flights) t p (pick-Taken k p.flights)

  -- The mask's agent as its budget sees it.
  unfoldable pub desk : Desk Pool Event
  desk = record {
    cap = mask.cost_cap;
    step = step sink mask;
    book = book;
    costs = costs;
    step-Move = step-Move;
  }

  -- Whatever the order in which orders are placed and the exchange and the wallet answer, what
  -- happens to the budget is a sequence of moves of its rules: reservations within the caps, each
  -- for the cost of an order, and their ends, each kept or given back. A property of all the
  -- orders' costs is one of all the costs reserved.
  pub run-Moves :
      (P : RequestCost → Type 0) (es : List Event) (p : Pool)
      → All (λ e. All P (costs e)) es
      → Moves P mask.cost_cap (book p) (book (run sink mask es p))
  unfolding run desk
  run-Moves = replay-Moves desk
