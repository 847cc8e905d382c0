-- ===== src/Payments/Interleaving/Budget.antt =====
-- The budget under every interleaving: the reservation is taken before the port is awaited, so the
-- window stays within its caps, and what is used is what is held and what was kept.
use banxe_payment_core.Prelude.{
  String, ◌≡◌, refl, true, false, if◌then◌else◌, Option, none, some, List, [], ◌∷◌, arith, pick,
  All, Bool-cases, inl, inr,
}
use banxe_payment_core.Exec.{Result, ok, raised}
use banxe_payment_core.Ports.{PaymentInstruction, PaymentResult}
use banxe_payment_core.Lineage.{Decimal, RequestCost, CostWindow, Sink, add, release, has_seen}
use banxe_payment_core.Lineage.Window.Budget.{WithinCap, Affordable-WithinCap}
use banxe_payment_core.Lineage.Window.Reservations.{
  Taken, pick-Taken, held_by, held_by-append, held_by-Takes, Book, Move, stay, granted, ended_Move,
}
use banxe_payment_core.Lineage.Window.Accounts.{NonNegative, IsFunded, Balanced}
use banxe_payment_core.Lineage.Window.Desk.{Desk, replay-IsFunded, replay-Balanced}
use banxe_payment_core.Payments.Types.{PaymentsMask, ActionContext, Evaluation, Agent}
use banxe_payment_core.Payments.Gates.{evaluate}
use banxe_payment_core.Payments.Gates.Permission.{proceeds, evaluate_iff}
use banxe_payment_core.Payments.Actions.{
  emit, conclude, begin, answered, suppress_duplicate, payment_context, mark,
}
use banxe_payment_core.Payments.Actions.Effects.{started, begin_lem, conclude-window}
use banxe_payment_core.Payments.Actions.Replay.{Request}
use banxe_payment_core.Payments.Interleaving.{
  Flight, Pool, Event, keeps, launched, launch, land, priced, landed, step, run,
}

-- What a payment in flight holds of the budget.
abbrev pub reservation : Flight → List RequestCost
reservation f = f.context.request_cost ∷ []

abbrev pub book : Pool → Book
book p = record { window = p.agent.window; held = held_by reservation p.flights; kept = p.kept }

-- The costs that an event may reserve.
abbrev pub costs : Event → List RequestCost
costs (Event.submit q) = q.intent.request_cost ∷ []
costs (Event.answer n r) = []

module _ (sink : Sink) (mask : PaymentsMask) where
  proceeds-WithinCap :
      (ctx : ActionContext) (w : CostWindow)
      → proceeds (evaluate mask w ctx) ≡ true
      → WithinCap mask.cost_cap (add ctx.request_cost w)
  proceeds-WithinCap ctx w h =
      Affordable-WithinCap ctx.request_cost mask.cost_cap w
        (((evaluate_iff mask w ctx).0 h).affordable)

  replayed-window :
      (ctx : ActionContext) (key : String) (a : Agent)
      → (suppress_duplicate sink mask ctx key a).1.window ≡ a.window
  unfolding suppress_duplicate emit
  replayed-window ctx key a = ground arith

  land-book :
      (f : Flight) (fs : List Flight) (r : Result PaymentResult) (p : Pool)
      → book (land sink mask f fs r p) ≡ record {
        window = if keeps r then p.agent.window else release f.context.request_cost p.agent.window;
        held = held_by reservation fs;
        kept = if keeps r then f.context.request_cost ∷ p.kept else p.kept;
      }
  unfolding land answered conclude emit mark
  land-book f fs r p = ground arith

  module _ (P : RequestCost → Type 0) where
    started-Move :
        (ctx : ActionContext) (i : PaymentInstruction) (p : Pool) (e : Result Evaluation)
        → (proceeds e ≡ true → WithinCap mask.cost_cap (add ctx.request_cost p.agent.window))
        → P ctx.request_cost
        → Move P mask.cost_cap
            (book p)
            (book (launched sink mask ctx i (started sink mask ctx e p.agent) p))
    started-Move ctx i p (raised x) w n = stay
    started-Move ctx i p (ok ev) w n = elim (Bool-cases ev.proceed) [
      | inl e ↦
          simp e (rw (held_by-append reservation p.flights) (granted ctx.request_cost n (w e)))
      | inr e ↦ simp e (rw (conclude-window sink mask ctx ev false none p.agent) stay)
    ]

    launched-Move :
        (ctx : ActionContext) (i : PaymentInstruction) (p : Pool)
        → P ctx.request_cost
        → Move P mask.cost_cap
            (book p)
            (book (launched sink mask ctx i (begin sink mask ctx p.agent) p))
    launched-Move ctx i p n = rw (begin_lem sink mask ctx p.agent) (
        started-Move ctx i p (evaluate mask p.agent.window ctx)
          (proceeds-WithinCap ctx p.agent.window) n)

    replayed-Move :
        (ctx : ActionContext) (key : String) (p : Pool)
        → Move P mask.cost_cap
            (book p)
            (book (record p { agent = (suppress_duplicate sink mask ctx key p.agent).1 }))
    replayed-Move ctx key p = rw (replayed-window ctx key p.agent) stay

    launch-Move :
        (q : Request) (x : Decimal) (p : Pool)
        → P q.intent.request_cost
        → Move P mask.cost_cap (book p) (book (launch sink mask q x p))
    unfolding launch payment_context
    launch-Move q x p n =
        let key = q.intent.instruction.idempotency_key in
        let ctx = payment_context q.intent x q.compliance q.reviewed_by in
        elim (Bool-cases (has_seen key p.agent.idempotency)) [
          | inl e ↦ rw e (replayed-Move ctx key p)
          | inr e ↦ rw e (launched-Move ctx q.intent.instruction p n)
        ]

    priced-Move :
        (q : Request) (x : Option Decimal) (p : Pool)
        → P q.intent.request_cost
        → Move P mask.cost_cap (book p) (book (priced sink mask q x p))
    priced-Move q none p n = stay
    priced-Move q (some x) p n = launch-Move q x p n

    landed-Move :
        (o : Option (Flight × List Flight)) (r : Result PaymentResult) (p : Pool)
        → Taken p.flights o
        → Move P mask.cost_cap (book p) (book (landed sink mask o r p))
    landed-Move none r p t = stay
    landed-Move (some (f, fs)) r p t =
        rw (land-book f fs r p) (
          ended_Move (book p) (held_by reservation fs) (keeps r) (held_by-Takes reservation t refl))

    step-Move :
        (e : Event) (p : Pool)
        → All P (costs e)
        → Move P mask.cost_cap (book p) (book (step sink mask e p))
    unfolding step
    step-Move (Event.submit q) p n = priced-Move q _ p n.0
    step-Move (Event.answer k r) p n = landed-Move (pick k p.flights) r p (pick-Taken k p.flights)

  -- The mask's agent as its budget sees it.
  abbrev desk : Desk Pool Event
  desk = record {
    cap = mask.cost_cap;
    step = step sink mask;
    book = book;
    costs = costs;
    step-Move = step-Move;
  }

  -- Whatever the order in which payments of non-negative cost are submitted and answered, the
  -- window stays within both its caps and no payment in flight has a negative cost, if this holds
  -- at the start.
  pub run-IsFunded :
      (es : List Event) (p : Pool)
      → All (λ e. All NonNegative (costs e)) es
      → IsFunded mask.cost_cap (book p)
      → IsFunded mask.cost_cap (book (run sink mask es p))
  unfolding run
  run-IsFunded = replay-IsFunded desk

  -- Whatever the order of submissions and answers, what is used of the window is what was used at
  -- first, with the costs of the payments in flight and of those whose answers kept them, if this
  -- holds at the start.
  pub run-Balanced :
      (w : CostWindow) (es : List Event) (p : Pool)
      → Balanced w (book p)
      → Balanced w (book (run sink mask es p))
  unfolding run
  run-Balanced = replay-Balanced desk
