-- ===== src/Wallet/Interleaving/Budget.antt =====
-- The budget under every interleaving of the Wallet agent's actions.
use banxe_payment_core.Prelude.{
  ◌≡◌, refl, true, false, if◌then◌else◌, Option, none, some, List, [], ◌∷◌, arith, pick, All,
  Bool-cases, inl, inr,
}
use banxe_payment_core.Exec.{Result, ok, raised, returned}
use banxe_payment_core.Lineage.{RequestCost, CostWindow, Sink, add, release}
use banxe_payment_core.Lineage.Window.Budget.{WithinCap, Affordable-WithinCap}
use banxe_payment_core.Lineage.Window.Reservations.{
  Taken, pick-Taken, held_by, held_by-append, held_by-Takes, Book, Move, stay, granted, ended_Move,
}
use banxe_payment_core.Lineage.Window.Accounts.{NonNegative, IsFunded, Balanced}
use banxe_payment_core.Lineage.Window.Desk.{Desk, replay-IsFunded, replay-Balanced}
use banxe_payment_core.Wallet.Types.{WalletMask, ActionContext, Evaluation, Reply, Call, Agent}
use banxe_payment_core.Wallet.Gates.{evaluate}
use banxe_payment_core.Wallet.Gates.Permission.{proceeds, evaluate-allows_iff}
use banxe_payment_core.Wallet.Actions.{emit, conclude, answered}
use banxe_payment_core.Wallet.Actions.Requests.{context, call}
use banxe_payment_core.Wallet.Actions.Effects.{started, begin_lem}
use banxe_payment_core.Wallet.Interleaving.{
  Flight, Pool, Event, launched, launch, land, landed, step, run,
}

-- What an action in flight holds of the budget.
abbrev pub reservation : Flight → List RequestCost
reservation f = f.context.request_cost ∷ []

abbrev pub book : Pool → Book
book p = record { window = p.agent.window; held = held_by reservation p.flights; kept = p.kept }

-- The costs that an event may reserve.
abbrev pub costs : WalletMask → Event → List RequestCost
costs mask (Event.submit q) = (context mask q).request_cost ∷ []
costs mask (Event.answer n r) = []

module _ (sink : Sink) (mask : WalletMask) where
  proceeds-WithinCap :
      (ctx : ActionContext) (w : CostWindow)
      → proceeds (evaluate mask w ctx) ≡ true
      → WithinCap mask.cost_cap (add ctx.request_cost w)
  proceeds-WithinCap ctx w h =
      Affordable-WithinCap ctx.request_cost mask.cost_cap w
        (((evaluate-allows_iff mask w ctx).0 h).affordable)

  halted-window :
      (ctx : ActionContext) (ev : Evaluation) (a : Agent)
      → (conclude sink mask ctx ev false none a).1.window ≡ a.window
  unfolding conclude emit
  halted-window ctx ev a = ground arith

  land-book :
      (f : Flight) (fs : List Flight) (r : Result Reply) (p : Pool)
      → book (land sink mask f fs r p) ≡ record {
        window =
            if returned r then p.agent.window else release f.context.request_cost p.agent.window;
        held = held_by reservation fs;
        kept = if returned r then f.context.request_cost ∷ p.kept else p.kept;
      }
  unfolding land answered conclude emit
  land-book f fs r p = ground arith

  module _ (P : RequestCost → Type 0) where
    started-Move :
        (ctx : ActionContext) (c : Call) (p : Pool) (e : Result Evaluation)
        → (proceeds e ≡ true → WithinCap mask.cost_cap (add ctx.request_cost p.agent.window))
        → P ctx.request_cost
        → Move P mask.cost_cap
            (book p)
            (book (launched sink mask ctx c (started sink mask ctx e p.agent) p))
    started-Move ctx c p (raised x) w n = stay
    started-Move ctx c p (ok ev) w n = elim (Bool-cases ev.proceed) [
      | inl e ↦
          simp e (rw (held_by-append reservation p.flights) (granted ctx.request_cost n (w e)))
      | inr e ↦ simp e (rw (halted-window ctx ev p.agent) stay)
    ]

    launch-Move :
        (ctx : ActionContext) (c : Call) (p : Pool)
        → P ctx.request_cost
        → Move P mask.cost_cap (book p) (book (launch sink mask ctx c p))
    unfolding launch
    launch-Move ctx c p n = rw (begin_lem sink mask ctx p.agent) (
        started-Move ctx c p (evaluate mask p.agent.window ctx)
          (proceeds-WithinCap ctx p.agent.window) n)

    landed-Move :
        (o : Option (Flight × List Flight)) (r : Result Reply) (p : Pool)
        → Taken p.flights o
        → Move P mask.cost_cap (book p) (book (landed sink mask o r p))
    landed-Move none r p t = stay
    landed-Move (some (f, fs)) r p t = rw (land-book f fs r p) (
        ended_Move (book p) (held_by reservation fs) (returned r)
          (held_by-Takes reservation t refl))

    pub step-Move :
        (e : Event) (p : Pool)
        → All P (costs mask e)
        → Move P mask.cost_cap (book p) (book (step sink mask e p))
    unfolding step
    step-Move (Event.submit q) p n = launch-Move (context mask q) (call q) p n.0
    step-Move (Event.answer k r) p n = landed-Move (pick k p.flights) r p (pick-Taken k p.flights)

  -- The mask's agent as its budget sees it.
  unfoldable pub desk : Desk Pool Event
  desk = record {
    cap = mask.cost_cap;
    step = step sink mask;
    book = book;
    costs = costs mask;
    step-Move = step-Move;
  }

  -- Within the caps, and accounted for: what is used of the window is what was used at first, with
  -- what is held and what was kept.
  abbrev pub Solvent : CostWindow → Pool → Type 0
  Solvent w p = IsFunded mask.cost_cap (book p) × Balanced w (book p)

  -- Whatever the order in which requests of non-negative cost come and are answered, the window
  -- stays within both its caps, and what is used of it is what was used at first, with the costs of
  -- the requests in flight and of those that were answered without an exception, if all this holds
  -- at the start.
  pub run-Solvent :
      (w : CostWindow) (es : List Event) (p : Pool)
      → All (λ e. All NonNegative (costs mask e)) es
      → Solvent w p
      → Solvent w (run sink mask es p)
  unfolding run desk
  run-Solvent w es p n h = (replay-IsFunded desk es p n h.0, replay-Balanced desk w es p h.1)
