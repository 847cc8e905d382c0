-- ===== src/Payments/Actions/Effects.antt =====
-- What one action of the Payments mask does to the ports, the budget and the lineage, on every
-- branch of `_run_action`.
use banxe_payment_core.Prelude.{
  ◌≡◌, Bool, true, false, if◌then◌else◌, Option, none, some, List, [], ◌∷◌, ◌++◌, arith,
}
use banxe_payment_core.Exec.{map_result, Exc, partner, Result, ok, raised}
use banxe_payment_core.Lineage.{AgentOutcome, CostWindow, RequestCost, Sink, add, try_reserve}
use banxe_payment_core.Lineage.Window.Budget.{try_reserve-Affordable, release-add}
use banxe_payment_core.Payments.Types.{PaymentsMask, ActionContext, Evaluation, Reply, Call, Agent}
use banxe_payment_core.Payments.Gates.{evaluate}
use banxe_payment_core.Payments.Gates.Permission.{proceeds, evaluate_iff}
use banxe_payment_core.Payments.Actions.{emit, conclude, begin, answered, run_action}

-- The window when the port has answered: a PartnerPortError gives the reservation back.
abbrev pub charged : RequestCost → Result Reply → CostWindow → CostWindow
charged c (ok r) w = add c w
charged c (raised (partner k m)) w = w
charged c (raised e) w = add c w

abbrev pub is_partner : Exc → Bool
is_partner (partner k m) = true
is_partner e = false

-- What `_run_action` catches, or needs not catch.
abbrev pub caught : Result Reply → Bool
caught (ok r) = true
caught (raised e) = is_partner e

module _ (sink : Sink) (mask : PaymentsMask) (ctx : ActionContext) where
  proceeds-reserve :
      (w : CostWindow)
      → proceeds (evaluate mask w ctx) ≡ true
      → try_reserve ctx.request_cost mask.cost_cap w ≡ (true, add ctx.request_cost w)
  proceeds-reserve w h =
      try_reserve-Affordable ctx.request_cost mask.cost_cap w
        ((evaluate_iff mask w ctx).0 h).affordable

  -- What `begin` leaves, by what the evaluation was.
  abbrev pub started : Result Evaluation → Agent → Result Evaluation × Agent
  started (raised e) a = (raised e, a)
  started (ok ev) a =
      (ok ev, if ev.proceed then record a { window = add ctx.request_cost a.window } else a)

  -- Nothing runs between the evaluation and the reservation, so what is permitted is reserved.
  pub begin_lem : (a : Agent) → begin sink mask ctx a ≡ started (evaluate mask a.window ctx) a
  unfolding begin
  begin_lem a = ground (arith, proceeds-reserve a.window)

  -- Recording touches nothing but the journal.
  pub conclude-window :
      (ev : Evaluation) (x : Bool) (r : Option Reply) (a : Agent)
      → (conclude sink mask ctx ev x r a).1.window ≡ a.window
  unfolding conclude emit
  conclude-window ev x r a = ground arith

  module _ (call : Call) (port : List Call → Result Reply) (a : Agent) where
    -- `run_action` as a function of the evaluation alone.
    abbrev pub stepped : Result Evaluation → Result (AgentOutcome Reply) × Agent
    stepped (raised e) = (raised e, a)
    stepped (ok ev) =
        if ev.proceed
        then answered sink mask ctx ev (port a.calls)
            (record a { window = add ctx.request_cost a.window; calls = a.calls ++ call ∷ [] })
        else conclude sink mask ctx ev false none a

    pub run_action_lem : run_action sink mask ctx call port a ≡ stepped (evaluate mask a.window ctx)
    unfolding run_action
    run_action_lem = ground (arith, begin_lem a)

    -- The port is called once, with this call, if the action is permitted, and else not at all.
    run_action-calls :
        (run_action sink mask ctx call port a).1.calls
        ≡ (if proceeds (evaluate mask a.window ctx) then a.calls ++ call ∷ [] else a.calls)
    unfolding run_action answered conclude emit
    run_action-calls = ground (arith, begin_lem a)

    -- A permitted action keeps its cost if the port answered, and gives it back after a
    -- PartnerPortError; any other action leaves the window alone.
    run_action-window : (run_action sink mask ctx call port a).1.window ≡ (
        if proceeds (evaluate mask a.window ctx)
        then charged ctx.request_cost (port a.calls) a.window
        else a.window)
    unfolding run_action answered conclude emit
    run_action-window = ground (arith, begin_lem a, release-add ctx.request_cost a.window)

    pub run_action-idempotency :
        (run_action sink mask ctx call port a).1.idempotency ≡ a.idempotency
    unfolding run_action answered conclude emit
    run_action-idempotency = ground (arith, begin_lem a)

    -- An outcome is reported as executed exactly when the action was permitted, and then it carries
    -- what the port returned.
    run_action-executed :
        (o : AgentOutcome Reply)
        → (run_action sink mask ctx call port a).0 ≡ ok o
        → (o.executed ≡ proceeds (evaluate mask a.window ctx))
          × (o.executed ≡ true → map_result some (port a.calls) ≡ ok o.result)
    unfolding run_action answered conclude emit
    run_action-executed o h = ground (arith, begin_lem a)

    -- An exception that is no PartnerPortError is not caught: the reservation stays taken, and the
    -- recorder is not called.
    pub run_action-uncaught :
        (e : Exc)
        → proceeds (evaluate mask a.window ctx) ≡ true
        → port a.calls ≡ raised e
        → is_partner e ≡ false
        → let (r, b) = run_action sink mask ctx call port a in
          (r ≡ raised e) × (b.window ≡ add ctx.request_cost a.window) × (b.journal ≡ a.journal)
    unfolding run_action answered conclude emit
    run_action-uncaught e h p q = ground (arith, begin_lem a)
