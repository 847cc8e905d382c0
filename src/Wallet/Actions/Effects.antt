-- ===== src/Wallet/Actions/Effects.antt =====
-- What one action of the Wallet mask does to the wallet and the budget, on every branch of
-- `_run_action`.
use banxe_payment_core.Prelude.{
  ◌≡◌, true, false, ◌&&◌, if◌then◌else◌, none, List, [], ◌∷◌, ◌++◌, arith,
}
use banxe_payment_core.Exec.{Result, ok, raised, returned}
use banxe_payment_core.Lineage.{AgentOutcome, CostWindow, Sink, add, try_reserve}
use banxe_payment_core.Lineage.Window.Budget.{try_reserve-Affordable, release-add}
use banxe_payment_core.Wallet.Types.{WalletMask, ActionContext, Evaluation, Reply, Call, Agent}
use banxe_payment_core.Wallet.Gates.{evaluate}
use banxe_payment_core.Wallet.Gates.Permission.{proceeds, evaluate-allows_iff}
use banxe_payment_core.Wallet.Actions.{emit, conclude, begin, answered, run_action}

module _ (sink : Sink) (mask : WalletMask) (ctx : ActionContext) where
  proceeds-reserve :
      (w : CostWindow)
      → proceeds (evaluate mask w ctx) ≡ true
      → try_reserve ctx.request_cost mask.cost_cap w ≡ (true, add ctx.request_cost w)
  proceeds-reserve w h =
      try_reserve-Affordable ctx.request_cost mask.cost_cap w
        ((evaluate-allows_iff mask w ctx).0 h).affordable

  -- What `begin` leaves, by what the evaluation was.
  abbrev pub started : Result Evaluation → Agent → Result Evaluation × Agent
  started (raised e) a = (raised e, a)
  started (ok ev) a =
      (ok ev, if ev.proceed then record a { window = add ctx.request_cost a.window } else a)

  -- Nothing runs between the evaluation and the reservation, so what is permitted is reserved.
  pub begin_lem : (a : Agent) → begin sink mask ctx a ≡ started (evaluate mask a.window ctx) a
  unfolding begin
  begin_lem a = ground (arith, proceeds-reserve a.window)

  module _ (call : Call) (port : List Call → Result Reply) (a : Agent) where
    -- The agent when the wallet answers a permitted action.
    abbrev pub launched : Agent
    launched = record a { window = add ctx.request_cost a.window; calls = a.calls ++ call ∷ [] }

    -- `run_action` as a function of the evaluation alone.
    abbrev pub stepped : Result Evaluation → Result (AgentOutcome Reply) × Agent
    stepped (raised e) = (raised e, a)
    stepped (ok ev) =
        if ev.proceed
        then answered sink mask ctx ev (port a.calls) launched
        else conclude sink mask ctx ev false none a

    pub run_action_lem : run_action sink mask ctx call port a ≡ stepped (evaluate mask a.window ctx)
    unfolding run_action
    run_action_lem = ground (arith, begin_lem a)

    -- An action calls the wallet once if the evaluation lets it through, and not otherwise; after
    -- it the window holds its cost in addition exactly if the wallet was called and returned, and is
    -- as before if the wallet was not called or raised any exception.
    run_action-effects :
        ((run_action sink mask ctx call port a).1.calls
          ≡ (if proceeds (evaluate mask a.window ctx) then a.calls ++ call ∷ [] else a.calls))
        × ((run_action sink mask ctx call port a).1.window ≡ (
            if proceeds (evaluate mask a.window ctx) && returned (port a.calls)
            then add ctx.request_cost a.window
            else a.window))
    unfolding run_action answered conclude emit
    run_action-effects = ground (arith, begin_lem a, release-add ctx.request_cost a.window)
