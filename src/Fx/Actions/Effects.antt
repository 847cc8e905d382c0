-- ===== src/Fx/Actions/Effects.antt =====
-- What one action of the FX mask does to the ports and the budget, on every branch of
-- `_run_action`.
use banxe_payment_core.Prelude.{
  ◌≡◌, Bool, true, false, if◌then◌else◌, Option, none, some, List, [], ◌∷◌, ◌++◌, arith, refl, sym,
  ap, ◌∙◌,
}
use mathlib.Core.List.{append-nil}
use banxe_payment_core.Exec.{exchange, Result, ok, raised}
use banxe_payment_core.Ports.{OrderState}
use banxe_payment_core.Lineage.{AgentOutcome, CostWindow, RequestCost, Sink, add, try_reserve}
use banxe_payment_core.Lineage.Window.Budget.{try_reserve-Affordable, release-add}
use banxe_payment_core.Fx.Types.{
  FxExchangeMask, ActionContext, Evaluation, Reply, Call, Agent, SettlementInstruction,
}
use banxe_payment_core.Fx.Gates.{evaluate}
use banxe_payment_core.Fx.Gates.Permission.{proceeds, evaluate-permits_iff}
use banxe_payment_core.Fx.Actions.{
  Ports, leg, emit, conclude, begin, settled, deliver, answered, rejected, run_action,
}

-- The window when the exchange has answered: an ExchangePortError gives the reservation back.
abbrev pub charged : RequestCost → Result Reply → CostWindow → CostWindow
charged c (raised (exchange k m)) w = w
charged c r w = add c w

-- The calls of a permitted action: the exchange's, and the wallet's if an order with a settlement
-- instruction was filled.
abbrev pub signing : Option SettlementInstruction → List Call
signing none = []
signing (some s) = Call.sign_tx s ∷ []

-- Only an order that is filled is settled.
abbrev pub filled_with : Option SettlementInstruction → OrderState → List Call
filled_with settle OrderState.filled = signing settle
filled_with settle _ = []

abbrev pub legs : Option SettlementInstruction → Result Reply → List Call
legs settle (ok (Reply.order r)) = filled_with settle r.state
legs settle _ = []

-- The settlement leg of `_run_action` is for exactly these.
signing-leg :
    (settle : Option SettlementInstruction) (reply : Reply)
    → signing (leg settle reply) ≡ legs settle (ok reply)
unfolding leg
signing-leg none (Reply.order r) = ground arith
signing-leg (some s) (Reply.order r) = ground arith
signing-leg settle (Reply.rate r) = ground arith
signing-leg settle (Reply.cancelled b) = ground arith

module _ (sink : Sink) (mask : FxExchangeMask) (ctx : ActionContext) where
  proceeds-reserve :
      (w : CostWindow)
      → proceeds (evaluate mask w ctx) ≡ true
      → try_reserve ctx.request_cost mask.cost_cap w ≡ (true, add ctx.request_cost w)
  proceeds-reserve w h =
      try_reserve-Affordable ctx.request_cost mask.cost_cap w
        ((evaluate-permits_iff mask w ctx).0 h).affordable

  -- What `begin` leaves, by what the evaluation was.
  abbrev pub started : Result Evaluation → Agent → Result Evaluation × Agent
  started (raised e) a = (raised e, a)
  started (ok ev) a =
      (ok ev, if ev.proceed then record a { window = add ctx.request_cost a.window } else a)

  -- Nothing runs between the evaluation and the reservation, so what is permitted is reserved.
  pub begin_lem : (a : Agent) → begin sink mask ctx a ≡ started (evaluate mask a.window ctx) a
  unfolding begin
  begin_lem a = ground (arith, proceeds-reserve a.window)

module _ (sink : Sink) (mask : FxExchangeMask) (ports : Ports) (ctx : ActionContext) where
  conclude-calls :
      (ev : Evaluation) (x : Bool) (r : Option Reply) (b : Agent)
      → (conclude sink mask ctx ev x r b).1.calls ≡ b.calls
  unfolding conclude emit
  conclude-calls ev x r b = ground arith

  deliver-calls :
      (ev : Evaluation) (reply : Reply) (s : Option SettlementInstruction) (b : Agent)
      → (deliver sink mask ports ctx ev reply s b).1.calls ≡ b.calls ++ signing s
  unfolding deliver settled emit
  deliver-calls ev reply none b = conclude-calls ev true (some reply) b ∙ sym (append-nil b.calls)
  deliver-calls ev reply (some s) b =
      let c : Agent = record b { calls = b.calls ++ Call.sign_tx s ∷ [] } in
      ground (arith, conclude-calls ev true (some reply) c)

  answered-calls :
      (ev : Evaluation) (settle : Option SettlementInstruction) (r : Result Reply) (b : Agent)
      → (answered sink mask ports ctx ev settle r b).1.calls ≡ b.calls ++ legs settle r
  unfolding answered rejected emit
  answered-calls ev settle (ok reply) b =
      deliver-calls ev reply (leg settle reply) b
      ∙ ap (λ l. b.calls ++ l) (signing-leg settle reply)
  answered-calls ev settle (raised e) b = rw append-nil (ground arith)

  module _ (call : Call) (port : List Call → Result Reply) (settle : Option SettlementInstruction)
      (a : Agent) where
    -- The agent when the exchange answers a permitted action.
    abbrev pub launched : Agent
    launched = record a { window = add ctx.request_cost a.window; calls = a.calls ++ call ∷ [] }

    -- `run_action` as a function of the evaluation alone.
    abbrev pub stepped : Result Evaluation → Result (AgentOutcome Reply) × Agent
    stepped (raised e) = (raised e, a)
    stepped (ok ev) =
        if ev.proceed
        then answered sink mask ports ctx ev settle (port a.calls) launched
        else conclude sink mask ctx ev false none a

    pub run_action_lem :
        run_action sink mask ports ctx call port settle a ≡ stepped (evaluate mask a.window ctx)
    unfolding run_action
    run_action_lem = ground (arith, begin_lem sink mask ctx a)

    stepped-calls :
        (e : Result Evaluation)
        → (stepped e).1.calls
          ≡ (if proceeds e then (a.calls ++ call ∷ []) ++ legs settle (port a.calls) else a.calls)
    stepped-calls (raised e) = refl
    stepped-calls (ok ev) =
        ground
          (arith, answered-calls ev settle (port a.calls) launched, conclude-calls ev false none a)

    pub run_action-ports : (run_action sink mask ports ctx call port settle a).1.calls ≡ (
        if proceeds (evaluate mask a.window ctx)
        then (a.calls ++ call ∷ []) ++ legs settle (port a.calls)
        else a.calls)
    run_action-ports = rw run_action_lem (stepped-calls (evaluate mask a.window ctx))

    run_action-budget : (run_action sink mask ports ctx call port settle a).1.window ≡ (
        if proceeds (evaluate mask a.window ctx)
        then charged ctx.request_cost (port a.calls) a.window
        else a.window)
    unfolding run_action answered rejected deliver settled conclude emit
    run_action-budget =
        ground (arith, begin_lem sink mask ctx a, release-add ctx.request_cost a.window)

    -- An action calls the exchange once if the evaluation lets it through, and then the wallet once
    -- if the exchange answers with a filled order and there is a settlement instruction; it makes
    -- no other call. After it the window holds its cost in addition if the evaluation let it
    -- through and the exchange returned, whatever became of the settlement, or raised something
    -- other than an ExchangePortError; in every other case it is as before.
    pub run_action-accounts :
        ((run_action sink mask ports ctx call port settle a).1.calls ≡ (
          if proceeds (evaluate mask a.window ctx)
          then (a.calls ++ call ∷ []) ++ legs settle (port a.calls)
          else a.calls))
        × ((run_action sink mask ports ctx call port settle a).1.window ≡ (
            if proceeds (evaluate mask a.window ctx)
            then charged ctx.request_cost (port a.calls) a.window
            else a.window))
    run_action-accounts = (run_action-ports, run_action-budget)
