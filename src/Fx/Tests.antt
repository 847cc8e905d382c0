-- ===== src/Fx/Tests.antt =====
-- Runs of the FX mask at concrete intents, and its theorems at inputs that meet them.
use banxe_payment_core.Prelude.{
  pos, ◌≡◌, refl, true, false, if◌then◌else◌, none, some, List, [], ◌∷◌, ◌++◌, ◌+ℤ◌, lookup,
  string_comparable,
}
use banxe_payment_core.Exec.{Result, ok, raised, exchange, other, ExchangeError}
use banxe_payment_core.Python.{one, nine_tenths, decimal}
use banxe_payment_core.Ports.{
  RateQuote, OrderResult, OrderState, OrderSide, OrderType, SignedTx, ChainId,
}
use banxe_payment_core.Lineage.{
  Accepts, auto, pass, BudgetBreach, AgentOutcome, CostCap, Sink, add, resolved, try_reserve,
  persist,
}
use banxe_payment_core.Fx.Types.{
  FxExchangeMask, fx_mask, SettlementInstruction, OrderIntent, ActionContext, Evaluation, Reply,
  Call, Agent,
}
use banxe_payment_core.Fx.Gates.{evaluate, later_gates}
use banxe_payment_core.Fx.Gates.Permission.{Permitted, proceeds, evaluate-permits_iff}
use banxe_payment_core.Fx.Contexts.{order_context}
use banxe_payment_core.Fx.Actions.{
  Ports, settle_leg, new_agent, begin, leg, settled, deliver, answered, conclude, emit, lineage,
  run_action, keep, place, unless_placed, place_order,
}
use banxe_payment_core.Fx.Actions.Effects.{legs, charged, run_action-accounts}
use banxe_payment_core.Fx.Actions.Orders.{order, perform, place_order-again}
use banxe_payment_core.Fx.Actions.Unsettled.{exchange_answer, place_order-unsettled}
use banxe_payment_core.Fx.Interleaving.{idle, Placement, submit, run}
use banxe_payment_core.Fx.Interleaving.Races.{double_order}
use banxe_payment_core.Fx.Actions.Records.{Recorded, run_action-Recorded}

abbrev pub cap : CostCap
cap = record {
  max_request_tokens = pos 100;
  max_request_cost = pos 50;
  max_window_tokens = pos 150;
  max_window_cost = pos 75;
}

abbrev pub mask : FxExchangeMask
mask = fx_mask cap

abbrev pub sink : Sink
sink = record { uuid4 = λ n. "id"; now = λ n. n; reject = λ rs r. none }

abbrev pub fill : OrderResult
fill = record {
  order_id = "o1";
  state = OrderState.filled;
  filled_amount = "2";
  average_price = none;
  fee = none;
  raw = none;
}

abbrev quote : RateQuote
quote = record {
  base_asset = "BTC";
  quote_asset = "EUR";
  bid = "1";
  ask = "2";
  ttl_seconds = pos 5;
  quoted_at = "t";
}

abbrev pub signed : SignedTx
signed = record { chain = ChainId.btc; raw_tx = "00"; tx_hash = "ff" }

abbrev ports : Ports
ports = record {
  exchange_port = record {
    get_rate = λ cs b q. ok quote;
    place_order = λ cs o. ok fill;
    cancel_order = λ cs o. ok true;
    get_order_status = λ cs o. ok fill;
  };
  wallet_port = record {
    generate_seed_phrase = λ cs n. raised (other "Unused" "");
    seed_phrase_to_entropy = λ cs p. raised (other "Unused" "");
    derive_address = λ cs s c p. raised (other "Unused" "");
    sign_tx = λ cs s c p t. ok signed;
    verify_signature = λ cs c a m s. ok true;
    validate_address = λ cs c a. ok true;
    encrypt = λ cs t p. raised (other "Unused" "");
    decrypt = λ cs t p. raised (other "Unused" "");
  };
}

abbrev pub instruction : SettlementInstruction
instruction = record {
  chain = ChainId.btc;
  seed = record { entropy = [] };
  derivation_path = "m/44'/0'/0'/0/0";
  tx_payload = "tx";
}

abbrev pub intent : OrderIntent
intent = record {
  intent_text = "buy";
  process_ref = record { process_id = "P-FX"; version = "1" };
  order = record {
    base_asset = "BTC";
    quote_asset = "EUR";
    side = OrderSide.buy;
    type = OrderType.market;
    amount = "2";
    client_order_id = "c1";
    correlation_id = "x1";
    limit_price = none;
  };
  correlation_id = "x1";
  confidence_score = one;
  request_cost = record { tokens = pos 40; cost = pos 20 };
  biometric_verified = true;
  settlement = some instruction;
}

abbrev pub agent : Agent
agent = new_agent mask

two : decimal intent.order.amount ≡ some (pos 2000000000000000000)
unfolding decimal
two = refl

abbrev pub ctx : ActionContext
ctx = order_context intent (pos 2000000000000000000) pass none

abbrev pub placed : Evaluation
placed = record {
  decision = auto;
  proceed = true;
  action_taken = "PLACE_ORDER";
  reasoning_summary = "All mask gates satisfied at auto confidence; executing within scope.";
  policies =
      "ADR-048-process-resolution" ∷ "ADR-049-scope-allow-list" ∷ "ADR-047-HITL-AUTO-REVIEW-BLOCK"
      ∷ "ADR-047-cost-cap" ∷ "ADR-049-compliance-gate:AML+SANCTIONS+TRAVEL_RULE" ∷ [];
  compliance_result = pass;
  budget_breach = BudgetBreach.none;
  halt_reason = none;
  requires_step_up = false;
  requires_hitl = false;
}

evaluate-placed : evaluate mask agent.window ctx ≡ ok placed
unfolding evaluate later_gates resolved one nine_tenths order_context ◌+ℤ◌
evaluate-placed = refl

permitted : proceeds (evaluate mask agent.window ctx) ≡ true
unfolding evaluate later_gates resolved one nine_tenths order_context ◌+ℤ◌
permitted = refl

evaluate-permits_iff_example : Permitted mask agent.window ctx
evaluate-permits_iff_example = (evaluate-permits_iff mask agent.window ctx).0 permitted

pub accepts : Accepts sink
accepts rs r = refl

abbrev call : Call
call = Call.place_order intent.order

abbrev fills : List Call → Result Reply
fills cs = ok (Reply.order fill)

abbrev stale : List Call → Result Reply
stale cs = raised (exchange ExchangeError.stale_rate "expired")

run_action-accounts_example :
    ((run_action sink mask ports ctx call fills (some instruction) agent).1.calls ≡ (
      if proceeds (evaluate mask agent.window ctx)
      then (call ∷ []) ++ legs (some instruction) (fills [])
      else []))
    × ((run_action sink mask ports ctx call fills (some instruction) agent).1.window ≡ (
        if proceeds (evaluate mask agent.window ctx)
        then charged ctx.request_cost (fills []) agent.window
        else agent.window))
run_action-accounts_example =
    run_action-accounts sink mask ports ctx call fills (some instruction) agent

run_action-Recorded_example :
    Recorded sink mask ports ctx placed agent
      (run_action sink mask ports ctx call fills (some instruction) agent).1
run_action-Recorded_example =
    run_action-Recorded sink mask ports ctx accepts placed call fills (some instruction) agent
      evaluate-placed (λ p. refl)

abbrev outcome : AgentOutcome Reply
outcome = record {
  decision = auto;
  executed = true;
  lineage =
      lineage sink mask ctx placed placed.action_taken true pass placed.reasoning_summary agent;
  result = some (Reply.order fill);
  halt_reason = none;
  requires_step_up = false;
  requires_hitl = false;
}

place_order-first : (place_order sink mask ports intent pass none agent).0 ≡ ok outcome
unfolding place_order settle_leg unless_placed place run_action begin answered deliver settled leg
    conclude emit persist keep lineage evaluate later_gates resolved one nine_tenths order_context
    ◌+ℤ◌ decimal lookup try_reserve
place_order-first = refl

-- The same client order id for another amount.
abbrev altered : OrderIntent
altered = record intent { order = record intent.order { amount = "9" } }

place_order-again_example :
    let b =
      perform sink mask ports
        (order intent pass none ∷ [])
        (place_order sink mask ports intent pass none agent).1 in
    place_order sink mask ports altered pass none b ≡ (ok outcome, b)
place_order-again_example =
    place_order-again sink mask ports intent pass none agent outcome (order intent pass none ∷ [])
      altered pass none place_order-first refl refl

-- A wallet that cannot sign.
abbrev locked : Ports
locked = record ports {
  wallet_port = record ports.wallet_port {
    sign_tx = λ cs s c p t. raised (other "WalletError" "locked");
  };
}

leg-filled : leg (some instruction) (Reply.order fill) ≡ some instruction
unfolding leg
leg-filled = refl

place_order-unsettled_example :
    let (t, b) = place_order sink mask locked intent pass none agent in
    (t ≡ raised (other "WalletError" "locked"))
    × ((place_order sink mask locked intent pass none b).1.calls ≡ (
        if proceeds (evaluate mask b.window ctx)
        then (b.calls ++ call ∷ [])
          ++ legs (some instruction) (exchange_answer sink mask locked intent pass none b.calls)
        else b.calls))
unfolding lookup settle_leg
place_order-unsettled_example =
    place_order-unsettled sink mask locked intent pass none (pos 2000000000000000000) agent fill
      instruction (other "WalletError" "locked") accepts refl two permitted refl leg-filled refl

abbrev pub placement : Placement
placement = record { intent = intent; compliance = pass; reviewed_by = none }

permitted-twice : proceeds (evaluate mask (add ctx.request_cost agent.window) ctx) ≡ true
unfolding evaluate later_gates resolved one nine_tenths order_context ◌+ℤ◌ add
permitted-twice = refl

double_order_example :
    (run sink mask (submit placement ∷ submit placement ∷ []) (idle agent)).agent.calls
    ≡ call ∷ call ∷ []
unfolding lookup order_context
double_order_example =
    double_order sink mask placement (pos 2000000000000000000) (idle agent) two refl
      ((evaluate-permits_iff mask agent.window ctx).0 permitted)
      ((evaluate-permits_iff mask (add ctx.request_cost agent.window) ctx).0 permitted-twice)
