-- ===== src/Payments/Tests.antt =====
-- Runs of the Payments mask at concrete intents, and its theorems at inputs that meet them.
use banxe_payment_core.Prelude.{
  pos, ◌≡◌, refl, Bool, true, false, none, some, List, [], ◌∷◌, arith, ◌+ℤ◌, lookup, contains,
  insert,
}
use banxe_payment_core.Exec.{Result, ok, raised, partner, other, PartnerError}
use banxe_payment_core.Python.{one, nine_tenths, decimal}
use banxe_payment_core.Ports.{PartnerType, PaymentInstruction, PaymentResult, accepted}
use banxe_payment_core.Lineage.{
  Accepts, auto, pass, BudgetBreach, AgentOutcome, CostWindow, CostCap, Sink, resolved, add,
  try_reserve, persist, has_seen, mark_seen, prior_result,
}
use banxe_payment_core.Payments.Types.{
  PaymentsMask, payments_mask, PaymentIntent, ActionContext, Evaluation, Reply, payment, Call,
  Agent,
}
use banxe_payment_core.Payments.Gates.{evaluate}
use banxe_payment_core.Payments.Gates.Permission.{Permitted, evaluate_iff}
use banxe_payment_core.Payments.Actions.{
  Ports, new_agent, payment_context, begin, answered, conclude, emit, lineage, run_action, pay,
  mark, suppress_duplicate, initiate_payment,
}
use banxe_payment_core.Payments.Actions.Effects.{run_action-uncaught}
use banxe_payment_core.Payments.Actions.Records.{Recorded, run_action-lineage}
use banxe_payment_core.Payments.Actions.Replay.{Request, PaidOnce, payments, serve, serve-PaidOnce}
use banxe_payment_core.Payments.Interleaving.{Event, submit, answer, run}
use banxe_payment_core.Payments.Interleaving.Budget.{book, run-IsFunded}
use banxe_payment_core.Lineage.Window.Accounts.{IsFunded}
use banxe_payment_core.Payments.Interleaving.Collision.{idle, double_submission}

abbrev pub cap : CostCap
cap = record {
  max_request_tokens = pos 100;
  max_request_cost = pos 50;
  max_window_tokens = pos 150;
  max_window_cost = pos 75;
}

abbrev pub mask : PaymentsMask
mask = payments_mask cap (pos 1000)

abbrev pub sink : Sink
sink = record { uuid4 = λ n. "id"; now = λ n. n; reject = λ rs r. none }

abbrev pub partner_result : PaymentResult
partner_result = record {
  status = accepted;
  partner_tx_id = some "tx-1";
  settled_at = none;
  reason = none;
  raw = none;
}

abbrev pub ports : Ports
ports = record {
  partner_port = record {
    initiate_payment = λ cs i. ok partner_result;
    get_payment_status = λ cs t. ok partner_result;
    reconcile = λ cs d. raised (other "Unused" "");
  };
  wallet_port = record {
    generate_seed_phrase = λ cs n. raised (other "Unused" "");
    seed_phrase_to_entropy = λ cs p. raised (other "Unused" "");
    derive_address = λ cs s c p. raised (other "Unused" "");
    sign_tx = λ cs s c p t. raised (other "Unused" "");
    verify_signature = λ cs c a m s. ok true;
    validate_address = λ cs c a. ok true;
    encrypt = λ cs t p. raised (other "Unused" "");
    decrypt = λ cs t p. raised (other "Unused" "");
  };
}

abbrev pub instruction : PaymentInstruction
instruction = record {
  from_account = record { partner = PartnerType.sepa; external_account_id = "acc" };
  to_iban = "GB29NWBK60161331926819";
  amount = "100.50";
  currency = "EUR";
  reference = "rent";
  idempotency_key = "k1";
  correlation_id = "c1";
}

abbrev pub intent : PaymentIntent
intent = record {
  intent_text = "pay rent";
  process_ref = record { process_id = "P-PAY"; version = "1" };
  instruction = instruction;
  correlation_id = "c1";
  confidence_score = one;
  request_cost = record { tokens = pos 40; cost = pos 20 };
  biometric_verified = true;
}

abbrev pub agent : Agent
agent = new_agent mask

pub amount : decimal "100.50" ≡ some (pos 100500000000000000000)
unfolding decimal
amount = refl

abbrev pub ctx : ActionContext
ctx = payment_context intent (pos 100500000000000000000) pass none

abbrev pub paid : Evaluation
paid = record {
  decision = auto;
  proceed = true;
  action_taken = "APPROVE_PAYMENT";
  reasoning_summary = "All mask gates satisfied at auto confidence; executing within scope.";
  policies =
      "ADR-048-process-resolution" ∷ "ADR-047-cost-cap"
      ∷ "ADR-049-compliance-gate:AML+SANCTIONS+TRAVEL_RULE" ∷ "ADR-047-HITL-AUTO-REVIEW-BLOCK" ∷ [];
  compliance_result = pass;
  budget_breach = BudgetBreach.none;
  halt_reason = none;
  requires_step_up = false;
  requires_hitl = false;
}

evaluate-paid : evaluate mask agent.window ctx ≡ ok paid
unfolding evaluate resolved one nine_tenths payment_context ◌+ℤ◌
evaluate-paid = refl

pub permitted : Permitted mask agent.window ctx
unfolding evaluate resolved one nine_tenths payment_context ◌+ℤ◌
permitted = (evaluate_iff mask agent.window ctx).0 refl

evaluate_iff_example : Permitted mask agent.window ctx
unfolding evaluate resolved one nine_tenths payment_context ◌+ℤ◌
evaluate_iff_example = (evaluate_iff mask agent.window ctx).0 refl

used : CostWindow
used = add intent.request_cost agent.window

Permitted-used : Permitted mask used ctx
unfolding used add evaluate resolved one nine_tenths payment_context ◌+ℤ◌
Permitted-used = (evaluate_iff mask used ctx).0 refl

pub accepts : Accepts sink
accepts rs r = refl

agent-PaidOnce : PaidOnce sink mask ports agent
unfolding payments has_seen contains lookup
agent-PaidOnce k = refl

abbrev pub request : Request
request = record { intent = intent; compliance = pass; reviewed_by = none }

-- The second submission is suppressed.
serve-calls :
    (serve sink mask ports (request ∷ request ∷ []) agent).calls
    ≡ Call.initiate_payment instruction ∷ []
unfolding serve initiate_payment pay run_action begin answered conclude emit persist mark evaluate
    resolved one nine_tenths payment_context ◌+ℤ◌ decimal has_seen contains lookup try_reserve
    mark_seen insert suppress_duplicate prior_result
serve-calls = refl

serve-PaidOnce_example :
    PaidOnce sink mask ports (serve sink mask ports (request ∷ request ∷ []) agent)
serve-PaidOnce_example =
    serve-PaidOnce sink mask ports accepts (request ∷ request ∷ []) agent agent-PaidOnce

abbrev call : Call
call = Call.initiate_payment instruction

abbrev answers : List Call → Result Reply
answers cs = ok (payment partner_result)

abbrev refuses : List Call → Result Reply
refuses cs = raised (partner PartnerError.compliance_block "sanctions")

abbrev breaks : List Call → Result Reply
breaks cs = raised (other "ConnectionError" "reset")

abbrev executed : Result (AgentOutcome Reply) → Bool
executed (ok o) = o.executed
executed (raised e) = false

abbrev outcome : AgentOutcome Reply
outcome = record {
  decision = auto;
  executed = true;
  lineage = lineage sink mask ctx paid paid.action_taken true pass paid.reasoning_summary agent;
  result = some (payment partner_result);
  halt_reason = none;
  requires_step_up = false;
  requires_hitl = false;
}

run-outcome : (run_action sink mask ctx call answers agent).0 ≡ ok outcome
unfolding run_action begin answered conclude emit persist lineage evaluate resolved one nine_tenths
    payment_context ◌+ℤ◌ try_reserve
run-outcome = refl

run_action-uncaught_example :
    let (r, b) = run_action sink mask ctx call breaks agent in
    (r ≡ raised (other "ConnectionError" "reset"))
    × (b.window ≡ add ctx.request_cost agent.window)
    × (b.journal ≡ agent.journal)
run_action-uncaught_example =
    run_action-uncaught sink mask ctx call breaks agent (other "ConnectionError" "reset")
      ((evaluate_iff mask agent.window ctx).1 evaluate_iff_example) refl refl

run_action-lineage_example :
    Recorded sink mask ctx paid agent (run_action sink mask ctx call refuses agent).1
run_action-lineage_example =
    run_action-lineage sink mask ctx call refuses agent paid accepts evaluate-paid (λ h. refl)

abbrev pub events : List Event
events = submit request ∷ submit request ∷ answer 1 (ok partner_result) ∷ []

run-IsFunded_example : IsFunded mask.cost_cap (book (run sink mask events (idle agent)))
run-IsFunded_example = run-IsFunded sink mask events (idle agent) (omega arith) (omega arith)

double_submission_example :
    (run sink mask (submit request ∷ submit request ∷ []) (idle agent)).agent.calls
    ≡ call ∷ call ∷ []
unfolding has_seen contains lookup used
double_submission_example =
    double_submission sink mask request (pos 100500000000000000000) (idle agent) amount refl
      evaluate_iff_example Permitted-used
