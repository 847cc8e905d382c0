-- ===== src/Wallet/Tests.antt =====
-- Runs of the Wallet mask at concrete requests, and its theorems at inputs that meet them.
use banxe_payment_core.Prelude.{
  pos, ◌≡◌, refl, true, false, none, List, [], ◌∷◌, ◌+ℤ◌, string_comparable,
}
use banxe_payment_core.Exec.{Result, ok, raised, other, type_name}
use banxe_payment_core.Python.{one, nine_tenths}
use banxe_payment_core.Ports.{ChainId, SeedMaterial, SignedTx}
use banxe_payment_core.Lineage.{Accepts, auto, pass, BudgetBreach, CostCap, Sink, resolved}
use banxe_payment_core.Wallet.Types.{
  WalletMask, wallet_mask, WalletIntent, SignTxIntent, ActionContext, Evaluation, Reply, Call,
  Agent,
}
use banxe_payment_core.Wallet.Contexts.{sensitive_ctx}
use banxe_payment_core.Wallet.Gates.{evaluate, later_gates}
use banxe_payment_core.Wallet.Gates.Permission.{Permitted, proceeds, evaluate-allows_iff}
use banxe_payment_core.Wallet.Actions.{Port, new_agent, run_action}
use banxe_payment_core.Wallet.Actions.Records.{Logged, run_action-Logged}
use banxe_payment_core.Wallet.Actions.Requests.{Request, sign, perform, answer}
use banxe_payment_core.Wallet.Actions.Secrecy.{redact, shape, seen, perform-seen}

abbrev pub cap : CostCap
cap = record {
  max_request_tokens = pos 100;
  max_request_cost = pos 50;
  max_window_tokens = pos 150;
  max_window_cost = pos 75;
}

abbrev pub mask : WalletMask
mask = wallet_mask cap

abbrev pub sink : Sink
sink = record { uuid4 = λ n. "id"; now = λ n. n; reject = λ rs r. none }

abbrev pub signed_tx : SignedTx
signed_tx = record { chain = ChainId.btc; raw_tx = "00"; tx_hash = "ff" }

abbrev pub seed : SeedMaterial
seed = record { entropy = 1 ∷ 2 ∷ [] }

abbrev port : Port
port = record {
  validate_address = λ cs c a. ok true;
  verify_signature = λ cs c a m s. ok false;
  derive_address = λ cs s c p. raised (other "WalletError" "unsupported path");
  generate_seed_phrase = λ cs n. ok "abandon";
  seed_phrase_to_entropy = λ cs p. ok seed;
  sign_tx = λ cs s c p t. ok signed_tx;
  encrypt = λ cs t p. ok "cipher";
  decrypt = λ cs t p. ok "plain";
}

-- A wallet that puts what it was given to sign in its message.
abbrev leaky : Port
leaky = record port { sign_tx = λ cs s c p t. raised (other "WalletError" t) }

abbrev pub shared : WalletIntent
shared = record {
  intent_text = "sign";
  process_ref = record { process_id = "P-WALLET"; version = "1" };
  correlation_id = "x1";
  confidence_score = one;
  request_cost = record { tokens = pos 40; cost = pos 20 };
}

abbrev pub intent : SignTxIntent
intent = record {
  shared = shared;
  seed = seed;
  chain = ChainId.btc;
  path = "m/44'/0'";
  tx_payload = "pay 1";
  biometric_verified = true;
}

abbrev pub agent : Agent
agent = new_agent mask

abbrev ctx : ActionContext
ctx = sensitive_ctx mask shared true "sign_tx:BTC:m/44'/0'" "SIGN_TX" "WalletPort.sign_tx" pass none

abbrev allowed : Evaluation
allowed = record {
  decision = auto;
  proceed = true;
  action_taken = "SIGN_TX";
  reasoning_summary = "All mask gates satisfied at auto confidence; executing within scope.";
  policies =
      "ADR-048-process-resolution" ∷ "ADR-049-scope-allow-list" ∷ "ADR-047-HITL-AUTO-REVIEW-BLOCK"
      ∷ "ADR-047-cost-cap" ∷ "ADR-049-compliance-gate:AML" ∷ [];
  compliance_result = pass;
  budget_breach = BudgetBreach.none;
  halt_reason = none;
  requires_step_up = false;
  requires_hitl = false;
}

evaluate-allowed : evaluate mask agent.window ctx ≡ ok allowed
unfolding evaluate later_gates resolved one nine_tenths sensitive_ctx ◌+ℤ◌
evaluate-allowed = refl

permitted : proceeds (evaluate mask agent.window ctx) ≡ true
unfolding evaluate later_gates resolved one nine_tenths sensitive_ctx ◌+ℤ◌
permitted = refl

evaluate-allows_iff_example : Permitted mask agent.window ctx
evaluate-allows_iff_example = (evaluate-allows_iff mask agent.window ctx).0 permitted

accepts : Accepts sink
accepts rs r = refl

abbrev call : Call
call = Call.sign_tx seed ChainId.btc "m/44'/0'" "pay 1"

abbrev fails : List Call → Result Reply
fails cs = raised (other "WalletError" "locked")

run_action-Logged_example :
    Logged sink mask ctx allowed agent (run_action sink mask ctx call fails agent).1
run_action-Logged_example =
    run_action-Logged sink mask ctx accepts allowed call fails agent evaluate-allowed

-- The same transaction signed with another seed, for another payload.
abbrev pub request : Request
request = sign intent pass none

abbrev pub other_request : Request
other_request =
    sign (record intent { seed = record { entropy = 7 ∷ [] }; tx_payload = "pay 2" }) pass none

same : redact request ≡ redact other_request
unfolding redact
same = refl

alike : shape (answer leaky request []) ≡ shape (answer leaky other_request [])
unfolding answer type_name
alike = refl

perform-seen_example :
    seen (perform sink mask leaky request agent).1
    ≡ seen (perform sink mask leaky other_request agent).1
perform-seen_example = perform-seen sink mask leaky leaky request other_request agent same alike
