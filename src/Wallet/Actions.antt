-- ===== src/Wallet/Actions.antt =====
-- The actions of src/agents/wallet_agent.py: `_emit`, `_run_action` and the eight operations.
pub mod Effects
pub mod Records
pub mod Requests
pub mod Secrecy
use banxe_payment_core.Prelude.{
  String, ◌<>◌, Bool, true, false, if◌then◌else◌, Option, none, some, List, [], ◌∷◌, ◌++◌,
}
use banxe_payment_core.Exec.{
  Exc, Result, ok, raised, map_result, Exec, pure, raise, lift, modify, ◌>>=◌, ◌>>◌, type_name,
}
use banxe_payment_core.Ports.{chain_value, WordCount, twelve, twenty_four, WalletPort}
use banxe_payment_core.Lineage.{
  block, ComplianceResult, na, BudgetBreach, AgentDecisionRecord, AgentOutcome, CostWindow,
  empty_window, Journal, try_reserve, release, Sink, persist,
}
use banxe_payment_core.Wallet.Types.{
  WalletMask, ValidateAddressIntent, VerifySignatureIntent, DeriveAddressIntent,
  GenerateSeedPhraseIntent, SeedToEntropyIntent, SignTxIntent, EncryptIntent, DecryptIntent,
  ActionContext, Evaluation, Reply, Call, Agent,
}
use banxe_payment_core.Wallet.Contexts.{read_ctx, sensitive_ctx}
use banxe_payment_core.Wallet.Gates.{halted, evaluate}

-- WalletAgent(…) with the default window.
abbrev pub new_agent : WalletMask → Agent
new_agent mask = record {
  window = empty_window (mask.agent_id <> ":default");
  journal = record { records = []; draws = 0 };
  calls = [];
}

-- The injected wallet, over the calls that the agent has made.
abbrev pub Port : Type 0
Port = WalletPort (List Call)

abbrev written : Agent → Result AgentDecisionRecord × Journal → Result AgentDecisionRecord × Agent
written a (r, j) = (r, record a { journal = j })

-- The evaluation that replaces `ev` when the reservation is refused.
abbrev exhausted : Evaluation → Evaluation
exhausted ev =
    halted block "HALT_COST_CAP_BREACH"
      "Cost-cap breach (per-window budget exhausted under concurrency); action refused (ADR-047)."
      ev.policies na BudgetBreach.breach "cost_cap_breach" false false

abbrev reserved : Evaluation → Bool × CostWindow → Exec Agent Evaluation
reserved ev (true, w) a = (ok ev, record a { window = w })
reserved ev (false, w) a = (ok (exhausted ev), record a { window = w })

-- str(word_count)
abbrev pub words : WordCount → String
words twelve = "12"
words twenty_four = "24"

module _ (sink : Sink) (mask : WalletMask) where
  -- The record that `_emit` makes.
  unfoldable pub lineage :
      ActionContext → Evaluation → String → Bool → String → Agent → AgentDecisionRecord
  lineage ctx ev action_taken executed reasoning a = record {
    record_id = sink.uuid4 a.journal.draws;
    timestamp = sink.now a.journal.draws;
    agent_id = mask.agent_id;
    triggering_event = ctx.triggering_event;
    intent = ctx.intent_text;
    policies_evaluated = ev.policies;
    compliance_result = ev.compliance_result;
    reasoning_summary = reasoning;
    confidence_score = ctx.confidence_score;
    action_taken = action_taken;
    human_reviewed_by = ctx.human_reviewed_by;
    correlation_id = ctx.correlation_id;
    cost_tokens = ctx.request_cost.tokens;
    cost_amount = ctx.request_cost.cost;
    budget_window_ref = a.window.window_ref;
    budget_breach_flag = ev.budget_breach;
    immutable_storage_ref = none;
    input_tokens = none;
    output_tokens = none;
  }

  unfoldable pub emit :
      ActionContext → Evaluation → String → Bool → String → Exec Agent AgentDecisionRecord
  emit ctx ev action_taken executed reasoning a =
      written a (persist sink (lineage ctx ev action_taken executed reasoning a) a.journal)

  -- The record of an action that reached its end, and its outcome.
  unfoldable pub conclude :
      ActionContext → Evaluation → Bool → Option Reply → Exec Agent (AgentOutcome Reply)
  conclude ctx ev executed result = do
    r ← emit ctx ev ev.action_taken executed ev.reasoning_summary
    pure (record {
      decision = ev.decision;
      executed = executed;
      lineage = r;
      result = result;
      halt_reason = ev.halt_reason;
      requires_step_up = ev.requires_step_up;
      requires_hitl = ev.requires_hitl;
    })

  -- Up to the `await` of the wallet.
  unfoldable pub begin : ActionContext → Exec Agent Evaluation
  begin ctx = do
    ev ← λ a. lift (evaluate mask a.window ctx) a
    if ev.proceed
        then (λ a. reserved ev (try_reserve ctx.request_cost mask.cost_cap a.window) a)
        else pure ev

  -- From the wallet's answer on. Every exception is recorded, by its type, and passed on; `Exc` is a
  -- Python `Exception`, and a cancellation, which is none and is not caught, is not modelled.
  unfoldable pub answered :
      ActionContext → Evaluation → Result Reply → Exec Agent (AgentOutcome Reply)
  answered ctx ev (ok reply) = conclude ctx ev true (some reply)
  answered ctx ev (raised e) = do
    modify (λ a. record a { window = release ctx.request_cost a.window })
    emit ctx ev ("HALT_WALLET_ERROR:" <> type_name e) false
        ("WalletPort raised " <> type_name e <> "; action not completed.")
    raise e

  unfoldable pub run_action :
      ActionContext → Call → (List Call → Result Reply) → Exec Agent (AgentOutcome Reply)
  run_action ctx call port = do
    ev ← begin ctx
    if ev.proceed
        then (λ a. answered ctx ev (port a.calls) (record a { calls = a.calls ++ call ∷ [] }))
        else conclude ctx ev false none

  module _ (port : Port) where
    unfoldable pub validate_address :
        ValidateAddressIntent → ComplianceResult → Exec Agent (AgentOutcome Reply)
    validate_address i compliance =
        run_action
          (read_ctx mask i.shared ("validate_address:" <> chain_value i.chain <> ":" <> i.address)
            "VALIDATE_ADDRESS" "WalletPort.validate_address" compliance)
          (Call.validate_address i.chain i.address)
          (λ calls. map_result Reply.validity (port.validate_address calls i.chain i.address))

    unfoldable pub verify_signature :
        VerifySignatureIntent → ComplianceResult → Exec Agent (AgentOutcome Reply)
    verify_signature i compliance =
        run_action
          (read_ctx mask i.shared ("verify_signature:" <> chain_value i.chain <> ":" <> i.address)
            "VERIFY_SIGNATURE" "WalletPort.verify_signature" compliance)
          (Call.verify_signature i.chain i.address i.message i.signature)
          (λ calls.
            map_result Reply.verification
              (port.verify_signature calls i.chain i.address i.message i.signature))

    unfoldable pub derive_address :
        DeriveAddressIntent → ComplianceResult → Exec Agent (AgentOutcome Reply)
    derive_address i compliance =
        run_action
          (read_ctx mask i.shared ("derive_address:" <> chain_value i.chain <> ":" <> i.path)
            "DERIVE_ADDRESS" "WalletPort.derive_address" compliance)
          (Call.derive_address i.seed i.chain i.path)
          (λ calls. map_result Reply.derived (port.derive_address calls i.seed i.chain i.path))

    unfoldable pub generate_seed_phrase :
        GenerateSeedPhraseIntent
        → ComplianceResult
        → Option String
        → Exec Agent (AgentOutcome Reply)
    generate_seed_phrase i compliance reviewed_by =
        run_action
          (sensitive_ctx mask i.shared i.biometric_verified
            ("generate_seed_phrase:words=" <> words i.word_count) "GENERATE_SEED_PHRASE"
            "WalletPort.generate_seed_phrase" compliance reviewed_by)
          (Call.generate_seed_phrase i.word_count)
          (λ calls. map_result Reply.mnemonic (port.generate_seed_phrase calls i.word_count))

    unfoldable pub seed_phrase_to_entropy :
        SeedToEntropyIntent → ComplianceResult → Option String → Exec Agent (AgentOutcome Reply)
    seed_phrase_to_entropy i compliance reviewed_by =
        run_action
          (sensitive_ctx mask i.shared i.biometric_verified "seed_phrase_to_entropy"
            "SEED_TO_ENTROPY" "WalletPort.seed_phrase_to_entropy" compliance reviewed_by)
          (Call.seed_phrase_to_entropy i.phrase)
          (λ calls. map_result Reply.entropy (port.seed_phrase_to_entropy calls i.phrase))

    unfoldable pub sign_tx :
        SignTxIntent → ComplianceResult → Option String → Exec Agent (AgentOutcome Reply)
    sign_tx i compliance reviewed_by =
        run_action
          (sensitive_ctx mask i.shared i.biometric_verified
            ("sign_tx:" <> chain_value i.chain <> ":" <> i.path) "SIGN_TX" "WalletPort.sign_tx"
            compliance reviewed_by)
          (Call.sign_tx i.seed i.chain i.path i.tx_payload)
          (λ calls. map_result Reply.signed (port.sign_tx calls i.seed i.chain i.path i.tx_payload))

    unfoldable pub encrypt :
        EncryptIntent → ComplianceResult → Option String → Exec Agent (AgentOutcome Reply)
    encrypt i compliance reviewed_by =
        run_action
          (sensitive_ctx mask i.shared i.biometric_verified "encrypt" "ENCRYPT" "WalletPort.encrypt"
            compliance reviewed_by)
          (Call.encrypt i.plaintext i.password)
          (λ calls. map_result Reply.encrypted (port.encrypt calls i.plaintext i.password))

    unfoldable pub decrypt :
        DecryptIntent → ComplianceResult → Option String → Exec Agent (AgentOutcome Reply)
    decrypt i compliance reviewed_by =
        run_action
          (sensitive_ctx mask i.shared i.biometric_verified "decrypt" "DECRYPT" "WalletPort.decrypt"
            compliance reviewed_by)
          (Call.decrypt i.ciphertext i.password)
          (λ calls. map_result Reply.decrypted (port.decrypt calls i.ciphertext i.password))
