-- ===== src/Wallet/Actions/Requests.antt =====
-- The eight operations of src/agents/wallet_agent.py as requests: the context, the call and the
-- answer of each, and that each is `_run_action` with them.
use banxe_payment_core.Prelude.{String, ◌<>◌, ◌≡◌, refl, Option, List}
use banxe_payment_core.Exec.{map_result, Result, Exec}
use banxe_payment_core.Ports.{chain_value}
use banxe_payment_core.Lineage.{ComplianceResult, AgentOutcome, Sink}
use banxe_payment_core.Wallet.Types.{
  WalletMask, ValidateAddressIntent, VerifySignatureIntent, DeriveAddressIntent,
  GenerateSeedPhraseIntent, SeedToEntropyIntent, SignTxIntent, EncryptIntent, DecryptIntent,
  ActionContext, Reply, Call, Agent,
}
use banxe_payment_core.Wallet.Contexts.{read_ctx, sensitive_ctx}
use banxe_payment_core.Wallet.Actions.{
  Port, words, run_action, validate_address, verify_signature, derive_address, generate_seed_phrase,
  seed_phrase_to_entropy, sign_tx, encrypt, decrypt,
}

-- One call of the agent, with its arguments.
pub data Request : Type 0 where
  validate : ValidateAddressIntent → ComplianceResult → Request
  verify : VerifySignatureIntent → ComplianceResult → Request
  derive : DeriveAddressIntent → ComplianceResult → Request
  generate : GenerateSeedPhraseIntent → ComplianceResult → Option String → Request
  to_entropy : SeedToEntropyIntent → ComplianceResult → Option String → Request
  sign : SignTxIntent → ComplianceResult → Option String → Request
  enc : EncryptIntent → ComplianceResult → Option String → Request
  dec : DecryptIntent → ComplianceResult → Option String → Request

-- The call of the wallet that a request is for.
pub call : Request → Call
call (validate i c) = Call.validate_address i.chain i.address
call (verify i c) = Call.verify_signature i.chain i.address i.message i.signature
call (derive i c) = Call.derive_address i.seed i.chain i.path
call (generate i c by) = Call.generate_seed_phrase i.word_count
call (to_entropy i c by) = Call.seed_phrase_to_entropy i.phrase
call (sign i c by) = Call.sign_tx i.seed i.chain i.path i.tx_payload
call (enc i c by) = Call.encrypt i.plaintext i.password
call (dec i c by) = Call.decrypt i.ciphertext i.password

-- What the wallet answers to a request.
unfoldable pub answer : Port → Request → List Call → Result Reply
answer port (validate i c) calls =
    map_result Reply.validity (port.validate_address calls i.chain i.address)
answer port (verify i c) calls =
    map_result Reply.verification
      (port.verify_signature calls i.chain i.address i.message i.signature)
answer port (derive i c) calls =
    map_result Reply.derived (port.derive_address calls i.seed i.chain i.path)
answer port (generate i c by) calls =
    map_result Reply.mnemonic (port.generate_seed_phrase calls i.word_count)
answer port (to_entropy i c by) calls =
    map_result Reply.entropy (port.seed_phrase_to_entropy calls i.phrase)
answer port (sign i c by) calls =
    map_result Reply.signed (port.sign_tx calls i.seed i.chain i.path i.tx_payload)
answer port (enc i c by) calls =
    map_result Reply.encrypted (port.encrypt calls i.plaintext i.password)
answer port (dec i c by) calls =
    map_result Reply.decrypted (port.decrypt calls i.ciphertext i.password)

module _ (mask : WalletMask) where
  -- The context that the agent's method makes of a request.
  unfoldable pub context : Request → ActionContext
  context (validate i c) =
      read_ctx mask i.shared ("validate_address:" <> chain_value i.chain <> ":" <> i.address)
        "VALIDATE_ADDRESS" "WalletPort.validate_address" c
  context (verify i c) =
      read_ctx mask i.shared ("verify_signature:" <> chain_value i.chain <> ":" <> i.address)
        "VERIFY_SIGNATURE" "WalletPort.verify_signature" c
  context (derive i c) =
      read_ctx mask i.shared ("derive_address:" <> chain_value i.chain <> ":" <> i.path)
        "DERIVE_ADDRESS" "WalletPort.derive_address" c
  context (generate i c by) =
      sensitive_ctx mask i.shared i.biometric_verified
        ("generate_seed_phrase:words=" <> words i.word_count) "GENERATE_SEED_PHRASE"
        "WalletPort.generate_seed_phrase" c by
  context (to_entropy i c by) =
      sensitive_ctx mask i.shared i.biometric_verified "seed_phrase_to_entropy" "SEED_TO_ENTROPY"
        "WalletPort.seed_phrase_to_entropy" c by
  context (sign i c by) =
      sensitive_ctx mask i.shared i.biometric_verified
        ("sign_tx:" <> chain_value i.chain <> ":" <> i.path) "SIGN_TX" "WalletPort.sign_tx" c by
  context (enc i c by) =
      sensitive_ctx mask i.shared i.biometric_verified "encrypt" "ENCRYPT" "WalletPort.encrypt" c by
  context (dec i c by) =
      sensitive_ctx mask i.shared i.biometric_verified "decrypt" "DECRYPT" "WalletPort.decrypt" c by

module _ (sink : Sink) (mask : WalletMask) where
  -- The call of the agent's method for the request.
  unfoldable pub perform : Port → Request → Exec Agent (AgentOutcome Reply)
  perform port (validate i c) = validate_address sink mask port i c
  perform port (verify i c) = verify_signature sink mask port i c
  perform port (derive i c) = derive_address sink mask port i c
  perform port (generate i c by) = generate_seed_phrase sink mask port i c by
  perform port (to_entropy i c by) = seed_phrase_to_entropy sink mask port i c by
  perform port (sign i c by) = sign_tx sink mask port i c by
  perform port (enc i c by) = encrypt sink mask port i c by
  perform port (dec i c by) = decrypt sink mask port i c by

  -- Each method is `_run_action` in the context of its request.
  pub perform_lem :
      (port : Port) (q : Request) (a : Agent)
      → perform port q a ≡ run_action sink mask (context mask q) (call q) (answer port q) a
  unfolding perform call context answer validate_address verify_signature derive_address
      generate_seed_phrase seed_phrase_to_entropy sign_tx encrypt decrypt
  perform_lem port (validate i c) a = refl
  perform_lem port (verify i c) a = refl
  perform_lem port (derive i c) a = refl
  perform_lem port (generate i c by) a = refl
  perform_lem port (to_entropy i c by) a = refl
  perform_lem port (sign i c by) a = refl
  perform_lem port (enc i c by) a = refl
  perform_lem port (dec i c by) a = refl
