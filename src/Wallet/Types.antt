-- ===== src/Wallet/Types.antt =====
-- The Wallet mask's configuration, intents and evaluation records: the types of
-- src/agents/wallet_agent.py.
use banxe_payment_core.Prelude.{String, Bool, true, Option, List, [], ◌∷◌}
use banxe_payment_core.Python.{nine_tenths, seven_tenths}
use banxe_payment_core.Ports.{ChainId, SeedMaterial, WordCount, WalletAddress, SignedTx}
use banxe_payment_core.Lineage.{
  Float, ConfirmationDecision, ComplianceResult, BudgetBreach, ProcessRef, RequestCost, CostCap,
  CostWindow, Journal,
}

pub data AutonomyLevel : Type 0 where
  auto_biased review_biased mixed : AutonomyLevel

pub record WalletMask : Type 0 where
  pub cost_cap : CostCap
  pub auto_threshold : Float
  pub review_floor : Float
  pub autonomy_level : AutonomyLevel
  pub lineage_obligation : Bool
  pub require_step_up_for_sensitive : Bool
  pub agent_id : String
  pub scope : List String
  pub compliance_gate_reads : List String
  pub compliance_gate_value_movement : List String

-- WalletMask(cost_cap=…), with the defaults of the class.
abbrev pub wallet_mask : CostCap → WalletMask
wallet_mask cap = record {
  cost_cap = cap;
  auto_threshold = nine_tenths;
  review_floor = seven_tenths;
  autonomy_level = mixed;
  lineage_obligation = true;
  require_step_up_for_sensitive = true;
  agent_id = "wallet_agent";
  scope =
      "WalletPort.validate_address" ∷ "WalletPort.verify_signature" ∷ "WalletPort.derive_address"
      ∷ "WalletPort.generate_seed_phrase" ∷ "WalletPort.seed_phrase_to_entropy"
      ∷ "WalletPort.sign_tx" ∷ "WalletPort.encrypt" ∷ "WalletPort.decrypt" ∷ [];
  compliance_gate_reads = "PII" ∷ [];
  compliance_gate_value_movement = "AML" ∷ [];
}

-- The parent class of the intents: what each has in its field `shared`.
pub record WalletIntent : Type 0 where
  pub intent_text : String
  pub process_ref : ProcessRef
  pub correlation_id : String
  pub confidence_score : Float
  pub request_cost : RequestCost

pub record ValidateAddressIntent : Type 0 where
  pub shared : WalletIntent
  pub chain : ChainId
  pub address : String

pub record VerifySignatureIntent : Type 0 where
  pub shared : WalletIntent
  pub chain : ChainId
  pub address : String
  pub message : String
  pub signature : String

pub record DeriveAddressIntent : Type 0 where
  pub shared : WalletIntent
  pub seed : SeedMaterial
  pub chain : ChainId
  pub path : String

pub record GenerateSeedPhraseIntent : Type 0 where
  pub shared : WalletIntent
  pub word_count : WordCount
  pub biometric_verified : Bool

pub record SeedToEntropyIntent : Type 0 where
  pub shared : WalletIntent
  pub phrase : String
  pub biometric_verified : Bool

-- `tx_payload` is any object, handed on to the wallet; here a text that stands for it.
pub record SignTxIntent : Type 0 where
  pub shared : WalletIntent
  pub seed : SeedMaterial
  pub chain : ChainId
  pub path : String
  pub tx_payload : String
  pub biometric_verified : Bool

pub record EncryptIntent : Type 0 where
  pub shared : WalletIntent
  pub plaintext : String
  pub password : String
  pub biometric_verified : Bool

pub record DecryptIntent : Type 0 where
  pub shared : WalletIntent
  pub ciphertext : String
  pub password : String
  pub biometric_verified : Bool

pub record ActionContext : Type 0 where
  pub intent_text : String
  pub process_ref : ProcessRef
  pub correlation_id : String
  pub confidence_score : Float
  pub triggering_event : String
  pub success_action : String
  pub op : String
  pub request_cost : RequestCost
  pub compliance_result : ComplianceResult
  pub compliance_contour : List String
  pub is_sensitive : Bool
  pub biometric_verified : Bool
  pub human_reviewed_by : Option String
  pub supports_review_hitl : Bool

pub record Evaluation : Type 0 where
  pub decision : ConfirmationDecision
  pub proceed : Bool
  pub action_taken : String
  pub reasoning_summary : String
  pub policies : List String
  pub compliance_result : ComplianceResult
  pub budget_breach : BudgetBreach
  pub halt_reason : Option String
  pub requires_step_up : Bool
  pub requires_hitl : Bool

-- What the wallet's awaited calls return.
pub data Reply : Type 0 where
  validity verification : Bool → Reply
  derived : WalletAddress → Reply
  mnemonic : String → Reply
  entropy : SeedMaterial → Reply
  signed : SignedTx → Reply
  encrypted decrypted : String → Reply

-- A call that has been made of the wallet, with its arguments.
pub data Call : Type 0 where
  validate_address : ChainId → String → Call
  verify_signature : ChainId → String → String → String → Call
  derive_address : SeedMaterial → ChainId → String → Call
  generate_seed_phrase : WordCount → Call
  seed_phrase_to_entropy : String → Call
  sign_tx : SeedMaterial → ChainId → String → String → Call
  encrypt : String → String → Call
  decrypt : String → String → Call

-- The agent's attributes, what its recorder has persisted, and the calls made of its wallet.
pub record Agent : Type 0 where
  pub window : CostWindow
  pub journal : Journal
  pub calls : List Call
