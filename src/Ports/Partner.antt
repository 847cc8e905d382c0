-- ===== src/Ports/Partner.antt =====
-- src/partner/partner_port.py: the value types and the port. Its errors are in Exec.
use banxe_payment_core.Prelude.{ℤ, String, Option, List}
use banxe_payment_core.Exec.{Result}

pub data PartnerType : Type 0 where
  open_banking sepa baas card_acquiring : PartnerType

pub data PaymentStatus : Type 0 where
  accepted settled rejected pending unknown : PaymentStatus

pub record PartnerAccountId : Type 0 where
  pub partner : PartnerType
  pub external_account_id : String

pub record PaymentInstruction : Type 0 where
  pub from_account : PartnerAccountId
  pub to_iban : String
  pub amount : String
  pub currency : String
  pub reference : String
  pub idempotency_key : String
  pub correlation_id : String

-- `raw`, the partner's own response, is opaque to the program: its text.
pub record PaymentResult : Type 0 where
  pub status : PaymentStatus
  pub partner_tx_id : Option String
  pub settled_at : Option String
  pub reason : Option String
  pub raw : Option String

pub record MismatchDetail : Type 0 where
  pub partner_tx_id : String
  pub expected : String
  pub actual : String

pub record ReconcileResult : Type 0 where
  pub date : String
  pub count : ℤ
  pub mismatches : ℤ
  pub mismatch_details : List MismatchDetail

-- The injected partner: what each method returns or raises, given the calls made before it.
pub record PartnerPort (History : Type 0) : Type 0 where
  pub initiate_payment : History → PaymentInstruction → Result PaymentResult
  pub get_payment_status : History → String → Result PaymentResult
  pub reconcile : History → String → Result ReconcileResult
