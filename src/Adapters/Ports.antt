-- ===== src/Adapters/Ports.antt =====
-- The ports of src/ports that the adapters implement: PaymentSwitchPort
-- (src/ports/payment_switch_port.py), LedgerPort (src/ports/ledger_port.py) and IssuerPort
-- (src/ports/issuer_port.py), over a state `S`; and the adapters as such.
use banxe_payment_core.Prelude.{ℤ, Option, List}
use banxe_payment_core.Exec.{Exec}
use banxe_payment_core.Python.{Text}
use banxe_payment_core.Json.{Value}
use banxe_payment_core.Authorization.{AuthorisationRequest, AuthorisationResponse, BalanceResult}
use banxe_payment_core.Adapters.Http.{Request, Http}
use banxe_payment_core.Adapters.Hyperswitch
use banxe_payment_core.Adapters.Hyperswitch.{HyperswitchAdapter, PaymentRequest, PaymentResult}
use banxe_payment_core.Adapters.Midaz
use banxe_payment_core.Adapters.Midaz.{MidazAdapter, LedgerEntry}
use banxe_payment_core.Adapters.Issuer
use banxe_payment_core.Adapters.Issuer.{
  PaymentologyAdapter, CardIssueRequest, CardIssueResult, CardStatus,
}

pub record PaymentSwitchPort (S : Type 0) : Type 0 where
  pub authorize : PaymentRequest → Exec S PaymentResult
  pub capture : Text → Option ℤ → Exec S PaymentResult
  pub refund : Text → ℤ → Text → Exec S PaymentResult
  pub void : Text → Exec S PaymentResult
  pub get_payment_status : Text → Exec S PaymentResult

-- An id is whatever the ledger's answer has under its name.
pub record LedgerPort (S : Type 0) : Type 0 where
  pub get_balance : Text → Text → Exec S BalanceResult
  pub debit : LedgerEntry → Exec S Value
  pub credit : LedgerEntry → Exec S Value
  pub reserve : LedgerEntry → Exec S Value
  pub release_reservation : Text → Exec S (Unit {0})
  pub settle_reservation : Text → Option ℤ → Exec S Value

pub record IssuerPort (S : Type 0) : Type 0 where
  pub issue_card : CardIssueRequest → Exec S CardIssueResult
  pub authorise_transaction : AuthorisationRequest → Exec S AuthorisationResponse
  pub suspend_card : Text → Text → Exec S CardStatus
  pub cancel_card : Text → Text → Exec S CardStatus
  pub get_card_status : Text → Exec S CardStatus

abbrev pub hyperswitch : Http → HyperswitchAdapter → PaymentSwitchPort (List Request)
hyperswitch http h = record {
  authorize = Hyperswitch.authorize http h;
  capture = Hyperswitch.capture http h;
  refund = Hyperswitch.refund http h;
  void = Hyperswitch.void http h;
  get_payment_status = Hyperswitch.get_payment_status http h;
}

abbrev pub midaz : Http → MidazAdapter → LedgerPort (List Request)
midaz http m = record {
  get_balance = Midaz.get_balance http m;
  debit = Midaz.debit http m;
  credit = Midaz.credit http m;
  reserve = Midaz.reserve http m;
  release_reservation = Midaz.release_reservation http m;
  settle_reservation = Midaz.settle_reservation http m;
}

abbrev pub paymentology : Http → PaymentologyAdapter → IssuerPort (List Request)
paymentology http p = record {
  issue_card = Issuer.issue_card http p;
  authorise_transaction = Issuer.authorise_transaction;
  suspend_card = Issuer.suspend_card http p;
  cancel_card = Issuer.cancel_card http p;
  get_card_status = Issuer.get_card_status http p;
}
