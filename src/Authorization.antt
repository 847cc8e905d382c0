-- ===== src/Authorization.antt =====
-- src/authorization/auth_engine.py: compliance and balance decide on a card authorisation; the
-- value types are those of src/ports/issuer_port.py and src/ports/ledger_port.py. Amounts are
-- Python's integers, in minor units.
pub mod Approval
mod Tests
use banxe_payment_core.Prelude.{
  ℤ, pos, ◌-ℤ◌, leb_ℤ, ltb_ℤ, String, Bool, if◌then◌else◌, Option, none, some, List, [], ◌∷◌, ◌++◌,
}
use banxe_payment_core.Exec.{Result, ok, raised, Exec, pure, continue, ◌>>=◌}
use banxe_payment_core.Python.{Text, codes}
use banxe_payment_core.Screening.{
  ScreeningDecision, ScreeningRequest, ScreeningResult, Payload, Response, screen,
}

pub data AuthorisationDecision : Type 0 where
  approve decline refer : AuthorisationDecision

pub record AuthorisationRequest : Type 0 where
  pub card_id : Text
  pub amount_minor : ℤ
  pub currency : Text
  pub merchant_name : Text
  pub merchant_category_code : Text
  pub transaction_id : Text
  pub idempotency_key : Text

pub record AuthorisationResponse : Type 0 where
  pub decision : AuthorisationDecision
  pub transaction_id : Text
  pub response_code : String
  pub available_balance_minor : Option ℤ

pub record BalanceResult : Type 0 where
  pub account_id : Text
  pub available_minor : ℤ
  pub pending_minor : ℤ
  pub currency : Text

-- _HITL_THRESHOLD_MINOR
abbrev pub hitl_threshold_minor : ℤ
hitl_threshold_minor = pos 1_000_000

-- What has been asked of the compliance API and of the ledger.
pub record Trace : Type 0 where
  pub posted : List Payload
  pub balances : List (Text × Text)

unfoldable pub screening_request : AuthorisationRequest → ScreeningRequest
screening_request r = record {
  customer_id = r.card_id;
  counterparty_country = codes "GB";
  amount_minor = r.amount_minor;
  currency = r.currency;
  reference = r.transaction_id;
}

unfoldable pub respond :
    AuthorisationRequest → AuthorisationDecision → String → Option ℤ → AuthorisationResponse
respond r d code balance = record {
  decision = d;
  transaction_id = r.transaction_id;
  response_code = code;
  available_balance_minor = balance;
}

-- Steps 3 and 4, once the balance is known.
unfoldable pub decide : AuthorisationRequest → BalanceResult → AuthorisationResponse
unfolding respond
decide r b =
    if ltb_ℤ b.available_minor r.amount_minor
    then respond r decline "51" (some b.available_minor)
    else respond r approve "00" (some (b.available_minor -ℤ r.amount_minor))

-- The injected ports: the compliance API and the ledger's `get_balance`, which may depend on what
-- has been asked before.
pub record Ports : Type 0 where
  pub api : List Payload → Payload → Response
  pub get_balance : List (Text × Text) → Text → Text → Result BalanceResult

module _ (ports : Ports) where
  abbrev asked : Result BalanceResult → AuthorisationRequest → Result AuthorisationResponse
  asked (ok b) r = ok (decide r b)
  asked (raised e) r = raised e

  unfoldable pub check_balance : AuthorisationRequest → Exec Trace AuthorisationResponse
  check_balance r t = (
    asked (ports.get_balance t.balances r.card_id r.currency) r,
    record t { balances = t.balances ++ (r.card_id, r.currency) ∷ [] },
  )

  -- What follows the screening.
  unfoldable pub screened :
      AuthorisationRequest → ScreeningDecision → Exec Trace AuthorisationResponse
  screened r ScreeningDecision.block = pure (respond r decline "05" none)
  screened r ScreeningDecision.review = pure (respond r refer "01" none)
  screened r ScreeningDecision.pass =
      if leb_ℤ hitl_threshold_minor r.amount_minor
      then pure (respond r refer "01" none)
      else check_balance r

  abbrev screening : AuthorisationRequest → Exec Trace ScreeningResult
  screening r t =
      let (s, posted) = screen ports.api (screening_request r) t.posted in
      (s, record t { posted = posted })

  unfoldable pub authorise : AuthorisationRequest → Exec Trace AuthorisationResponse
  authorise r t = continue (screening r t) (λ s. screened r s.decision)
