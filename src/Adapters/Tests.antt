-- ===== src/Adapters/Tests.antt =====
-- Answers read at concrete inputs, and the theorems at inputs that meet them.
use banxe_payment_core.Prelude.{pos, ◌≡◌, refl, arith, false, none, List, [], ◌∷◌}
use banxe_payment_core.Exec.{ok, raised, other}
use banxe_payment_core.Python.{codes, int_text, is_digit, is_space, lstrip}
use banxe_payment_core.Json.{
  Value, null, num, str, object, field_or, get, get_or, truthy, is_str, to_int,
}
use banxe_payment_core.Screening.{
  ScreeningDecision, Payload, Response, body, is_category_a, upper, country_of, judge, screen,
}
use banxe_payment_core.Screening.Decisions.{Decides}
use banxe_payment_core.Authorization.{AuthorisationRequest, Trace, screening_request, authorise}
use banxe_payment_core.Authorization.Approval.{Approved}
use banxe_payment_core.Adapters.Http.{Http}
use banxe_payment_core.Adapters.Hyperswitch.{
  PaymentStatus, PaymentResult, HyperswitchAdapter, status_of, parse_result,
}
use banxe_payment_core.Adapters.Midaz.{MidazAdapter, LedgerEntry}
use banxe_payment_core.Adapters.Issuer.{PaymentologyAdapter}
use banxe_payment_core.Adapters.Midaz.Ledger.{engine_ports, Shows, ledger_answer, authorise-Shows}

-- A status that the adapter does not know.
abbrev unknown : Value
unknown = object (("status", str (codes "on_hold")) ∷ ("payment_id", str (codes "p1")) ∷ [])

abbrev result : PaymentResult
result = record {
  status = PaymentStatus.failed;
  transaction_id = str (codes "p1");
  processor_response_code = str (codes "on_hold");
  amount_minor = num (pos 0);
  currency = str [];
  error_message = null;
}

parse_result-unknown : parse_result unknown ≡ ok result
unfolding parse_result status_of field_or is_str
parse_result-unknown = refl

abbrev midaz : MidazAdapter
midaz = record {
  base_url = codes "http://localhost:8095";
  api_key = codes "key";
  org_id = codes "org";
  ledger_id = codes "main";
}

-- 9.00 available, as a text, and nothing said of what is on hold.
abbrev http : Http
http sent r = ok (ok (object (("balance", object (("available", str (codes "900")) ∷ [])) ∷ [])))

abbrev api : List Payload → Payload → Response
api posted p = body (object (("flagged", Value.bool false) ∷ []))

abbrev request : AuthorisationRequest
request = record {
  card_id = codes "card";
  amount_minor = pos 500;
  currency = codes "GBP";
  merchant_name = codes "shop";
  merchant_category_code = codes "5411";
  transaction_id = codes "t1";
  idempotency_key = codes "k1";
}

abbrev trace : Trace
trace = record { posted = []; balances = [] }

screen-passes : Decides ScreeningDecision.pass (screen api (screening_request request) []).0
unfolding screen is_category_a country_of upper judge get_or get truthy is_str screening_request
screen-passes = refl

shows : Shows (ledger_answer request http midaz trace) (pos 900)
unfolding field_or to_int int_text is_digit is_space lstrip
shows = record {
  fields = _;
  balance = _;
  on_hold = pos 0;
  is_object = refl;
  has_balance = refl;
  available = refl;
  held = refl;
}

authorise-Shows_example : Approved (authorise (engine_ports api http midaz) request trace).0
authorise-Shows_example =
    (authorise-Shows request api http midaz trace).1
      (screen-passes, ground arith, (pos 900, shows, ground arith))

-- A ledger that cannot be reached.
abbrev offline : Http
offline sent r = raised (other "ConnectError" "refused")

abbrev entry : LedgerEntry
entry = record {
  account_id = codes "acc";
  amount_minor = pos 500;
  currency = codes "GBP";
  reference = codes "t1";
  idempotency_key = codes "k1";
  metadata = none;
}

abbrev switch : HyperswitchAdapter
switch = record { base_url = codes "https://switch"; api_key = codes "key" }

abbrev cards : PaymentologyAdapter
cards = record { base_url = codes "https://cards"; api_key = codes "key" }
