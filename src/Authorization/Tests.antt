-- ===== src/Authorization/Tests.antt =====
-- Authorisations at concrete requests, and the theorems at inputs that meet them.
use banxe_payment_core.Prelude.{
  pos, ◌≡◌, ◌↔◌, ◌<ℤ◌, ◌-ℤ◌, ltb_ℤ, refl, false, ◌&&◌, if◌then◌else◌, some, [], ◌∷◌,
}
use banxe_payment_core.Exec.{ok}
use banxe_payment_core.Python.{codes}
use banxe_payment_core.Json.{Value, obj, end, field, get, get_or, truthy, is_str}
use banxe_payment_core.Screening.{
  ScreeningDecision, body, is_category_a, upper, country_of, judge, screen,
}
use banxe_payment_core.Screening.Decisions.{Decides}
use banxe_payment_core.Authorization.{
  AuthorisationRequest, AuthorisationResponse, approve, hitl_threshold_minor, Trace, Ports,
  screening_request, respond, decide, check_balance, screened, authorise,
}
use banxe_payment_core.Authorization.Approval.{
  Approved, Covers, is_pass, balance, authorise-Approved, authorise-balances,
}

abbrev ports : Ports
ports = record {
  api = λ posted p. body (obj (field (codes "flagged") (Value.bool false) end));
  get_balance = λ asked a c.
      ok
        (record { account_id = a; available_minor = pos 900; pending_minor = pos 0; currency = c });
}

abbrev request : AuthorisationRequest
request = record {
  card_id = codes "card";
  amount_minor = pos 500;
  currency = codes "GBP";
  merchant_name = codes "shop";
  merchant_category_code = codes "5411";
  transaction_id = codes "t1";
  idempotency_key = codes "k1";
}

abbrev trace : Trace
trace = record { posted = []; balances = [] }

abbrev response : AuthorisationResponse
response = record {
  decision = approve;
  transaction_id = codes "t1";
  response_code = "00";
  available_balance_minor = some (pos 400);
}

screen-passes : Decides ScreeningDecision.pass (screen ports.api (screening_request request) []).0
unfolding screen is_category_a country_of upper judge get_or get truthy is_str screening_request
screen-passes = refl

authorise-approves : (authorise ports request trace).0 ≡ ok response
unfolding authorise screened check_balance decide respond ◌-ℤ◌ screen is_category_a country_of upper
    judge get_or get truthy is_str screening_request
authorise-approves = refl

authorise-Approved_example : Approved (authorise ports request trace).0 ↔ (
    Decides ScreeningDecision.pass (screen ports.api (screening_request request) []).0
    × (pos 500 <ℤ hitl_threshold_minor)
    × Covers request (balance ports request trace))
authorise-Approved_example = authorise-Approved ports request trace

authorise-balances_example : (authorise ports request trace).1.balances ≡ (
    if is_pass ScreeningDecision.pass && ltb_ℤ (pos 500) hitl_threshold_minor
    then (codes "card", codes "GBP") ∷ []
    else [])
authorise-balances_example =
    authorise-balances ports request trace ScreeningDecision.pass screen-passes
