-- ===== src/Screening/Tests.antt =====
-- Screenings of concrete requests, and the theorems at inputs that meet them.
use banxe_payment_core.Prelude.{pos, ◌≡◌, ◌↔◌, refl, false, List, []}
use banxe_payment_core.Exec.{ok}
use banxe_payment_core.Python.{codes}
use banxe_payment_core.Json.{Value, num, str, obj, end, field, get, get_or, truthy, is_str}
use banxe_payment_core.Screening.{
  pass, block, ScreeningRequest, Payload, Response, unreachable, body, is_category_a, upper,
  country_of, payload_of, hit_reason, judge, screen,
}
use banxe_payment_core.Screening.Decisions.{Decides, Clears, screen-pass_iff}

abbrev request : ScreeningRequest
request = record {
  customer_id = codes "cust";
  counterparty_country = codes "gb";
  amount_minor = pos 500;
  currency = codes "GBP";
  reference = codes "ref";
}

abbrev clear : Value
clear = obj (
    field (codes "flagged") (Value.bool false)
      (field (codes "recommended_action") (str (codes "APPROVE")) end))

abbrev api : List Payload → Payload → Response
api posted p = body clear

abbrev russian : ScreeningRequest
russian = record request { counterparty_country = codes "ru" }

-- A Category A country is blocked, in either case of letters, and nothing is posted.
screen-russian : screen api russian [] ≡ (
  ok (record {
    decision = block;
    reason = str (codes "Category A jurisdiction: RU");
    risk_score = num (pos 100);
  }),
  [],
)
unfolding screen is_category_a country_of upper
screen-russian = refl

-- An answer that does not say whether it is flagged blocks.
screen-silent : Decides block (screen (λ posted p. body (obj end)) request []).0
unfolding screen is_category_a country_of upper payload_of judge get_or get truthy is_str hit_reason
screen-silent = refl

screen-unreachable : Decides block (screen (λ posted p. unreachable (codes "timeout")) request []).0
unfolding screen is_category_a country_of upper
screen-unreachable = refl

screen-clear : Decides pass (screen api request []).0
unfolding screen is_category_a country_of upper judge get_or get truthy is_str hit_reason
screen-clear = refl

screen-pass_iff_example :
    Decides pass (screen api request []).0
    ↔ ((is_category_a (country_of request) ≡ false) × Clears (api [] (payload_of request)))
screen-pass_iff_example = screen-pass_iff api request []
