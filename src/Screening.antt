-- ===== src/Screening.antt =====
-- src/compliance_bridge/screening.py: the compliance check before any payment.
pub mod Decisions
mod Tests
use banxe_payment_core.Prelude.{
  ℕ, ◌-◌, ◌+◌, ℤ, pos, String, Bool, true, false, ◌&&◌, ◌||◌, leb, nat_beq, ◌==◌, ℕ_comparable,
  list_comparable, elem, if◌then◌else◌, Option, none, some, List, [], ◌∷◌, ◌++◌, map,
}
use banxe_payment_core.Exec.{
  Exc, other, Result, ok, raised, Exec, pure, raise, lift, ◌>>=◌, type_error, key_error,
}
use banxe_payment_core.Python.{Text, codes}
use banxe_payment_core.Json.{
  Value, null, num, str, arr, obj, nil, cons, end, get, get_or, truthy, is_str,
}

pub data ScreeningDecision : Type 0 where
  pass block review : ScreeningDecision

pub record ScreeningRequest : Type 0 where
  pub customer_id : Text
  pub counterparty_country : Text
  pub amount_minor : ℤ
  pub currency : Text
  pub reference : Text

-- `reason` and `risk_score` are passed on from the API as they come; None is `null`.
pub record ScreeningResult : Type 0 where
  pub decision : ScreeningDecision
  pub reason : Value
  pub risk_score : Value

pub record Payload : Type 0 where
  pub customer_id : Text
  pub jurisdiction : Text
  pub amount : ℤ
  pub currency : Text
  pub reference : Text

-- How a POST to /check_transaction ends: httpx.RequestError, an error status, a body that is not
-- JSON, or the JSON that it holds.
pub data Response : Type 0 where
  unreachable : Text → Response
  error_status : ℕ → Response
  not_json : Response
  body : Value → Response

abbrev pub category_a : List Text
category_a = map codes ("RU" ∷ "BY" ∷ "IR" ∷ "KP" ∷ "CU" ∷ "MM" ∷ "AF" ∷ [])

-- `country in _CATEGORY_A`
unfoldable pub is_category_a : Text → Bool
is_category_a t = elem t category_a

-- str.upper() on the letters whose capital is an ASCII letter: besides a to z, the dotless i and
-- the long s. Capitals outside ASCII are not modelled: no such letter is in a country code.
unfoldable pub upper : ℕ → ℕ
upper c =
    if leb b'a' c && leb c b'z'
    then c - 32
    else if nat_beq c 0x131
    then b'I'
    else if nat_beq c 0x17f
    then b'S'
    else c

unfoldable pub country_of : ScreeningRequest → Text
country_of r = map upper r.counterparty_country

-- `v[0].get("name")` of what is triggered
unfoldable pub first_rule : Value → Result Value
unfolding get
first_rule (arr (cons v vs)) = elim (get "name" v) [
  | ok none ↦ ok null
  | ok (some w) ↦ ok w
  | raised e ↦ raised e
]
first_rule (obj fs) = raised (key_error "0")
first_rule (str t) = raised (other "AttributeError" "'str' object has no attribute 'get'")
first_rule v = raised (type_error "object is not subscriptable")

-- The reason of a hit: the name of the first rule triggered, if one is listed.
unfoldable pub hit_reason : Value → Result Value
unfolding get truthy first_rule
hit_reason v = elim (get "rules_triggered" v) [
  | raised e ↦ raised e
  | ok none ↦ ok (str (codes "flagged"))
  | ok (some r) ↦ if truthy r then first_rule r else ok (str (codes "flagged"))
]

-- The result for the body of an answer.
unfoldable pub judged : Value → Value → Value → Value → Result ScreeningResult
judged v flagged risk action =
    if truthy flagged || is_str "SAR" action || is_str "REJECT" action
    then elim (hit_reason v) [
      | ok why ↦ ok (record { decision = block; reason = why; risk_score = risk })
      | raised e ↦ raised e
    ]
    else if is_str "HOLD" action
    then ok (record {
      decision = review;
      reason = str (codes "Manual review required");
      risk_score = risk;
    })
    else ok (record { decision = pass; reason = null; risk_score = risk })

abbrev bind_value : Result Value → (Value → Result ScreeningResult) → Result ScreeningResult
bind_value (ok v) f = f v
bind_value (raised e) f = raised e

unfoldable pub judge : Value → Result ScreeningResult
unfolding judged
judge v = bind_value (get_or "flagged" (Value.bool true) v) λ flagged.
    bind_value (get_or "risk_score" (num (pos 0)) v) λ risk.
      bind_value (get_or "recommended_action" (str (codes "APPROVE")) v)
        λ action. judged v flagged risk action

unfoldable pub answered : Response → Result ScreeningResult
unfolding judge
answered (unreachable m) = ok (record {
  decision = block;
  reason = str (codes "Compliance API unreachable: " ++ m);
  risk_score = null;
})
answered (error_status n) = raised (other "HTTPStatusError" "error status")
answered not_json = raised (other "JSONDecodeError" "not JSON")
answered (body v) = judge v

unfoldable pub payload_of : ScreeningRequest → Payload
payload_of r = record {
  customer_id = r.customer_id;
  jurisdiction = country_of r;
  amount = r.amount_minor;
  currency = r.currency;
  reference = r.reference;
}

module _ (api : List Payload → Payload → Response) where
  -- The state is the list of the payloads that have been posted.
  unfoldable pub screen : ScreeningRequest → Exec (List Payload) ScreeningResult
  unfolding answered
  screen r posted =
      if is_category_a (country_of r)
      then (
        ok (record {
          decision = block;
          reason = str (codes "Category A jurisdiction: " ++ country_of r);
          risk_score = num (pos 100);
        }),
        posted,
      )
      else (answered (api posted (payload_of r)), posted ++ payload_of r ∷ [])
