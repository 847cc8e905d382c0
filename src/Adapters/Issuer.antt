-- ===== src/Adapters/Issuer.antt =====
-- src/adapters/paymentology_adapter.py, with the value types of src/ports/issuer_port.py.
use banxe_payment_core.Prelude.{if◌then◌else◌, Option, none, some, List, [], ◌∷◌, ◌++◌}
use banxe_payment_core.Exec.{Result, ok, raised, pure, lift, raise, ◌>>=◌, type_error}
use banxe_payment_core.Python.{Text, codes}
use banxe_payment_core.Json.{Value, str, arr, obj, Fields, object, field_or, item, is_str}
use banxe_payment_core.Authorization.{AuthorisationRequest, AuthorisationResponse}
use banxe_payment_core.Adapters.Http.{
  Verb, Http, Sent, send, fetch, Environment, or_env, rstrip_slash, is_empty, or_dict,
  not_implemented, no_get, json_type,
}

pub data CardStatus : Type 0 where
  active suspended cancelled pending : CardStatus

pub record CardIssueRequest : Type 0 where
  pub customer_id : Text
  pub program_id : Text
  pub cardholder_name : Text
  pub currency : Text
  pub metadata : Option Fields

-- All fields but the status hold what the answer has.
pub record CardIssueResult : Type 0 where
  pub card_id : Value
  pub masked_pan : Value
  pub status : CardStatus
  pub expiry_month : Value
  pub expiry_year : Value

pub record PaymentologyAdapter : Type 0 where
  pub base_url : Text
  pub api_key : Text

abbrev configured : PaymentologyAdapter → Result PaymentologyAdapter
configured p =
    if is_empty p.base_url
    then raised (
        not_implemented
          "PAYMENTOLOGY_BASE_URL not configured. Set up Paymentology sandbox (Sprint 10) and set env var.")
    else ok p

-- PaymentologyAdapter(base_url, api_key)
unfoldable pub new_adapter : Environment → Option Text → Option Text → Result PaymentologyAdapter
unfolding rstrip_slash
new_adapter environ base_url api_key = configured (record {
  base_url = rstrip_slash (or_env environ "PAYMENTOLOGY_BASE_URL" [] base_url);
  api_key = or_env environ "PAYMENTOLOGY_API_KEY" [] api_key;
})

unfoldable pub headers : PaymentologyAdapter → List (Text × Text)
headers p = (codes "Authorization", codes "Bearer " ++ p.api_key) ∷ json_type ∷ []

-- _CARD_STATUS_MAP.get(…, CardStatus.PENDING); a list or a dict is no key.
abbrev card_status_of : Value → Result CardStatus
card_status_of (arr vs) = raised (type_error "unhashable type: 'list'")
card_status_of (obj fs) = raised (type_error "unhashable type: 'dict'")
card_status_of v = ok (
    if is_str "ACTIVE" v
    then active
    else if is_str "SUSPENDED" v
    then suspended
    else if is_str "CANCELLED" v
    then cancelled
    else pending)

-- The status in the body of an answer.
unfoldable pub read_status : Value → Result CardStatus
read_status (obj fs) = card_status_of (field_or "status" (str (codes "PENDING")) fs)
read_status v = raised no_get

-- The result of `issue_card`: the fields are read in this order, and a missing one is a KeyError.
unfoldable pub issued : Value → Sent CardIssueResult
unfolding read_status
issued v = do
  card_id ← lift (item "cardId" v)
  masked_pan ← lift (item "maskedPan" v)
  status ← lift (read_status v)
  expiry_month ← lift (item "expiryMonth" v)
  expiry_year ← lift (item "expiryYear" v)
  pure (record {
    card_id = card_id;
    masked_pan = masked_pan;
    status = status;
    expiry_month = expiry_month;
    expiry_year = expiry_year;
  })

unfoldable pub authorise_transaction : AuthorisationRequest → Sent AuthorisationResponse
authorise_transaction r = raise (
    not_implemented
      "authorise_transaction must be wired to auth_engine.AuthEngine. See src/authorization/auth_engine.py.")

module _ (http : Http) (p : PaymentologyAdapter) where
  unfoldable pub issue_card : CardIssueRequest → Sent CardIssueResult
  unfolding headers issued
  issue_card r = do
    data_ ← fetch http (record {
      verb = Verb.post;
      url = p.base_url ++ codes "/cards";
      headers = headers p;
      json = some (
          object (
            ("customerId", str r.customer_id)
            ∷ ("programId", str r.program_id)
            ∷ ("cardholderName", str r.cardholder_name)
            ∷ ("currency", str r.currency)
            ∷ ("metadata", or_dict r.metadata)
            ∷ []));
    })
    issued data_

  -- PATCH of a card's status, for `suspend_card` and `cancel_card`.
  unfoldable pub patch_status : Text → Text → Text → CardStatus → Sent CardStatus
  unfolding headers
  patch_status status card_id reason s = do
    answer ← send http (record {
      verb = Verb.patch;
      url = p.base_url ++ codes "/cards/" ++ card_id;
      headers = headers p;
      json = some (object (("status", str status) ∷ ("reason", str reason) ∷ []));
    })
    pure s

  unfoldable pub suspend_card : Text → Text → Sent CardStatus
  unfolding patch_status
  suspend_card card_id reason = patch_status (codes "SUSPENDED") card_id reason suspended

  unfoldable pub cancel_card : Text → Text → Sent CardStatus
  unfolding patch_status
  cancel_card card_id reason = patch_status (codes "CANCELLED") card_id reason cancelled

  unfoldable pub get_card_status : Text → Sent CardStatus
  unfolding headers read_status
  get_card_status card_id = do
    data_ ← fetch http (record {
      verb = Verb.get;
      url = p.base_url ++ codes "/cards/" ++ card_id;
      headers = headers p;
      json = none;
    })
    lift (read_status data_)
