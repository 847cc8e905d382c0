-- ===== src/Adapters/Hyperswitch.antt =====
-- src/adapters/hyperswitch_adapter.py, with the value types of src/ports/payment_switch_port.py.
pub mod Statuses
use banxe_payment_core.Prelude.{
  ℤ, pos, String, Bool, true, false, if◌then◌else◌, Option, none, some, List, [], ◌∷◌, ◌++◌,
}
use banxe_payment_core.Exec.{Exc, Result, ok, raised, map_result, pure, lift, ◌>>=◌, type_error}
use banxe_payment_core.Python.{Text, codes}
use banxe_payment_core.Json.{
  Value, null, bool, num, str, arr, obj, Fields, end, object, field_or, is_str,
}
use banxe_payment_core.Adapters.Http.{
  Verb, Request, Http, Sent, fetch, Environment, or_env, rstrip_slash, is_empty, or_dict,
  not_implemented, no_get, json_type,
}

pub data PaymentStatus : Type 0 where
  authorized declined pending_3ds failed captured refunded voided : PaymentStatus

pub record PaymentRequest : Type 0 where
  pub amount_minor : ℤ
  pub currency : Text
  pub customer_id : Text
  pub card_token : Text
  pub merchant_id : Text
  pub idempotency_key : Text
  pub metadata : Option Fields

-- The fields behind the status hold whatever the answer has under their names.
pub record PaymentResult : Type 0 where
  pub status : PaymentStatus
  pub transaction_id : Value
  pub processor_response_code : Value
  pub amount_minor : Value
  pub currency : Value
  pub error_message : Value

-- A list or a dict is no key of a dict.
abbrev unhashable : Value → Bool
unhashable (arr vs) = true
unhashable (obj fs) = true
unhashable v = false

-- _STATUS_MAP.get(raw_status, PaymentStatus.FAILED)
unfoldable pub status_of : Value → Result PaymentStatus
status_of v =
    if is_str "succeeded" v
    then ok captured
    else if is_str "requires_capture" v
    then ok authorized
    else if is_str "requires_action" v
    then ok pending_3ds
    else if is_str "processing" v
    then ok pending_3ds
    else if is_str "failed" v
    then ok failed
    else if is_str "cancelled" v
    then ok voided
    else if is_str "refunded" v
    then ok refunded
    else if is_str "partially_refunded" v
    then ok refunded
    else if unhashable v
    then raised (type_error "unhashable type")
    else ok failed

abbrev pub raw_status : Fields → Value
raw_status fs = field_or "status" (str (codes "failed")) fs

unfoldable pub parse_result : Value → Result PaymentResult
unfolding status_of
parse_result (obj fs) =
    map_result
      (λ s. record {
        status = s;
        transaction_id = field_or "payment_id" (str []) fs;
        processor_response_code = field_or "connector_transaction_id" (raw_status fs) fs;
        amount_minor = field_or "amount" (num (pos 0)) fs;
        currency = field_or "currency" (str []) fs;
        error_message = field_or "error_message" null fs;
      })
      (status_of (raw_status fs))
parse_result v = raised no_get

-- The result of `refund`, whose status does not depend on the answer.
unfoldable pub refund_result : Text → ℤ → Value → Result PaymentResult
refund_result transaction_id amount_minor (obj fs) = ok (record {
  status = refunded;
  transaction_id = field_or "refund_id" (str transaction_id) fs;
  processor_response_code = field_or "connector_refund_id" (str []) fs;
  amount_minor = field_or "amount" (num amount_minor) fs;
  currency = field_or "currency" (str []) fs;
  error_message = null;
})
refund_result transaction_id amount_minor v = raised no_get

pub record HyperswitchAdapter : Type 0 where
  pub base_url : Text
  pub api_key : Text

abbrev configured : HyperswitchAdapter → Result HyperswitchAdapter
configured h =
    if is_empty h.base_url
    then raised (
        not_implemented
          "HYPERSWITCH_BASE_URL not configured. Deploy Hyperswitch (Sprint 9) and set env var.")
    else ok h

-- HyperswitchAdapter(base_url, api_key)
unfoldable pub new_adapter : Environment → Option Text → Option Text → Result HyperswitchAdapter
unfolding rstrip_slash
new_adapter environ base_url api_key = configured (record {
  base_url = rstrip_slash (or_env environ "HYPERSWITCH_BASE_URL" [] base_url);
  api_key = or_env environ "HYPERSWITCH_API_KEY" [] api_key;
})

unfoldable pub headers : HyperswitchAdapter → List (Text × Text)
headers h = (codes "api-key", h.api_key) ∷ json_type ∷ []

abbrev capture_body : Option ℤ → Value
capture_body none = obj end
capture_body (some n) = object (("amount_to_capture", num n) ∷ [])

module _ (http : Http) (h : HyperswitchAdapter) where
  -- One request below the base address.
  unfoldable pub request : Verb → Text → Option Value → Sent Value
  unfolding headers
  request verb path json =
      fetch http
        (record { verb = verb; url = h.base_url ++ path; headers = headers h; json = json })

  unfoldable pub authorize : PaymentRequest → Sent PaymentResult
  unfolding request
  authorize r = do
    data_ ← request Verb.post (codes "/payments") (
        some (
          object (
            ("amount", num r.amount_minor)
            ∷ ("currency", str r.currency)
            ∷ ("payment_method", str (codes "card"))
            ∷ (
              "payment_method_data",
              object (("card", object (("card_token", str r.card_token) ∷ [])) ∷ []),
            )
            ∷ ("customer_id", str r.customer_id)
            ∷ ("merchant_id", str r.merchant_id)
            ∷ ("confirm", bool true)
            ∷ ("capture_method", str (codes "manual"))
            ∷ ("metadata", or_dict r.metadata)
            ∷ [])))
    lift (parse_result data_)

  unfoldable pub capture : Text → Option ℤ → Sent PaymentResult
  unfolding request
  capture transaction_id amount_minor = do
    data_ ←
        request Verb.post (codes "/payments/" ++ transaction_id ++ codes "/capture")
          (some (capture_body amount_minor))
    lift (parse_result data_)

  unfoldable pub refund : Text → ℤ → Text → Sent PaymentResult
  unfolding request
  refund transaction_id amount_minor reason = do
    data_ ← request Verb.post (codes "/refunds") (
        some (
          object (
            ("payment_id", str transaction_id)
            ∷ ("amount", num amount_minor)
            ∷ ("reason", str reason)
            ∷ [])))
    lift (refund_result transaction_id amount_minor data_)

  unfoldable pub void : Text → Sent PaymentResult
  unfolding request
  void transaction_id = do
    data_ ←
        request Verb.post (codes "/payments/" ++ transaction_id ++ codes "/cancel")
          (some (object (("cancellation_reason", str (codes "requested_by_customer")) ∷ [])))
    lift (parse_result data_)

  unfoldable pub get_payment_status : Text → Sent PaymentResult
  unfolding request
  get_payment_status transaction_id = do
    data_ ← request Verb.get (codes "/payments/" ++ transaction_id) none
    lift (parse_result data_)
