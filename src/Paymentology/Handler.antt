-- ===== src/Paymentology/Handler.antt =====
-- src/paymentology/remote_handler.py and the route of src/paymentology/webhook_server.py.
-- `fromstring` is defusedxml's and a parameter, and so are the balance provider and the HMAC.
pub mod Wants
pub mod Dispatch
pub mod Requests
use banxe_payment_core.Prelude.{
  String, ℕ, zero, suc, ℤ, pos, leb, ◌&&◌, ◌==◌, list_comparable, ℕ_comparable, Bool, true, false,
  if◌then◌else◌, Option, none, some, List, [], ◌∷◌, ◌++◌, map, length,
}
use banxe_payment_core.Exec.{
  Exc, Result, ok, raised, Exec, pure, lift, modify, ◌>>=◌, ◌>>◌, other, value_error,
}
use banxe_payment_core.Python.{Text, codes, int_text, str_ℤ}
use banxe_payment_core.Paymentology.Xml.{
  Element, Elements, nil, cons, text, children, text_or_empty, named, find, find_all,
}
use banxe_payment_core.Paymentology.Checksum.{compute_checksum, concat}

-- A value of the dict `extra`.
pub data Extra : Type 0 where
  int_value : ℤ → Extra
  text_value : Text → Extra

abbrev pub member : Text → Text → Text → Text
member name type value =
    codes "<member><name>"
    ++ name
    ++ codes "</name><value><"
    ++ type
    ++ codes ">"
    ++ value
    ++ codes "</"
    ++ type
    ++ codes "></value></member>"

abbrev pub extra_member : Text × Extra → Text
extra_member (k, int_value v) = member k (codes "int") (str_ℤ v)
extra_member (k, text_value v) = member k (codes "string") v

unfoldable pub build_xml_response : ℤ → List (Text × Extra) → Text
unfolding concat
build_xml_response result_code extra =
    codes "<?xml version=\"1.0\" encoding=\"UTF-8\"?>"
    ++ codes "<methodResponse><params><param><value><struct>"
    ++ member (codes "resultCode") (codes "int") (str_ℤ result_code)
    ++ concat (map extra_member extra)
    ++ codes "</struct></value></param></params></methodResponse>"

-- A call made of the balance provider.
pub data ProviderCall : Type 0 where
  get_balance : Text → ProviderCall
  deduct : Text → ℤ → Text → Text → ProviderCall
  reverse_deduct : Text → ℤ → Text → ProviderCall

-- BalanceProvider: what a call returns or raises, given the calls made before it.
pub record BalanceProvider : Type 0 where
  pub get_balance : List ProviderCall → Text → Result ℤ
  pub deduct : List ProviderCall → Text → ℤ → Text → Text → Result Bool
  pub reverse_deduct : List ProviderCall → Text → ℤ → Text → Result Bool

pub record RemoteApiHandler : Type 0 where
  pub provider : BalanceProvider
  pub terminal_password : Text

-- A method that awaits the provider, over the calls made of it.
abbrev pub Remote {ℓ} : Type ℓ → Type ℓ
Remote A = Exec (List ProviderCall) A

-- One awaited call.
abbrev pub asked {ℓ} : {A : Type ℓ} → ProviderCall → (List ProviderCall → Result A) → Remote A
asked call answer calls = (answer calls, calls ++ call ∷ [])

-- 1 if ok else 0
abbrev pub code : Bool → ℤ
code true = pos 1
code false = pos 0

-- params[:-1]
unfoldable pub all_but_last : List Text → List Text
all_but_last [] = []
all_but_last (p ∷ []) = []
all_but_last (p ∷ q ∷ ps) = p ∷ all_but_last (q ∷ ps)

unfoldable pub verify_checksum :
    (Text → Text → Text) → RemoteApiHandler → Text → List Text → Text → Bool
verify_checksum hmac h method params received =
    compute_checksum hmac method (all_but_last params) h.terminal_password == received

module _ (h : RemoteApiHandler) where
  unfoldable pub handle_deduct :
      Text → Text → ℤ → Text → Text → Text → Text → Text → Text → Remote Text
  handle_deduct terminal_id reference amount narrative txn_type txn_data txn_id txn_date checksum =
      do
        approved ←
            asked (ProviderCall.deduct reference amount narrative txn_id)
              (λ calls. h.provider.deduct calls reference amount narrative txn_id)
        pure (build_xml_response (code approved) [])

  unfoldable pub handle_balance : Text → Text → Text → Text → Text → Remote Text
  handle_balance terminal_id reference txn_id txn_date checksum = do
    balance ←
        asked (ProviderCall.get_balance reference) (λ calls. h.provider.get_balance calls reference)
    pure (
        build_xml_response (pos 1) (
          (codes "balanceAmount", int_value balance)
          ∷ (codes "actualBalance", int_value balance)
          ∷ []))

  unfoldable pub handle_deduct_reversal : Text → Text → ℤ → Text → Text → Text → Remote Text
  handle_deduct_reversal terminal_id reference amount txn_id txn_date checksum = do
    reversed ←
        asked (ProviderCall.reverse_deduct reference amount txn_id)
          (λ calls. h.provider.reverse_deduct calls reference amount txn_id)
    pure (build_xml_response (code reversed) [])

-- The texts of the parameters: that of the first child of a `value`, or of the `value` itself.
abbrev pub of_children : Element → Elements → Text
of_children v nil = text_or_empty (text v)
of_children v (cons e es) = text_or_empty (text e)

abbrev pub values_of : List Element → List Text
values_of [] = []
values_of (v ∷ vs) = of_children v (children v) ∷ values_of vs

abbrev pub values_in : List Element → List Element
values_in [] = []
values_in (p ∷ ps) = named "value" (children p) ++ values_in ps

-- The list `vals` of `dispatch`, over root.findall(".//param/value").
unfoldable pub arguments : Element → List Text
unfolding find_all
arguments root = values_of (values_in (find_all "param" root))

abbrev text_of : Option Element → Result (Option Text)
text_of (some e) = ok (text e)
text_of none = raised (other "AttributeError" "'NoneType' object has no attribute 'text'")

-- root.find("methodName").text
unfoldable pub method_of : Element → Result (Option Text)
unfolding find
method_of root = text_of (find "methodName" root)

-- int(text)
unfoldable pub to_int : Text → Result ℤ
to_int t = elim (int_text t) [
  | none ↦ raised (value_error "invalid literal for int() with base 10")
  | some z ↦ ok z
]

abbrev pub calls_for : String → Option Text → Bool
calls_for name none = false
calls_for name (some t) = t == codes name

-- vals[i] if len(vals) > i else ""; where the length is known to suffice, vals[i].
abbrev pub at : ℕ → List Text → Text
at n [] = []
at zero (v ∷ vs) = v
at (suc n) (v ∷ vs) = at n vs

-- `dispatch` behind the reading of the method and the parameters.
unfoldable pub route : RemoteApiHandler → Option Text → List Text → Remote Text
unfolding handle_deduct handle_balance handle_deduct_reversal
route h method vals =
    if calls_for "Deduct" method && leb 9 (length vals)
    then (do
      amount ← lift (to_int (at 2 vals))
      handle_deduct h (at 0 vals) (at 1 vals) amount (at 3 vals) (at 4 vals) (at 5 vals) (at 6 vals)
          (at 7 vals) (at 8 vals))
    else if calls_for "Balance" method && leb 4 (length vals)
    then handle_balance h (at 0 vals) (at 1 vals) (at 2 vals) (at 3 vals) (at 4 vals)
    else if calls_for "DeductReversal" method && leb 5 (length vals)
    then (do
      amount ← lift (to_int (at 2 vals))
      handle_deduct_reversal h (at 0 vals) (at 1 vals) amount (at 3 vals) (at 4 vals) (at 5 vals))
    else pure (build_xml_response (pos 0) [])

module _ (fromstring : Text → Result Element) where
  unfoldable pub dispatch : RemoteApiHandler → Text → Remote Text
  unfolding method_of arguments route
  dispatch h xml_body = do
    root ← lift (fromstring xml_body)
    method ← lift (method_of root)
    route h method (arguments root)

  -- The body of the answer of POST /paymentology/webhook, whose status is 200 and whose type is
  -- text/xml, to a request whose body is this text; `none` is a server whose `init_webhook` has not
  -- been called.
  unfoldable pub paymentology_webhook : Option RemoteApiHandler → Text → Remote Text
  unfolding dispatch
  paymentology_webhook none xml_text = pure (
      codes
        "<methodResponse><params><param><value><struct><member><name>resultCode</name><value><int>0</int></value></member></struct></value></param></params></methodResponse>")
  paymentology_webhook (some h) xml_text = dispatch h xml_text
