-- ===== src/Paymentology/Client.antt =====
-- src/paymentology/adapter.py. The clock, the identifiers, the HTTP client and the HMAC are
-- parameters. `http` is `client.post`, `raise_for_status` and `resp.text`, given the calls made
-- before.
pub mod Signed
use banxe_payment_core.Prelude.{
  String, ℕ, nat_beq, ◌+◌, ◌/◌, ◌%◌, ℤ, pos, negsuc, ◌==◌, Bool, true, false, if◌then◌else◌, Option,
  none, some, List, [], ◌∷◌, ◌++◌, lookup, ltb_ℤ,
}
use banxe_payment_core.Exec.{Result, ok, Exec, pure, lift, ◌>>=◌}
use banxe_payment_core.Python.{Text, codes, str_ℕ}
use banxe_payment_core.Paymentology.Xml.{Element}
use banxe_payment_core.Paymentology.Builder.{
  build_request, parse_response, Answer, Item, number, string, name_comparable,
}
use banxe_payment_core.Paymentology.Checksum.{compute_checksum}

pub record PaymentologyConfig : Type 0 where
  pub terminal_id : Text
  pub terminal_password : Text
  pub base_url : Text
  pub timeout : ℤ
  pub test_mode : Bool

pub record CardHolder : Type 0 where
  pub reference : Text
  pub first_name : Text
  pub last_name : Text
  pub id_or_passport : Text
  pub cellphone_number : Text

-- The fields hold whatever the answer has under their names.
pub record CardResponse : Type 0 where
  pub success : Bool
  pub result_code : Item
  pub result_text : Item
  pub card_number : Item
  pub cvv2 : Item
  pub valid_date : Item
  pub expiry_date : Item
  pub tracking_number : Item
  pub iv : Item

-- httpx.AsyncClient(timeout=…)
pub record AsyncClient : Type 0 where
  pub timeout : ℤ
  pub is_closed : Bool

-- A date of a year of four digits.
pub record Date : Type 0 where
  pub year : ℕ
  pub month : ℕ
  pub day : ℕ

-- The adapter's attribute `_client`, the requests it has posted, and how often it has drawn an
-- identifier and the time.
pub record Adapter : Type 0 where
  pub client : Option AsyncClient
  pub posted : List (Text × Text)
  pub draws : ℕ

abbrev pub new_adapter : Adapter
new_adapter = record { client = none; posted = []; draws = 0 }

abbrev two_digits : ℕ → Text
two_digits n = (b'0' + n / 10) ∷ (b'0' + n % 10) ∷ []

-- d.strftime("%Y-%m-%dT00:00:00")
unfoldable pub midnight : Date → Text
midnight d =
    str_ℕ d.year ++ b'-' ∷ two_digits d.month ++ b'-' ∷ two_digits d.day ++ codes "T00:00:00"

-- result.get(name, default)
unfoldable pub get : Answer → String → Item → Item
get d name default = elim (lookup (some (codes name)) d) [ none ↦ default | some i ↦ i ]

-- result.get("resultCode") == 1; there is no bool under this name.
abbrev is_one : Option Item → Bool
is_one (some (number (pos n))) = nat_beq n 1
is_one _ = false

unfoldable pub card_response : Answer → CardResponse
unfolding get
card_response d = record {
  success = is_one (lookup (some (codes "resultCode")) d);
  result_code = get d "resultCode" (number (negsuc 0));
  result_text = get d "resultText" (string []);
  card_number = get d "cardNumber" (string []);
  cvv2 = get d "cvv2" (string []);
  valid_date = get d "validDate" (string []);
  expiry_date = get d "expiryDate" (string []);
  tracking_number = get d "trackingNumber" (string []);
  iv = get d "IV" (string []);
}

-- `_get_client` by what `_client` is.
abbrev opened : PaymentologyConfig → Option AsyncClient → AsyncClient
opened config none = record { timeout = config.timeout; is_closed = false }
opened config (some c) =
    if c.is_closed then record { timeout = config.timeout; is_closed = false } else c

abbrev shut : Option AsyncClient → Option AsyncClient
shut none = none
shut (some c) = some (record c { is_closed = true })

unfoldable pub close : Exec Adapter (Unit {0})
close a = (ok tt, record a { client = shut a.client })

module _ (config : PaymentologyConfig) where
  unfoldable pub get_client : Exec Adapter AsyncClient
  get_client a = (ok (opened config a.client), record a { client = some (opened config a.client) })

  -- The parameters of `create_virtual_card`.
  unfoldable pub card_params :
      (Text → Text → Text) → CardHolder → Date → Text → Text → List (Text × Text)
  unfolding midnight
  card_params hmac holder expiry_date tid tdate =
      let cs =
        compute_checksum hmac (codes "CreateLinkedCard")
          (config.terminal_id
            ∷ holder.reference
            ∷ holder.first_name
            ∷ holder.last_name
            ∷ holder.id_or_passport
            ∷ holder.cellphone_number
            ∷ midnight expiry_date
            ∷ tid
            ∷ tdate
            ∷ [])
          config.terminal_password in
      (codes "string", config.terminal_id)
      ∷ (codes "string", holder.reference)
      ∷ (codes "string", holder.first_name)
      ∷ (codes "string", holder.last_name)
      ∷ (codes "string", holder.id_or_passport)
      ∷ (codes "string", holder.cellphone_number)
      ∷ (codes "dateTime.iso8601", midnight expiry_date)
      ∷ (codes "string", tid)
      ∷ (codes "dateTime.iso8601", tdate)
      ∷ (codes "string", cs)
      ∷ []

  -- The parameters of a request about a card, which three methods make alike.
  unfoldable pub number_params :
      (Text → Text → Text) → Text → Text → Text → Text → List (Text × Text)
  number_params hmac method card_number tid tdate =
      (codes "string", config.terminal_id)
      ∷ (codes "string", card_number)
      ∷ (codes "string", tid)
      ∷ (codes "dateTime.iso8601", tdate)
      ∷ (
        codes "string",
        compute_checksum hmac method (config.terminal_id ∷ card_number ∷ tid ∷ tdate ∷ [])
            config.terminal_password,
      )
      ∷ []

  module _ (fromstring : Text → Result Element)
      (http : List (Text × Text) → Text → Text → Result Text) where
    -- client.post(base_url, content=…)
    abbrev post : Text → Exec Adapter Text
    post body a = (
      http a.posted config.base_url body,
      record a { posted = a.posted ++ (config.base_url, body) ∷ [] },
    )

    unfoldable pub call : Text → List (Text × Text) → Exec Adapter Answer
    unfolding get_client
    call method_name params = do
      client ← get_client
      response ← post (build_request method_name params)
      lift (parse_response fromstring response)

    module _ (hmac : Text → Text → Text) (uuid4 now : ℕ → Text) where
      -- self._txn_id() and self._now_iso()
      abbrev stamps : Exec Adapter (Text × Text)
      stamps a = (ok (uuid4 a.draws, now a.draws), record a { draws = a.draws + 1 })

      unfoldable pub create_virtual_card : CardHolder → Date → Exec Adapter CardResponse
      unfolding call card_params card_response
      create_virtual_card holder expiry_date = do
        (tid, tdate) ← stamps
        result ← call (codes "CreateLinkedCard") (card_params hmac holder expiry_date tid tdate)
        pure (card_response result)

      unfoldable pub activate_card : Text → Exec Adapter Answer
      unfolding call number_params
      activate_card card_number = do
        (tid, tdate) ← stamps
        call (codes "ActivateCard")
            (number_params hmac (codes "ActivateCard") card_number tid tdate)

      unfoldable pub stop_card : Text → Exec Adapter Answer
      unfolding call number_params
      stop_card card_number = do
        (tid, tdate) ← stamps
        call (codes "StopCard") (number_params hmac (codes "StopCard") card_number tid tdate)

      unfoldable pub get_card_details : Text → Exec Adapter Answer
      unfolding call number_params
      get_card_details card_number = do
        (tid, tdate) ← stamps
        call (codes "GetCardDetails")
            (number_params hmac (codes "GetCardDetails") card_number tid tdate)
