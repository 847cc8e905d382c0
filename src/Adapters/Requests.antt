-- ===== src/Adapters/Requests.antt =====
-- What every operation of the adapters in src/adapters asks of the service behind it.
use banxe_payment_core.Prelude.{
  ℤ, pos, abs_ℤ, String, ℕ_comparable, Option, none, some, List, [], ◌∷◌, ◌++◌,
}
use banxe_payment_core.Python.{Text, codes}
use banxe_payment_core.Json.{num, str}
use banxe_payment_core.Adapters.Http.{Verb, Request, Http, Sent}
use banxe_payment_core.Adapters.Hyperswitch
use banxe_payment_core.Adapters.Midaz
use banxe_payment_core.Adapters.Issuer
use banxe_payment_core.Adapters.Ports.{hyperswitch, midaz, paymentology}
use banxe_payment_core.Adapters.Hyperswitch.{HyperswitchAdapter, PaymentRequest}
use banxe_payment_core.Adapters.Midaz.{MidazAdapter, LedgerEntry}
use banxe_payment_core.Adapters.Issuer.{PaymentologyAdapter, CardIssueRequest}
use banxe_payment_core.Adapters.Facts.{Fact, OneRequest, text, json}

-- An operation of an adapter that is backed by a service.
pub data Operation : Type 0 where
  authorize : PaymentRequest → Operation
  capture : Text → Option ℤ → Operation
  refund : Text → ℤ → Text → Operation
  void get_payment_status : Text → Operation
  get_balance : Text → Text → Operation
  debit credit reserve : LedgerEntry → Operation
  release_reservation : Text → Operation
  settle_reservation : Text → Option ℤ → Operation
  issue_card : CardIssueRequest → Operation
  suspend_card cancel_card : Text → Text → Operation
  get_card_status : Text → Operation

-- What a posting of an entry says: the operation, and the account and the amount in both places.
abbrev pub posting : String → LedgerEntry → List Fact
posting operation e =
    ("operations" ∷ "0" ∷ "type" ∷ [], text operation)
    ∷ ("operations" ∷ "0" ∷ "accountId" ∷ [], str e.account_id)
    ∷ ("operations" ∷ "0" ∷ "amount" ∷ "value" ∷ [], num (pos (abs_ℤ e.amount_minor)))
    ∷ ("operations" ∷ "0" ∷ "amount" ∷ "asset" ∷ [], str e.currency)
    ∷ ("send" ∷ "accountId" ∷ [], str e.account_id)
    ∷ ("send" ∷ "amount" ∷ "value" ∷ [], num (pos (abs_ℤ e.amount_minor)))
    ∷ ("idempotencyKey" ∷ [], str e.idempotency_key)
    ∷ []

abbrev pub amount_at : String → Option ℤ → List Fact
amount_at k none = []
amount_at k (some n) = (k ∷ [], num n) ∷ []

abbrev pub status_for : String → Text → List Fact
status_for status reason = ("status" ∷ [], text status) ∷ ("reason" ∷ [], str reason) ∷ []

module _ (http : Http) (h : HyperswitchAdapter) (m : MidazAdapter) (p : PaymentologyAdapter) where
  abbrev Switched : {A : Type 0} → Verb → Text → List Fact → Sent A → List Request → Type 0
  Switched verb path =
      OneRequest http verb (h.base_url ++ path) ((codes "api-key", h.api_key) ∷ json ∷ [])

  -- The address of the ledger of the organisation.
  abbrev ledger : Text
  ledger = m.base_url ++ codes "/v1/organizations/" ++ m.org_id ++ codes "/ledgers/" ++ m.ledger_id

  abbrev Ledgered : {A : Type 0} → Verb → Text → List Fact → Sent A → List Request → Type 0
  Ledgered verb url =
      OneRequest http verb url ((codes "Authorization", codes "Bearer " ++ m.api_key) ∷ json ∷ [])

  abbrev Carded : {A : Type 0} → Verb → Text → List Fact → Sent A → List Request → Type 0
  Carded verb url =
      OneRequest http verb url ((codes "Authorization", codes "Bearer " ++ p.api_key) ∷ json ∷ [])

  -- The operation makes the one request that it stands for, and raises what that raises.
  pub Asks : Operation → List Request → Type 0
  Asks (authorize r) =
      Switched Verb.post (codes "/payments")
        (("amount" ∷ [], num r.amount_minor)
          ∷ ("currency" ∷ [], str r.currency)
          ∷ ("payment_method_data" ∷ "card" ∷ "card_token" ∷ [], str r.card_token)
          ∷ ("customer_id" ∷ [], str r.customer_id)
          ∷ ("merchant_id" ∷ [], str r.merchant_id)
          ∷ ("capture_method" ∷ [], text "manual")
          ∷ [])
        ((hyperswitch http h).authorize r)
  Asks (capture t n) =
      Switched Verb.post (codes "/payments/" ++ t ++ codes "/capture")
        (amount_at "amount_to_capture" n) ((hyperswitch http h).capture t n)
  Asks (refund t n why) =
      Switched Verb.post (codes "/refunds")
        (("payment_id" ∷ [], str t) ∷ ("amount" ∷ [], num n) ∷ ("reason" ∷ [], str why) ∷ [])
        ((hyperswitch http h).refund t n why)
  Asks (void t) =
      Switched Verb.post (codes "/payments/" ++ t ++ codes "/cancel") []
        ((hyperswitch http h).void t)
  Asks (get_payment_status t) =
      Switched Verb.get (codes "/payments/" ++ t) [] ((hyperswitch http h).get_payment_status t)
  Asks (get_balance a c) =
      Ledgered Verb.get (ledger ++ codes "/accounts/" ++ a) [] ((midaz http m).get_balance a c)
  Asks (debit e) =
      Ledgered Verb.post (ledger ++ codes "/transactions") (posting "DEBIT" e)
        ((midaz http m).debit e)
  Asks (credit e) =
      Ledgered Verb.post (ledger ++ codes "/transactions") (posting "CREDIT" e)
        ((midaz http m).credit e)
  Asks (reserve e) =
      Ledgered Verb.post (ledger ++ codes "/transactions") (posting "RESERVE" e)
        ((midaz http m).reserve e)
  Asks (release_reservation i) =
      Ledgered Verb.patch (ledger ++ codes "/transactions" ++ b'/' ∷ i)
        (("status" ∷ [], text "RELEASED") ∷ []) ((midaz http m).release_reservation i)
  Asks (settle_reservation i n) =
      Ledgered Verb.patch (ledger ++ codes "/transactions" ++ b'/' ∷ i)
        (("status" ∷ [], text "SETTLED") ∷ amount_at "amount" n)
        ((midaz http m).settle_reservation i n)
  Asks (issue_card r) =
      Carded Verb.post (p.base_url ++ codes "/cards")
        (("customerId" ∷ [], str r.customer_id)
          ∷ ("programId" ∷ [], str r.program_id)
          ∷ ("cardholderName" ∷ [], str r.cardholder_name)
          ∷ ("currency" ∷ [], str r.currency)
          ∷ [])
        ((paymentology http p).issue_card r)
  Asks (suspend_card c why) =
      Carded Verb.patch (p.base_url ++ codes "/cards/" ++ c) (status_for "SUSPENDED" why)
        ((paymentology http p).suspend_card c why)
  Asks (cancel_card c why) =
      Carded Verb.patch (p.base_url ++ codes "/cards/" ++ c) (status_for "CANCELLED" why)
        ((paymentology http p).cancel_card c why)
  Asks (get_card_status c) =
      Carded Verb.get (p.base_url ++ codes "/cards/" ++ c) []
        ((paymentology http p).get_card_status c)
