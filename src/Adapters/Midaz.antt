-- ===== src/Adapters/Midaz.antt =====
-- src/adapters/midaz_adapter.py, with the value types of src/ports/ledger_port.py.
pub mod Ledger
use banxe_payment_core.Prelude.{
  ℤ, pos, abs_ℤ, String, Bool, true, false, ◌||◌, if◌then◌else◌, Option, none, some, List, [], ◌∷◌,
  ◌++◌,
}
use banxe_payment_core.Exec.{Exc, Result, ok, raised, Exec, pure, lift, ◌>>=◌}
use banxe_payment_core.Python.{Text, codes}
use banxe_payment_core.Json.{
  Value, num, str, arr, obj, nil, cons, Fields, end, object, field_or, item, to_int,
}
use banxe_payment_core.Authorization.{BalanceResult}
use banxe_payment_core.Adapters.Http.{
  Verb, Request, Http, Sent, send, fetch, Environment, or_env, rstrip_slash, is_empty, or_dict,
  not_implemented, no_get, json_type,
}

pub record LedgerEntry : Type 0 where
  pub account_id : Text
  pub amount_minor : ℤ
  pub currency : Text
  pub reference : Text
  pub idempotency_key : Text
  pub metadata : Option Fields

pub record MidazAdapter : Type 0 where
  pub base_url : Text
  pub api_key : Text
  pub org_id : Text
  pub ledger_id : Text

abbrev configured : MidazAdapter → Result MidazAdapter
configured m =
    if is_empty m.org_id || is_empty m.ledger_id
    then raised (
        not_implemented
          "MIDAZ_ORG_ID and MIDAZ_LEDGER_ID must be set. Midaz is deployed at Sprint 8 — check :8095.")
    else ok m

-- MidazAdapter(base_url, api_key, org_id, ledger_id)
unfoldable pub new_adapter :
    Environment → Option Text → Option Text → Option Text → Option Text → Result MidazAdapter
unfolding rstrip_slash
new_adapter environ base_url api_key org_id ledger_id = configured (record {
  base_url =
      rstrip_slash (or_env environ "MIDAZ_BASE_URL" (codes "http://localhost:8095") base_url);
  api_key = or_env environ "MIDAZ_API_KEY" [] api_key;
  org_id = or_env environ "MIDAZ_ORG_ID" [] org_id;
  ledger_id = or_env environ "MIDAZ_LEDGER_ID" [] ledger_id;
})

unfoldable pub headers : MidazAdapter → List (Text × Text)
headers m = (codes "Authorization", codes "Bearer " ++ m.api_key) ∷ json_type ∷ []

unfoldable pub accounts_url : MidazAdapter → Text → Text
accounts_url m account_id =
    m.base_url
    ++ codes "/v1/organizations/"
    ++ m.org_id
    ++ codes "/ledgers/"
    ++ m.ledger_id
    ++ codes "/accounts/"
    ++ account_id

unfoldable pub transactions_url : MidazAdapter → Text
transactions_url m =
    m.base_url
    ++ codes "/v1/organizations/"
    ++ m.org_id
    ++ codes "/ledgers/"
    ++ m.ledger_id
    ++ codes "/transactions"

abbrev pub paired : Result ℤ → Result ℤ → (ℤ → ℤ → BalanceResult) → Result BalanceResult
paired (raised e) s f = raised e
paired (ok n) (raised e) f = raised e
paired (ok n) (ok k) f = ok (f n k)

abbrev pub balance_of : Text → Text → Value → Result BalanceResult
balance_of account_id currency (obj fs) =
    paired (to_int (field_or "available" (num (pos 0)) fs))
      (to_int (field_or "onHold" (num (pos 0)) fs))
      λ n k. record {
        account_id = account_id;
        available_minor = n;
        pending_minor = k;
        currency = currency;
      }
balance_of account_id currency v = raised no_get

-- The result of `get_balance` for the body of the answer.
unfoldable pub read_balance : Text → Text → Value → Result BalanceResult
read_balance account_id currency (obj fs) =
    balance_of account_id currency (field_or "balance" (obj end) fs)
read_balance account_id currency v = raised no_get

-- The body of a posting: the amount goes in twice, without its sign.
unfoldable pub transaction_body : LedgerEntry → Text → Value
transaction_body e operation =
    let amount : Value =
      object (("asset", str e.currency) ∷ ("value", num (pos (abs_ℤ e.amount_minor))) ∷ []) in
    object (
      ("description", str e.reference)
      ∷ ("metadata", or_dict e.metadata)
      ∷ ("idempotencyKey", str e.idempotency_key)
      ∷ ("send", object (("accountId", str e.account_id) ∷ ("amount", amount) ∷ []))
      ∷ (
        "operations",
        arr (
            cons
              (object (
                ("accountId", str e.account_id)
                ∷ ("amount", amount)
                ∷ ("type", str operation)
                ∷ []))
              nil),
      )
      ∷ [])

abbrev settle_body : Option ℤ → Value
settle_body none = object (("status", str (codes "SETTLED")) ∷ [])
settle_body (some n) = object (("status", str (codes "SETTLED")) ∷ ("amount", num n) ∷ [])

abbrev id_or : Text → Value → Result Value
id_or reservation_id (obj fs) = ok (field_or "id" (str reservation_id) fs)
id_or reservation_id v = raised no_get

module _ (http : Http) (m : MidazAdapter) where
  unfoldable pub get_balance : Text → Text → Sent BalanceResult
  unfolding accounts_url headers read_balance
  get_balance account_id currency = do
    data_ ← fetch http (record {
      verb = Verb.get;
      url = accounts_url m account_id;
      headers = headers m;
      json = none;
    })
    lift (read_balance account_id currency data_)

  unfoldable pub post_transaction : LedgerEntry → Text → Sent Value
  unfolding transactions_url headers transaction_body
  post_transaction entry operation = do
    data_ ← fetch http (record {
      verb = Verb.post;
      url = transactions_url m;
      headers = headers m;
      json = some (transaction_body entry operation);
    })
    lift (item "id" data_)

  unfoldable pub debit : LedgerEntry → Sent Value
  unfolding post_transaction
  debit entry = post_transaction entry (codes "DEBIT")

  unfoldable pub credit : LedgerEntry → Sent Value
  unfolding post_transaction
  credit entry = post_transaction entry (codes "CREDIT")

  unfoldable pub reserve : LedgerEntry → Sent Value
  unfolding post_transaction
  reserve entry = post_transaction entry (codes "RESERVE")

  unfoldable pub release_reservation : Text → Sent (Unit {0})
  unfolding transactions_url headers
  release_reservation reservation_id = do
    answer ← send http (record {
      verb = Verb.patch;
      url = transactions_url m ++ b'/' ∷ reservation_id;
      headers = headers m;
      json = some (object (("status", str (codes "RELEASED")) ∷ []));
    })
    pure tt

  unfoldable pub settle_reservation : Text → Option ℤ → Sent Value
  unfolding transactions_url headers
  settle_reservation reservation_id actual_amount_minor = do
    data_ ← fetch http (record {
      verb = Verb.patch;
      url = transactions_url m ++ b'/' ∷ reservation_id;
      headers = headers m;
      json = some (settle_body actual_amount_minor);
    })
    lift (id_or reservation_id data_)
