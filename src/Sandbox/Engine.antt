-- ===== src/Sandbox/Engine.antt =====
-- src/payments/sandbox_engine.py over the value types of src/ports/payment_engine_port.py. The
-- status records are shared objects of the program; nothing in it writes to them, and they are
-- values here.
pub mod Intents
pub mod Port
use mathlib.Core.Option
use banxe_payment_core.Prelude.{
  ℕ, ◌+◌, ℤ, ◌≡◌, ◌≢◌, refl, Option, none, some, List, [], ◌∷◌, ◌++◌, length, lookup, values,
  lookup-insert, arith, ℕ_comparable, list_comparable, if◌then◌else◌, Option-cases, inl, inr,
}
use banxe_payment_core.Exec.{type_error, Result, ok, raised, Exec, raise}
use banxe_payment_core.Python.{Text, codes, padded}
use banxe_payment_core.Sandbox.Registry.{
  Registry, empty_registry, register, first_with, Sound, register-Sound, lookup-statuses,
}

pub data PaymentIntentState : Type 0 where
  created validated authorized settled failed cancelled : PaymentIntentState

pub record PaymentIntent : Type 0 where
  pub intent_id : Text
  pub idempotency_key : Text
  pub debtor_account_ref : Text
  pub creditor_account_ref : Text
  pub amount_minor : ℤ
  pub currency : Text
  pub state : PaymentIntentState
  pub source : Text

pub record PaymentStatusRecord : Type 0 where
  pub intent_id : Text
  pub state : PaymentIntentState
  pub source : Text
  pub history : List PaymentIntentState

-- What a caller may pass as `amount_minor`; a `bool` is an `int`.
pub data Amount : Type 0 where
  int : ℤ → Amount
  not_int : Amount

abbrev pub Engine : Type 0
Engine = Registry PaymentIntent PaymentStatusRecord

-- The arguments of `create_intent`.
pub record Creation : Type 0 where
  pub idempotency_key : Text
  pub debtor_account_ref : Text
  pub creditor_account_ref : Text
  pub amount_minor : Amount
  pub currency : Text

-- SANDBOX_SOURCE
abbrev pub sandbox_source : Text
sandbox_source = codes "sandbox-mock"

abbrev pub new_status : PaymentIntent → PaymentStatusRecord
new_status i = record {
  intent_id = i.intent_id;
  state = created;
  source = sandbox_source;
  history = created ∷ [];
}

abbrev pub new_intent : Creation → ℤ → Engine → PaymentIntent
new_intent q amount s = record {
  intent_id = codes "PI-" ++ padded (length s.by_key + 1);
  idempotency_key = q.idempotency_key;
  debtor_account_ref = q.debtor_account_ref;
  creditor_account_ref = q.creditor_account_ref;
  amount_minor = amount;
  currency = q.currency;
  state = created;
  source = sandbox_source;
}

-- `create_intent` from what the look-up of the key finds on.
unfoldable pub intent_for : Option PaymentIntent → Creation → ℤ → Exec Engine PaymentIntent
intent_for (some existing) q amount s = (ok existing, s)
intent_for none q amount s =
    let i = new_intent q amount s in
    (ok i, register q.idempotency_key i i.intent_id (new_status i) s)

unfoldable pub checked : Amount → Creation → Exec Engine PaymentIntent
checked (int amount) q s = intent_for (lookup q.idempotency_key s.by_key) q amount s
checked not_int q s = raise (type_error "amount_minor must be int (minor units)") s

unfoldable pub create_intent : Creation → Exec Engine PaymentIntent
create_intent q = checked q.amount_minor q

unfoldable pub get_status : Text → Engine → Option PaymentStatusRecord
get_status id s = lookup id s.status

unfoldable pub list_intents : Engine → List PaymentIntent
list_intents s = values s.by_key

-- Calls of `create_intent` one after the other; the caller goes on after an exception.
unfoldable pub create_all : List Creation → Engine → Engine
create_all [] s = s
create_all (q ∷ qs) s = create_all qs (create_intent q s).1
