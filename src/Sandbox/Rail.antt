-- ===== src/Sandbox/Rail.antt =====
-- src/payments/sepa_sandbox_rail.py over the value types of src/ports/sepa_rail_port.py. The engine
-- that the rail consumes is the list that its `list_intents` returns. Amounts are integers there,
-- so that the guard on the type of `amount_minor` is always passed.
pub mod Outgoing
pub mod Port
pub mod Mirroring
use banxe_payment_core.Prelude.{
  ◌+◌, ℤ, Option, none, some, List, [], ◌∷◌, ◌++◌, length, lookup, values, ℕ_comparable,
  list_comparable,
}
use banxe_payment_core.Exec.{key_error, Result, ok, raised, Exec, raise}
use banxe_payment_core.Python.{Text, codes, padded}
use banxe_payment_core.Sandbox.Registry.{Registry, register, first_with}
use banxe_payment_core.Sandbox.Engine.{PaymentIntent}

pub data SepaRailState : Type 0 where
  submitted pacs_generated sent_to_rail ack settled returned rejected : SepaRailState

pub record SepaOutgoingIntent : Type 0 where
  pub rail_intent_id : Text
  pub file_dedup_key : Text
  pub payment_intent_id : Text
  pub debtor_account_ref : Text
  pub creditor_account_ref : Text
  pub creditor_iban : Text
  pub amount_minor : ℤ
  pub currency : Text
  pub state : SepaRailState
  pub source : Text

pub record SepaRailStatusRecord : Type 0 where
  pub rail_intent_id : Text
  pub state : SepaRailState
  pub source : Text
  pub history : List SepaRailState

abbrev pub Rail : Type 0
Rail = Registry SepaOutgoingIntent SepaRailStatusRecord

-- The arguments of `submit_outgoing`.
pub record Submission : Type 0 where
  pub file_dedup_key : Text
  pub payment_intent_id : Text
  pub creditor_iban : Text

abbrev pub new_rail_status : SepaOutgoingIntent → SepaRailStatusRecord
new_rail_status i = record {
  rail_intent_id = i.rail_intent_id;
  state = submitted;
  source = codes "sandbox-mock";
  history = submitted ∷ [];
}

abbrev pub new_outgoing : Submission → PaymentIntent → Rail → SepaOutgoingIntent
new_outgoing q intent s = record {
  rail_intent_id = codes "SEPA-OUT-" ++ padded (length s.by_key + 1);
  file_dedup_key = q.file_dedup_key;
  payment_intent_id = q.payment_intent_id;
  debtor_account_ref = intent.debtor_account_ref;
  creditor_account_ref = intent.creditor_account_ref;
  creditor_iban = q.creditor_iban;
  amount_minor = intent.amount_minor;
  currency = intent.currency;
  state = submitted;
  source = codes "sandbox-mock";
}

-- `submit_outgoing` from what the search for the payment intent finds on. The message of the
-- KeyError is without the id.
unfoldable pub outgoing_for : Option PaymentIntent → Submission → Exec Rail SepaOutgoingIntent
outgoing_for none q s = raise (key_error "unknown payment_intent_id") s
outgoing_for (some intent) q s =
    let i = new_outgoing q intent s in
    (ok i, register q.file_dedup_key i i.rail_intent_id (new_rail_status i) s)

-- … and from what the look-up of the key finds on.
unfoldable pub unless_known :
    Option SepaOutgoingIntent → List PaymentIntent → Submission → Exec Rail SepaOutgoingIntent
unless_known (some existing) intents q s = (ok existing, s)
unless_known none intents q s =
    outgoing_for (first_with (λ (i : PaymentIntent). i.intent_id) q.payment_intent_id intents) q s

unfoldable pub submit_outgoing : List PaymentIntent → Submission → Exec Rail SepaOutgoingIntent
submit_outgoing intents q s = unless_known (lookup q.file_dedup_key s.by_key) intents q s

unfoldable pub get_rail_status : Text → Rail → Option SepaRailStatusRecord
get_rail_status id s = lookup id s.status

unfoldable pub list_outgoing : Rail → List SepaOutgoingIntent
list_outgoing s = values s.by_key
