-- ===== src/Sandbox/Tests.antt =====
-- Runs of the engine and the rail at concrete calls, and the theorems at inputs that meet them.
use mathlib.Core.Option
use banxe_payment_core.Prelude.{
  pos, ◌≡◌, refl, some, List, [], ◌∷◌, All, lookup, insert, ℕ_comparable, list_comparable,
}
use banxe_payment_core.Exec.{ok, raised, key_error, type_error}
use banxe_payment_core.Python.{Text, codes, str_ℕ, padded}
use banxe_payment_core.Sandbox.Registry.{empty_registry, register, first_with}
use banxe_payment_core.Sandbox.Engine.{
  PaymentIntentState, created, validated, authorized, settled, PaymentIntent, int, not_int, Engine,
  Creation, sandbox_source, new_status, intent_for, checked, create_intent, create_all, get_status,
  list_intents,
}
use banxe_payment_core.Sandbox.Engine.Intents.{intent_key, create_intent-again, create_all-statuses}
use banxe_payment_core.Sandbox.Rail.{
  SepaRailState, SepaOutgoingIntent, Submission, Rail, outgoing_for, unless_known, submit_outgoing,
  list_outgoing,
}
use banxe_payment_core.Sandbox.Engine.Port.{sandbox, sandbox-Contract}
use banxe_payment_core.Sandbox.Rail.Outgoing.{Step, create, submit, run, submit_outgoing-again}
use banxe_payment_core.Sandbox.Rail.Mirroring.{Mirrors, run-Mirrors}
use banxe_payment_core.Sandbox.Histories.{state_comparable, rail_comparable, to_ack}

abbrev creation : Creation
creation = record {
  idempotency_key = codes "k1";
  debtor_account_ref = codes "acc-1";
  creditor_account_ref = codes "acc-2";
  amount_minor = int (pos 1500);
  currency = codes "EUR";
}

abbrev other_creation : Creation
other_creation = record creation { idempotency_key = codes "k2"; amount_minor = int (pos 7) }

-- The key of `creation` with another amount.
abbrev changed : Creation
changed = record creation { amount_minor = int (pos 9) }

abbrev new_engine : Engine
new_engine = empty_registry

abbrev new_rail : Rail
new_rail = empty_registry

abbrev first_intent : PaymentIntent
first_intent = record {
  intent_id = codes "PI-000001";
  idempotency_key = codes "k1";
  debtor_account_ref = codes "acc-1";
  creditor_account_ref = codes "acc-2";
  amount_minor = pos 1500;
  currency = codes "EUR";
  state = created;
  source = sandbox_source;
}

create_intent-first : (create_intent creation new_engine).0 ≡ ok first_intent
unfolding create_intent checked intent_for lookup padded str_ℕ
create_intent-first = refl

create_intent-not_int :
    create_intent (record creation { amount_minor = not_int }) new_engine
    ≡ (raised (type_error "amount_minor must be int (minor units)"), new_engine)
unfolding create_intent checked
create_intent-not_int = refl

create_intent-again_example :
    create_intent changed (create_all (other_creation ∷ []) (create_intent creation new_engine).1)
    ≡ (ok first_intent, create_all (other_creation ∷ []) (create_intent creation new_engine).1)
create_intent-again_example =
    create_intent-again creation new_engine first_intent (other_creation ∷ []) changed (pos 9)
      create_intent-first refl refl

abbrev creations : List Creation
creations = creation ∷ changed ∷ other_creation ∷ []

create_all-statuses_example :
    (All
      (λ (i : PaymentIntent).
        first_with intent_key i.intent_id (list_intents (create_all creations empty_registry))
        ≡ some i)
      (list_intents (create_all creations empty_registry)))
    × ((x : Text)
        → get_status x (create_all creations empty_registry)
          ≡ Option.map new_status
              (first_with intent_key x (list_intents (create_all creations empty_registry))))
create_all-statuses_example = create_all-statuses creations

abbrev submission : Submission
submission = record {
  file_dedup_key = codes "file-1";
  payment_intent_id = codes "PI-000001";
  creditor_iban = codes "DE02";
}

-- The file key of `submission` for a payment intent that does not exist.
abbrev resubmission : Submission
resubmission = record submission { payment_intent_id = codes "PI-999999" }

abbrev engine : Engine
engine = create_all creations empty_registry

abbrev outgoing : SepaOutgoingIntent
outgoing = record {
  rail_intent_id = codes "SEPA-OUT-000001";
  file_dedup_key = codes "file-1";
  payment_intent_id = codes "PI-000001";
  debtor_account_ref = codes "acc-1";
  creditor_account_ref = codes "acc-2";
  creditor_iban = codes "DE02";
  amount_minor = pos 1500;
  currency = codes "EUR";
  state = SepaRailState.submitted;
  source = codes "sandbox-mock";
}

submit_outgoing-first : (submit_outgoing (list_intents engine) submission new_rail).0 ≡ ok outgoing
unfolding create_all create_intent checked intent_for lookup insert register padded str_ℕ
    submit_outgoing unless_known outgoing_for first_with list_intents
submit_outgoing-first = refl

submit_outgoing-unknown :
    submit_outgoing (list_intents engine) resubmission new_rail
    ≡ (raised (key_error "unknown payment_intent_id"), new_rail)
unfolding create_all create_intent checked intent_for lookup insert register padded str_ℕ
    submit_outgoing unless_known outgoing_for first_with list_intents
submit_outgoing-unknown = refl

abbrev rail : Rail
rail = (submit_outgoing (list_intents engine) submission new_rail).1

submit_outgoing-again_example :
    submit_outgoing
      (list_intents (run sandbox (create creation ∷ []) engine rail).0)
      resubmission
      (run sandbox (create creation ∷ []) engine rail).1
    ≡ (ok outgoing, (run sandbox (create creation ∷ []) engine rail).1)
submit_outgoing-again_example =
    submit_outgoing-again sandbox submission engine new_rail outgoing (create creation ∷ [])
      resubmission submit_outgoing-first refl

abbrev steps : List Step
steps = create creation ∷ submit submission ∷ create other_creation ∷ submit resubmission ∷ []

run-Mirrors_example :
    All
      (Mirrors (list_intents (run sandbox steps new_engine new_rail).0))
      (list_outgoing (run sandbox steps new_engine new_rail).1)
unfolding list_outgoing
run-Mirrors_example = run-Mirrors sandbox sandbox-Contract steps new_engine new_rail tt

abbrev history : List PaymentIntentState
history = validated ∷ authorized ∷ settled ∷ []

abbrev rail_history : List SepaRailState
rail_history = to_ack (SepaRailState.settled ∷ [])
