-- ===== src/Sandbox/Engine/Port.antt =====
-- PaymentEnginePort of src/ports/payment_engine_port.py, what it promises, and the sandbox engine
-- as one.
use banxe_payment_core.Prelude.{
  ℤ, ◌≡◌, refl, Option, none, some, List, [], lookup, values, ℕ_comparable, list_comparable,
}
use banxe_payment_core.Exec.{ok, Exec}
use banxe_payment_core.Python.{Text}
use banxe_payment_core.Sandbox.Registry.{first_with, first_with-append, register-values}
use banxe_payment_core.Sandbox.Engine
use banxe_payment_core.Sandbox.Engine.{
  PaymentIntent, PaymentStatusRecord, Amount, int, not_int, Creation, new_intent, intent_for,
  checked, create_all,
}
use banxe_payment_core.Sandbox.Engine.Intents.{intent_key, create_intent-again}

-- A payments engine that keeps its state in `S`.
pub record PaymentEnginePort (S : Type 0) : Type 0 where
  pub create_intent : Creation → Exec S PaymentIntent
  pub get_status : Text → S → Option PaymentStatusRecord
  pub list_intents : S → List PaymentIntent

-- The listed intent with an id.
abbrev pub found : Text → List PaymentIntent → Option PaymentIntent
found id l = first_with intent_key id l

-- "Create (or idempotently return)": a key that an intent was returned for returns it again, and
-- what is listed under an id stays so.
pub record Contract {S : Type 0} (engine : PaymentEnginePort S) : Type 0 where
  pub again :
      (q r : Creation) (n : ℤ) (s : S) (i : PaymentIntent)
      → (engine.create_intent q s).0 ≡ ok i
      → r.idempotency_key ≡ q.idempotency_key
      → r.amount_minor ≡ int n
      → engine.create_intent r (engine.create_intent q s).1 ≡ (ok i, (engine.create_intent q s).1)
  pub stays :
      (q : Creation) (s : S) (id : Text) (i : PaymentIntent)
      → found id (engine.list_intents s) ≡ some i
      → found id (engine.list_intents (engine.create_intent q s).1) ≡ some i

abbrev pub sandbox : PaymentEnginePort Engine.Engine
sandbox = record {
  create_intent = Engine.create_intent;
  get_status = Engine.get_status;
  list_intents = Engine.list_intents;
}

intent_for-stays :
    (o : Option PaymentIntent) (q : Creation) (n : ℤ) (s : Engine.Engine) (id : Text)
    (i : PaymentIntent)
    → lookup q.idempotency_key s.by_key ≡ o
    → found id (Engine.list_intents s) ≡ some i
    → found id (Engine.list_intents (intent_for o q n s).1) ≡ some i
unfolding intent_for Engine.list_intents
intent_for-stays (some j) q n s id i e h = h
intent_for-stays none q n s id i e h =
    rw (register-values _ (new_intent q n s) _ _ s e)
      (first_with-append intent_key id (values s.by_key) _ i h)

checked-stays :
    (a : Amount) (q : Creation) (s : Engine.Engine) (id : Text) (i : PaymentIntent)
    → found id (Engine.list_intents s) ≡ some i
    → found id (Engine.list_intents (checked a q s).1) ≡ some i
unfolding checked
checked-stays (int n) q s id i h = intent_for-stays _ q n s id i refl h
checked-stays not_int q s id i h = h

-- The sandbox engine keeps the contract.
pub sandbox-Contract : Contract sandbox
unfolding create_all Engine.create_intent
sandbox-Contract = record {
  again = λ q r n s i h k a. create_intent-again q s i [] r n h k a;
  stays = λ q s id i h. checked-stays q.amount_minor q s id i h;
}
