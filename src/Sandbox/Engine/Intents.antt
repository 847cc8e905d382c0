-- ===== src/Sandbox/Engine/Intents.antt =====
-- What the engine of src/payments/sandbox_engine.py keeps up over any calls of `create_intent`.
use mathlib.Core.Option
use banxe_payment_core.Prelude.{
  ℤ, ◌≡◌, refl, Option, none, some, List, [], ◌∷◌, lookup, All, ℕ_comparable, list_comparable, ap,
  ◌∙◌,
}
use banxe_payment_core.Exec.{ok}
use banxe_payment_core.Python.{Text, codes}
use banxe_payment_core.Sandbox.Registry.{
  first_with, empty_registry, Sound, register-Sound, lookup-statuses, first_with-id, register-keeps,
  register-lists,
}
use banxe_payment_core.Sandbox.Engine.{
  PaymentIntent, Amount, int, not_int, Engine, Creation, new_status, new_intent, intent_for,
  checked, create_intent, get_status, list_intents, create_all,
}

abbrev pub intent_key : PaymentIntent → Text
intent_key i = i.intent_id

abbrev dedup : PaymentIntent → Text
dedup i = i.idempotency_key

-- Intents stand under their keys with ids that count them, and each has its status record.
abbrev pub IsSound : Engine → Type 0
IsSound s = Sound (codes "PI-") intent_key dedup new_status s

intent_for-IsSound :
    (o : Option PaymentIntent) (q : Creation) (n : ℤ) (s : Engine)
    → lookup q.idempotency_key s.by_key ≡ o
    → IsSound s
    → IsSound (intent_for o q n s).1
unfolding intent_for
intent_for-IsSound (some i) q n s e h = h
intent_for-IsSound none q n s e h = register-Sound (codes "PI-") _ _ _ (new_intent q n s) s h e refl

checked-IsSound : (a : Amount) (q : Creation) (s : Engine) → IsSound s → IsSound (checked a q s).1
unfolding checked
checked-IsSound (int n) q s h = intent_for-IsSound _ q n s refl h
checked-IsSound not_int q s h = h

create_intent-IsSound : (q : Creation) (s : Engine) → IsSound s → IsSound (create_intent q s).1
unfolding create_intent
create_intent-IsSound q s h = checked-IsSound q.amount_minor q s h

-- Any calls of `create_intent` keep an engine sound.
pub create_all-IsSound : (qs : List Creation) (s : Engine) → IsSound s → IsSound (create_all qs s)
unfolding create_all
create_all-IsSound [] s h = h
create_all-IsSound (q ∷ qs) s h = create_all-IsSound qs _ (create_intent-IsSound q s h)

-- A key that is listed stays with its intent.
intent_for-keeps :
    (o : Option PaymentIntent) (q : Creation) (n : ℤ) (s : Engine) (k : Text) (i : PaymentIntent)
    → lookup q.idempotency_key s.by_key ≡ o
    → lookup k s.by_key ≡ some i
    → lookup k (intent_for o q n s).1.by_key ≡ some i
unfolding intent_for
intent_for-keeps (some j) q n s k i e h = h
intent_for-keeps none q n s k i e h = register-keeps _ (new_intent q n s) _ _ s k i e h

checked-keeps :
    (a : Amount) (q : Creation) (s : Engine) (k : Text) (i : PaymentIntent)
    → lookup k s.by_key ≡ some i
    → lookup k (checked a q s).1.by_key ≡ some i
unfolding checked
checked-keeps (int n) q s k i h = intent_for-keeps _ q n s k i refl h
checked-keeps not_int q s k i h = h

create_all-keeps :
    (qs : List Creation) (s : Engine) (k : Text) (i : PaymentIntent)
    → lookup k s.by_key ≡ some i
    → lookup k (create_all qs s).by_key ≡ some i
unfolding create_all create_intent
create_all-keeps [] s k i h = h
create_all-keeps (q ∷ qs) s k i h =
    create_all-keeps qs _ k i (checked-keeps q.amount_minor q s k i h)

-- After a call that returned, its key is listed with what it returned.
intent_for-lists :
    (o : Option PaymentIntent) (q : Creation) (n : ℤ) (s : Engine) (i : PaymentIntent)
    → lookup q.idempotency_key s.by_key ≡ o
    → (intent_for o q n s).0 ≡ ok i
    → lookup q.idempotency_key (intent_for o q n s).1.by_key ≡ some i
unfolding intent_for
intent_for-lists (some j) q n s i e h = cc (e, h)
intent_for-lists none q n s i e h =
    let p : new_intent q n s ≡ i = cc h in register-lists _ _ _ _ s ∙ ap some p

checked-lists :
    (a : Amount) (q : Creation) (s : Engine) (i : PaymentIntent)
    → (checked a q s).0 ≡ ok i
    → lookup q.idempotency_key (checked a q s).1.by_key ≡ some i
unfolding checked
checked-lists (int n) q s i h = intent_for-lists _ q n s i refl h
checked-lists not_int q s i h = cc h

checked-again :
    (a : Amount) (q : Creation) (n : ℤ) (s : Engine) (i : PaymentIntent)
    → a ≡ int n
    → lookup q.idempotency_key s.by_key ≡ some i
    → checked a q s ≡ (ok i, s)
unfolding checked intent_for
checked-again a q n s i e h = rw (e, h) refl

-- A key that a call of `create_intent` returned an intent for is good for that intent for ever:
-- after any further calls, a call with the key and any whole amount, whatever its other arguments
-- say, returns the same intent and changes nothing.
pub create_intent-again :
    (q : Creation) (s : Engine) (i : PaymentIntent) (qs : List Creation) (again : Creation) (n : ℤ)
    → (create_intent q s).0 ≡ ok i
    → again.idempotency_key ≡ q.idempotency_key
    → again.amount_minor ≡ int n
    → create_intent again (create_all qs (create_intent q s).1)
      ≡ (ok i, create_all qs (create_intent q s).1)
unfolding create_intent
create_intent-again q s i qs again n h k a =
    checked-again again.amount_minor again n _ i a
      (rw k (create_all-keeps qs _ _ i (checked-lists q.amount_minor q s i h)))

-- After any calls of `create_intent` on a new engine, each intent that is listed is the one that
-- its id finds, so that no two have the same id, and `get_status` of an id is the status record
-- made for the intent listed under it, and None for an id that none has.
pub create_all-statuses :
    (qs : List Creation)
    → (All
        (λ (i : PaymentIntent).
          first_with intent_key i.intent_id (list_intents (create_all qs empty_registry)) ≡ some i)
        (list_intents (create_all qs empty_registry)))
      × ((x : Text)
          → get_status x (create_all qs empty_registry)
            ≡ Option.map new_status
                (first_with intent_key x (list_intents (create_all qs empty_registry))))
unfolding list_intents get_status
create_all-statuses qs =
    let h = create_all-IsSound qs empty_registry (tt, refl) in
    (
      first_with-id (codes "PI-") _ dedup new_status 0 _ h.0,
      λ x. ap (lookup x) h.1 ∙ lookup-statuses (codes "PI-") _ dedup _ x _,
    )
