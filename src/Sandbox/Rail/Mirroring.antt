-- ===== src/Sandbox/Rail/Mirroring.antt =====
-- What an outgoing rail intent of src/payments/sepa_sandbox_rail.py takes from its payment intent.
use banxe_payment_core.Prelude.{
  ◌≡◌, refl, Option, none, some, List, [], ◌∷◌, lookup, values, All, All-map, All-append,
  ℕ_comparable, list_comparable,
}
use banxe_payment_core.Sandbox.Registry.{first_with, register-values}
use banxe_payment_core.Sandbox.Engine.{PaymentIntent, Creation}
use banxe_payment_core.Sandbox.Engine.Port.{PaymentEnginePort, Contract}
use banxe_payment_core.Sandbox.Rail.{
  SepaOutgoingIntent, Rail, Submission, new_outgoing, outgoing_for, unless_known, submit_outgoing,
  list_outgoing,
}
use banxe_payment_core.Sandbox.Rail.Outgoing.{Step, create, submit, run}

-- The payment intent that `i` names is listed, and has its accounts, its amount and its currency.
abbrev pub Mirrors : List PaymentIntent → SepaOutgoingIntent → Type 0
Mirrors l i =
    (p : PaymentIntent) × (first_with (λ (j : PaymentIntent). j.intent_id) i.payment_intent_id l
      ≡ some p)
    × (i.debtor_account_ref ≡ p.debtor_account_ref)
    × (i.creditor_account_ref ≡ p.creditor_account_ref)
    × (i.amount_minor ≡ p.amount_minor)
    × (i.currency ≡ p.currency)

outgoing_for-Mirrors :
    (o : Option PaymentIntent) (l : List PaymentIntent) (q : Submission) (s : Rail)
    → first_with (λ (j : PaymentIntent). j.intent_id) q.payment_intent_id l ≡ o
    → lookup q.file_dedup_key s.by_key ≡ none
    → All (Mirrors l) (list_outgoing s)
    → All (Mirrors l) (list_outgoing (outgoing_for o q s).1)
unfolding outgoing_for list_outgoing
outgoing_for-Mirrors none l q s f e h = h
outgoing_for-Mirrors (some p) l q s f e h =
    rw (register-values _ (new_outgoing q p s) _ _ s e)
      (All-append (Mirrors l) (values s.by_key) _ h ((p, f, refl, refl, refl, refl), tt))

unless_known-Mirrors :
    (o : Option SepaOutgoingIntent) (l : List PaymentIntent) (q : Submission) (s : Rail)
    → lookup q.file_dedup_key s.by_key ≡ o
    → All (Mirrors l) (list_outgoing s)
    → All (Mirrors l) (list_outgoing (unless_known o l q s).1)
unfolding unless_known
unless_known-Mirrors (some i) l q s e h = h
unless_known-Mirrors none l q s e h = outgoing_for-Mirrors _ l q s refl e h

module _ {S : Type 0} (engine : PaymentEnginePort S) (contract : Contract engine) where
  create_intent-Mirrors :
      (q : Creation) (e : S) (i : SepaOutgoingIntent)
      → Mirrors (engine.list_intents e) i
      → Mirrors (engine.list_intents (engine.create_intent q e).1) i
  create_intent-Mirrors q e i (p, f, a, b, c, d) =
      (p, contract.stays q e i.payment_intent_id p f, a, b, c, d)

  -- Beside any engine that keeps its contract: if each outgoing rail intent mirrors a payment
  -- intent of the engine, then so it is after any calls of `create_intent` and `submit_outgoing`:
  -- the payment intent that it names is listed by the engine, and has the accounts, the amount and
  -- the currency of the rail intent.
  pub run-Mirrors :
      (steps : List Step) (e : S) (s : Rail)
      → All (Mirrors (engine.list_intents e)) (list_outgoing s)
      → All
          (Mirrors (engine.list_intents (run engine steps e s).0))
          (list_outgoing (run engine steps e s).1)
  unfolding run submit_outgoing
  run-Mirrors [] e s h = h
  run-Mirrors (create q ∷ steps) e s h =
      run-Mirrors steps _ s (All-map (λ i m. create_intent-Mirrors q e i m) (list_outgoing s) h)
  run-Mirrors (submit q ∷ steps) e s h =
      run-Mirrors steps e _ (unless_known-Mirrors _ (engine.list_intents e) q s refl h)
