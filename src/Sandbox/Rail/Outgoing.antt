-- ===== src/Sandbox/Rail/Outgoing.antt =====
-- The rail of src/payments/sepa_sandbox_rail.py beside any engine that it may consume: calls of
-- `create_intent` and of `submit_outgoing` in any order.
use mathlib.Core.Option
use banxe_payment_core.Prelude.{
  ◌≡◌, refl, ap, ◌∙◌, Option, none, some, List, [], ◌∷◌, lookup, All, ℕ_comparable, list_comparable,
}
use banxe_payment_core.Exec.{ok}
use banxe_payment_core.Python.{Text, codes}
use banxe_payment_core.Sandbox.Registry.{
  empty_registry, first_with, Sound, register-Sound, lookup-statuses, first_with-id, register-keeps,
  register-lists,
}
use banxe_payment_core.Sandbox.Engine.{PaymentIntent, Creation}
use banxe_payment_core.Sandbox.Engine.Port.{PaymentEnginePort}
use banxe_payment_core.Sandbox.Rail.{
  SepaOutgoingIntent, Rail, Submission, new_rail_status, new_outgoing, outgoing_for, unless_known,
  submit_outgoing, get_rail_status, list_outgoing,
}

pub data Step : Type 0 where
  create : Creation → Step
  submit : Submission → Step

abbrev pub rail_id : SepaOutgoingIntent → Text
rail_id i = i.rail_intent_id

abbrev pub dedup_key : SepaOutgoingIntent → Text
dedup_key i = i.file_dedup_key

abbrev pub IsSound : Rail → Type 0
IsSound s = Sound (codes "SEPA-OUT-") rail_id dedup_key new_rail_status s

outgoing_for-IsSound :
    (o : Option PaymentIntent) (q : Submission) (s : Rail)
    → lookup q.file_dedup_key s.by_key ≡ none
    → IsSound s
    → IsSound (outgoing_for o q s).1
unfolding outgoing_for
outgoing_for-IsSound none q s e h = h
outgoing_for-IsSound (some i) q s e h =
    register-Sound (codes "SEPA-OUT-") _ _ _ (new_outgoing q i s) s h e refl

unless_known-IsSound :
    (o : Option SepaOutgoingIntent) (intents : List PaymentIntent) (q : Submission) (s : Rail)
    → lookup q.file_dedup_key s.by_key ≡ o
    → IsSound s
    → IsSound (unless_known o intents q s).1
unfolding unless_known
unless_known-IsSound (some i) intents q s e h = h
unless_known-IsSound none intents q s e h = outgoing_for-IsSound _ q s e h

outgoing_for-keeps :
    (o : Option PaymentIntent) (q : Submission) (s : Rail) (k : Text) (i : SepaOutgoingIntent)
    → lookup q.file_dedup_key s.by_key ≡ none
    → lookup k s.by_key ≡ some i
    → lookup k (outgoing_for o q s).1.by_key ≡ some i
unfolding outgoing_for
outgoing_for-keeps none q s k i e h = h
outgoing_for-keeps (some j) q s k i e h = register-keeps _ (new_outgoing q j s) _ _ s k i e h

unless_known-keeps :
    (o : Option SepaOutgoingIntent) (intents : List PaymentIntent) (q : Submission) (s : Rail)
    (k : Text) (i : SepaOutgoingIntent)
    → lookup q.file_dedup_key s.by_key ≡ o
    → lookup k s.by_key ≡ some i
    → lookup k (unless_known o intents q s).1.by_key ≡ some i
unfolding unless_known
unless_known-keeps (some j) intents q s k i e h = h
unless_known-keeps none intents q s k i e h = outgoing_for-keeps _ q s k i e h

outgoing_for-lists :
    (o : Option PaymentIntent) (q : Submission) (s : Rail) (i : SepaOutgoingIntent)
    → (outgoing_for o q s).0 ≡ ok i
    → lookup q.file_dedup_key (outgoing_for o q s).1.by_key ≡ some i
unfolding outgoing_for
outgoing_for-lists none q s i h = cc h
outgoing_for-lists (some j) q s i h =
    let p : new_outgoing q j s ≡ i = cc h in register-lists _ _ _ _ s ∙ ap some p

unless_known-lists :
    (o : Option SepaOutgoingIntent) (intents : List PaymentIntent) (q : Submission) (s : Rail)
    (i : SepaOutgoingIntent)
    → lookup q.file_dedup_key s.by_key ≡ o
    → (unless_known o intents q s).0 ≡ ok i
    → lookup q.file_dedup_key (unless_known o intents q s).1.by_key ≡ some i
unfolding unless_known
unless_known-lists (some j) intents q s i e h = cc (e, h)
unless_known-lists none intents q s i e h = outgoing_for-lists _ q s i h

unless_known-again :
    (o : Option SepaOutgoingIntent) (intents : List PaymentIntent) (q : Submission) (s : Rail)
    (i : SepaOutgoingIntent)
    → o ≡ some i
    → unless_known o intents q s ≡ (ok i, s)
unfolding unless_known
unless_known-again o intents q s i h = rw h refl

module _ {S : Type 0} (engine : PaymentEnginePort S) where
  -- The calls one after the other; the caller goes on after an exception.
  unfoldable pub run : List Step → S → Rail → S × Rail
  run [] e s = (e, s)
  run (create q ∷ steps) e s = run steps (engine.create_intent q e).1 s
  run (submit q ∷ steps) e s = run steps e (submit_outgoing (engine.list_intents e) q s).1

  run-IsSound : (steps : List Step) (e : S) (s : Rail) → IsSound s → IsSound (run steps e s).1
  unfolding run submit_outgoing
  run-IsSound [] e s h = h
  run-IsSound (create q ∷ steps) e s h = run-IsSound steps _ s h
  run-IsSound (submit q ∷ steps) e s h =
      run-IsSound steps e _ (unless_known-IsSound _ (engine.list_intents e) q s refl h)

  run-keeps :
      (steps : List Step) (e : S) (s : Rail) (k : Text) (i : SepaOutgoingIntent)
      → lookup k s.by_key ≡ some i
      → lookup k (run steps e s).1.by_key ≡ some i
  unfolding run submit_outgoing
  run-keeps [] e s k i h = h
  run-keeps (create q ∷ steps) e s k i h = run-keeps steps _ s k i h
  run-keeps (submit q ∷ steps) e s k i h =
      run-keeps steps e _ k i (unless_known-keeps _ (engine.list_intents e) q s k i refl h)

  -- A key that `submit_outgoing` returned a rail intent for is good for it for ever: after any
  -- further calls of the engine and the rail, a submission with this key, whatever payment intent
  -- and IBAN it names, returns the same rail intent and changes nothing.
  pub submit_outgoing-again :
      (q : Submission) (e : S) (s : Rail) (i : SepaOutgoingIntent) (steps : List Step)
      (again : Submission)
      → (submit_outgoing (engine.list_intents e) q s).0 ≡ ok i
      → again.file_dedup_key ≡ q.file_dedup_key
      → submit_outgoing
          (engine.list_intents (run steps e (submit_outgoing (engine.list_intents e) q s).1).0)
          again
          (run steps e (submit_outgoing (engine.list_intents e) q s).1).1
        ≡ (ok i, (run steps e (submit_outgoing (engine.list_intents e) q s).1).1)
  unfolding submit_outgoing
  submit_outgoing-again q e s i steps again h k =
      unless_known-again _ _ again _ i
        (rw k (run-keeps steps e _ _ i (unless_known-lists _ (engine.list_intents e) q s i refl h)))

  -- After any calls on a new rail, `get_rail_status` of an id is the status record made for the rail
  -- intent listed under it, None if there is none, and each rail intent listed is the one that its id
  -- finds, so that no two have the same id.
  run-statuses :
      (steps : List Step) (e : S)
      → (All
          (λ (i : SepaOutgoingIntent).
            first_with rail_id i.rail_intent_id (list_outgoing (run steps e empty_registry).1)
            ≡ some i)
          (list_outgoing (run steps e empty_registry).1))
        × ((x : Text)
            → get_rail_status x (run steps e empty_registry).1
              ≡ Option.map new_rail_status
                  (first_with rail_id x (list_outgoing (run steps e empty_registry).1)))
  unfolding list_outgoing get_rail_status
  run-statuses steps e =
      let h = run-IsSound steps e empty_registry (tt, refl) in
      (
        first_with-id (codes "SEPA-OUT-") _ dedup_key new_rail_status 0 _ h.0,
        λ x. ap (lookup x) h.1 ∙ lookup-statuses (codes "SEPA-OUT-") _ dedup_key _ x _,
      )
