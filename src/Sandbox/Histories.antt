-- ===== src/Sandbox/Histories.antt =====
-- The tables of allowed transitions of src/ports/payment_engine_port.py and
-- src/ports/sepa_rail_port.py, and the histories that obey them.
use banxe_payment_core.Prelude.{
  ◌≡◌, ◌↔◌, ◌⊎◌, Bool, true, false, if◌then◌else◌, elem, Comparable, Option, none, some, List, [],
  ◌∷◌, arith,
}
use banxe_payment_core.Sandbox.Rail.{SepaRailState}
use banxe_payment_core.Sandbox.Engine.{
  PaymentIntentState, created, validated, authorized, settled, failed, cancelled,
}

-- Where a history leads from a state, if the table allows each of its steps.
unfoldable pub follow : {S : Type 0} ⦃c : Comparable S⦄ → (S → List S) → S → List S → Option S
follow table s [] = some s
follow table s (t ∷ l) = let rest = follow table t l in if elem t (table s) then rest else none

abbrev pub same_state : PaymentIntentState → PaymentIntentState → Bool
same_state created created = true
same_state validated validated = true
same_state authorized authorized = true
same_state settled settled = true
same_state failed failed = true
same_state cancelled cancelled = true
same_state _ _ = false

pub same_state_iff : (s t : PaymentIntentState) → (same_state s t ≡ true) ↔ (s ≡ t)
same_state_iff s t = ground arith

instance abbrev pub state_comparable : Comparable PaymentIntentState
state_comparable = record { same = same_state; same_iff = same_state_iff }

-- INTENT_TRANSITIONS
abbrev pub intent_transitions : PaymentIntentState → List PaymentIntentState
intent_transitions created = validated ∷ cancelled ∷ []
intent_transitions validated = authorized ∷ failed ∷ cancelled ∷ []
intent_transitions authorized = settled ∷ failed ∷ []
intent_transitions settled = []
intent_transitions failed = []
intent_transitions cancelled = []

abbrev pub same_rail : SepaRailState → SepaRailState → Bool
same_rail SepaRailState.submitted SepaRailState.submitted = true
same_rail SepaRailState.pacs_generated SepaRailState.pacs_generated = true
same_rail SepaRailState.sent_to_rail SepaRailState.sent_to_rail = true
same_rail SepaRailState.ack SepaRailState.ack = true
same_rail SepaRailState.settled SepaRailState.settled = true
same_rail SepaRailState.returned SepaRailState.returned = true
same_rail SepaRailState.rejected SepaRailState.rejected = true
same_rail _ _ = false

pub same_rail_iff : (s t : SepaRailState) → (same_rail s t ≡ true) ↔ (s ≡ t)
same_rail_iff s t = ground arith

instance abbrev pub rail_comparable : Comparable SepaRailState
rail_comparable = record { same = same_rail; same_iff = same_rail_iff }

-- RAIL_TRANSITIONS
abbrev pub rail_transitions : SepaRailState → List SepaRailState
rail_transitions SepaRailState.submitted =
    SepaRailState.pacs_generated ∷ SepaRailState.rejected ∷ []
rail_transitions SepaRailState.pacs_generated =
    SepaRailState.sent_to_rail ∷ SepaRailState.rejected ∷ []
rail_transitions SepaRailState.sent_to_rail = SepaRailState.ack ∷ SepaRailState.rejected ∷ []
rail_transitions SepaRailState.ack = SepaRailState.settled ∷ SepaRailState.returned ∷ []
rail_transitions SepaRailState.settled = []
rail_transitions SepaRailState.returned = []
rail_transitions SepaRailState.rejected = []

-- The states of an acknowledged message, up to the acknowledgement.
abbrev pub to_ack : List SepaRailState → List SepaRailState
to_ack l = SepaRailState.pacs_generated ∷ SepaRailState.sent_to_rail ∷ SepaRailState.ack ∷ l

-- By the table, a submitted rail intent comes to be settled by exactly one history, and to be
-- returned by exactly one, and both lead through the acknowledgement.
follow-rail :
    (l : List SepaRailState)
    → ((follow rail_transitions SepaRailState.submitted l ≡ some SepaRailState.settled)
        ↔ (l ≡ to_ack (SepaRailState.settled ∷ [])))
      × ((follow rail_transitions SepaRailState.submitted l ≡ some SepaRailState.returned)
          ↔ (l ≡ to_ack (SepaRailState.returned ∷ [])))
unfolding follow
follow-rail l = ground arith

-- By the table, a created intent comes to be settled by exactly one history (validated, authorized,
-- settled), and to fail by exactly two (validated, with authorized or without).
follow-intent :
    (l : List PaymentIntentState)
    → ((follow intent_transitions created l ≡ some settled)
        ↔ (l ≡ validated ∷ authorized ∷ settled ∷ []))
      × ((follow intent_transitions created l ≡ some failed)
          ↔ ((l ≡ validated ∷ failed ∷ []) ⊎ (l ≡ validated ∷ authorized ∷ failed ∷ [])))
unfolding follow
follow-intent l = ground arith
