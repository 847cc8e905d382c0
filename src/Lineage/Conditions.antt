-- ===== src/Lineage/Conditions.antt =====
-- The tests that `_evaluate` of all three masks makes, and what they decide.
use text.Mathlib.TextEquality.{eq_iff}
use banxe_payment_core.Prelude.{
  String, ◌<>◌, pos, ◌≤ℤ◌, leb_ℤ, ◌≡◌, ◌≢◌, ◌↔◌, ◌⊎◌, Bool, true, false, ◌&&◌, Option, none, some,
  List, [], ◌∷◌, arith,
}
use banxe_payment_core.Python.{one}
use banxe_payment_core.Lineage.Types.{
  Float, ComplianceResult, pass, fail, escalate, na, ProcessRef, resolved, AgentDecisionRecord,
}
use banxe_payment_core.Lineage.Recorder.{Sink}

-- `confidence_score` in [0.0, 1.0]
unfoldable pub in_range : Float → Bool
in_range c = leb_ℤ (pos 0) c && leb_ℤ c one

-- `compliance_result in (PASS, NA)`
unfoldable pub clears : ComplianceResult → Bool
clears pass = true
clears na = true
clears fail = false
clears escalate = false

abbrev pub is_none : Option String → Bool
is_none none = true
is_none (some r) = false

-- What the reasoning says of the reviewer.
abbrev pub reviewer : Option String → String
reviewer none = ""
reviewer (some r) = " (reviewed by " <> r <> ")"

-- "+".join(names)
abbrev pub joined : List String → String
joined [] = ""
joined (n ∷ []) = n
joined (n ∷ ns) = n <> "+" <> joined ns

-- The recorder persists every record.
abbrev pub Accepts : Sink → Type 0
Accepts sink = (rs : List AgentDecisionRecord) (r : AgentDecisionRecord) → sink.reject rs r ≡ none

pub in_range_iff : (c : Float) → (in_range c ≡ true) ↔ ((pos 0 ≤ℤ c) × (c ≤ℤ one))
unfolding in_range
in_range_iff c = ground arith

pub resolved_iff : (p : ProcessRef) → (resolved p ≡ true) ↔ ((p.process_id ≢ "") × (p.version ≢ ""))
unfolding resolved
resolved_iff p = ground (arith, eq_iff p.process_id "", eq_iff p.version "")

pub clears_iff : (c : ComplianceResult) → (clears c ≡ true) ↔ ((c ≡ pass) ⊎ (c ≡ na))
unfolding clears
clears_iff c = ground arith
