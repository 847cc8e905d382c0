-- ===== src/Lineage/Idempotency.antt =====
-- InMemoryIdempotencyStore of src/agents/_lineage.py, with the results of type `R` it refers to.
use banxe_payment_core.Prelude.{
  String, Bool, true, Option, Dict, lookup, contains, insert, lookup-insert, string_comparable,
  ◌==◌, ◌≡◌, arith, if◌then◌else◌,
}

-- `_seen`; a result reference may itself be None.
abbrev pub Store : Type 0 → Type 0
Store R = Dict String (Option R)

module _ {R : Type 0} where
  unfoldable pub has_seen : String → Store R → Bool
  unfolding contains
  has_seen key s = contains key s

  unfoldable pub mark_seen : String → Option R → Store R → Store R
  unfolding insert
  mark_seen key result_ref s = insert key result_ref s

  abbrev flat : Option (Option R) → Option R
  flat Option.none = Option.none
  flat (Option.some r) = r

  -- `_seen.get(key)` of a stored None is None as well
  unfoldable pub prior_result : String → Store R → Option R
  unfolding lookup
  prior_result key s = flat (lookup key s)

-- A key has been seen exactly if it was before or is the one marked.
pub has_seen-mark_seen :
    {R : Type 0} (k j : String) (r : Option R) (s : Store R)
    → has_seen j (mark_seen k r s) ≡ (if k == j then true else has_seen j s)
unfolding has_seen mark_seen contains
has_seen-mark_seen k j r s = ground (arith, lookup-insert k j r s)

pub prior_result-mark_seen :
    {R : Type 0} (k j : String) (r : Option R) (s : Store R)
    → prior_result j (mark_seen k r s) ≡ (if k == j then r else prior_result j s)
unfolding prior_result mark_seen
prior_result-mark_seen k j r s = ground (arith, lookup-insert k j r s)
