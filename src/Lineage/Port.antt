-- ===== src/Lineage/Port.antt =====
-- IdempotencyStorePort of src/agents/_lineage.py, what the masks rely on, and the store in memory as
-- one.
use banxe_payment_core.Prelude.{
  String, Bool, Option, string_comparable, ◌==◌, ◌≡◌, if◌then◌else◌, true,
}
use banxe_payment_core.Lineage.Idempotency
use banxe_payment_core.Lineage.Idempotency.{Store, has_seen-mark_seen, prior_result-mark_seen}

-- IdempotencyStorePort, over the state `S` of a store of results `R`.
pub record IdempotencyStorePort (R S : Type 0) : Type 0 where
  pub has_seen : String → S → Bool
  pub mark_seen : String → Option R → S → S
  pub prior_result : String → S → Option R

-- What the masks rely on: a key is seen once it is marked, and holds what it was marked with.
pub record Contract {R S : Type 0} (store : IdempotencyStorePort R S) : Type 0 where
  pub seen :
      (k j : String) (r : Option R) (s : S)
      → store.has_seen j (store.mark_seen k r s) ≡ (if k == j then true else store.has_seen j s)
  pub prior :
      (k j : String) (r : Option R) (s : S)
      → store.prior_result j (store.mark_seen k r s)
        ≡ (if k == j then r else store.prior_result j s)

module _ {R : Type 0} where
  abbrev pub in_memory : IdempotencyStorePort R (Store R)
  in_memory = record {
    has_seen = Idempotency.has_seen;
    mark_seen = Idempotency.mark_seen;
    prior_result = Idempotency.prior_result;
  }

  in_memory-Contract : Contract {R = R} in_memory
  in_memory-Contract = record { seen = has_seen-mark_seen; prior = prior_result-mark_seen }
