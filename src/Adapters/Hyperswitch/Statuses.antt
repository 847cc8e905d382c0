-- ===== src/Adapters/Hyperswitch/Statuses.antt =====
-- Which statuses `_parse_result` of src/adapters/hyperswitch_adapter.py reports.
use banxe_payment_core.Prelude.{
  String, ◌≡◌, ◌≢◌, ◌↔◌, ◌⊎◌, inl, inr, true, arith, list_beq_iff, ℕ_comparable,
}
use banxe_payment_core.Exec.{ok, Result-cases}
use banxe_payment_core.Python.{codes}
use banxe_payment_core.Json.{Value, null, bool, num, real, str, arr, obj, is_str}
use banxe_payment_core.Adapters.Hyperswitch.{
  PaymentStatus, authorized, declined, pending_3ds, captured, refunded, voided, PaymentResult,
  status_of, raw_status, parse_result,
}

is_str_iff : (s : String) (v : Value) → (is_str s v ≡ true) ↔ (v ≡ str (codes s))
unfolding is_str
is_str_iff s null = ground arith
is_str_iff s (bool b) = ground arith
is_str_iff s (num n) = ground arith
is_str_iff s (real n z) = ground arith
is_str_iff s (str t) = ground (arith, list_beq_iff t (codes s))
is_str_iff s (arr vs) = ground arith
is_str_iff s (obj fs) = ground arith

-- The word that each status stands for.
abbrev pub Stands : Value → PaymentStatus → Type 0
Stands v s =
    ((s ≡ captured) ↔ (v ≡ str (codes "succeeded")))
    × ((s ≡ authorized) ↔ (v ≡ str (codes "requires_capture")))
    × ((s ≡ voided) ↔ (v ≡ str (codes "cancelled")))
    × ((s ≡ refunded) ↔ ((v ≡ str (codes "refunded")) ⊎ (v ≡ str (codes "partially_refunded"))))
    × ((s ≡ pending_3ds) ↔ ((v ≡ str (codes "requires_action")) ⊎ (v ≡ str (codes "processing"))))
    × (s ≢ declined)

status_of-Stands : (v : Value) (s : PaymentStatus) → status_of v ≡ ok s → Stands v s
unfolding status_of
status_of-Stands v s h = ground (
  arith,
  h,
  is_str_iff "succeeded" v,
  is_str_iff "requires_capture" v,
  is_str_iff "requires_action" v,
  is_str_iff "processing" v,
  is_str_iff "failed" v,
  is_str_iff "cancelled" v,
  is_str_iff "refunded" v,
  is_str_iff "partially_refunded" v,
)

-- The status of an answer, or "failed" where it has none.
abbrev pub word : Value → Value
word (obj fs) = raw_status fs
word v = null

-- A result of `_parse_result` is captured exactly if the answer's status is "succeeded",
-- authorized exactly if it is "requires_capture", voided exactly if it is "cancelled", refunded
-- exactly if it is "refunded" or "partially_refunded", pending exactly if it is "requires_action"
-- or "processing", and never declined; so it is failed for every other answer, known or not.
parse_result-Stands :
    (v : Value) (r : PaymentResult)
    → parse_result v ≡ ok r
    → ((r.status ≡ captured) ↔ (word v ≡ str (codes "succeeded")))
      × ((r.status ≡ authorized) ↔ (word v ≡ str (codes "requires_capture")))
      × ((r.status ≡ voided) ↔ (word v ≡ str (codes "cancelled")))
      × ((r.status ≡ refunded)
          ↔ ((word v ≡ str (codes "refunded")) ⊎ (word v ≡ str (codes "partially_refunded"))))
      × ((r.status ≡ pending_3ds)
          ↔ ((word v ≡ str (codes "requires_action")) ⊎ (word v ≡ str (codes "processing"))))
      × (r.status ≢ declined)
unfolding parse_result
parse_result-Stands null r h = cc h
parse_result-Stands (bool b) r h = cc h
parse_result-Stands (num n) r h = cc h
parse_result-Stands (real n z) r h = cc h
parse_result-Stands (str t) r h = cc h
parse_result-Stands (arr vs) r h = cc h
parse_result-Stands (obj fs) r h = elim (Result-cases (status_of (raw_status fs))) [
  | inl (s, e) ↦ status_of-Stands (raw_status fs) r.status (ground (arith, h, e))
  | inr (x, e) ↦ ground (arith, h, e)
]
