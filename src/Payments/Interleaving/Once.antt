-- ===== src/Payments/Interleaving/Once.antt =====
-- Payments that overlap, each of a key that is not in flight when it is submitted: no key is paid
-- twice.
use banxe_payment_core.Prelude.{
  String, ◌+◌, ◌≤◌, ◌≡◌, refl, ap, true, if◌then◌else◌, ◌==◌, string_comparable, Option, none, some,
  List, [], ◌∷◌, arith, pick,
}
use banxe_payment_core.Exec.{Exc, Result, ok, raised}
use banxe_payment_core.Python.{decimal}
use banxe_payment_core.Ports.{PaymentResult}
use banxe_payment_core.Lineage.{Accepts, Sink, has_seen, has_seen-mark_seen}
use banxe_payment_core.Lineage.Window.Reservations.{Takes, total-Takes, Taken, pick-Taken}
use banxe_payment_core.Payments.Types.{PaymentsMask, payment}
use banxe_payment_core.Payments.Actions.{emit, conclude, answered, mark}
use banxe_payment_core.Payments.Actions.Records.{emit_lem}
use banxe_payment_core.Payments.Interleaving.{Flight, Pool, Event, land, landed, step, run}
use banxe_payment_core.Payments.Interleaving.Marks.{
  has_key, in_flight, marked, Fresh, made, Apart, Kept, payments_of, AllApart, priced-Kept,
}

module _ (sink : Sink) (mask : PaymentsMask) where
  module _ (accepts : Accepts sink) where
    -- An answer without an exception marks the payment's key.
    land-marked :
        (k : String) (f : Flight) (fs : List Flight) (r : PaymentResult) (p : Pool)
        → has_seen k (land sink mask f fs (ok r) p).agent.idempotency
          ≡ (if f.instruction.idempotency_key == k then true else has_seen k p.agent.idempotency)
    unfolding land answered conclude mark
    land-marked k f fs r p = ground (
      arith,
      emit_lem sink mask f.context accepts f.evaluation f.evaluation.action_taken true
          f.evaluation.compliance_result f.evaluation.reasoning_summary p.agent,
      has_seen-mark_seen f.instruction.idempotency_key k (some (payment r)) p.agent.idempotency,
    )

    -- An exception leaves the marks alone.
    land-unmarked :
        (f : Flight) (fs : List Flight) (e : Exc) (p : Pool)
        → (land sink mask f fs (raised e) p).agent.idempotency ≡ p.agent.idempotency
    unfolding land answered emit mark
    land-unmarked f fs e p = ground arith

    -- What an answer to a payment in flight leaves.
    abbrev LandKept : Option (Flight × List Flight) → Result PaymentResult → Pool → Pool → Type 0
    LandKept o r p q = Fresh q × ((k : String) → marked k p + made k o r ≡ marked k q)

    land-Kept :
        (f : Flight) (fs : List Flight) (r : Result PaymentResult) (p : Pool)
        → Takes f p.flights fs
        → Fresh p
        → LandKept (some (f, fs)) r p (land sink mask f fs r p)
    land-Kept f fs (ok r) p t h =
        let same : (land sink mask f fs (ok r) p).flights ≡ fs = unfold land in refl in
        (
          λ k. ground (
            arith,
            h k,
            land-marked k f fs r p,
            total-Takes (has_key k) t,
            ap (in_flight k) same,
          ),
          λ k. ground (arith, h k, land-marked k f fs r p, total-Takes (has_key k) t),
        )
    land-Kept f fs (raised e) p t h =
        let same : (land sink mask f fs (raised e) p).flights ≡ fs = unfold land in refl in
        (
          λ k. ground (
            arith,
            h k,
            land-unmarked f fs e p,
            total-Takes (has_key k) t,
            ap (in_flight k) same,
          ),
          λ k. rw (land-unmarked f fs e p) (omega arith),
        )

    landed-Kept :
        (o : Option (Flight × List Flight)) (r : Result PaymentResult) (p : Pool)
        → Taken p.flights o
        → Fresh p
        → LandKept o r p (landed sink mask o r p)
    landed-Kept none r p t h = (h, λ k. omega arith)
    landed-Kept (some (f, fs)) r p t h = land-Kept f fs r p t h

    step-Kept : (e : Event) (p : Pool) → Apart e p → Fresh p → Kept e p (step sink mask e p)
    unfolding step
    step-Kept (Event.submit q) p a h =
        priced-Kept sink mask q (decimal q.intent.instruction.amount) p a h
    step-Kept (Event.answer n r) p a h =
        landed-Kept (pick n p.flights) r p (pick-Taken n p.flights) h

    run-marked :
        (es : List Event) (p : Pool)
        → Fresh p
        → AllApart sink mask es p
        → (k : String) → marked k p + payments_of sink mask k es p ≡ marked k (run sink mask es p)
    unfolding run payments_of
    run-marked [] p h a k = omega arith
    run-marked (e ∷ es) p h a k =
        let s = step-Kept e p a.0 h in
        omega (arith, s.1 k, run-marked es (step sink mask e p) s.0 a.1 k)

    marked_bound : (k : String) (p : Pool) → marked k p ≤ 1
    marked_bound k p = ground arith

    -- If the recorder persists every record, no key is in flight twice or both in flight and marked
    -- at first, and each payment is submitted when none of its key is in flight, then, whatever the
    -- order of submissions and answers, no key is paid more than once, and a key is marked at the
    -- end exactly if it was marked at first, and then is not paid, or has been paid.
    pub run-Once :
        (es : List Event) (p : Pool)
        → Fresh p
        → AllApart sink mask es p
        → (k : String)
        → (payments_of sink mask k es p ≤ 1)
          × (marked k p + payments_of sink mask k es p ≡ marked k (run sink mask es p))
    run-Once es p h a k =
        let e = run-marked es p h a k in (omega (arith, e, marked_bound k (run sink mask es p)), e)
