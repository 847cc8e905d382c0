-- ===== src/Payments/Interleaving/Marks.antt =====
-- How often a key is paid, when payments overlap, and which keys are marked; and what the
-- submission of a payment changes in that.
use banxe_payment_core.Prelude.{
  ℕ, String, ◌+◌, ◌≤◌, ◌≡◌, refl, false, if◌then◌else◌, ◌==◌, string_comparable, Option, none, some,
  List, [], ◌∷◌, arith, pick, total, total-append, Bool-cases, inl, inr,
}
use text.Mathlib.TextEquality.{eq_iff}
use banxe_payment_core.Exec.{Result, ok, raised}
use banxe_payment_core.Ports.{PaymentInstruction, PaymentResult}
use banxe_payment_core.Lineage.{Decimal, Sink, has_seen}
use banxe_payment_core.Payments.Types.{PaymentsMask, ActionContext, Evaluation}
use banxe_payment_core.Payments.Gates.{evaluate}
use banxe_payment_core.Payments.Actions.{emit, conclude, begin, suppress_duplicate, payment_context}
use banxe_payment_core.Payments.Actions.Effects.{started, begin_lem}
use banxe_payment_core.Payments.Actions.Replay.{Request}
use banxe_payment_core.Payments.Interleaving.{Flight, Pool, Event, launched, launch, priced, step}
use banxe_payment_core.Payments.Interleaving.Collision.{key_of}

abbrev pub has_key : String → Flight → ℕ
has_key k f = if f.instruction.idempotency_key == k then 1 else 0

-- How many payments in flight have the key.
abbrev pub in_flight : String → List Flight → ℕ
in_flight k = total (has_key k)

-- 1 if the key is marked as paid, and 0 if not.
abbrev pub marked : String → Pool → ℕ
marked k p = if has_seen k p.agent.idempotency then 1 else 0

-- No key is in flight twice, and none that is marked is in flight.
abbrev pub Fresh : Pool → Type 0
Fresh p = (k : String) → in_flight k p.flights + marked k p ≤ 1

-- The payment that is answered has the key, and is made.
abbrev pub made : String → Option (Flight × List Flight) → Result PaymentResult → ℕ
made k (some (f, fs)) (ok r) = has_key k f
made k _ _ = 0

abbrev pub paid : String → Event → Pool → ℕ
paid k (Event.submit q) p = 0
paid k (Event.answer n r) p = made k (pick n p.flights) r

-- A submission of a key that is not in flight.
abbrev pub Apart : Event → Pool → Type 0
Apart (Event.submit q) p = in_flight (key_of q) p.flights ≡ 0
Apart (Event.answer n r) p = Unit

-- What an event leaves: the keys in flight are as they should be, and those marked are those paid.
abbrev pub Kept : Event → Pool → Pool → Type 0
Kept e p q = Fresh q × ((k : String) → marked k p + paid k e p ≡ marked k q)

module _ (sink : Sink) (mask : PaymentsMask) where
  -- How often the key is paid in the course of the events.
  unfoldable pub payments_of : String → List Event → Pool → ℕ
  payments_of k [] p = 0
  payments_of k (e ∷ es) p = paid k e p + payments_of k es (step sink mask e p)

  abbrev pub AllApart : List Event → Pool → Type 0
  AllApart [] p = Unit
  AllApart (e ∷ es) p = Apart e p × AllApart es (step sink mask e p)

  launched-store :
      (ctx : ActionContext) (i : PaymentInstruction) (e : Result Evaluation) (p : Pool)
      → (launched sink mask ctx i (started sink mask ctx e p.agent) p).agent.idempotency
        ≡ p.agent.idempotency
  unfolding conclude emit
  launched-store ctx i (raised x) p = refl
  launched-store ctx i (ok ev) p = ground arith

  launched-flights :
      (ctx : ActionContext) (i : PaymentInstruction) (e : Result Evaluation) (p : Pool) (k : String)
      → in_flight k (launched sink mask ctx i (started sink mask ctx e p.agent) p).flights
        ≤ in_flight k p.flights + (if i.idempotency_key == k then 1 else 0)
  launched-flights ctx i (raised x) p k = omega arith
  launched-flights ctx i (ok ev) p k = elim (Bool-cases ev.proceed) [
    | inl e ↦ simp e (
        omega (
          arith,
          total-append (has_key k) p.flights
              (record { context = ctx; evaluation = ev; instruction = i } ∷ []),
        ))
    | inr e ↦ simp e (omega arith)
  ]

  launched-Kept :
      (q : Request) (ctx : ActionContext) (p : Pool)
      → has_seen (key_of q) p.agent.idempotency ≡ false
      → in_flight (key_of q) p.flights ≡ 0
      → Fresh p
      → Kept
          (Event.submit q)
          p
          (launched sink mask ctx q.intent.instruction (begin sink mask ctx p.agent) p)
  launched-Kept q ctx p new apart h =
      let i = q.intent.instruction in
      let e = evaluate mask p.agent.window ctx in
      rw (begin_lem sink mask ctx p.agent) (
        λ k. ground (
          arith,
          h k,
          launched-store ctx i e p,
          launched-flights ctx i e p k,
          eq_iff (key_of q) k,
        ),
        λ k. rw (launched-store ctx i e p) (omega arith),
      )

  replayed-Kept :
      (q : Request) (ctx : ActionContext) (key : String) (p : Pool)
      → Fresh p
      → Kept
          (Event.submit q)
          p
          (record p { agent = (suppress_duplicate sink mask ctx key p.agent).1 })
  unfolding suppress_duplicate emit
  replayed-Kept q ctx key p h = (λ k. ground (arith, h k), λ k. ground arith)

  launch-Kept :
      (q : Request) (x : Decimal) (p : Pool)
      → in_flight (key_of q) p.flights ≡ 0
      → Fresh p
      → Kept (Event.submit q) p (launch sink mask q x p)
  unfolding launch
  launch-Kept q x p apart h =
      let ctx = payment_context q.intent x q.compliance q.reviewed_by in
      elim (Bool-cases (has_seen (key_of q) p.agent.idempotency)) [
        | inl e ↦ rw e (replayed-Kept q ctx (key_of q) p h)
        | inr e ↦ rw e (launched-Kept q ctx p e apart h)
      ]

  pub priced-Kept :
      (q : Request) (x : Option Decimal) (p : Pool)
      → in_flight (key_of q) p.flights ≡ 0
      → Fresh p
      → Kept (Event.submit q) p (priced sink mask q x p)
  priced-Kept q none p apart h = (h, λ k. omega arith)
  priced-Kept q (some x) p apart h = launch-Kept q x p apart h
