-- ===== src/Payments/Actions/Replay.antt =====
-- Replay protection of the Payments mask: however often intents are submitted one after the other,
-- no idempotency key is paid twice.
use banxe_payment_core.Prelude.{
  ℕ, String, ◌+◌, ◌≡◌, true, false, ◌&&◌, if◌then◌else◌, ◌==◌, string_comparable, Option, some,
  List, [], ◌∷◌, ◌++◌, arith, refl, Bool-cases, Option-cases, inl, inr,
}
use mathlib.Core.List.{append-nil, append_assoc}
use text.Mathlib.TextEquality.{eq_iff}
use banxe_payment_core.Exec.{
  map_result, Exc, Result, ok, raised, returned, Result-cases, continue, ◌>>=◌,
}
use banxe_payment_core.Python.{decimal}
use banxe_payment_core.Ports.{PaymentInstruction, PaymentResult}
use banxe_payment_core.Lineage.{
  Accepts, Decimal, ComplianceResult, AgentOutcome, Sink, has_seen-mark_seen, add, has_seen,
}
use banxe_payment_core.Payments.Types.{
  PaymentsMask, PaymentIntent, ActionContext, Evaluation, Reply, payment, Call, Agent,
}
use banxe_payment_core.Payments.Gates.{evaluate}
use banxe_payment_core.Payments.Gates.Permission.{proceeds}
use banxe_payment_core.Payments.Actions.{
  Ports, emit, conclude, answered, run_action, suppress_duplicate, payment_context, mark, pay,
  initiate_payment,
}
use banxe_payment_core.Payments.Actions.Effects.{stepped, run_action_lem}
use banxe_payment_core.Payments.Actions.Records.{emit_lem}

-- One submission of an intent.
pub record Request : Type 0 where
  pub intent : PaymentIntent
  pub compliance : ComplianceResult
  pub reviewed_by : Option String

module _ (sink : Sink) (mask : PaymentsMask) (ports : Ports) where
  -- Submissions one after the other; the caller goes on after an exception.
  unfoldable pub serve : List Request → Agent → Agent
  serve [] a = a
  serve (q ∷ qs) a =
      serve qs (initiate_payment sink mask ports q.intent q.compliance q.reviewed_by a).1

  -- A call of the partner for this key that it answered without an exception.
  abbrev pays : String → List Call → Call → ℕ
  pays k before (Call.initiate_payment i) =
      if i.idempotency_key == k && returned (ports.partner_port.initiate_payment before i)
      then 1
      else 0
  pays k before (Call.validate_address c x) = 0

  -- How often `k` has been paid by the calls `cs`, which were made after the calls `before`.
  unfoldable pub payments : String → List Call → List Call → ℕ
  payments k before [] = 0
  payments k before (c ∷ cs) = pays k before c + payments k (before ++ c ∷ []) cs

  -- The keys marked are the keys paid, once each.
  abbrev pub PaidOnce : Agent → Type 0
  PaidOnce a = (k : String) → payments k [] a.calls ≡ (if has_seen k a.idempotency then 1 else 0)

  module _ (ctx : ActionContext) (i : PaymentInstruction) (accepts : Accepts sink) (a : Agent) where
    -- What the partner answers to the payment.
    abbrev answer : Result Reply
    answer = map_result payment (ports.partner_port.initiate_payment a.calls i)

    abbrev payment_run : Result (AgentOutcome Reply) × Agent
    payment_run =
        (run_action sink mask ctx (Call.initiate_payment i)
              (λ calls. map_result payment (ports.partner_port.initiate_payment calls i))
            >>= mark i.idempotency_key)
          a

    -- The calls and the store after a payment that is no replay.
    abbrev Paid : Result Evaluation → Agent → Type 0
    Paid e b =
        (b.calls ≡ (if proceeds e then a.calls ++ Call.initiate_payment i ∷ [] else a.calls))
        × ((k : String)
            → has_seen k b.idempotency ≡ (
                if proceeds e
                  && returned (ports.partner_port.initiate_payment a.calls i)
                  && i.idempotency_key == k
                then true
                else has_seen k a.idempotency))

    abbrev run_from : Result Evaluation → Result (AgentOutcome Reply) × Agent
    run_from e =
        continue
          (stepped sink mask ctx (Call.initiate_payment i)
            (λ calls. map_result payment (ports.partner_port.initiate_payment calls i)) a e)
          (mark i.idempotency_key)

    run_from-halted : (ev : Evaluation) → ev.proceed ≡ false → Paid (ok ev) (run_from (ok ev)).1
    unfolding conclude emit mark
    run_from-halted ev h = (ground arith, λ k. ground arith)

    run_from-raised :
        (ev : Evaluation) (e : Exc)
        → ev.proceed ≡ true
        → ports.partner_port.initiate_payment a.calls i ≡ raised e
        → Paid (ok ev) (run_from (ok ev)).1
    unfolding answered emit mark
    run_from-raised ev e h p = (ground arith, λ k. ground arith)

    run_from-answered :
        (ev : Evaluation) (r : PaymentResult)
        → ev.proceed ≡ true
        → ports.partner_port.initiate_payment a.calls i ≡ ok r
        → Paid (ok ev) (run_from (ok ev)).1
    unfolding answered conclude mark
    run_from-answered ev r h p =
        let b : Agent = record a {
          window = add ctx.request_cost a.window;
          calls = a.calls ++ Call.initiate_payment i ∷ [];
        } in
        let e =
          emit_lem sink mask ctx accepts ev ev.action_taken true ev.compliance_result
            ev.reasoning_summary b in
        (
          ground (arith, e),
          λ k.
              ground
                (arith, e, has_seen-mark_seen i.idempotency_key k (some (payment r)) a.idempotency),
        )

    run_from-Paid : (e : Result Evaluation) → Paid e (run_from e).1
    run_from-Paid (raised x) = (refl, λ k. refl)
    run_from-Paid (ok ev) = elim (Bool-cases ev.proceed) [
      | inr h ↦ run_from-halted ev h
      | inl h ↦ elim (Result-cases (ports.partner_port.initiate_payment a.calls i)) [
        | inl (r, p) ↦ run_from-answered ev r h p
        | inr (x, p) ↦ run_from-raised ev x h p
      ]
    ]

    payment_run-Paid : Paid (evaluate mask a.window ctx) payment_run.1
    payment_run-Paid =
        rw
          (run_action_lem sink mask ctx (Call.initiate_payment i)
            (λ calls. map_result payment (ports.partner_port.initiate_payment calls i)) a)
          (run_from-Paid (evaluate mask a.window ctx))

  payments-append :
      (k : String) (before xs ys : List Call)
      → payments k before (xs ++ ys) ≡ payments k before xs + payments k (before ++ xs) ys
  unfolding payments
  payments-append k before [] ys = rw append-nil (omega arith)
  payments-append k before (x ∷ xs) ys =
      simp (payments-append k (before ++ x ∷ []) xs ys, append_assoc) (omega arith)

  payments-snoc :
      (k : String) (cs : List Call) (c : Call)
      → payments k [] (cs ++ c ∷ []) ≡ payments k [] cs + pays k cs c
  payments-snoc k cs c = rw payments-append (unfold payments in omega arith)

  module _ (accepts : Accepts sink) where
    Paid-PaidOnce :
        (ctx : ActionContext) (i : PaymentInstruction) (a b : Agent) (e : Result Evaluation)
        → has_seen i.idempotency_key a.idempotency ≡ false
        → Paid ctx i accepts a e b
        → PaidOnce a
        → PaidOnce b
    Paid-PaidOnce ctx i a b e new p h k = ground (
      arith,
      p.1 k,
      h k,
      payments-snoc k a.calls (Call.initiate_payment i),
      eq_iff i.idempotency_key k,
    )

    replay-PaidOnce :
        (ctx : ActionContext) (key : String) (a : Agent)
        → PaidOnce a
        → PaidOnce (suppress_duplicate sink mask ctx key a).1
    unfolding suppress_duplicate emit
    replay-PaidOnce ctx key a h k = ground (arith, h k)

    pay-PaidOnce :
        (intent : PaymentIntent) (x : Decimal) (c : ComplianceResult) (by : Option String)
        (a : Agent)
        → PaidOnce a
        → PaidOnce (pay sink mask ports intent x c by a).1
    unfolding pay
    pay-PaidOnce intent x c by a h =
        elim (Bool-cases (has_seen intent.instruction.idempotency_key a.idempotency)) [
          | inl seen ↦ rw seen (
              replay-PaidOnce (payment_context intent x c by) intent.instruction.idempotency_key a
                h)
          | inr new ↦ rw new (
              Paid-PaidOnce (payment_context intent x c by) intent.instruction a
                (payment_run (payment_context intent x c by) intent.instruction accepts a).1
                (evaluate mask a.window (payment_context intent x c by)) new
                (payment_run-Paid (payment_context intent x c by) intent.instruction accepts a) h)
        ]

    initiate_payment-PaidOnce :
        (intent : PaymentIntent) (c : ComplianceResult) (by : Option String) (a : Agent)
        → PaidOnce a
        → PaidOnce (initiate_payment sink mask ports intent c by a).1
    unfolding initiate_payment
    initiate_payment-PaidOnce intent c by a h =
        elim (Option-cases (decimal intent.instruction.amount)) [
          | inl e ↦ rw (e, initiate_payment) h
          | inr (x, e) ↦ rw (e, initiate_payment) (pay-PaidOnce intent x c by a h)
        ]

    -- If the recorder persists every record, then submissions one after the other, in any number
    -- and with any answers of the partner, keep the keys marked and the keys paid the same, and no
    -- key is paid twice.
    pub serve-PaidOnce : (qs : List Request) (a : Agent) → PaidOnce a → PaidOnce (serve qs a)
    unfolding serve
    serve-PaidOnce [] a h = h
    serve-PaidOnce (q ∷ qs) a h =
        serve-PaidOnce qs _ (initiate_payment-PaidOnce q.intent q.compliance q.reviewed_by a h)
