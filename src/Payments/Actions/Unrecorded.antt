-- ===== src/Payments/Actions/Unrecorded.antt =====
-- A payment that the partner has made and the recorder of src/agents/payments_agent.py refuses.
use banxe_payment_core.Prelude.{◌≡◌, ap, ◌∙◌, true, false, some, List, [], ◌∷◌, ◌++◌, arith, refl}
use mathlib.Core.List.{append_assoc}
use banxe_payment_core.Exec.{map_result, Exc, Result, ok, raised, continue}
use banxe_payment_core.Python.{decimal}
use banxe_payment_core.Ports.{PaymentResult}
use banxe_payment_core.Lineage.{
  Decimal, AgentDecisionRecord, AgentOutcome, Sink, add, has_seen, persist,
}
use banxe_payment_core.Payments.Types.{
  PaymentsMask, ActionContext, Evaluation, Reply, payment, Call, Agent,
}
use banxe_payment_core.Payments.Gates.{evaluate}
use banxe_payment_core.Payments.Gates.Permission.{Permitted, proceeds, evaluate_iff}
use banxe_payment_core.Payments.Actions.{
  Ports, lineage, emit, conclude, answered, payment_context, mark, pay, initiate_payment,
}
use banxe_payment_core.Payments.Actions.Effects.{stepped, run_action_lem}
use banxe_payment_core.Payments.Actions.Replay.{Request}

-- The recorder refuses every record with this exception.
abbrev pub Refuses : Sink → Exc → Type 0
Refuses sink e =
    (rs : List AgentDecisionRecord) (r : AgentDecisionRecord) → sink.reject rs r ≡ some e

module _ (sink : Sink) (mask : PaymentsMask) (ports : Ports) (q : Request) (x : Decimal) where
  abbrev ctx : ActionContext
  ctx = payment_context q.intent x q.compliance q.reviewed_by

  abbrev pub the_call : Call
  the_call = Call.initiate_payment q.intent.instruction

  -- `initiate_payment` of a payment that is no replay, by what the evaluation was.
  abbrev paying : Agent → Result Evaluation → Result (AgentOutcome Reply) × Agent
  paying a e =
      continue
        (stepped sink mask ctx the_call
          (λ calls.
            map_result payment (ports.partner_port.initiate_payment calls q.intent.instruction))
          a e)
        (mark q.intent.instruction.idempotency_key)

  paying_lem :
      (a : Agent)
      → decimal q.intent.instruction.amount ≡ some x
      → has_seen q.intent.instruction.idempotency_key a.idempotency ≡ false
      → initiate_payment sink mask ports q.intent q.compliance q.reviewed_by a
        ≡ paying a (evaluate mask a.window ctx)
  unfolding initiate_payment pay
  paying_lem a d new =
      rw
        (
          d,
          initiate_payment,
          new,
          pay,
          run_action_lem sink mask ctx the_call
              (λ calls.
                map_result payment (ports.partner_port.initiate_payment calls q.intent.instruction))
              a,
        )
        refl

  paying-calls :
      (a : Agent) (e : Result Evaluation)
      → proceeds e ≡ true
      → (paying a e).1.calls ≡ a.calls ++ the_call ∷ []
  unfolding answered conclude emit mark
  paying-calls a (ok ev) h = ground arith
  paying-calls a (raised e) h = cc

  conclude-refused :
      (ev : Evaluation) (r : Reply) (e : Exc) (b : Agent)
      → Refuses sink e
      → ((conclude sink mask ctx ev true (some r) b).0 ≡ raised e)
        × ((conclude sink mask ctx ev true (some r) b).1.idempotency ≡ b.idempotency)
  unfolding conclude emit persist
  conclude-refused ev r e b f = ground (
    arith,
    f b.journal.records
        (lineage sink mask ctx ev ev.action_taken true ev.compliance_result ev.reasoning_summary b),
  )

  paying-refused :
      (a : Agent) (v : Result Evaluation) (r : PaymentResult) (e : Exc)
      → proceeds v ≡ true
      → ports.partner_port.initiate_payment a.calls q.intent.instruction ≡ ok r
      → Refuses sink e
      → ((paying a v).0 ≡ raised e) × ((paying a v).1.idempotency ≡ a.idempotency)
  unfolding answered mark
  paying-refused a (ok ev) r e h p f =
      let b : Agent = record a {
        window = add ctx.request_cost a.window;
        calls = a.calls ++ the_call ∷ [];
      } in
      ground (arith, conclude-refused ev (payment r) e b f)
  paying-refused a (raised y) r e h p f = cc

  -- If the recorder refuses every record, a payment whose key is not marked is permitted, and the
  -- partner makes it, then `initiate_payment` raises the recorder's exception and leaves the key
  -- unmarked; if the payment, submitted again, is permitted again, the partner is called with it a
  -- second time.
  pub initiate_payment-unrecorded :
      (a : Agent) (r : PaymentResult) (e : Exc)
      → decimal q.intent.instruction.amount ≡ some x
      → has_seen q.intent.instruction.idempotency_key a.idempotency ≡ false
      → Permitted mask a.window ctx
      → ports.partner_port.initiate_payment a.calls q.intent.instruction ≡ ok r
      → Refuses sink e
      → let (t, b) = initiate_payment sink mask ports q.intent q.compliance q.reviewed_by a in
        (t ≡ raised e)
        × (has_seen q.intent.instruction.idempotency_key b.idempotency ≡ false)
        × (Permitted mask b.window ctx
            → (initiate_payment sink mask ports q.intent q.compliance q.reviewed_by b).1.calls
              ≡ a.calls ++ the_call ∷ the_call ∷ [])
  initiate_payment-unrecorded a r e d new may p f =
      let b = (initiate_payment sink mask ports q.intent q.compliance q.reviewed_by a).1 in
      let l = paying_lem a d new in
      let h = (evaluate_iff mask a.window ctx).1 may in
      let k = paying-refused a (evaluate mask a.window ctx) r e h p f in
      let unmarked =
        ap (λ z. has_seen q.intent.instruction.idempotency_key z.1.idempotency) l
        ∙ ap (has_seen q.intent.instruction.idempotency_key) k.1
        ∙ new in
      (
        ap (λ z. z.0) l ∙ k.0,
        unmarked,
        λ again.
            ap (λ z. z.1.calls) (paying_lem b d unmarked)
            ∙ paying-calls b (evaluate mask b.window ctx) ((evaluate_iff mask b.window ctx).1 again)
            ∙ ap (λ z. z.1.calls ++ the_call ∷ []) l
            ∙ ap (λ cs. cs ++ the_call ∷ []) (paying-calls a (evaluate mask a.window ctx) h)
            ∙ append_assoc a.calls (the_call ∷ []) (the_call ∷ []),
      )
