-- ===== src/Payments/Interleaving/Collision.antt =====
-- What the interleavings of Payments add to the sequential runs: nothing when a payment is answered
-- before the next is submitted, and a second payment of one key when it is not.
use banxe_payment_core.Prelude.{
  String, ◌≡◌, true, false, some, [], ◌∷◌, ◌++◌, arith, refl, pick, Bool-cases, Option-cases, inl,
  inr,
}
use mathlib.Core.List.{append_assoc}
use banxe_payment_core.Exec.{map_result, Result, ok, raised, continue}
use banxe_payment_core.Python.{decimal}
use banxe_payment_core.Ports.{PaymentResult}
use banxe_payment_core.Lineage.{Decimal, Sink, add, has_seen}
use banxe_payment_core.Payments.Types.{
  PaymentsMask, ActionContext, Evaluation, Call, Agent, payment,
}
use banxe_payment_core.Payments.Gates.{evaluate}
use banxe_payment_core.Payments.Gates.Permission.{Permitted, proceeds, evaluate_iff}
use banxe_payment_core.Payments.Actions.{
  Ports, payment_context, pay, initiate_payment, conclude, mark, emit,
}
use banxe_payment_core.Payments.Actions.Effects.{started, begin_lem, stepped, run_action_lem}
use banxe_payment_core.Payments.Actions.Replay.{Request}
use banxe_payment_core.Payments.Interleaving.{
  Pool, submit, answer, launched, launch, land, step, run,
}

abbrev pub context_of : Request → Decimal → ActionContext
context_of q x = payment_context q.intent x q.compliance q.reviewed_by

abbrev pub key_of : Request → String
key_of q = q.intent.instruction.idempotency_key

module _ (sink : Sink) (mask : PaymentsMask) (q : Request) (x : Decimal) where
  launched-agent :
      (p : Pool) (e : Result Evaluation)
      → proceeds e ≡ true
      → (launched sink mask
          (context_of q x)
          q.intent.instruction
          (started sink mask (context_of q x) e p.agent)
          p).agent
        ≡ record p.agent {
          window = add q.intent.request_cost p.agent.window;
          calls = p.agent.calls ++ Call.initiate_payment q.intent.instruction ∷ [];
        }
  unfolding payment_context
  launched-agent p (ok ev) h = ground arith
  launched-agent p (raised e) h = cc

  -- The step of a new permitted payment: its cost is reserved and its call made.
  submit-Permitted :
      (p : Pool)
      → decimal q.intent.instruction.amount ≡ some x
      → has_seen (key_of q) p.agent.idempotency ≡ false
      → Permitted mask p.agent.window (context_of q x)
      → (step sink mask (submit q) p).agent ≡ record p.agent {
        window = add q.intent.request_cost p.agent.window;
        calls = p.agent.calls ++ Call.initiate_payment q.intent.instruction ∷ [];
      }
  unfolding step launch
  submit-Permitted p d new h =
      rw (d, step, new, begin_lem sink mask (context_of q x) p.agent)
        (launched-agent p (evaluate mask p.agent.window (context_of q x))
          ((evaluate_iff mask p.agent.window (context_of q x)).1 h))

  -- Two submissions of one new payment, both before its answer, and both permitted when they come:
  -- the partner is called twice with it.
  pub double_submission :
      (p : Pool)
      → decimal q.intent.instruction.amount ≡ some x
      → has_seen (key_of q) p.agent.idempotency ≡ false
      → Permitted mask p.agent.window (context_of q x)
      → Permitted mask (add q.intent.request_cost p.agent.window) (context_of q x)
      → let c = Call.initiate_payment q.intent.instruction in
        (run sink mask (submit q ∷ submit q ∷ []) p).agent.calls ≡ p.agent.calls ++ c ∷ c ∷ []
  unfolding run
  double_submission p d new h h' =
      let p' = step sink mask (submit q) p in
      let e = submit-Permitted p d new h in
      let new' : has_seen (key_of q) p'.agent.idempotency ≡ false = rw e new in
      let h'' : Permitted mask p'.agent.window (context_of q x) = rw e h' in
      rw (submit-Permitted p' d new' h'', e, append_assoc)

-- An agent with no payment in flight.
abbrev pub idle : Agent → Pool
idle a = record { agent = a; flights = []; kept = [] }

module _ (sink : Sink) (mask : PaymentsMask) (ports : Ports) (q : Request) (a : Agent) where
  abbrev reply : Result PaymentResult
  reply = ports.partner_port.initiate_payment a.calls q.intent.instruction

  answered_from :
      (ctx : ActionContext) (e : Result Evaluation)
      → (step sink mask
          (answer 0 reply)
          (launched sink mask ctx q.intent.instruction (started sink mask ctx e a) (idle a))).agent
        ≡ (continue
            (stepped sink mask ctx
              (Call.initiate_payment q.intent.instruction)
              (λ calls.
                map_result payment (ports.partner_port.initiate_payment calls q.intent.instruction))
              a
              e)
            (mark (key_of q))).1
  unfolding step land pick conclude mark emit
  answered_from ctx (raised e) = refl
  answered_from ctx (ok ev) = elim (Bool-cases ev.proceed) [
    | inl h ↦ simp h
    | inr h ↦ ground (arith, h)
  ]

  -- The gate for replays comes first on both sides.
  answered_pay :
      (x : Decimal)
      → (step sink mask (answer 0 reply) (launch sink mask q x (idle a))).agent
        ≡ (pay sink mask ports q.intent x q.compliance q.reviewed_by a).1
  unfolding launch pay
  answered_pay x = elim (Bool-cases (has_seen (key_of q) a.idempotency)) [
    | inl seen ↦ rw (seen, launch, pay) (unfold step pick in refl)
    | inr new ↦
        rw
          (
            new,
            launch,
            pay,
            begin_lem sink mask (context_of q x) a,
            run_action_lem sink mask (context_of q x) (Call.initiate_payment q.intent.instruction)
                (λ calls.
                  map_result payment
                    (ports.partner_port.initiate_payment calls q.intent.instruction))
                a,
          )
          (answered_from (context_of q x) (evaluate mask a.window (context_of q x)))
  ]

  -- A payment that is answered before anything else happens is `initiate_payment`.
  submit_then_answer :
      (run sink mask (submit q ∷ answer 0 reply ∷ []) (idle a)).agent
      ≡ (initiate_payment sink mask ports q.intent q.compliance q.reviewed_by a).1
  unfolding run initiate_payment step pick
  submit_then_answer = elim (Option-cases (decimal q.intent.instruction.amount)) [
    | inl e ↦ rw (e, initiate_payment)
    | inr (x, e) ↦ rw (e, initiate_payment) (answered_pay x)
  ]
