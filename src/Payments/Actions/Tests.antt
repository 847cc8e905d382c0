-- ===== src/Payments/Actions/Tests.antt =====
-- A payment that is made and not recorded, at a concrete input.
use banxe_payment_core.Prelude.{◌≡◌, refl, pos, false, none, some, [], ◌∷◌, lookup, contains}
use banxe_payment_core.Exec.{raised, other}
use banxe_payment_core.Lineage.{pass, Sink, has_seen}
use banxe_payment_core.Payments.Types.{Call}
use banxe_payment_core.Payments.Gates.Permission.{Permitted}
use banxe_payment_core.Payments.Actions.{initiate_payment}
use banxe_payment_core.Payments.Actions.Unrecorded.{Refuses, initiate_payment-unrecorded}
use banxe_payment_core.Payments.Tests.{
  mask, sink, ports, intent, instruction, request, agent, ctx, partner_result, amount, permitted,
}

-- A recorder that is down.
abbrev down : Sink
down = record sink { reject = λ rs r. some (other "RecorderDown" "") }

down-Refuses : Refuses down (other "RecorderDown" "")
down-Refuses rs r = refl

initiate_payment-unrecorded_example :
    let (t, b) = initiate_payment down mask ports intent pass none agent in
    (t ≡ raised (other "RecorderDown" ""))
    × (has_seen instruction.idempotency_key b.idempotency ≡ false)
    × (Permitted mask b.window ctx
        → (initiate_payment down mask ports intent pass none b).1.calls
          ≡ Call.initiate_payment instruction ∷ Call.initiate_payment instruction ∷ [])
unfolding has_seen contains lookup
initiate_payment-unrecorded_example =
    initiate_payment-unrecorded down mask ports request (pos 100500000000000000000) agent
      partner_result (other "RecorderDown" "") amount refl permitted refl down-Refuses
