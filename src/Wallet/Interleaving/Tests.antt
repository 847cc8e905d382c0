-- ===== src/Wallet/Interleaving/Tests.antt =====
-- Requests that overlap, at a concrete input that meets the theorem.
use banxe_payment_core.Prelude.{◌+ℤ◌, refl, List, [], ◌∷◌, arith, All}
use banxe_payment_core.Exec.{ok, raised, other}
use banxe_payment_core.Lineage.Window.Accounts.{NonNegative}
use banxe_payment_core.Wallet.Types.{Reply}
use banxe_payment_core.Wallet.Contexts.{sensitive_ctx}
use banxe_payment_core.Wallet.Tests.{mask, sink, agent, request, other_request, signed_tx}
use banxe_payment_core.Wallet.Actions.Requests.{context}
use banxe_payment_core.Wallet.Interleaving.{Event, idle, submit, answer, run}
use banxe_payment_core.Wallet.Interleaving.Budget.{costs, Solvent, run-Solvent}

-- Two transactions are handed in; the second is signed, and the first refused.
abbrev events : List Event
events =
    submit request
    ∷ submit other_request
    ∷ answer 1 (ok (Reply.signed signed_tx))
    ∷ answer 0 (raised (other "WalletError" "locked"))
    ∷ []

events-NonNegative : All (λ e. All NonNegative (costs mask e)) events
unfolding context sensitive_ctx
events-NonNegative = omega arith

idle-Solvent : Solvent sink mask agent.window (idle agent)
unfolding ◌+ℤ◌
idle-Solvent = (record { within = omega arith; fair = tt }, record { tokens = refl; cost = refl })

run-Solvent_example : Solvent sink mask agent.window (run sink mask events (idle agent))
run-Solvent_example =
    run-Solvent sink mask agent.window events (idle agent) events-NonNegative idle-Solvent
