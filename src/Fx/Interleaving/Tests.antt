-- ===== src/Fx/Interleaving/Tests.antt =====
-- Orders that overlap, at concrete inputs that meet the theorems.
use banxe_payment_core.Prelude.{pos, ◌+ℤ◌, ◌+◌, ◌≤◌, ◌≡◌, refl, List, [], ◌∷◌, arith, pick, lookup}
use banxe_payment_core.Exec.{Result, ok, raised, other}
use banxe_payment_core.Ports.{OrderResult, SignedTx}
use banxe_payment_core.Lineage.Window.Reservations.{Moves}
use banxe_payment_core.Lineage.Window.Accounts.{NonNegative, Balanced, Uses, onto}
use banxe_payment_core.Fx.Tests.{
  accepts, mask, sink, agent, ctx, placed, intent, fill, signed, placement,
}
use banxe_payment_core.Fx.Contexts.{order_context}
use banxe_payment_core.Fx.Actions.{leg}
use banxe_payment_core.Fx.Interleaving.{
  Flight, exchanging, Pool, Event, idle, submit, exchange_answers, wallet_answers, land, settle,
  step, run,
}
use banxe_payment_core.Fx.Interleaving.Budget.{book, run-Moves}
use banxe_payment_core.Fx.Interleaving.Races.{id_of}
use banxe_payment_core.Fx.Interleaving.Executions.{Fresh, AllApart, executions_of, known}
use banxe_payment_core.Fx.Interleaving.Once.{run-ExecutedOnce}
use banxe_payment_core.Fx.Interleaving.Drained.{charges, drain, drain-Settled}

-- The same order placed twice, and then answered by the exchange and the wallet.
abbrev events : List Event
events =
    submit placement
    ∷ submit placement
    ∷ exchange_answers 1 (ok fill)
    ∷ wallet_answers 1 (raised (other "WalletError" "locked"))
    ∷ []

run-Moves_example :
    Moves NonNegative mask.cost_cap (book (idle agent)) (book (run sink mask events (idle agent)))
run-Moves_example = run-Moves sink mask NonNegative events (idle agent) (omega arith)

-- One order that waits for the exchange, and its reservation.
abbrev pool : Pool
pool = record {
  agent = record agent {
    window = record agent.window { used_tokens = pos 40; used_cost = pos 20 };
  };
  flights = exchanging ctx placed intent ∷ [];
  kept = [];
}

pool-Balanced : Balanced agent.window (book pool)
unfolding ◌+ℤ◌ order_context
pool-Balanced = record { tokens = refl; cost = refl }

abbrev ports : Flight → Result OrderResult × Result SignedTx
ports f = (ok fill, raised (other "WalletError" "locked"))

drain-Settled_example :
    let q = drain sink mask ports 2 pool in
    (q.flights ≡ [])
    × Uses agent.window (onto (charges ports pool.flights) pool.kept) q.agent.window
drain-Settled_example =
    drain-Settled sink mask ports agent.window 2 pool pool-Balanced (omega arith)

-- The order is filled and signed, and then placed again.
abbrev again : List Event
again = exchange_answers 0 (ok fill) ∷ wallet_answers 0 (ok signed) ∷ submit placement ∷ []

pool-Fresh : Fresh pool
unfolding lookup
pool-Fresh k = ground arith

again-AllApart : AllApart sink mask again pool
unfolding step land settle leg pick
again-AllApart = (tt, (tt, (refl, tt)))

run-ExecutedOnce_example :
    let k = id_of placement in
    (executions_of sink mask k again pool ≤ 1)
    × (known k pool + executions_of sink mask k again pool ≡ known k (run sink mask again pool))
run-ExecutedOnce_example =
    run-ExecutedOnce sink mask accepts again pool pool-Fresh again-AllApart (id_of placement)

-- It is executed once.
executions_of-again : executions_of sink mask (id_of placement) again pool ≡ 1
unfolding executions_of step land settle leg pick
executions_of-again = refl
