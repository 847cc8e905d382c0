-- ===== src/Payments/Interleaving/Tests.antt =====
-- Payments that overlap, at concrete inputs that meet the theorems.
use banxe_payment_core.Prelude.{
  ℕ, pos, ◌+ℤ◌, ◌+◌, ◌≤◌, ◌≡◌, refl, String, ◌==◌, true, false, string_comparable, List, [], ◌∷◌,
  arith, pick, lookup, contains, answers,
}
use mathlib.Core.Path.{subst}
use text.Mathlib.TextEquality.{eq_iff}
use banxe_payment_core.Exec.{partner, PartnerError, Result, ok, raised}
use banxe_payment_core.Ports.{PaymentResult}
use banxe_payment_core.Lineage.{has_seen}
use banxe_payment_core.Lineage.Window.Accounts.{Balanced, Uses, onto}
use banxe_payment_core.Payments.Tests.{
  mask, sink, agent, ctx, paid, instruction, partner_result, request, accepts, events,
}
use banxe_payment_core.Payments.Actions.{payment_context}
use banxe_payment_core.Payments.Interleaving.{Flight, Pool, Event, submit, answer, land, step, run}
use banxe_payment_core.Payments.Interleaving.Budget.{book, run-Balanced}
use banxe_payment_core.Payments.Interleaving.Collision.{idle}
use banxe_payment_core.Payments.Interleaving.Drained.{charges, run-Drained}
use banxe_payment_core.Payments.Interleaving.Marks.{marked, Fresh, AllApart, payments_of}
use banxe_payment_core.Payments.Interleaving.Once.{run-Once}

idle-Balanced : Balanced agent.window (book (idle agent))
unfolding ◌+ℤ◌ payment_context
idle-Balanced = record { tokens = refl; cost = refl }

run-Balanced_example : Balanced agent.window (book (run sink mask events (idle agent)))
run-Balanced_example = run-Balanced sink mask agent.window events (idle agent) idle-Balanced

abbrev flight : Flight
flight = record { context = ctx; evaluation = paid; instruction = instruction }

-- Two payments in flight, and their reservations.
abbrev pool : Pool
pool = record {
  agent = record agent {
    window = record agent.window { used_tokens = pos 80; used_cost = pos 40 };
  };
  flights =
      flight ∷ record flight { instruction = record instruction { idempotency_key = "k2" } } ∷ [];
  kept = [];
}

-- The second one is answered first; the first is refused.
abbrev replies : List (ℕ × Result PaymentResult)
replies =
    (1, ok partner_result) ∷ (0, raised (partner PartnerError.insufficient_funds "no cover")) ∷ []

pool-Balanced : Balanced agent.window (book pool)
unfolding ◌+ℤ◌ payment_context
pool-Balanced = record { tokens = refl; cost = refl }

run-Drained_example :
    let q = run sink mask (answers Event.answer replies) pool in
    (q.flights ≡ [])
    × Uses agent.window (onto (charges replies pool.flights) pool.kept) q.agent.window
run-Drained_example =
    run-Drained sink mask agent.window replies pool pool-Balanced (omega arith) refl

-- Only the second one's cost is used.
charges-replies : charges replies pool.flights ≡ ctx.request_cost ∷ []
unfolding charges pick
charges-replies = refl

-- Both are answered, and the first is submitted again.
abbrev again : List Event
again = answer 0 (ok partner_result) ∷ submit request ∷ answer 0 (ok partner_result) ∷ []

apart_keys : (k : String) → ("k1" == k) ≡ true → ("k2" == k) ≡ false
apart_keys k h = subst (λ j. ("k2" == j) ≡ false) ((eq_iff "k1" k).0 h) refl

pool-Fresh : Fresh pool
unfolding has_seen contains lookup
pool-Fresh k = ground (arith, apart_keys k)

again-AllApart : AllApart sink mask again pool
unfolding step land pick
again-AllApart = (tt, (refl, (tt, tt)))

run-Once_example :
    (payments_of sink mask "k1" again pool ≤ 1)
    × (marked "k1" pool + payments_of sink mask "k1" again pool
        ≡ marked "k1" (run sink mask again pool))
run-Once_example = run-Once sink mask accepts again pool pool-Fresh again-AllApart "k1"
