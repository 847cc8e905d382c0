-- ===== src/Wallet/Interleaving/Drained.antt =====
-- Every request in flight comes to its end when it is answered, and what is then used.
use banxe_payment_core.Prelude.{
  ℕ, suc, ◌+◌, ◌<◌, ◌≡◌, refl, Option, none, some, List, [], arith, length, pick, Shorter,
  pick-Shorter, empty_of, answers, InTurn, replay-answers,
}
use banxe_payment_core.Exec.{Result}
use banxe_payment_core.Lineage.{CostWindow, Sink}
use banxe_payment_core.Lineage.Window.Desk.{replay-Balanced}
use banxe_payment_core.Lineage.Window.Accounts.{Balanced, Uses, Balanced-Uses}
use banxe_payment_core.Wallet.Types.{WalletMask, Reply}
use banxe_payment_core.Wallet.Interleaving.{Flight, Pool, Event, land, landed, step, run}
use banxe_payment_core.Wallet.Interleaving.Budget.{book, desk}

module _ (sink : Sink) (mask : WalletMask) where
  landed-Shorter :
      (o : Option (Flight × List Flight)) (r : Result Reply) (p : Pool) (k : ℕ)
      → Shorter k o
      → k ≡ suc (length (landed sink mask o r p).flights)
  unfolding land
  landed-Shorter none r p k h = elim h [ ]
  landed-Shorter (some (f, fs)) r p k h = h

  answer-shorter :
      (n : ℕ) (r : Result Reply) (p : Pool)
      → n < length p.flights
      → length p.flights ≡ suc (length (step sink mask (Event.answer n r) p).flights)
  unfolding step
  answer-shorter n r p h =
      landed-Shorter (pick n p.flights) r p (length p.flights) (pick-Shorter n p.flights h)

  left :
      (rs : List (ℕ × Result Reply)) (p : Pool)
      → InTurn (length p.flights) rs
      → length (run sink mask (answers Event.answer rs) p).flights + length rs ≡ length p.flights
  unfolding run
  left rs p h =
      replay-answers Event.answer (step sink mask) (λ s. length s.flights) answer-shorter rs p
        (length p.flights) refl h

  -- If the requests in flight are answered, in whatever order and with whatever answers, one answer
  -- for each, and what is used of the window is accounted for at first, then none is left in flight,
  -- and what is used is what was used at first, with the costs that are kept.
  run-Settled :
      (w : CostWindow) (rs : List (ℕ × Result Reply)) (p : Pool)
      → Balanced w (book p)
      → InTurn (length p.flights) rs
      → length rs ≡ length p.flights
      → let q = run sink mask (answers Event.answer rs) p in
        (q.flights ≡ []) × Uses w q.kept q.agent.window
  run-Settled w rs p h t e =
      let q = run sink mask (answers Event.answer rs) p in
      let none_left : q.flights ≡ [] = empty_of q.flights (omega (arith, e, left rs p t)) in
      let b : Balanced w (book q) =
        unfold run in
        unfold desk in replay-Balanced (desk sink mask) w (answers Event.answer rs) p h in
      (none_left, Balanced-Uses w (book q) q.kept (rw none_left refl) refl b)
