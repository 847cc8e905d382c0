-- ===== src/Payments/Interleaving/Drained.antt =====
-- Every payment in flight comes to its end when it is answered, and what is then used.
use banxe_payment_core.Prelude.{
  ℕ, suc, ◌+◌, ◌<◌, ◌≡◌, refl, sym, ap, ◌∙◌, Option, none, some, List, [], ◌∷◌, ◌++◌, arith, length,
  pick, Shorter, pick-Shorter, empty_of, answers, InTurn, replay-answers,
}
use banxe_payment_core.Exec.{partner, Result, ok, raised}
use banxe_payment_core.Ports.{PaymentResult}
use banxe_payment_core.Lineage.{CostWindow, RequestCost, Sink}
use banxe_payment_core.Lineage.Window.Accounts.{Balanced, Uses, Balanced-Uses, onto, onto-append}
use banxe_payment_core.Payments.Types.{PaymentsMask}
use banxe_payment_core.Payments.Interleaving.{Flight, Pool, Event, land, landed, step, run}
use banxe_payment_core.Payments.Interleaving.Budget.{book, run-Balanced}

-- What an answer leaves charged: the cost of the payment it answers, unless it is a
-- PartnerPortError.
abbrev pub charge : Option (Flight × List Flight) → Result PaymentResult → List RequestCost
charge none r = []
charge (some (f, fs)) (raised (partner k m)) = []
charge (some (f, fs)) r = f.context.request_cost ∷ []

abbrev pub others : Option (Flight × List Flight) → List Flight → List Flight
others none fs = fs
others (some (f, rest)) fs = rest

-- The costs that answers to payments in flight leave charged, one after the other.
unfoldable pub charges : List (ℕ × Result PaymentResult) → List Flight → List RequestCost
charges [] fs = []
charges ((n, r) ∷ rs) fs =
    let rest = charges rs (others (pick n fs) fs) in charge (pick n fs) r ++ rest

module _ (sink : Sink) (mask : PaymentsMask) where
  landed-Shorter :
      (o : Option (Flight × List Flight)) (r : Result PaymentResult) (p : Pool) (k : ℕ)
      → Shorter k o
      → k ≡ suc (length (landed sink mask o r p).flights)
  unfolding land
  landed-Shorter none r p k h = elim h [ ]
  landed-Shorter (some (f, fs)) r p k h = h

  answer-shorter :
      (n : ℕ) (r : Result PaymentResult) (p : Pool)
      → n < length p.flights
      → length p.flights ≡ suc (length (step sink mask (Event.answer n r) p).flights)
  unfolding step
  answer-shorter n r p h =
      landed-Shorter (pick n p.flights) r p (length p.flights) (pick-Shorter n p.flights h)

  left :
      (rs : List (ℕ × Result PaymentResult)) (p : Pool)
      → InTurn (length p.flights) rs
      → length (run sink mask (answers Event.answer rs) p).flights + length rs ≡ length p.flights
  unfolding run
  left rs p h =
      replay-answers Event.answer (step sink mask) (λ s. length s.flights) answer-shorter rs p
        (length p.flights) refl h

  landed-charge :
      (o : Option (Flight × List Flight)) (r : Result PaymentResult) (p : Pool)
      → ((landed sink mask o r p).kept ≡ onto (charge o r) p.kept)
        × ((landed sink mask o r p).flights ≡ others o p.flights)
  unfolding land
  landed-charge none r p = (refl, refl)
  landed-charge (some (f, fs)) (ok r) p = (refl, refl)
  landed-charge (some (f, fs)) (raised e) p = (ground arith, refl)

  run-charges :
      (rs : List (ℕ × Result PaymentResult)) (p : Pool)
      → (run sink mask (answers Event.answer rs) p).kept ≡ onto (charges rs p.flights) p.kept
  unfolding run charges step
  run-charges [] p = refl
  run-charges ((n, r) ∷ rs) p =
      let o = pick n p.flights in
      let h = landed-charge o r p in
      run-charges rs (landed sink mask o r p)
      ∙ ap (λ fs. onto (charges rs fs) (landed sink mask o r p).kept) h.1
      ∙ ap (onto (charges rs (others o p.flights))) h.0
      ∙ sym (onto-append (charge o r) (charges rs (others o p.flights)) p.kept)

  -- If the payments in flight are answered, in whatever order and with whatever answers, one answer
  -- for each, and what is used of the window is accounted for at first, then none is left in flight,
  -- and what is used is what was used at first, with the costs kept earlier and the cost of each
  -- payment whose answer is no PartnerPortError: a result, or an exception of another class.
  pub run-Drained :
      (w : CostWindow) (rs : List (ℕ × Result PaymentResult)) (p : Pool)
      → Balanced w (book p)
      → InTurn (length p.flights) rs
      → length rs ≡ length p.flights
      → let q = run sink mask (answers Event.answer rs) p in
        (q.flights ≡ []) × Uses w (onto (charges rs p.flights) p.kept) q.agent.window
  run-Drained w rs p h t e =
      let q = run sink mask (answers Event.answer rs) p in
      let none_left : q.flights ≡ [] = empty_of q.flights (omega (arith, e, left rs p t)) in
      let b : Balanced w (book q) = run-Balanced sink mask w (answers Event.answer rs) p h in
      (none_left, Balanced-Uses w (book q) _ (rw none_left refl) (run-charges rs p) b)
