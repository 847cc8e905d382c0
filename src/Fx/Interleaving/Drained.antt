-- ===== src/Fx/Interleaving/Drained.antt =====
-- Every order in flight on the FX agent comes to its end after at most two answers, and what is then
-- used.
use banxe_payment_core.Prelude.{
  ℕ, zero, suc, ◌+◌, ◌≤◌, ◌<◌, ◌≡◌, refl, sym, ap, ◌∙◌, Option, none, some, List, [], ◌∷◌, ◌++◌,
  arith, pick, total, total-append,
}
use mathlib.Core.List.{append_assoc, append-nil}
use banxe_payment_core.Exec.{exchange, Result, ok, raised}
use banxe_payment_core.Ports.{OrderResult, SignedTx}
use banxe_payment_core.Lineage.{RequestCost, CostWindow, Sink}
use banxe_payment_core.Lineage.Window.Reservations.{total-Takes, Taken, pick-Taken}
use banxe_payment_core.Lineage.Window.Desk.{replay-Balanced}
use banxe_payment_core.Lineage.Window.Accounts.{Balanced, Uses, Balanced-Uses, onto}
use banxe_payment_core.Fx.Types.{
  FxExchangeMask, OrderIntent, SettlementInstruction, ActionContext, Evaluation, Reply, Agent,
}
use banxe_payment_core.Fx.Actions.{leg}
use banxe_payment_core.Fx.Interleaving.{
  Flight, exchanging, signing, Pool, Event, submit, exchange_answers, wallet_answers, filled,
  exchanged, land, settle, landed, paid, step,
}
use banxe_payment_core.Fx.Interleaving.Budget.{book, desk}

-- The answers that an order in flight can still need: the exchange's and then the wallet's.
abbrev pub wait : Flight → ℕ
wait (exchanging ctx ev i) = 2
wait (signing ctx ev i reply) = 1

abbrev pub waits : List Flight → ℕ
waits = total wait

-- The event answers an order in flight that waits for it.
abbrev pub FromExchange : Option (Flight × List Flight) → Type 0
FromExchange (some (exchanging ctx ev i, fs)) = Unit
FromExchange _ = ⊥

abbrev pub FromWallet : Option (Flight × List Flight) → Type 0
FromWallet (some (signing ctx ev i reply, fs)) = Unit
FromWallet _ = ⊥

abbrev pub Due : Event → List Flight → Type 0
Due (submit q) fs = ⊥
Due (exchange_answers n r) fs = FromExchange (pick n fs)
Due (wallet_answers n t) fs = FromWallet (pick n fs)

-- What the answer of the exchange leaves charged: the cost of the order, unless it is an
-- ExchangePortError. The cost of an order that waits for the wallet has been charged before.
abbrev pub charge : Flight → Result OrderResult → List RequestCost
charge (exchanging ctx ev i) (raised (exchange k m)) = []
charge (exchanging ctx ev i) r = ctx.request_cost ∷ []
charge (signing ctx ev i reply) r = []

module _ (ports : Flight → Result OrderResult × Result SignedTx) where
  -- The costs that the answers to the orders leave charged.
  abbrev pub charges : List Flight → List RequestCost
  charges [] = []
  charges (f ∷ fs) = charge f (ports f).0 ++ charges fs

  charges-append : (l r : List Flight) → charges (l ++ r) ≡ charges l ++ charges r
  charges-append [] r = refl
  charges-append (f ∷ l) r =
      ap (λ cs. charge f (ports f).0 ++ cs) (charges-append l r)
      ∙ sym (append_assoc (charge f (ports f).0) (charges l) (charges r))

module _ (sink : Sink) (mask : FxExchangeMask) where
  filled-waits :
      (ctx : ActionContext) (ev : Evaluation) (i : OrderIntent) (reply : Reply)
      (o : Option SettlementInstruction) (fs : List Flight) (a : Agent) (kept : List RequestCost)
      → waits (filled sink mask ctx ev i reply o fs a kept).flights ≤ 1 + waits fs
  filled-waits ctx ev i reply none fs a kept = omega arith
  filled-waits ctx ev i reply (some s) fs a kept =
      omega (arith, total-append wait fs (signing ctx ev i reply ∷ []))

  exchanged-waits :
      (ctx : ActionContext) (ev : Evaluation) (i : OrderIntent) (fs : List Flight)
      (r : Result OrderResult) (a : Agent) (kept : List RequestCost)
      → waits (exchanged sink mask ctx ev i fs r a kept).flights ≤ 1 + waits fs
  exchanged-waits ctx ev i fs (ok r) a kept =
      filled-waits ctx ev i (Reply.order r) (leg i.settlement (Reply.order r)) fs a kept
  exchanged-waits ctx ev i fs (raised e) a kept = omega arith

  landed-waits :
      (o : Option (Flight × List Flight)) (r : Result OrderResult) (p : Pool)
      → FromExchange o
      → Taken p.flights o
      → waits (landed sink mask o r p).flights < waits p.flights
  unfolding land
  landed-waits none r p d t = elim d [ ]
  landed-waits (some (signing ctx ev i reply, fs)) r p d t = elim d [ ]
  landed-waits (some (exchanging ctx ev i, fs)) r p d t =
      omega (arith, total-Takes wait t, exchanged-waits ctx ev i fs r p.agent _)

  paid-waits :
      (o : Option (Flight × List Flight)) (r : Result SignedTx) (p : Pool)
      → FromWallet o
      → Taken p.flights o
      → waits (paid sink mask o r p).flights < waits p.flights
  unfolding settle
  paid-waits none r p d t = elim d [ ]
  paid-waits (some (exchanging ctx ev i, fs)) r p d t = elim d [ ]
  paid-waits (some (signing ctx ev i reply, fs)) r p d t = omega (arith, total-Takes wait t)

  step-waits :
      (e : Event) (p : Pool)
      → Due e p.flights
      → waits (step sink mask e p).flights < waits p.flights
  unfolding step
  step-waits (submit q) p d = elim d [ ]
  step-waits (exchange_answers n r) p d =
      landed-waits (pick n p.flights) r p d (pick-Taken n p.flights)
  step-waits (wallet_answers n t) p d = paid-waits (pick n p.flights) t p d (pick-Taken n p.flights)

  -- The answer that an order in flight waits for, from what the ports answer to it; it is the
  -- first in flight.
  abbrev pub first_answer : Flight → Result OrderResult × Result SignedTx → Event
  first_answer (exchanging ctx ev i) (r, t) = exchange_answers 0 r
  first_answer (signing ctx ev i reply) (r, t) = wallet_answers 0 t

  first_answer-Due :
      (f : Flight) (fs : List Flight) (x : Result OrderResult × Result SignedTx)
      → Due (first_answer f x) (f ∷ fs)
  unfolding pick
  first_answer-Due (exchanging ctx ev i) fs (r, t) = tt
  first_answer-Due (signing ctx ev i reply) fs (r, t) = tt

  no_waits : (fs : List Flight) → waits fs ≡ 0 → fs ≡ []
  no_waits [] h = refl
  no_waits (exchanging ctx ev i ∷ fs) h = absurd (omega (arith, h))
  no_waits (signing ctx ev i reply ∷ fs) h = absurd (omega (arith, h))

  module _ (ports : Flight → Result OrderResult × Result SignedTx) where
    abbrev pub attended : List Flight → Pool → Pool
    attended [] p = p
    attended (f ∷ fs) p = step sink mask (first_answer f (ports f)) p

    -- `n` answers, each to the order that is the first in flight.
    unfoldable pub drain : ℕ → Pool → Pool
    drain zero p = p
    drain (suc n) p = drain n (attended p.flights p)

    attended-waits :
        (fs : List Flight) (p : Pool) (n : ℕ)
        → p.flights ≡ fs
        → waits fs ≤ suc n
        → waits (attended fs p).flights ≤ n
    attended-waits [] p n e h = rw e (omega arith)
    attended-waits (f ∷ fs) p n e h =
        let due : Due (first_answer f (ports f)) p.flights =
          simp e (first_answer-Due f fs (ports f)) in
        let fewer = step-waits (first_answer f (ports f)) p due in
        omega (arith, h, fewer, ap waits e)

    drained : (n : ℕ) (p : Pool) → waits p.flights ≤ n → (drain n p).flights ≡ []
    unfolding drain
    drained zero p h = no_waits p.flights (omega (arith, h))
    drained (suc n) p h = drained n (attended p.flights p) (attended-waits p.flights p n refl h)

    attended-Balanced :
        (w : CostWindow) (fs : List Flight) (p : Pool)
        → Balanced w (book p)
        → Balanced w (book (attended fs p))
    attended-Balanced w [] p h = h
    attended-Balanced w (f ∷ fs) p h =
        unfold desk in replay-Balanced (desk sink mask) w (first_answer f (ports f) ∷ []) p h

    drain-Balanced :
        (w : CostWindow) (n : ℕ) (p : Pool) → Balanced w (book p) → Balanced w (book (drain n p))
    unfolding drain
    drain-Balanced w zero p h = h
    drain-Balanced w (suc n) p h =
        drain-Balanced w n (attended p.flights p) (attended-Balanced w p.flights p h)

    filled-charges :
        (ctx : ActionContext) (ev : Evaluation) (i : OrderIntent) (reply : Reply)
        (o : Option SettlementInstruction) (fs : List Flight) (a : Agent) (kept : List RequestCost)
        → let q = filled sink mask ctx ev i reply o fs a kept in
          onto (charges ports q.flights) q.kept ≡ onto (charges ports fs) kept
    filled-charges ctx ev i reply none fs a kept = refl
    filled-charges ctx ev i reply (some s) fs a kept =
        ap (λ cs. onto cs kept)
          (charges-append ports fs (signing ctx ev i reply ∷ []) ∙ append-nil (charges ports fs))

    exchanged-charges :
        (ctx : ActionContext) (ev : Evaluation) (i : OrderIntent) (fs : List Flight)
        (r : Result OrderResult) (p : Pool)
        → let q = land sink mask (exchanging ctx ev i) fs r p in
          onto (charges ports q.flights) q.kept
          ≡ onto (charge (exchanging ctx ev i) r ++ charges ports fs) p.kept
    unfolding land
    exchanged-charges ctx ev i fs (ok r) p =
        filled-charges ctx ev i (Reply.order r) (leg i.settlement (Reply.order r)) fs p.agent
          (ctx.request_cost ∷ p.kept)
    exchanged-charges ctx ev i fs (raised e) p = ground arith

    -- An answer to the first order leaves the same costs kept and still to be charged.
    attended-charges :
        (fs : List Flight) (p : Pool)
        → p.flights ≡ fs
        → onto (charges ports (attended fs p).flights) (attended fs p).kept
          ≡ onto (charges ports fs) p.kept
    unfolding step pick
    attended-charges [] p e = ap (λ fs. onto (charges ports fs) p.kept) e
    attended-charges (exchanging ctx ev i ∷ fs) p e =
        simp e (exchanged-charges ctx ev i fs (ports (exchanging ctx ev i)).0 p)
    attended-charges (signing ctx ev i reply ∷ fs) p e = simp e (unfold settle in refl)

    drain-charges :
        (n : ℕ) (p : Pool)
        → waits p.flights ≤ n
        → (drain n p).kept ≡ onto (charges ports p.flights) p.kept
    unfolding drain
    drain-charges zero p h =
        ap (λ fs. onto (charges ports fs) p.kept) (sym (no_waits p.flights (omega (arith, h))))
    drain-charges (suc n) p h =
        drain-charges n (attended p.flights p) (attended-waits p.flights p n refl h)
        ∙ attended-charges p.flights p refl

    -- If the first order in flight is answered again and again, by the exchange or by the wallet as
    -- it waits for it and with any outcome, and what is used of the window is accounted for at
    -- first, then as many answers as can be needed leave none in flight, and what is used is what
    -- was used at first, with the costs kept earlier and the cost of each order that the exchange
    -- answers with no ExchangePortError: with a result, whatever the wallet does then, or with an
    -- exception of another class.
    pub drain-Settled :
        (w : CostWindow) (n : ℕ) (p : Pool)
        → Balanced w (book p)
        → waits p.flights ≤ n
        → let q = drain n p in
          (q.flights ≡ []) × Uses w (onto (charges ports p.flights) p.kept) q.agent.window
    drain-Settled w n p h k =
        let e = drained n p k in
        (
          e,
          Balanced-Uses w (book (drain n p)) _ (rw e refl) (drain-charges n p k)
              (drain-Balanced w n p h),
        )
