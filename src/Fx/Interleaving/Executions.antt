-- ===== src/Fx/Interleaving/Executions.antt =====
-- How often the orders of an id are executed, when orders of the FX agent overlap; and what the
-- placing of an order changes in that.
use banxe_payment_core.Prelude.{
  ℕ, String, ◌+◌, ◌≤◌, ◌≡◌, refl, if◌then◌else◌, ◌==◌, string_comparable, Option, none, some, List,
  [], ◌∷◌, arith, pick, total, total-append, lookup,
}
use text.Mathlib.TextEquality.{eq_iff}
use banxe_payment_core.Exec.{Result, ok, raised}
use banxe_payment_core.Python.{decimal}
use banxe_payment_core.Ports.{OrderResult, SignedTx}
use banxe_payment_core.Lineage.{AgentOutcome, Decimal, Sink}
use banxe_payment_core.Fx.Types.{
  FxExchangeMask, OrderIntent, ActionContext, Evaluation, Reply, Agent,
}
use banxe_payment_core.Fx.Gates.{evaluate}
use banxe_payment_core.Fx.Actions.{emit, conclude, begin}
use banxe_payment_core.Fx.Actions.Effects.{started, begin_lem}
use banxe_payment_core.Fx.Interleaving.{
  Placement, Flight, exchanging, signing, Pool, Event, submit, exchange_answers, wallet_answers,
  launched, launch, priced, unless_kept, step,
}
use banxe_payment_core.Fx.Interleaving.Races.{context_of, id_of}

abbrev pub has_id : String → OrderIntent → ℕ
has_id k i = if i.order.client_order_id == k then 1 else 0

abbrev pub sought : String → Flight → ℕ
sought k (exchanging ctx ev i) = has_id k i
sought k (signing ctx ev i reply) = has_id k i

-- The order was executed and waits for the wallet.
abbrev pub unsigned : String → Flight → ℕ
unsigned k (exchanging ctx ev i) = 0
unsigned k (signing ctx ev i reply) = has_id k i

-- How many orders in flight have the id, and how many of these were executed.
abbrev pub in_flight : String → List Flight → ℕ
in_flight k = total (sought k)

abbrev pub executed : String → List Flight → ℕ
executed k = total (unsigned k)

abbrev one_if {ℓ} : {A : Type ℓ} → Option A → ℕ
one_if none = 0
one_if (some x) = 1

-- 1 if an outcome is kept under the id, and 0 if not.
abbrev pub listed : String → Agent → ℕ
listed k a = one_if (lookup k a.placed)

-- No id is in flight twice, and none with an outcome that is kept is in flight.
abbrev pub Fresh : Pool → Type 0
Fresh p = (k : String) → in_flight k p.flights + listed k p.agent ≤ 1

-- The exchange executes an order of the id that waits for it.
abbrev pub made : String → Option (Flight × List Flight) → Result OrderResult → ℕ
made k (some (exchanging ctx ev i, fs)) (ok r) = has_id k i
made k _ _ = 0

abbrev pub bought : String → Event → Pool → ℕ
bought k (exchange_answers n r) p = made k (pick n p.flights) r
bought k _ p = 0

-- The wallet returns, and does not raise.
abbrev pub Signed : Result SignedTx → Type 0
Signed (ok tx) = Unit
Signed (raised e) = ⊥

-- An order of an id that is not in flight, or an answer that is no exception of the wallet.
abbrev pub Apart : Event → Pool → Type 0
Apart (submit q) p = in_flight (id_of q) p.flights ≡ 0
Apart (exchange_answers n r) p = Unit
Apart (wallet_answers n t) p = Signed t

-- The orders of the id that were executed and that the agent knows of.
abbrev pub known : String → Pool → ℕ
known k p = executed k p.flights + listed k p.agent

-- What an event leaves, if it executes orders as often as `n` says.
abbrev pub Kept : (String → ℕ) → Pool → Pool → Type 0
Kept n p q = Fresh q × ((k : String) → known k p + n k ≡ known k q)

module _ (sink : Sink) (mask : FxExchangeMask) where
  -- How often an order of the id is executed in the course of the events.
  unfoldable pub executions_of : String → List Event → Pool → ℕ
  executions_of k [] p = 0
  executions_of k (e ∷ es) p = bought k e p + executions_of k es (step sink mask e p)

  abbrev pub AllApart : List Event → Pool → Type 0
  AllApart [] p = Unit
  AllApart (e ∷ es) p = Apart e p × AllApart es (step sink mask e p)

  launched-placed :
      (ctx : ActionContext) (i : OrderIntent) (e : Result Evaluation) (p : Pool)
      → (launched sink mask ctx i (started sink mask ctx e p.agent) p).agent.placed ≡ p.agent.placed
  unfolding conclude emit
  launched-placed ctx i (raised x) p = refl
  launched-placed ctx i (ok ev) p = ground arith

  launched-flights :
      (ctx : ActionContext) (i : OrderIntent) (e : Result Evaluation) (p : Pool) (k : String)
      → let q = launched sink mask ctx i (started sink mask ctx e p.agent) p in
        (in_flight k q.flights ≤ in_flight k p.flights + has_id k i)
        × (executed k q.flights ≡ executed k p.flights)
  launched-flights ctx i (raised x) p k = (omega arith, refl)
  launched-flights ctx i (ok ev) p k =
      let f = exchanging ctx ev i ∷ [] in
      ground (arith, total-append (sought k) p.flights f, total-append (unsigned k) p.flights f)

  launched-Kept :
      (q : Placement) (x : Decimal) (p : Pool)
      → lookup (id_of q) p.agent.placed ≡ none
      → in_flight (id_of q) p.flights ≡ 0
      → Fresh p
      → Kept
          (λ k. 0)
          p
          (launched sink mask
            (context_of q x)
            q.intent
            (begin sink mask (context_of q x) p.agent)
            p)
  launched-Kept q x p new apart h =
      let ctx = context_of q x in
      let e = evaluate mask p.agent.window ctx in
      rw (begin_lem sink mask ctx p.agent) (
        λ k. ground (
          arith,
          h k,
          launched-placed ctx q.intent e p,
          launched-flights ctx q.intent e p k,
          eq_iff (id_of q) k,
        ),
        λ k.
            rw (launched-placed ctx q.intent e p, (launched-flights ctx q.intent e p k).1)
              (omega arith),
      )

  priced-Kept :
      (q : Placement) (x : Option Decimal) (p : Pool)
      → lookup (id_of q) p.agent.placed ≡ none
      → in_flight (id_of q) p.flights ≡ 0
      → Fresh p
      → Kept (λ k. 0) p (priced sink mask q x p)
  unfolding launch
  priced-Kept q none p e apart h = (h, λ k. omega arith)
  priced-Kept q (some x) p e apart h = launched-Kept q x p e apart h

  pub unless_kept-Kept :
      (q : Placement) (o : Option (AgentOutcome Reply)) (p : Pool)
      → lookup (id_of q) p.agent.placed ≡ o
      → in_flight (id_of q) p.flights ≡ 0
      → Fresh p
      → Kept (λ k. 0) p (unless_kept sink mask q o p)
  unless_kept-Kept q (some o) p e apart h = (h, λ k. omega arith)
  unless_kept-Kept q none p e apart h = priced-Kept q (decimal q.intent.order.amount) p e apart h
