-- ===== src/Wallet/Interleaving/Sequential.antt =====
-- A request of the Wallet agent that is answered before the next comes.
use banxe_payment_core.Prelude.{◌≡◌, refl, Bool-cases, inl, inr, [], ◌∷◌, pick}
use banxe_payment_core.Exec.{Result, ok, raised}
use banxe_payment_core.Lineage.{Sink}
use banxe_payment_core.Wallet.Types.{WalletMask, ActionContext, Evaluation, Reply, Agent}
use banxe_payment_core.Wallet.Gates.{evaluate}
use banxe_payment_core.Wallet.Actions.{Port}
use banxe_payment_core.Wallet.Actions.Effects.{started, begin_lem, stepped, run_action_lem}
use banxe_payment_core.Wallet.Actions.Requests
use banxe_payment_core.Wallet.Actions.Requests.{Request, context, call, perform, perform_lem}
use banxe_payment_core.Wallet.Interleaving.{idle, submit, answer, launched, launch, land, step, run}

module _ (sink : Sink) (mask : WalletMask) (port : Port) (q : Request) (a : Agent) where
  abbrev reply : Result Reply
  reply = Requests.answer port q a.calls

  answered_from :
      (ctx : ActionContext) (e : Result Evaluation)
      → (step sink mask
          (answer 0 reply)
          (launched sink mask ctx (call q) (started sink mask ctx e a) (idle a))).agent
        ≡ (stepped sink mask ctx (call q) (Requests.answer port q) a e).1
  unfolding step land pick
  answered_from ctx (raised e) = refl
  answered_from ctx (ok ev) = elim (Bool-cases ev.proceed) [
    | inl h ↦ simp h refl
    | inr h ↦ simp h refl
  ]

  -- With nothing in flight, a request that the wallet answers at once leaves the agent as the
  -- method called for it does.
  request_then_answer :
      (run sink mask (submit q ∷ answer 0 reply ∷ []) (idle a)).agent
      ≡ (perform sink mask port q a).1
  unfolding run step launch
  request_then_answer =
      rw
        (
          perform_lem sink mask port q a,
          run_action_lem sink mask (context mask q) (call q) (Requests.answer port q) a,
          begin_lem sink mask (context mask q) a,
        )
        (answered_from (context mask q) (evaluate mask a.window (context mask q)))
