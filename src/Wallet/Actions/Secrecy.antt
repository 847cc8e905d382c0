-- ===== src/Wallet/Actions/Secrecy.antt =====
-- The secrets on the intents of src/agents/wallet_agent.py reach the wallet and nothing else.
use banxe_payment_core.Prelude.{
  String, Bool-cases, inl, inr, ◌≡◌, refl, sym, ap, ◌∙◌, Bool, true, Option, none, some, List, [],
  ◌∷◌, ◌++◌, arith,
}
use banxe_payment_core.Exec.{Result, ok, raised, type_name}
use banxe_payment_core.Lineage.{Sink, CostWindow, Journal}
use banxe_payment_core.Wallet.Types.{WalletMask, ActionContext, Evaluation, Reply, Call, Agent}
use banxe_payment_core.Wallet.Gates.{evaluate}
use banxe_payment_core.Wallet.Actions.{Port, lineage, emit, conclude, answered, run_action}
use banxe_payment_core.Wallet.Actions.Requests.{
  Request, validate, verify, derive, generate, to_entropy, sign, enc, dec, call, answer, context,
  perform, perform_lem,
}
use banxe_payment_core.Wallet.Actions.Effects.{launched, stepped, run_action_lem}

-- The request without the seeds, phrases, passwords, texts and payloads that are for the wallet.
unfoldable pub redact : Request → Request
redact (validate i c) = validate i c
redact (verify i c) = verify (record i { message = ""; signature = "" }) c
redact (derive i c) = derive (record i { seed = record { entropy = [] } }) c
redact (generate i c by) = generate i c by
redact (to_entropy i c by) = to_entropy (record i { phrase = "" }) c by
redact (sign i c by) = sign (record i { seed = record { entropy = [] }; tx_payload = "" }) c by
redact (enc i c by) = enc (record i { plaintext = ""; password = "" }) c by
redact (dec i c by) = dec (record i { ciphertext = ""; password = "" }) c by

-- What can be seen of an answer: that it came, or the type of the exception.
abbrev pub shape {ℓ} : {A : Type ℓ} → Result A → Option String
shape (ok x) = none
shape (raised e) = some (type_name e)

-- What an agent keeps besides its calls: its window and what has been recorded.
abbrev pub seen : Agent → CostWindow × Journal
seen a = (a.window, a.journal)

module _ (sink : Sink) (mask : WalletMask) where
  conclude-seen :
      (ctx : ActionContext) (ev : Evaluation) (x : Bool) (r s : Option Reply) (b : Agent)
      (calls : List Call)
      → seen (conclude sink mask ctx ev x r (record b { calls = calls })).1
        ≡ seen (conclude sink mask ctx ev x s b).1
  unfolding conclude emit lineage
  conclude-seen ctx ev x r s b calls = ground arith

  answered-seen :
      (ctx : ActionContext) (ev : Evaluation) (r s : Result Reply) (b : Agent) (calls : List Call)
      → shape r ≡ shape s
      → seen (answered sink mask ctx ev r (record b { calls = calls })).1
        ≡ seen (answered sink mask ctx ev s b).1
  unfolding answered emit lineage
  answered-seen ctx ev (ok r) (ok s) b calls h = conclude-seen ctx ev true (some r) (some s) b calls
  answered-seen ctx ev (ok r) (raised e) b calls h = cc h
  answered-seen ctx ev (raised e) (ok s) b calls h = cc h
  answered-seen ctx ev (raised e) (raised f) b calls h = ground (arith, h)

  stepped-seen :
      (ctx : ActionContext) (v : Result Evaluation) (c d : Call) (p q : List Call → Result Reply)
      (a : Agent)
      → shape (p a.calls) ≡ shape (q a.calls)
      → seen (stepped sink mask ctx c p a v).1 ≡ seen (stepped sink mask ctx d q a v).1
  stepped-seen ctx (raised e) c d p q a h = refl
  stepped-seen ctx (ok ev) c d p q a h = elim (Bool-cases ev.proceed) [
    | inl e ↦ simp e (
        answered-seen ctx ev (p a.calls) (q a.calls) (launched sink mask ctx d q a)
          (a.calls ++ c ∷ []) h)
    | inr e ↦ simp e refl
  ]

  -- What an action leaves depends on its context, and on the shape of the wallet's answer.
  run_action-seen :
      (ctx : ActionContext) (c d : Call) (p q : List Call → Result Reply) (a : Agent)
      → shape (p a.calls) ≡ shape (q a.calls)
      → seen (run_action sink mask ctx c p a).1 ≡ seen (run_action sink mask ctx d q a).1
  run_action-seen ctx c d p q a h =
      rw (run_action_lem sink mask ctx c p a, run_action_lem sink mask ctx d q a)
        (stepped-seen ctx (evaluate mask a.window ctx) c d p q a h)

  -- The context of a request is that of the request without its secrets.
  context-redact : (q : Request) → context mask (redact q) ≡ context mask q
  unfolding context redact
  context-redact (validate i c) = refl
  context-redact (verify i c) = refl
  context-redact (derive i c) = refl
  context-redact (generate i c by) = refl
  context-redact (to_entropy i c by) = refl
  context-redact (sign i c by) = refl
  context-redact (enc i c by) = refl
  context-redact (dec i c by) = refl

  -- Two requests of the agent that differ only in secrets (seeds, phrases, passwords, plaintexts,
  -- ciphertexts, messages, signatures and payloads), made of any two wallets, leave the same window
  -- and the same records, if both wallets return or both raise exceptions of one type, whatever is
  -- returned and whatever the exceptions say.
  pub perform-seen :
      (port other : Port) (q p : Request) (a : Agent)
      → redact q ≡ redact p
      → shape (answer port q a.calls) ≡ shape (answer other p a.calls)
      → seen (perform sink mask port q a).1 ≡ seen (perform sink mask other p a).1
  perform-seen port other q p a r h =
      let c = call q in
      let d = call p in
      let e = perform_lem sink mask port q a in
      let f = perform_lem sink mask other p a in
      let k : context mask q ≡ context mask p =
        sym (context-redact q) ∙ ap (context mask) r ∙ context-redact p in
      ap (λ x. seen x.1) e
      ∙ run_action-seen (context mask q) c d (answer port q) (answer other p) a h
      ∙ ap (λ x. seen (run_action sink mask x d (answer other p) a).1) k
      ∙ sym (ap (λ x. seen x.1) f)
