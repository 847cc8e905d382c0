-- ===== src/Authorization/Approval.antt =====
-- When AuthEngine approves, and what it asks the ledger.
use banxe_payment_core.Prelude.{
  pos, ◌-ℤ◌, ◌≤ℤ◌, ◌<ℤ◌, ◌≡◌, ◌↔◌, Bool, true, false, ◌&&◌, ltb_ℤ, none, some, [], ◌∷◌, ◌++◌, arith,
  refl, -ℤ_parts, if◌then◌else◌, inl, inr,
}
use text.Mathlib.TextEquality.{eq_iff}
use banxe_payment_core.Exec.{Result, ok, raised, continue, Result-cases}
use banxe_payment_core.Screening.{ScreeningDecision, ScreeningResult, screen}
use banxe_payment_core.Screening.Decisions.{Decides}
use banxe_payment_core.Authorization.{
  approve, AuthorisationRequest, AuthorisationResponse, BalanceResult, hitl_threshold_minor, Trace,
  Ports, screening_request, respond, decide, check_balance, screened, authorise,
}

abbrev pub is_pass : ScreeningDecision → Bool
is_pass ScreeningDecision.pass = true
is_pass d = false

-- `authorise` returned an approval.
abbrev pub Approved : Result AuthorisationResponse → Type 0
Approved (ok r) = r.decision ≡ approve
Approved (raised e) = ⊥

-- The ledger returned a balance that covers the amount.
abbrev pub Covers : AuthorisationRequest → Result BalanceResult → Type 0
Covers r (ok b) = r.amount_minor ≤ℤ b.available_minor
Covers r (raised e) = ⊥

-- The balance that the response shows: what is left after an approval, which is not negative, and
-- what there was after a refusal for want of funds.
abbrev pub Accounts : AuthorisationRequest → Result BalanceResult → AuthorisationResponse → Type 0
Accounts r (ok b) a =
    (a.decision ≡ approve
      → (a.available_balance_minor ≡ some (b.available_minor -ℤ r.amount_minor))
        × (pos 0 ≤ℤ (b.available_minor -ℤ r.amount_minor)))
    × (a.response_code ≡ "51" → a.available_balance_minor ≡ some b.available_minor)
Accounts r (raised e) a = a.available_balance_minor ≡ none

module _ (ports : Ports) (r : AuthorisationRequest) (t : Trace) where
  abbrev pub balance : Result BalanceResult
  balance = ports.get_balance t.balances r.card_id r.currency

  screened-Approved :
      (d : ScreeningDecision) (u : Trace)
      → u.balances ≡ t.balances
      → Approved (screened ports r d u).0 ↔ (
          (d ≡ ScreeningDecision.pass)
          × (r.amount_minor <ℤ hitl_threshold_minor)
          × Covers r balance)
  unfolding screened check_balance decide respond
  screened-Approved d u e = ground (arith, e)

  continued-Approved :
      (s : Result ScreeningResult) (u : Trace)
      → u.balances ≡ t.balances
      → Approved (continue (s, u) (λ x. screened ports r x.decision)).0 ↔ (
          Decides ScreeningDecision.pass s
          × (r.amount_minor <ℤ hitl_threshold_minor)
          × Covers r balance)
  continued-Approved (ok x) u e = screened-Approved x.decision u e
  continued-Approved (raised x) u e = (λ h. absurd h, λ h. absurd h.0)

  -- A card authorisation is approved exactly when the screening passes, the amount is below the
  -- threshold for a human decision, and the ledger's available balance covers it.
  pub authorise-Approved : Approved (authorise ports r t).0 ↔ (
      Decides ScreeningDecision.pass (screen ports.api (screening_request r) t.posted).0
      × (r.amount_minor <ℤ hitl_threshold_minor)
      × Covers r balance)
  unfolding authorise
  authorise-Approved = continued-Approved _ _ refl

  screened-Accounts :
      (d : ScreeningDecision) (u : Trace) (a : AuthorisationResponse)
      → u.balances ≡ t.balances
      → (screened ports r d u).0 ≡ ok a
      → Accounts r balance a
  unfolding screened check_balance decide respond
  screened-Accounts d u a e h = elim (Result-cases balance) [
    | inl (b, p) ↦ ground (
      arith,
      e,
      p,
      -ℤ_parts b.available_minor r.amount_minor,
      eq_iff "05" "51",
      eq_iff "01" "51",
      eq_iff "00" "51",
    )
    | inr (x, p) ↦ ground (arith, e, p)
  ]

  continued-Accounts :
      (s : Result ScreeningResult) (u : Trace) (a : AuthorisationResponse)
      → u.balances ≡ t.balances
      → (continue (s, u) (λ x. screened ports r x.decision)).0 ≡ ok a
      → Accounts r balance a
  continued-Accounts (ok x) u a e h = screened-Accounts x.decision u a e h
  continued-Accounts (raised x) u a e h = cc h

  -- If the ledger's answer is a balance, then an approval shows that balance less the amount, which
  -- is not negative, and a response with code 51 shows the balance. If the ledger raises, then a
  -- response that is given all the same shows no balance.
  authorise-Accounts :
      (a : AuthorisationResponse) → (authorise ports r t).0 ≡ ok a → Accounts r balance a
  unfolding authorise
  authorise-Accounts a h = continued-Accounts _ _ a refl h

  -- When the screening has decided, the ledger is asked for the balance of the card once if it
  -- passed and the amount is below the threshold for a human decision, and not at all otherwise.
  pub authorise-balances :
      (d : ScreeningDecision)
      → Decides d (screen ports.api (screening_request r) t.posted).0
      → (authorise ports r t).1.balances ≡ (
          if is_pass d && ltb_ℤ r.amount_minor hitl_threshold_minor
          then t.balances ++ (r.card_id, r.currency) ∷ []
          else t.balances)
  unfolding authorise screened check_balance
  authorise-balances d h = ground (arith, h)
