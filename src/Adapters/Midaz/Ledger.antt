-- ===== src/Adapters/Midaz/Ledger.antt =====
-- The authorisation engine (src/authorization/auth_engine.py) over the ledger of
-- src/adapters/midaz_adapter.py.
use mathlib.Core.Path.{subst}
use banxe_payment_core.Prelude.{ℤ, pos, ◌≤ℤ◌, ◌<ℤ◌, ◌≡◌, refl, sym, ◌↔◌, arith, none, List, map}
use banxe_payment_core.Exec.{Result, ok, raised}
use banxe_payment_core.Python.{Text}
use banxe_payment_core.Json.{
  Value, null, bool, num, real, str, arr, obj, Fields, end, field_or, to_int,
}
use banxe_payment_core.Screening.{ScreeningDecision, Payload, Response, screen}
use banxe_payment_core.Screening.Decisions.{Decides}
use banxe_payment_core.Authorization.{
  AuthorisationRequest, BalanceResult, hitl_threshold_minor, Trace, Ports, screening_request,
  authorise,
}
use banxe_payment_core.Authorization.Approval.{Approved, Covers, authorise-Approved}
use banxe_payment_core.Adapters.Http.{Verb, Request, Http}
use banxe_payment_core.Adapters.Midaz.{
  MidazAdapter, headers, accounts_url, paired, balance_of, read_balance, get_balance,
}

-- The request that `get_balance` makes.
unfoldable pub balance_request : MidazAdapter → Text → Request
balance_request m account_id = record {
  verb = Verb.get;
  url = accounts_url m account_id;
  headers = headers m;
  json = none;
}

-- The engine's ports with the adapter as its ledger, whose requests so far are for the balances
-- that the engine has asked for.
unfoldable pub engine_ports : (List Payload → Payload → Response) → Http → MidazAdapter → Ports
unfolding get_balance balance_request
engine_ports api http m = record {
  api = api;
  get_balance = λ asked account_id currency.
      (get_balance http m account_id currency (map (λ q. balance_request m q.0) asked)).0;
}

-- The answer is an object whose balance is an object, and shows `n` as available and some number on
-- hold.
pub record Shows (answer : Result (Result Value)) (n : ℤ) : Type 0 where
  pub fields : Fields
  pub balance : Fields
  pub on_hold : ℤ
  pub is_object : answer ≡ ok (ok (obj fields))
  pub has_balance : field_or "balance" (obj end) fields ≡ obj balance
  pub available : to_int (field_or "available" (num (pos 0)) balance) ≡ ok n
  pub held : to_int (field_or "onHold" (num (pos 0)) balance) ≡ ok on_hold

abbrev read : Text → Text → Result (Result Value) → Result BalanceResult
read account_id currency (raised e) = raised e
read account_id currency (ok (raised e)) = raised e
read account_id currency (ok (ok v)) = read_balance account_id currency v

get_balance-read :
    (http : Http) (m : MidazAdapter) (account_id currency : Text) (sent : List Request)
    → (get_balance http m account_id currency sent).0
      ≡ read account_id currency (http sent (balance_request m account_id))
unfolding get_balance balance_request
get_balance-read http m account_id currency sent = ground arith

module _ (r : AuthorisationRequest) where
  abbrev Enough : Result (Result Value) → Type 0
  Enough a = (n : ℤ) × Shows a n × (r.amount_minor ≤ℤ n)

  paired-Covers :
      (a : Result (Result Value)) (fs bs : Fields)
      → a ≡ ok (ok (obj fs))
      → field_or "balance" (obj end) fs ≡ obj bs
      → (x y : Result ℤ) → to_int (field_or "available" (num (pos 0)) bs) ≡ x
      → to_int (field_or "onHold" (num (pos 0)) bs) ≡ y
      → Covers r (
          paired x y (λ n k. record {
            account_id = r.card_id;
            available_minor = n;
            pending_minor = k;
            currency = r.currency;
          }))
      → Enough a
  paired-Covers a fs bs p q (raised e) y u v h = absurd h
  paired-Covers a fs bs p q (ok n) (raised e) u v h = absurd h
  paired-Covers a fs bs p q (ok n) (ok k) u v h = (
    n,
    record {
      fields = fs;
      balance = bs;
      on_hold = k;
      is_object = p;
      has_balance = q;
      available = u;
      held = v;
    },
    h,
  )

  balance_of-Covers :
      (a : Result (Result Value)) (fs : Fields) (v : Value)
      → a ≡ ok (ok (obj fs))
      → field_or "balance" (obj end) fs ≡ v
      → Covers r (balance_of r.card_id r.currency v)
      → Enough a
  balance_of-Covers a fs null p q h = absurd h
  balance_of-Covers a fs (bool b) p q h = absurd h
  balance_of-Covers a fs (num n) p q h = absurd h
  balance_of-Covers a fs (real n z) p q h = absurd h
  balance_of-Covers a fs (str t) p q h = absurd h
  balance_of-Covers a fs (arr vs) p q h = absurd h
  balance_of-Covers a fs (obj bs) p q h = paired-Covers a fs bs p q _ _ refl refl h

  read-Covers : (a : Result (Result Value)) → Covers r (read r.card_id r.currency a) → Enough a
  unfolding read_balance
  read-Covers (raised e) h = absurd h
  read-Covers (ok (raised e)) h = absurd h
  read-Covers (ok (ok null)) h = absurd h
  read-Covers (ok (ok (bool b))) h = absurd h
  read-Covers (ok (ok (num n))) h = absurd h
  read-Covers (ok (ok (real n z))) h = absurd h
  read-Covers (ok (ok (str t))) h = absurd h
  read-Covers (ok (ok (arr vs))) h = absurd h
  read-Covers (ok (ok (obj fs))) h = balance_of-Covers (ok (ok (obj fs))) fs _ refl refl h

  Shows-Covers :
      (a : Result (Result Value)) (n : ℤ)
      → Shows a n
      → r.amount_minor ≤ℤ n
      → Covers r (read r.card_id r.currency a)
  unfolding read_balance
  Shows-Covers a n s h = rw (s.is_object, s.has_balance, s.available, s.held) h

  -- What the ledger answers the engine's request for the balance of the card.
  abbrev pub ledger_answer : Http → MidazAdapter → Trace → Result (Result Value)
  ledger_answer http m t =
      http (map (λ q. balance_request m q.0) t.balances) (balance_request m r.card_id)

  -- With the Midaz adapter as its ledger, the engine approves a card authorisation exactly when the
  -- screening passes, the amount is below the threshold for a human decision, and Midaz answers the
  -- request for the card's account with an object whose balance is an object with an available
  -- amount, no less than that of the authorisation, and an amount on hold, which both are whole
  -- numbers or can be read as such, or are left out and count as 0.
  pub authorise-Shows :
      (api : List Payload → Payload → Response) (http : Http) (m : MidazAdapter) (t : Trace)
      → Approved (authorise (engine_ports api http m) r t).0 ↔ (
          Decides ScreeningDecision.pass (screen api (screening_request r) t.posted).0
          × (r.amount_minor <ℤ hitl_threshold_minor)
          × ((n : ℤ) × Shows (ledger_answer http m t) n × (r.amount_minor ≤ℤ n)))
  unfolding engine_ports
  authorise-Shows api http m t =
      let e =
        get_balance-read http m r.card_id r.currency
          (map (λ q. balance_request m q.0) t.balances) in
      let a = authorise-Approved (engine_ports api http m) r t in
      (
        λ h.
            let (d, l, c) = a.0 h in
            (d, l, read-Covers (ledger_answer http m t) (subst (Covers r) e c)),
        λ (d, l, (n, s, k)).
            a.1 (d, l, subst (Covers r) (sym e) (Shows-Covers (ledger_answer http m t) n s k)),
      )
