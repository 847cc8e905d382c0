-- ===== src/Exec.antt =====
-- Python's methods as state with exceptions: what was written before a `raise` stays written, so
-- the state comes back beside the exception too. The exceptions of the ports' taxonomies
-- (src/partner/partner_port.py, src/exchangeport/exchange_port.py) are values.
use banxe_payment_core.Prelude.{String, ◌≡◌, refl, ◌⊎◌, inl, inr, Bool, true, false}

-- PartnerPortError and its subclasses.
pub data PartnerError : Type 0 where
  base validation_error idempotency_conflict partner_unavailable insufficient_funds : PartnerError
  compliance_block unknown_partner_state : PartnerError

-- ExchangePortError and its subclasses.
pub data ExchangeError : Type 0 where
  base validation_error idempotency_conflict stale_rate exchange_unavailable : ExchangeError
  insufficient_balance compliance_block partial_fill_timeout : ExchangeError

-- An exception with its message. `other` is one of any other class, with the name of the class.
pub data Exc : Type 0 where
  value_error type_error key_error : String → Exc
  partner : PartnerError → String → Exc
  exchange : ExchangeError → String → Exc
  other : String → String → Exc

abbrev partner_name : PartnerError → String
partner_name PartnerError.base = "PartnerPortError"
partner_name PartnerError.validation_error = "ValidationError"
partner_name PartnerError.idempotency_conflict = "IdempotencyConflict"
partner_name PartnerError.partner_unavailable = "PartnerUnavailable"
partner_name PartnerError.insufficient_funds = "InsufficientFunds"
partner_name PartnerError.compliance_block = "ComplianceBlock"
partner_name PartnerError.unknown_partner_state = "UnknownPartnerState"

abbrev exchange_name : ExchangeError → String
exchange_name ExchangeError.base = "ExchangePortError"
exchange_name ExchangeError.validation_error = "ValidationError"
exchange_name ExchangeError.idempotency_conflict = "IdempotencyConflict"
exchange_name ExchangeError.stale_rate = "StaleRate"
exchange_name ExchangeError.exchange_unavailable = "ExchangeUnavailable"
exchange_name ExchangeError.insufficient_balance = "InsufficientBalance"
exchange_name ExchangeError.compliance_block = "ComplianceBlock"
exchange_name ExchangeError.partial_fill_timeout = "PartialFillTimeout"

-- type(exc).__name__
unfoldable pub type_name : Exc → String
type_name (value_error m) = "ValueError"
type_name (type_error m) = "TypeError"
type_name (key_error m) = "KeyError"
type_name (partner e m) = partner_name e
type_name (exchange e m) = exchange_name e
type_name (other n m) = n

-- str(exc)
unfoldable pub message : Exc → String
message (value_error m) = m
message (type_error m) = m
message (key_error m) = m
message (partner e m) = m
message (exchange e m) = m
message (other n m) = m

pub data Result {ℓ} (A : Type ℓ) : Type ℓ where
  ok : A → Result A
  raised : Exc → Result A

-- It returned, and did not raise.
abbrev pub returned {ℓ} : {A : Type ℓ} → Result A → Bool
returned (ok a) = true
returned (raised e) = false

abbrev pub map_result {ℓ κ} : {A : Type ℓ} {B : Type κ} → (A → B) → Result A → Result B
map_result f (ok x) = ok (f x)
map_result f (raised e) = raised e

abbrev pub Exec {ℓ κ} : Type ℓ → Type κ → Type (ℓ ⊔ κ)
Exec S A = S → Result A × S

module _ {ℓ κ} {S : Type ℓ} {A : Type κ} where
  abbrev pub pure : A → Exec S A
  pure a s = (ok a, s)

  abbrev pub raise : Exc → Exec S A
  raise e s = (raised e, s)

  abbrev pub lift : Result A → Exec S A
  lift r s = (r, s)

abbrev pub modify {ℓ} : {S : Type ℓ} → (S → S) → Exec S (Unit {0})
modify f s = (ok tt, f s)

abbrev pub continue {ℓ κ μ} :
    {S : Type ℓ} {A : Type κ} {B : Type μ} → Result A × S → (A → Exec S B) → Result B × S
continue (ok a, s) f = f a s
continue (raised e, s) f = (raised e, s)

infixl 5 ◌>>=◌ ◌>>◌
abbrev pub ◌>>=◌ {ℓ κ μ} :
    {S : Type ℓ} {A : Type κ} {B : Type μ} → Exec S A → (A → Exec S B) → Exec S B
◌>>=◌ m f s = continue (m s) f

abbrev pub ◌>>◌ {ℓ κ μ} : {S : Type ℓ} {A : Type κ} {B : Type μ} → Exec S A → Exec S B → Exec S B
m >> k = m >>= λ _. k

pub Result-cases {ℓ} :
    {A : Type ℓ} (r : Result A) → ((a : A) × (r ≡ ok a)) ⊎ ((e : Exc) × (r ≡ raised e))
Result-cases (ok a) = inl (a, refl)
Result-cases (raised e) = inr (e, refl)
