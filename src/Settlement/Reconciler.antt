-- ===== src/Settlement/Reconciler.antt =====
-- src/settlement/reconciler.py. The logging, and the rate that `summary` formats, are not modelled.
pub mod Matching
pub mod Outcomes
use banxe_payment_core.Prelude.{
  ℕ, suc, ◌+◌, ◌-◌, ℤ, pos, negsuc, ◌-ℤ◌, abs_ℤ, ltb_ℤ, ltb, ◌==◌, ℕ_comparable, list_comparable,
  elem, Bool, true, false, not, ◌&&◌, ◌||◌, if◌then◌else◌, Option, none, some, List, [], ◌∷◌, ◌++◌,
  length, drop, Dict, lookup, insert,
}
use banxe_payment_core.Python.{Text, codes, str_ℕ}
use banxe_payment_core.Settlement.Parser.{IpmRecord, is_presentment, currency_alpha}

pub record InternalTransaction : Type 0 where
  pub txn_id : Text
  pub pan_last4 : Text
  pub amount_cents : ℤ
  pub currency : Text
  pub approval_code : Text
  pub merchant_id : Text
  pub txn_date : Text
  pub status : Text

-- The values of `status`, a string in the program.
pub data Status : Type 0 where
  matched unmatched discrepancy : Status

pub record ReconciliationResult : Type 0 where
  pub ipm_record : IpmRecord
  pub internal_txn : Option InternalTransaction
  pub status : Status
  pub discrepancies : List Text

abbrev pub Index : Type 0
Index = Dict Text (List InternalTransaction)

-- str(n)
unfoldable pub int_str : ℤ → Text
int_str (pos n) = str_ℕ n
int_str (negsuc n) = b'-' ∷ str_ℕ (suc n)

-- f"{left}:{right}"
abbrev pub key : Text → Text → Text
key left right = left ++ b':' ∷ right

abbrev pub approval_key : InternalTransaction → Text
approval_key t = key t.approval_code t.pan_last4

abbrev pub amount_key : InternalTransaction → Text
amount_key t = key (int_str t.amount_cents) t.pan_last4

-- index.get(k, [])
unfoldable pub candidates : Text → Index → List InternalTransaction
candidates k index = elim (lookup k index) [ none ↦ [] | some l ↦ l ]

-- index.setdefault(k, []).append(t)
unfoldable pub push : Text → InternalTransaction → Index → Index
push k t index = insert k (candidates k index ++ t ∷ []) index

-- The loop of `_build_index`, from an index on.
unfoldable pub index_from : List InternalTransaction → Index → Index
index_from [] index = index
index_from (t ∷ txns) index =
    index_from txns (push (amount_key t) t (push (approval_key t) t index))

unfoldable pub build_index : List InternalTransaction → Index
build_index txns = index_from txns []

-- ipm.de2_pan[-4:] if len(ipm.de2_pan) >= 4 else ""
unfoldable pub pan_last4 : IpmRecord → Text
pan_last4 ipm = if ltb (length ipm.de2_pan) 4 then [] else drop (length ipm.de2_pan - 4) ipm.de2_pan

abbrev pub is_empty : Text → Bool
is_empty [] = true
is_empty (c ∷ cs) = false

-- abs(…) > self.tolerance
unfoldable pub amount_differs : ℤ → IpmRecord → InternalTransaction → Bool
amount_differs tolerance ipm t =
    ltb_ℤ tolerance (pos (abs_ℤ (ipm.de4_txn_amount -ℤ t.amount_cents)))

unfoldable pub currency_differs : IpmRecord → InternalTransaction → Bool
currency_differs ipm t =
    not (is_empty (currency_alpha ipm)) && not (currency_alpha ipm == t.currency)

-- The discrepancies, in their order.
unfoldable pub discrepancies_of : ℤ → IpmRecord → InternalTransaction → List Text
discrepancies_of tolerance ipm t =
    (if amount_differs tolerance ipm t
      then (codes "amount: IPM="
          ++ int_str ipm.de4_txn_amount
          ++ codes " vs internal="
          ++ int_str t.amount_cents)
        ∷ []
      else [])
    ++ (if currency_differs ipm t
        then (codes "currency: IPM=" ++ currency_alpha ipm ++ codes " vs internal=" ++ t.currency)
          ∷ []
        else [])

abbrev pub status_of : List Text → Status
status_of [] = matched
status_of (d ∷ ds) = discrepancy

-- `_match` once there are no candidates or a first one.
unfoldable pub compared : ℤ → IpmRecord → List InternalTransaction → ReconciliationResult
compared tolerance ipm [] = record {
  ipm_record = ipm;
  internal_txn = none;
  status = unmatched;
  discrepancies = [];
}
compared tolerance ipm (t ∷ ts) = record {
  ipm_record = ipm;
  internal_txn = some t;
  status = status_of (discrepancies_of tolerance ipm t);
  discrepancies = discrepancies_of tolerance ipm t;
}

-- The candidates by approval code, or else those by amount.
abbrev pub or_else : List InternalTransaction → List InternalTransaction → List InternalTransaction
or_else [] others = others
or_else (t ∷ ts) others = t ∷ ts

unfoldable pub match_record : ℤ → IpmRecord → Index → ReconciliationResult
match_record tolerance ipm index = compared tolerance ipm (
    or_else (candidates (key ipm.de38_approval_code (pan_last4 ipm)) index)
      (candidates (key (int_str ipm.de4_txn_amount) (pan_last4 ipm)) index))

abbrev pub matches : ℤ → List IpmRecord → Index → List ReconciliationResult
matches tolerance [] index = []
matches tolerance (ipm ∷ records) index =
    let rest = matches tolerance records index in
    if is_presentment ipm then match_record tolerance ipm index ∷ rest else rest

unfoldable pub reconcile : ℤ → List IpmRecord → List InternalTransaction → List ReconciliationResult
reconcile tolerance records txns = matches tolerance records (build_index txns)

abbrev same_status : Status → Status → Bool
same_status matched matched = true
same_status unmatched unmatched = true
same_status discrepancy discrepancy = true
same_status _ _ = false

-- len([r for r in results if r.status == s])
unfoldable pub count : Status → List ReconciliationResult → ℕ
count s [] = 0
count s (r ∷ results) = let n = count s results in if same_status r.status s then n + 1 else n

pub record Summary : Type 0 where
  pub total : ℕ
  pub matched : ℕ
  pub unmatched : ℕ
  pub discrepancies : ℕ
  pub discrepancy_details : List (ℕ × List Text)

abbrev details : List ReconciliationResult → List (ℕ × List Text)
details [] = []
details (r ∷ results) =
    let rest = details results in
    if same_status r.status discrepancy
    then (r.ipm_record.line_number, r.discrepancies) ∷ rest
    else rest

unfoldable pub summary : List ReconciliationResult → Summary
summary results = record {
  total = length results;
  matched = count Status.matched results;
  unmatched = count Status.unmatched results;
  discrepancies = count Status.discrepancy results;
  discrepancy_details = details results;
}
