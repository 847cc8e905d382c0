-- ===== src/Settlement/Reconciler/Outcomes.antt =====
-- What src/settlement/reconciler.py reports of a record and of a file.
use banxe_payment_core.Prelude.{
  ◌+◌, ℤ, pos, ◌-ℤ◌, ◌≤ℤ◌, abs_ℤ, ◌≡◌, ◌↔◌, ◌⊎◌, refl, sym, ap, ◌∙◌, ℕ_comparable, list_comparable,
  list_beq_iff, false, if◌then◌else◌, Option, none, some, List, [], ◌∷◌, ◌++◌, map, length,
  length-map, arith, Bool-cases, inl, inr,
}
use banxe_payment_core.Python.{Text}
use banxe_payment_core.Settlement.Parser.{IpmRecord, is_presentment, currency_alpha}
use banxe_payment_core.Settlement.Reconciler.{
  InternalTransaction, matched, unmatched, discrepancy, ReconciliationResult, Index, int_str, key,
  approval_key, candidates, build_index, pan_last4, amount_differs, currency_differs,
  discrepancies_of, status_of, compared, or_else, match_record, matches, reconcile, count, summary,
}
use banxe_payment_core.Settlement.Reconciler.Matching.{
  first_keyed, or_first, search, as_list, match_record-search,
}

-- The amounts are no further apart than the tolerance.
abbrev pub Close : ℤ → IpmRecord → InternalTransaction → Type 0
Close tolerance ipm t = pos (abs_ℤ (ipm.de4_txn_amount -ℤ t.amount_cents)) ≤ℤ tolerance

status_of-matched : (l m : List Text) → (status_of (l ++ m) ≡ matched) ↔ ((l ≡ []) × (m ≡ []))
status_of-matched [] [] = ground arith
status_of-matched [] (d ∷ m) = ground arith
status_of-matched (d ∷ l) m = ground arith

amounts_iff :
    (tolerance : ℤ) (ipm : IpmRecord) (t : InternalTransaction)
    → (amount_differs tolerance ipm t ≡ false) ↔ Close tolerance ipm t
unfolding amount_differs
amounts_iff tolerance ipm t = ground arith

currencies_iff :
    (ipm : IpmRecord) (t : InternalTransaction)
    → (currency_differs ipm t ≡ false)
      ↔ ((currency_alpha ipm ≡ []) ⊎ (currency_alpha ipm ≡ t.currency))
unfolding currency_differs
currencies_iff ipm t = ground (arith, list_beq_iff (currency_alpha ipm) t.currency)

discrepancies-matched :
    (tolerance : ℤ) (ipm : IpmRecord) (t : InternalTransaction)
    → (status_of (discrepancies_of tolerance ipm t) ≡ matched)
      ↔ ((amount_differs tolerance ipm t ≡ false) × (currency_differs ipm t ≡ false))
unfolding discrepancies_of
discrepancies-matched tolerance ipm t = elim (Bool-cases (amount_differs tolerance ipm t)) [
  | inl a ↦ elim (Bool-cases (currency_differs ipm t)) [
    | inl b ↦ rw (a, b) (ground arith)
    | inr b ↦ rw (a, b) (ground arith)
  ]
  | inr a ↦ elim (Bool-cases (currency_differs ipm t)) [
    | inl b ↦ rw (a, b) (ground arith)
    | inr b ↦ rw (a, b) (ground arith)
  ]
]

-- A transaction that a record may be said to match.
abbrev pub Matches : ℤ → IpmRecord → Option InternalTransaction → Type 0
Matches tolerance ipm none = ⊥
Matches tolerance ipm (some t) =
    Close tolerance ipm t × ((currency_alpha ipm ≡ []) ⊎ (currency_alpha ipm ≡ t.currency))

compared-matched :
    (tolerance : ℤ) (ipm : IpmRecord) (o : Option InternalTransaction)
    → ((compared tolerance ipm (as_list o)).status ≡ matched) ↔ Matches tolerance ipm o
unfolding compared
compared-matched tolerance ipm none = ground arith
compared-matched tolerance ipm (some t) = ground (
  arith,
  discrepancies-matched tolerance ipm t,
  amounts_iff tolerance ipm t,
  currencies_iff ipm t,
)

-- A record is reported as matched exactly when the search finds a transaction whose amount is no
-- further from the record's than the tolerance, and whose currency is the record's, if the record
-- has one.
match_record-matched :
    (tolerance : ℤ) (ipm : IpmRecord) (txns : List InternalTransaction)
    → ((match_record tolerance ipm (build_index txns)).status ≡ matched)
      ↔ Matches tolerance ipm (search ipm txns)
match_record-matched tolerance ipm txns =
    rw (match_record-search tolerance ipm txns) (compared-matched tolerance ipm (search ipm txns))

abbrev pub presentments : List IpmRecord → List IpmRecord
presentments [] = []
presentments (r ∷ rs) = let rest = presentments rs in if is_presentment r then r ∷ rest else rest

compared-record :
    (tolerance : ℤ) (ipm : IpmRecord) (l : List InternalTransaction)
    → (compared tolerance ipm l).ipm_record ≡ ipm
unfolding compared
compared-record tolerance ipm [] = refl
compared-record tolerance ipm (t ∷ l) = refl

matches-records :
    (tolerance : ℤ) (records : List IpmRecord) (index : Index)
    → map (λ r. r.ipm_record) (matches tolerance records index) ≡ presentments records
unfolding match_record
matches-records tolerance [] index = refl
matches-records tolerance (ipm ∷ records) index = ground (
  arith,
  matches-records tolerance records index,
  compared-record tolerance ipm (
      or_else (candidates (key ipm.de38_approval_code (pan_last4 ipm)) index)
        (candidates (key (int_str ipm.de4_txn_amount) (pan_last4 ipm)) index)),
)

count-total :
    (results : List ReconciliationResult)
    → count matched results + count unmatched results + count discrepancy results ≡ length results
unfolding count
count-total [] = refl
count-total (r ∷ results) = ground (arith, count-total results)

-- `reconcile` gives one result for each presentment, in the order of the records, and none for any
-- other record; in its summary the counts of the three statuses add up to the number of
-- presentments.
pub reconcile-presentments :
    (tolerance : ℤ) (records : List IpmRecord) (txns : List InternalTransaction)
    → let results = reconcile tolerance records txns in
      let s = summary results in
      (map (λ r. r.ipm_record) results ≡ presentments records)
      × (s.total ≡ length (presentments records))
      × (s.matched + s.unmatched + s.discrepancies ≡ s.total)
unfolding reconcile summary
reconcile-presentments tolerance records txns =
    let e = matches-records tolerance records (build_index txns) in
    (
      e,
      sym (length-map (λ r. r.ipm_record) (matches tolerance records (build_index txns)))
          ∙ ap length e,
      count-total (matches tolerance records (build_index txns)),
    )

first_keyed-first :
    (k : Text) (t : InternalTransaction) (txns : List InternalTransaction)
    → approval_key t ≡ k
    → first_keyed k (t ∷ txns) ≡ some t
unfolding first_keyed
first_keyed-first k t txns h = ground (arith, list_beq_iff (approval_key t) k, h)

compared-txn :
    (tolerance : ℤ) (ipm : IpmRecord) (o : Option InternalTransaction)
    → (compared tolerance ipm (as_list o)).internal_txn ≡ o
unfolding compared
compared-txn tolerance ipm none = refl
compared-txn tolerance ipm (some t) = refl

-- A record without an approval code is compared with the first transaction, if that has no approval
-- code either and the record's last four digits, whatever the amounts are.
pub match_record-blank :
    (tolerance : ℤ) (ipm : IpmRecord) (t : InternalTransaction) (txns : List InternalTransaction)
    → ipm.de38_approval_code ≡ []
    → t.approval_code ≡ []
    → t.pan_last4 ≡ pan_last4 ipm
    → (match_record tolerance ipm (build_index (t ∷ txns))).internal_txn ≡ some t
unfolding search
match_record-blank tolerance ipm t txns a b c =
    let k = key ipm.de38_approval_code (pan_last4 ipm) in
    let e : approval_key t ≡ k = cc (a, b, c) in
    ap (λ r. r.internal_txn) (match_record-search tolerance ipm (t ∷ txns))
    ∙ compared-txn tolerance ipm (search ipm (t ∷ txns))
    ∙ ap
        (λ o.
          or_first o (first_keyed (key (int_str ipm.de4_txn_amount) (pan_last4 ipm)) (t ∷ txns)))
        (first_keyed-first k t txns e)
