-- ===== src/Settlement/Tests.antt =====
-- Files and reconciliations at concrete inputs, and the theorems at inputs that meet them.
use banxe_payment_core.Prelude.{
  ◌+◌, pos, ◌≡◌, refl, some, List, [], ◌∷◌, ◌++◌, map, length, lookup, insert, ◌-ℤ◌,
}
use banxe_payment_core.Python.{Text, codes, int_text, is_space, lstrip, is_digit, str_ℕ}
use banxe_payment_core.Settlement.Parser.{
  IpmRecord, new_record, new_parser, parse_lines, parse_from, parse_line, parse_record, chomp,
  extract_data_elements, split, apply_fields, apply_field, assign, safe_int, currency_alpha,
}
use banxe_payment_core.Settlement.Reconciler.{
  InternalTransaction, Status, matched, build_index, index_from, push, candidates, pan_last4,
  int_str, amount_differs, currency_differs, discrepancies_of, compared, match_record, reconcile,
  summary,
}
use banxe_payment_core.Settlement.Reconciler.Matching.{search, as_list, match_record-search}
use banxe_payment_core.Settlement.Reconciler.Outcomes.{
  presentments, reconcile-presentments, match_record-blank,
}

abbrev separator : Text
separator = 28 ∷ []

-- A presentment of 12.50 GBP with a card number and no approval code.
abbrev line : Text
line = codes "12400251001234567890" ++ separator ++ codes "041250" ++ separator ++ codes "49826"

abbrev ipm : IpmRecord
ipm = record (new_record (codes "1240") line 2) {
  de2_pan = codes "51001234567890";
  de4_txn_amount = pos 1250;
  de49_txn_currency = codes "826";
}

parse_record-line : parse_record line 2 ≡ some ipm
unfolding parse_record extract_data_elements split apply_fields apply_field assign safe_int int_text
    is_space lstrip is_digit
parse_record-line = refl

abbrev lines : List Text
lines = (codes "1800HDR" ++ 10 ∷ []) ∷ (line ++ 10 ∷ []) ∷ codes "9999" ∷ codes "12" ∷ []

parse_lines-records : (parse_lines lines new_parser).records ≡ ipm ∷ []
unfolding parse_lines parse_from parse_line chomp parse_record extract_data_elements split
    apply_fields apply_field assign safe_int int_text is_space lstrip is_digit
parse_lines-records = refl

abbrev txn : InternalTransaction
txn = record {
  txn_id = codes "t1";
  pan_last4 = codes "7890";
  amount_cents = pos 1250;
  currency = codes "GBP";
  approval_code = [];
  merchant_id = [];
  txn_date = [];
  status = codes "settled";
}

-- Another transaction of the same card.
abbrev dearer : InternalTransaction
dearer = record txn { txn_id = codes "t2"; amount_cents = pos 9900 }

match_record-search_example :
    match_record (pos 0) ipm (build_index (txn ∷ []))
    ≡ compared (pos 0) ipm (as_list (search ipm (txn ∷ [])))
match_record-search_example = match_record-search (pos 0) ipm (txn ∷ [])

-- The transaction of the record's amount is there, and is matched.
match_record-txn : (match_record (pos 0) ipm (build_index (txn ∷ []))).status ≡ matched
unfolding match_record build_index index_from push candidates lookup insert pan_last4 int_str str_ℕ
    compared discrepancies_of amount_differs currency_differs currency_alpha ◌-ℤ◌
match_record-txn = refl

match_record-blank_example :
    (match_record (pos 0) ipm (build_index (dearer ∷ txn ∷ []))).internal_txn ≡ some dearer
unfolding pan_last4
match_record-blank_example = match_record-blank (pos 0) ipm dearer (txn ∷ []) refl refl refl

-- The transaction of the record's amount is there, but is not found.
match_record-dearer :
    (match_record (pos 0) ipm (build_index (dearer ∷ txn ∷ []))).status ≡ Status.discrepancy
unfolding match_record build_index index_from push candidates lookup insert pan_last4 int_str str_ℕ
    compared discrepancies_of amount_differs currency_differs currency_alpha ◌-ℤ◌
match_record-dearer = refl

reconcile-presentments_example :
    let results = reconcile (pos 0) (ipm ∷ []) (txn ∷ []) in
    let s = summary results in
    (map (λ r. r.ipm_record) results ≡ presentments (ipm ∷ []))
    × (s.total ≡ length (presentments (ipm ∷ [])))
    × (s.matched + s.unmatched + s.discrepancies ≡ s.total)
reconcile-presentments_example = reconcile-presentments (pos 0) (ipm ∷ []) (txn ∷ [])
