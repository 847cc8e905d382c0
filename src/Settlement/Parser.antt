-- ===== src/Settlement/Parser.antt =====
-- src/settlement/ipm_parser.py on the lines of a file. A text is the list of its code points; the
-- file is read as Latin-1.
pub mod Lines
pub mod Printer
pub mod RoundTrip
pub mod Tally
pub mod Totals
mod Tests
use banxe_payment_core.Prelude.{
  ℕ, zero, suc, ◌+◌, ◌-◌, ℤ, pos, ◌+ℤ◌, ltb, nat_beq, ◌==◌, ℕ_comparable, list_comparable, elem,
  Bool, true, false, ◌||◌, if◌then◌else◌, Option, none, some, List, [], ◌∷◌, ◌++◌, map, length,
  take, drop, Dict, lookup, insert,
}
use banxe_payment_core.Python.{Text, codes, int_text}

pub record IpmRecord : Type 0 where
  pub mti : Text
  pub de2_pan : Text
  pub de3_proc_code : Text
  pub de4_txn_amount : ℤ
  pub de5_settlement_amount : ℤ
  pub de6_billing_amount : ℤ
  pub de12_time : Text
  pub de13_date : Text
  pub de24_function_code : Text
  pub de25_reason_code : Text
  pub de26_mcc : Text
  pub de31_acquirer_ref : Text
  pub de38_approval_code : Text
  pub de42_acceptor_id : Text
  pub de49_txn_currency : Text
  pub de50_settle_currency : Text
  pub de63_trace_id : Text
  pub raw_line : Text
  pub line_number : ℕ

-- IPMRecord(mti=…, raw_line=…, line_number=…)
abbrev pub new_record : Text → Text → ℕ → IpmRecord
new_record mti raw_line line_number = record {
  mti = mti;
  de2_pan = [];
  de3_proc_code = [];
  de4_txn_amount = pos 0;
  de5_settlement_amount = pos 0;
  de6_billing_amount = pos 0;
  de12_time = [];
  de13_date = [];
  de24_function_code = [];
  de25_reason_code = [];
  de26_mcc = [];
  de31_acquirer_ref = [];
  de38_approval_code = [];
  de42_acceptor_id = [];
  de49_txn_currency = [];
  de50_settle_currency = [];
  de63_trace_id = [];
  raw_line = raw_line;
  line_number = line_number;
}

abbrev pub currency_map : Dict Text Text
currency_map =
    (codes "826", codes "GBP")
    ∷ (codes "840", codes "USD")
    ∷ (codes "978", codes "EUR")
    ∷ (codes "756", codes "CHF")
    ∷ (codes "392", codes "JPY")
    ∷ (codes "036", codes "AUD")
    ∷ (codes "124", codes "CAD")
    ∷ (codes "344", codes "HKD")
    ∷ (codes "702", codes "SGD")
    ∷ []

unfoldable pub pan_masked : IpmRecord → Text
pan_masked r =
    if ltb 8 (length r.de2_pan)
    then take 6 r.de2_pan ++ codes "****" ++ drop (length r.de2_pan - 4) r.de2_pan
    else codes "****"

abbrev pub is_empty : Text → Bool
is_empty [] = true
is_empty (c ∷ t) = false

unfoldable pub txn_date_formatted : IpmRecord → Text
txn_date_formatted r =
    if is_empty r.de13_date
    then codes "unknown"
    else if is_empty r.de12_time
    then r.de13_date
    else r.de13_date ++ 32 ∷ r.de12_time

unfoldable pub is_presentment : IpmRecord → Bool
is_presentment r = r.mti == codes "1240"

unfoldable pub is_fee : IpmRecord → Bool
is_fee r = r.mti == codes "1442"

unfoldable pub currency_alpha : IpmRecord → Text
currency_alpha r = elim (lookup r.de49_txn_currency currency_map) [
  | none ↦ r.de49_txn_currency
  | some c ↦ c
]

unfoldable pub safe_int : Text → ℤ
safe_int t = elim (int_text t) [ none ↦ pos 0 | some z ↦ z ]

-- The field that a tag names is set; an unknown tag sets none.
unfoldable pub assign : Text → Text → IpmRecord → IpmRecord
unfolding safe_int
assign tag value r =
    if tag == codes "02"
    then record r { de2_pan = value }
    else if tag == codes "03"
    then record r { de3_proc_code = value }
    else if tag == codes "04"
    then record r { de4_txn_amount = safe_int value }
    else if tag == codes "05"
    then record r { de5_settlement_amount = safe_int value }
    else if tag == codes "06"
    then record r { de6_billing_amount = safe_int value }
    else if tag == codes "12"
    then record r { de12_time = value }
    else if tag == codes "13"
    then record r { de13_date = value }
    else if tag == codes "24"
    then record r { de24_function_code = value }
    else if tag == codes "25"
    then record r { de25_reason_code = value }
    else if tag == codes "26"
    then record r { de26_mcc = value }
    else if tag == codes "31"
    then record r { de31_acquirer_ref = value }
    else if tag == codes "38"
    then record r { de38_approval_code = value }
    else if tag == codes "42"
    then record r { de42_acceptor_id = value }
    else if tag == codes "49"
    then record r { de49_txn_currency = value }
    else if tag == codes "50"
    then record r { de50_settle_currency = value }
    else if tag == codes "63"
    then record r { de63_trace_id = value }
    else r

-- data.split("\x1c"), the first part still to be completed
abbrev onto_first : ℕ → List Text → List Text
onto_first c [] = (c ∷ []) ∷ []
onto_first c (p ∷ ps) = (c ∷ p) ∷ ps

unfoldable pub split : Text → List Text
split [] = [] ∷ []
split (c ∷ cs) = let parts = split cs in if nat_beq c 28 then [] ∷ parts else onto_first c parts

unfoldable pub apply_field : Text → IpmRecord → IpmRecord
unfolding assign
apply_field f r = if ltb (length f) 3 then r else assign (take 2 f) (drop 2 f) r

unfoldable pub apply_fields : List Text → IpmRecord → IpmRecord
unfolding apply_field
apply_fields [] r = r
apply_fields (f ∷ fs) r = apply_fields fs (apply_field f r)

unfoldable pub extract_data_elements : IpmRecord → Text → IpmRecord
unfolding apply_fields split
extract_data_elements r text = apply_fields (split text) r

abbrev pub record_kinds : List Text
record_kinds = map codes ("1240" ∷ "1442" ∷ "1740" ∷ "1644" ∷ [])

unfoldable pub parse_record : Text → ℕ → Option IpmRecord
unfolding extract_data_elements
parse_record line line_num =
    if elem (take 4 line) record_kinds
    then some (
        if ltb 4 (length line)
        then extract_data_elements (new_record (take 4 line) line line_num) (drop 4 line)
        else new_record (take 4 line) line line_num)
    else none

-- self.header or self.trailer
pub record Marker : Type 0 where
  pub mti : Text
  pub line : ℕ
  pub raw : Text

pub record IpmParser : Type 0 where
  pub records : List IpmRecord
  pub errors : List Text
  pub header : Option Marker
  pub trailer : Option Marker

abbrev pub new_parser : IpmParser
new_parser = record { records = []; errors = []; header = none; trailer = none }

-- line.rstrip("\n\r")
abbrev pub onto_rest : ℕ → Text → Text
onto_rest c [] = if nat_beq c 10 || nat_beq c 13 then [] else c ∷ []
onto_rest c (d ∷ ds) = c ∷ d ∷ ds

unfoldable pub chomp : Text → Text
chomp [] = []
chomp (c ∷ cs) = onto_rest c (chomp cs)

abbrev kept : Option IpmRecord → IpmParser → IpmParser
kept none p = p
kept (some r) p = record p { records = p.records ++ r ∷ [] }

-- One round of the loop, for the line without its end. `_parse_record` raises nothing on a text,
-- so that no error is ever noted.
unfoldable pub parse_line : ℕ → Text → IpmParser → IpmParser
parse_line i line p =
    if ltb (length line) 4
    then p
    else if elem (take 4 line) (map codes ("1100" ∷ "1800" ∷ []))
    then record p { header = some (record { mti = take 4 line; line = i; raw = line }) }
    else if elem (take 4 line) (map codes ("1820" ∷ "9999" ∷ []))
    then record p { trailer = some (record { mti = take 4 line; line = i; raw = line }) }
    else kept (parse_record line i) p

unfoldable pub parse_from : ℕ → List Text → IpmParser → IpmParser
unfolding parse_line chomp
parse_from i [] p = p
parse_from i (line ∷ lines) p = parse_from (i + 1) lines (parse_line i (chomp line) p)

unfoldable pub parse_lines : List Text → IpmParser → IpmParser
unfolding parse_from
parse_lines lines p = parse_from 1 lines (record p { records = []; errors = [] })
