-- ===== src/Settlement/Parser/Tests.antt =====
-- A file printed and read back, its summary, and its reconciliation.
use banxe_payment_core.Prelude.{
  pos, negsuc, ◌≡◌, refl, [], ◌∷◌, map, lookup, some, arith, list_comparable, ℕ_comparable,
}
use banxe_payment_core.Python.{Text, codes}
use banxe_payment_core.Settlement.Parser.{IpmRecord, new_record, IpmParser, new_parser, parse_lines}
use banxe_payment_core.Settlement.Files.{Files}
use banxe_payment_core.Settlement.Reconciler.{InternalTransaction}
use banxe_payment_core.Settlement.Parser.Tally.{summary}
use banxe_payment_core.Settlement.Parser.Printer.{Printable}
use banxe_payment_core.Settlement.Parser.RoundTrip.{print_line, numbered, parse_lines-print}
use banxe_payment_core.Settlement.Parser.Totals.{
  grouped, of_currency, counts, amounts, summary-by_currency,
}

abbrev sale : IpmRecord
sale = record (new_record (codes "1240") [] 0) {
  de2_pan = codes "5500000000000004";
  de4_txn_amount = pos 1250;
  de5_settlement_amount = negsuc 1249;
  de49_txn_currency = codes "978";
}

abbrev fee : IpmRecord
fee = record (new_record (codes "1442") [] 0) {
  de4_txn_amount = negsuc 4;
  de13_date = codes "1101";
  de49_txn_currency = codes "978";
}

sale-Printable : Printable sale
sale-Printable = record { kind = refl; texts = ground arith }

fee-Printable : Printable fee
fee-Printable = record { kind = refl; texts = ground arith }

abbrev earlier : IpmParser
earlier = record new_parser { records = fee ∷ []; errors = codes "Line 1" ∷ [] }

parse_lines-print_example :
    parse_lines (map print_line (sale ∷ fee ∷ [])) earlier
    ≡ record earlier { records = numbered 1 (sale ∷ fee ∷ []); errors = [] }
parse_lines-print_example =
    parse_lines-print (sale ∷ fee ∷ []) earlier (sale-Printable, (fee-Printable, tt))

abbrev read : IpmParser
read = record new_parser { records = sale ∷ fee ∷ [] }

summary-by_currency_example :
    ((k : Text) → lookup k (summary read).by_currency ≡ grouped (of_currency k read.records))
    × (counts (summary read).by_currency ≡ (summary read).total_records)
    × (amounts (summary read).by_currency ≡ (summary read).total_txn_amount_cents)
summary-by_currency_example = summary-by_currency read

-- The transaction of `sale`, but for one cent.
abbrev charge : InternalTransaction
charge = record {
  txn_id = codes "t1";
  pan_last4 = codes "0004";
  amount_cents = pos 1251;
  currency = codes "EUR";
  approval_code = [];
  merchant_id = [];
  txn_date = [];
  status = codes "settled";
}

abbrev files : Files
files path = some (map print_line (sale ∷ fee ∷ []))
