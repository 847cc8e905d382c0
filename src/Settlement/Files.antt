-- ===== src/Settlement/Files.antt =====
-- `parse_file` of src/settlement/ipm_parser.py, and a file that is read and then reconciled.
use banxe_payment_core.Prelude.{
  pos, abs_ℤ, leb_ℤ, ◌-ℤ◌, ◌==◌, ◌&&◌, ◌||◌, ℕ_comparable, list_comparable, Bool, if◌then◌else◌, ℤ,
  ◌≡◌, refl, Option, none, some, List, [],
}
use banxe_payment_core.Exec.{other, ok, raised, Exec}
use banxe_payment_core.Python.{Text}
use banxe_payment_core.Settlement.Parser.{IpmRecord, IpmParser, currency_alpha, parse_lines}
use banxe_payment_core.Settlement.Reconciler.{InternalTransaction, Status, ReconciliationResult}

-- The files by their paths, each as the lines that `readlines` returns. The message of
-- FileNotFoundError is without the path.
abbrev pub Files : Type 0
Files = Text → Option (List Text)

abbrev parse_found : Option (List Text) → Exec IpmParser (List IpmRecord)
parse_found none p = (raised (other "FileNotFoundError" "IPM file not found"), p)
parse_found (some lines) p = (ok (parse_lines lines p).records, parse_lines lines p)

unfoldable pub parse_file : Files → Text → Exec IpmParser (List IpmRecord)
parse_file files path = parse_found (files path)

-- What a reconciliation finds out about a record, without the texts of the discrepancies.
abbrev pub finding : ReconciliationResult → Option InternalTransaction × Status
finding r = (r.internal_txn, r.status)

-- The amounts are within the tolerance, and the record's currency, if it has a known one, is the
-- transaction's.
abbrev pub agrees : ℤ → IpmRecord → InternalTransaction → Bool
agrees tolerance r t =
    leb_ℤ (pos (abs_ℤ (r.de4_txn_amount -ℤ t.amount_cents))) tolerance
    && (currency_alpha r == [] || currency_alpha r == t.currency)

-- What is to be found out, by the transaction that belongs to the record.
abbrev pub found : ℤ → IpmRecord → Option InternalTransaction → Option InternalTransaction × Status
found tolerance r none = (none, Status.unmatched)
found tolerance r (some t) =
    (some t, if agrees tolerance r t then Status.matched else Status.discrepancy)

-- A path under which there is no file raises FileNotFoundError and leaves the parser as it was.
parse_file-missing :
    (files : Files) (path : Text) (p : IpmParser)
    → files path ≡ none
    → parse_file files path p ≡ (raised (other "FileNotFoundError" "IPM file not found"), p)
unfolding parse_file
parse_file-missing files path p h = rw h refl
