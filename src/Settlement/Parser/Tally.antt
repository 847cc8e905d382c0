-- ===== src/Settlement/Parser/Tally.antt =====
-- `IPMParser.summary` of src/settlement/ipm_parser.py.
use banxe_payment_core.Prelude.{
  ℕ, suc, ◌+◌, ℤ, pos, ◌+ℤ◌, ℕ_comparable, list_comparable, Bool, if◌then◌else◌, Option, none, some,
  List, [], ◌∷◌, length, Dict, lookup, insert,
}
use banxe_payment_core.Python.{Text}
use banxe_payment_core.Settlement.Parser.{
  IpmRecord, is_presentment, is_fee, currency_alpha, IpmParser,
}

-- An entry of `by_currency`.
pub record Share : Type 0 where
  pub count : ℕ
  pub amount : ℤ

abbrev pub or_empty : Option Share → Share
or_empty none = record { count = 0; amount = pos 0 }
or_empty (some s) = s

abbrev pub with_record : IpmRecord → Share → Share
with_record r s = record { count = s.count + 1; amount = s.amount +ℤ r.de4_txn_amount }

-- The loop of `summary`: `setdefault` and the two `+=`.
unfoldable pub tally : List IpmRecord → Dict Text Share → Dict Text Share
tally [] d = d
tally (r ∷ rs) d =
    tally rs (insert (currency_alpha r) (with_record r (or_empty (lookup (currency_alpha r) d))) d)

unfoldable pub sum_of : (IpmRecord → ℤ) → List IpmRecord → ℤ
sum_of f [] = pos 0
sum_of f (r ∷ rs) = f r +ℤ sum_of f rs

unfoldable pub count_of : (IpmRecord → Bool) → List IpmRecord → ℕ
count_of p [] = 0
count_of p (r ∷ rs) = let n = count_of p rs in if p r then suc n else n

pub record Summary : Type 0 where
  pub total_records : ℕ
  pub presentments : ℕ
  pub fees : ℕ
  pub total_txn_amount_cents : ℤ
  pub total_settle_amount_cents : ℤ
  pub by_currency : Dict Text Share
  pub parse_errors : ℕ

unfoldable pub summary : IpmParser → Summary
unfolding tally sum_of count_of
summary p = record {
  total_records = length p.records;
  presentments = count_of is_presentment p.records;
  fees = count_of is_fee p.records;
  total_txn_amount_cents = sum_of (λ r. r.de4_txn_amount) p.records;
  total_settle_amount_cents = sum_of (λ r. r.de5_settlement_amount) p.records;
  by_currency = tally p.records [];
  parse_errors = length p.errors;
}
