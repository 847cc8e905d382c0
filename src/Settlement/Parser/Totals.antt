-- ===== src/Settlement/Parser/Totals.antt =====
-- `IPMParser.summary` of src/settlement/ipm_parser.py, against the records themselves.
use banxe_payment_core.Prelude.{
  ℕ, ◌+◌, ℤ, pos, ◌+ℤ◌, int_laws, ◌≡◌, refl, sym, ap, ◌∙◌, Bool-cases, inl, inr, if◌then◌else◌,
  Option, none, some, List, [], ◌∷◌, length, Dict, lookup, insert, insert-here, insert-there,
  lookup-insert, ◌==◌, list_comparable, ℕ_comparable, list_beq_iff, arith,
}
use banxe_payment_core.Python.{Text}
use banxe_payment_core.Settlement.Parser.{IpmRecord, currency_alpha, IpmParser}
use banxe_payment_core.Settlement.Parser.Tally.{
  Share, or_empty, with_record, tally, sum_of, summary,
}

+ℤ_zero : (a : ℤ) → a +ℤ pos 0 ≡ a
+ℤ_zero a = omega int_laws

+ℤ_assoc : (a b c : ℤ) → a +ℤ b +ℤ c ≡ a +ℤ (b +ℤ c)
+ℤ_assoc a b c = omega int_laws

+ℤ_swap : (a b c : ℤ) → a +ℤ b +ℤ c ≡ a +ℤ c +ℤ b
+ℤ_swap a b c = omega int_laws

zero_+ℤ : (a : ℤ) → pos 0 +ℤ a ≡ a
zero_+ℤ a = omega int_laws

-- The records of a currency, in their order.
unfoldable pub of_currency : Text → List IpmRecord → List IpmRecord
of_currency k [] = []
of_currency k (r ∷ rs) =
    let rest = of_currency k rs in if currency_alpha r == k then r ∷ rest else rest

-- What `by_currency` ought to hold for these records, added to what it holds.
abbrev grown : Option Share → List IpmRecord → Option Share
grown o [] = o
grown o (r ∷ rs) = some (record {
  count = (or_empty o).count + length (r ∷ rs);
  amount = (or_empty o).amount +ℤ sum_of (λ s. s.de4_txn_amount) (r ∷ rs);
})

grown-some :
    (s : Share) (rs : List IpmRecord)
    → grown (some s) rs
      ≡ some (record {
        count = s.count + length rs;
        amount = s.amount +ℤ sum_of (λ r. r.de4_txn_amount) rs;
      })
unfolding sum_of
grown-some s [] = ground (arith, +ℤ_zero s.amount)
grown-some s (r ∷ rs) = refl

grown-step :
    (r : IpmRecord) (o : Option Share) (rs : List IpmRecord)
    → grown (some (with_record r (or_empty o))) rs ≡ grown o (r ∷ rs)
unfolding sum_of
grown-step r o rs =
    grown-some _ rs
    ∙ ground
        (arith, +ℤ_assoc (or_empty o).amount r.de4_txn_amount (sum_of (λ s. s.de4_txn_amount) rs))

-- The entry of a currency, once the next record has been counted.
counted-lookup :
    (k j : Text) (r : IpmRecord) (d : Dict Text Share) (rs : List IpmRecord)
    → grown (lookup k (insert j (with_record r (or_empty (lookup j d))) d)) rs
      ≡ (if j == k then grown (lookup k d) (r ∷ rs) else grown (lookup k d) rs)
counted-lookup k j r d rs = elim (Bool-cases (j == k)) [
  | inl e ↦
      rw (lookup-insert j k (with_record r (or_empty (lookup j d))) d, e)
        (grown-step r (lookup j d) rs
          ∙ ap (λ i. grown (lookup i d) (r ∷ rs)) ((list_beq_iff j k).0 e))
  | inr e ↦ rw (lookup-insert j k (with_record r (or_empty (lookup j d))) d, e) refl
]

tally-lookup :
    (k : Text) (rs : List IpmRecord) (d : Dict Text Share)
    → lookup k (tally rs d) ≡ grown (lookup k d) (of_currency k rs)
unfolding tally of_currency
tally-lookup k [] d = refl
tally-lookup k (r ∷ rs) d =
    tally-lookup k rs
      (insert (currency_alpha r) (with_record r (or_empty (lookup (currency_alpha r) d))) d)
    ∙ counted-lookup k (currency_alpha r) r d (of_currency k rs)
    ∙ ground arith

-- The counts and the amounts of all entries.
unfoldable pub counts : Dict Text Share → ℕ
counts [] = 0
counts ((k, s) ∷ d) = s.count + counts d

unfoldable pub amounts : Dict Text Share → ℤ
amounts [] = pos 0
amounts ((k, s) ∷ d) = s.amount +ℤ amounts d

counted-sums :
    (k : Text) (r : IpmRecord) (d : Dict Text Share)
    → let e = insert k (with_record r (or_empty (lookup k d))) d in
      (counts e ≡ counts d + 1) × (amounts e ≡ amounts d +ℤ r.de4_txn_amount)
unfolding counts amounts
counted-sums k r [] =
    unfold insert in unfold lookup in (refl, ground (arith, +ℤ_zero (pos 0 +ℤ r.de4_txn_amount)))
counted-sums k r ((j, s) ∷ d) = elim (Bool-cases (j == k)) [
  | inl e ↦
      let (l, i) = insert-here k j (with_record r s) s d e in
      let f : (o : Option Share) → o ≡ some s → with_record r (or_empty o) ≡ with_record r s =
        λ o h. ap (λ o. with_record r (or_empty o)) h in
      rw (f _ l, i) (omega arith, +ℤ_swap s.amount r.de4_txn_amount (amounts d))
  | inr e ↦
      let (n, a) = counted-sums k r d in
      let (l, i) = insert-there k j (with_record r (or_empty (lookup k d))) s d e in
      rw (l, i)
        (
          ap (λ m. s.count + m) n ∙ omega arith,
          ap (λ b. s.amount +ℤ b) a ∙ sym (+ℤ_assoc s.amount (amounts d) r.de4_txn_amount),
        )
]

tally-sums :
    (rs : List IpmRecord) (d : Dict Text Share)
    → (counts (tally rs d) ≡ counts d + length rs)
      × (amounts (tally rs d) ≡ amounts d +ℤ sum_of (λ r. r.de4_txn_amount) rs)
unfolding tally sum_of
tally-sums [] d = (omega arith, sym (+ℤ_zero (amounts d)))
tally-sums (r ∷ rs) d =
    let k = currency_alpha r in
    let (n, a) = counted-sums k r d in
    let (m, b) = tally-sums rs (insert k (with_record r (or_empty (lookup k d))) d) in
    (
      m ∙ ap (λ x. x + length rs) n ∙ omega arith,
      b
          ∙ ap (λ x. x +ℤ sum_of (λ r. r.de4_txn_amount) rs) a
          ∙ +ℤ_assoc (amounts d) r.de4_txn_amount (sum_of (λ r. r.de4_txn_amount) rs),
    )

-- What the records of one currency come to.
abbrev pub grouped : List IpmRecord → Option Share
grouped [] = none
grouped (r ∷ rs) =
    some (record { count = length (r ∷ rs); amount = sum_of (λ s. s.de4_txn_amount) (r ∷ rs) })

grown-grouped : (rs : List IpmRecord) → grown none rs ≡ grouped rs
grown-grouped [] = refl
grown-grouped (r ∷ rs) = ground (arith, zero_+ℤ (sum_of (λ s. s.de4_txn_amount) (r ∷ rs)))

-- `summary` has an entry for exactly the currencies of the records, with the number and the total
-- amount of the records of this currency; the numbers of all entries add up to the number of
-- records, and their amounts to the total amount.
pub summary-by_currency :
    (p : IpmParser)
    → ((k : Text) → lookup k (summary p).by_currency ≡ grouped (of_currency k p.records))
      × (counts (summary p).by_currency ≡ (summary p).total_records)
      × (amounts (summary p).by_currency ≡ (summary p).total_txn_amount_cents)
unfolding summary lookup counts amounts
summary-by_currency p =
    let (m, b) = tally-sums p.records [] in
    (
      λ k. tally-lookup k p.records [] ∙ grown-grouped (of_currency k p.records),
      m ∙ omega arith,
      b ∙ zero_+ℤ _,
    )
