-- ===== src/Settlement/Parser/Printer.antt =====
-- A line that src/settlement/ipm_parser.py reads, printed and read back by `_parse_record`.
use banxe_payment_core.Prelude.{
  list_beq_iff, ℕ, ℤ, ◌⊎◌, ◌≡◌, refl, sym, ap, ◌∙◌, nat_beq, ltb, elem, ℕ_comparable,
  list_comparable, Bool, true, ◌||◌, false, some, List, [], ◌∷◌, ◌++◌, length, take, drop, All,
  arith, inl, inr,
}
use banxe_payment_core.Python.{
  Text, codes, int_text, is_digit, str_ℤ, int_text-str_ℤ, str_ℤ-All, int_text-nil,
}
use banxe_payment_core.Settlement.Parser.{
  IpmRecord, new_record, safe_int, assign, split, apply_field, apply_fields, extract_data_elements,
  record_kinds, parse_record,
}

-- The separator, "\x1c", does not occur in the text, and no end of a line.
abbrev pub marks : ℕ → Bool
marks c = nat_beq c 28 || nat_beq c 10 || nat_beq c 13

abbrev pub Unsplit : Text → Type 0
Unsplit t = All (λ c. marks c ≡ false) t

-- "\x1c".join(fields)
unfoldable pub join : List Text → Text
join [] = []
join (f ∷ []) = f
join (f ∷ g ∷ fs) = f ++ 28 ∷ join (g ∷ fs)

unmarked : (c : ℕ) → marks c ≡ false → nat_beq c 28 ≡ false
unmarked c h = ground arith

split-last : (f : Text) → Unsplit f → split f ≡ f ∷ []
unfolding split
split-last [] h = refl
split-last (c ∷ f) h = rw (unmarked c h.0, split-last f h.1) refl

split-piece : (f rest : Text) → Unsplit f → split (f ++ 28 ∷ rest) ≡ f ∷ split rest
unfolding split
split-piece [] rest h = refl
split-piece (c ∷ f) rest h = rw (unmarked c h.0, split-piece f rest h.1) refl

split-join : (f : Text) (fs : List Text) → All Unsplit (f ∷ fs) → split (join (f ∷ fs)) ≡ f ∷ fs
unfolding join
split-join f [] h = split-last f h.0
split-join f (g ∷ fs) h =
    split-piece f (join (g ∷ fs)) h.0 ∙ ap (λ gs. f ∷ gs) (split-join g fs h.1)

-- The fields of a record's body, each behind its tag.
unfoldable pub fields : IpmRecord → List Text
fields r =
    (codes "02" ++ r.de2_pan)
    ∷ (codes "03" ++ r.de3_proc_code)
    ∷ (codes "04" ++ str_ℤ r.de4_txn_amount)
    ∷ (codes "05" ++ str_ℤ r.de5_settlement_amount)
    ∷ (codes "06" ++ str_ℤ r.de6_billing_amount)
    ∷ (codes "12" ++ r.de12_time)
    ∷ (codes "13" ++ r.de13_date)
    ∷ (codes "24" ++ r.de24_function_code)
    ∷ (codes "25" ++ r.de25_reason_code)
    ∷ (codes "26" ++ r.de26_mcc)
    ∷ (codes "31" ++ r.de31_acquirer_ref)
    ∷ (codes "38" ++ r.de38_approval_code)
    ∷ (codes "42" ++ r.de42_acceptor_id)
    ∷ (codes "49" ++ r.de49_txn_currency)
    ∷ (codes "50" ++ r.de50_settle_currency)
    ∷ (codes "63" ++ r.de63_trace_id)
    ∷ []

-- The line of a record: its type, and its fields behind separators.
unfoldable pub print : IpmRecord → Text
unfolding join fields
print r = r.mti ++ join (fields r)

-- The type is one that becomes a record, and no text field holds the separator or an end of a line.
pub record Printable (r : IpmRecord) : Type 0 where
  pub kind : elem r.mti record_kinds ≡ true
  pub texts : All Unsplit (
      r.de2_pan ∷ r.de3_proc_code ∷ r.de12_time ∷ r.de13_date ∷ r.de24_function_code
      ∷ r.de25_reason_code ∷ r.de26_mcc ∷ r.de31_acquirer_ref ∷ r.de38_approval_code
      ∷ r.de42_acceptor_id ∷ r.de49_txn_currency ∷ r.de50_settle_currency ∷ r.de63_trace_id ∷ [])

long : (a b c : ℕ) (cs : Text) → ltb (length (a ∷ b ∷ c ∷ cs)) 3 ≡ false
long a b c cs = ground arith

-- A field's text of two characters is skipped, which leaves its field empty.
text_field :
    (a b : ℕ) (put : Text → IpmRecord → IpmRecord) (v : Text) (r : IpmRecord) (fs : List Text)
    → put [] r ≡ r
    → ((c : ℕ) (cs : Text) → assign (a ∷ b ∷ []) (c ∷ cs) r ≡ put (c ∷ cs) r)
    → apply_fields ((a ∷ b ∷ v) ∷ fs) r ≡ apply_fields fs (put v r)
unfolding apply_fields apply_field
text_field a b put [] r fs e h = ap (apply_fields fs) (sym e)
text_field a b put (c ∷ cs) r fs e h = rw (long a b c cs) (ap (apply_fields fs) (h c cs))

number_field :
    (a b : ℕ) (put : ℤ → IpmRecord → IpmRecord) (t : Text) (z : ℤ) (r : IpmRecord) (fs : List Text)
    → int_text t ≡ some z
    → assign (a ∷ b ∷ []) t r ≡ put (safe_int t) r
    → apply_fields ((a ∷ b ∷ t) ∷ fs) r ≡ apply_fields fs (put z r)
unfolding apply_fields apply_field safe_int
number_field a b put [] z r fs e h = cc (int_text-nil, e)
number_field a b put (c ∷ cs) z r fs e h =
    rw (long a b c cs) (ap (apply_fields fs) (h ∙ rw (e, safe_int) refl))

abbrev pub renumbered : Text → ℕ → IpmRecord → IpmRecord
renumbered line n r = record r { raw_line = line; line_number = n }

no_more : (r : IpmRecord) → apply_fields [] r ≡ r
unfolding apply_fields
no_more r = refl

-- The fields of a record, set one after the other in an empty one, give the record.
fields-applied :
    (r : IpmRecord) (line : Text) (n : ℕ)
    → apply_fields (fields r) (new_record r.mti line n) ≡ renumbered line n r
unfolding fields assign
fields-applied r line n =
    text_field b'0' b'2' (λ v s. record s { de2_pan = v }) r.de2_pan _ _ refl (λ c cs. refl)
    ∙ text_field b'0' b'3' (λ v s. record s { de3_proc_code = v }) r.de3_proc_code _ _ refl
        (λ c cs. refl)
    ∙ number_field b'0' b'4' (λ v s. record s { de4_txn_amount = v }) (str_ℤ r.de4_txn_amount)
        r.de4_txn_amount _ _ (int_text-str_ℤ r.de4_txn_amount) refl
    ∙ number_field b'0' b'5' (λ v s. record s { de5_settlement_amount = v })
        (str_ℤ r.de5_settlement_amount) r.de5_settlement_amount _ _
        (int_text-str_ℤ r.de5_settlement_amount) refl
    ∙ number_field b'0' b'6' (λ v s. record s { de6_billing_amount = v })
        (str_ℤ r.de6_billing_amount) r.de6_billing_amount _ _ (int_text-str_ℤ r.de6_billing_amount)
        refl
    ∙ text_field b'1' b'2' (λ v s. record s { de12_time = v }) r.de12_time _ _ refl (λ c cs. refl)
    ∙ text_field b'1' b'3' (λ v s. record s { de13_date = v }) r.de13_date _ _ refl (λ c cs. refl)
    ∙ text_field b'2' b'4' (λ v s. record s { de24_function_code = v }) r.de24_function_code _ _
        refl (λ c cs. refl)
    ∙ text_field b'2' b'5' (λ v s. record s { de25_reason_code = v }) r.de25_reason_code _ _ refl
        (λ c cs. refl)
    ∙ text_field b'2' b'6' (λ v s. record s { de26_mcc = v }) r.de26_mcc _ _ refl (λ c cs. refl)
    ∙ text_field b'3' b'1' (λ v s. record s { de31_acquirer_ref = v }) r.de31_acquirer_ref _ _ refl
        (λ c cs. refl)
    ∙ text_field b'3' b'8' (λ v s. record s { de38_approval_code = v }) r.de38_approval_code _ _
        refl (λ c cs. refl)
    ∙ text_field b'4' b'2' (λ v s. record s { de42_acceptor_id = v }) r.de42_acceptor_id _ _ refl
        (λ c cs. refl)
    ∙ text_field b'4' b'9' (λ v s. record s { de49_txn_currency = v }) r.de49_txn_currency _ _ refl
        (λ c cs. refl)
    ∙ text_field b'5' b'0' (λ v s. record s { de50_settle_currency = v }) r.de50_settle_currency _ _
        refl (λ c cs. refl)
    ∙ text_field b'6' b'3' (λ v s. record s { de63_trace_id = v }) r.de63_trace_id _ _ refl
        (λ c cs. refl)
    ∙ no_more (renumbered line n r)

digit-Unsplit : (c : ℕ) → is_digit c ≡ true → marks c ≡ false
unfolding is_digit
digit-Unsplit c h = ground arith

number-Unsplit : (z : ℤ) → Unsplit (str_ℤ z)
number-Unsplit z = str_ℤ-All (λ c. marks c ≡ false) digit-Unsplit refl z

pub fields-Unsplit : (r : IpmRecord) → Printable r → All Unsplit (fields r)
unfolding fields
fields-Unsplit r p =
    let h = p.texts in
    let n4 = number-Unsplit r.de4_txn_amount in
    let n5 = number-Unsplit r.de5_settlement_amount in
    let n6 = number-Unsplit r.de6_billing_amount in
    (
      (refl, (refl, h.0)),
      (
        (refl, (refl, h.1.0)),
        (
          (refl, (refl, n4)),
          (
            (refl, (refl, n5)),
            (
              (refl, (refl, n6)),
              (
                (refl, (refl, h.1.1.0)),
                (
                  (refl, (refl, h.1.1.1.0)),
                  (
                    (refl, (refl, h.1.1.1.1.0)),
                    (
                      (refl, (refl, h.1.1.1.1.1.0)),
                      (
                        (refl, (refl, h.1.1.1.1.1.1.0)),
                        (
                          (refl, (refl, h.1.1.1.1.1.1.1.0)),
                          (
                            (refl, (refl, h.1.1.1.1.1.1.1.1.0)),
                            (
                              (refl, (refl, h.1.1.1.1.1.1.1.1.1.0)),
                              (
                                (refl, (refl, h.1.1.1.1.1.1.1.1.1.1.0)),
                                (
                                  (refl, (refl, h.1.1.1.1.1.1.1.1.1.1.1.0)),
                                  ((refl, (refl, h.1.1.1.1.1.1.1.1.1.1.1.1.0)), tt),
                                ),
                              ),
                            ),
                          ),
                        ),
                      ),
                    ),
                  ),
                ),
              ),
            ),
          ),
        ),
      ),
    )

pub elem-four :
    (m a b c d : Text) → elem m (a ∷ b ∷ c ∷ d ∷ []) ≡ true → (m ≡ a) ⊎ (m ≡ b) ⊎ (m ≡ c) ⊎ (m ≡ d)
elem-four m a b c d h =
    ground (arith, list_beq_iff m a, list_beq_iff m b, list_beq_iff m c, list_beq_iff m d)

-- A text that goes on behind one of the four record types.
pub kind-front :
    (mti : Text) (c : ℕ) (rest : Text)
    → elem mti record_kinds ≡ true
    → (take 4 (mti ++ c ∷ rest) ≡ mti)
      × (drop 4 (mti ++ c ∷ rest) ≡ c ∷ rest)
      × (ltb 4 (length (mti ++ c ∷ rest)) ≡ true)
      × (ltb (length (mti ++ c ∷ rest)) 4 ≡ false)
kind-front mti c rest h =
    elim (elem-four mti (codes "1240") (codes "1442") (codes "1740") (codes "1644") h) [
      | inl e ↦ rw e (refl, refl, ground arith, ground arith)
      | inr (inl e) ↦ rw e (refl, refl, ground arith, ground arith)
      | inr (inr (inl e)) ↦ rw e (refl, refl, ground arith, ground arith)
      | inr (inr (inr e)) ↦ rw e (refl, refl, ground arith, ground arith)
    ]

pub body-Cons : (r : IpmRecord) → (c : ℕ) × (rest : Text) × (join (fields r) ≡ c ∷ rest)
unfolding fields join
body-Cons r = (_, _, refl)

body-split : (r : IpmRecord) → Printable r → split (join (fields r)) ≡ fields r
unfolding fields
body-split r p = split-join _ _ (fields-Unsplit r p)

-- A record that is printed is read back.
pub parse_record-print :
    (r : IpmRecord) (i : ℕ)
    → Printable r
    → parse_record (print r) i ≡ some (renumbered (print r) i r)
unfolding parse_record extract_data_elements print
parse_record-print r i p =
    let (c, rest, e) = body-Cons r in
    let (front, back, longer, _) = kind-front r.mti c rest p.kind in
    let split : apply_fields (split (c ∷ rest)) (new_record r.mti (r.mti ++ c ∷ rest) i)
        ≡ renumbered (r.mti ++ c ∷ rest) i r =
      ap (λ t. apply_fields (split t) (new_record r.mti (r.mti ++ c ∷ rest) i)) (sym e)
      ∙ ap (λ fs. apply_fields fs (new_record r.mti (r.mti ++ c ∷ rest) i)) (body-split r p)
      ∙ fields-applied r (r.mti ++ c ∷ rest) i in
    rw e (rw (front, back, longer, p.kind) (ap some split))
