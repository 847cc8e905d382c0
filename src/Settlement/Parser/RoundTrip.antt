-- ===== src/Settlement/Parser/RoundTrip.antt =====
-- A file that src/settlement/ipm_parser.py reads, printed and read back by `parse_lines`.
use banxe_payment_core.Prelude.{
  ℕ, ◌≡◌, refl, sym, ap, ◌∙◌, nat_beq, ltb, elem, ℕ_comparable, list_comparable, true, ◌||◌, false,
  List, [], ◌∷◌, ◌++◌, length, take, All, All-map, All-append, map, ◌+◌, arith, inl, inr,
}
use mathlib.Core.List.{append-nil, append_assoc}
use banxe_payment_core.Python.{Text, codes}
use banxe_payment_core.Settlement.Parser.{
  IpmRecord, record_kinds, onto_rest, chomp, IpmParser, parse_line, parse_from, parse_lines,
}
use banxe_payment_core.Settlement.Parser.Printer.{
  Unsplit, join, fields, print, Printable, renumbered, fields-Unsplit, elem-four, kind-front,
  body-Cons, parse_record-print,
}

-- What `line.rstrip` takes away.
abbrev Kept : Text → Type 0
Kept t = All (λ c. (nat_beq c 10 || nat_beq c 13) ≡ false) t

onto_rest-Kept : (c : ℕ) (t : Text) → (nat_beq c 10 || nat_beq c 13) ≡ false → onto_rest c t ≡ c ∷ t
onto_rest-Kept c [] h = rw h refl
onto_rest-Kept c (d ∷ t) h = refl

chomp-Kept : (t : Text) → Kept t → chomp (t ++ 10 ∷ []) ≡ t
unfolding chomp
chomp-Kept [] h = refl
chomp-Kept (c ∷ t) h = rw (chomp-Kept t h.1) (onto_rest-Kept c t h.0)

unmarked-Kept : (t : Text) → Unsplit t → Kept t
unmarked-Kept t h = All-map (λ c m. ground (arith, m)) t h

join-Kept : (fs : List Text) → All Unsplit fs → Kept (join fs)
unfolding join
join-Kept [] h = tt
join-Kept (f ∷ []) h = unmarked-Kept f h.0
join-Kept (f ∷ g ∷ fs) h =
    All-append (λ c. (nat_beq c 10 || nat_beq c 13) ≡ false) f (28 ∷ join (g ∷ fs))
      (unmarked-Kept f h.0) (refl, join-Kept (g ∷ fs) h.1)

-- The line of a record, with its end.
unfoldable pub print_line : IpmRecord → Text
print_line r = print r ++ 10 ∷ []

kind-Kept : (mti : Text) → elem mti record_kinds ≡ true → Kept mti
kind-Kept mti h =
    elim (elem-four mti (codes "1240") (codes "1442") (codes "1740") (codes "1644") h) [
      | inl e ↦ rw e (refl, (refl, (refl, (refl, tt))))
      | inr (inl e) ↦ rw e (refl, (refl, (refl, (refl, tt))))
      | inr (inr (inl e)) ↦ rw e (refl, (refl, (refl, (refl, tt))))
      | inr (inr (inr e)) ↦ rw e (refl, (refl, (refl, (refl, tt))))
    ]

chomp-print : (r : IpmRecord) → Printable r → chomp (print_line r) ≡ print r
unfolding print_line print
chomp-print r p = chomp-Kept (r.mti ++ join (fields r)) (
    All-append (λ c. (nat_beq c 10 || nat_beq c 13) ≡ false) r.mti (join (fields r))
      (kind-Kept r.mti p.kind) (join-Kept (fields r) (fields-Unsplit r p)))

-- Such a line is neither a header nor a trailer.
kind-record :
    (mti : Text)
    → elem mti record_kinds ≡ true
    → (elem mti (map codes ("1100" ∷ "1800" ∷ [])) ≡ false)
      × (elem mti (map codes ("1820" ∷ "9999" ∷ [])) ≡ false)
kind-record mti h =
    elim (elem-four mti (codes "1240") (codes "1442") (codes "1740") (codes "1644") h) [
      | inl e ↦ rw e (refl, refl)
      | inr (inl e) ↦ rw e (refl, refl)
      | inr (inr (inl e)) ↦ rw e (refl, refl)
      | inr (inr (inr e)) ↦ rw e (refl, refl)
    ]

parse_line-print :
    (r : IpmRecord) (i : ℕ) (p : IpmParser)
    → Printable r
    → parse_line i (print r) p ≡ record p { records = p.records ++ renumbered (print r) i r ∷ [] }
unfolding parse_line
parse_line-print r i p h =
    let (c, rest, e) = body-Cons r in
    let line : print r ≡ r.mti ++ c ∷ rest = unfold print in ap (λ t. r.mti ++ t) e in
    let (front, _, _, longer) = kind-front r.mti c rest h.kind in
    let (header, trailer) = kind-record r.mti h.kind in
    rw
      (
        ap (λ t. ltb (length t) 4) line ∙ longer,
        ap (take 4) line ∙ front,
        header,
        trailer,
        parse_record-print r i h,
      )
      refl

-- The records of a file, with the numbers and the texts of their lines, from `i` on.
unfoldable pub numbered : ℕ → List IpmRecord → List IpmRecord
numbered i [] = []
numbered i (r ∷ rs) = renumbered (print r) i r ∷ numbered (i + 1) rs

parse_from-print :
    (i : ℕ) (rs : List IpmRecord) (p : IpmParser)
    → All Printable rs
    → parse_from i (map print_line rs) p ≡ record p { records = p.records ++ numbered i rs }
unfolding parse_from numbered
parse_from-print i [] p h = ap (λ l. record p { records = l }) (sym (append-nil p.records))
parse_from-print i (r ∷ rs) p h =
    ap (λ t. parse_from (i + 1) (map print_line rs) (parse_line i t p)) (chomp-print r h.0)
    ∙ ap (parse_from (i + 1) (map print_line rs)) (parse_line-print r i p h.0)
    ∙ parse_from-print (i + 1) rs _ h.1
    ∙ ap (λ l. record p { records = l })
        (append_assoc p.records (renumbered (print r) i r ∷ []) (numbered (i + 1) rs))

-- A file made of the lines of any records, of the four types and without separators or ends of
-- lines in their texts, is read back: whatever the parser held before, `parse_lines` leaves it with
-- these records in their order, with the numbers and the texts of their lines, and with no error.
pub parse_lines-print :
    (rs : List IpmRecord) (p : IpmParser)
    → All Printable rs
    → parse_lines (map print_line rs) p ≡ record p { records = numbered 1 rs; errors = [] }
unfolding parse_lines
parse_lines-print rs p h = parse_from-print 1 rs (record p { records = []; errors = [] }) h
