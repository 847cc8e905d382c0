-- ===== src/Settlement/Parser/Lines.antt =====
-- Which lines of a file become records in src/settlement/ipm_parser.py.
use banxe_payment_core.Prelude.{
  ℕ, ◌+◌, ltb, ◌≡◌, ◌⊎◌, refl, sym, ap, ◌∙◌, ℕ_comparable, list_comparable, list_beq_iff, elem,
  true, false, if◌then◌else◌, Option, none, some, List, [], ◌∷◌, ◌++◌, map, length, take, drop,
  arith, Bool-cases, inl, inr,
}
use mathlib.Core.List.{append-nil, append_assoc, map-append}
use banxe_payment_core.Python.{Text, codes}
use banxe_payment_core.Settlement.Parser.{
  IpmRecord, new_record, assign, apply_field, apply_fields, split, extract_data_elements,
  record_kinds, parse_record, kept, IpmParser, chomp, parse_line, parse_from, parse_lines,
}

-- Where a record comes from: the number of its line, the line without its end, and its type.
abbrev pub origin : IpmRecord → ℕ × Text × Text
origin r = (r.line_number, r.raw_line, r.mti)

-- The lines that begin with one of the four record types, with their numbers from `i` on.
unfoldable pub record_lines : ℕ → List Text → List (ℕ × Text × Text)
record_lines i [] = []
record_lines i (line ∷ lines) =
    let rest = record_lines (i + 1) lines in
    let text = chomp line in
    if elem (take 4 text) record_kinds then (i, text, take 4 text) ∷ rest else rest

assign-origin : (tag value : Text) (r : IpmRecord) → origin (assign tag value r) ≡ origin r
unfolding assign
assign-origin tag value r = ground arith

apply_fields-origin : (fs : List Text) (r : IpmRecord) → origin (apply_fields fs r) ≡ origin r
unfolding apply_fields apply_field
apply_fields-origin [] r = refl
apply_fields-origin (f ∷ fs) r =
    apply_fields-origin fs (apply_field f r) ∙ ground (arith, assign-origin (take 2 f) (drop 2 f) r)

abbrev origins : Option IpmRecord → List (ℕ × Text × Text)
origins none = []
origins (some r) = origin r ∷ []

abbrev expected : ℕ → Text → List (ℕ × Text × Text)
expected i line = if elem (take 4 line) record_kinds then (i, line, take 4 line) ∷ [] else []

parse_record-origins : (line : Text) (i : ℕ) → origins (parse_record line i) ≡ expected i line
unfolding parse_record extract_data_elements
parse_record-origins line i =
    ground (arith, apply_fields-origin (split (drop 4 line)) (new_record (take 4 line) line i))

short-kinds : (line : Text) → ltb (length line) 4 ≡ true → elem (take 4 line) record_kinds ≡ false
short-kinds [] h = refl
short-kinds (a ∷ []) h = ground arith
short-kinds (a ∷ b ∷ []) h = ground arith
short-kinds (a ∷ b ∷ c ∷ []) h = ground arith
short-kinds (a ∷ b ∷ c ∷ d ∷ l) h = ground arith

elem-two : (m a b : Text) → elem m (a ∷ b ∷ []) ≡ true → (m ≡ a) ⊎ (m ≡ b)
elem-two m a b h = ground (arith, list_beq_iff m a, list_beq_iff m b)

-- A header or a trailer is no record.
headers-kinds :
    (m : Text) → elem m (map codes ("1100" ∷ "1800" ∷ [])) ≡ true → elem m record_kinds ≡ false
headers-kinds m h = elim (elem-two m (codes "1100") (codes "1800") h) [
  | inl e ↦ rw e refl
  | inr e ↦ rw e refl
]

trailers-kinds :
    (m : Text) → elem m (map codes ("1820" ∷ "9999" ∷ [])) ≡ true → elem m record_kinds ≡ false
trailers-kinds m h = elim (elem-two m (codes "1820") (codes "9999") h) [
  | inl e ↦ rw e refl
  | inr e ↦ rw e refl
]

abbrev kept_origins : IpmParser → List (ℕ × Text × Text)
kept_origins p = map origin p.records

kept-origins :
    (o : Option IpmRecord) (p : IpmParser) → kept_origins (kept o p) ≡ kept_origins p ++ origins o
kept-origins none p = sym (append-nil (kept_origins p))
kept-origins (some r) p = map-append origin p.records (r ∷ [])

parse_line-origins :
    (i : ℕ) (line : Text) (p : IpmParser)
    → kept_origins (parse_line i line p) ≡ kept_origins p ++ expected i line
unfolding parse_line
parse_line-origins i line p = elim (Bool-cases (ltb (length line) 4)) [
  | inl e ↦ rw (e, short-kinds line e) (sym (append-nil (kept_origins p)))
  | inr e ↦ elim (Bool-cases (elem (take 4 line) (map codes ("1100" ∷ "1800" ∷ [])))) [
    | inl f ↦ rw (e, f, headers-kinds (take 4 line) f) (sym (append-nil (kept_origins p)))
    | inr f ↦ elim (Bool-cases (elem (take 4 line) (map codes ("1820" ∷ "9999" ∷ [])))) [
      | inl g ↦ rw (e, f, g, trailers-kinds (take 4 line) g) (sym (append-nil (kept_origins p)))
      | inr g ↦
          rw (e, f, g)
            (kept-origins (parse_record line i) p
              ∙ ap (λ l. kept_origins p ++ l) (parse_record-origins line i))
    ]
  ]
]

expected-append :
    (i : ℕ) (line : Text) (lines : List Text)
    → expected i (chomp line) ++ record_lines (i + 1) lines ≡ record_lines i (line ∷ lines)
unfolding record_lines
expected-append i line lines = ground arith

parse_from-origins :
    (i : ℕ) (lines : List Text) (p : IpmParser)
    → kept_origins (parse_from i lines p) ≡ kept_origins p ++ record_lines i lines
unfolding parse_from
parse_from-origins i [] p = unfold record_lines in sym (append-nil (kept_origins p))
parse_from-origins i (line ∷ lines) p =
    parse_from-origins (i + 1) lines (parse_line i (chomp line) p)
    ∙ ap (λ l. l ++ record_lines (i + 1) lines) (parse_line-origins i (chomp line) p)
    ∙ append_assoc (kept_origins p) (expected i (chomp line)) (record_lines (i + 1) lines)
    ∙ ap (λ l. kept_origins p ++ l) (expected-append i line lines)

parse_line-errors : (i : ℕ) (line : Text) (p : IpmParser) → (parse_line i line p).errors ≡ p.errors
unfolding parse_line
parse_line-errors i line p = ground arith

parse_from-errors :
    (i : ℕ) (lines : List Text) (p : IpmParser) → (parse_from i lines p).errors ≡ p.errors
unfolding parse_from
parse_from-errors i [] p = refl
parse_from-errors i (line ∷ lines) p =
    parse_from-errors (i + 1) lines (parse_line i (chomp line) p)
    ∙ parse_line-errors i (chomp line) p

-- Whatever a parser held before, `parse_lines` leaves it with no error and with one record for each
-- line that begins with one of the four record types, in the order of the lines, and with the
-- line's number, its text and its type; no other line becomes a record.
parse_lines-origins :
    (lines : List Text) (p : IpmParser)
    → (map origin (parse_lines lines p).records ≡ record_lines 1 lines)
      × ((parse_lines lines p).errors ≡ [])
unfolding parse_lines
parse_lines-origins lines p =
    let q : IpmParser = record p { records = []; errors = [] } in
    (parse_from-origins 1 lines q, parse_from-errors 1 lines q)
