-- ===== src/Python/Decimals.antt =====
-- Decimal(text) for the plain notation: a sign, digits, a point and at most eighteen more digits.
-- The unit is 10^-18. Exponents, NaN, infinities, outer blanks and underscores are not read here.
use Prim.Native.Char.{code}
use banxe_payment_core.Prelude.{
  ℕ, zero, suc, ◌+◌, ◌-◌, ◌*◌, ◌^◌, ℤ, pos, negsuc, String, Bool, ◌&&◌, leb, ltb, nat_beq,
  if◌then◌else◌, Option, none, some, List, [], ◌∷◌,
}

-- The code points of a text.
abbrev pub Text : Type 0
Text = List ℕ

abbrev pub codes : String → Text
codes String.[] = []
codes (String.◌∷◌ c s) = code c ∷ codes s

unfoldable pub is_digit : ℕ → Bool
is_digit c = leb b'0' c && leb c b'9'

-- Reads digits behind `n` digits read so far, with value `acc`: the value, their number, the rest.
take_digits : ℕ → ℕ → Text → record { value : ℕ; count : ℕ; rest : Text }
unfolding is_digit
take_digits acc n [] = record { value = acc; count = n; rest = [] }
take_digits acc n (c ∷ cs) =
    let more = take_digits (acc * 10 + (c - b'0')) (n + 1) cs in
    if is_digit c then more else record { value = acc; count = n; rest = c ∷ cs }

-- The fraction digits behind the point.
fraction : ℕ → ℕ → Text → Option ℕ
unfolding take_digits
fraction acc n cs =
    let f = take_digits acc 0 cs in
    elim f.rest [
      | [] ↦
          if ltb 18 f.count
          then none
          else if nat_beq (n + f.count) 0
          then none
          else some (f.value * 10 ^ (18 - f.count))
      | c ∷ r ↦ none
    ]

magnitude : Text → Option ℕ
unfolding take_digits fraction
magnitude cs =
    let w = take_digits 0 0 cs in
    elim w.rest [
      | [] ↦ if nat_beq w.count 0 then none else some (w.value * 10 ^ 18)
      | c ∷ r ↦ if nat_beq c b'.' then fraction w.value w.count r else none
    ]

abbrev pub negated : Option ℕ → Option ℤ
negated none = none
negated (some zero) = some (pos zero)
negated (some (suc n)) = some (negsuc n)

abbrev pub positive : Option ℕ → Option ℤ
positive none = none
positive (some n) = some (pos n)

signed : Text → Option ℤ
unfolding magnitude
signed [] = none
signed (c ∷ cs) =
    if nat_beq c b'-'
    then negated (magnitude cs)
    else if nat_beq c b'+'
    then positive (magnitude cs)
    else positive (magnitude (c ∷ cs))

-- `none` is decimal.InvalidOperation.
unfoldable pub decimal : String → Option ℤ
unfolding signed
decimal s = signed (codes s)
