-- ===== src/Python/Ints.antt =====
-- int(text) and str(int). Blanks are those of Latin-1; `_` between digits is read as Python does.
use banxe_payment_core.Prelude.{
  ℕ, ◌+◌, ◌-◌, ◌*◌, ℤ, Bool, true, ◌&&◌, ◌||◌, leb, nat_beq, if◌then◌else◌, Option, none, some, [],
  ◌∷◌,
}
use banxe_payment_core.Python.Decimals.{Text, is_digit, negated, positive}

-- str.isspace() on Latin-1
unfoldable pub is_space : ℕ → Bool
is_space c =
    nat_beq c 32
    || (leb 9 c && leb c 13)
    || (leb 28 c && leb c 31)
    || nat_beq c 0x85
    || nat_beq c 0xa0

unfoldable pub lstrip : Text → Text
unfolding is_space
lstrip [] = []
lstrip (c ∷ cs) = if is_space c then lstrip cs else c ∷ cs

all_space : Text → Bool
unfolding is_space
all_space [] = true
all_space (c ∷ cs) = is_space c && all_space cs

-- The digits of a literal behind its first one; the blanks behind it end it.
unfoldable pub more_digits : ℕ → Text → Option ℕ
unfolding is_digit all_space
more_digits acc [] = some acc
more_digits acc (c ∷ []) =
    if is_digit c
    then some (acc * 10 + (c - b'0'))
    else if all_space (c ∷ [])
    then some acc
    else none
more_digits acc (c ∷ d ∷ cs) =
    let next = more_digits (acc * 10 + (c - b'0')) (d ∷ cs) in
    let skip = more_digits (acc * 10 + (d - b'0')) cs in
    if is_digit c
    then next
    else if nat_beq c b'_' && is_digit d
    then skip
    else if all_space (c ∷ d ∷ cs)
    then some acc
    else none

unfoldable pub unsigned : Text → Option ℕ
unfolding is_digit more_digits
unsigned [] = none
unsigned (c ∷ cs) = if is_digit c then more_digits (c - b'0') cs else none

unfoldable pub signed_text : Text → Option ℤ
unfolding unsigned
signed_text [] = none
signed_text (c ∷ cs) =
    if nat_beq c b'-'
    then negated (unsigned cs)
    else if nat_beq c b'+'
    then positive (unsigned cs)
    else positive (unsigned (c ∷ cs))

-- int(text); `none` is ValueError
unfoldable pub int_text : Text → Option ℤ
unfolding lstrip signed_text
int_text t = signed_text (lstrip t)
