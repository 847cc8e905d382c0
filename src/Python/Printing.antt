-- ===== src/Python/Printing.antt =====
-- str(n) of a number that is not negative, and the padding of an f-string's `06d`.
use banxe_payment_core.Prelude.{
  ℕ, zero, suc, ℤ, pos, negsuc, ◌+◌, ◌-◌, ◌*◌, ◌/◌, ◌%◌, ◌<◌, ◌≡◌, refl, sym, ap, ◌∙◌, ltb,
  if◌then◌else◌, [], ◌∷◌, ◌++◌, length, arith, Bool-cases, inl, inr,
}
use banxe_payment_core.Python.Decimals.{Text}

-- The digits of `n`; the fuel has to exceed the number.
unfoldable pub digits : ℕ → ℕ → Text
digits zero n = []
digits (suc f) n =
    let front = digits f (n / 10) in
    if ltb n 10 then (b'0' + n) ∷ [] else front ++ (b'0' + n % 10) ∷ []

unfoldable pub str_ℕ : ℕ → Text
unfolding digits
str_ℕ n = digits (suc n) n

-- str(z)
unfoldable pub str_ℤ : ℤ → Text
str_ℤ (pos n) = str_ℕ n
str_ℤ (negsuc n) = b'-' ∷ str_ℕ (suc n)

zeros : ℕ → Text
zeros zero = []
zeros (suc n) = b'0' ∷ zeros n

-- f"{n:06d}"
unfoldable pub padded : ℕ → Text
unfolding str_ℕ zeros
padded n = zeros (6 - length (str_ℕ n)) ++ str_ℕ n

-- The number that digits spell, behind those read already.
unfoldable pub spell : ℕ → Text → ℕ
spell acc [] = acc
spell acc (c ∷ cs) = spell (acc * 10 + (c - b'0')) cs

spell-append : (acc : ℕ) (xs ys : Text) → spell acc (xs ++ ys) ≡ spell (spell acc xs) ys
unfolding spell
spell-append acc [] ys = refl
spell-append acc (c ∷ xs) ys = spell-append (acc * 10 + (c - b'0')) xs ys

spell-zeros : (n : ℕ) → spell 0 (zeros n) ≡ 0
unfolding spell zeros
spell-zeros zero = refl
spell-zeros (suc n) = spell-zeros n

pub spell-digits : (f n : ℕ) → n < f → spell 0 (digits f n) ≡ n
unfolding digits
spell-digits zero n h = elim h [ ]
spell-digits (suc f) n h = elim (Bool-cases (ltb n 10)) [
  | inl e ↦ rw e (unfold spell in omega arith)
  | inr e ↦
      rw
        (
          e,
          spell-append 0 (digits f (n / 10)) ((b'0' + n % 10) ∷ []),
          spell-digits f (n / 10) (ground arith),
        )
        (unfold spell in omega arith)
]

spell-padded : (n : ℕ) → spell 0 (padded n) ≡ n
unfolding padded
spell-padded n =
    rw (spell-append 0 (zeros (6 - length (str_ℕ n))) (str_ℕ n), spell-zeros (6 - length (str_ℕ n)))
      (spell-digits (suc n) n (omega arith))

-- Different numbers are printed differently.
pub padded_injective : (n m : ℕ) → padded n ≡ padded m → n ≡ m
padded_injective n m h = sym (spell-padded n) ∙ ap (spell 0) h ∙ spell-padded m

pub str_ℕ-injective : (n m : ℕ) → str_ℕ n ≡ str_ℕ m → n ≡ m
unfolding str_ℕ
str_ℕ-injective n m h =
    sym (spell-digits (suc n) n (omega arith))
    ∙ ap (spell 0) h
    ∙ spell-digits (suc m) m (omega arith)
