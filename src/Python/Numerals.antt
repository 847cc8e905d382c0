-- ===== src/Python/Numerals.antt =====
-- int(str(z)): Python reads back the numbers that it prints.
use mathlib.Core.Path.{subst}
use banxe_payment_core.Prelude.{
  ℕ, zero, suc, ◌+◌, ◌-◌, ◌*◌, ◌/◌, ◌%◌, ◌<◌, ℤ, pos, negsuc, ◌≡◌, refl, sym, ap, ◌∙◌, true, ltb,
  none, some, [], ◌∷◌, ◌++◌, All, All-map, All-append, arith, Bool-cases, inl, inr,
}
use banxe_payment_core.Python.Decimals.{Text, is_digit}
use banxe_payment_core.Python.Ints.{is_space, lstrip, more_digits, unsigned, signed_text, int_text}
use banxe_payment_core.Python.Printing.{digits, str_ℕ, str_ℤ, spell, spell-digits}

abbrev Digits : Text → Type 0
Digits t = All (λ c. is_digit c ≡ true) t

more_digits-spell : (acc : ℕ) (t : Text) → Digits t → more_digits acc t ≡ some (spell acc t)
unfolding more_digits spell
more_digits-spell acc [] h = refl
more_digits-spell acc (c ∷ []) h = simp h.0 refl
more_digits-spell acc (c ∷ d ∷ cs) h =
    simp h.0 (more_digits-spell (acc * 10 + (c - b'0')) (d ∷ cs) h.1)

digit-decimal : (n : ℕ) → n < 10 → is_digit (b'0' + n) ≡ true
unfolding is_digit
digit-decimal n h = ground arith

digits-Digits : (f n : ℕ) → Digits (digits f n)
unfolding digits
digits-Digits zero n = tt
digits-Digits (suc f) n = elim (Bool-cases (ltb n 10)) [
  | inl e ↦ rw e (digit-decimal n (ground arith), tt)
  | inr e ↦ rw e (
      All-append (λ c. is_digit c ≡ true) (digits f (n / 10)) ((b'0' + n % 10) ∷ [])
        (digits-Digits f (n / 10)) (digit-decimal (n % 10) (omega arith), tt))
]

abbrev Cons : Text → Type 0
Cons t = (c : ℕ) × (cs : Text) × (t ≡ c ∷ cs)

snoc-Cons : (t : Text) (c : ℕ) → Cons (t ++ c ∷ [])
snoc-Cons [] c = (c, [], refl)
snoc-Cons (d ∷ t) c = (d, t ++ c ∷ [], refl)

str_ℕ-Cons : (n : ℕ) → Cons (str_ℕ n)
unfolding str_ℕ digits
str_ℕ-Cons n = elim (Bool-cases (ltb n 10)) [
  | inl e ↦ rw e (b'0' + n, [], refl)
  | inr e ↦ rw e (snoc-Cons (digits n (n / 10)) (b'0' + n % 10))
]

unsigned-spell : (c : ℕ) (cs : Text) → Digits (c ∷ cs) → unsigned (c ∷ cs) ≡ some (spell 0 (c ∷ cs))
unfolding unsigned spell
unsigned-spell c cs h =
    let e : 0 + (c - b'0') ≡ c - b'0' = omega arith in
    simp (h.0, e) (more_digits-spell (c - b'0') cs h.1)

unsigned-str_ℕ : (n : ℕ) → unsigned (str_ℕ n) ≡ some n
unsigned-str_ℕ n =
    let (c, cs, e) = str_ℕ-Cons n in
    let h : Digits (c ∷ cs) = subst Digits e (unfold str_ℕ in digits-Digits (suc n) n) in
    rw e (unsigned-spell c cs h)
    ∙ ap some (sym (ap (spell 0) e) ∙ (unfold str_ℕ in spell-digits (suc n) n (omega arith)))

-- A number without a sign stands for itself.
int_text-unsigned :
    (c : ℕ) (cs : Text) (n : ℕ)
    → is_digit c ≡ true
    → unsigned (c ∷ cs) ≡ some n
    → int_text (c ∷ cs) ≡ some (pos n)
unfolding int_text lstrip is_space is_digit signed_text
int_text-unsigned c cs n d h = ground (arith, d, h)

-- `int` reads back what `str` prints of any integer.
pub int_text-str_ℤ : (z : ℤ) → int_text (str_ℤ z) ≡ some z
unfolding str_ℤ
int_text-str_ℤ (pos n) =
    let (c, cs, e) = str_ℕ-Cons n in
    let h : Digits (c ∷ cs) = subst Digits e (unfold str_ℕ in digits-Digits (suc n) n) in
    rw e (int_text-unsigned c cs n h.0 (sym (ap unsigned e) ∙ unsigned-str_ℕ n))
int_text-str_ℤ (negsuc n) =
    unfold int_text in
    unfold lstrip in unfold is_space in unfold signed_text in rw (unsigned-str_ℕ (suc n)) refl

-- What holds of the digits and of the sign holds of every character of a printed number.
pub str_ℤ-All {ℓ} :
    (P : ℕ → Type ℓ) → ((c : ℕ) → is_digit c ≡ true → P c) → P b'-' → (z : ℤ) → All P (str_ℤ z)
unfolding str_ℤ str_ℕ
str_ℤ-All P digit sign (pos n) = All-map digit (digits (suc n) n) (digits-Digits (suc n) n)
str_ℤ-All P digit sign (negsuc n) =
    (sign, All-map digit (digits (suc (suc n)) (suc n)) (digits-Digits (suc (suc n)) (suc n)))

-- An empty text is no number.
pub int_text-nil : int_text [] ≡ none
unfolding int_text lstrip signed_text
int_text-nil = refl
