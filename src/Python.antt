-- ===== src/Python.antt =====
-- What the program uses of Python's own types: texts as lists of code points, the doubles 1.0, 0.9
-- and 0.7, and Decimal(…) of a text.
pub mod Floats
mod Decimals
mod Ints
mod Printing
mod Numerals
unfoldable pub use Floats.{one, nine_tenths, seven_tenths}
pub use Decimals.{Text, codes}
unfoldable pub use Decimals.{decimal, is_digit}
unfoldable pub use Ints.{int_text, is_space, lstrip}
unfoldable pub use Printing.{str_ℕ, str_ℤ, padded}
pub use Printing.{padded_injective, str_ℕ-injective}
pub use Numerals.{int_text-str_ℤ, str_ℤ-All, int_text-nil}
