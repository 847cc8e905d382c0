-- ===== src/Python/Floats.antt =====
-- Doubles as multiples of 2^-1074. The constants are kept shut: proofs need only their order.
use banxe_payment_core.Prelude.{ℤ, pos, ◌*◌, ◌^◌}

-- 1.0
unfoldable pub one : ℤ
one = pos (2 ^ 1074)

-- 0.90 is 8106479329266893 * 2^-53
unfoldable pub nine_tenths : ℤ
nine_tenths = pos (8106479329266893 * 2 ^ 1021)

-- 0.70 is 6305039478318694 * 2^-53
unfoldable pub seven_tenths : ℤ
seven_tenths = pos (6305039478318694 * 2 ^ 1021)
