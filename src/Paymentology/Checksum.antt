-- ===== src/Paymentology/Checksum.antt =====
-- src/paymentology/checksum.py. `hmac` is the upper-case hexadecimal HMAC-SHA256 of a message under
-- a key, both in UTF-8: hmac.new(key, message, sha256).hexdigest().upper().
use banxe_payment_core.Prelude.{List, [], ◌∷◌, ◌++◌}
use banxe_payment_core.Python.{Text}

-- "".join(params)
unfoldable pub concat : List Text → Text
concat [] = []
concat (t ∷ ts) = t ++ concat ts

unfoldable pub compute_checksum : (Text → Text → Text) → Text → List Text → Text → Text
unfolding concat
compute_checksum hmac method_name params terminal_password =
    hmac terminal_password (method_name ++ concat params)
