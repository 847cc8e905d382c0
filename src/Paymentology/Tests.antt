-- ===== src/Paymentology/Tests.antt =====
-- Callbacks and requests at concrete inputs, and the theorems at inputs that meet them.
use banxe_payment_core.Prelude.{ℕ, pos, ◌≡◌, refl, ◌⊎◌, true, some, List, [], ◌∷◌, ◌++◌}
use banxe_payment_core.Exec.{Result, ok, raised, other}
use banxe_payment_core.Python.{Text, codes, int_text, is_digit, is_space, lstrip, str_ℕ}
use banxe_payment_core.Paymentology.Xml.{Element}
use banxe_payment_core.Paymentology.Builder.{request_tree, build_request}
use banxe_payment_core.Paymentology.Handler.{
  ProviderCall, BalanceProvider, RemoteApiHandler, dispatch,
}
use banxe_payment_core.Paymentology.Handler.Wants.{Wants, reply}
use banxe_payment_core.Paymentology.Handler.Dispatch.{Kept, Asked, dispatch-Asked}
use banxe_payment_core.Paymentology.Handler.Requests.{reread, value_texts, dispatch-build_request}
use banxe_payment_core.Paymentology.Client.{PaymentologyConfig, new_adapter}
use banxe_payment_core.Paymentology.Client.Signed.{activate, performed, Signed, performed-Signed}

abbrev provider : BalanceProvider
provider = record {
  get_balance = λ cs r. ok (pos 500);
  deduct = λ cs r n t i. ok true;
  reverse_deduct = λ cs r n i. raised (other "RuntimeError" "ledger down");
}

abbrev handler : RemoteApiHandler
handler = record { provider = provider; terminal_password = codes "pw" }

-- A deduction of 12.50 with a checksum that is none.
abbrev params : List (Text × Text)
params =
    (codes "string", codes "T1")
    ∷ (codes "string", codes "R1")
    ∷ (codes "int", codes "1250")
    ∷ (codes "string", codes "shop")
    ∷ (codes "string", codes "sale")
    ∷ (codes "string", [])
    ∷ (codes "string", codes "X1")
    ∷ (codes "dateTime.iso8601", codes "20240101T00:00:00")
    ∷ (codes "string", codes "forged")
    ∷ []

abbrev body : Text
body = build_request (codes "Deduct") params

abbrev fromstring : Text → Result Element
fromstring t = ok (reread (request_tree (codes "Deduct") params))

abbrev call : ProviderCall
call = ProviderCall.deduct (codes "R1") (pos 1250) (codes "shop") (codes "X1")

amount : int_text (codes "1250") ≡ some (pos 1250)
unfolding int_text is_digit is_space lstrip
amount = refl

wanted : Wants (codes "Deduct") (value_texts params) call
wanted = Wants.deduct _ _ _ _ _ _ _ _ _ [] (pos 1250) amount

dispatch-build_request_example :
    dispatch fromstring handler body [] ≡ (reply provider [] call, call ∷ [])
dispatch-build_request_example =
    dispatch-build_request fromstring handler [] (codes "Deduct") params call refl
      (refl, (refl, (refl, (refl, (refl, (refl, (refl, (refl, (refl, tt))))))))) wanted

dispatch-Asked_example :
    Kept fromstring handler body [] (dispatch fromstring handler body [])
    ⊎ Asked fromstring handler body [] (dispatch fromstring handler body [])
dispatch-Asked_example = dispatch-Asked fromstring handler body []

abbrev config : PaymentologyConfig
config = record {
  terminal_id = codes "T1";
  terminal_password = codes "pw";
  base_url = codes "https://companion/api";
  timeout = pos 30;
  test_mode = true;
}

abbrev http : List (Text × Text) → Text → Text → Result Text
http sent url content = raised (other "ConnectTimeout" "")

-- A function in place of the HMAC, which depends on all of its two texts.
abbrev joined : Text → Text → Text
joined key message = key ++ 0 ∷ message

abbrev drawn : ℕ → Text
drawn n = str_ℕ n

performed-Signed_example :
    (sent : Text) × ((performed config fromstring http joined drawn drawn
        (activate (codes "4000"))
        new_adapter).posted
      ≡ (config.base_url, sent) ∷ [])
    × Signed config fromstring http joined drawn drawn sent
performed-Signed_example =
    performed-Signed config fromstring http joined drawn drawn (activate (codes "4000")) new_adapter
