-- ===== src/Paymentology/Handler/Wants.antt =====
-- The callbacks that src/paymentology/remote_handler.py passes on to the balance provider.
use banxe_payment_core.Prelude.{
  list_comparable, ℕ_comparable, ℤ, pos, ◌≡◌, some, List, [], ◌∷◌, ◌++◌, arith,
}
use banxe_payment_core.Exec.{Result, map_result}
use banxe_payment_core.Python.{Text, codes, int_text}
use banxe_payment_core.Paymentology.Handler.{
  int_value, build_xml_response, ProviderCall, BalanceProvider, RemoteApiHandler, code,
  handle_deduct, handle_balance, handle_deduct_reversal, at, to_int, route,
}

-- The callbacks that the provider is asked about, with the values in the order of the protocol,
-- the checksum last: a deduction has one, the other two may leave it out.
pub data Wants : Text → List Text → ProviderCall → Type 0 where
  deduct :
      (terminal reference amount narrative type data_ id date checksum : Text) (more : List Text)
      (cents : ℤ)
      → int_text amount ≡ some cents
      → Wants
          (codes "Deduct")
          (terminal ∷ reference ∷ amount ∷ narrative ∷ type ∷ data_ ∷ id ∷ date ∷ checksum ∷ more)
          (ProviderCall.deduct reference cents narrative id)
  balance :
      (terminal reference id date : Text) (more : List Text)
      → Wants
          (codes "Balance")
          (terminal ∷ reference ∷ id ∷ date ∷ more)
          (ProviderCall.get_balance reference)
  reversal :
      (terminal reference amount id date : Text) (more : List Text) (cents : ℤ)
      → int_text amount ≡ some cents
      → Wants
          (codes "DeductReversal")
          (terminal ∷ reference ∷ amount ∷ id ∷ date ∷ more)
          (ProviderCall.reverse_deduct reference cents id)

-- The answer to a callback on which the provider has been asked.
unfoldable pub reply : BalanceProvider → List ProviderCall → ProviderCall → Result Text
reply p calls (ProviderCall.deduct reference amount narrative id) =
    map_result (λ b. build_xml_response (code b) []) (p.deduct calls reference amount narrative id)
reply p calls (ProviderCall.get_balance reference) =
    map_result
      (λ n.
        build_xml_response (pos 1)
          ((codes "balanceAmount", int_value n) ∷ (codes "actualBalance", int_value n) ∷ []))
      (p.get_balance calls reference)
reply p calls (ProviderCall.reverse_deduct reference amount id) =
    map_result (λ b. build_xml_response (code b) []) (p.reverse_deduct calls reference amount id)

module _ (h : RemoteApiHandler) (a : List ProviderCall) where
  handle_deduct-reply :
      (t r : Text) (n : ℤ) (s u v i d k : Text)
      → handle_deduct h t r n s u v i d k a
        ≡ (reply h.provider a (ProviderCall.deduct r n s i), a ++ ProviderCall.deduct r n s i ∷ [])
  unfolding handle_deduct reply
  handle_deduct-reply t r n s u v i d k = ground arith

  handle_balance-reply :
      (t r i d k : Text)
      → handle_balance h t r i d k a
        ≡ (reply h.provider a (ProviderCall.get_balance r), a ++ ProviderCall.get_balance r ∷ [])
  unfolding handle_balance reply
  handle_balance-reply t r i d k = ground arith

  handle_deduct_reversal-reply :
      (t r : Text) (n : ℤ) (i d k : Text)
      → handle_deduct_reversal h t r n i d k a ≡ (
        reply h.provider a (ProviderCall.reverse_deduct r n i),
        a ++ ProviderCall.reverse_deduct r n i ∷ [],
      )
  unfolding handle_deduct_reversal reply
  handle_deduct_reversal-reply t r n i d k = ground arith

  pub route-Wants :
      (m : Text) (vals : List Text) (c : ProviderCall)
      → Wants m vals c
      → route h (some m) vals a ≡ (reply h.provider a c, a ++ c ∷ [])
  unfolding route to_int
  route-Wants m vals c (deduct t r n s u v i d k more cents e) =
      ground (arith, e, handle_deduct-reply t r cents s u v i d k)
  route-Wants m vals c (balance t r i d more) =
      ground (arith, handle_balance-reply t r i d (at 0 more))
  route-Wants m vals c (reversal t r n i d more cents e) =
      ground (arith, e, handle_deduct_reversal-reply t r cents i d (at 0 more))
