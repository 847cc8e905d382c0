-- ===== src/Paymentology/Handler/Dispatch.antt =====
-- What one callback does to the balance provider, in src/paymentology/remote_handler.py.
use mathlib.Core.Path.{subst}
use banxe_payment_core.Prelude.{
  list_beq_iff, list_comparable, ℕ_comparable, ◌&&◌, String, ℕ, zero, suc, ◌+◌, ◌≤◌, ◌<◌, drop, pos,
  leb, ◌≡◌, refl, ◌⊎◌, inl, inr, ap, sym, ◌∙◌, Bool, true, false, Option, none, some, List, [], ◌∷◌,
  ◌++◌, length, arith, Bool-cases, Option-cases,
}
use banxe_payment_core.Exec.{Exc, Result, ok, raised, value_error, Result-cases}
use banxe_payment_core.Python.{Text, codes, int_text}
use banxe_payment_core.Paymentology.Xml.{Element}
use banxe_payment_core.Paymentology.Handler.{
  build_xml_response, ProviderCall, RemoteApiHandler, at, calls_for, arguments, method_of, to_int,
  route, dispatch,
}
use banxe_payment_core.Paymentology.Handler.Wants.{Wants, reply, route-Wants}

-- The values from place `k` on, `n` of them.
abbrev front : ℕ → ℕ → List Text → List Text
front zero k vals = []
front (suc n) k vals = at k vals ∷ front n (suc k) vals

at-drop : (k : ℕ) (vals : List Text) → k < length vals → at k vals ∷ drop (suc k) vals ≡ drop k vals
at-drop k [] h = ground (arith, h)
at-drop zero (v ∷ vals) h = refl
at-drop (suc k) (v ∷ vals) h = at-drop k vals (omega arith)

front-drop :
    (n k : ℕ) (vals : List Text)
    → k + n ≤ length vals
    → front n k vals ++ drop (k + n) vals ≡ drop k vals
front-drop zero k vals h = ap (λ i. drop i vals) (omega arith)
front-drop (suc n) k vals h =
    let e : k + suc n ≡ suc k + n = omega arith in
    ap (λ i. at k vals ∷ (front n (suc k) vals ++ drop i vals)) e
    ∙ ap (λ t. at k vals ∷ t) (front-drop n (suc k) vals (omega (arith, h)))
    ∙ at-drop k vals (omega (arith, h))

-- A list that is long enough, by its places.
by_place :
    (n : ℕ) (vals : List Text) → leb n (length vals) ≡ true → front n 0 vals ++ drop n vals ≡ vals
by_place n vals h =
    ap (λ i. front n 0 vals ++ drop i vals) (omega arith) ∙ front-drop n 0 vals (ground (arith, h))

abbrev number_error : Exc
number_error = value_error "invalid literal for int() with base 10"

to_int-none : (t : Text) → int_text t ≡ none → to_int t ≡ raised number_error
unfolding to_int
to_int-none t h = rw (h, to_int) refl

both : {p q : Bool} → (p && q) ≡ true → (p ≡ true) × (q ≡ true)
both h = ground (arith, h)

calls_for_lem : (s : String) (o : Option Text) → calls_for s o ≡ true → o ≡ some (codes s)
calls_for_lem s none h = cc h
calls_for_lem s (some t) h = ap some ((list_beq_iff t (codes s)).0 h)

-- A callback that is not passed on: refused, or ended by an exception.
abbrev pub Refused : Result Text → Type 0
Refused r = (r ≡ ok (build_xml_response (pos 0) [])) ⊎ ((e : Exc) × (r ≡ raised e))

module _ (h : RemoteApiHandler) (a : List ProviderCall) where
  -- The provider is left alone and the callback refused, or it is asked once, as the callback wants.
  abbrev pub Handled : Option Text → List Text → Result Text × List ProviderCall → Type 0
  Handled o vals (r, b) =
      ((b ≡ a) × Refused r)
      ⊎ ((m : Text) × (c : ProviderCall) × (o ≡ some m)
          × Wants m vals c
          × (r ≡ reply h.provider a c)
          × (b ≡ a ++ c ∷ []))

  from_Wants :
      (m : Text) (o : Option Text) (vals : List Text) (c : ProviderCall)
      → o ≡ some m
      → Wants m vals c
      → Handled o vals (route h o vals a)
  from_Wants m o vals c e w =
      let r = ap (λ p. route h p vals a) e ∙ route-Wants h a m vals c w in
      inr (m, c, e, w, ap (λ x. x.0) r, ap (λ x. x.1) r)

  from_Refused :
      (o : Option Text) (vals : List Text) (r : Result Text)
      → Refused r
      → route h o vals a ≡ (r, a)
      → Handled o vals (route h o vals a)
  from_Refused o vals r f e = inl (ap (λ x. x.1) e, subst Refused (sym (ap (λ x. x.0) e)) f)

  deduct-Handled :
      (o : Option Text) (vals : List Text)
      → (calls_for "Deduct" o && leb 9 (length vals)) ≡ true
      → Handled o vals (route h o vals a)
  deduct-Handled o vals p =
      let (k, q) = both p in
      elim (Option-cases (int_text (at 2 vals))) [
        | inl e ↦
            from_Refused o vals (raised number_error) (inr (number_error, refl))
              (unfold route in rw (p, to_int-none (at 2 vals) e) refl)
        | inr (z, e) ↦
            from_Wants (codes "Deduct") o vals
              (ProviderCall.deduct (at 1 vals) z (at 3 vals) (at 6 vals))
              (calls_for_lem "Deduct" o k)
              (subst
                (λ v.
                  Wants (codes "Deduct") v
                    (ProviderCall.deduct (at 1 vals) z (at 3 vals) (at 6 vals)))
                (by_place 9 vals q) (Wants.deduct _ _ _ _ _ _ _ _ _ (drop 9 vals) z e))
      ]

  balance-Handled :
      (o : Option Text) (vals : List Text)
      → (calls_for "Balance" o && leb 4 (length vals)) ≡ true
      → Handled o vals (route h o vals a)
  balance-Handled o vals p =
      let (k, q) = both p in
      from_Wants (codes "Balance") o vals (ProviderCall.get_balance (at 1 vals))
        (calls_for_lem "Balance" o k)
        (subst (λ v. Wants (codes "Balance") v (ProviderCall.get_balance (at 1 vals)))
          (by_place 4 vals q) (Wants.balance _ _ _ _ (drop 4 vals)))

  reversal-Handled :
      (o : Option Text) (vals : List Text)
      → (calls_for "Deduct" o && leb 9 (length vals)) ≡ false
      → (calls_for "Balance" o && leb 4 (length vals)) ≡ false
      → (calls_for "DeductReversal" o && leb 5 (length vals)) ≡ true
      → Handled o vals (route h o vals a)
  reversal-Handled o vals d b p =
      let (k, q) = both p in
      elim (Option-cases (int_text (at 2 vals))) [
        | inl e ↦
            from_Refused o vals (raised number_error) (inr (number_error, refl))
              (unfold route in rw (d, b, p, to_int-none (at 2 vals) e) refl)
        | inr (z, e) ↦
            from_Wants (codes "DeductReversal") o vals
              (ProviderCall.reverse_deduct (at 1 vals) z (at 3 vals))
              (calls_for_lem "DeductReversal" o k)
              (subst
                (λ v.
                  Wants (codes "DeductReversal") v
                    (ProviderCall.reverse_deduct (at 1 vals) z (at 3 vals)))
                (by_place 5 vals q) (Wants.reversal _ _ _ _ _ (drop 5 vals) z e))
      ]

  route-Handled : (o : Option Text) (vals : List Text) → Handled o vals (route h o vals a)
  route-Handled o vals = elim (Bool-cases (calls_for "Deduct" o && leb 9 (length vals))) [
    | inl p ↦ deduct-Handled o vals p
    | inr d ↦ elim (Bool-cases (calls_for "Balance" o && leb 4 (length vals))) [
      | inl p ↦ balance-Handled o vals p
      | inr b ↦ elim (Bool-cases (calls_for "DeductReversal" o && leb 5 (length vals))) [
        | inl p ↦ reversal-Handled o vals d b p
        | inr r ↦ from_Refused o vals _ (inl refl) (unfold route in rw (d, b, r) refl)
      ]
    ]
  ]

module _ (fromstring : Text → Result Element) (h : RemoteApiHandler) (body : Text)
    (a : List ProviderCall) where
  -- What a callback that is not refused has asked the provider, and what it is answered.
  abbrev pub Asked : Result Text × List ProviderCall → Type 0
  Asked (r, b) =
      (root : Element) × (m : Text) × (c : ProviderCall) × (fromstring body ≡ ok root)
      × (method_of root ≡ ok (some m))
      × Wants m (arguments root) c
      × (r ≡ reply h.provider a c)
      × (b ≡ a ++ c ∷ [])

  abbrev pub Kept : Result Text × List ProviderCall → Type 0
  Kept (r, b) = (b ≡ a) × Refused r

  dispatch-raised :
      (e : Exc)
      → dispatch fromstring h body a ≡ (raised e, a)
      → Kept (dispatch fromstring h body a) ⊎ Asked (dispatch fromstring h body a)
  dispatch-raised e k = inl (ap (λ x. x.1) k, subst Refused (sym (ap (λ x. x.0) k)) (inr (e, refl)))

  pub dispatch-route :
      (root : Element) (o : Option Text)
      → fromstring body ≡ ok root
      → method_of root ≡ ok o
      → dispatch fromstring h body a ≡ route h o (arguments root) a
  unfolding dispatch
  dispatch-route root o p q = rw p (rw q refl)

  routed :
      (root : Element) (o : Option Text)
      → fromstring body ≡ ok root
      → method_of root ≡ ok o
      → Handled h a o (arguments root) (route h o (arguments root) a)
      → Kept (dispatch fromstring h body a) ⊎ Asked (dispatch fromstring h body a)
  routed root o p q (inl w) = inl (subst Kept (sym (dispatch-route root o p q)) w)
  routed root o p q (inr (m, c, e, w, r, b)) =
      inr (subst Asked (sym (dispatch-route root o p q)) (root, m, c, p, q ∙ ap ok e, w, r, b))

  -- Whatever the body of a callback, either the provider is left alone, and the callback is refused
  -- with the result code 0 or ended by an exception; or the body is read as a request that names
  -- Deduct, Balance or DeductReversal with enough parameters and, where it has an amount, one that is
  -- a number: then the provider is asked once, for the reference, the amount and the transaction of
  -- the request, and the callback is answered with what the provider returned or raised.
  pub dispatch-Asked : Kept (dispatch fromstring h body a) ⊎ Asked (dispatch fromstring h body a)
  dispatch-Asked = elim (Result-cases (fromstring body)) [
    | inr (e, p) ↦ dispatch-raised e (unfold dispatch in rw p refl)
    | inl (root, p) ↦ elim (Result-cases (method_of root)) [
      | inr (e, q) ↦ dispatch-raised e (unfold dispatch in rw p (rw q refl))
      | inl (o, q) ↦ routed root o p q (route-Handled h a o (arguments root))
    ]
  ]
