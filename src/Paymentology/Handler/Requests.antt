-- ===== src/Paymentology/Handler/Requests.antt =====
-- Requests that src/paymentology/xmlrpc_builder.py builds, read by `dispatch` of
-- src/paymentology/remote_handler.py.
use mathlib.Core.List.{append-nil}
use banxe_payment_core.Prelude.{
  ◌≡◌, refl, ap, ◌∙◌, false, ◌==◌, list_comparable, ℕ_comparable, Option, none, some, List, [], ◌∷◌,
  ◌++◌,
}
use banxe_payment_core.Exec.{Result, ok}
use banxe_payment_core.Python.{Text, codes}
use banxe_payment_core.Paymentology.Xml.{
  Element, element, Elements, nil, cons, find, find_all, within, named,
}
use banxe_payment_core.Paymentology.Builder.{param_elements, request_tree, build_request}
use banxe_payment_core.Paymentology.Handler.{
  ProviderCall, RemoteApiHandler, route, values_of, values_in, arguments, method_of, dispatch,
}
use banxe_payment_core.Paymentology.Handler.Wants.{Wants, reply, route-Wants}
use banxe_payment_core.Paymentology.Handler.Dispatch.{dispatch-route}

-- A text that is printed and parsed: an empty one is None.
abbrev pub filled : Option Text → Option Text
filled none = none
filled (some []) = none
filled (some (c ∷ cs)) = some (c ∷ cs)

-- A tree that is printed and parsed.
unfoldable mutual
  pub reread : Element → Element
  reread (element t x es) = element t (filled x) (reread_all es)

  pub reread_all : Elements → Elements
  reread_all nil = nil
  reread_all (cons e es) = cons (reread e) (reread_all es)

abbrev pub value_texts : List (Text × Text) → List Text
value_texts [] = []
value_texts ((type, value) ∷ ps) = value ∷ value_texts ps

-- No parameter has the tag `param` for a type.
abbrev pub Typed : List (Text × Text) → Type 0
Typed [] = Unit
Typed ((type, value) ∷ ps) = ((type == codes "param") ≡ false) × Typed ps

-- The `param` of a pair, parsed.
abbrev parsed_param : Text → Text → Element
parsed_param type value =
    element (codes "param") none
      (cons (element (codes "value") none (cons (element type (filled (some value)) nil) nil)) nil)

within-param :
    (type value : Text) (ps : List (Text × Text))
    → (type == codes "param") ≡ false
    → within "param" (reread_all (param_elements ((type, value) ∷ ps)))
      ≡ parsed_param type value ∷ within "param" (reread_all (param_elements ps))
unfolding within param_elements reread
within-param type value ps h = rw h refl

params-values :
    (ps : List (Text × Text))
    → Typed ps
    → values_of (values_in (within "param" (reread_all (param_elements ps)))) ≡ value_texts ps
unfolding within param_elements reread named
params-values [] h = refl
params-values ((type, []) ∷ ps) h =
    ap (λ es. values_of (values_in es)) (within-param type [] ps h.0)
    ∙ ap (λ vs. [] ∷ vs) (params-values ps h.1)
params-values ((type, c ∷ cs) ∷ ps) h =
    ap (λ es. values_of (values_in es)) (within-param type (c ∷ cs) ps h.0)
    ∙ ap (λ vs. (c ∷ cs) ∷ vs) (params-values ps h.1)

-- The parameters that the handler reads are the values of the request.
pub arguments-request_tree :
    (m : Text) (ps : List (Text × Text))
    → Typed ps
    → arguments (reread (request_tree m ps)) ≡ value_texts ps
unfolding arguments find_all within request_tree reread
arguments-request_tree m ps h =
    ap (λ es. values_of (values_in es))
      (append-nil (within "param" (reread_all (param_elements ps))))
    ∙ params-values ps h

method_of-request_tree :
    (m : Text) (ps : List (Text × Text))
    → method_of (reread (request_tree m ps)) ≡ ok (filled (some m))
unfolding method_of find named request_tree reread
method_of-request_tree m ps = refl

filled-Wants :
    (m : Text) (vals : List Text) (c : ProviderCall) → Wants m vals c → filled (some m) ≡ some m
filled-Wants m vals c (Wants.deduct t r n s u v i d k more cents e) = refl
filled-Wants m vals c (Wants.balance t r i d more) = refl
filled-Wants m vals c (Wants.reversal t r n i d more cents e) = refl

-- If the parser gives back the tree of the request that `build_request` has printed, with None for
-- an empty text, and the request, by its method and its values, is one that the provider is to be
-- asked about, then `dispatch` asks the provider this, once, and answers with what it returned or
-- raised, whatever checksum the request carries.
pub dispatch-build_request :
    (fromstring : Text → Result Element) (h : RemoteApiHandler) (a : List ProviderCall) (m : Text)
    (ps : List (Text × Text)) (c : ProviderCall)
    → fromstring (build_request m ps) ≡ ok (reread (request_tree m ps))
    → Typed ps
    → Wants m (value_texts ps) c
    → dispatch fromstring h (build_request m ps) a ≡ (reply h.provider a c, a ++ c ∷ [])
dispatch-build_request fromstring h a m ps c parsed typed w =
    dispatch-route fromstring h (build_request m ps) a (reread (request_tree m ps)) (some m) parsed
      (method_of-request_tree m ps ∙ ap ok (filled-Wants m (value_texts ps) c w))
    ∙ ap (λ vals. route h (some m) vals a) (arguments-request_tree m ps typed)
    ∙ route-Wants h a m (value_texts ps) c w
