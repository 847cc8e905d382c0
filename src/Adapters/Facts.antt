-- ===== src/Adapters/Facts.antt =====
-- One request that an operation of an adapter in src/adapters makes, and what its body says.
use banxe_payment_core.Prelude.{
  ◌≡◌, refl, String, if◌then◌else◌, list_beq, ℕ_comparable, Option, none, some, List, [], ◌∷◌, ◌++◌,
  All,
}
use banxe_payment_core.Exec.{Exc, Result, ok, raised, lift, ◌>>=◌, pure, continue}
use banxe_payment_core.Python.{Text, codes}
use banxe_payment_core.Json.{Value, null, str, arr, obj, cons, Fields, end, field}
use banxe_payment_core.Adapters.Http.{Verb, Request, Http, Sent, send, fetch}

-- A value that is sent, by its path: the names of fields, and "0" for the first of a list.
abbrev pub named : Text → Fields → Value
named k end = null
named k (field j v fs) = if list_beq j k then v else named k fs

abbrev pub read_at : List String → Value → Value
read_at [] v = v
read_at (k ∷ ks) (obj fs) = read_at ks (named (codes k) fs)
read_at (k ∷ ks) (arr (cons v vs)) = read_at ks v
read_at (k ∷ ks) v = null

abbrev pub body_of : Option Value → Value
body_of none = null
body_of (some v) = v

-- A path into a body, and what stands there.
abbrev pub Fact : Type 0
Fact = List String × Value

abbrev pub text : String → Value
text s = str (codes s)

abbrev pub json : Text × Text
json = (codes "Content-Type", codes "application/json")

abbrev pub asked : Verb → Text → List (Text × Text) → Option Value → Request
asked verb url headers body = record { verb = verb; url = url; headers = headers; json = body }

module _ {A : Type 0} (http : Http) (verb : Verb) (url : Text) (headers : List (Text × Text)) where
  -- The operation makes one request, with this method, address and headers and a body of which the
  -- facts hold, and raises what that request raises.
  pub record OneRequest (facts : List Fact) (op : Sent A) (sent : List Request) : Type 0 where
    pub request : Request
    pub made : (op sent).1 ≡ sent ++ request ∷ []
    pub method : request.verb ≡ verb
    pub address : request.url ≡ url
    pub with_headers : request.headers ≡ headers
    pub says : All (λ (f : Fact). read_at f.0 (body_of request.json) ≡ f.1) facts
    pub fails : (e : Exc) → http sent request ≡ raised e → (op sent).0 ≡ raised e

  -- A function of an answer that makes no request.
  abbrev pub Quiet : (Value → Sent A) → Type 0
  Quiet f = (v : Value) (s : List Request) → (f v s).1 ≡ s

  quiet :
      (f : Value → Sent A) (x : Result (Result Value)) (s : List Request)
      → Quiet f
      → (continue (continue {B = Value} (x, s) (λ body. lift body)) f).1 ≡ s
  quiet f (raised e) s q = refl
  quiet f (ok (raised e)) s q = refl
  quiet f (ok (ok v)) s q = q v s

  module _ (facts : List Fact) (body : Option Value)
      (says : All (λ (f : Fact). read_at f.0 (body_of body) ≡ f.1) facts) where
    pub fetched :
        (f : Value → Sent A) (sent : List Request)
        → Quiet f
        → OneRequest facts (fetch http (asked verb url headers body) >>= f) sent
    fetched f sent q =
        let r = asked verb url headers body in
        record {
          request = r;
          made = quiet f (http sent r) (sent ++ r ∷ []) q;
          method = refl;
          address = refl;
          with_headers = refl;
          says = says;
          fails = λ e x. rw x refl;
        }

    status_only :
        (a : A) (x : Result (Result Value)) (s : List Request)
        → (continue (x, s) (λ answer. pure a)).1 ≡ s
    status_only a (raised e) s = refl
    status_only a (ok b) s = refl

    pub sent_only :
        (a : A) (sent : List Request)
        → OneRequest facts (send http (asked verb url headers body) >>= λ answer. pure a) sent
    sent_only a sent =
        let r = asked verb url headers body in
        record {
          request = r;
          made = status_only a (http sent r) (sent ++ r ∷ []);
          method = refl;
          address = refl;
          with_headers = refl;
          says = says;
          fails = λ e x. rw x refl;
        }
