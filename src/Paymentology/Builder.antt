-- ===== src/Paymentology/Builder.antt =====
-- src/paymentology/xmlrpc_builder.py. `fromstring` is defusedxml's and a parameter.
use banxe_payment_core.Prelude.{
  String, ℤ, negsuc, Bool, true, false, ◌==◌, list_comparable, ℕ_comparable, Comparable, ◌≡◌, ◌↔◌,
  list_beq_iff, arith, Option, none, some, List, [], ◌∷◌, ◌++◌, Dict, insert,
}
use banxe_payment_core.Exec.{Exc, map_result, Result, ok, raised, other, type_error, value_error}
use banxe_payment_core.Python.{Text, codes, int_text}
use banxe_payment_core.Paymentology.Xml.{
  Element, element, Elements, nil, cons, text, first, text_or_empty, find, find_all, to_string,
}

-- One `param` for each pair of a type and a value, already a text.
unfoldable pub param_elements : List (Text × Text) → Elements
param_elements [] = nil
param_elements ((type, value) ∷ ps) =
    cons
      (element (codes "param") none
        (cons (element (codes "value") none (cons (element type (some value) nil) nil)) nil))
      (param_elements ps)

-- `root` when `build_request` prints it.
unfoldable pub request_tree : Text → List (Text × Text) → Element
unfolding param_elements
request_tree method params = element (codes "methodCall") none (
    cons (element (codes "methodName") (some method) nil)
      (cons (element (codes "params") none (param_elements params)) nil))

unfoldable pub build_request : Text → List (Text × Text) → Text
unfolding request_tree to_string
build_request method params =
    codes "<?xml version=\"1.0\"?>" ++ to_string (request_tree method params)

-- What `parse_response` puts under a name: int, bool or str, or None.
pub data Item : Type 0 where
  number : ℤ → Item
  truth : Bool → Item
  string : Text → Item
  nothing : Item

abbrev pub same_name : Option Text → Option Text → Bool
same_name none none = true
same_name (some s) (some t) = s == t
same_name _ _ = false

pub same_name_iff : (s t : Option Text) → (same_name s t ≡ true) ↔ (s ≡ t)
same_name_iff none none = ground arith
same_name_iff none (some t) = ground arith
same_name_iff (some s) none = ground arith
same_name_iff (some s) (some t) = ground (arith, list_beq_iff s t)

-- The name of a member may be None.
instance abbrev pub name_comparable : Comparable (Option Text)
name_comparable = record { same = same_name; same_iff = same_name_iff }

abbrev pub Answer : Type 0
Answer = Dict (Option Text) Item

abbrev attribute_error : String → Exc
attribute_error m = other "AttributeError" m

-- int(text)
abbrev read_int : Option Text → Result Item
read_int none = raised (type_error "int() argument must be a string")
read_int (some t) = elim (int_text t) [
  | none ↦ raised (value_error "invalid literal for int() with base 10")
  | some z ↦ ok (number z)
]

abbrev or_nothing : Option Text → Item
or_nothing none = nothing
or_nothing (some t) = string t

abbrev either : Option Element → Option Element → Option Element
either (some e) o = some e
either none o = o

abbrev dated : Option Text → Option Element → Item
dated t (some e) = or_nothing (text e)
dated t none = string (text_or_empty t)

abbrev worded : Option Text → Option Element → Option Element → Item
worded t (some e) date = string (text_or_empty (text e))
worded t none date = dated t date

abbrev counted : Option Text → Option Element → Option Element → Option Element → Result Item
counted t (some e) word date = read_int (text e)
counted t none word date = ok (worded t word date)

-- The value of a member, by the first of its typed children.
unfoldable pub item_of : Element → Result Item
unfolding find
item_of v =
    counted (text v) (either (find "int" v) (find "i4" v)) (find "string" v)
      (find "dateTime.iso8601" v)

abbrev named_item : Option Element → Option Element → Result (Option Text × Item)
named_item none v = raised (attribute_error "'NoneType' object has no attribute 'text'")
named_item (some n) none = raised (attribute_error "'NoneType' object has no attribute 'find'")
named_item (some n) (some v) = map_result (λ i. (text n, i)) (item_of v)

abbrev put : Result (Option Text × Item) → Answer → Result Answer
put (raised e) d = raised e
put (ok (n, i)) d = ok (insert n i d)

abbrev after : Result Answer → (Answer → Result Answer) → Result Answer
after (ok d) f = f d
after (raised e) f = raised e

-- The loop over the members.
unfoldable pub read_members : List Element → Answer → Result Answer
unfolding item_of
read_members [] d = ok d
read_members (m ∷ ms) d =
    after (put (named_item (find "name" m) (find "value" m)) d) (read_members ms)

abbrev faulty : Answer
faulty =
    (some (codes "error"), truth true)
    ∷ (some (codes "faultCode"), number (negsuc 0))
    ∷ (some (codes "faultString"), string (codes "XML-RPC Fault"))
    ∷ []

abbrev faulted : Option Element → Result Answer → Result Answer
faulted (some f) r = ok faulty
faulted none r = r

-- parse_response behind `fromstring`
unfoldable pub read_response : Element → Result Answer
unfolding find_all read_members
read_response root =
    faulted (first (find_all "fault" root)) (read_members (find_all "member" root) [])

abbrev of_tree : Result Element → Result Answer
of_tree (ok root) = read_response root
of_tree (raised e) = raised e

unfoldable pub parse_response : (Text → Result Element) → Text → Result Answer
unfolding read_response
parse_response fromstring xml_text = of_tree (fromstring xml_text)
