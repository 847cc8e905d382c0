-- ===== src/Json.antt =====
-- What `response.json()` returns, and how the program reads it: `d.get(k, default)`, `d[k]`, truth
-- values and `int(v)`. A number with a point is given by its integral part and whether it is zero.
use banxe_payment_core.Prelude.{
  zero, suc, ℤ, pos, negsuc, String, Bool, true, false, not, if◌then◌else◌, list_beq, ℕ_comparable,
  Option, none, some, List, [], ◌∷◌,
}
use banxe_payment_core.Exec.{other, key_error, type_error, value_error, Result, ok, raised}
use banxe_payment_core.Python.{Text, codes, int_text}

mutual
  pub data Value : Type 0 where
    null : Value
    bool : Bool → Value
    num : ℤ → Value
    real : ℤ → Bool → Value
    str : Text → Value
    arr : Items → Value
    obj : Fields → Value

  pub data Items : Type 0 where
    nil : Items
    cons : Value → Items → Items

  pub data Fields : Type 0 where
    end : Fields
    field : Text → Value → Fields → Fields

abbrev pub fields_of : List (String × Value) → Fields
fields_of [] = end
fields_of ((k, v) ∷ kvs) = field (codes k) v (fields_of kvs)

-- A later field of one name replaces an earlier one, as `json.loads` has it.
find : Text → Fields → Option Value
find k end = none
find k (field j v fs) = elim (find k fs) [
  | some w ↦ some w
  | none ↦ if list_beq j k then some v else none
]

-- d.get(k); only a dict has the method.
unfoldable pub get : String → Value → Result (Option Value)
unfolding find
get k (obj fs) = ok (find (codes k) fs)
get k v = raised (other "AttributeError" "object has no attribute 'get'")

abbrev pub or_default : Value → Option Value → Value
or_default d none = d
or_default d (some v) = v

-- d.get(k, default)
unfoldable pub get_or : String → Value → Value → Result Value
unfolding get
get_or k d v = elim (get k v) [ ok o ↦ ok (or_default d o) | raised e ↦ raised e ]

-- d.get(k, default) of a dict
unfoldable pub field_or : String → Value → Fields → Value
unfolding find
field_or k d fs = or_default d (find (codes k) fs)

-- A dict of some fields, for a body that is sent.
abbrev pub object : List (String × Value) → Value
object kvs = obj (fields_of kvs)

-- d[k]
unfoldable pub item : String → Value → Result Value
unfolding find
item k (obj fs) = elim (find (codes k) fs) [ some v ↦ ok v | none ↦ raised (key_error k) ]
item k v = raised (type_error "object is not subscriptable")

-- bool(v)
unfoldable pub truthy : Value → Bool
truthy null = false
truthy (bool b) = b
truthy (num (pos zero)) = false
truthy (num (pos (suc n))) = true
truthy (num (negsuc n)) = true
truthy (real n z) = not z
truthy (str []) = false
truthy (str (c ∷ cs)) = true
truthy (arr nil) = false
truthy (arr (cons v vs)) = true
truthy (obj end) = false
truthy (obj (field k v fs)) = true

-- v == "…"
unfoldable pub is_str : String → Value → Bool
is_str s (str t) = list_beq t (codes s)
is_str s v = false

-- int(v)
unfoldable pub to_int : Value → Result ℤ
to_int (num n) = ok n
to_int (real n z) = ok n
to_int (bool true) = ok (pos 1)
to_int (bool false) = ok (pos 0)
to_int (str t) = elim (int_text t) [
  | some n ↦ ok n
  | none ↦ raised (value_error "invalid literal for int()")
]
to_int v = raised (type_error "int() argument must be a string or a real number")
