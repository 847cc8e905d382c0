-- ===== src/Paymentology/Xml.antt =====
-- What src/paymentology uses of xml.etree.ElementTree: elements, `find`, `findall` and `tostring`.
-- Attributes are never used. The text behind an element, its tail, is never read and is left out.
use banxe_payment_core.Prelude.{
  String, nat_beq, ◌==◌, list_comparable, ℕ_comparable, if◌then◌else◌, Option, none, some, List, [],
  ◌∷◌, ◌++◌,
}
use banxe_payment_core.Python.{Text, codes}

mutual
  -- element tag text children
  pub data Element : Type 0 where
    element : Text → Option Text → Elements → Element

  pub data Elements : Type 0 where
    nil : Elements
    cons : Element → Elements → Elements

abbrev pub children : Element → Elements
children (element t x es) = es

abbrev pub text : Element → Option Text
text (element t x es) = x

abbrev pub tag : Element → Text
tag (element t x es) = t

-- e.text or ""
abbrev pub text_or_empty : Option Text → Text
text_or_empty none = []
text_or_empty (some t) = t

-- The elements of a tag among some, e.findall(tag) among its children.
unfoldable pub named : String → Elements → List Element
named k nil = []
named k (cons e es) = let rest = named k es in if tag e == codes k then e ∷ rest else rest

abbrev pub first : List Element → Option Element
first [] = none
first (e ∷ es) = some e

-- e.find(tag)
unfoldable pub find : String → Element → Option Element
unfolding named
find k e = first (named k (children e))

-- The elements of a tag below some, in the order of the document.
unfoldable mutual
  pub within : String → Elements → List Element
  within k nil = []
  within k (cons e es) = self k e ++ within k es

  pub self : String → Element → List Element
  self k (element t x es) =
      let inner = within k es in if t == codes k then element t x es ∷ inner else inner

-- e.findall(".//" + tag)
unfoldable pub find_all : String → Element → List Element
unfolding within
find_all k e = within k (children e)

-- xml.etree's _escape_cdata
unfoldable pub escape : Text → Text
escape [] = []
escape (c ∷ cs) =
    let rest = escape cs in
    if nat_beq c b'&'
    then codes "&amp;" ++ rest
    else if nat_beq c b'<'
    then codes "&lt;" ++ rest
    else if nat_beq c b'>'
    then codes "&gt;" ++ rest
    else c ∷ rest

abbrev pub opening : Text → Text
opening t = b'<' ∷ t ++ b'>' ∷ []

abbrev pub closing : Text → Text
closing t = b'<' ∷ b'/' ∷ t ++ b'>' ∷ []

-- An element's text between its tags; an element without text and children is closed at once.
abbrev pub wrapped : Text → Text → Elements → Text → Text
wrapped t [] nil inner = b'<' ∷ t ++ codes " />"
wrapped t [] (cons e es) inner = opening t ++ inner ++ closing t
wrapped t (c ∷ cs) es inner = opening t ++ escape (c ∷ cs) ++ inner ++ closing t

-- tostring(e, encoding="unicode")
unfoldable mutual
  pub to_string : Element → Text
  to_string (element t x es) = wrapped t (text_or_empty x) es (all_strings es)

  pub all_strings : Elements → Text
  all_strings nil = []
  all_strings (cons e es) = to_string e ++ all_strings es
