-- ===== src/Settlement/Reconciler/Matching.antt =====
-- Which transaction of src/settlement/reconciler.py is compared with a record, and what comes of it.
use banxe_payment_core.Prelude.{
  ℤ, ◌≡◌, refl, sym, ap, ◌∙◌, ◌==◌, ℕ_comparable, list_comparable, list_beq_iff, Bool, true, false,
  ◌||◌, if◌then◌else◌, Option, none, some, List, [], ◌∷◌, ◌++◌, lookup, lookup-insert, arith,
}
use mathlib.Core.List.{append-nil, append_assoc}
use banxe_payment_core.Python.{Text}
use banxe_payment_core.Settlement.Parser.{IpmRecord}
use banxe_payment_core.Settlement.Reconciler.{
  InternalTransaction, Index, int_str, key, approval_key, amount_key, candidates, push, index_from,
  build_index, pan_last4, compared, or_else, match_record,
}

-- The first of the transactions that has `k` as one of its two keys.
unfoldable pub first_keyed : Text → List InternalTransaction → Option InternalTransaction
first_keyed k [] = none
first_keyed k (t ∷ txns) =
    if approval_key t == k || amount_key t == k then some t else first_keyed k txns

abbrev pub or_first :
    Option InternalTransaction → Option InternalTransaction → Option InternalTransaction
or_first none other = other
or_first (some t) other = some t

-- The transaction for a record, by a search through all of them: for the record's approval code
-- first, and for its amount if that finds none.
unfoldable pub search : IpmRecord → List InternalTransaction → Option InternalTransaction
search ipm txns =
    or_first (first_keyed (key ipm.de38_approval_code (pan_last4 ipm)) txns)
      (first_keyed (key (int_str ipm.de4_txn_amount) (pan_last4 ipm)) txns)

abbrev head : List InternalTransaction → Option InternalTransaction
head [] = none
head (t ∷ ts) = some t

candidates-push :
    (k j : Text) (t : InternalTransaction) (index : Index)
    → candidates k (push j t index)
      ≡ (if j == k then candidates k index ++ t ∷ [] else candidates k index)
unfolding candidates push
candidates-push k j t index =
    ground (arith, lookup-insert j k (candidates j index ++ t ∷ []) index, list_beq_iff j k)

-- What both keys of a transaction add to the candidates for `k`.
abbrev added : Text → InternalTransaction → List InternalTransaction
added k t =
    (if approval_key t == k then t ∷ [] else []) ++ (if amount_key t == k then t ∷ [] else [])

abbrev listed : Text → List InternalTransaction → List InternalTransaction
listed k [] = []
listed k (t ∷ txns) = added k t ++ listed k txns

joined-append :
    (p q : Bool) (t : InternalTransaction) (l m : List InternalTransaction)
    → (if p then (if q then l ++ t ∷ [] else l) ++ t ∷ [] else (if q then l ++ t ∷ [] else l)) ++ m
      ≡ l ++ (((if q then t ∷ [] else []) ++ (if p then t ∷ [] else [])) ++ m)
joined-append true true t l m = simp append_assoc
joined-append true false t l m = append_assoc l (t ∷ []) m
joined-append false true t l m = append_assoc l (t ∷ []) m
joined-append false false t l m = refl

candidates-index_from :
    (k : Text) (txns : List InternalTransaction) (index : Index)
    → candidates k (index_from txns index) ≡ candidates k index ++ listed k txns
unfolding index_from
candidates-index_from k [] index = sym (append-nil (candidates k index))
candidates-index_from k (t ∷ txns) index =
    rw
      (
        candidates-index_from k txns (push (amount_key t) t (push (approval_key t) t index)),
        candidates-push k (amount_key t) t (push (approval_key t) t index),
        candidates-push k (approval_key t) t index,
      )
      (joined-append (amount_key t == k) (approval_key t == k) t (candidates k index)
        (listed k txns))

head-listed :
    (k : Text) (txns : List InternalTransaction) → head (listed k txns) ≡ first_keyed k txns
unfolding first_keyed
head-listed k [] = refl
head-listed k (t ∷ txns) = ground (arith, head-listed k txns)

or_else-head : (l m : List InternalTransaction) → head (or_else l m) ≡ or_first (head l) (head m)
or_else-head [] m = refl
or_else-head (t ∷ l) m = refl

abbrev pub as_list : Option InternalTransaction → List InternalTransaction
as_list none = []
as_list (some t) = t ∷ []

compared-head :
    (tolerance : ℤ) (ipm : IpmRecord) (l : List InternalTransaction)
    → compared tolerance ipm l ≡ compared tolerance ipm (as_list (head l))
unfolding compared
compared-head tolerance ipm [] = refl
compared-head tolerance ipm (t ∷ l) = refl

head-candidates :
    (k : Text) (txns : List InternalTransaction)
    → head (candidates k (build_index txns)) ≡ first_keyed k txns
unfolding build_index
head-candidates k txns =
    ap head (candidates-index_from k txns []) ∙ unfold candidates lookup in head-listed k txns

-- `_match` over the index of `_build_index` compares a record with the transaction that a search
-- through all of them finds: the first that has the record's approval code and last four digits as
-- one of its two keys, or else the first that so has its amount and last four digits; if there is
-- neither, with none.
pub match_record-search :
    (tolerance : ℤ) (ipm : IpmRecord) (txns : List InternalTransaction)
    → match_record tolerance ipm (build_index txns)
      ≡ compared tolerance ipm (as_list (search ipm txns))
unfolding match_record search
match_record-search tolerance ipm txns =
    let a = candidates (key ipm.de38_approval_code (pan_last4 ipm)) (build_index txns) in
    let b = candidates (key (int_str ipm.de4_txn_amount) (pan_last4 ipm)) (build_index txns) in
    compared-head tolerance ipm (or_else a b)
    ∙ ap (λ o. compared tolerance ipm (as_list o))
        (or_else-head a b
          ∙ ap (λ o. or_first o (head b))
              (head-candidates (key ipm.de38_approval_code (pan_last4 ipm)) txns)
          ∙ ap (or_first _)
              (head-candidates (key (int_str ipm.de4_txn_amount) (pan_last4 ipm)) txns))
