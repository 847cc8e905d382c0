-- ===== src/Sandbox/Registry.antt =====
-- What src/payments/sandbox_engine.py and src/payments/sepa_sandbox_rail.py share: items by their
-- idempotency key, under ids that count them, each with a status record.
use mathlib.Core.Option
use mathlib.Core.Path.{subst}
use mathlib.Core.List.{append_cancel_left}
use banxe_payment_core.Prelude.{
  ℕ, suc, ◌+◌, ◌≤◌, ◌≡◌, refl, ap, false, if◌then◌else◌, ◌==◌, ℕ_comparable, list_comparable,
  Option, none, some, List, [], ◌∷◌, ◌++◌, length, arith, Dict, lookup, insert, values,
  lookup-insert, insert-new, All, All-map, All-both, list_beq_refl, list_beq_iff, Bool-cases, inl,
  inr, sym, ◌∙◌,
}
use banxe_payment_core.Python.{Text, padded, padded_injective}

pub record Registry (I R : Type 0) : Type 0 where
  pub by_key : Dict Text I
  pub status : Dict Text R

pub values-append : {I : Type 0} (d e : Dict Text I) → values (d ++ e) ≡ values d ++ values e
values-append [] e = refl
values-append ((k, i) ∷ d) e = ap (λ l. i ∷ l) (values-append d e)

module _ {I R : Type 0} where
  abbrev pub empty_registry : Registry I R
  empty_registry = record { by_key = []; status = [] }

  -- self._by_key[key] = item; self._status[id] = status
  unfoldable pub register : Text → I → Text → R → Registry I R → Registry I R
  register key item id status s = record {
    by_key = insert key item s.by_key;
    status = insert id status s.status;
  }

  -- A new item takes no other item's key.
  pub register-keeps :
      (key : Text) (item : I) (id : Text) (status : R) (s : Registry I R) (k : Text) (i : I)
      → lookup key s.by_key ≡ none
      → lookup k s.by_key ≡ some i
      → lookup k (register key item id status s).by_key ≡ some i
  unfolding register
  register-keeps key item id status s k i e h =
      ground (arith, e, h, lookup-insert key k item s.by_key, list_beq_iff key k)

  pub register-lists :
      (key : Text) (item : I) (id : Text) (status : R) (s : Registry I R)
      → lookup key (register key item id status s).by_key ≡ some item
  unfolding register
  register-lists key item id status s =
      ground (arith, lookup-insert key key item s.by_key, list_beq_refl key)

  -- A new item is listed behind the others.
  pub register-values :
      (key : Text) (item : I) (id : Text) (status : R) (s : Registry I R)
      → lookup key s.by_key ≡ none
      → values (register key item id status s).by_key ≡ values s.by_key ++ item ∷ []
  unfolding register
  register-values key item id status s e =
      ap values (insert-new key item s.by_key e) ∙ values-append s.by_key ((key, item) ∷ [])

-- The first item with this id: next((i for i in items if i.id == id), None)
unfoldable pub first_with : {I : Type 0} → (I → Text) → Text → List I → Option I
first_with id x [] = none
first_with id x (i ∷ items) = if id i == x then some i else first_with id x items

-- What is found is still found when more items follow.
pub first_with-append :
    {I : Type 0} (id : I → Text) (x : Text) (l m : List I) (i : I)
    → first_with id x l ≡ some i
    → first_with id x (l ++ m) ≡ some i
unfolding first_with
first_with-append id x [] m i h = cc h
first_with-append id x (j ∷ l) m i h = ground (arith, h, first_with-append id x l m i)

module _ {I R : Type 0} (tag : Text) (id : I → Text) (key : I → Text) (track : I → R) where
  -- Item number n has the id of n + 1, and stands under its own key.
  abbrev pub Numbered : ℕ → Dict Text I → Type 0
  Numbered n [] = Unit
  Numbered n ((k, i) ∷ d) = (key i ≡ k) × (id i ≡ tag ++ padded (n + 1)) × Numbered (n + 1) d

  abbrev pub statuses : Dict Text I → Dict Text R
  statuses [] = []
  statuses ((k, i) ∷ d) = (id i, track i) ∷ statuses d

  abbrev pub Sound : Registry I R → Type 0
  Sound s = Numbered 0 s.by_key × (s.status ≡ statuses s.by_key)

  ids_differ :
      (n m : ℕ) (x y : Text)
      → n + 1 ≤ m
      → x ≡ tag ++ padded (n + 1)
      → y ≡ tag ++ padded (m + 1)
      → (x == y) ≡ false
  ids_differ n m x y h e f = elim (Bool-cases (x == y)) [
    | inl p ↦
        let q = list_comparable.same_iff x y in
        let r = padded_injective (n + 1) (m + 1) (append_cancel_left tag _ _ (sym e ∙ q.0 p ∙ f)) in
        absurd (omega (arith, h, r))
    | inr p ↦ p
  ]

  lookup-statuses_fresh :
      (n m : ℕ) (d : Dict Text I)
      → Numbered n d
      → n + length d ≤ m
      → lookup (tag ++ padded (m + 1)) (statuses d) ≡ none
  unfolding lookup
  lookup-statuses_fresh n m [] w h = refl
  lookup-statuses_fresh n m ((k, i) ∷ d) w h =
      rw (ids_differ n m _ _ (omega (arith, h)) w.1 refl)
        (lookup-statuses_fresh (n + 1) m d w.2 (omega (arith, h)))

  Numbered-append :
      (n : ℕ) (d e : Dict Text I) → Numbered n d → Numbered (n + length d) e → Numbered n (d ++ e)
  Numbered-append n [] e w v = let q : n + 0 ≡ n = omega arith in subst (λ m. Numbered m e) q v
  Numbered-append n ((k, i) ∷ d) e w v =
      let q : n + suc (length d) ≡ n + 1 + length d = omega arith in
      (w.0, w.1, Numbered-append (n + 1) d e w.2 (subst (λ m. Numbered m e) q v))

  statuses-append : (d e : Dict Text I) → statuses (d ++ e) ≡ statuses d ++ statuses e
  statuses-append [] e = refl
  statuses-append ((k, i) ∷ d) e = ap (λ t. (id i, track i) ∷ t) (statuses-append d e)

  -- A new item under a new key, with the next id, keeps the registry sound.
  pub register-Sound :
      (i : I) (s : Registry I R)
      → Sound s
      → lookup (key i) s.by_key ≡ none
      → id i ≡ tag ++ padded (length s.by_key + 1)
      → Sound (register (key i) i (id i) (track i) s)
  unfolding register
  register-Sound i s w h e =
      let d = s.by_key in
      let q : length d + 1 ≡ 0 + length d + 1 = omega arith in
      rw (insert-new (key i) i d h) (
        Numbered-append 0 d ((key i, i) ∷ []) w.0
            (refl, subst (λ m. id i ≡ tag ++ padded m) q e, tt),
        rw (w.1, statuses-append d ((key i, i) ∷ []))
            (insert-new (id i) (track i) (statuses d)
              (rw e (lookup-statuses_fresh 0 (length d) d w.0 (omega arith)))),
      )

  -- The status of an id is that of the first item that has it.
  pub lookup-statuses :
      (x : Text) (d : Dict Text I)
      → lookup x (statuses d) ≡ Option.map {A = I} track (first_with id x (values d))
  unfolding lookup first_with
  lookup-statuses x [] = refl
  lookup-statuses x ((k, i) ∷ d) = ground (arith, lookup-statuses x d)

  -- An item whose id is beyond the first `n`.
  abbrev Later : ℕ → I → Type 0
  Later n i = (m : ℕ) × (n ≤ m) × (id i ≡ tag ++ padded (m + 1))

  Numbered-Later : (n : ℕ) (d : Dict Text I) → Numbered n d → All (Later n) (values d)
  Numbered-Later n [] w = tt
  Numbered-Later n ((k, i) ∷ d) w = (
    (n, omega arith, w.1),
    All-map (λ j (m, h, e). (m, omega (arith, h), e)) (values d) (Numbered-Later (n + 1) d w.2),
  )

  -- Every item is the one that its id finds: no two have the same id.
  pub first_with-id :
      (n : ℕ) (d : Dict Text I)
      → Numbered n d
      → All (λ (i : I). first_with id (id i) (values d) ≡ some i) (values d)
  unfolding first_with
  first_with-id n [] w = tt
  first_with-id n ((k, i) ∷ d) w = (
    rw (list_beq_refl (id i)) refl,
    All-map (λ j ((m, h, e), f). rw (ids_differ n m _ _ (omega (arith, h)) w.1 e) f) (values d)
        (All-both _ _ (values d) (Numbered-Later (n + 1) d w.2) (first_with-id (n + 1) d w.2)),
  )
