-- ===== src/Screening/Decisions.antt =====
-- What the screening decides, and what it asks the API.
use banxe_payment_core.Prelude.{
  ℕ, ◌≡◌, ◌↔◌, Bool, true, false, ℕ_comparable, list_comparable, Option, none, some, List, [], ◌∷◌,
  map, arith, refl, All, All-append, Bool-cases, inl, inr, pos,
}
use banxe_payment_core.Exec.{Result, ok, raised}
use banxe_payment_core.Python.{Text, codes}
use banxe_payment_core.Json.{Value, num, str, get, get_or, or_default, truthy, is_str}
use banxe_payment_core.Screening.{
  ScreeningDecision, pass, ScreeningRequest, ScreeningResult, Payload, Response, unreachable,
  error_status, not_json, body, is_category_a, upper, country_of, payload_of, judged, judge,
  answered, screen,
}

-- An action that neither blocks nor holds.
abbrev pub Harmless : Option Value → Type 0
Harmless none = Unit
Harmless (some a) =
    (is_str "SAR" a ≡ false) × (is_str "REJECT" a ≡ false) × (is_str "HOLD" a ≡ false)

abbrev Quiet : Value → Type 0
Quiet w = (is_str "SAR" w ≡ false) × (is_str "REJECT" w ≡ false) × (is_str "HOLD" w ≡ false)

-- An answer that clears the transaction: `flagged` is there and false, and the action is harmless.
abbrev pub Clears : Response → Type 0
Clears r =
    (v : Value) × (f : Value) × (a : Option Value) × (r ≡ body v)
    × (get "flagged" v ≡ ok (some f))
    × (truthy f ≡ false)
    × (get "recommended_action" v ≡ ok a)
    × Harmless a

-- `screen` returned a result with this decision.
abbrev pub Decides : ScreeningDecision → Result ScreeningResult → Type 0
Decides d (ok r) = r.decision ≡ d
Decides d (raised e) = ⊥

upper_idem : (c : ℕ) → upper (upper c) ≡ upper c
unfolding upper
upper_idem c = ground arith

map-upper_idem : (t : Text) → map upper (map upper t) ≡ map upper t
map-upper_idem [] = refl
map-upper_idem (c ∷ t) = cc (upper_idem c, map-upper_idem t)

abbrev Cleared : Value → Type 0
Cleared v =
    (f : Value) × (a : Option Value) × (get "flagged" v ≡ ok (some f))
    × (truthy f ≡ false)
    × (get "recommended_action" v ≡ ok a)
    × Harmless a

judged-pass :
    (v f risk a : Value) → Decides pass (judged v f risk a) ↔ ((truthy f ≡ false) × Quiet a)
unfolding judged
judged-pass v f risk a = ground arith

-- With the three lookups given, `judge` is `judged` of their values or defaults.
judge_lem :
    (v : Value) (f r a : Option Value)
    → get "flagged" v ≡ ok f
    → get "risk_score" v ≡ ok r
    → get "recommended_action" v ≡ ok a
    → judge v
      ≡ judged v
          (or_default (Value.bool true) f)
          (or_default (num (pos 0)) r)
          (or_default (str (codes "APPROVE")) a)
unfolding judge get_or
judge_lem v f r a hf hr ha = ground (arith, hf, hr, ha)

Harmless-iff : (a : Option Value) → Harmless a ↔ Quiet (or_default (str (codes "APPROVE")) a)
unfolding is_str
Harmless-iff none = (λ h. (refl, refl, refl), λ h. tt)
Harmless-iff (some a) = (λ h. h, λ h. h)

judge-Cleared :
    (v : Value) (f r a : Option Value)
    → get "flagged" v ≡ ok f
    → get "risk_score" v ≡ ok r
    → get "recommended_action" v ≡ ok a
    → Decides pass (judge v)
    → Cleared v
unfolding truthy
judge-Cleared v none r a hf hr ha h =
    let p = (judged-pass v _ _ _).0 (rw (judge_lem v none r a hf hr ha) at h) in cc (p.0)
judge-Cleared v (some f) r a hf hr ha h =
    let p = (judged-pass v _ _ _).0 (rw (judge_lem v (some f) r a hf hr ha) at h) in
    (f, a, hf, p.0, ha, (Harmless-iff a).1 p.1)

judge-clear_pass :
    (v : Value) (r : Option Value) → get "risk_score" v ≡ ok r → Cleared v → Decides pass (judge v)
judge-clear_pass v r hr (f, a, hf, t, ha, h) =
    rw (judge_lem v (some f) r a hf hr ha) ((judged-pass v f _ _).1 (t, (Harmless-iff a).0 h))

judge-pass_iff : (v : Value) → Decides pass (judge v) ↔ Cleared v
unfolding judge get_or get
judge-pass_iff (Value.obj fs) =
    (judge-Cleared (Value.obj fs) _ _ _ refl refl refl, judge-clear_pass (Value.obj fs) _ refl)
judge-pass_iff v = (λ h. absurd h, λ (f, a, e, t, ha, h). cc e)

answered-pass :
    (w : Response) → Decides pass (answered w) ↔ ((◌≡◌ {A = Bool} false false) × Clears w)
unfolding answered
answered-pass (body v) = (
  λ h. let (f, a, e, t, ha, k) = (judge-pass_iff v).0 h in (refl, (v, f, a, refl, e, t, ha, k)),
  λ (_, (v', f, a, b, e, t, ha, k)).
      let q : v ≡ v' = cc b in rw q ((judge-pass_iff v').1 (f, a, e, t, ha, k)),
)
answered-pass (unreachable m) = (λ h. cc h, λ (_, (v', f, a, b, e, t, ha, k)). cc b)
answered-pass (error_status n) = (λ h. absurd h, λ (_, (v', f, a, b, e, t, ha, k)). cc b)
answered-pass not_json = (λ h. absurd h, λ (_, (v', f, a, b, e, t, ha, k)). cc b)

module _ (api : List Payload → Payload → Response) where
  -- Screening passes exactly when the capitalised country is not one of Category A and the API
  -- answers with an object whose flag is there and false and whose recommended action is missing or
  -- none of SAR, REJECT and HOLD.
  pub screen-pass_iff :
      (r : ScreeningRequest) (posted : List Payload)
      → Decides pass (screen api r posted).0
        ↔ ((is_category_a (country_of r) ≡ false) × Clears (api posted (payload_of r)))
  unfolding screen
  screen-pass_iff r posted = elim (Bool-cases (is_category_a (country_of r))) [
    | inl e ↦ rw e (λ h. cc h, λ h. cc (h.0))
    | inr e ↦ rw e (answered-pass (api posted (payload_of r)))
  ]

  -- If no transaction posted so far is of a Category A jurisdiction, then none is after a
  -- screening.
  screen-posted :
      (r : ScreeningRequest) (posted : List Payload)
      → All (λ (p : Payload). is_category_a p.jurisdiction ≡ false) posted
      → All (λ (p : Payload). is_category_a p.jurisdiction ≡ false) (screen api r posted).1
  unfolding screen payload_of
  screen-posted r posted h = elim (Bool-cases (is_category_a (country_of r))) [
    | inl e ↦ rw e h
    | inr e ↦ rw e (All-append _ posted _ h (e, tt))
  ]

  -- Screening a request and the same request with its country capitalised give the same result and
  -- the same posts.
  screen_case :
      (r : ScreeningRequest) (posted : List Payload)
      → screen api (record r { counterparty_country = map upper r.counterparty_country }) posted
        ≡ screen api r posted
  unfolding screen payload_of country_of
  screen_case r posted = simp map-upper_idem
