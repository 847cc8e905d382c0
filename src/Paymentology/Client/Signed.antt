-- ===== src/Paymentology/Client/Signed.antt =====
-- The checksums on the requests of src/paymentology/adapter.py, against `_verify_checksum` of
-- src/paymentology/remote_handler.py.
use banxe_payment_core.Prelude.{
  ℕ, ◌+◌, ◌≡◌, refl, ap, ◌∙◌, arith, true, ◌==◌, list_beq_refl, list_comparable, ℕ_comparable, List,
  [], ◌∷◌, ◌++◌,
}
use banxe_payment_core.Exec.{Result}
use banxe_payment_core.Python.{Text, codes}
use banxe_payment_core.Paymentology.Xml.{Element}
use banxe_payment_core.Paymentology.Builder.{request_tree, build_request}
use banxe_payment_core.Paymentology.Checksum.{compute_checksum}
use banxe_payment_core.Paymentology.Handler.{
  RemoteApiHandler, all_but_last, verify_checksum, arguments,
}
use banxe_payment_core.Paymentology.Handler.Requests.{
  reread, value_texts, Typed, arguments-request_tree,
}
use banxe_payment_core.Paymentology.Client.{
  PaymentologyConfig, CardHolder, Date, midnight, Adapter, call, card_params, number_params,
  create_virtual_card, activate_card, stop_card, get_card_details,
}

-- A method of the adapter, with its arguments.
pub data Operation : Type 0 where
  create : CardHolder → Date → Operation
  activate : Text → Operation
  stop : Text → Operation
  details : Text → Operation

module _ (config : PaymentologyConfig) (fromstring : Text → Result Element)
    (http : List (Text × Text) → Text → Text → Result Text) (hmac : Text → Text → Text)
    (uuid4 now : ℕ → Text) where
  -- The adapter once the method has returned or raised.
  unfoldable pub performed : Operation → Adapter → Adapter
  performed (create holder expiry) a =
      (create_virtual_card config fromstring http hmac uuid4 now holder expiry a).1
  performed (activate n) a = (activate_card config fromstring http hmac uuid4 now n a).1
  performed (stop n) a = (stop_card config fromstring http hmac uuid4 now n a).1
  performed (details n) a = (get_card_details config fromstring http hmac uuid4 now n a).1

  -- The text is a request whose last parameter, as the handler reads it, is the checksum of its
  -- method and its other parameters under the password of the configuration.
  abbrev pub Signed : Text → Type 0
  Signed body =
      (m : Text) × (ps : List (Text × Text)) × (vals : List Text) × (sum : Text) × (body
        ≡ build_request m ps)
      × (arguments (reread (request_tree m ps)) ≡ vals ++ sum ∷ [])
      × ((h : RemoteApiHandler)
          → h.terminal_password ≡ config.terminal_password
          → verify_checksum hmac h m (vals ++ sum ∷ []) sum ≡ true)

  call-posted :
      (m : Text) (ps : List (Text × Text)) (a : Adapter)
      → (call config fromstring http m ps a).1.posted
        ≡ a.posted ++ (config.base_url, build_request m ps) ∷ []
  unfolding call
  call-posted m ps a = ground arith

  -- A request whose last value is the checksum of those before it.
  sum-Signed :
      (m : Text) (ps : List (Text × Text)) (vals : List Text)
      → Typed ps
      → value_texts ps ≡ vals ++ compute_checksum hmac m vals config.terminal_password ∷ []
      → ((sum : Text) → all_but_last (vals ++ sum ∷ []) ≡ vals)
      → Signed (build_request m ps)
  sum-Signed m ps vals typed e front =
      let sum = compute_checksum hmac m vals config.terminal_password in
      (
        m,
        ps,
        vals,
        sum,
        refl,
        arguments-request_tree m ps typed ∙ e,
        λ h p.
            unfold verify_checksum in
            ap (λ vs. compute_checksum hmac m vs h.terminal_password == sum) (front sum)
            ∙ ap (λ q. compute_checksum hmac m vals q == sum) p
            ∙ list_beq_refl sum,
      )

  card-Signed :
      (holder : CardHolder) (expiry : Date) (t d : Text)
      → Signed
          (build_request (codes "CreateLinkedCard") (card_params config hmac holder expiry t d))
  unfolding card_params
  card-Signed holder expiry t d =
      sum-Signed (codes "CreateLinkedCard") (card_params config hmac holder expiry t d)
        (config.terminal_id
          ∷ holder.reference
          ∷ holder.first_name
          ∷ holder.last_name
          ∷ holder.id_or_passport
          ∷ holder.cellphone_number
          ∷ midnight expiry
          ∷ t
          ∷ d
          ∷ [])
        (refl, (refl, (refl, (refl, (refl, (refl, (refl, (refl, (refl, (refl, tt)))))))))) refl
        (λ s. unfold all_but_last in refl)

  number-Signed : (m n t d : Text) → Signed (build_request m (number_params config hmac m n t d))
  unfolding number_params
  number-Signed m n t d =
      sum-Signed m (number_params config hmac m n t d) (config.terminal_id ∷ n ∷ t ∷ d ∷ [])
        (refl, (refl, (refl, (refl, (refl, tt))))) refl (λ s. unfold all_but_last in refl)

  abbrev drawn : Adapter → Adapter
  drawn a = record a { draws = a.draws + 1 }

  -- Each method of the adapter posts exactly one request, to the address of its configuration,
  -- whatever the server answers; its last parameter is a checksum that `_verify_checksum` of a handler
  -- with the same password accepts, for the method and the parameters that the handler reads.
  pub performed-Signed :
      (op : Operation) (a : Adapter)
      → (body : Text) × ((performed op a).posted ≡ a.posted ++ (config.base_url, body) ∷ [])
        × Signed body
  unfolding performed create_virtual_card activate_card stop_card get_card_details
  performed-Signed (create holder expiry) a = (
    _,
    ground (
      arith,
      call-posted (codes "CreateLinkedCard")
          (card_params config hmac holder expiry (uuid4 a.draws) (now a.draws)) (drawn a),
    ),
    card-Signed holder expiry (uuid4 a.draws) (now a.draws),
  )
  performed-Signed (activate n) a = (
    _,
    call-posted _ _ (drawn a),
    number-Signed (codes "ActivateCard") n (uuid4 a.draws) (now a.draws),
  )
  performed-Signed (stop n) a = (
    _,
    call-posted _ _ (drawn a),
    number-Signed (codes "StopCard") n (uuid4 a.draws) (now a.draws),
  )
  performed-Signed (details n) a = (
    _,
    call-posted _ _ (drawn a),
    number-Signed (codes "GetCardDetails") n (uuid4 a.draws) (now a.draws),
  )
