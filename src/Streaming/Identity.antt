-- ===== src/Streaming/Identity.antt =====
-- What `deserialize_marketplace_message` of src/streaming/kafka_consumer.py lets through.
use pulse_data_platform.Base.{
  ◌≡◌, refl, arith, String, Bool, true, false, Option, none, some, List, [], ◌∷◌, any, str_eq,
  Bool-cases, Option-cases, inl, inr, ok, if◌then◌else◌,
}
use pulse_data_platform.Alerts.Rows.{Json}
use pulse_data_platform.Alerts.Recording.{put}
use pulse_data_platform.Streaming.Messages.{
  Payload, Loaded, not_json, not_object, object, Message, member, lacks, required_event_fields,
  is_legacy, with_defaults, is_identifier_member, is_version_member, is_expected_key, check_key,
  check_identity, check_payload, deserialize,
}

lacks-put :
    (k : String) (v : Json) (p : Payload) (name : String)
    → lacks p name ≡ false
    → lacks (put k v p) name ≡ false
unfolding member put
lacks-put k v [] name h = ground (arith)
lacks-put k v ((j, w) ∷ p) name h = elim (Bool-cases (str_eq j k)) [
  | inl here ↦ ground (arith)
  | inr there ↦ elim (Bool-cases (str_eq j name)) [
    | inl own ↦ ground (arith)
    | inr other ↦ ground (arith, lacks-put k v p name)
  ]
]

any-put :
    (k : String) (v : Json) (p : Payload) (names : List String)
    → any (lacks p) names ≡ false
    → any (lacks (put k v p)) names ≡ false
any-put k v p [] h = refl
any-put k v p (name ∷ names) h = ground (arith, any-put k v p names, lacks-put k v p name)

any-with_defaults :
    (p : Payload) (names : List String)
    → any (lacks p) names ≡ false
    → any (lacks (with_defaults p)) names ≡ false
unfolding with_defaults
any-with_defaults p names h =
    any-put _ _ _ names (any-put _ _ _ names (any-put _ _ _ names (any-put _ _ _ names h)))

module _ {Raw : Type 0} (load : Raw → Loaded) (decode : Raw → Option String)
    (show : Json → String) where
  -- The identity members are in form, and the key is the one the payload calls for.
  abbrev pub IsIdentified : Bool → Option Raw → Payload → Type 0
  IsIdentified legacy key p =
      (is_identifier_member (member "business_id" p) ≡ true)
      × (is_identifier_member (member "source_type" p) ≡ true)
      × (is_identifier_member (member "source_id" p) ≡ true)
      × (is_version_member (member "schema_version" p) ≡ true)
      × ((raw : Raw) × (k : String) × (key ≡ some raw)
          × (decode raw ≡ some k)
          × (is_expected_key show legacy p k ≡ true))

  check_key-ok :
      (legacy : Bool) (key : Option Raw) (p q : Payload)
      → check_key load decode show legacy key p ≡ ok q
      → (p ≡ q)
        × ((raw : Raw) × (k : String) × (key ≡ some raw)
            × (decode raw ≡ some k)
            × (is_expected_key show legacy p k ≡ true))
  unfolding check_key
  check_key-ok legacy none p q h = absurd (cc)
  check_key-ok legacy (some raw) p q h = elim (Option-cases (decode raw)) [
    | inl undecoded ↦ absurd (ground (arith))
    | inr (k, decoded) ↦ elim (Bool-cases (is_expected_key show legacy p k)) [
      | inl same ↦ (ground (arith), (raw, k, refl, decoded, same))
      | inr differ ↦ absurd (ground (arith))
    ]
  ]

  check_identity-ok :
      (legacy : Bool) (key : Option Raw) (p q : Payload)
      → check_identity load decode show legacy key p ≡ ok q
      → (p ≡ q) × IsIdentified legacy key p
  unfolding check_identity
  check_identity-ok legacy key p q h =
      let let_on : check_key load decode show legacy key p ≡ ok q = ground (arith) in
      let (same, keyed) = check_key-ok legacy key p q let_on in
      (same, (ground (arith), ground (arith), ground (arith), ground (arith), keyed))

  abbrev completed : Payload → Payload
  completed p = if is_legacy p then with_defaults p else p

  check_payload-ok :
      (key : Option Raw) (p q : Payload)
      → check_payload load decode show key p ≡ ok q
      → (any (lacks q) required_event_fields ≡ false)
        × (q ≡ completed p)
        × IsIdentified (is_legacy p) key q
  unfolding check_payload
  check_payload-ok key p q h =
      let there : any (lacks p) required_event_fields ≡ false = ground (arith) in
      elim (Bool-cases (is_legacy p)) [
        | inl legacy ↦
            let checked : check_identity load decode show true key (with_defaults p) ≡ ok q =
              ground (arith) in
            let (same, identified) = check_identity-ok true key (with_defaults p) q checked in
            rw⁻¹ same
              (rw legacy (any-with_defaults p required_event_fields there, refl, identified))
        | inr new ↦
            let checked : check_identity load decode show false key p ≡ ok q = ground (arith) in
            let (same, identified) = check_identity-ok false key p q checked in
            rw⁻¹ same (rw new (there, refl, identified))
      ]

  -- Of a record that is accepted: its value is an object, and the payload returned is that object,
  -- with the default identity where it has no identity field at all. The payload returned has every
  -- required field, its business, source type and source identifiers are in form and its schema
  -- version is no blank text; the key of the record is there, decodes, and is the one that the
  -- payload calls for: its customer where the object had no identity field, and otherwise its
  -- business and its customer.
  pub deserialize-IsIdentified :
      (m : Message Raw) (q : Payload)
      → deserialize load decode show m ≡ ok q
      → (raw : Raw) × (p : Payload) × (m.value ≡ some raw)
        × (load raw ≡ object p)
        × (any (lacks q) required_event_fields ≡ false)
        × (q ≡ (if is_legacy p then with_defaults p else p))
        × IsIdentified (is_legacy p) m.key q
  unfolding deserialize
  deserialize-IsIdentified m q h = elim (Option-cases m.value) [
    | inl absent ↦ absurd (ground (arith))
    | inr (raw, present) ↦ by_loaded raw present (load raw) refl
  ]
    where
      by_loaded :
          (raw : Raw)
          → m.value ≡ some raw
          → (l : Loaded) → load raw ≡ l
          → (raw : Raw) × (p : Payload) × (m.value ≡ some raw)
            × (load raw ≡ object p)
            × (any (lacks q) required_event_fields ≡ false)
            × (q ≡ (if is_legacy p then with_defaults p else p))
            × IsIdentified (is_legacy p) m.key q
      by_loaded raw present not_json e = absurd (ground (arith))
      by_loaded raw present not_object e = absurd (ground (arith))
      by_loaded raw present (object p) e =
          let checked : check_payload load decode show m.key p ≡ ok q = ground (arith) in
          let (required, same, identified) = check_payload-ok m.key p q checked in
          (raw, p, present, e, required, same, identified)
