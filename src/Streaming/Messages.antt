-- ===== src/Streaming/Messages.antt =====
-- `deserialize_marketplace_message` of src/streaming/kafka_consumer.py. `Raw` holds byte strings;
-- `load` decodes them as UTF-8 JSON and `decode` as UTF-8; `show` is `str` of a JSON value that is
-- no text.
use Prim.Native.Char.{code}
use Prim.Native.String.{[] as «ε», ◌∷◌ as ◌∷ᶜ◌, ◌++◌ as ◌<>◌}
use pulse_data_platform.Base.{
  ℕ, zero, suc, String, Bool, true, false, not, ◌&&◌, ◌||◌, Option, none, some, List, [], ◌∷◌, any,
  str_eq, ◌==◌, leb, is_blank, Outcome, ok, err, if◌then◌else◌, is_none,
}
use pulse_data_platform.Alerts.Rows.{Json, text}
use pulse_data_platform.Alerts.Recording.{put}

abbrev pub Payload : Type 0
Payload = List (String × Json)

-- What `json.loads` makes of a value: a failure, an object, or something else.
pub data Loaded : Type 0 where
  not_json not_object : Loaded
  object : Payload → Loaded

-- A record as `poll` returns it; `failed_poll` is the truth of `error()`.
pub record Message (Raw : Type 0) : Type 0 where
  pub offset : ℕ
  pub failed_poll : Bool
  pub key : Option Raw
  pub value : Option Raw

-- The messages of `MarketplaceMessageError`.
pub data MessageError : Type 0 where
  null_value invalid_json no_object missing_fields partial_identity : MessageError
  invalid_identifier empty_version missing_key invalid_key wrong_key : MessageError

-- `payload[name]`, where it is there.
unfoldable pub member : String → Payload → Option Json
member name [] = none
member name ((k, v) ∷ p) = let rest = member name p in if str_eq k name then some v else rest

abbrev pub lacks : Payload → String → Bool
lacks p name = is_none (member name p)

-- REQUIRED_EVENT_FIELDS
abbrev pub required_event_fields : List String
required_event_fields =
    "event_id" ∷ "event_type" ∷ "event_timestamp" ∷ "customer_id" ∷ "session_id" ∷ "country" ∷ []

-- IDENTITY_FIELDS
abbrev pub identity_fields : List String
identity_fields = "business_id" ∷ "source_type" ∷ "source_id" ∷ "schema_version" ∷ []

-- None of the identity fields is there.
abbrev pub is_legacy : Payload → Bool
is_legacy p = not (any (λ name. not (lacks p name)) identity_fields)

-- `payload.update(…)` with the defaults of src/onboarding/__init__.py.
unfoldable pub with_defaults : Payload → Payload
unfolding put
with_defaults p = put "schema_version" (text "marketplace_events_v1") (
    put "source_id" (text "pulse_marketplace_demo")
      (put "source_type" (text "csv_manual") (put "business_id" (text "pulse_demo_store") p)))

abbrev is_lower_or_digit : ℕ → Bool
is_lower_or_digit c = leb 97 c && leb c 122 || leb 48 c && leb c 57

-- The rest of an identifier, of which at least `low` and at most `high` characters are left.
unfoldable pub is_identifier_rest : ℕ → ℕ → String → Bool
is_identifier_rest low high «ε» = low == 0
is_identifier_rest low zero (c ∷ᶜ s) = false
is_identifier_rest zero (suc high) (c ∷ᶜ s) =
    let rest = is_identifier_rest zero high s in
    (is_lower_or_digit (code c) || code c == 95 || code c == 45) && rest
is_identifier_rest (suc low) (suc high) (c ∷ᶜ s) =
    let rest = is_identifier_rest low high s in
    (is_lower_or_digit (code c) || code c == 95 || code c == 45) && rest

-- IDENTIFIER_PATTERN of src/onboarding/models.py
unfoldable pub is_identifier : String → Bool
unfolding is_identifier_rest
is_identifier «ε» = false
is_identifier (c ∷ᶜ s) = is_lower_or_digit (code c) && is_identifier_rest 2 63 s

abbrev pub is_identifier_member : Option Json → Bool
is_identifier_member (some (text s)) = is_identifier s
is_identifier_member _ = false

abbrev pub is_version_member : Option Json → Bool
is_version_member (some (text s)) = not (is_blank s)
is_version_member _ = false

abbrev shown : (Json → String) → Option Json → String
shown show none = ""
shown show (some (text s)) = s
shown show (some v) = show v

-- `record_key != expected_key`, negated: a legacy key is compared with the value itself.
abbrev pub is_expected_key : (Json → String) → Bool → Payload → String → Bool
is_expected_key show false p key =
    str_eq key (shown show (member "business_id" p) <> ("|" <> shown show (member "customer_id" p)))
is_expected_key show true p key = is_same_text (member "customer_id" p) key
  where
    is_same_text : Option Json → String → Bool
    is_same_text (some (text s)) k = str_eq k s
    is_same_text _ k = false

module _ {Raw : Type 0} (load : Raw → Loaded) (decode : Raw → Option String)
    (show : Json → String) where
  -- The checks of the key.
  unfoldable pub check_key : Bool → Option Raw → Payload → Outcome MessageError Payload
  unfolding member
  check_key legacy none p = err missing_key
  check_key legacy (some raw) p = check_text (decode raw)
    where
      check_text : Option String → Outcome MessageError Payload
      check_text none = err invalid_key
      check_text (some key) = if is_expected_key show legacy p key then ok p else err wrong_key

  -- The checks of the identity, then of the key.
  unfoldable pub check_identity : Bool → Option Raw → Payload → Outcome MessageError Payload
  unfolding check_key is_identifier
  check_identity legacy key p =
      if not (is_identifier_member (member "business_id" p))
        || not (is_identifier_member (member "source_type" p))
        || not (is_identifier_member (member "source_id" p))
      then err invalid_identifier
      else if not (is_version_member (member "schema_version" p))
      then err empty_version
      else check_key legacy key p

  unfoldable pub check_payload : Option Raw → Payload → Outcome MessageError Payload
  unfolding check_identity with_defaults
  check_payload key p =
      if any (lacks p) required_event_fields
      then err missing_fields
      else if is_legacy p
      then check_identity true key (with_defaults p)
      else if any (lacks p) identity_fields
      then err partial_identity
      else check_identity false key p

  unfoldable pub deserialize : Message Raw → Outcome MessageError Payload
  unfolding check_payload
  deserialize m = elim m.value [
    | none ↦ err null_value
    | some raw ↦ elim (load raw) [
      | not_json ↦ err invalid_json
      | not_object ↦ err no_object
      | object p ↦ check_payload m.key p
    ]
  ]
