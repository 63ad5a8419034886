-- ===== src/Connectors/State.antt =====
-- `ConnectorStateStore` of src/onboarding/connector_state.py: two SQLite tables, and each method
-- one transaction on them. Instants are in UTC; their texts are read back as they were written.
use Prim.Native.String.{[] as «ε», ◌∷◌ as ◌∷ᶜ◌}
use pulse_data_platform.Base.{
  ℕ, zero, suc, String, Bool, ◌&&◌, Option, none, some, List, [], ◌∷◌, any, find, update, str_eq,
  Outcome, ok, err, ◌>>=◌, if◌then◌else◌,
}
use pulse_data_platform.Base.Sorting.{sort_by}
use pulse_data_platform.Base.Strict.{not_after, text_less}
use pulse_data_platform.Alerts.Rows.{Stamp, aware, naive}

-- A row of connector_state, and what `get` returns.
pub record ConnectorState : Type 0 where
  pub business_id : String
  pub source_id : String
  pub last_attempted_at_utc : Option ℕ
  pub last_successful_at_utc : Option ℕ
  pub checkpoint_utc : Option ℕ
  pub records_extracted : ℕ
  pub latest_error : Option String
  pub health : String

-- A row of shopify_projection: the ids are a JSON text.
pub record Projection : Type 0 where
  pub business_id : String
  pub source_id : String
  pub order_id : String
  pub event_ids : String

pub record ConnectorTables : Type 0 where
  pub states : List ConnectorState
  pub projections : List Projection

-- `ValueError`
pub data TimestampError : Type 0 where
  naive_timestamp : TimestampError

unfoldable pub utc_text : Stamp → Outcome TimestampError ℕ
utc_text (aware t) = ok t
utc_text (naive t) = err naive_timestamp

unfoldable pub optional_utc_text : Option Stamp → Outcome TimestampError (Option ℕ)
unfolding utc_text
optional_utc_text none = ok none
optional_utc_text (some at) = do t ← utc_text at; ok (some t)

-- The defaults of the columns and of the record.
unfoldable pub new_state : String → String → ConnectorState
new_state business source = record {
  business_id = business;
  source_id = source;
  last_attempted_at_utc = none;
  last_successful_at_utc = none;
  checkpoint_utc = none;
  records_extracted = 0;
  latest_error = none;
  health = "unknown";
}

-- `WHERE business_id=? AND source_id=?`
abbrev pub is_state_of : String → String → ConnectorState → Bool
is_state_of business source r = str_eq r.business_id business && str_eq r.source_id source

abbrev pub is_projection_of : String → String → String → Projection → Bool
is_projection_of business source order p =
    str_eq p.business_id business && str_eq p.source_id source && str_eq p.order_id order

abbrev pub state_of : String → String → Option ConnectorState → ConnectorState
state_of business source none = new_state business source
state_of business source (some r) = record r { business_id = business; source_id = source }

unfoldable pub get : String → String → ConnectorTables → ConnectorState
unfolding new_state
get business source m = state_of business source (find (is_state_of business source) m.states)

-- `INSERT … ON CONFLICT(business_id,source_id) DO UPDATE SET …`
unfoldable pub upsert_state :
    String → String → (ConnectorState → ConnectorState) → List ConnectorState → List ConnectorState
unfolding new_state
upsert_state business source set rows =
    if any (is_state_of business source) rows
    then update (is_state_of business source) set rows
    else set (new_state business source) ∷ rows

unfoldable pub attempted : ℕ → ConnectorState → ConnectorState
attempted at r = record r { last_attempted_at_utc = some at; health = "running" }

unfoldable pub record_attempt :
    String → String → Stamp → ConnectorTables → Outcome TimestampError ConnectorTables
unfolding upsert_state attempted utc_text
record_attempt business source at m = do
  t ← utc_text at
  ok (record m { states = upsert_state business source (attempted t) m.states })

-- `error[:n]`
abbrev pub first_chars : ℕ → String → String
first_chars zero s = «ε»
first_chars (suc n) «ε» = «ε»
first_chars (suc n) (c ∷ᶜ s) = c ∷ᶜ first_chars n s

unfoldable pub failed : String → String → ConnectorState → ConnectorState
failed error health r = record r { latest_error = some (first_chars 500 error); health = health }

unfoldable pub record_failure :
    String → String → String → String → ConnectorTables → ConnectorTables
unfolding upsert_state failed
record_failure business source error health m = record m {
  states = upsert_state business source (failed error health) m.states;
}

-- `COALESCE(excluded.checkpoint_utc,connector_state.checkpoint_utc)`
abbrev pub coalesce : Option ℕ → Option ℕ → Option ℕ
coalesce none old = old
coalesce (some t) old = some t

unfoldable pub succeeded : ℕ → Option ℕ → ℕ → ConnectorState → ConnectorState
succeeded at checkpoint extracted r = record r {
  last_attempted_at_utc = some at;
  last_successful_at_utc = some at;
  checkpoint_utc = coalesce checkpoint r.checkpoint_utc;
  records_extracted = extracted;
  latest_error = none;
  health = "healthy";
}

-- The upsert of one projection.
unfoldable pub upsert_projection : Projection → List Projection → List Projection
upsert_projection p rows =
    let same = is_projection_of p.business_id p.source_id p.order_id in
    if any same rows then update same (λ r. record r { event_ids = p.event_ids }) rows else p ∷ rows

-- `dumps` and `loads` are those of json.
module _ (dumps : List String → String) where
  -- A set of texts is the list of its members.
  unfoldable pub projection_of : String → String → String × List String → Projection
  projection_of business source (order, ids) = record {
    business_id = business;
    source_id = source;
    order_id = order;
    event_ids = dumps (sort_by (not_after text_less) ids);
  }

  unfoldable pub upsert_projections :
      String → String → List (String × List String) → List Projection → List Projection
  unfolding upsert_projection projection_of
  upsert_projections business source [] rows = rows
  upsert_projections business source (p ∷ ps) rows =
      upsert_projections business source ps
        (upsert_projection (projection_of business source p) rows)

  unfoldable pub record_success :
      String
      → String
      → Stamp
      → Option Stamp
      → ℕ
      → List (String × List String)
      → ConnectorTables
      → Outcome TimestampError ConnectorTables
  unfolding upsert_state succeeded upsert_projections optional_utc_text
  record_success business source at checkpoint extracted projections m = do
    t ← utc_text at
    c ← optional_utc_text checkpoint
    ok (record {
      states = upsert_state business source (succeeded t c extracted) m.states;
      projections = upsert_projections business source projections m.projections;
    })

module _ (loads : String → List String) where
  abbrev pub ids_of : Option Projection → List String
  ids_of none = []
  ids_of (some p) = loads p.event_ids

  unfoldable pub projection_ids : String → String → String → ConnectorTables → List String
  projection_ids business source order m =
      ids_of (find (is_projection_of business source order) m.projections)
