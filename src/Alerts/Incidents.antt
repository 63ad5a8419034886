-- ===== src/Alerts/Incidents.antt =====
-- What `incident_key` of src/quality/alert_service.py tells apart, and when it returns.
use pulse_data_platform.Base.{
  ◌≡◌, ◌↔◌, refl, ap, String, true, false, Option, none, some, List, [], arith, inl, inr,
  Bool-cases, str_eq, eq_iff, ok, or_default,
}
use pulse_data_platform.Alerts.Canonical.{Entry, canonical, IsDict, SameDict, canonical-SameDict}
use pulse_data_platform.Alerts.Rows.{Json, SourceType, dict}
use pulse_data_platform.Alerts.Identity.{
  Condition, incident_key, payload, or_null, is_known, is_quality, source_text,
}

abbrev pub dimensions_of : Condition → List Entry
dimensions_of c = or_default c.dimensions []

-- What counts of two conditions that are one incident: the check name of quality failures alone,
-- and of the dimensions the value under each key. No dimensions are the empty ones.
pub record SameIncident (c d : Condition) : Type 0 where
  pub source : c.source_type ≡ d.source_type
  pub dataset : c.dataset_name ≡ d.dataset_name
  pub layer : c.layer ≡ d.layer
  pub metric : c.metric_name ≡ d.metric_name
  pub check : is_quality c.source_type ≡ true → c.check_name ≡ d.check_name
  pub dimensions : SameDict (dimensions_of c) (dimensions_of d)

incident_key_known :
    (digest : List Json → String) (c : Condition) (k : String)
    → incident_key digest c ≡ ok k
    → (is_known c.source_type ≡ true) × (k ≡ digest (payload c))
unfolding incident_key
incident_key_known digest c k h = ground arith

sources_differ :
    (str_eq "QUALITY_FAILURE" "ANOMALY" ≡ false) × (str_eq "ANOMALY" "QUALITY_FAILURE" ≡ false)
sources_differ = (refl, refl)

source_of_text :
    (u v : SourceType)
    → is_known u ≡ true
    → is_known v ≡ true
    → source_text u ≡ source_text v
    → u ≡ v
source_of_text u v hu hv same =
    ground (arith, eq_iff "QUALITY_FAILURE" "ANOMALY", eq_iff "ANOMALY" "QUALITY_FAILURE")

or_null_injective : (a b : Option String) → or_null a ≡ or_null b → a ≡ b
or_null_injective none none h = refl
or_null_injective none (some b) h = absurd (cc)
or_null_injective (some a) none h = absurd (cc)
or_null_injective (some a) (some b) h = ground arith

payload_checks :
    (c d : Condition)
    → c.source_type ≡ d.source_type
    → payload c ≡ payload d
    → is_quality c.source_type ≡ true
    → c.check_name ≡ d.check_name
unfolding payload
payload_checks c d same h quality =
    or_null_injective c.check_name d.check_name (ground (arith, ap is_quality same))

dict_injective : {c d : List Entry} → dict c ≡ dict d → c ≡ d
dict_injective h = ground arith

payload-SameIncident :
    (c d : Condition)
    → IsDict (dimensions_of c)
    → IsDict (dimensions_of d)
    → is_known c.source_type ≡ true
    → is_known d.source_type ≡ true
    → payload c ≡ payload d
    → SameIncident c d
unfolding payload
payload-SameIncident c d uc ud hc hd h =
    let same = source_of_text c.source_type d.source_type hc hd (ground arith) in
    record {
      source = same;
      dataset = ground arith;
      layer = ground arith;
      metric = ground arith;
      check = payload_checks c d same h;
      dimensions =
          (canonical-SameDict (dimensions_of c) (dimensions_of d) uc ud).0 (dict_injective (cc));
    }

SameIncident-payload :
    (c d : Condition)
    → IsDict (dimensions_of c)
    → IsDict (dimensions_of d)
    → SameIncident c d
    → payload c ≡ payload d
unfolding payload
SameIncident-payload c d uc ud h =
    let dims : canonical (dimensions_of c) ≡ canonical (dimensions_of d) =
      (canonical-SameDict (dimensions_of c) (dimensions_of d) uc ud).1 h.dimensions in
    elim (Bool-cases (is_quality c.source_type)) [
      | inl quality ↦
          let checked = h.check quality in
          rw (h.source, h.dataset, h.layer, h.metric, checked, dims) refl
      | inr other ↦
          let other_d : is_quality d.source_type ≡ false = rw⁻¹ h.source other in
          rw (other, other_d, h.source, h.dataset, h.layer, h.metric, dims) refl
    ]

-- Two conditions with keys, the dimensions of each a dictionary with each key once, have the same
-- incident key exactly if they are one incident, in whatever order the dimensions stand, when the
-- digest does not collide on the two payloads.
pub incident_key_separates :
    (digest : List Json → String) (c d : Condition) (j k : String)
    → IsDict (dimensions_of c)
    → IsDict (dimensions_of d)
    → (digest (payload c) ≡ digest (payload d) → payload c ≡ payload d)
    → incident_key digest c ≡ ok j
    → incident_key digest d ≡ ok k
    → (j ≡ k) ↔ SameIncident c d
incident_key_separates digest c d j k uc ud sound hc hd =
    let (known_c, key_c) = incident_key_known digest c j hc in
    let (known_d, key_d) = incident_key_known digest d k hd in
    (
      λ same. payload-SameIncident c d uc ud known_c known_d (sound (cc)),
      λ same. cc (SameIncident-payload c d uc ud same),
    )
