-- ===== src/Connectors/Projections.antt =====
-- The projections that `record_success` of src/onboarding/connector_state.py writes are the ones
-- that `projection_ids` reads.
use pulse_data_platform.Base.{
  ℕ, ◌≡◌, refl, ◌∙◌, String, true, false, ◌&&◌, Option, List, [], ◌∷◌, ◌++◌, arith, any, find,
  find_sound, find-update, find-update_other, any_of_find-none, any_of_find-some, str_eq, eq_iff,
  eq_refl, Bool-cases, Option-cases, inl, inr, ok, >>=-eq-ok,
}
use pulse_data_platform.Base.Sorting.{sort_by, any-sort_by}
use pulse_data_platform.Base.Strict.{not_after, text_less}
use pulse_data_platform.Alerts.Rows.{Stamp}
use pulse_data_platform.Connectors.State.{
  Projection, ConnectorTables, is_projection_of, upsert_projection, projection_of,
  upsert_projections, ids_of, projection_ids, record_success, utc_text, optional_utc_text,
}

module _ (dumps : List String → String) (loads : String → List String) (b s : String) where
  abbrev stored : String → List Projection → List String
  stored order rows = ids_of loads (find (is_projection_of b s order) rows)

  own_test :
      (order : String) (ids : List String)
      → is_projection_of b s order (projection_of dumps b s (order, ids)) ≡ true
  unfolding projection_of
  own_test order ids = ground (arith, eq_refl b, eq_refl s, eq_refl order)

  upsert_own :
      (order : String) (ids : List String) (rows : List Projection)
      → stored order (upsert_projection (projection_of dumps b s (order, ids)) rows)
        ≡ loads (dumps (sort_by (not_after text_less) ids))
  unfolding upsert_projection projection_of
  upsert_own order ids rows =
      let test = is_projection_of b s order in
      let set =
        λ (r : Projection). record r { event_ids = dumps (sort_by (not_after text_less) ids) } in
      elim (Option-cases (find test rows)) [
        | inl absent ↦
            let named : (str_eq b b && str_eq s s && str_eq order order) ≡ true =
              ground (arith, eq_refl b, eq_refl s, eq_refl order) in
            rw (any_of_find-none test rows absent, named) refl
        | inr (r, present) ↦
            let own = find_sound test rows r present in
            let updated = find-update test test set (λ x. refl) rows r present in
            rw (any_of_find-some test rows r present, updated, own) refl
      ]

  upsert_other :
      (order other : String) (ids : List String) (rows : List Projection)
      → str_eq other order ≡ false
      → stored order (upsert_projection (projection_of dumps b s (other, ids)) rows)
        ≡ stored order rows
  unfolding upsert_projection projection_of
  upsert_other order other ids rows differ =
      let test = is_projection_of b s other in
      let set =
        λ (r : Projection). record r { event_ids = dumps (sort_by (not_after text_less) ids) } in
      elim (Bool-cases (any test rows)) [
        | inl there ↦
            rw
              (
                there,
                find-update_other (is_projection_of b s order) test set
                    (λ r named.
                      let same : r.order_id ≡ other = ground (arith, eq_iff r.order_id other) in
                      (rw same (ground arith), rw same (ground arith)))
                    rows,
              )
              refl
        | inr absent ↦ rw (absent, differ) (ground arith)
      ]

  -- Rewriting orders that are not this one.
  all_others :
      (order : String) (ps : List (String × List String)) (rows : List Projection)
      → any (λ p. str_eq p.0 order) ps ≡ false
      → stored order (upsert_projections dumps b s ps rows) ≡ stored order rows
  unfolding upsert_projections
  all_others order [] rows h = refl
  all_others order ((other, ids) ∷ ps) rows h =
      all_others order ps (upsert_projection (projection_of dumps b s (other, ids)) rows)
        (ground arith)
      ∙ upsert_other order other ids rows (ground arith)

  split_projections :
      (ps qs : List (String × List String)) (rows : List Projection)
      → upsert_projections dumps b s (ps ++ qs) rows
        ≡ upsert_projections dumps b s qs (upsert_projections dumps b s ps rows)
  unfolding upsert_projections
  split_projections [] qs rows = refl
  split_projections (p ∷ ps) qs rows =
      split_projections ps qs (upsert_projection (projection_of dumps b s p) rows)

  written :
      (at : Stamp) (checkpoint : Option Stamp) (n : ℕ) (ps : List (String × List String))
      (m t : ConnectorTables)
      → record_success dumps b s at checkpoint n ps m ≡ ok t
      → t.projections ≡ upsert_projections dumps b s ps m.projections
  unfolding record_success
  written at checkpoint n ps m t h =
      let (u, _, h1) = >>=-eq-ok (utc_text at) _ h in
      let (c, _, h2) = >>=-eq-ok (optional_utc_text checkpoint) _ h1 in ground arith

  -- After a success that returns, the ids that are read for an order are those that were written
  -- for it last: the same ids, whatever was stored before and whatever other orders were written.
  -- The JSON text of the sorted ids is read back as these ids.
  pub projection_ids_written :
      (at : Stamp) (checkpoint : Option Stamp) (n : ℕ) (ps qs : List (String × List String))
      (order : String) (ids : List String) (m t : ConnectorTables)
      → any (λ p. str_eq p.0 order) qs ≡ false
      → loads (dumps (sort_by (not_after text_less) ids)) ≡ sort_by (not_after text_less) ids
      → record_success dumps b s at checkpoint n (ps ++ (order, ids) ∷ qs) m ≡ ok t
      → (id : String) → any (str_eq id) (projection_ids loads b s order t) ≡ any (str_eq id) ids
  unfolding projection_ids
  projection_ids_written at checkpoint n ps qs order ids m t last read h id =
      let rows = upsert_projections dumps b s ps m.projections in
      let own = upsert_projection (projection_of dumps b s (order, ids)) rows in
      let stored_last : stored order t.projections
          ≡ loads (dumps (sort_by (not_after text_less) ids)) =
        rw
          (
            written at checkpoint n (ps ++ (order, ids) ∷ qs) m t h,
            split_projections ps ((order, ids) ∷ qs) m.projections,
          )
          (unfold upsert_projections in all_others order qs own last ∙ upsert_own order ids rows) in
      rw (stored_last, read) (any-sort_by (not_after text_less) (str_eq id) ids)
