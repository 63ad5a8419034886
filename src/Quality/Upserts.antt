-- ===== src/Quality/Upserts.antt =====
-- The INSERT statements of `persist_quality_run` of src/quality/persistence.py, with ON CONFLICT.
use pulse_data_platform.Base.{
  ◌+◌, ◌≡◌, ◌≢◌, refl, ◌∙◌, Bool, true, inl, inr, List, [], ◌∷◌, some, arith, any, count, find,
  find-update, find-update_other, Bool-cases, Option-cases, ok, find_sound, any_of_find-none,
  any_of_find-some,
}
use pulse_data_platform.Alerts.Rows.{Uuid}
use pulse_data_platform.Quality.Persisting.{
  RunRow, ResultRow, has_run, upsert_run, rewritten, insert_results,
}

-- The inserted rows come to the rows that are there.
pub count-insert_results :
    (rs there out : List ResultRow)
    → insert_results rs there ≡ ok out
    → (p : ResultRow → Bool) → count p out ≡ count p rs + count p there
unfolding insert_results
count-insert_results [] there out h p = ground arith
count-insert_results (r ∷ rs) there out h p =
    omega (arith, count-insert_results rs (r ∷ there) out (ground arith) p)

module _ (new : RunRow) where
  -- The run has its row, with the new summary.
  pub upsert_same :
      (rows : List RunRow)
      → (row : RunRow) × (find (has_run new.quality_run_id) (upsert_run new rows) ≡ some row)
        × (row.summary ≡ new.summary)
        × (row.is_blocked ≡ new.is_blocked)
  unfolding upsert_run
  upsert_same rows =
      let test = has_run new.quality_run_id in
      elim (Option-cases (find test rows)) [
        | inl absent ↦ (new, rw (any_of_find-none test rows absent) (ground arith), refl, refl)
        | inr (old, present) ↦
            let own : test old ≡ true = find_sound test rows old present in
            (
              rewritten new old,
              rw (any_of_find-some test rows old present) (
                  find-update test test (rewritten new) (λ r. unfold rewritten in refl) rows old
                    present
                  ∙ rw own refl),
              unfold rewritten in refl,
              unfold rewritten in refl,
            )
      ]

  -- The rows of other runs stay.
  pub upsert_others :
      (j : Uuid) (rows : List RunRow)
      → new.quality_run_id ≢ j
      → find (has_run j) (upsert_run new rows) ≡ find (has_run j) rows
  unfolding upsert_run
  upsert_others j rows other =
      let test = has_run new.quality_run_id in
      elim (Bool-cases (any test rows)) [
        | inl there ↦ rw there (
            find-update_other (has_run j) test (rewritten new)
              (λ r named. unfold rewritten in (ground (arith, other), ground (arith, other))) rows)
        | inr absent ↦ rw absent (ground (arith, other))
      ]
