-- ===== src/Connectors/Refinement.antt =====
-- The tables of src/onboarding/connector_state.py implement the machine of each connector,
-- however the calls of several connectors interleave.
use pulse_data_platform.Base.{
  ℕ, ◌≡◌, refl, sym, ap, ◌∙◌, String, Bool, true, false, ◌&&◌, Option, none, some, List, [], ◌∷◌,
  arith, any, find, find_sound, find-update, find-update_other, any_of_find-none, any_of_find-some,
  str_eq, eq_iff, eq_refl, Bool-cases, Option-cases, inl, inr, if◌then◌else◌,
}
use pulse_data_platform.Alerts.Rows.{aware, naive}
use pulse_data_platform.Connectors.State.{
  ConnectorState, ConnectorTables, new_state, is_state_of, state_of, get, upsert_state, attempted,
  failed, succeeded, record_attempt, record_failure, record_success,
}
use pulse_data_platform.Connectors.Machine.{
  ConnectorCall, attempt_call, failure_call, success_call, run_call, run_calls, effect, effects,
  names_connector,
}

-- A change of the columns beside the key.
record IsColumnwise (set : ConnectorState → ConnectorState) : Type 0 where
  business_kept : (r : ConnectorState) → (set r).business_id ≡ r.business_id
  source_kept : (r : ConnectorState) → (set r).source_id ≡ r.source_id
  rekeyed :
      (r : ConnectorState) (b s : String)
      → set (record r { business_id = b; source_id = s })
        ≡ record (set r) { business_id = b; source_id = s }

module _ (b s : String) (set : ConnectorState → ConnectorState) (h : IsColumnwise set) where
  abbrev lookup : List ConnectorState → ConnectorState
  lookup rows = state_of b s (find (is_state_of b s) rows)

  same_test : (r : ConnectorState) → is_state_of b s (set r) ≡ is_state_of b s r
  same_test r = rw (h.business_kept r, h.source_kept r) refl

  upsert_own : (rows : List ConnectorState) → lookup (upsert_state b s set rows) ≡ set (lookup rows)
  unfolding upsert_state
  upsert_own rows = elim (Option-cases (find (is_state_of b s) rows)) [
    | inl absent ↦
        let new = new_state b s in
        let named : is_state_of b s (set new) ≡ true =
          same_test new ∙ ground (arith, eq_refl b, eq_refl s) in
        rw (any_of_find-none (is_state_of b s) rows absent, named, absent) (sym (h.rekeyed new b s))
    | inr (r, present) ↦
        let own = find_sound (is_state_of b s) rows r present in
        let updated =
          find-update (is_state_of b s) (is_state_of b s) set same_test rows r present in
        rw (any_of_find-some (is_state_of b s) rows r present, updated, own, present)
          (sym (h.rekeyed r b s))
  ]

  apart :
      (x y : String) (r : ConnectorState)
      → (str_eq x b && str_eq y s) ≡ false
      → is_state_of x y r ≡ true
      → is_state_of b s r ≡ false
  apart x y r other named =
      let business : r.business_id ≡ x = ground (arith, eq_iff r.business_id x) in
      let source : r.source_id ≡ y = ground (arith, eq_iff r.source_id y) in
      rw (business, source) other

  upsert_other :
      (x y : String) (rows : List ConnectorState)
      → (str_eq x b && str_eq y s) ≡ false
      → lookup (upsert_state x y set rows) ≡ lookup rows
  unfolding upsert_state
  upsert_other x y rows other = elim (Bool-cases (any (is_state_of x y) rows)) [
    | inl there ↦
        rw
          (
            there,
            find-update_other (is_state_of b s) (is_state_of x y) set
                (λ r named. (apart x y r other named, same_test r ∙ apart x y r other named)) rows,
          )
          refl
    | inr absent ↦
        let new = new_state x y in
        let passes : is_state_of b s (set new) ≡ false = same_test new ∙ other in
        rw (absent, passes) refl
  ]

attempted-IsColumnwise : (t : ℕ) → IsColumnwise (attempted t)
unfolding attempted
attempted-IsColumnwise t = record {
  business_kept = λ r. refl;
  source_kept = λ r. refl;
  rekeyed = λ r b s. refl;
}

failed-IsColumnwise : (error health : String) → IsColumnwise (failed error health)
unfolding failed
failed-IsColumnwise error health = record {
  business_kept = λ r. refl;
  source_kept = λ r. refl;
  rekeyed = λ r b s. refl;
}

succeeded-IsColumnwise : (t : ℕ) (c : Option ℕ) (n : ℕ) → IsColumnwise (succeeded t c n)
unfolding succeeded
succeeded-IsColumnwise t c n = record {
  business_kept = λ r. refl;
  source_kept = λ r. refl;
  rekeyed = λ r b s. refl;
}

module _ (b s : String) where
  -- An upsert through the key `x`, `y`, as `b`, `s` sees it.
  upsert_seen :
      (x y : String) (set : ConnectorState → ConnectorState) (m t : ConnectorTables)
      → IsColumnwise set
      → t.states ≡ upsert_state x y set m.states
      → get b s t ≡ (if str_eq x b && str_eq y s then set (get b s m) else get b s m)
  unfolding get
  upsert_seen x y set m t h made = elim (Bool-cases (str_eq x b && str_eq y s)) [
    | inl own ↦
        let business : x ≡ b = ground (arith, eq_iff x b) in
        let source : y ≡ s = ground (arith, eq_iff y s) in
        rw (own, made, business, source) (upsert_own b s set h m.states)
    | inr other ↦ rw (other, made) (upsert_other b s set h x y m.states other)
  ]

  -- One call.
  run_call_seen :
      (dumps : List String → String) (c : ConnectorCall) (m : ConnectorTables)
      → get b s (run_call dumps c m)
        ≡ (if names_connector b s c then effect c (get b s m) else get b s m)
  unfolding run_call effect record_attempt record_failure record_success
  run_call_seen dumps (attempt_call x y (aware t)) m =
      upsert_seen x y (attempted t) m _ (attempted-IsColumnwise t) refl
  run_call_seen dumps (attempt_call x y (naive t)) m = ground arith
  run_call_seen dumps (failure_call x y error health) m =
      upsert_seen x y (failed error health) m _ (failed-IsColumnwise error health) refl
  run_call_seen dumps (success_call x y (aware t) none n ps) m =
      upsert_seen x y (succeeded t none n) m _ (succeeded-IsColumnwise t none n) refl
  run_call_seen dumps (success_call x y (aware t) (some (aware c)) n ps) m =
      upsert_seen x y (succeeded t (some c) n) m _ (succeeded-IsColumnwise t (some c) n) refl
  run_call_seen dumps (success_call x y (aware t) (some (naive c)) n ps) m = ground arith
  run_call_seen dumps (success_call x y (naive t) checkpoint n ps) m = ground arith

  -- After any calls for any connectors, in whatever order they are mixed, `get` returns for each
  -- connector the state that its own calls, in their order, lead to from the state before.
  pub run_calls_refines :
      (dumps : List String → String) (cs : List ConnectorCall) (m : ConnectorTables)
      → get b s (run_calls dumps cs m) ≡ effects b s cs (get b s m)
  unfolding run_calls effects
  run_calls_refines dumps [] m = refl
  run_calls_refines dumps (c ∷ cs) m =
      run_calls_refines dumps cs (run_call dumps c m)
      ∙ ap (effects b s cs) (run_call_seen dumps c m)

-- A success of the connector that brings a checkpoint.
abbrev pub advances : String → String → ConnectorCall → Bool
advances b s (success_call x y (aware t) (some (aware c)) n ps) = str_eq x b && str_eq y s
advances b s _ = false

module _ (b s : String) where
  effect_checkpoint :
      (c : ConnectorCall) (r : ConnectorState)
      → advances b s c ≡ false
      → (if names_connector b s c then effect c r else r).checkpoint_utc ≡ r.checkpoint_utc
  unfolding effect attempted failed succeeded
  effect_checkpoint (attempt_call x y (aware t)) r h = ground arith
  effect_checkpoint (attempt_call x y (naive t)) r h = ground arith
  effect_checkpoint (failure_call x y error health) r h = ground arith
  effect_checkpoint (success_call x y (aware t) none n ps) r h = ground arith
  effect_checkpoint (success_call x y (aware t) (some (aware c)) n ps) r h = rw h refl
  effect_checkpoint (success_call x y (aware t) (some (naive c)) n ps) r h = ground arith
  effect_checkpoint (success_call x y (naive t) none n ps) r h = ground arith
  effect_checkpoint (success_call x y (naive t) (some (aware c)) n ps) r h = ground arith
  effect_checkpoint (success_call x y (naive t) (some (naive c)) n ps) r h = ground arith

  effects_checkpoint :
      (cs : List ConnectorCall) (r : ConnectorState)
      → any (advances b s) cs ≡ false
      → (effects b s cs r).checkpoint_utc ≡ r.checkpoint_utc
  unfolding effects
  effects_checkpoint [] r h = refl
  effects_checkpoint (c ∷ cs) r h =
      effects_checkpoint cs (if names_connector b s c then effect c r else r) (ground arith)
      ∙ effect_checkpoint c r (ground arith)

  -- Attempts, failures, successes without a checkpoint and all calls for other connectors leave
  -- the checkpoint of a connector as it is.
  pub run_calls_checkpoint :
      (dumps : List String → String) (cs : List ConnectorCall) (m : ConnectorTables)
      → any (advances b s) cs ≡ false
      → (get b s (run_calls dumps cs m)).checkpoint_utc ≡ (get b s m).checkpoint_utc
  run_calls_checkpoint dumps cs m h =
      ap (λ (r : ConnectorState). r.checkpoint_utc) (run_calls_refines b s dumps cs m)
      ∙ effects_checkpoint cs (get b s m) h
