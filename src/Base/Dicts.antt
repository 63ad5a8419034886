-- ===== src/Base/Dicts.antt =====
-- Python's dictionaries as lists of entries in the order of insertion, keyed through a test.
use mathlib.Core.Path.{◌≡◌, refl}
use mathlib.Core.Logic.{inl, inr}
use mathlib.Core.Bool.{Bool, true, false, not}
use mathlib.Core.Option.{Option, none, some}
use mathlib.Core.List.{List, [], ◌∷◌, ◌++◌}
use native.Mathlib.Omega.{arith}
use pulse_data_platform.Base.Tests.{if◌then◌else◌, Bool-cases, is_none}
use pulse_data_platform.Base.Lists.{All, any}

-- What a test of keys must do.
pub record IsKey {κ} {K : Type κ} (same : K → K → Bool) : Type κ where
  pub self : (k : K) → same k k ≡ true
  pub exact : (j k : K) → same j k ≡ true → j ≡ k

module _ {κ ℓ} {K : Type κ} {V : Type ℓ} (same : K → K → Bool) where
  -- `d.get(k)`
  unfoldable pub get : K → List (K × V) → Option V
  get k [] = none
  get k ((j, v) ∷ d) = let rest = get k d in if same j k then some v else rest

  -- `k in d`
  abbrev pub has : K → List (K × V) → Bool
  has k d = any (λ (e : K × V). same e.0 k) d

  -- `d[k] = v`
  unfoldable pub store : K → V → List (K × V) → List (K × V)
  store k v [] = (k, v) ∷ []
  store k v ((j, w) ∷ d) = let rest = store k v d in if same j k then (j, v) ∷ d else (j, w) ∷ rest

module _ {κ ℓ} {K : Type κ} {V : Type ℓ} (same : K → K → Bool) (key : IsKey same) where
  pub get-store_self : (k : K) (v : V) (d : List (K × V)) → get same k (store same k v d) ≡ some v
  unfolding get store
  get-store_self k v [] = rw (key.self k)
  get-store_self k v ((j, w) ∷ d) = elim (Bool-cases (same j k)) [
    | inl e ↦ rw (e, e) refl
    | inr e ↦ rw (e, e) (get-store_self k v d)
  ]

  pub get-store_other :
      (j k : K) (v : V) (d : List (K × V))
      → same k j ≡ false
      → get same j (store same k v d) ≡ get same j d
  unfolding get store
  get-store_other j k v [] h = rw h refl
  get-store_other j k v ((i, w) ∷ d) h = elim (Bool-cases (same i k)) [
    | inl e ↦
        let here : i ≡ k = key.exact i k e in
        let apart : same i j ≡ false = rw here h in rw (e, apart) refl
    | inr e ↦ let rest = get-store_other j k v d h in rw (e, rest) refl
  ]

  pub has-get : (k : K) (d : List (K × V)) → has same k d ≡ false → get same k d ≡ none
  unfolding get
  has-get k [] h = refl
  has-get k ((j, w) ∷ d) h = ground (arith, has-get k d)

  -- What holds of the entries holds of the one that is read.
  pub All-get {μ} :
      (P : K → V → Type μ) (k : K) (v : V) (d : List (K × V))
      → All (λ (e : K × V). P e.0 e.1) d
      → get same k d ≡ some v
      → P k v
  unfolding get
  All-get P k v [] h e = absurd (cc)
  All-get P k v ((j, w) ∷ d) h e = elim (Bool-cases (same j k)) [
    | inl this ↦
        let here : j ≡ k = key.exact j k this in
        let value : w ≡ v = ground arith in rw⁻¹ here (rw⁻¹ value h.0)
    | inr that ↦ All-get P k v d h.1 (ground arith)
  ]

  pub All-store {μ} :
      (P : K → V → Type μ) (k : K) (v : V) (d : List (K × V))
      → P k v
      → All (λ (e : K × V). P e.0 e.1) d
      → All (λ (e : K × V). P e.0 e.1) (store same k v d)
  unfolding store
  All-store P k v [] new h = (new, tt)
  All-store P k v ((j, w) ∷ d) new h = elim (Bool-cases (same j k)) [
    | inl this ↦ let here : j ≡ k = key.exact j k this in rw this (rw here new, h.1)
    | inr that ↦ rw that (h.0, All-store P k v d new h.1)
  ]

  pub has-store :
      (j k : K) (v : V) (d : List (K × V))
      → has same j (store same k v d) ≡ (if same k j then true else has same j d)
  unfolding store
  has-store j k v [] = refl
  has-store j k v ((i, w) ∷ d) = elim (Bool-cases (same i k)) [
    | inl e ↦ let here : i ≡ k = key.exact i k e in rw e (rw here (ground arith))
    | inr e ↦ let rest = has-store j k v d in rw (e, rest) (ground arith)
  ]

module _ {κ ℓ} {K : Type κ} {V : Type ℓ} (same : K → K → Bool) where
  pub get-append_found :
      (k : K) (v : V) (d more : List (K × V))
      → get same k d ≡ some v
      → get same k (d ++ more) ≡ some v
  unfolding get
  get-append_found k v [] more h = absurd (cc)
  get-append_found k v ((j, w) ∷ d) more h = ground (arith, get-append_found k v d more)

  pub get-append_new :
      (k : K) (d more : List (K × V))
      → has same k d ≡ false
      → get same k (d ++ more) ≡ get same k more
  unfolding get
  get-append_new k [] more h = refl
  get-append_new k ((j, w) ∷ d) more h = ground (arith, get-append_new k d more)

  pub has-eq-get : (k : K) (d : List (K × V)) → has same k d ≡ not (is_none (get same k d))
  unfolding get
  has-eq-get k [] = refl
  has-eq-get k ((j, w) ∷ d) = ground (arith, has-eq-get k d)

  pub has-append :
      (k : K) (d more : List (K × V))
      → has same k (d ++ more) ≡ (if has same k d then true else has same k more)
  has-append k [] more = refl
  has-append k ((j, w) ∷ d) more = ground (arith, has-append k d more)

  pub found_of_has :
      (k : K) (d : List (K × V)) → has same k d ≡ true → (v : V) × (get same k d ≡ some v)
  unfolding get
  found_of_has k [] h = absurd (cc)
  found_of_has k ((j, w) ∷ d) h = elim (Bool-cases (same j k)) [
    | inl e ↦ (w, rw e refl)
    | inr e ↦ rw e (found_of_has k d (ground arith))
  ]
