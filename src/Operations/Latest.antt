-- ===== src/Operations/Latest.antt =====
-- A dictionary that keeps, for each identity, the newest of the rows it has seen: the loops of
-- `event_latest_revisions` and `latest_order_events` of src/operations/models.py. `less` is the
-- order of the compared tuples, `same` the equality of the keys.
use pulse_data_platform.Base.{
  ◌≤◌, ◌≡◌, refl, Bool, true, false, not, ◌&&◌, List, [], ◌∷◌, arith, All, any, count, ◌++◌,
  if◌then◌else◌, Bool-cases, inl, inr,
}
use pulse_data_platform.Base.Strict.{IsStrict}

pub record IsSame {ℓ} {A : Type ℓ} (same : A → A → Bool) : Type ℓ where
  pub refl_of : (a : A) → same a a ≡ true
  pub sym_of : (a b : A) → same a b ≡ true → same b a ≡ true
  pub trans_of : (a b c : A) → same a b ≡ true → same b c ≡ true → same a c ≡ true

module _ {ℓ} {A : Type ℓ} (same less : A → A → Bool) where
  -- `if key not in latest or event > latest[key]: latest[key] = event`
  unfoldable pub keep_newest : A → List A → List A
  keep_newest x [] = x ∷ []
  keep_newest x (e ∷ es) =
      let rest = keep_newest x es in if same x e then (if less e x then x else e) ∷ es else e ∷ rest

  -- The loop.
  unfoldable pub keep_all : List A → List A → List A
  unfolding keep_newest
  keep_all [] d = d
  keep_all (x ∷ xs) d = keep_all xs (keep_newest x d)

  -- The entry of the row's identity is not older than the row.
  abbrev pub is_covered : A → List A → Bool
  is_covered x [] = false
  is_covered x (e ∷ es) = let rest = is_covered x es in if same x e then not (less e x) else rest

  pub keep_newest-All {κ} :
      (P : A → Type κ) (x : A) (d : List A) → P x → All P d → All P (keep_newest x d)
  unfolding keep_newest
  keep_newest-All P x [] hx h = (hx, tt)
  keep_newest-All P x (e ∷ es) hx h = elim (Bool-cases (same x e)) [
    | inl this ↦ elim (Bool-cases (less e x)) [
      | inl newer ↦ rw (this, newer) (hx, h.1)
      | inr older ↦ rw (this, older) h
    ]
    | inr that ↦ rw that (h.0, keep_newest-All P x es hx h.1)
  ]

  pub keep_all-All {κ} :
      (P : A → Type κ) (xs d : List A) → All P xs → All P d → All P (keep_all xs d)
  unfolding keep_all
  keep_all-All P [] d h k = k
  keep_all-All P (x ∷ xs) d h k =
      keep_all-All P xs (keep_newest x d) h.1 (keep_newest-All P x d h.0 k)

  -- A row that is covered changes nothing.
  keep_newest_covered : (x : A) (d : List A) → is_covered x d ≡ true → keep_newest x d ≡ d
  unfolding keep_newest
  keep_newest_covered x [] h = absurd (ground arith)
  keep_newest_covered x (e ∷ es) h = ground (arith, keep_newest_covered x es)

  pub keep_all_covered : (xs d : List A) → All (λ x. is_covered x d ≡ true) xs → keep_all xs d ≡ d
  unfolding keep_all
  keep_all_covered [] d h = refl
  keep_all_covered (x ∷ xs) d h = rw (keep_newest_covered x d h.0) (keep_all_covered xs d h.1)

  pub keep_all-append : (xs ys d : List A) → keep_all (xs ++ ys) d ≡ keep_all ys (keep_all xs d)
  unfolding keep_all
  keep_all-append [] ys d = refl
  keep_all-append (x ∷ xs) ys d = keep_all-append xs ys (keep_newest x d)

  pub any_covered :
      (x : A) (d : List A) → is_covered x d ≡ true → any (λ e. same x e && not (less e x)) d ≡ true
  any_covered x [] h = h
  any_covered x (e ∷ es) h = ground (arith, any_covered x es)

  not_found :
      (x : A) (d : List A) → count (same x) d ≡ 0 → any (λ e. same x e && not (less e x)) d ≡ false
  not_found x [] h = refl
  not_found x (e ∷ es) h = ground (arith, not_found x es)

  -- With one entry for each identity, an entry that is not older is the entry.
  pub covered_of_any :
      (x : A) (d : List A)
      → count (same x) d ≤ 1
      → any (λ e. same x e && not (less e x)) d ≡ true
      → is_covered x d ≡ true
  covered_of_any x [] le h = h
  covered_of_any x (e ∷ es) le h = ground (arith, covered_of_any x es, not_found x es)

  module _ (s : IsSame same) (o : IsStrict less) where
    keep_newest-covers : (x : A) (d : List A) → is_covered x (keep_newest x d) ≡ true
    unfolding keep_newest
    keep_newest-covers x [] = ground (arith, s.refl_of x, o.asym x x)
    keep_newest-covers x (e ∷ es) = ground (arith, s.refl_of x, o.asym x x, keep_newest-covers x es)

    keep_newest-keeps :
        (x y : A) (d : List A) → is_covered y d ≡ true → is_covered y (keep_newest x d) ≡ true
    unfolding keep_newest
    keep_newest-keeps x y [] h = absurd (ground arith)
    keep_newest-keeps x y (e ∷ es) h = ground (
      arith,
      keep_newest-keeps x y es,
      s.trans_of x e y,
      s.trans_of y e x,
      s.sym_of x e,
      s.sym_of y e,
      s.sym_of y x,
      s.trans_of y x e,
      o.trans x e y,
      o.asym e x,
    )

    keep_all-keeps :
        (y : A) (xs d : List A) → is_covered y d ≡ true → is_covered y (keep_all xs d) ≡ true
    unfolding keep_all
    keep_all-keeps y [] d h = h
    keep_all-keeps y (x ∷ xs) d h =
        keep_all-keeps y xs (keep_newest x d) (keep_newest-keeps x y d h)

    -- Every row that was seen is covered.
    pub keep_all-covers : (xs d : List A) → All (λ x. is_covered x (keep_all xs d) ≡ true) xs
    unfolding keep_all
    keep_all-covers [] d = tt
    keep_all-covers (x ∷ xs) d = (
      keep_all-keeps x xs (keep_newest x d) (keep_newest-covers x d),
      keep_all-covers xs (keep_newest x d),
    )

    keep_newest_others :
        (k x : A) (d : List A)
        → same k x ≡ false
        → count (same k) (keep_newest x d) ≡ count (same k) d
    unfolding keep_newest
    keep_newest_others k x [] h = ground arith
    keep_newest_others k x (e ∷ es) h =
        ground (arith, keep_newest_others k x es, s.trans_of k e x, s.sym_of x e)

    keep_newest_own :
        (k x : A) (d : List A)
        → same k x ≡ true
        → count (same k) d ≤ 1
        → count (same k) (keep_newest x d) ≤ 1
    unfolding keep_newest
    keep_newest_own k x [] h le = ground arith
    keep_newest_own k x (e ∷ es) h le =
        ground (arith, keep_newest_own k x es, s.trans_of x k e, s.sym_of k x, s.trans_of k x e)

    -- Every identity has one entry.
    pub keep_all_unique :
        (k : A) (xs d : List A) → count (same k) d ≤ 1 → count (same k) (keep_all xs d) ≤ 1
    unfolding keep_all
    keep_all_unique k [] d h = h
    keep_all_unique k (x ∷ xs) d h =
        keep_all_unique k xs (keep_newest x d) (elim (Bool-cases (same k x)) [
          | inl own ↦ keep_newest_own k x d own h
          | inr other ↦ rw (keep_newest_others k x d other) h
        ])
