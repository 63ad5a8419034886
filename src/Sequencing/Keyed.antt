-- ===== src/Sequencing/Keyed.antt =====
-- What the dictionaries of src/intelligence/sequencing.py are keyed by.
use pulse_data_platform.Base.{
  ◌≡◌, refl, String, false, some, List, [], ◌∷◌, ◌++◌, All, All-append, str_eq, eq_iff, eq_refl, ok,
  arith,
}
use pulse_data_platform.Base.Dicts.{IsKey, get, has, get-append_found, get-append_new}
use pulse_data_platform.Sequencing.Graph.{same_place, index_from, unique_index}

pub text-IsKey : IsKey str_eq
text-IsKey = record { self = eq_refl; exact = λ s t h. (eq_iff s t).0 h }

pub place-IsKey : IsKey same_place
place-IsKey = record {
  self = λ k. rw (eq_refl k.0, eq_refl k.1) refl;
  exact = λ j k h. ground (arith, eq_iff j.0 k.0, eq_iff j.1 k.1);
}

module _ {A : Type 0} (key : A → String) (label : String) where
  index_from_keeps :
      (xs : List A) (acc d : List (String × A)) (k : String) (v : A)
      → index_from key label xs acc ≡ ok d
      → get str_eq k acc ≡ some v
      → get str_eq k d ≡ some v
  unfolding index_from
  index_from_keeps [] acc d k v h g = let same : acc ≡ d = cc in rw⁻¹ same g
  index_from_keeps (x ∷ xs) acc d k v h g =
      let rest : index_from key label xs (acc ++ (key x, x) ∷ []) ≡ ok d = ground arith in
      index_from_keeps xs (acc ++ (key x, x) ∷ []) d k v rest
        (get-append_found str_eq k v acc ((key x, x) ∷ []) g)

  index_from_finds :
      (xs : List A) (acc d : List (String × A))
      → index_from key label xs acc ≡ ok d
      → All (λ x. get str_eq (key x) d ≡ some x) xs
  unfolding index_from get
  index_from_finds [] acc d h = tt
  index_from_finds (x ∷ xs) acc d h =
      let new : has str_eq (key x) acc ≡ false = ground arith in
      let rest : index_from key label xs (acc ++ (key x, x) ∷ []) ≡ ok d = ground arith in
      let here : get str_eq (key x) (acc ++ (key x, x) ∷ []) ≡ some x =
        rw (get-append_new str_eq (key x) acc ((key x, x) ∷ []) new, eq_refl (key x)) refl in
      (
        index_from_keeps xs (acc ++ (key x, x) ∷ []) d (key x) x rest here,
        index_from_finds xs (acc ++ (key x, x) ∷ []) d rest,
      )

  index_from_keyed {κ} :
      (P : String → A → Type κ) (xs : List A) (acc d : List (String × A))
      → index_from key label xs acc ≡ ok d
      → All (λ x. P (key x) x) xs
      → All (λ (e : String × A). P e.0 e.1) acc
      → All (λ (e : String × A). P e.0 e.1) d
  unfolding index_from
  index_from_keyed P [] acc d h new old = let same : acc ≡ d = cc in rw⁻¹ same old
  index_from_keyed P (x ∷ xs) acc d h new old =
      let rest : index_from key label xs (acc ++ (key x, x) ∷ []) ≡ ok d = ground arith in
      index_from_keyed P xs (acc ++ (key x, x) ∷ []) d rest new.1
        (All-append (λ (e : String × A). P e.0 e.1) acc ((key x, x) ∷ []) old (new.0, tt))

  -- Each row is found under its key.
  pub unique_index_finds :
      (xs : List A) (d : List (String × A))
      → unique_index key label xs ≡ ok d
      → All (λ x. get str_eq (key x) d ≡ some x) xs
  unfolding unique_index
  unique_index_finds xs d h = index_from_finds xs [] d h

  -- What holds of the rows under their keys holds of the entries.
  pub unique_index_keyed {κ} :
      (P : String → A → Type κ) (xs : List A) (d : List (String × A))
      → unique_index key label xs ≡ ok d
      → All (λ x. P (key x) x) xs
      → All (λ (e : String × A). P e.0 e.1) d
  unfolding unique_index
  unique_index_keyed P xs d h all = index_from_keyed P xs [] d h all tt
