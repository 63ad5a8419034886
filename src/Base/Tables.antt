-- ===== src/Base/Tables.antt =====
-- Laws of the table operations: what an UPDATE keeps, and what a row that was found satisfies.
use Prim.Native.Nat.{◌≤◌, ◌<◌}
use mathlib.Core.Path.{◌≡◌, refl, subst}
use mathlib.Core.Logic.{inl, inr}
use mathlib.Core.Bool.{Bool, true, false}
use mathlib.Core.Option.{some}
use mathlib.Core.List.{List, [], ◌∷◌, map}
use native.Mathlib.Omega.{arith}
use pulse_data_platform.Base.Tests.{Bool-cases, if◌then◌else◌}
use pulse_data_platform.Base.Lists.{All, count, find, select, update}

module _ {ℓ} {A : Type ℓ} where
  pub All-of_count : (p : A → Bool) (xs : List A) → count p xs ≡ 0 → All (λ x. p x ≡ false) xs
  All-of_count p [] h = tt
  All-of_count p (x ∷ xs) h = (ground arith, All-of_count p xs (ground arith))

  pub All-map {κ μ} :
      (P : A → Type κ) (Q : A → Type μ)
      → ((x : A) → P x → Q x)
      → (xs : List A) → All P xs
      → All Q xs
  All-map P Q f [] h = tt
  All-map P Q f (x ∷ xs) h = (f x h.0, All-map P Q f xs h.1)

  pub All-zip {κ μ ν} :
      (P : A → Type κ) (Q : A → Type μ) (R : A → Type ν)
      → ((x : A) → P x → Q x → R x)
      → (xs : List A) → All P xs
      → All Q xs
      → All R xs
  All-zip P Q R f [] h k = tt
  All-zip P Q R f (x ∷ xs) h k = (f x h.0 k.0, All-zip P Q R f xs h.1 k.1)

  pub All-update {κ μ} :
      (P : A → Type κ) (Q : A → Type μ) (p : A → Bool) (f : A → A)
      → ((x : A) → P x → p x ≡ true → Q (f x))
      → ((x : A) → P x → p x ≡ false → Q x)
      → (xs : List A) → All P xs
      → All Q (update p f xs)
  All-update P Q p f changed kept [] h = tt
  All-update P Q p f changed kept (x ∷ xs) h = elim (Bool-cases (p x)) [
    | inl e ↦ rw e (changed x h.0 e, All-update P Q p f changed kept xs h.1)
    | inr e ↦ rw e (kept x h.0 e, All-update P Q p f changed kept xs h.1)
  ]

  pub All-find {κ} :
      (P : A → Type κ) (p : A → Bool) (xs : List A) (a : A) → All P xs → find p xs ≡ some a → P a
  All-find P p [] a h e = absurd (cc)
  All-find P p (x ∷ xs) a h e = elim (Bool-cases (p x)) [
    | inl this ↦ let same : x ≡ a = ground arith in subst P same h.0
    | inr that ↦ All-find P p xs a h.1 (ground arith)
  ]

  -- An UPDATE that leaves the test alone leaves the count alone.
  pub count-update :
      (q p : A → Bool) (f : A → A)
      → ((x : A) → p x ≡ true → q (f x) ≡ q x)
      → (xs : List A) → count q (update p f xs) ≡ count q xs
  count-update q p f same [] = refl
  count-update q p f same (x ∷ xs) = ground (arith, same x, count-update q p f same xs)

  -- An UPDATE after which no further row passes the test.
  pub count-update-le {κ} :
      (P : A → Type κ) (q p : A → Bool) (f : A → A)
      → ((x : A) → P x → p x ≡ true → q (f x) ≡ true → q x ≡ true)
      → (xs : List A) → All P xs
      → count q (update p f xs) ≤ count q xs
  count-update-le P q p f less [] h = omega arith
  count-update-le P q p f less (x ∷ xs) h =
      ground (arith, less x h.0, count-update-le P q p f less xs h.1)

  -- A row that was found counts.
  pub count-pos_of_find :
      (p q : A → Bool) (xs : List A) (a : A) → find p xs ≡ some a → q a ≡ true → 0 < count q xs
  count-pos_of_find p q [] a h k = absurd (cc)
  count-pos_of_find p q (x ∷ xs) a h k = elim (Bool-cases (p x)) [
    | inl this ↦
        let same : x ≡ a = ground arith in
        let holds : q x ≡ true = rw same k in rw holds (omega arith)
    | inr that ↦
        let rest : 0 < count q xs = count-pos_of_find p q xs a (ground arith) k in omega arith
  ]

  pub find-update :
      (q p : A → Bool) (f : A → A)
      → ((x : A) → q (f x) ≡ q x)
      → (xs : List A) (a : A) → find q xs ≡ some a
      → find q (update p f xs) ≡ some (if p a then f a else a)
  find-update q p f same [] a h = absurd (cc)
  find-update q p f same (x ∷ xs) a h = elim (Bool-cases (q x)) [
    | inl this ↦ let here : x ≡ a = ground arith in rw (← here) (ground (arith, same x))
    | inr that ↦
        let rest : find q (update p f xs) ≡ some (if p a then f a else a) =
          find-update q p f same xs a (ground arith) in
        ground (arith, same x)
  ]

  -- An UPDATE of rows that the test does not find.
  pub find-update_other :
      (q p : A → Bool) (f : A → A)
      → ((x : A) → p x ≡ true → (q x ≡ false) × (q (f x) ≡ false))
      → (xs : List A) → find q (update p f xs) ≡ find q xs
  find-update_other q p f apart [] = refl
  find-update_other q p f apart (x ∷ xs) = elim (Bool-cases (p x)) [
    | inl e ↦
        let (before, after) = apart x e in rw (e, before, after) (find-update_other q p f apart xs)
    | inr e ↦ let rest = find-update_other q p f apart xs in rw (e, rest) refl
  ]

  -- A second UPDATE that changes no updated row.
  pub update-update :
      (p : A → Bool) (f g : A → A)
      → ((x : A) → p (g x) ≡ p x)
      → ((x : A) → f (g x) ≡ g x)
      → (xs : List A) → update p f (update p g xs) ≡ update p g xs
  update-update p f g same fixed [] = refl
  update-update p f g same fixed (x ∷ xs) =
      ground (arith, same x, fixed x, update-update p f g same fixed xs)

  pub update_of_count :
      (p : A → Bool) (f : A → A) (xs : List A) → count p xs ≡ 0 → update p f xs ≡ xs
  update_of_count p f [] h = refl
  update_of_count p f (x ∷ xs) h = ground (arith, update_of_count p f xs)

  pub map-update {κ} :
      {B : Type κ} (p : A → Bool) (f : A → A) (g : A → B)
      → ((x : A) → g (f x) ≡ g x)
      → (xs : List A) → map g (update p f xs) ≡ map g xs
  map-update p f g same [] = refl
  map-update p f g same (x ∷ xs) = ground (arith, same x, map-update p f g same xs)

  pub found_of_count :
      (p : A → Bool) (xs : List A) → 0 < count p xs → (a : A) × (find p xs ≡ some a)
  found_of_count p [] h = absurd (omega arith)
  found_of_count p (x ∷ xs) h = elim (Bool-cases (p x)) [
    | inl this ↦ (x, rw this)
    | inr that ↦ rw that (found_of_count p xs (ground arith))
  ]

  pub All-select : (p : A → Bool) (xs : List A) → All (λ x. p x ≡ true) (select p xs)
  All-select p [] = tt
  All-select p (x ∷ xs) = elim (Bool-cases (p x)) [
    | inl e ↦ rw e (e, All-select p xs)
    | inr e ↦ rw e (All-select p xs)
  ]

  pub All-Unit : (xs : List A) → All (λ x. Unit {0}) xs
  All-Unit [] = tt
  All-Unit (x ∷ xs) = (tt, All-Unit xs)
