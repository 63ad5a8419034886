-- ===== src/Base/Selections.antt =====
-- Laws of SELECT and EXISTS: what a DELETE keeps, and when two tests find the same rows.
use Prim.Native.Nat.{ℕ, ◌≤◌, ◌<◌}
use mathlib.Core.Path.{◌≡◌, refl, sym}
use mathlib.Core.Logic.{inl, inr}
use mathlib.Core.Bool.{Bool, true, false, ◌&&◌}
use mathlib.Core.Option.{none, some}
use mathlib.Core.List.{List, [], ◌∷◌}
use native.Mathlib.Omega.{arith}
use pulse_data_platform.Base.Tests.{Bool-cases, ◌==◌, if◌then◌else◌}
use pulse_data_platform.Base.Lists.{All, any, count, find, select}
use pulse_data_platform.Base.Tables.{All-map, All-zip}

module _ {ℓ} {A : Type ℓ} where
  pub any-eq_All : (p q : A → Bool) (xs : List A) → All (λ x. p x ≡ q x) xs → any p xs ≡ any q xs
  any-eq_All p q [] h = refl
  any-eq_All p q (x ∷ xs) h = ground (arith, any-eq_All p q xs h.1)

  pub any-eq : (p q : A → Bool) → ((x : A) → p x ≡ q x) → (xs : List A) → any p xs ≡ any q xs
  any-eq p q h [] = refl
  any-eq p q h (x ∷ xs) = ground (arith, h x, any-eq p q h xs)

  pub any_weaken :
      (p q : A → Bool)
      → ((x : A) → p x ≡ true → q x ≡ true)
      → (xs : List A) → any p xs ≡ true
      → any q xs ≡ true
  any_weaken p q f [] h = ground arith
  any_weaken p q f (x ∷ xs) h = ground (arith, f x, any_weaken p q f xs)

  pub count-eq : (p q : A → Bool) → ((x : A) → p x ≡ q x) → (xs : List A) → count p xs ≡ count q xs
  count-eq p q h [] = refl
  count-eq p q h (x ∷ xs) = ground (arith, h x, count-eq p q h xs)

  pub count-eq_All :
      (p q : A → Bool) (xs : List A) → All (λ x. p x ≡ q x) xs → count p xs ≡ count q xs
  count-eq_All p q [] h = refl
  count-eq_All p q (x ∷ xs) h = ground (arith, count-eq_All p q xs h.1)

  pub any-none_of_count :
      (p q : A → Bool) (xs : List A) → count p xs ≡ 0 → any (λ x. p x && q x) xs ≡ false
  any-none_of_count p q [] h = refl
  any-none_of_count p q (x ∷ xs) h = ground (arith, any-none_of_count p q xs)

  pub any-select : (p s : A → Bool) (xs : List A) → any p (select s xs) ≡ any (λ x. p x && s x) xs
  any-select p s [] = refl
  any-select p s (x ∷ xs) = ground (arith, any-select p s xs)

  pub any-and : (c : Bool) (p : A → Bool) (xs : List A) → any (λ x. c && p x) xs ≡ (c && any p xs)
  any-and true p xs = refl
  any-and false p [] = refl
  any-and false p (x ∷ xs) = any-and false p xs

  pub any-or :
      (p q : A → Bool) (xs : List A)
      → any (λ x. if p x then true else q x) xs ≡ (if any p xs then true else any q xs)
  any-or p q [] = refl
  any-or p q (x ∷ xs) = ground (arith, any-or p q xs)

  pub any-false : (xs : List A) → any (λ x. false) xs ≡ false
  any-false [] = refl
  any-false (x ∷ xs) = any-false xs

  pub count-select-le : (p s : A → Bool) (xs : List A) → count p (select s xs) ≤ count p xs
  count-select-le p s [] = omega arith
  count-select-le p s (x ∷ xs) = ground (arith, count-select-le p s xs)

  -- A DELETE that takes none of the counted rows.
  pub count-select_kept :
      (p s : A → Bool)
      → ((x : A) → p x ≡ true → s x ≡ true)
      → (xs : List A) → count p (select s xs) ≡ count p xs
  count-select_kept p s h [] = refl
  count-select_kept p s h (x ∷ xs) = ground (arith, h x, count-select_kept p s h xs)

  pub find-select_kept :
      (p s : A → Bool)
      → ((x : A) → p x ≡ true → s x ≡ true)
      → (xs : List A) → find p (select s xs) ≡ find p xs
  find-select_kept p s h [] = refl
  find-select_kept p s h (x ∷ xs) = ground (arith, h x, find-select_kept p s h xs)

  -- A DELETE that takes all of the counted rows.
  pub count-select_gone :
      (p s : A → Bool)
      → ((x : A) → p x ≡ true → s x ≡ false)
      → (xs : List A) → count p (select s xs) ≡ 0
  count-select_gone p s h [] = refl
  count-select_gone p s h (x ∷ xs) = ground (arith, h x, count-select_gone p s h xs)

  pub find-select_gone :
      (p s : A → Bool)
      → ((x : A) → p x ≡ true → s x ≡ false)
      → (xs : List A) → find p (select s xs) ≡ none
  find-select_gone p s h [] = refl
  find-select_gone p s h (x ∷ xs) = ground (arith, h x, find-select_gone p s h xs)

  -- The rows that stay, with the test that they passed.
  pub All-select_with {κ μ} :
      (P : A → Type κ) (Q : A → Type μ) (s : A → Bool)
      → ((x : A) → P x → s x ≡ true → Q x)
      → (xs : List A) → All P xs
      → All Q (select s xs)
  All-select_with P Q s f [] h = tt
  All-select_with P Q s f (x ∷ xs) h = elim (Bool-cases (s x)) [
    | inl kept ↦ rw kept (f x h.0 kept, All-select_with P Q s f xs h.1)
    | inr gone ↦ rw gone (All-select_with P Q s f xs h.1)
  ]

  -- Every row has its own key in the table.
  pub All-keyed : (key : A → ℕ) (xs : List A) → All (λ a. 0 < count (λ e. key e == key a) xs) xs
  All-keyed key [] = tt
  All-keyed key (x ∷ xs) = (
    ground arith,
    All-map (λ a. 0 < count (λ e. key e == key a) xs)
        (λ a. 0 < count (λ e. key e == key a) (x ∷ xs)) (λ a h. ground arith) xs (All-keyed key xs),
  )

  -- A row that passes a test is found under its key.
  pub any_self :
      (key : A → ℕ) (q : A → Bool) (xs : List A)
      → All (λ a. q a ≡ true → any (λ e. key e == key a && q e) xs ≡ true) xs
  any_self key q [] = tt
  any_self key q (x ∷ xs) = (
    λ h. ground arith,
    All-map (λ a. q a ≡ true → any (λ e. key e == key a && q e) xs ≡ true)
        (λ a. q a ≡ true → any (λ e. key e == key a && q e) (x ∷ xs) ≡ true)
        (λ a h passed. ground (arith, h passed)) xs (any_self key q xs),
  )

  -- A row passes no test that no row passes.
  pub any-member {κ} :
      {I : Type κ} (p : I → A → Bool) (xs : List A)
      → All (λ a. (i : I) → p i a ≡ true → any (p i) xs ≡ true) xs
  any-member p [] = tt
  any-member p (x ∷ xs) = (
    λ i h. rw h refl,
    All-map (λ a. (i : _) → p i a ≡ true → any (p i) xs ≡ true)
        (λ a. (i : _) → p i a ≡ true → any (p i) (x ∷ xs) ≡ true)
        (λ a h i passed. ground (arith, h i passed)) xs (any-member p xs),
  )

  -- A DELETE that takes none of the counted rows of the table.
  pub count-select_All :
      (p s : A → Bool) (xs : List A)
      → All (λ x. p x ≡ true → s x ≡ true) xs
      → count p (select s xs) ≡ count p xs
  count-select_All p s [] h = refl
  count-select_All p s (x ∷ xs) h = ground (arith, h.0, count-select_All p s xs h.1)

  -- If no counted row is left, each one was taken.
  pub taken_of_count :
      (p s : A → Bool) (xs : List A)
      → count p (select s xs) ≡ 0
      → All (λ x. p x ≡ true → s x ≡ false) xs
  taken_of_count p s [] h = tt
  taken_of_count p s (x ∷ xs) h = (
    λ passed. elim (Bool-cases (s x)) [ inl kept ↦ absurd (ground arith) | inr gone ↦ gone ],
    taken_of_count p s xs (ground arith),
  )

  pub any_of_find-none : (p : A → Bool) (xs : List A) → find p xs ≡ none → any p xs ≡ false
  any_of_find-none p [] h = refl
  any_of_find-none p (x ∷ xs) h = ground (arith, any_of_find-none p xs)

  pub any_of_find-some : (p : A → Bool) (xs : List A) (a : A) → find p xs ≡ some a → any p xs ≡ true
  any_of_find-some p [] a h = absurd (cc)
  any_of_find-some p (x ∷ xs) a h = ground (arith, any_of_find-some p xs a)

  pub count-zero_of_any : (p : A → Bool) (xs : List A) → any p xs ≡ false → count p xs ≡ 0
  count-zero_of_any p [] h = refl
  count-zero_of_any p (x ∷ xs) h = ground (arith, count-zero_of_any p xs)

  -- Under a primary key, a test of the rows with a row's key is the test of the row.
  pub any-keyed :
      (key : A → ℕ) (q : A → Bool) (xs : List A)
      → ((i : ℕ) → count (λ e. key e == i) xs ≤ 1)
      → All (λ a. any (λ e. key e == key a && q e) xs ≡ q a) xs
  any-keyed key q [] h = tt
  any-keyed key q (x ∷ xs) h =
      let alone : count (λ e. key e == key x) xs ≡ 0 = ground (arith, h (key x)) in
      let others : any (λ e. key e == key x && q e) xs ≡ false =
        any-none_of_count (λ e. key e == key x) q xs alone in
      (
        ground arith,
        All-zip (λ a. 0 < count (λ e. key e == key a) xs)
            (λ a. any (λ e. key e == key a && q e) xs ≡ q a)
            (λ a. any (λ e. key e == key a && q e) (x ∷ xs) ≡ q a)
            (λ a here same. ground (arith, h (key a))) xs (All-keyed key xs)
            (any-keyed key q xs (λ i. ground (arith, h i))),
      )

pub any-swap {ℓ κ} :
    {A : Type ℓ} {B : Type κ} (f : A → B → Bool) (xs : List A) (ys : List B)
    → any (λ x. any (f x) ys) xs ≡ any (λ y. any (λ x. f x y) xs) ys
any-swap f [] ys = sym (any-false ys)
any-swap f (x ∷ xs) ys =
    let rest = any-swap f xs ys in
    let split = any-or (f x) (λ y. any (λ x. f x y) xs) ys in rw rest (sym split)
