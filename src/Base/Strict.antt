-- ===== src/Base/Strict.antt =====
-- Strict orders given by Boolean tests, as Python compares numbers, texts and tuples of them.
use Prim.Native.Char.{code}
use Prim.Native.String.{String, [], ◌∷◌}
use mathlib.Core.Path.{◌≡◌, refl}
use mathlib.Core.Bool.{Bool, true, false, not, ◌&&◌, ◌||◌}
use native.Mathlib.Omega.{arith}
use text.Mathlib.TextEquality.{Char-path}
use pulse_data_platform.Base.Tests.{ltb, if◌then◌else◌}
use pulse_data_platform.Base.Sorting.{IsOrder}

-- `less` is a strict order in which rows may be equal.
pub record IsStrict {ℓ} {A : Type ℓ} (less : A → A → Bool) : Type ℓ where
  pub asym : (a b : A) → less a b ≡ true → less b a ≡ false
  pub trans : (a b c : A) → less a b ≡ false → less b c ≡ false → less a c ≡ false

-- The texts, by their code points.
unfoldable pub text_less : String → String → Bool
text_less [] [] = false
text_less [] (d ∷ t) = true
text_less (c ∷ s) [] = false
text_less (c ∷ s) (d ∷ t) =
    let rest = text_less s t in
    if ltb (code c) (code d) then true else if ltb (code d) (code c) then false else rest

-- Tuples: the second order decides where the first does not.
abbrev pub lex {ℓ} : {A : Type ℓ} → (A → A → Bool) → (A → A → Bool) → A → A → Bool
lex first second a b = first a b || not (first b a) && second a b

-- `key=…`
abbrev pub by {ℓ κ} : {A : Type ℓ} {B : Type κ} → (A → B) → (B → B → Bool) → A → A → Bool
by f less a b = less (f a) (f b)

pub ltb-IsStrict : IsStrict ltb
ltb-IsStrict = record { asym = λ a b h. ground arith; trans = λ a b c h k. ground arith }

text_less_asym : (s t : String) → text_less s t ≡ true → text_less t s ≡ false
unfolding text_less
text_less_asym [] [] h = refl
text_less_asym [] (d ∷ t) h = refl
text_less_asym (c ∷ s) [] h = ground arith
text_less_asym (c ∷ s) (d ∷ t) h = ground (arith, text_less_asym s t)

text_less_trans :
    (s t u : String) → text_less s t ≡ false → text_less t u ≡ false → text_less s u ≡ false
unfolding text_less
text_less_trans [] [] u h k = k
text_less_trans [] (d ∷ t) u h k = absurd (cc)
text_less_trans (c ∷ s) t [] h k = refl
text_less_trans (c ∷ s) [] (e ∷ u) h k = absurd (cc)
text_less_trans (c ∷ s) (d ∷ t) (e ∷ u) h k = ground (arith, text_less_trans s t u)

pub text_less-IsStrict : IsStrict text_less
text_less-IsStrict = record { asym = text_less_asym; trans = text_less_trans }

module _ {ℓ κ} {A : Type ℓ} {B : Type κ} where
  pub by-IsStrict : (f : A → B) (less : B → B → Bool) → IsStrict less → IsStrict (by f less)
  by-IsStrict f less h = record {
    asym = λ a b. h.asym (f a) (f b);
    trans = λ a b c. h.trans (f a) (f b) (f c);
  }

module _ {ℓ} {A : Type ℓ} where
  pub lex-IsStrict :
      (first second : A → A → Bool) → IsStrict first → IsStrict second → IsStrict (lex first second)
  lex-IsStrict first second f s = record {
    asym = λ a b h. ground (arith, f.asym a b, f.asym b a, s.asym a b);
    trans = λ a b c h k. ground (
      arith,
      f.trans a b c,
      f.trans b c a,
      f.trans c a b,
      f.asym a b,
      f.asym b c,
      f.asym a c,
      f.asym c a,
      s.trans a b c,
    );
  }

  -- The order in which `sorted` puts rows.
  abbrev pub not_after : (A → A → Bool) → A → A → Bool
  not_after less a b = not (less b a)

  pub not_after-IsOrder : (less : A → A → Bool) → IsStrict less → IsOrder (not_after less)
  not_after-IsOrder less h = record {
    total = λ a b k. ground (arith, h.asym b a);
    trans = λ a b c k l. ground (arith, h.trans c b a);
  }

-- Of two texts that differ one is less.
pub text_less_total : (s t : String) → text_less s t ≡ false → text_less t s ≡ false → s ≡ t
unfolding text_less
text_less_total [] [] h k = refl
text_less_total [] (d ∷ t) h k = absurd (cc)
text_less_total (c ∷ s) [] h k = absurd (cc)
text_less_total (c ∷ s) (d ∷ t) h k =
    let same : code c ≡ code d = ground arith in
    let rest = text_less_total s t (ground arith) (ground arith) in
    rw (Char-path c d same, rest) refl
