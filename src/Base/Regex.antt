-- ===== src/Base/Regex.antt =====
-- Python's `re`, as far as the patterns of the program use it: where a pattern can end, from each
-- place of a text. `word` and `digit` are the classes `\w` and `\d`.
use Prim.Native.Nat.{ℕ, zero, suc, ◌+◌}
use Prim.Native.Char.{code}
use Prim.Native.String.{String, [] as «ε», ◌∷◌ as ◌∷ᶜ◌}
use mathlib.Core.Path.{◌≡◌, refl}
use mathlib.Core.Bool.{Bool, true, false, not, ◌&&◌, ◌||◌}
use mathlib.Core.Option.{Option, none, some}
use mathlib.Core.List.{List, [], ◌∷◌, ◌++◌}
use pulse_data_platform.Base.Tests.{if◌then◌else◌, leb, ◌==◌}
use pulse_data_platform.Base.Lists.{any}
use pulse_data_platform.Base.Text.{is_empty}

pub data Regex : Type 0 where
  -- the empty text
  empty : Regex
  -- one character of a class, and one of a class under IGNORECASE
  one no_case : (ℕ → Bool) → Regex
  -- `\w` and `\d`
  word digit : Regex
  seq alt : Regex → Regex → Regex
  -- `r*`
  many : Regex → Regex
  -- `\b`, `(?<!\w)` and `(?!\w)`
  edge not_after_word not_before_word : Regex

-- What a class tests under IGNORECASE: the letter in lower case.
unfoldable pub fold_case : ℕ → ℕ
fold_case c =
    if leb 65 c && leb c 90
    then c + 32
    else if c == 304 || c == 305
    then 105
    else if c == 383
    then 115
    else if c == 8490
    then 107
    else c

-- A place in a text: the character before, and what is left.
abbrev pub Place : Type 0
Place = Option ℕ × String

abbrev pub each : (Place → List Place) → List Place → List Place
each step [] = []
each step (p ∷ ps) = step p ++ each step ps

abbrev size : String → ℕ
size «ε» = 0
size (c ∷ᶜ s) = suc (size s)

-- A round that takes nothing leads nowhere else, so as many rounds as characters are enough.
unfoldable pub repeat : (Place → List Place) → ℕ → Place → List Place
repeat step zero p = p ∷ []
repeat step (suc n) p = p ∷ each (repeat step n) (step p)

abbrev take_one : (ℕ → Bool) → Place → List Place
take_one class (before, «ε») = []
take_one class (before, c ∷ᶜ s) = if class (code c) then (some (code c), s) ∷ [] else []

abbrev is_in : (ℕ → Bool) → Option ℕ → Bool
is_in class none = false
is_in class (some c) = class c

abbrev next_in : (ℕ → Bool) → String → Bool
next_in class «ε» = false
next_in class (c ∷ᶜ s) = class (code c)

module _ (is_word is_digit : ℕ → Bool) where
  abbrev is_edge : Place → Bool
  is_edge (before, s) = if is_in is_word before then not (next_in is_word s) else next_in is_word s

  -- The places at which a match from this place can end.
  unfoldable pub ends : Regex → Place → List Place
  unfolding repeat fold_case
  ends empty p = p ∷ []
  ends (one class) p = take_one class p
  ends (no_case class) p = take_one (λ c. class (fold_case c)) p
  ends word p = take_one is_word p
  ends digit p = take_one is_digit p
  ends (seq a b) p = each (ends b) (ends a p)
  ends (alt a b) p = ends a p ++ ends b p
  ends (many a) p = repeat (ends a) (size p.1) p
  ends edge p = if is_edge p then p ∷ [] else []
  ends not_after_word p = if is_in is_word p.0 then [] else p ∷ []
  ends not_before_word p = if next_in is_word p.1 then [] else p ∷ []

  -- `bool(pattern.fullmatch(text))`, of a pattern between `^` and `$`
  unfoldable pub full_match : Regex → String → Bool
  unfolding ends
  full_match r s = any (λ (p : Place). is_empty p.1) (ends r (none, s))

  unfoldable search_from : Regex → Option ℕ → String → Bool
  unfolding ends
  search_from r before «ε» = any (λ p. true) (ends r (before, «ε»))
  search_from r before (c ∷ᶜ s) =
      any (λ p. true) (ends r (before, c ∷ᶜ s)) || search_from r (some (code c)) s

  -- `bool(pattern.search(text))`
  unfoldable pub search_in : Regex → String → Bool
  unfolding search_from
  search_in r s = search_from r none s

-- The pattern of a fixed text, and the same under IGNORECASE, in lower case.
unfoldable pub lit : String → Regex
lit «ε» = empty
lit (c ∷ᶜ s) = seq (one (λ d. d == code c)) (lit s)

unfoldable pub lit_no_case : String → Regex
lit_no_case «ε» = empty
lit_no_case (c ∷ᶜ s) = seq (no_case (λ d. d == code c)) (lit_no_case s)

-- One of some texts, under IGNORECASE.
unfoldable pub one_of : List String → Regex
unfolding lit_no_case
one_of [] = one (λ c. false)
one_of (s ∷ ss) = alt (lit_no_case s) (one_of ss)

abbrev pub optional : Regex → Regex
optional r = alt r empty

-- `r+`
abbrev pub some_of : Regex → Regex
some_of r = seq r (many r)

-- `r{n,}`
unfoldable pub at_least : ℕ → Regex → Regex
at_least zero r = many r
at_least (suc n) r = seq r (at_least n r)

abbrev ascii_digit : ℕ → Bool
ascii_digit c = leb 48 c && leb c 57

abbrev ascii_word : ℕ → Bool
ascii_word c = ascii_digit c || leb 65 c && leb c 90 || leb 97 c && leb c 122 || c == 95

search_test :
    search_in ascii_word ascii_digit (seq edge (seq (lit_no_case "will") edge)) "It WILL do" ≡ true
unfolding search_in lit_no_case
search_test = refl

search_edge_test :
    search_in ascii_word ascii_digit (seq edge (seq (lit_no_case "will") edge)) "goodwill do"
    ≡ false
unfolding search_in lit_no_case
search_edge_test = refl

full_match_test :
    full_match ascii_word ascii_digit (seq (lit "gap:") (some_of (one ascii_word))) "gap:a_1" ≡ true
unfolding full_match lit
full_match_test = refl

full_match_rest_test :
    full_match ascii_word ascii_digit (seq (lit "gap:") (some_of (one ascii_word))) "gap:a b"
    ≡ false
unfolding full_match lit
full_match_rest_test = refl
