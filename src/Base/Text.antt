-- ===== src/Base/Text.antt =====
-- Python's `str.strip` and the truth value of a text, on the native `String`.
use Prim.Native.Nat.{ℕ}
use Prim.Native.Char.{code}
use Prim.Native.String.{String, [], ◌∷◌}
use mathlib.Core.Path.{◌≡◌, refl}
use mathlib.Core.Logic.{inl, inr}
use mathlib.Core.Bool.{Bool, true, false, not, ◌&&◌, ◌||◌}
use native.Mathlib.Omega.{arith}
use pulse_data_platform.Base.Tests.{leb, ◌==◌, if◌then◌else◌, Bool-cases}

-- `str.isspace` of one code point.
pub is_space : ℕ → Bool
is_space c =
    leb 9 c && leb c 13
    || leb 28 c && leb c 32
    || c == 133
    || c == 160
    || c == 5760
    || leb 8192 c && leb c 8202
    || c == 8232
    || c == 8233
    || c == 8239
    || c == 8287
    || c == 12288

abbrev pub is_empty : String → Bool
is_empty [] = true
is_empty (c ∷ s) = false

pub lstrip : String → String
lstrip [] = []
lstrip (c ∷ s) = let rest = lstrip s in if is_space (code c) then rest else c ∷ s

pub rstrip : String → String
rstrip [] = []
rstrip (c ∷ s) = let rest = rstrip s in if is_empty rest && is_space (code c) then [] else c ∷ rest

-- `text.strip()`
unfoldable pub strip : String → String
unfolding lstrip rstrip is_space
strip s = rstrip (lstrip s)

-- `not text.strip()`
unfoldable pub is_blank : String → Bool
unfolding strip
is_blank s = is_empty (strip s)

strip_test : strip "  ops team\n " ≡ "ops team"
unfolding strip
strip_test = refl

is_blank_test : is_blank " \t " ≡ true
unfolding is_blank
is_blank_test = refl

rstrip-rstrip : (s : String) → rstrip (rstrip s) ≡ rstrip s
unfolding rstrip
rstrip-rstrip [] = refl
rstrip-rstrip (c ∷ s) = elim (Bool-cases (is_empty (rstrip s) && is_space (code c))) [
  | inl gone ↦ rw gone refl
  | inr kept ↦ rw kept (rw (rstrip-rstrip s, kept) refl)
]

-- What `lstrip` returns is empty or begins with no white space.
abbrev begins_dark : String → Bool
begins_dark [] = true
begins_dark (c ∷ s) = not (is_space (code c))

lstrip-begins_dark : (s : String) → begins_dark (lstrip s) ≡ true
unfolding lstrip
lstrip-begins_dark [] = refl
lstrip-begins_dark (c ∷ s) = ground (arith, lstrip-begins_dark s)

lstrip-rstrip : (s : String) → begins_dark s ≡ true → lstrip (rstrip s) ≡ rstrip s
unfolding lstrip rstrip
lstrip-rstrip [] h = refl
lstrip-rstrip (c ∷ s) h =
    let dark : is_space (code c) ≡ false = ground arith in
    elim (Bool-cases (is_empty (rstrip s))) [
      | inl e ↦ rw (dark, e) (rw dark refl)
      | inr e ↦ rw (dark, e) (rw dark refl)
    ]

pub strip-strip : (s : String) → strip (strip s) ≡ strip s
unfolding strip
strip-strip s = rw (lstrip-rstrip (lstrip s) (lstrip-begins_dark s), rstrip-rstrip (lstrip s)) refl
