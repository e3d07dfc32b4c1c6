-- ===== src/Georepository/Versions.antt =====
-- `is_newer` (geodetic_engine/georepository/cache.py): dotted version numbers. Which characters are
-- spaces and digits, and the value of a digit for `int`, are parameters.
pub mod Order
use geodetic_engine.Base.{
  ℕ, ◌+◌, ◌*◌, Bool, true, false, not, ◌&&◌, ◌||◌, Option, none, some, List, [], ◌∷◌, ◌++◌, ◌==◌,
  nat_eq, Text, text_eq, if◌then◌else◌, Result, ok, err, ltb,
}
use geodetic_engine.Base.Texts.{all, is_empty, strip}

-- `str.isspace`, `str.isdigit` and what `int` makes of a digit, if anything.
pub record Digits : Type 0 where
  pub space : ℕ → Bool
  pub is_digit : ℕ → Bool
  pub value : ℕ → Option ℕ

-- `int` raises for a text that it does not read.
pub data ValueError : Type 0 where
  not_a_number : ValueError

-- `.lstrip("vV")`
unfoldable pub lstrip_v : Text → Text
lstrip_v [] = []
lstrip_v (c ∷ t) = let rest = lstrip_v t in if c == b'v' || c == b'V' then rest else c ∷ t

abbrev pub push : ℕ → List Text → List Text
push c [] = (c ∷ []) ∷ []
push c (p ∷ ps) = (c ∷ p) ∷ ps

-- `.split(".")`
unfoldable pub split_dots : Text → List Text
split_dots [] = [] ∷ []
split_dots (c ∷ t) = let rest = split_dots t in if c == b'.' then [] ∷ rest else push c rest

-- `<` of two tuples of numbers.
unfoldable pub tuple_lt : List ℕ → List ℕ → Bool
tuple_lt xs [] = false
tuple_lt [] (y ∷ ys) = true
tuple_lt (x ∷ xs) (y ∷ ys) = let rest = tuple_lt xs ys in if x == y then rest else ltb x y

module _ (d : Digits) where
  -- `int(piece)`, from the value of the digits read so far.
  unfoldable pub int_from : ℕ → Text → Result ValueError ℕ
  int_from acc [] = ok acc
  int_from acc (c ∷ t) = elim (d.value c) [
    | none ↦ err not_a_number
    | some v ↦ int_from (acc * 10 + v) t
  ]

  -- `piece.isdigit()`, which is false of the empty text.
  abbrev pub isdigit : Text → Bool
  isdigit t = not (is_empty t) && all d.is_digit t

  unfoldable pub ints : List Text → Result ValueError (List ℕ)
  unfolding int_from
  ints [] = ok []
  ints (p ∷ ps) = elim (int_from 0 p) [
    | err e ↦ err e
    | ok n ↦ elim (ints ps) [ err e ↦ err e | ok ns ↦ ok (n ∷ ns) ]
  ]

  unfoldable pub parts : Text → Result ValueError (Option (List ℕ))
  unfolding lstrip_v split_dots ints
  parts version =
      let cleaned = lstrip_v (strip d.space version) in
      let pieces = split_dots cleaned in
      if not (all isdigit pieces) || is_empty cleaned
      then ok none
      else elim (ints pieces) [ err e ↦ err e | ok ns ↦ ok (some ns) ]

  abbrev pub compare_parts : Text → Text → Option (List ℕ) → Option (List ℕ) → Bool
  compare_parts live cached (some l) (some c) = tuple_lt c l
  compare_parts live cached l c = not (strip d.space live == strip d.space cached)

  unfoldable pub is_newer : Text → Text → Result ValueError Bool
  is_newer live cached = elim (parts live) [
    | err e ↦ err e
    | ok l ↦ elim (parts cached) [ err e ↦ err e | ok c ↦ ok (compare_parts live cached l c) ]
  ]
