-- ===== src/Referencing/Axes.antt =====
-- Which declared axis each coordinate value belongs to (geodetic_engine/_referencing/axes.py).
-- `str.lower` and `str.upper` are parameters.
pub mod Counting
pub mod Order
use geodetic_engine.Base.{
  ℕ, suc, ◌+◌, Bool, true, false, not, ◌&&◌, ◌||◌, Option, none, some, List, [], ◌∷◌, ◌++◌, map,
  ◌==◌, contains, Text, text_eq, nat_eq, codes, if◌then◌else◌, length,
}

pub record Axis : Type 0 where
  pub abbreviation : Text
  pub direction : Text

pub record Casing : Type 0 where
  pub lower : Text → Text
  pub upper : Text → Text

abbrev pub is_easting : Text → Bool
is_easting d = d == codes "east"

abbrev pub is_northing : Text → Bool
is_northing d = d == codes "north"

abbrev pub is_vertical : Text → Bool
is_vertical d = d == codes "up" || d == codes "down"

-- The first position, counted from a number on, at which a test holds.
unfoldable pub find_from : (Text → Bool) → ℕ → List Text → Option ℕ
find_from p k [] = none
find_from p k (x ∷ xs) = let later = find_from p (suc k) xs in if p x then some k else later

-- All those positions.
unfoldable pub positions : (Text → Bool) → ℕ → List Text → List ℕ
positions p k [] = []
positions p k (x ∷ xs) = let later = positions p (suc k) xs in if p x then k ∷ later else later

-- The positions of a list that are not among those placed.
unfoldable pub unplaced : (ℕ → Bool) → ℕ → List Text → List ℕ
unplaced placed k [] = []
unplaced placed k (x ∷ xs) =
    let later = unplaced placed (suc k) xs in if placed k then later else k ∷ later

-- Two positions, if both are there and they differ.
abbrev pub distinct : Option ℕ → Option ℕ → Option (ℕ × ℕ)
distinct (some e) (some n) = if e == n then none else some (e, n)
distinct none n = none
distinct (some e) none = none

-- The pair by the abbreviations, which for a polar CRS alone tell its axes apart.
abbrev pub by_letter : Option ℕ → Option ℕ → Option (ℕ × ℕ)
by_letter e n = distinct e n

abbrev pub or_else : Option (ℕ × ℕ) → Option (ℕ × ℕ) → Option (ℕ × ℕ)
or_else none later = later
or_else (some p) later = some p

module _ (cs : Casing) where
  abbrev pub directions : List Axis → List Text
  directions axes = map (λ a. cs.lower a.direction) axes

  abbrev pub abbreviations : List Axis → List Text
  abbreviations axes = map (λ a. cs.upper a.abbreviation) axes

  -- The positions of the east and the north axis, where the code finds them.
  unfoldable pub east_north : List Axis → Option (ℕ × ℕ)
  unfolding find_from
  east_north axes =
      or_else
        (distinct (find_from is_easting 0 (directions axes))
          (find_from is_northing 0 (directions axes)))
        (by_letter (find_from (λ a. a == codes "E") 0 (abbreviations axes))
          (find_from (λ a. a == codes "N") 0 (abbreviations axes)))

  unfoldable pub value_axis_order : List Axis → List ℕ
  unfolding east_north positions unplaced
  value_axis_order axes =
      let all = unplaced (λ i. false) 0 (directions axes) in
      elim (east_north axes) [
        | none ↦ all
        | some (e, n) ↦
            let vertical = positions is_vertical 0 (directions axes) in
            e
            ∷ n
            ∷ (vertical
                ++ unplaced (λ i. i == e || i == n || contains vertical i) 0 (directions axes))
      ]
