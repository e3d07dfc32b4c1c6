-- ===== src/Referencing/Axes/Order.antt =====
-- The value order holds each axis once (geodetic_engine/_referencing/axes.py).
use geodetic_engine.Base.{
  ℕ, zero, suc, ◌-◌, ◌<◌, ◌≡◌, ◌≢◌, refl, ◌∙◌, Bool, true, false, not, ◌&&◌, ◌||◌, Option, none,
  some, List, [], ◌∷◌, ◌==◌, Text, text_eq, nat_eq, codes, if◌then◌else◌, length, arith, ltb,
  Option-cases, inl, inr,
}
use geodetic_engine.Referencing.Axes.{
  Axis, Casing, is_easting, is_northing, is_vertical, find_from, distinct, by_letter, directions,
  abbreviations, east_north, value_axis_order,
}
use geodetic_engine.Referencing.Axes.Counting.{
  count, holds_at, count-unplaced, find_from-holds, count-order,
}

-- An axis that counts upwards or downwards and is abbreviated like one of the other two.
abbrev pub misnamed : Casing → Axis → Bool
misnamed cs a =
    is_vertical (cs.lower a.direction)
    && (cs.upper a.abbreviation == codes "E" || cs.upper a.abbreviation == codes "N")

abbrev pub none_misnamed : Casing → List Axis → Bool
none_misnamed cs [] = true
none_misnamed cs (a ∷ axes) = not (misnamed cs a) && none_misnamed cs axes

-- A position as the code finds it: within the axes and not vertical.
abbrev Plain : Casing → List Axis → ℕ → Type 0
Plain cs axes i =
    (i < length (directions cs axes)) × (holds_at is_vertical (directions cs axes) i ≡ false)

letter-Plain :
    (cs : Casing) (axes : List Axis) (p : Text → Bool) (i : ℕ)
    → ((a : Axis)
        → misnamed cs a ≡ false
        → p (cs.upper a.abbreviation) ≡ true
        → is_vertical (cs.lower a.direction) ≡ false)
    → none_misnamed cs axes ≡ true
    → holds_at p (abbreviations cs axes) i ≡ true
    → Plain cs axes i
letter-Plain cs [] p i f m h = absurd (ground arith)
letter-Plain cs (a ∷ axes) p zero f m h = (omega arith, f a (ground arith) h)
letter-Plain cs (a ∷ axes) p (suc i) f m h =
    let (x, y) = letter-Plain cs axes p i f (ground arith) h in (omega arith, y)

direction-Plain :
    (cs : Casing) (axes : List Axis) (p : Text → Bool) (i : ℕ)
    → ((t : Text) → p t ≡ true → is_vertical t ≡ false)
    → holds_at p (directions cs axes) i ≡ true
    → Plain cs axes i
direction-Plain cs [] p i f h = absurd (ground arith)
direction-Plain cs (a ∷ axes) p zero f h = (omega arith, f _ h)
direction-Plain cs (a ∷ axes) p (suc i) f h =
    let (x, y) = direction-Plain cs axes p i f h in (omega arith, y)

abbrev Pair : Casing → List Axis → ℕ → ℕ → Type 0
Pair cs axes e n = (e ≢ n) × Plain cs axes e × Plain cs axes n

distinct-eq :
    (a b : Option ℕ) {e n : ℕ} → distinct a b ≡ some (e, n) → (a ≡ some e) × (b ≡ some n) × (e ≢ n)
distinct-eq none b h = absurd (ground arith)
distinct-eq (some x) none h = absurd (ground arith)
distinct-eq (some x) (some y) h = (ground arith, ground arith, ground arith)

by_direction-Pair :
    (cs : Casing) (axes : List Axis) (e n : ℕ)
    → distinct
        (find_from is_easting 0 (directions cs axes))
        (find_from is_northing 0 (directions cs axes))
      ≡ some (e, n)
    → Pair cs axes e n
by_direction-Pair cs axes e n h =
    let (a, b, d) = distinct-eq _ _ h in
    let z : e - 0 ≡ e = omega arith in
    let y : n - 0 ≡ n = omega arith in
    (
      d,
      direction-Plain cs axes is_easting e east_plain
          (rw z at (find_from-holds is_easting 0 e _ a).1),
      direction-Plain cs axes is_northing n north_plain
          (rw y at (find_from-holds is_northing 0 n _ b).1),
    )
  where
    east_plain : (t : Text) → is_easting t ≡ true → is_vertical t ≡ false
    east_plain t h = ground arith

    north_plain : (t : Text) → is_northing t ≡ true → is_vertical t ≡ false
    north_plain t h = ground arith

by_letter-Pair :
    (cs : Casing) (axes : List Axis) (e n : ℕ)
    → none_misnamed cs axes ≡ true
    → by_letter
        (find_from (λ a. a == codes "E") 0 (abbreviations cs axes))
        (find_from (λ a. a == codes "N") 0 (abbreviations cs axes))
      ≡ some (e, n)
    → Pair cs axes e n
by_letter-Pair cs axes e n m h =
    let (a, b, d) = distinct-eq _ _ h in
    let z : e - 0 ≡ e = omega arith in
    let y : n - 0 ≡ n = omega arith in
    (
      d,
      letter-Plain cs axes (λ t. t == codes "E") e (λ x f g. ground arith) m
          (rw z at (find_from-holds (λ t. t == codes "E") 0 e _ a).1),
      letter-Plain cs axes (λ t. t == codes "N") n (λ x f g. ground arith) m
          (rw y at (find_from-holds (λ t. t == codes "N") 0 n _ b).1),
    )

east_north-Pair :
    (cs : Casing) (axes : List Axis) (e n : ℕ)
    → none_misnamed cs axes ≡ true
    → east_north cs axes ≡ some (e, n)
    → Pair cs axes e n
unfolding east_north
east_north-Pair cs axes e n m h =
    elim (Option-cases (
      distinct (find_from is_easting 0 (directions cs axes))
        (find_from is_northing 0 (directions cs axes)))) [
          | inl f ↦ by_letter-Pair cs axes e n m (rw (f, east_north) at h)
          | inr ((x, y), f) ↦ by_direction-Pair cs axes e n (f ∙ rw (f, east_north) at h)
        ]

length-directions : (cs : Casing) (axes : List Axis) → length (directions cs axes) ≡ length axes
length-directions cs [] = refl
length-directions cs (a ∷ axes) = omega (arith, length-directions cs axes)

-- The value order of the axes of a CRS is a permutation of their positions: each of them is listed
-- once and nothing else is. The hypothesis is that no axis that counts up or down is abbreviated
-- `E` or `N`.
pub count-value_axis_order :
    (cs : Casing) (axes : List Axis) (i : ℕ)
    → none_misnamed cs axes ≡ true
    → count i (value_axis_order cs axes) ≡ (if ltb i (length axes) then 1 else 0)
unfolding value_axis_order
count-value_axis_order cs axes i m = elim (Option-cases (east_north cs axes)) [
  | inl f ↦
      rw (f, value_axis_order)
        (count-unplaced (λ j. false) 0 i (directions cs axes) (omega arith)
          ∙ ground (arith, length-directions cs axes))
  | inr ((e, n), f) ↦
      let (d, a, b) = east_north-Pair cs axes e n m f in
      rw (f, value_axis_order, ← length-directions cs axes)
        (count-order (directions cs axes) e n i d a.0 b.0 a.1 b.1)
]
