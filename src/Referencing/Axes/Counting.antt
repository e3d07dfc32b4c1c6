-- ===== src/Referencing/Axes/Counting.antt =====
-- How often the loops over axes list a position (geodetic_engine/_referencing/axes.py).
use geodetic_engine.Base.{
  ℕ, zero, suc, ◌+◌, ◌-◌, ◌≤◌, ◌<◌, ◌≡◌, ◌≢◌, refl, Bool, true, false, not, ◌&&◌, ◌||◌, none, some,
  List, [], ◌∷◌, ◌++◌, ◌==◌, contains, Text, text_eq, nat_eq, if◌then◌else◌, length, arith, ltb,
  Bool-cases, inl, inr, get_elem?,
}
use geodetic_engine.Referencing.Axes.{is_vertical, find_from, positions, unplaced}

-- How often a number is listed.
abbrev pub count : ℕ → List ℕ → ℕ
count i [] = 0
count i (x ∷ xs) = let rest = count i xs in if x == i then rest + 1 else rest

count-append : (i : ℕ) (xs ys : List ℕ) → count i (xs ++ ys) ≡ count i xs + count i ys
count-append i [] ys = omega arith
count-append i (x ∷ xs) ys = ground (arith, count-append i xs ys)

-- Whether a test holds at a position.
abbrev pub holds_at : (Text → Bool) → List Text → ℕ → Bool
holds_at p xs i = elim (get_elem? xs i) [ none ↦ false | some x ↦ p x ]

count-positions_below :
    (p : Text → Bool) (k i : ℕ) (xs : List Text) → i < k → count i (positions p k xs) ≡ 0
unfolding positions
count-positions_below p k i [] h = refl
count-positions_below p k i (x ∷ xs) h = ground (arith, count-positions_below p (suc k) i xs)

count-unplaced_below :
    (q : ℕ → Bool) (k i : ℕ) (xs : List Text) → i < k → count i (unplaced q k xs) ≡ 0
unfolding unplaced
count-unplaced_below q k i [] h = refl
count-unplaced_below q k i (x ∷ xs) h = ground (arith, count-unplaced_below q (suc k) i xs)

pub count-unplaced :
    (q : ℕ → Bool) (k i : ℕ) (xs : List Text)
    → k ≤ i
    → count i (unplaced q k xs) ≡ (if ltb i (k + length xs) && not (q i) then 1 else 0)
unfolding unplaced
count-unplaced q k i [] h = ground arith
count-unplaced q k i (x ∷ xs) h = elim (nat_eq.dec k i) [
  | yes e ↦ rw (← e) (ground (arith, count-unplaced_below q (suc k) k xs (omega arith)))
  | no n ↦ ground (arith, count-unplaced q (suc k) i xs)
]

count-positions :
    (p : Text → Bool) (k i : ℕ) (xs : List Text)
    → k ≤ i
    → count i (positions p k xs) ≡ (if holds_at p xs (i - k) then 1 else 0)
unfolding positions
count-positions p k i [] h = refl
count-positions p k i (x ∷ xs) h = elim (nat_eq.dec k i) [
  | yes e ↦
      let z : k - k ≡ 0 = omega arith in
      rw (← e, z) (ground (arith, count-positions_below p (suc k) k xs (omega arith)))
  | no n ↦
      let s : i - k ≡ suc (i - suc k) = omega arith in
      rw s (ground (arith, count-positions p (suc k) i xs))
]

holds_at-lt : (p : Text → Bool) (xs : List Text) (i : ℕ) → holds_at p xs i ≡ true → i < length xs
holds_at-lt p [] i h = absurd (ground arith)
holds_at-lt p (x ∷ xs) zero h = omega arith
holds_at-lt p (x ∷ xs) (suc i) h = omega (arith, holds_at-lt p xs i h)

pub find_from-holds :
    (p : Text → Bool) (k i : ℕ) (xs : List Text)
    → find_from p k xs ≡ some i
    → (k ≤ i) × (holds_at p xs (i - k) ≡ true)
unfolding find_from
find_from-holds p k i [] h = absurd (ground arith)
find_from-holds p k i (x ∷ xs) h = elim (Bool-cases (p x)) [
  | inl e ↦
      let same : k ≡ i = ground arith in
      let z : k - k ≡ 0 = omega arith in rw (← same, z) (omega arith, e)
  | inr e ↦
      let (a, b) = find_from-holds p (suc k) i xs (ground arith) in
      let s : i - k ≡ suc (i - suc k) = omega arith in (omega arith, rw s b)
]

count-contains : (i : ℕ) (xs : List ℕ) → contains xs i ≡ ltb 0 (count i xs)
count-contains i [] = refl
count-contains i (x ∷ xs) = ground (arith, count-contains i xs)

-- Two positions that differ, are within the axes and are not vertical, then the vertical ones and
-- the rest: every position once.
pub count-order :
    (xs : List Text) (e n i : ℕ)
    → e ≢ n
    → e < length xs
    → n < length xs
    → holds_at is_vertical xs e ≡ false
    → holds_at is_vertical xs n ≡ false
    → let vertical = positions is_vertical 0 xs in
      count i (e ∷ n ∷ (vertical ++ unplaced (λ j. j == e || j == n || contains vertical j) 0 xs))
      ≡ (if ltb i (length xs) then 1 else 0)
count-order xs e n i d a b v w =
    let vertical = positions is_vertical 0 xs in
    let q : ℕ → Bool = λ j. j == e || j == n || contains vertical j in
    let z : i - 0 ≡ i = omega arith in
    let c : count i vertical ≡ (if holds_at is_vertical xs i then 1 else 0) =
      rw z at (count-positions is_vertical 0 i xs (omega arith)) in
    let u : count i (unplaced q 0 xs) ≡ (if ltb i (0 + length xs) && not (q i) then 1 else 0) =
      count-unplaced q 0 i xs (omega arith) in
    let l : holds_at is_vertical xs i ≡ true → i < length xs = holds_at-lt is_vertical xs i in
    let ve : e ≡ i → holds_at is_vertical xs i ≡ false = λ p. rw p at v in
    let vn : n ≡ i → holds_at is_vertical xs i ≡ false = λ p. rw p at w in
    rw (count-append i vertical (unplaced q 0 xs), u, count-contains i vertical, c)
      (ground (arith, ve, vn, l))
