-- ===== src/Georepository/Versions/Order.antt =====
-- `is_newer` is a strict order on the versions that read as numbers
-- (geodetic_engine/georepository/cache.py).
use geodetic_engine.Base.{
  ℕ, ◌+◌, ◌≡◌, refl, true, Option, some, List, [], ◌∷◌, ◌++◌, ◌≤◌, ◌∙◌, ap, ◌↔◌, nat_eq, Text,
  text_eq, ok, arith, inl, inr, ◌⊎◌,
}
use geodetic_engine.Georepository.Versions.{Digits, tuple_lt, parts, compare_parts, is_newer}

tuple_lt_trans :
    (xs ys zs : List ℕ) → tuple_lt xs ys ≡ true → tuple_lt ys zs ≡ true → tuple_lt xs zs ≡ true
unfolding tuple_lt
tuple_lt_trans xs [] zs h k = absurd (ground arith)
tuple_lt_trans xs (y ∷ ys) [] h k = absurd (ground arith)
tuple_lt_trans [] (y ∷ ys) (z ∷ zs) h k = refl
tuple_lt_trans (x ∷ xs) (y ∷ ys) (z ∷ zs) h k = ground (arith, tuple_lt_trans xs ys zs)

-- What makes a list of numbers later than another one.
abbrev pub IsLater : List ℕ → List ℕ → Type 0
IsLater xs ys =
    (common : List ℕ) × (x : ℕ) × (rest : List ℕ) × (xs ≡ common ++ (x ∷ rest))
    × ((ys ≡ common) ⊎ ((y : ℕ) × (after : List ℕ) × (ys ≡ common ++ (y ∷ after)) × (y + 1 ≤ x)))

IsLater-cons : (x : ℕ) (xs ys : List ℕ) → IsLater xs ys → IsLater (x ∷ xs) (x ∷ ys)
IsLater-cons x xs ys (common, z, rest, e, inl f) =
    (x ∷ common, z, rest, ap (λ l. x ∷ l) e, inl (ap (λ l. x ∷ l) f))
IsLater-cons x xs ys (common, z, rest, e, inr (y, after, f, g)) =
    (x ∷ common, z, rest, ap (λ l. x ∷ l) e, inr (y, after, ap (λ l. x ∷ l) f, g))

tuple_lt-IsLater : (xs ys : List ℕ) → tuple_lt ys xs ≡ true → IsLater xs ys
unfolding tuple_lt
tuple_lt-IsLater [] ys h = absurd (ground (arith, h))
tuple_lt-IsLater (x ∷ xs) [] h = ([], x, xs, refl, inl refl)
tuple_lt-IsLater (x ∷ xs) (y ∷ ys) h = elim (nat_eq.dec y x) [
  | yes q ↦ rw q (IsLater-cons x xs ys (tuple_lt-IsLater xs ys (ground (arith, h, q))))
  | no n ↦ ([], x, xs, refl, inr (y, ys, refl, ground (arith, h, n)))
]

longer : (common : List ℕ) (x : ℕ) (rest : List ℕ) → tuple_lt common (common ++ (x ∷ rest)) ≡ true
unfolding tuple_lt
longer [] x rest = refl
longer (c ∷ common) x rest = ground (arith, longer common x rest)

greater :
    (common : List ℕ) (x y : ℕ) (rest after : List ℕ)
    → y + 1 ≤ x
    → tuple_lt (common ++ (y ∷ after)) (common ++ (x ∷ rest)) ≡ true
unfolding tuple_lt
greater [] x y rest after h = ground (arith, h)
greater (c ∷ common) x y rest after h = ground (arith, greater common x y rest after h)

IsLater-tuple_lt : (xs ys : List ℕ) → IsLater xs ys → tuple_lt ys xs ≡ true
IsLater-tuple_lt xs ys (common, x, rest, e, inl f) = rw (e, f) (longer common x rest)
IsLater-tuple_lt xs ys (common, x, rest, e, inr (y, after, f, g)) =
    rw (e, f) (greater common x y rest after g)

module _ (d : Digits) where
  is_newer-parts :
      (a b : Text) {l c : Option (List ℕ)}
      → parts d a ≡ ok l
      → parts d b ≡ ok c
      → is_newer d a b ≡ ok (compare_parts d a b l c)
  unfolding is_newer
  is_newer-parts a b p q = rw (p, q, is_newer)

  -- Of two versions that read as numbers the first is newer exactly if, behind the numbers with which
  -- both begin, it goes on with a greater number, or goes on where the other ends: 1.10 is newer than
  -- 1.9 and than 1.
  pub is_newer_iff :
      (a b : Text) {xs ys : List ℕ}
      → parts d a ≡ ok (some xs)
      → parts d b ≡ ok (some ys)
      → (is_newer d a b ≡ ok true) ↔ IsLater xs ys
  is_newer_iff a b {xs} {ys} p q = (
    λ h. tuple_lt-IsLater xs ys (ground (arith, h, is_newer-parts a b p q)),
    λ later. is_newer-parts a b p q ∙ ap ok (IsLater-tuple_lt xs ys later),
  )

  -- Of three versions that read as numbers, the first is newer than the last if it is newer than
  -- the second and that one than the last.
  pub is_newer_trans :
      (a b c : Text) {xs ys zs : List ℕ}
      → parts d a ≡ ok (some xs)
      → parts d b ≡ ok (some ys)
      → parts d c ≡ ok (some zs)
      → is_newer d a b ≡ ok true
      → is_newer d b c ≡ ok true
      → is_newer d a c ≡ ok true
  is_newer_trans a b c {xs} {ys} {zs} p q r h k = ground (
    arith,
    is_newer-parts a b p q,
    is_newer-parts b c q r,
    is_newer-parts a c p r,
    tuple_lt_trans zs ys xs,
  )
