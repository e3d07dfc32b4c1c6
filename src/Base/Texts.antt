-- ===== src/Base/Texts.antt =====
-- The text operations that the source takes from Python: `str.strip`, `str.find` with the two
-- slices about it, `str.startswith` and `str.rpartition`. What is a space is an argument.
use geodetic_engine.Base.Equality.{◌==◌, Text, text_eq, nat_eq}
use geodetic_engine.Base.Tests.{if◌then◌else◌, ltb, Option-cases}
use Prim.Native.Nat.{ℕ}
use mathlib.Core.Path.{◌≡◌, refl}
use mathlib.Core.Logic.{inl, inr, ◌≢◌}
use mathlib.Core.Bool.{Bool, true, false, ◌&&◌}
use mathlib.Core.Option.{Option, none, some}
use mathlib.Core.List.{List, [], ◌∷◌, ◌++◌}
use native.Mathlib.Omega.{arith}

abbrev pub all {ℓ} : {A : Type ℓ} → (A → Bool) → List A → Bool
all p [] = true
all p (x ∷ xs) = p x && all p xs

abbrev pub is_empty {ℓ} : {A : Type ℓ} → List A → Bool
is_empty [] = true
is_empty (x ∷ xs) = false

-- `text or None`
abbrev pub unless_empty : Text → Option Text
unless_empty [] = none
unless_empty (c ∷ t) = some (c ∷ t)

-- `text or ""`
abbrev pub or_blank : Option Text → Text
or_blank none = []
or_blank (some t) = t

-- Python's order of texts.
unfoldable pub text_lt : Text → Text → Bool
text_lt s [] = false
text_lt [] (d ∷ t) = true
text_lt (c ∷ s) (d ∷ t) = let rest = text_lt s t in if c == d then rest else ltb c d

unfoldable pub lstrip : (ℕ → Bool) → Text → Text
lstrip space [] = []
lstrip space (c ∷ t) = let rest = lstrip space t in if space c then rest else c ∷ t

unfoldable pub rstrip : (ℕ → Bool) → Text → Text
rstrip space [] = []
rstrip space (c ∷ t) =
    let rest = rstrip space t in if is_empty rest && space c then [] else c ∷ rest

-- `text.strip()`
unfoldable pub strip : (ℕ → Bool) → Text → Text
unfolding lstrip rstrip
strip space t = rstrip space (lstrip space t)

-- What follows a prefix.
unfoldable pub drop_prefix : Text → Text → Option Text
drop_prefix [] t = some t
drop_prefix (c ∷ m) [] = none
drop_prefix (c ∷ m) (d ∷ t) = let rest = drop_prefix m t in if c == d then rest else none

abbrev pub cons_first : ℕ → Option (Text × Text) → Option (Text × Text)
cons_first c none = none
cons_first c (some (b, a)) = some (c ∷ b, a)

abbrev pub or_cons : ℕ → Option Text → Option (Text × Text) → Option (Text × Text)
or_cons c none later = cons_first c later
or_cons c (some rest) later = some ([], rest)

-- What stands before and after the first occurrence of a text that is not empty.
unfoldable pub split_first : Text → Text → Option (Text × Text)
split_first m [] = none
split_first m (c ∷ t) = or_cons c (drop_prefix m (c ∷ t)) (split_first m t)

abbrev pub or_here : ℕ → ℕ → Text → Option (Text × Text) → Option (Text × Text)
or_here d c t none = if c == d then some ([], t) else none
or_here d c t (some (b, a)) = some (c ∷ b, a)

-- What stands before and after the last occurrence of a character.
unfoldable pub split_last : ℕ → Text → Option (Text × Text)
split_last d [] = none
split_last d (c ∷ t) = or_here d c t (split_last d t)

pub drop_prefix-append : (m t : Text) → drop_prefix m (m ++ t) ≡ some t
unfolding drop_prefix
drop_prefix-append [] t = refl
drop_prefix-append (c ∷ m) t = ground (arith, drop_prefix-append m t)

pub drop_prefix-eq : (m t : Text) {rest : Text} → drop_prefix m t ≡ some rest → t ≡ m ++ rest
unfolding drop_prefix
drop_prefix-eq [] t h = ground arith
drop_prefix-eq (c ∷ m) [] h = ground arith
drop_prefix-eq (c ∷ m) (d ∷ t) {rest} h = ground (arith, drop_prefix-eq m t {rest = rest})

pub split_first-eq : (m t : Text) {b a : Text} → split_first m t ≡ some (b, a) → t ≡ b ++ (m ++ a)
unfolding split_first
split_first-eq m [] h = ground arith
split_first-eq m (c ∷ t) {b} {a} h = elim (Option-cases (drop_prefix m (c ∷ t))) [
  | inr (rest, e) ↦ ground (arith, drop_prefix-eq m (c ∷ t) e)
  | inl e ↦ elim (Option-cases (split_first m t)) [
    | inl f ↦ ground arith
    | inr ((b', a'), f) ↦ ground (arith, split_first-eq m t f)
  ]
]

-- A text that does not occur does not occur in what is left of it.
pub split_first-none : (m b t : Text) → split_first m (b ++ t) ≡ none → split_first m t ≡ none
unfolding split_first
split_first-none m [] t h = h
split_first-none m (c ∷ b) t h = split_first-none m b t (ground arith)

pub split_last-eq :
    (d : ℕ) (t : Text) {b a : Text} → split_last d t ≡ some (b, a) → t ≡ b ++ (d ∷ a)
unfolding split_last
split_last-eq d [] h = ground arith
split_last-eq d (c ∷ t) h = elim (Option-cases (split_last d t)) [
  | inl e ↦ ground arith
  | inr ((b', a'), e) ↦ ground (arith, split_last-eq d t e)
]

split_last-none :
    (d : ℕ) (t : Text) → all (λ c. if c == d then false else true) t ≡ true → split_last d t ≡ none
unfolding split_last
split_last-none d [] h = refl
split_last-none d (c ∷ t) h = ground (arith, split_last-none d t)

pub split_last-append :
    (d : ℕ) (b a : Text)
    → all (λ c. if c == d then false else true) a ≡ true
    → split_last d (b ++ (d ∷ a)) ≡ some (b, a)
unfolding split_last
split_last-append d [] a h = ground (arith, split_last-none d a h)
split_last-append d (c ∷ b) a h = ground (arith, split_last-append d b a h)

rstrip-all :
    (space : ℕ → Bool) (t : Text)
    → all (λ c. if space c then false else true) t ≡ true
    → rstrip space t ≡ t
unfolding rstrip
rstrip-all space [] h = refl
rstrip-all space (c ∷ t) h = ground (arith, rstrip-all space t)

-- A text that ends in a character that is no space, here by ending in several, is left alone.
pub rstrip-append :
    (space : ℕ → Bool) (a : Text) (c : ℕ) (b : Text)
    → all (λ c. if space c then false else true) (c ∷ b) ≡ true
    → rstrip space (a ++ (c ∷ b)) ≡ a ++ (c ∷ b)
unfolding rstrip
rstrip-append space [] c b h = rstrip-all space (c ∷ b) h
rstrip-append space (x ∷ []) c b h = rw (rstrip-append space [] c b h, rstrip) (ground arith)
rstrip-append space (x ∷ y ∷ a) c b h =
    rw (rstrip-append space (y ∷ a) c b h, rstrip) (ground arith)

-- A text with no space at either end is left alone by `strip`.
pub strip-ends :
    (space : ℕ → Bool) (x : ℕ) (a : Text) (c : ℕ) (b : Text)
    → space x ≡ false
    → all (λ c. if space c then false else true) (c ∷ b) ≡ true
    → strip space (x ∷ (a ++ (c ∷ b))) ≡ x ∷ (a ++ (c ∷ b))
unfolding strip lstrip
strip-ends space x a c b h k = rw (h, lstrip) (rstrip-append space (x ∷ a) c b k)

pub split_first-append : (x : ℕ) (m b a : Text) → split_first (x ∷ m) (b ++ ((x ∷ m) ++ a)) ≢ none
unfolding split_first
split_first-append x m [] a h = let e = drop_prefix-append (x ∷ m) a in absurd (ground arith)
split_first-append x m (c ∷ b) a h = split_first-append x m b a (ground arith)
