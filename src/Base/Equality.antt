-- ===== src/Base/Equality.antt =====
-- Python's `==` and `in`, for every type whose equality can be decided, and texts as code points.
use Prim.Native.Nat.{ℕ}
use Prim.Native.Char.{code}
use Prim.Native.String.{String}
use mathlib.Core.Path.{◌≡◌, refl, ap₂}
use mathlib.Core.Logic.{ite, dite}
use mathlib.Core.Bool.{Bool, true, false, ◌||◌}
use mathlib.Core.List.{List, [], ◌∷◌, ◌++◌}
use native.Mathlib.Decide.{ℕ_discrete}
use native.Mathlib.Omega.{arith}

pub record Eq {ℓ} (A : Type ℓ) : Type ℓ where
  pub dec : Discrete A

module _ {ℓ} {A : Type ℓ} ⦃e : Eq A⦄ where
  infix 50 ◌==◌
  abbrev pub ◌==◌ : A → A → Bool
  a == b = ite (e.dec a b) true false

  abbrev pub contains : List A → A → Bool
  contains [] a = false
  contains (x ∷ xs) a = a == x || contains xs a

-- A text, by its code points.
abbrev pub Text : Type 0
Text = List ℕ

abbrev pub codes : String → Text
codes String.[] = []
codes (String.◌∷◌ c s) = code c ∷ codes s

unfoldable pub Text-discrete : Discrete Text
unfolding ℕ_discrete
Text-discrete [] [] = yes refl
Text-discrete [] (y ∷ ys) = no (λ e. cc)
Text-discrete (x ∷ xs) [] = no (λ e. cc)
Text-discrete (x ∷ xs) (y ∷ ys) =
    let rest = Text-discrete xs ys in
    dite (ℕ_discrete x y)
      (λ p. elim rest [ yes q ↦ yes (ap₂ (λ a b. a ∷ b) p q) | no n ↦ no (λ e. n (cc)) ])
      (λ n. no (λ e. n (cc)))

instance unfoldable pub nat_eq : Eq ℕ
unfolding ℕ_discrete
nat_eq = record { dec = ℕ_discrete }

instance unfoldable pub text_eq : Eq Text
unfolding Text-discrete
text_eq = record { dec = Text-discrete }

pub contains-append {ℓ} :
    {A : Type ℓ} ⦃e : Eq A⦄ (xs ys : List A) (a : A)
    → contains (xs ++ ys) a ≡ (contains xs a || contains ys a)
contains-append [] ys a = refl
contains-append (x ∷ xs) ys a = ground (arith, contains-append xs ys a)

pub not_member {ℓ} :
    {A : Type ℓ} ⦃e : Eq A⦄ (a b : A) (xs : List A)
    → contains xs a ≡ false
    → contains xs b ≡ true
    → (b == a) ≡ false
not_member ⦃e⦄ a b xs h k = elim (e.dec b a) [
  | yes q ↦ absurd (ground (arith, q, h, k))
  | no n ↦ ground (arith, n)
]

-- A pair of texts, such as an authority and a code.
TextPair-discrete : Discrete (Text × Text)
unfolding Text-discrete
TextPair-discrete = hlevel Text-discrete

instance unfoldable pub text_pair_eq : Eq (Text × Text)
unfolding TextPair-discrete
text_pair_eq = record { dec = TextPair-discrete }

Texts-discrete : Discrete (List Text)
unfolding Text-discrete
Texts-discrete [] [] = yes refl
Texts-discrete [] (y ∷ ys) = no (λ e. cc)
Texts-discrete (x ∷ xs) [] = no (λ e. cc)
Texts-discrete (x ∷ xs) (y ∷ ys) =
    let rest = Texts-discrete xs ys in
    dite (Text-discrete x y)
      (λ p. elim rest [ yes q ↦ yes (ap₂ (λ a b. a ∷ b) p q) | no n ↦ no (λ e. n (cc)) ])
      (λ n. no (λ e. n (cc)))

instance unfoldable pub texts_eq : Eq (List Text)
unfolding Texts-discrete
texts_eq = record { dec = Texts-discrete }
