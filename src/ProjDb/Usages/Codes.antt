-- ===== src/ProjDb/Usages/Codes.antt =====
-- The codes of usages tell them apart (geodetic_engine/projdb/records.py).
use geodetic_engine.Base.{
  ℕ, suc, zero, ◌+◌, ◌*◌, ◌-◌, ◌/◌, ◌%◌, ◌<◌, ◌≡◌, refl, ◌∙◌, Bool, true, false, Option, none, some,
  [], ◌∷◌, ◌++◌, ◌==◌, nat_eq, Text, if◌then◌else◌, arith, ltb, ap, Bool-cases, inl, inr,
}
use geodetic_engine.Base.Texts.{split_last, split_last-append, all}
use geodetic_engine.ProjDb.Usages.{digits, decimal, usage_code}

-- `int(t)`, behind the digits that were read.
unfoldable pub read_digits : ℕ → Text → ℕ
read_digits v [] = v
read_digits v (c ∷ t) = read_digits (v * 10 + (c - 48)) t

read_digits-digits : (f n : ℕ) (t : Text) → n < f → read_digits 0 (digits f n t) ≡ read_digits n t
unfolding digits read_digits
read_digits-digits zero n t h = elim h [ ]
read_digits-digits (suc f) n t h = elim (Bool-cases (ltb n 10)) [
  | inl e ↦ ground (arith, e)
  | inr e ↦ rw e (
      read_digits-digits f (n / 10) ((48 + n % 10) ∷ t) (ground (arith, e))
      ∙ ap (λ v. read_digits v t) (omega arith))
]

-- The digits of a number are read as the number.
pub read_digits-decimal : (n : ℕ) → read_digits 0 (decimal n) ≡ n
unfolding decimal read_digits
read_digits-decimal n = read_digits-digits (n + 1) n [] (omega arith)

abbrev pub is_no_underscore : ℕ → Bool
is_no_underscore c = if c == b'_' then false else true

digit-is_no_underscore : (d : ℕ) → d < 10 → is_no_underscore (48 + d) ≡ true
unfolding nat_eq
digit-is_no_underscore d h = elim (nat_eq.dec (48 + d) b'_') [
  | yes q ↦ absurd (omega (arith, q))
  | no n ↦ ground (arith, n)
]

all-digits :
    (f n : ℕ) (t : Text)
    → all is_no_underscore t ≡ true
    → all is_no_underscore (digits f n t) ≡ true
unfolding digits
all-digits zero n t h = h
all-digits (suc f) n t h = elim (Bool-cases (ltb n 10)) [
  | inl e ↦ ground (arith, e, h, digit-is_no_underscore n (ground (arith, e)))
  | inr e ↦ rw e (
      all-digits f (n / 10) ((48 + n % 10) ∷ t)
        (ground (arith, h, digit-is_no_underscore (n % 10) (omega arith))))
]

all-decimal : (n : ℕ) → all is_no_underscore (decimal n) ≡ true
unfolding decimal
all-decimal n = all-digits (n + 1) n [] refl

-- The number at the end of a code.
abbrev pub number_of : Option (Text × Text) → ℕ
number_of none = 0
number_of (some (b, a)) = read_digits 0 a

abbrev pub number_in : Text → ℕ
number_in code = number_of (split_last b'_' code)

regroup : (xs : Text) (x : ℕ) (ys zs : Text) → xs ++ (x ∷ (ys ++ zs)) ≡ (xs ++ (x ∷ ys)) ++ zs
regroup [] x ys zs = refl
regroup (y ∷ xs) x ys zs = ap (λ t. y ∷ t) (regroup xs x ys zs)

pub number_in-usage_code : (table code : Text) (n : ℕ) → number_in (usage_code table code n) ≡ n
number_in-usage_code table code n =
    let e = regroup table b'_' code (b'_' ∷ decimal n) in
    let f = split_last-append b'_' (table ++ (b'_' ∷ code)) (decimal n) (all-decimal n) in
    ap number_in e ∙ (ap number_of f ∙ read_digits-decimal n)
