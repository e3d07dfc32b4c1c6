-- ===== src/PersistableReference/EsriWkt/Parts.antt =====
-- The parts of what `write` renders are read back (geodetic_engine/persistablereference/esriwkt.py).
use geodetic_engine.Base.{
  ℕ, ◌≡◌, refl, Bool, true, false, not, [], ◌∷◌, ◌++◌, ◌==◌, nat_eq, Text, arith, ok,
}
use geodetic_engine.Base.Texts.{all, lstrip}
use geodetic_engine.PersistableReference.EsriWkt.{quote, escaped, span, read_string}

-- Whether a text does not begin with a character that satisfies a test.
abbrev pub stops : (ℕ → Bool) → Text → Bool
stops p [] = true
stops p (c ∷ t) = not (p c)

pub span-append :
    (p : ℕ → Bool) (a rest : Text)
    → all p a ≡ true
    → stops p rest ≡ true
    → span p (a ++ rest) ≡ (a, rest)
unfolding span
span-append p [] [] h s = refl
span-append p [] (c ∷ rest) h s = ground (arith, s)
span-append p (c ∷ a) rest h s = ground (arith, h, span-append p a rest (ground (arith, h)) s)

pub lstrip-stops : (space : ℕ → Bool) (t : Text) → stops space t ≡ true → lstrip space t ≡ t
unfolding lstrip
lstrip-stops space [] h = refl
lstrip-stops space (c ∷ t) h = ground (arith, h)

-- A string is read back as it was before its quotes were doubled.
pub read_string-escaped :
    (t rest : Text)
    → stops (λ c. c == quote) rest ≡ true
    → read_string false (escaped t ++ (quote ∷ rest)) ≡ ok (t, rest)
unfolding read_string escaped
read_string-escaped [] [] h = ground arith
read_string-escaped [] (c ∷ rest) h = ground (arith, h)
read_string-escaped (c ∷ t) rest h = elim (nat_eq.dec c quote) [
  | yes q ↦ ground (arith, q, read_string-escaped t rest h)
  | no n ↦ ground (arith, n, read_string-escaped t rest h)
]
