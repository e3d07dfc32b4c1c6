-- ===== src/ProjDb/Preferences/Joined.antt =====
-- Lists of authorities as texts (geodetic_engine/projdb/authority.py).
use geodetic_engine.Base.{
  ◌≡◌, refl, ◌∙◌, Bool, true, false, List, [], ◌∷◌, ◌++◌, ◌==◌, Text, text_eq, nat_eq,
  if◌then◌else◌, arith, ap, All,
}
use geodetic_engine.Base.Texts.{all}
use geodetic_engine.ProjDb.Preferences.{join, split}

abbrev pub has_no_comma : Text → Bool
has_no_comma t = all (λ c. if c == b',' then false else true) t

split-text : (t : Text) → has_no_comma t ≡ true → split t ≡ t ∷ []
unfolding split
split-text [] h = refl
split-text (c ∷ t) h = ground (arith, h, split-text t)

split-append : (t u : Text) → has_no_comma t ≡ true → split (t ++ (b',' ∷ u)) ≡ t ∷ split u
unfolding split nat_eq
split-append [] u h = refl
split-append (c ∷ t) u h = ground (arith, h, split-append t u)

-- Names without a comma are read back as they were joined.
pub split-join :
    (t : Text) (ts : List Text)
    → All (λ name. has_no_comma name ≡ true) (t ∷ ts)
    → split (join (t ∷ ts)) ≡ t ∷ ts
unfolding join
split-join t [] (h, k) = split-text t h
split-join t (u ∷ us) (h, k) =
    split-append t (join (u ∷ us)) h ∙ ap (λ rest. t ∷ rest) (split-join u us k)
