-- ===== src/Tests/Wkt.antt =====
-- An element of ESRI WKT with a string, a number, a word and an element inside.
use geodetic_engine.Base.{
  ℕ, ◌^◌, ◌≤◌, ◌≡◌, ◌≢◌, refl, Bool, true, false, Option, some, [], ◌∷◌, ◌++◌, ◌==◌, contains,
  nat_eq, Text, codes, ok, err, arith, length,
}
use geodetic_engine.PersistableReference.EsriWkt.{
  Node, element, node, word, string, number, no_more, one_more, escaped, write, read, no_fuel,
}
use geodetic_engine.PersistableReference.EsriWkt.Items.{IsDocumented, IsNode}
use geodetic_engine.PersistableReference.EsriWkt.RoundTrip.{read-write}
use geodetic_engine.PersistableReference.EsriWkt.Fuel.{read_returns}

abbrev is_space : ℕ → Bool
is_space c = c == b' '

-- The characters of the keywords below.
abbrev is_alnum : ℕ → Bool
is_alnum c = contains (codes "GEOTRANMHDnorth") c

abbrev value : Text → Option Text
value t = some t

abbrev geogtran : Node
geogtran = element (codes "GEOGTRAN") (
    one_more (string (b'a' ∷ b'"' ∷ [])) (
      one_more (node (element (codes "METHOD") (one_more (number (codes "1.5")) no_more)))
        (one_more (word (codes "north")) no_more)))

shown :
    write geogtran
    ≡ codes "GEOGTRAN[" ++ (b'"' ∷ b'a' ∷ b'"' ∷ b'"' ∷ b'"' ∷ codes ",METHOD[1.5],north]")
unfolding write escaped nat_eq
shown = refl

documented : IsDocumented is_space is_alnum value
unfolding nat_eq
documented = record {
  open_space = refl;
  close_space = refl;
  comma_space = refl;
  quote_space = refl;
  alnum_space = λ c h. no_space c h;
  underscore_space = refl;
  number_space = λ c h. no_space_number c h;
  open_alnum = refl;
  close_alnum = refl;
  comma_alnum = refl;
  quote_alnum = refl;
}
  where
    no_space : (c : ℕ) → is_alnum c ≡ true → is_space c ≡ false
    no_space c h = elim (nat_eq.dec c b' ') [
      | yes q ↦ absurd (ground (arith, q, h))
      | no n ↦ ground (arith, n)
    ]

    no_space_number : (c : ℕ) → contains (codes "0123456789+-.") c ≡ true → is_space c ≡ false
    no_space_number c h = elim (nat_eq.dec c b' ') [
      | yes q ↦ absurd (ground (arith, q, h))
      | no n ↦ ground (arith, n)
    ]

well_formed : IsNode is_space is_alnum value 1 geogtran
unfolding IsNode nat_eq
well_formed = (
  refl,
  refl,
  omega arith,
  tt,
  (((refl, refl, omega arith, (refl, refl, refl), tt), ((refl, refl), tt))),
)

short : length (write geogtran) ≤ 2 ^ 20
unfolding write escaped nat_eq
short = omega arith

read_returns_example : read is_space is_alnum value (codes "METHOD[1.5,") ≢ err no_fuel
read_returns_example = read_returns is_space is_alnum value (codes "METHOD[1.5,")

read-write_example : read is_space is_alnum value (write geogtran) ≡ ok geogtran
read-write_example = read-write is_space is_alnum value documented geogtran well_formed short
