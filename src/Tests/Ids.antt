-- ===== src/Tests/Ids.antt =====
-- Record ids, axes and the search path.
use geodetic_engine.Base.{
  ℕ, ◌≡◌, ◌≢◌, ◌↔◌, ◌⊎◌, refl, true, ◌&&◌, ◌||◌, Option, none, some, List, [], ◌∷◌, ◌==◌, contains,
  Text, text_eq, nat_eq, codes, ok, if◌then◌else◌, arith, leb,
}
use geodetic_engine.Base.Texts.{split_first, drop_prefix, strip}
use geodetic_engine.Referencing.OsduId.{
  CharClasses, OsduId, crs_entity, transformation_entity, entities, identifier, is_record_id,
  is_namespace, before_colon, read_found, parse_osdu_id, versioned, resolve_osdu_id,
}
use geodetic_engine.Referencing.OsduId.Parsing.{
  render, IsDocumented, render-parse_osdu_id, parse_osdu_id-identifier,
}
use geodetic_engine.Referencing.OsduId.Candidates.{IsVersioned, versioned_iff, resolve_osdu_id_iff}
use geodetic_engine.Referencing.Axes.{Axis, Casing, value_axis_order}
use geodetic_engine.Referencing.Axes.Counting.{count}
use geodetic_engine.Referencing.Axes.Order.{count-value_axis_order}
use geodetic_engine.SearchPath.{idle, returned, run, followed}
use geodetic_engine.SearchPath.Calls.{Turn, switches, sets_own, calls, call, turns, turns-call}
use geodetic_engine.SearchPath.Race.{there_and_back, there_and_back_stale}

-- Python's classes over ASCII.
abbrev ascii : CharClasses
ascii = record {
  word = λ c.
      leb b'a' c && leb c b'z' || leb b'A' c && leb c b'Z' || leb b'0' c && leb c b'9' || c == b'_';
  digit = λ c. leb b'0' c && leb c b'9';
  space = λ c. c == 32 || leb 9 c && leb c 13;
}

ascii-IsDocumented : IsDocumented ascii
unfolding nat_eq
ascii-IsDocumented = record { apart = λ c h. ground arith; letter = refl; digits = refl }

abbrev given : Text
given = codes " opendes:reference-data--CoordinateReferenceSystem:Projected:EPSG::23031 "

abbrev projected : OsduId
projected = record {
  entity = crs_entity;
  record_id = codes "Projected:EPSG::23031";
  namespace = some (codes "opendes");
}

parse_osdu_id-given : parse_osdu_id ascii given none ≡ ok (some projected)
unfolding parse_osdu_id read_found before_colon is_namespace is_record_id split_first drop_prefix
    strip text_eq nat_eq
parse_osdu_id-given = refl

-- An authority code is no OSDU id.
parse_osdu_id-code : parse_osdu_id ascii (codes "EPSG:23031") none ≡ ok none
unfolding parse_osdu_id split_first drop_prefix strip text_eq nat_eq
parse_osdu_id-code = refl

render-parse_osdu_id_example :
    (render projected ≡ strip ascii.space given)
    × (contains entities projected.entity ≡ true)
    × (is_record_id ascii projected.record_id ≡ true)
render-parse_osdu_id_example = render-parse_osdu_id ascii given projected parse_osdu_id-given

parse_osdu_id-identifier_holds :
    parse_osdu_id ascii (identifier projected) none
    ≡ ok (some (record projected { namespace = none }))
parse_osdu_id-identifier_holds =
    parse_osdu_id-identifier ascii ascii-IsDocumented given projected parse_osdu_id-given

versioned_iff_example :
    (versioned ascii (codes "EPSG::1612:17") ≡ some (codes "EPSG::1612"))
    ↔ IsVersioned ascii (codes "EPSG::1612:17") (codes "EPSG::1612")
versioned_iff_example =
    versioned_iff ascii ascii-IsDocumented (codes "EPSG::1612:17") (codes "EPSG::1612")

abbrev transformation : OsduId
transformation = record {
  entity = transformation_entity;
  record_id = codes "EPSG::1612:17";
  namespace = none;
}

abbrev published : Text → Option ℕ
published t =
    if t == codes "reference-data--CoordinateTransformation:EPSG::1612" then some 7 else none

IsVersioned-1612 : IsVersioned ascii (codes "EPSG::1612:17") (codes "EPSG::1612")
IsVersioned-1612 = record {
  version = codes "17";
  whole = refl;
  numbered = refl;
  start = codes "EPSG::161";
  last = b'2';
  parts = refl;
  no_line_end = ground arith;
  no_colon = omega arith;
}

resolve_osdu_id_iff_example : (resolve_osdu_id ascii published transformation ≡ some 7) ↔ (
    (published (identifier transformation) ≡ some 7)
    ⊎ ((published (identifier transformation) ≡ none)
        × (stem : Text) × IsVersioned ascii transformation.record_id stem
        × (published (identifier (record transformation { record_id = stem })) ≡ some 7)))
resolve_osdu_id_iff_example =
    resolve_osdu_id_iff ascii ascii-IsDocumented published transformation 7

-- EPSG:4326, with a height.
abbrev latitude_first : List Axis
latitude_first =
    record { abbreviation = codes "LAT"; direction = codes "north" }
    ∷ record { abbreviation = codes "LON"; direction = codes "east" }
    ∷ record { abbreviation = codes "H"; direction = codes "up" }
    ∷ []

abbrev as_is : Casing
as_is = record { lower = λ t. t; upper = λ t. t }

value_axis_order-4326 : value_axis_order as_is latitude_first ≡ 1 ∷ 0 ∷ 2 ∷ []
unfolding value_axis_order text_eq nat_eq
value_axis_order-4326 = refl

count-value_axis_order_example : count 2 (value_axis_order as_is latitude_first) ≡ 1
unfolding text_eq nat_eq
count-value_axis_order_example = count-value_axis_order as_is latitude_first 2 refl

abbrev path_identity : ℕ → ℕ
path_identity p = p

abbrev between : List (Turn ℕ)
between = calls ∷ sets_own 5 ∷ switches 1 ∷ []

turns-call_holds :
    let (sh, t) = turns path_identity between (
      record { path = 1; count = 0; pending = none },
      record { context = 1; seen = none; place = idle },
    ) in
    ((call path_identity sh t).place ≡ returned (path_identity sh.path))
    × (path_identity (call path_identity sh t).context ≡ path_identity sh.path)
turns-call_holds = turns-call path_identity between 1 1 0

there_and_back_stale_example :
    let (sh, t) = run path_identity (there_and_back 1 2) (
      record { path = 1; count = 0; pending = none },
      record { context = 1; seen = none; place = idle },
    ) in
    (t.place ≡ returned (path_identity sh.path))
    × (followed path_identity sh t ≡ true)
    × (path_identity t.context ≢ path_identity sh.path)
there_and_back_stale_example = there_and_back_stale path_identity 1 2 0 (omega arith)
