-- ===== src/Tests/Objects.antt =====
-- Objects that a build inserts beside those of a base database, and replaces.
use geodetic_engine.Base.{
  ◌≡◌, ◌≢◌, refl, true, false, ◌&&◌, ◌⊎◌, List, [], ◌∷◌, ◌==◌, contains, Text, text_eq, nat_eq,
  text_pair_eq, codes, ok, arith, if◌then◌else◌,
}
use geodetic_engine.Base.Dict
use geodetic_engine.ProjDb.Columns.{
  table_columns, ellipsoid_columns, foreign_authority_allowed, authority_column,
}
use geodetic_engine.ProjDb.Rows.{
  Affinity, number, text, str, Row, get, object_key_eq, Stored, has_key, select, Objects, Base,
  Change, dependents_of, changed_columns, set_columns, update, same, ObjectKey, children,
}
use geodetic_engine.ProjDb.Objects.{
  insert, insert_rows, insert_row, keyed_update, replace, update_row, drop_dependents,
  guard_authorities, dependent_rows,
}
use geodetic_engine.ProjDb.Objects.Selecting.{key_of_row}
use geodetic_engine.ProjDb.Objects.Protection.{IsProtected, IsApart, insert_protects}
use geodetic_engine.ProjDb.Objects.Replacing.{AreAlike, insert_row_states, insert_row_reports}
use geodetic_engine.ProjDb.Overrides.{overrides}
use geodetic_engine.ProjDb.Overrides.Listed.{is_listed, is_listed-overrides}

abbrev pub ellipsoid : Text
ellipsoid = codes "ellipsoid"

abbrev pub row : Text → Text → Text → Row
row auth code name =
    (codes "auth_name", text auth) ∷ (codes "code", text code) ∷ (codes "name", text name) ∷ []

abbrev stored : Text → Text → Text → Stored
stored auth code name = record { table = ellipsoid; row = row auth code name }

-- A code that is stored as a number.
abbrev pub stored_as : Affinity
stored_as column v =
    if column == codes "code" && str v == codes "07030" then number 7030 (codes "7030") else v

abbrev pub base : Base
base = record {
  has_object = λ table auth code. table == ellipsoid && auth == codes "EPSG";
  constraints = record {
    stored_as = stored_as;
    admits = λ table new rows. true;
    conflicts = λ table new old. key_of_row new old;
  };
  casefold = λ t. t;
}

abbrev pub unsorted : Text → List Row → List Row
unsorted column rows = rows

abbrev pub before : Objects
before = record {
  overwrite_rows = true;
  authorities = codes "X" ∷ [];
  rows =
      stored (codes "EPSG") (codes "7030") (codes "W")
      ∷ stored (codes "X") (codes "1") (codes "A")
      ∷ [];
  inserted = [];
  replaced = [];
  unchanged = 0;
  dependents = [];
}

abbrev report : Change
report = record {
  key = record { table = ellipsoid; auth_name = codes "X"; code = codes "1" };
  name = text (codes "B");
  previous_name = text (codes "A");
  changed = codes "name" ∷ [];
}

abbrev after : Objects
after = record before {
  rows =
      stored (codes "EPSG") (codes "7030") (codes "W")
      ∷ stored (codes "X") (codes "1") (codes "B")
      ∷ [];
  replaced = report ∷ [];
}

differ : (s t : Text) → (s == t) ≡ false → s ≢ t
differ s t h e = absurd (ground (arith, h, e))

pub epsg_row-IsProtected : IsProtected base ellipsoid (codes "EPSG") (codes "7030")
unfolding text_eq foreign_authority_allowed nat_eq
epsg_row-IsProtected = record {
  in_base = refl;
  guarded = refl;
  no_child = refl;
  named = differ (codes "EPSG") (codes "None") refl;
  coded = differ (codes "7030") (codes "None") refl;
  number = differ (codes "7030") (codes "None") refl;
  keyed = λ new old. refl;
}

abbrev pub given : Row
given = row (codes "X") (codes "1") (codes "B")

abbrev pub earlier : Row
earlier = row (codes "X") (codes "1") (codes "A")

abbrev pub counted : Objects
counted = record after { inserted = (ellipsoid, 1) ∷ [] }

pub inserted_it : insert base unsorted ellipsoid (given ∷ []) before ≡ ok (counted, 1)
unfolding select text_eq has_key get Dict.lookup insert insert_rows table_columns
    foreign_authority_allowed nat_eq authority_column insert_row replace update_row changed_columns
    same drop_dependents update Dict.insert dependents_of keyed_update set_columns guard_authorities
inserted_it = refl

inserted_row : insert_row base unsorted ellipsoid ellipsoid_columns given before ≡ ok after
unfolding select text_eq has_key get Dict.lookup insert insert_rows table_columns
    foreign_authority_allowed nat_eq authority_column insert_row replace update_row changed_columns
    same drop_dependents update Dict.insert dependents_of keyed_update set_columns guard_authorities
inserted_row = refl

is_update : keyed_update base unsorted ellipsoid given before ≡ true
unfolding keyed_update text_eq nat_eq foreign_authority_allowed Dict.lookup
is_update = refl

pub there :
    select stored_as ellipsoid (codes "EPSG") (codes "7030") before.rows
    ≡ row (codes "EPSG") (codes "7030") (codes "W") ∷ []
unfolding select text_eq nat_eq has_key get Dict.lookup
there = refl

there_too : select stored_as ellipsoid (codes "X") (codes "1") before.rows ≡ earlier ∷ []
unfolding select text_eq nat_eq has_key get Dict.lookup
there_too = refl

has_name : contains ellipsoid_columns (codes "name") ≡ true
unfolding text_eq nat_eq
has_name = refl

not_of_key : contains (codes "auth_name" ∷ codes "code" ∷ []) (codes "name") ≡ false
unfolding text_eq nat_eq
not_of_key = refl

differs : same (get (codes "name") earlier) (get (codes "name") given) ≡ false
unfolding same text_eq nat_eq get Dict.lookup
differs = refl

pub given-IsApart : IsApart stored_as (codes "EPSG") (codes "7030") given
unfolding text_eq nat_eq get Dict.lookup
given-IsApart = record { owner = λ e. e; code = λ e. e; found = λ e. e }

insert_protects_example :
    select stored_as ellipsoid (codes "EPSG") (codes "7030") counted.rows
    ≡ row (codes "EPSG") (codes "7030") (codes "W") ∷ []
insert_protects_example =
    insert_protects base unsorted ellipsoid (codes "EPSG") (codes "7030") ellipsoid (given ∷ [])
      (row (codes "EPSG") (codes "7030") (codes "W")) before {out = (counted, 1)}
      epsg_row-IsProtected (λ same. (given-IsApart, tt)) there inserted_it

insert_row_states_example :
    (r : Row) × (select stored_as ellipsoid (codes "X") (codes "1") after.rows ≡ r ∷ [])
    × ((get (codes "name") r ≡ get (codes "name") given)
        ⊎ ((get (codes "name") r ≡ get (codes "name") earlier)
            × AreAlike (get (codes "name") earlier) (get (codes "name") given)))
unfolding get Dict.lookup text_eq
insert_row_states_example =
    insert_row_states base unsorted ellipsoid ellipsoid_columns given earlier before (codes "name")
      {w' = after} is_update there_too has_name not_of_key inserted_row

not_axis : ellipsoid ≢ codes "axis"
not_axis h = cc

insert_row_reports_example :
    (change : Change) × (after.replaced ≡ change ∷ [])
    × (change.key ≡ report.key)
    × (contains change.changed (codes "name") ≡ true)
unfolding get Dict.lookup text_eq
insert_row_reports_example =
    insert_row_reports base unsorted ellipsoid ellipsoid_columns given earlier before (codes "name")
      {w' = after} is_update there_too not_axis has_name not_of_key differs inserted_row

-- A coordinate system that had an axis before the build and has none after it.
abbrev cartesian : ObjectKey
cartesian = record { table = codes "coordinate_system"; auth_name = codes "X"; code = codes "5" }

abbrev bereft : Objects
bereft = record after { dependents = (cartesian, (text (codes "E") ∷ []) ∷ []) ∷ [] }

is_listed-overrides_example : is_listed cartesian (overrides unsorted base bereft).objects ≡ true
unfolding dependents_of text_eq nat_eq dependent_rows children object_key_eq
is_listed-overrides_example = is_listed-overrides unsorted base cartesian bereft
