-- ===== src/Tests/Writing.antt =====
-- The annotations of an object, and the writing of a small build.
use geodetic_engine.Base.{
  ◌≡◌, refl, Bool, true, false, Option, none, some, [], ◌∷◌, contains, Text, text_eq, nat_eq,
  texts_eq, text_pair_eq, codes, Result, ok, err, arith,
}
use geodetic_engine.Base.Dict
use geodetic_engine.Base.Texts.{strip, lstrip, rstrip}
use geodetic_engine.ProjDb.Columns.{table_columns, foreign_authority_allowed, authority_column}
use geodetic_engine.ProjDb.Rows.{
  get, Objects, select, has_key, bound, changed_columns, same, update, dependents_of, set_columns,
}
use geodetic_engine.ProjDb.Objects.{
  insert, insert_row, replace, update_row, drop_dependents, keyed_update, insert_new,
  insert_statement, without_conflicts,
}
use geodetic_engine.ProjDb.Refreshing.{object_table, upsert_authority_preferences}
use geodetic_engine.ProjDb.Usages
use geodetic_engine.ProjDb.Usages.Invariant.{IsAccounted}
use geodetic_engine.ProjDb.Aliases
use geodetic_engine.ProjDb.Aliases.{is_aliasable, is_wanted, identity_eq}
use geodetic_engine.ProjDb.Aliases.Kept.{AreAdmissible}
use geodetic_engine.ProjDb.Preferences.{
  PreferenceSettings, no_preference, builtin_rows, preference_rows, place_text,
}
use geodetic_engine.OsduDb.Catalogue.{Record, no_field}
use geodetic_engine.OsduDb.Staging.{pending, write_staged}
use geodetic_engine.OsduDb.Annotating.{Data, Annotations, add_usages, add_aliases, annotate}
use geodetic_engine.OsduDb.Annotating.Gathered.{annotate_keeps}
use geodetic_engine.OsduDb.Writing.{
  WritingError, all_own, select_new, read_builtin, write_collected, write_annotations,
  write_authority_preferences, write_build,
}
use geodetic_engine.OsduDb.Writing.Untouched.{write_build_protects}
use geodetic_engine.Tests.Objects.{
  ellipsoid, row, stored_as, base, before, unsorted, epsg_row-IsProtected, there, given-IsApart,
}
use geodetic_engine.Tests.Staging.{staged, config}
use geodetic_engine.Tests.Records.{
  key, no_usages, no_usages-IsAccounted, no_aliases, no_aliases-AreAdmissible, is_blank, settings,
}

abbrev record_of_key : Record
record_of_key = record {
  auth_name = codes "X";
  code = codes "1";
  kind = codes "Ellipsoid";
  is_operation = false;
  name = codes "A";
  inactive = true;
  osdu_id = none;
  reference = no_field;
}

-- One usage without an extent, and one alias.
abbrev data_of : Data
data_of = record {
  usages = λ r. ((λ k. none), (λ k. none)) ∷ [];
  aliases = λ r. (codes "ab", codes "X") ∷ [];
}

abbrev as_is : Text → Text
as_is t = t

abbrev bare : Annotations
bare = record { writer = before; deprecated_keys = []; usage = no_usages; alias = no_aliases }

abbrev or_bare : Option Annotations → Annotations
or_bare none = bare
or_bare (some a) = a

abbrev is_given : Option Annotations → Bool
is_given none = false
is_given (some a) = true

or_bare-is_given : (o : Option Annotations) → is_given o ≡ true → o ≡ some (or_bare o)
or_bare-is_given none h = absurd (ground (arith, h))
or_bare-is_given (some a) h = refl

abbrev annotated : Option Annotations
annotated = annotate is_blank as_is as_is base data_of (codes "X" ∷ []) key record_of_key bare

annotates : is_given annotated ≡ true
unfolding annotate add_usages Usages.add object_table text_eq nat_eq add_aliases Aliases.add
    is_aliasable is_wanted strip lstrip rstrip
annotates = refl

not_annotation :
    contains (codes "usage" ∷ codes "supersession" ∷ codes "alias_name" ∷ []) ellipsoid ≡ false
unfolding text_eq nat_eq
not_annotation = refl

annotate_keeps_example :
    IsAccounted (or_bare annotated).usage
    × AreAdmissible is_blank as_is (or_bare annotated).alias
    × (select stored_as ellipsoid (codes "X") (codes "1") (or_bare annotated).writer.rows
        ≡ select stored_as ellipsoid (codes "X") (codes "1") before.rows)
annotate_keeps_example =
    annotate_keeps is_blank as_is as_is base data_of (codes "X" ∷ []) key record_of_key bare
      ellipsoid (codes "X") (codes "1") no_usages-IsAccounted no_aliases-AreAdmissible
      not_annotation (or_bare-is_given annotated annotates)

abbrev plain : PreferenceSettings
plain = record settings { authority_preference = no_preference }

abbrev outcome : Result WritingError Objects
outcome = write_build config base unsorted is_blank plain no_usages no_aliases staged before

abbrev or_before : Result WritingError Objects → Objects
or_before (ok w) = w
or_before (err e) = before

abbrev is_ok : Result WritingError Objects → Bool
is_ok (ok w) = true
is_ok (err e) = false

ok-or_before : (r : Result WritingError Objects) → is_ok r ≡ true → r ≡ ok (or_before r)
ok-or_before (ok w) h = refl
ok-or_before (err e) h = absurd (ground (arith, h))

writes : is_ok outcome ≡ true
unfolding write_build write_staged pending select text_eq has_key get Dict.lookup insert
    table_columns foreign_authority_allowed nat_eq authority_column insert_row replace update_row
    changed_columns same drop_dependents update Dict.insert dependents_of keyed_update set_columns
    insert_new insert_statement without_conflicts bound write_annotations write_collected
    write_authority_preferences select_new builtin_rows read_builtin preference_rows
    upsert_authority_preferences all_own place_text
writes = refl

write_build_protects_example :
    select stored_as ellipsoid (codes "EPSG") (codes "7030") (or_before outcome).rows
    ≡ row (codes "EPSG") (codes "7030") (codes "W") ∷ []
unfolding pending text_eq nat_eq Dict.lookup
write_build_protects_example =
    write_build_protects config base unsorted ellipsoid (codes "EPSG") (codes "7030")
      (row (codes "EPSG") (codes "7030") (codes "W")) epsg_row-IsProtected refl is_blank plain
      no_usages no_aliases staged before there (given-IsApart, tt) (ok-or_before outcome writes)
