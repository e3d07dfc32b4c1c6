-- ===== src/Tests/Staging.antt =====
-- Rows that wait for the end of a catalogue, and its persistableReferences.
use geodetic_engine.Base.{
  ◌≡◌, refl, true, false, some, List, [], ◌∷◌, ◌==◌, Text, text_eq, nat_eq, texts_eq, text_pair_eq,
  codes, ok,
}
use geodetic_engine.Base.Dict
use geodetic_engine.Base.Dict.{Dict}
use geodetic_engine.ProjDb.Rows.{
  Row, get, object_key_eq, Objects, select, has_key, changed_columns, same, update, dependents_of,
  set_columns,
}
use geodetic_engine.ProjDb.Columns.{table_columns, foreign_authority_allowed, authority_column}
use geodetic_engine.ProjDb.Objects.{
  insert, insert_row, replace, update_row, drop_dependents, keyed_update,
}
use geodetic_engine.ProjDb.Refreshing.{existing_keys}
use geodetic_engine.OsduDb.Staging.{
  Staging, Config, steps, row_key, item, staged_row, known, known_keys, record_object, record_row,
  stage_row, stage, require_reference, should_import, pending, write_staged,
}
use geodetic_engine.OsduDb.Staging.Spec.{or_else, first_stated, staged_row-stage}
use geodetic_engine.OsduDb.Staging.Recorded.{IsRecorded, stage-require_reference}
use geodetic_engine.OsduDb.Staging.Written.{write_staged_protects}
use geodetic_engine.Tests.Objects.{
  ellipsoid, row, stored_as, base, before, unsorted, epsg_row-IsProtected, there, given,
  given-IsApart, earlier, counted,
}

abbrev nothing_staged : Staging
nothing_staged = record { rows = []; existing = []; imported_keys = []; processed = [] }

-- The second row has the key of the first.
abbrev rows : List (Text × Row)
rows = (ellipsoid, given) ∷ (ellipsoid, earlier) ∷ []

abbrev key : List Text
key = codes "X" ∷ codes "1" ∷ []

abbrev pub staged : Staging
staged = record {
  rows = (ellipsoid, (key, given) ∷ []) ∷ [];
  existing =
      (
        ellipsoid,
        (codes "X", codes "1") ∷ (codes "EPSG", codes "7030") ∷ (codes "X", codes "1") ∷ [],
      )
      ∷ [];
  imported_keys = record { table = ellipsoid; auth_name = codes "X"; code = codes "1" } ∷ [];
  processed = record { table = ellipsoid; auth_name = codes "X"; code = codes "1" } ∷ [];
}

staged_rows : stage before rows nothing_staged ≡ ok staged
unfolding stage row_key item text_eq nat_eq Dict.lookup stage_row staged_row texts_eq record_row
    record_object known existing_keys get Dict.insert
staged_rows = refl

staged_row-stage_example :
    staged_row ellipsoid key staged
    ≡ or_else (staged_row ellipsoid key nothing_staged) (first_stated ellipsoid key rows)
staged_row-stage_example = staged_row-stage before ellipsoid key rows nothing_staged staged_rows

nothing_staged-IsRecorded : IsRecorded before nothing_staged
unfolding staged_row Dict.lookup
nothing_staged-IsRecorded = record {
  taken = λ table auth code q h e. absurd (cc e);
  there = λ table auth code q h e. absurd (cc e);
}

waits : staged_row ellipsoid key staged ≡ some given
unfolding staged_row text_eq nat_eq texts_eq Dict.lookup
waits = refl

abbrev pub config : Config
config = record { authorities = codes "X" ∷ []; overwrite_rows = true; casefold = λ t. t }

not_step : (ellipsoid == steps) ≡ false
unfolding text_eq nat_eq
not_step = refl

stage-require_reference_example :
    (require_reference before ellipsoid (some (codes "X")) (some (codes "1")) staged
      ≡ ok ((codes "X", codes "1"), known_keys before ellipsoid staged))
    × (should_import before config base ellipsoid (codes "X") (some (codes "1")) staged
        ≡ (false, staged))
stage-require_reference_example =
    stage-require_reference before config base rows nothing_staged ellipsoid (codes "X") (codes "1")
      given nothing_staged-IsRecorded staged_rows not_step refl waits

abbrev written : Objects
written = record counted { inserted = (ellipsoid, 1) ∷ [] }

wrote : write_staged base unsorted staged before ≡ ok written
unfolding write_staged pending select text_eq has_key get Dict.lookup insert table_columns
    foreign_authority_allowed nat_eq authority_column insert_row replace update_row changed_columns
    same drop_dependents update Dict.insert dependents_of keyed_update set_columns
wrote = refl

write_staged_protects_holds :
    select stored_as ellipsoid (codes "EPSG") (codes "7030") written.rows
    ≡ row (codes "EPSG") (codes "7030") (codes "W") ∷ []
unfolding pending text_eq nat_eq Dict.lookup
write_staged_protects_holds =
    write_staged_protects base unsorted ellipsoid (codes "EPSG") (codes "7030") staged _ before
      {w' = written} epsg_row-IsProtected (given-IsApart, tt) there wrote
