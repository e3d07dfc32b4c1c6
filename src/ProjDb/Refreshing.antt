-- ===== src/ProjDb/Refreshing.antt =====
-- The statements of `ProjDbWriter` that refresh annotations (`existing_keys`, `clear_annotations` and
-- `upsert_authority_preferences` of geodetic_engine/projdb/writer.py).
pub mod Kept
use geodetic_engine.Base.{
  ℕ, ◌+◌, Bool, true, false, not, ◌&&◌, ◌||◌, Option, none, some, List, [], ◌∷◌, ◌++◌, ◌==◌,
  contains, Text, text_eq, codes, if◌then◌else◌, length, Result, ok, err, ◌>>=◌,
}
use geodetic_engine.Base.Dict
use geodetic_engine.ProjDb.Objects.{insert_statement, or_zero}
use geodetic_engine.ProjDb.Columns.{words, authority_to_authority_preference_columns}
use geodetic_engine.ProjDb.Rows.{
  Affinity, written_as, str, get, Row, bound, Stored, ObjectKey, Objects, Base, Constraints,
  InsertError, constraint,
}

-- `existing_keys`
unfoldable pub existing_keys : Text → List Stored → List (Text × Text)
existing_keys table [] = []
existing_keys table (s ∷ rows) =
    let rest = existing_keys table rows in
    if s.table == table
    then (str (get (codes "auth_name") s.row), str (get (codes "code") s.row)) ∷ rest
    else rest

-- `DELETE FROM table WHERE …`
unfoldable pub delete_where : Text → (Row → Bool) → List Stored → List Stored
delete_where table test [] = []
delete_where table test (s ∷ rows) =
    let rest = delete_where table test rows in
    if s.table == table && test s.row then rest else s ∷ rest

abbrev pub holds : Row → Text → Text → Bool
holds row column value = str (get column row) == value

-- A column of codes is compared with a text by its affinity.
abbrev pub holds_code : Affinity → Row → Text → Text → Bool
holds_code stored_as row column value = str (get column row) == written_as stored_as column value

-- A usage of the object, by an authority of this build.
abbrev pub owned_usage : Affinity → Text → ObjectKey → List Text → Row → Bool
owned_usage stored_as object_table key owners row =
    holds row (codes "object_table_name") object_table
    && holds row (codes "object_auth_name") key.auth_name
    && holds_code stored_as row (codes "object_code") key.code
    && contains owners (str (get (codes "auth_name") row))

-- The record that an object is superseded.
abbrev pub superseded : Affinity → Text → ObjectKey → Row → Bool
superseded stored_as object_table key row =
    holds row (codes "superseded_table_name") object_table
    && holds row (codes "superseded_auth_name") key.auth_name
    && holds_code stored_as row (codes "superseded_code") key.code

-- An alias of the object in a naming system, or in any for `*`.
abbrev pub alias_of : Affinity → (Text → Text) → Text → ObjectKey → Text → Row → Bool
alias_of stored_as lower object_table key source row =
    holds row (codes "table_name") object_table
    && holds row (codes "auth_name") key.auth_name
    && holds_code stored_as row (codes "code") key.code
    && (lower (str (get (codes "source") row)) == lower source || source == codes "*")

unfoldable pub delete_aliases :
    Affinity → (Text → Text) → Text → ObjectKey → List Text → List Stored → List Stored
delete_aliases stored_as lower object_table key [] rows = rows
delete_aliases stored_as lower object_table key (source ∷ sources) rows =
    delete_aliases stored_as lower object_table key sources
      (delete_where (codes "alias_name") (alias_of stored_as lower object_table key source) rows)

-- `OBJECT_TABLE_NAME`, for each table that it lists
unfoldable pub object_table : Text → Option Text
object_table table =
    if contains
      (words "unit_of_measure celestial_body ellipsoid extent prime_meridian geodetic_crs"
        ++ words "projected_crs vertical_crs engineering_crs compound_crs geodetic_datum"
        ++ words "vertical_datum engineering_datum grid_transformation other_transformation"
        ++ words "concatenated_operation")
      table
    then some table
    else if table == codes "conversion_table"
    then some (codes "conversion")
    else if table == codes "helmert_transformation_table"
    then some (codes "helmert_transformation")
    else none

-- `clear_annotations`; `lower` is SQL's
unfoldable pub clear_annotations : Base → (Text → Text) → ObjectKey → List Text → Objects → Objects
unfolding delete_aliases
clear_annotations base lower key naming_systems w =
    if not w.overwrite_rows then w else elim (object_table key.table) [
      | none ↦ w
      | some name ↦ if base.has_object key.table key.auth_name key.code then w else record w {
        rows = delete_aliases base.constraints.stored_as lower name key naming_systems (
            delete_where (codes "supersession") (superseded base.constraints.stored_as name key) (
              delete_where (codes "usage")
                (owned_usage base.constraints.stored_as name key w.authorities) w.rows));
      }
    ]

-- `upsert_authority_preferences`
unfoldable pub upsert_rows :
    Constraints → Text → List Text → List Row → List Stored → Result InsertError (List Stored)
upsert_rows cs table columns [] rows = ok rows
upsert_rows cs table columns (row ∷ given) rows =
    insert_statement cs true table (bound cs.stored_as columns row) rows >>= λ after.
    upsert_rows cs table columns given after

abbrev pub preference_table : Text
preference_table = codes "authority_to_authority_preference"

unfoldable pub upsert_authority_preferences :
    Base → List Row → Objects → Result InsertError (Objects × ℕ)
unfolding upsert_rows
upsert_authority_preferences base [] w = ok (w, 0)
upsert_authority_preferences base (row ∷ given) w =
    upsert_rows base.constraints preference_table authority_to_authority_preference_columns
      (row ∷ given) w.rows
    >>= λ rows. ok (
      record w {
        rows = rows;
        inserted =
            Dict.insert preference_table
              (or_zero (Dict.lookup preference_table w.inserted) + length (row ∷ given)) w.inserted;
      },
      length (row ∷ given),
    )
