-- ===== src/OsduDb/Staging.antt =====
-- The staging area of a build from a catalogue (geodetic_engine/osdudb/context.py): rows wait, by
-- their key, until every record is read, and are written in the order of the foreign keys.
pub mod Spec
pub mod Recorded
pub mod Written
use geodetic_engine.Base.{
  ℕ, Bool, true, false, not, ◌&&◌, ◌||◌, Option, none, some, List, [], ◌∷◌, ◌++◌, map, ◌==◌,
  contains, Text, text_eq, texts_eq, text_pair_eq, codes, if◌then◌else◌, Result, ok, err, ◌>>=◌, Eq,
}
use geodetic_engine.Base.Dict
use geodetic_engine.Base.Dict.{Dict}
use geodetic_engine.Base.Texts.{is_empty}
use geodetic_engine.ProjDb.Columns.{words}
use geodetic_engine.ProjDb.Rows.{
  Value, str, Row, get, has, ObjectKey, object_key_eq, Objects, Base, InsertError,
}
use geodetic_engine.ProjDb.Objects.{insert}
use geodetic_engine.ProjDb.Refreshing.{existing_keys}

-- `WRITE_ORDER`
unfoldable pub write_order : List Text
write_order =
    words "unit_of_measure ellipsoid prime_meridian coordinate_system axis geodetic_datum"
    ++ words "vertical_datum engineering_datum conversion_param conversion_table geodetic_crs"
    ++ words "vertical_crs engineering_crs projected_crs compound_crs helmert_transformation_table"
    ++ words "grid_transformation other_transformation concatenated_operation"
    ++ words "concatenated_operation_step"

abbrev pub steps : Text
steps = codes "concatenated_operation_step"

-- What stops the reading of a record: a reference to nothing, a reference to an object that is not
-- there, one that may not be written, one with no identity, and a row without a column of its key.
pub data StagingError : Type 0 where
  no_reference missing_reference not_writable unidentified key_error : StagingError

-- The configuration of a build, with `str.casefold`.
pub record Config : Type 0 where
  pub authorities : List Text
  pub overwrite_rows : Bool
  pub casefold : Text → Text

-- What a build keeps: the rows that wait, by table and key, the keys that a table is known to have,
-- read once from the database, and the objects that the build has taken in.
pub record Staging : Type 0 where
  pub rows : Dict Text (Dict (List Text) Row)
  pub existing : Dict Text (List (Text × Text))
  pub imported_keys : List ObjectKey
  pub processed : List ObjectKey

abbrev pub or_empty {ℓ} : {A : Type ℓ} → Option (List A) → List A
or_empty none = []
or_empty (some xs) = xs

-- `row[column]`, as a text
unfoldable pub item : Text → Row → Result StagingError Text
item column row = if has column row then ok (str (get column row)) else err key_error

step_key : Row → Result StagingError (List Text)
step_key row = do
  operation_auth ← item (codes "operation_auth_name") row
  operation ← item (codes "operation_code") row
  step ← item (codes "step_number") row
  ok (operation_auth ∷ operation ∷ step ∷ [])

own_key : Row → Result StagingError (List Text)
own_key row = do
  auth ← item (codes "auth_name") row
  code ← item (codes "code") row
  ok (auth ∷ code ∷ [])

-- `_row_key`
unfoldable pub row_key : Text → Row → Result StagingError (List Text)
unfolding step_key own_key
row_key table row = if table == steps then step_key row else own_key row

-- `pending`
unfoldable pub pending : Text → Staging → List Row
pending table s = map (λ entry. entry.1) (or_empty (Dict.lookup table s.rows))

-- The row that waits under a key.
unfoldable pub staged_row : Text → List Text → Staging → Option Row
staged_row table key s = Dict.lookup key (or_empty (Dict.lookup table s.rows))

module _ (writer : Objects) where
  -- The keys of `known_keys`, and the state after the call.
  unfoldable pub known : Text → Staging → List (Text × Text)
  known table s = elim (Dict.lookup table s.existing) [
    | none ↦ existing_keys table writer.rows
    | some keys ↦ keys
  ]

  -- `known_keys`
  unfoldable pub known_keys : Text → Staging → Staging
  known_keys table s = record s { existing = Dict.insert table (known table s) s.existing }

  -- `is_new`, with the state after the call
  unfoldable pub is_new : Text → Option Text → Option Text → Staging → Bool × Staging
  is_new table none code s = (false, s)
  is_new table (some auth) none s = (false, s)
  is_new table (some auth) (some code) s =
      if is_empty auth
      then (false, s)
      else (not (contains (known table s) (auth, code)), known_keys table s)

  -- `record`
  unfoldable pub record_object : Text → Text → Text → Staging → Staging
  record_object table auth code s =
      let key : ObjectKey = record { table = table; auth_name = auth; code = code } in
      record s {
        imported_keys = s.imported_keys ++ (key ∷ []);
        processed = key ∷ s.processed;
        existing = Dict.insert table ((auth, code) ∷ known table s) s.existing;
      }

  -- The registration of a row, by its key, which is the object's.
  unfoldable pub record_row : Text → List Text → Staging → Staging
  record_row table (auth ∷ code ∷ []) s =
      if table == steps then s else record_object table auth code s
  record_row table _ s = s

  abbrev pub add_row : Text → List Text → Row → Staging → Staging
  add_row table key row s = record s {
    rows = Dict.insert table (Dict.insert key row (or_empty (Dict.lookup table s.rows))) s.rows;
  }

  -- One iteration of the loop of `stage`.
  unfoldable pub stage_row : Text → List Text → Row → Staging → Staging
  stage_row table key row s = elim (staged_row table key s) [
    | some earlier ↦ s
    | none ↦ record_row table key (add_row table key row s)
  ]

  -- `stage`
  unfoldable pub stage : List (Text × Row) → Staging → Result StagingError Staging
  stage [] s = ok s
  stage ((table, row) ∷ staged) s =
      row_key table row >>= λ key. stage staged (stage_row table key row s)

  -- `require_reference`, with the state after the call
  unfoldable pub require_reference :
      Text → Option Text → Option Text → Staging → Result StagingError ((Text × Text) × Staging)
  require_reference table none code s = err no_reference
  require_reference table (some auth) none s = err no_reference
  require_reference table (some auth) (some code) s =
      if is_empty auth
      then err no_reference
      else if (is_new table (some auth) (some code) s).0
      then err missing_reference
      else ok ((auth, code), (is_new table (some auth) (some code) s).1)

  module _ (config : Config) (base : Base) where
    -- `should_import`, with the state after the call
    unfoldable pub should_import : Text → Text → Option Text → Staging → Bool × Staging
    should_import table auth none s = (false, s)
    should_import table auth (some code) s =
        if contains s.processed (record { table = table; auth_name = auth; code = code })
        then (false, s)
        else let (new, s') = is_new table (some auth) (some code) s in
          (new || (config.overwrite_rows && not (base.has_object table auth code)), s')

    -- `require_writable`
    unfoldable pub is_writable : Text → Bool
    is_writable auth = contains (map config.casefold config.authorities) (config.casefold auth)

    -- `new_dependency`, of an authority and a code or of nothing
    unfoldable pub new_dependency :
        Text → Option (Text × Option Text) → Staging → Result StagingError (Bool × Staging)
    new_dependency table none s = err unidentified
    new_dependency table (some (auth, code)) s =
        let (wanted, s') = should_import table auth code s in
        if not wanted
        then ok (false, s')
        else if is_writable auth
        then ok (true, s')
        else err not_writable

-- `write_staged`: each table's rows in the order given
unfoldable pub write_tables :
    Base → (Text → List Row → List Row) → List Text → Staging → Objects → Result InsertError Objects
write_tables base sort_by [] s w = ok w
write_tables base sort_by (table ∷ tables) s w = do
  written ←
      (if is_empty (pending table s)
        then ok w
        else insert base sort_by table (pending table s) w >>= λ out. ok out.0)
  write_tables base sort_by tables s written

unfoldable pub write_staged :
    Base → (Text → List Row → List Row) → Staging → Objects → Result InsertError Objects
unfolding write_order write_tables
write_staged base sort_by s w = write_tables base sort_by write_order s w
