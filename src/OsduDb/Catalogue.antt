-- ===== src/OsduDb/Catalogue.antt =====
-- The records of a catalogue, the state of a build that the recording of ids reads
-- (geodetic_engine/osdudb/catalog.py, geodetic_engine/osdudb/context.py), and the questions that
-- geodetic_engine/osdudb/identifier.py asks of them.
use geodetic_engine.Base.{
  Bool, false, not, ◌&&◌, Option, none, some, List, [], ◌∷◌, ◌++◌, map, ◌==◌, contains, Text,
  text_eq, Text-discrete, codes, Eq, if◌then◌else◌,
}
use geodetic_engine.Base.Texts.{is_empty, or_blank}

-- The member of a record's data that a persistableReference is published under: missing, null, a
-- text, or a value of another JSON type.
pub data Field : Type 0 where
  no_field null_field : Field
  text_field other_field : Text → Field

pub record Record : Type 0 where
  pub auth_name : Text
  pub code : Text
  pub kind : Text
  pub is_operation : Bool
  pub name : Text
  pub inactive : Bool
  pub osdu_id : Option Text
  pub reference : Field

-- The authority and the code of an object.
pub record ObjectName : Type 0 where
  pub auth_name : Text
  pub code : Text

ObjectName-discrete : Discrete ObjectName
unfolding Text-discrete
ObjectName-discrete = hlevel Text-discrete

instance unfoldable pub object_name_eq : Eq ObjectName
unfolding ObjectName-discrete
object_name_eq = record { dec = ObjectName-discrete }

abbrev pub object_name : Record → ObjectName
object_name r = record { auth_name = r.auth_name; code = r.code }

-- An object that the build left out, and why.
pub record Skipped : Type 0 where
  pub object : ObjectName
  pub reason : Text

-- `known` says which keys a table has, in the database or staged for it, and `stored` reads the
-- name and the flag of an object in its table.
pub record Context : Type 0 where
  pub records : List Record
  pub authorities : List Text
  pub include_deprecated : Bool
  pub osdu_id_aliases : Bool
  pub osdu_persistable_references : Bool
  pub overwrite_rows : Bool
  pub file_name : Text
  pub catalog_version : Option Text
  pub casefold : Text → Text
  pub known : Text → ObjectName → Bool
  pub stored : Text → ObjectName → Option (Text × Bool)
  pub skipped : List Skipped

unfoldable pub is_new : Context → Text → ObjectName → Bool
is_new ctx table o = if is_empty o.auth_name then false else not (ctx.known table o)

-- `_CRS_TABLES`, which has no tables for a type that it does not list.
unfoldable pub crs_tables : Text → List Text
crs_tables kind =
    if kind == codes "GeodeticCRS"
    then codes "geodetic_crs" ∷ []
    else if kind == codes "ProjectedCRS"
    then codes "projected_crs" ∷ []
    else if kind == codes "VerticalCRS"
    then codes "vertical_crs" ∷ []
    else if kind == codes "CompoundCRS"
    then codes "compound_crs" ∷ []
    else if kind == codes "EngineeringCRS"
    then codes "engineering_crs" ∷ []
    else if kind == codes "BoundCRS"
    then codes "geodetic_crs" ∷ codes "projected_crs" ∷ []
    else []

abbrev pub operation_tables : List Text
operation_tables =
    codes "helmert_transformation_table"
    ∷ codes "grid_transformation"
    ∷ codes "other_transformation"
    ∷ codes "concatenated_operation"
    ∷ []

-- `OBJECT_TABLE_NAME` on the tables above, each of which it lists.
unfoldable pub object_table_name : Text → Text
object_table_name table =
    if table == codes "helmert_transformation_table" then codes "helmert_transformation" else table

unfoldable pub first_holding : Context → ObjectName → List Text → Option Text
first_holding ctx o [] = none
first_holding ctx o (table ∷ tables) =
    let rest = first_holding ctx o tables in if not (is_new ctx table o) then some table else rest

-- `_table`
unfoldable pub table_of : Context → Record → Option Text
unfolding crs_tables
table_of ctx r =
    first_holding ctx (object_name r)
      (if r.is_operation then operation_tables else crs_tables r.kind)

-- Why an id is recorded for nothing.
pub data Reason : Type 0 where
  no_id no_such_kind not_imported foreign_authority : Reason
  left_out : Text → Reason
  more_than_one : List ObjectName → Reason

-- The reasons as a dictionary, in which a later entry of a key replaces an earlier one.
unfoldable pub skipped_reason : ObjectName → List Skipped → Option Text
skipped_reason o [] = none
skipped_reason o (s ∷ rest) = elim (skipped_reason o rest) [
  | some reason ↦ some reason
  | none ↦ if o == s.object then some s.reason else none
]

-- `_missing`
unfoldable pub missing : Context → Record → Reason
missing ctx r = elim (skipped_reason (object_name r) ctx.skipped) [
  | some reason ↦ left_out reason
  | none ↦
      if not (contains (map ctx.casefold ctx.authorities) (ctx.casefold r.auth_name))
      then foreign_authority
      else if is_empty (crs_tables r.kind) && not r.is_operation
      then no_such_kind
      else not_imported
]

-- `_entry`
pub record Unmapped : Type 0 where
  pub identifier : Text
  pub object : ObjectName
  pub name : Text
  pub reason : Reason

abbrev pub entry : Record → Reason → Unmapped
entry r reason = record {
  identifier = or_blank r.osdu_id;
  object = object_name r;
  name = r.name;
  reason = reason;
}

-- Where the catalogue and the database disagree about an object.
pub data Warning : Type 0 where
  renamed : Text → Text → Text → Warning
  deprecated_here : Text → Warning

-- `_drift`
unfoldable pub drift : Context → Record → Text → List Warning
drift ctx r table = elim (ctx.stored table (object_name r)) [
  | none ↦ []
  | some (name, deprecated) ↦
      (if not (r.name == codes "unknown") && not (name == r.name)
        then renamed (or_blank r.osdu_id) name r.name ∷ []
        else [])
      ++ (if deprecated && not r.inactive then deprecated_here (or_blank r.osdu_id) ∷ [] else [])
]

-- `catalogue_source`
unfoldable pub catalogue_source : Context → Text
catalogue_source ctx = elim ctx.catalog_version [
  | none ↦ ctx.file_name
  | some version ↦
      if is_empty version
      then ctx.file_name
      else ctx.file_name ++ (codes " (" ++ (version ++ codes ")"))
]
