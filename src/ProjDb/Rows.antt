-- ===== src/ProjDb/Rows.antt =====
-- Rows of the tables of a proj.db and the statements over them by which `ProjDbWriter` writes objects
-- (geodetic_engine/projdb/writer.py), with the state that it keeps of them.
use geodetic_engine.Base.{
  ℕ, Bool, true, false, not, ◌&&◌, ◌||◌, Option, none, some, List, [], ◌∷◌, ◌==◌, contains, Text,
  text_eq, nat_eq, Eq, Text-discrete, codes, if◌then◌else◌,
}
use geodetic_engine.Base.Dict
use geodetic_engine.Base.Dict.{Dict}

-- A value of SQLite: a number is given by what it is and by how `str` writes it.
pub data Value : Type 0 where
  null : Value
  number : ℕ → Text → Value
  text : Text → Value

-- `str(value)`
abbrev pub str : Value → Text
str null = codes "None"
str (number n shown) = shown
str (text t) = t

-- `stored == stated`
abbrev pub same_value : Value → Value → Bool
same_value null null = true
same_value (number m s) (number n t) = m == n
same_value (text s) (text t) = s == t
same_value _ _ = false

abbrev pub is_null : Value → Bool
is_null null = true
is_null (number n t) = false
is_null (text t) = false

-- `_same`
unfoldable pub same : Value → Value → Bool
same stored stated =
    same_value stored stated
    || (not (is_null stored) && not (is_null stated) && str stored == str stated)

-- A row, as a mapping from columns.
abbrev pub Row : Type 0
Row = Dict Text Value

-- `row.get(column)`
abbrev pub or_null : Option Value → Value
or_null none = null
or_null (some v) = v

unfoldable pub get : Text → Row → Value
get column row = or_null (Dict.lookup column row)

abbrev pub has : Text → Row → Bool
has column row = elim (Dict.lookup column row) [ none ↦ false | some v ↦ true ]

-- What a column makes of a value that is stored in it or compared with it: its affinity. A code,
-- `INTEGER_OR_TEXT`, that is written like a number is one.
abbrev pub Affinity : Type 0
Affinity = Text → Value → Value

-- How a text that is compared with a column is written.
abbrev pub written_as : Affinity → Text → Text → Text
written_as stored_as column t = str (stored_as column (text t))

-- What a statement binds, as it is stored: every column of the table, absent ones as null.
unfoldable pub bound : Affinity → List Text → Row → Row
bound stored_as [] row = []
bound stored_as (column ∷ columns) row =
    (column, stored_as column (get column row)) ∷ bound stored_as columns row

pub record ObjectKey : Type 0 where
  pub table : Text
  pub auth_name : Text
  pub code : Text

ObjectKey-discrete : Discrete ObjectKey
unfolding Text-discrete
ObjectKey-discrete = hlevel Text-discrete

instance unfoldable pub object_key_eq : Eq ObjectKey
unfolding ObjectKey-discrete
object_key_eq = record { dec = ObjectKey-discrete }

-- A row of a table.
pub record Stored : Type 0 where
  pub table : Text
  pub row : Row

unfoldable pub has_key : Affinity → Text → Text → Row → Bool
has_key stored_as auth code row =
    str (get (codes "auth_name") row) == auth
    && str (get (codes "code") row) == written_as stored_as (codes "code") code

-- `SELECT … FROM table WHERE auth_name=? AND code=?`
unfoldable pub select : Affinity → Text → Text → Text → List Stored → List Row
select stored_as table auth code [] = []
select stored_as table auth code (s ∷ rows) =
    let rest = select stored_as table auth code rows in
    if s.table == table && has_key stored_as auth code s.row then s.row ∷ rest else rest

-- The tables: the affinities of the columns, whether a row may stand among others, and which rows it
-- would violate a key with.
pub record Constraints : Type 0 where
  pub stored_as : Affinity
  pub admits : Text → Row → List Stored → Bool
  pub conflicts : Text → Row → Row → Bool

pub data InsertError : Type 0 where
  unknown_table foreign_authority protected constraint : InsertError

-- A replaced object, as it is reported, with the columns that changed.
pub record Change : Type 0 where
  pub key : ObjectKey
  pub name : Value
  pub previous_name : Value
  pub changed : List Text

pub record Objects : Type 0 where
  pub overwrite_rows : Bool
  pub authorities : List Text
  pub rows : List Stored
  pub inserted : Dict Text ℕ
  pub replaced : List Change
  pub unchanged : ℕ
  pub dependents : List (ObjectKey × List (List Value))

-- What a build is given: the keys of the base database, the constraints, and `str.casefold`.
pub record Base : Type 0 where
  pub has_object : Text → Text → Text → Bool
  pub constraints : Constraints
  pub casefold : Text → Text

-- `_DEPENDENTS`: the child table, its columns that name the parent, and the one that orders it.
pub record Child : Type 0 where
  pub table : Text
  pub auth_column : Text
  pub code_column : Text
  pub order : Text

unfoldable pub dependents_of : Text → Option Child
dependents_of table =
    if table == codes "coordinate_system"
    then some (record {
      table = codes "axis";
      auth_column = codes "coordinate_system_auth_name";
      code_column = codes "coordinate_system_code";
      order = codes "coordinate_system_order";
    })
    else if table == codes "concatenated_operation"
    then some (record {
      table = codes "concatenated_operation_step";
      auth_column = codes "operation_auth_name";
      code_column = codes "operation_code";
      order = codes "step_number";
    })
    else none

abbrev pub is_child_row : Affinity → Child → Text → Text → Stored → Bool
is_child_row stored_as child auth code s =
    s.table == child.table
    && str (get child.auth_column s.row) == auth
    && str (get child.code_column s.row) == written_as stored_as child.code_column code

unfoldable pub delete_children : Affinity → Child → Text → Text → List Stored → List Stored
delete_children stored_as child auth code [] = []
delete_children stored_as child auth code (s ∷ rows) =
    let rest = delete_children stored_as child auth code rows in
    if is_child_row stored_as child auth code s then rest else s ∷ rest

-- The rows of a child table for a parent, ordered by a parameter that reads the order's column.
unfoldable pub children : Affinity → Child → Text → Text → List Stored → List Row
children stored_as child auth code [] = []
children stored_as child auth code (s ∷ rows) =
    let rest = children stored_as child auth code rows in
    if is_child_row stored_as child auth code s then s.row ∷ rest else rest

-- The columns in which a row states another value than the stored one.
unfoldable pub changed_columns : List Text → Row → Row → List Text
changed_columns [] before row = []
changed_columns (column ∷ columns) before row =
    let rest = changed_columns columns before row in
    if not (contains (codes "auth_name" ∷ codes "code" ∷ []) column)
      && not (same (get column before) (get column row))
    then column ∷ rest
    else rest

-- `SET` of each of some columns
unfoldable pub set_columns : Affinity → List Text → Row → Row → Row
set_columns stored_as [] row before = before
set_columns stored_as (column ∷ columns) row before =
    Dict.insert column (stored_as column (get column row))
      (set_columns stored_as columns row before)

-- `UPDATE table SET … WHERE auth_name=? AND code=?`
unfoldable pub update : Affinity → Text → Text → Text → List Text → Row → List Stored → List Stored
update stored_as table auth code columns row [] = []
update stored_as table auth code columns row (s ∷ rows) =
    let rest = update stored_as table auth code columns row rows in
    if s.table == table && has_key stored_as auth code s.row
    then record s { row = set_columns stored_as columns row s.row } ∷ rest
    else s ∷ rest
