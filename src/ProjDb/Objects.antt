-- ===== src/ProjDb/Objects.antt =====
-- The insertion of objects by `ProjDbWriter` (`insert`, `_replace`, `is_base_object`,
-- `_guard_authorities` and `_dependent_rows` of geodetic_engine/projdb/writer.py). The
-- constraints of the tables are PROJ's own and a parameter, `Constraints`.
pub mod Selecting
pub mod Protection
pub mod Replacing
use geodetic_engine.Base.{
  ℕ, ◌+◌, ◌-◌, Bool, true, false, not, ◌&&◌, ◌||◌, Option, none, some, List, [], ◌∷◌, ◌++◌, map,
  ◌==◌, contains, Text, text_eq, nat_eq, codes, if◌then◌else◌, length, Result, ok, err, ◌>>=◌,
  guard,
}
use geodetic_engine.Base.Dict
use geodetic_engine.Base.Dict.{Dict}
use geodetic_engine.Base.Texts.{is_empty}
use geodetic_engine.ProjDb.Columns.{table_columns, foreign_authority_allowed, authority_column}
use geodetic_engine.ProjDb.Rows.{
  Value, null, number, text, str, Row, get, has, bound, ObjectKey, Stored, select, Constraints,
  InsertError, unknown_table, foreign_authority, protected, constraint, Objects, Base, Child,
  dependents_of, delete_children, children, changed_columns, set_columns, update,
}

-- `INSERT OR REPLACE` first deletes the rows with which the new one conflicts.
unfoldable pub without_conflicts : Constraints → Text → Row → List Stored → List Stored
without_conflicts cs table row [] = []
without_conflicts cs table row (s ∷ rows) =
    let rest = without_conflicts cs table row rows in
    if s.table == table && cs.conflicts table row s.row then rest else s ∷ rest

unfoldable pub any_conflict : Constraints → Text → Row → List Stored → Bool
any_conflict cs table row [] = false
any_conflict cs table row (s ∷ rows) =
    (s.table == table && cs.conflicts table row s.row) || any_conflict cs table row rows

unfoldable pub insert_statement :
    Constraints → Bool → Text → Row → List Stored → Result InsertError (List Stored)
insert_statement cs replacing table row rows =
    if not (cs.admits table row rows)
    then err constraint
    else if replacing
    then ok (without_conflicts cs table row rows ++ (record { table = table; row = row } ∷ []))
    else if any_conflict cs table row rows
    then err constraint
    else ok (rows ++ (record { table = table; row = row } ∷ []))

abbrev pub key_in : Text → Row → ObjectKey
key_in table row = record {
  table = table;
  auth_name = str (get (codes "auth_name") row);
  code = str (get (codes "code") row);
}

abbrev pub same_key : ObjectKey → ObjectKey → Bool
same_key a b = a.table == b.table && a.auth_name == b.auth_name && a.code == b.code

abbrev pub known_key : ObjectKey → List (ObjectKey × List (List Value)) → Bool
known_key key [] = false
known_key key ((k, before) ∷ rest) = same_key key k || known_key key rest

-- The columns of a child row that are compared.
unfoldable pub compared_columns : Child → List Text → List Text
compared_columns child [] = []
compared_columns child (column ∷ columns) =
    let rest = compared_columns child columns in
    if contains (child.auth_column ∷ child.code_column ∷ codes "auth_name" ∷ codes "code" ∷ [])
      column
    then rest
    else column ∷ rest

abbrev pub or_none : Option (List Text) → List Text
or_none none = []
or_none (some columns) = columns

abbrev pub or_zero : Option ℕ → ℕ
or_zero none = 0
or_zero (some n) = n

-- `ORDER BY` is a parameter: it sorts rows by the text of a column.
module _ (base : Base) (sort_by : Text → List Row → List Row) where
  -- `_dependent_rows`
  unfoldable pub dependent_rows : Child → Text → Text → List Stored → List (List Value)
  dependent_rows child auth code rows =
      map
        (λ row.
          map (λ column. get column row)
            (compared_columns child (or_none (Dict.lookup child.table table_columns))))
        (sort_by child.order (children base.constraints.stored_as child auth code rows))

  -- The children of an object are kept in mind and deleted, to be inserted anew.
  unfoldable pub drop_dependents : ObjectKey → Objects → Objects
  drop_dependents key w = elim (dependents_of key.table) [
    | none ↦ w
    | some child ↦ record w {
      dependents =
          if known_key key w.dependents
          then w.dependents
          else w.dependents ++ ((key, dependent_rows child key.auth_name key.code w.rows) ∷ []);
      rows = delete_children base.constraints.stored_as child key.auth_name key.code w.rows;
    }
  ]

  abbrev pub is_reported : Text → Bool
  is_reported table = not (table == codes "axis")

  -- The update of an existing row, which is reported with the columns that changed.
  unfoldable pub update_row :
      ObjectKey → List Text → Row → Row → Objects → Result InsertError Objects
  update_row key columns row before w =
      let changed = changed_columns columns before row in
      if is_empty changed
      then ok (if is_reported key.table then record w { unchanged = w.unchanged + 1 } else w)
      else if not (
          base.constraints.admits key.table
            (set_columns base.constraints.stored_as changed row before) w.rows)
      then err constraint
      else let w' = record w {
        rows =
            update base.constraints.stored_as key.table key.auth_name key.code changed row w.rows;
      } in
        ok (
          if is_reported key.table
          then record w' {
            replaced =
                w.replaced
                ++ (record {
                  key = key;
                  name = get (codes "name") row;
                  previous_name = get (codes "name") before;
                  changed = changed;
                }
                    ∷ []);
          }
          else w')

  -- `_replace`: none where there is no such row yet.
  unfoldable pub replace : Text → List Text → Row → Objects → Result InsertError (Option Objects)
  replace table columns row w =
      let key = key_in table row in
      if base.has_object table key.auth_name key.code
      then err protected
      else elim (select base.constraints.stored_as table key.auth_name key.code w.rows) [
        | [] ↦ ok none
        | existing ∷ others ↦
            update_row key columns row existing (drop_dependents key w) >>= λ w'. ok (some w')
      ]

  unfoldable pub insert_new : Text → List Text → Row → Objects → Result InsertError Objects
  insert_new table columns row w =
      insert_statement base.constraints w.overwrite_rows table
        (bound base.constraints.stored_as columns row) w.rows
      >>= λ rows. ok (record w { rows = rows })

  -- Whether a row is an update by its key, `keyed_update`.
  unfoldable pub keyed_update : Text → Row → Objects → Bool
  keyed_update table row w =
      w.overwrite_rows
      && not (contains foreign_authority_allowed table)
      && has (codes "auth_name") row
      && has (codes "code") row

  abbrev pub or_insert : Result InsertError Objects → Option Objects → Result InsertError Objects
  or_insert inserted none = inserted
  or_insert inserted (some w') = ok w'

  -- One iteration of the loop of `insert`.
  unfoldable pub insert_row : Text → List Text → Row → Objects → Result InsertError Objects
  unfolding keyed_update
  insert_row table columns row w =
      let inserted = insert_new table columns row w in
      if keyed_update table row w
      then replace table columns row w >>= or_insert inserted
      else inserted

  unfoldable pub insert_rows : Text → List Text → List Row → Objects → Result InsertError Objects
  insert_rows table columns [] w = ok w
  insert_rows table columns (row ∷ rows) w =
      insert_row table columns row w >>= λ w'. insert_rows table columns rows w'

  -- `str(value or "")`
  abbrev pub owner : Value → Text
  owner null = []
  owner (number n shown) = if n == 0 then [] else shown
  owner (text t) = t

  -- `_guard_authorities`
  unfoldable pub guard_authorities : Text → List Row → Objects → Bool
  guard_authorities table [] w = true
  guard_authorities table (row ∷ rows) w =
      contains (map base.casefold w.authorities)
        (base.casefold (owner (get (authority_column table) row)))
      && guard_authorities table rows w

  abbrev pub count_inserted : Text → List Row → Objects → Objects
  count_inserted table rows w = record w {
    inserted = Dict.insert table (or_zero (Dict.lookup table w.inserted) + length rows) w.inserted;
  }

  -- `insert`
  unfoldable pub insert : Text → List Row → Objects → Result InsertError (Objects × ℕ)
  unfolding insert_rows guard_authorities
  insert table rows w = elim (Dict.lookup table table_columns) [
    | none ↦ err unknown_table
    | some columns ↦
        if is_empty rows
        then ok (w, 0)
        else if not (contains foreign_authority_allowed table)
            && not (guard_authorities table rows w)
        then err foreign_authority
        else insert_rows table columns rows w >>= λ w'.
            ok (count_inserted table rows w', length rows)
  ]
