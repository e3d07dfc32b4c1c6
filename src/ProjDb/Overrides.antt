-- ===== src/ProjDb/Overrides.antt =====
-- What a build replaced (`overrides` of geodetic_engine/projdb/writer.py).
pub mod Listed
use geodetic_engine.Base.{
  ℕ, ◌+◌, Bool, true, false, not, ◌&&◌, ◌||◌, Option, none, some, List, [], ◌∷◌, ◌++◌, ◌==◌,
  contains, Text, text_eq, nat_eq, codes, if◌then◌else◌,
}
use geodetic_engine.Base.Dict
use geodetic_engine.Base.Dict.{Dict}
use geodetic_engine.ProjDb.Columns.{table_columns}
use geodetic_engine.ProjDb.Rows.{
  Affinity, Value, null, same_value, Row, get, ObjectKey, object_key_eq, Stored, select, Objects,
  Base, Child, Change, dependents_of,
}
use geodetic_engine.ProjDb.Objects.{dependent_rows, or_none}

-- Rows of values, as Python compares them.
abbrev pub same_values : List Value → List Value → Bool
same_values [] [] = true
same_values (v ∷ vs) (w ∷ ws) = same_value v w && same_values vs ws
same_values _ _ = false

abbrev pub same_rows : List (List Value) → List (List Value) → Bool
same_rows [] [] = true
same_rows (v ∷ vs) (w ∷ ws) = same_values v w && same_rows vs ws
same_rows _ _ = false

-- `_DEPENDENT_LABEL`
unfoldable pub dependent_label : Text → Text
dependent_label table = if table == codes "coordinate_system" then codes "axes" else codes "steps"

-- What is reported: the count of unchanged objects is `unchanged` less `rebuilt`.
pub record Overrides : Type 0 where
  pub objects : Dict ObjectKey Change
  pub unchanged : ℕ
  pub rebuilt : ℕ

-- The replaced objects by key, in which the last report of an object stands.
unfoldable pub by_key : List Change → Dict ObjectKey Change → Dict ObjectKey Change
by_key [] objects = objects
by_key (change ∷ changes) objects = by_key changes (Dict.insert change.key change objects)

abbrev pub first_value : Text → List Row → Value
first_value column [] = null
first_value column (row ∷ rows) = get column row

-- The name of an object in a table that has names.
unfoldable pub name_in : Affinity → ObjectKey → List Stored → Value
name_in stored_as key rows =
    if contains (or_none (Dict.lookup key.table table_columns)) (codes "name")
    then first_value (codes "name") (select stored_as key.table key.auth_name key.code rows)
    else null

module _ (sort_by : Text → List Row → List Row) (base : Base) where
  -- Whether the children of an object are other ones than before.
  unfoldable pub is_rebuilt : ObjectKey → List (List Value) → List Stored → Bool
  is_rebuilt key before rows = elim (dependents_of key.table) [
    | none ↦ false
    | some child ↦
        not (same_rows (dependent_rows base sort_by child key.auth_name key.code rows) before)
  ]

  -- An object with other children.
  unfoldable pub report_rebuilt : ObjectKey → List Stored → Overrides → Overrides
  report_rebuilt key rows report = elim (Dict.lookup key report.objects) [
    | some item ↦ record report {
      objects =
          Dict.insert key
            (record item { changed = item.changed ++ (dependent_label key.table ∷ []) })
            report.objects;
    }
    | none ↦ record report {
      rebuilt = report.rebuilt + 1;
      objects =
          Dict.insert key
            (record {
              key = key;
              name = name_in base.constraints.stored_as key rows;
              previous_name = name_in base.constraints.stored_as key rows;
              changed = dependent_label key.table ∷ [];
            })
            report.objects;
    }
  ]

  unfoldable pub compare_dependents :
      List (ObjectKey × List (List Value)) → List Stored → Overrides → Overrides
  compare_dependents [] rows report = report
  compare_dependents ((key, before) ∷ rest) rows report =
      compare_dependents rest rows
        (if is_rebuilt key before rows then report_rebuilt key rows report else report)

  -- `overrides`
  unfoldable pub overrides : Objects → Overrides
  unfolding by_key compare_dependents
  overrides w =
      compare_dependents w.dependents w.rows
        (record { objects = by_key w.replaced []; unchanged = w.unchanged; rebuilt = 0 })
