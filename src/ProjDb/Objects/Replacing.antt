-- ===== src/ProjDb/Objects/Replacing.antt =====
-- What an update by its key leaves stored and reported (geodetic_engine/projdb/writer.py).
use geodetic_engine.Base.{
  ◌≡◌, ◌≢◌, refl, true, false, some, List, [], ◌∷◌, ◌++◌, map, ◌==◌, contains, Text, text_eq,
  nat_eq, codes, ok, arith, Option-cases, Bool-cases, Result-cases, inl, inr, ◌⊎◌,
}
use geodetic_engine.Base.Dict
use geodetic_engine.Base.Texts.{is_empty}
use geodetic_engine.ProjDb.Objects.{
  key_in, drop_dependents, update_row, replace, insert_row, keyed_update,
}
use geodetic_engine.ProjDb.Rows.{
  Affinity, Value, null, number, text, same, Row, get, ObjectKey, Stored, select, Objects, Base,
  Child, dependents_of, changed_columns, set_columns, update, Change,
}
use geodetic_engine.ProjDb.Objects.Selecting.{
  auth_column, code_column, get-set_columns, has_key-set_columns, select-delete_children,
}

-- Values that read alike: one number, or one text, as `str` writes them, and nothing only like
-- nothing.
abbrev pub AreAlike : Value → Value → Type 0
AreAlike null null = Unit
AreAlike (number m s) (number n t) = (m ≡ n) ⊎ (s ≡ t)
AreAlike (number m s) (text t) = s ≡ t
AreAlike (text s) (number n t) = s ≡ t
AreAlike (text s) (text t) = s ≡ t
AreAlike null (number n t) = ⊥
AreAlike null (text t) = ⊥
AreAlike (number n t) null = ⊥
AreAlike (text t) null = ⊥

same-AreAlike : (v w : Value) → same v w ≡ true → AreAlike v w
unfolding same
same-AreAlike null null h = tt
same-AreAlike (number m s) (number n t) h = ground (arith, h)
same-AreAlike (number m s) (text t) h = ground (arith, h)
same-AreAlike (text s) (number n t) h = ground (arith, h)
same-AreAlike (text s) (text t) h = ground (arith, h)
same-AreAlike null (number n t) h = absurd (ground (arith, h))
same-AreAlike null (text t) h = absurd (ground (arith, h))
same-AreAlike (number n t) null h = absurd (ground (arith, h))
same-AreAlike (text t) null h = absurd (ground (arith, h))

unchanged_column :
    (columns : List Text) (before row : Row) (column : Text)
    → contains columns column ≡ true
    → contains (auth_column ∷ code_column ∷ []) column ≡ false
    → contains (changed_columns columns before row) column ≡ false
    → same (get column before) (get column row) ≡ true
unfolding changed_columns
unchanged_column [] before row column h k e = ground arith
unchanged_column (c ∷ columns) before row column h k e = elim (text_eq.dec column c) [
  | yes q ↦ ground (arith, h, k, e, q)
  | no n ↦ ground (arith, h, k, e, n, unchanged_column columns before row column)
]

module _ (stored_as : Affinity) where
  get-set_columns_in :
      (columns : List Text) (column : Text) (row before : Row)
      → contains columns column ≡ true
      → get column (set_columns stored_as columns row before) ≡ stored_as column (get column row)
  unfolding get set_columns
  get-set_columns_in [] column row before h = ground arith
  get-set_columns_in (c ∷ columns) column row before h = ground (
    arith,
    h,
    Dict.lookup-insert column c (stored_as c (get c row))
        (set_columns stored_as columns row before),
    get-set_columns_in columns column row before,
  )

  -- Each column that is set has the given value as it is stored, and each other one had a value that
  -- reads alike.
  states_column :
      (columns : List Text) (before row : Row) (column : Text)
      → contains columns column ≡ true
      → contains (auth_column ∷ code_column ∷ []) column ≡ false
      → let after = set_columns stored_as (changed_columns columns before row) row before in
        (get column after ≡ stored_as column (get column row))
        ⊎ ((get column after ≡ get column before) × AreAlike (get column before) (get column row))
  states_column columns before row column h k =
      let changed = changed_columns columns before row in
      elim (Bool-cases (contains changed column)) [
        | inl e ↦ inl (get-set_columns_in changed column row before e)
        | inr e ↦ inr (
          get-set_columns stored_as changed column row before e,
          same-AreAlike (get column before) (get column row)
              (unchanged_column columns before row column h k e),
        )
      ]

  select-update_self :
      (table auth code : Text) (columns : List Text) (before row : Row) (rows : List Stored)
      → select stored_as table auth code
          (update stored_as table auth code (changed_columns columns before row) row rows)
        ≡ map
            (set_columns stored_as (changed_columns columns before row) row)
            (select stored_as table auth code rows)
  unfolding select update
  select-update_self table auth code columns before row [] = refl
  select-update_self table auth code columns before row (s ∷ rows) = ground (
    arith,
    has_key-set_columns stored_as columns before row s.row auth code,
    select-update_self table auth code columns before row rows,
  )

-- An object's own table is not the one of its children.
own_table :
    (table : Text) {child : Child}
    → dependents_of table ≡ some child
    → (child.table == table) ≡ false
unfolding dependents_of text_eq
own_table table h = elim (Bool-cases (table == codes "coordinate_system")) [
  | inl e ↦ ground (arith, e, h)
  | inr e ↦ elim (Bool-cases (table == codes "concatenated_operation")) [
    | inl f ↦ ground (arith, e, f, h)
    | inr f ↦ absurd (ground (arith, e, f, h))
  ]
]

differs_column :
    (columns : List Text) (before row : Row) (column : Text)
    → contains columns column ≡ true
    → contains (auth_column ∷ code_column ∷ []) column ≡ false
    → same (get column before) (get column row) ≡ false
    → contains (changed_columns columns before row) column ≡ true
differs_column columns before row column h k e =
    elim (Bool-cases (contains (changed_columns columns before row) column)) [
      | inl f ↦ f
      | inr f ↦ absurd (ground (arith, e, unchanged_column columns before row column h k f))
    ]

not_empty : (ts : List Text) (t : Text) → contains ts t ≡ true → is_empty ts ≡ false
not_empty [] t h = ground arith
not_empty (u ∷ ts) t h = refl

module _ (base : Base) (sort_by : Text → List Row → List Row) where
  drop_dependents-select :
      (key : ObjectKey) (w : Objects)
      → select base.constraints.stored_as key.table key.auth_name key.code
          (drop_dependents base sort_by key w).rows
        ≡ select base.constraints.stored_as key.table key.auth_name key.code w.rows
  unfolding drop_dependents
  drop_dependents-select key w = elim (Option-cases (dependents_of key.table)) [
    | inl e ↦ ground (arith, e)
    | inr (child, e) ↦ ground (
      arith,
      e,
      select-delete_children base.constraints.stored_as key.table key.auth_name key.code child
          key.auth_name key.code w.rows (own_table key.table e),
    )
  ]

  drop_dependents-replaced :
      (key : ObjectKey) (w : Objects) → (drop_dependents base sort_by key w).replaced ≡ w.replaced
  unfolding drop_dependents
  drop_dependents-replaced key w = elim (Option-cases (dependents_of key.table)) [
    | inl e ↦ ground (arith, e)
    | inr (child, e) ↦ ground (arith, e)
  ]

  -- The update behind an iteration of `insert` that found a row of the key.
  insert_row-update :
      (table : Text) (columns : List Text) (row before : Row) (w : Objects) {w' : Objects}
      → keyed_update base sort_by table row w ≡ true
      → (let k = key_in table row in
          select base.constraints.stored_as table k.auth_name k.code w.rows ≡ before ∷ [])
      → insert_row base sort_by table columns row w ≡ ok w'
      → update_row base sort_by
          (key_in table row)
          columns
          row
          before
          (drop_dependents base sort_by (key_in table row) w)
        ≡ ok w'
  unfolding insert_row replace
  insert_row-update table columns row before w h s e =
      let k = key_in table row in
      elim (Bool-cases (base.has_object table k.auth_name k.code)) [
        | inl x ↦ absurd (ground (arith, h, s, e, x))
        | inr x ↦
            elim (Result-cases
              (update_row base sort_by k columns row before (drop_dependents base sort_by k w))) [
                | inl (v, f) ↦ ground (arith, h, s, e, x, f)
                | inr (y, f) ↦ absurd (ground (arith, h, s, e, x, f))
              ]
      ]

  -- With `overwrite_rows` an iteration of `insert` that returns, for a row with a key that is
  -- stored once, leaves one row of that key, which holds in each of the table's columns, the key's
  -- apart, the value that the given row states, as SQLite stores it, or the one it held before, where
  -- that reads like the stated one: a null only like a null.
  pub insert_row_states :
      (table : Text) (columns : List Text) (row before : Row) (w : Objects) (column : Text)
      {w' : Objects}
      → keyed_update base sort_by table row w ≡ true
      → (let k = key_in table row in
          select base.constraints.stored_as table k.auth_name k.code w.rows ≡ before ∷ [])
      → contains columns column ≡ true
      → contains (auth_column ∷ code_column ∷ []) column ≡ false
      → insert_row base sort_by table columns row w ≡ ok w'
      → (after : Row) × (let k = key_in table row in
          select base.constraints.stored_as table k.auth_name k.code w'.rows ≡ after ∷ [])
        × ((get column after ≡ base.constraints.stored_as column (get column row))
            ⊎ ((get column after ≡ get column before)
                × AreAlike (get column before) (get column row)))
  unfolding update_row
  insert_row_states table columns row before w column {w'} h s c n e =
      let k = key_in table row in
      let u = insert_row-update table columns row before w h s e in
      let dropped = drop_dependents base sort_by k w in
      let d = drop_dependents-select k w in
      let changed = changed_columns columns before row in
      elim (Bool-cases (is_empty changed)) [
        | inl x ↦ (
          before,
          ground (arith, u, d, s, x),
          inr (
            refl,
            same-AreAlike (get column before) (get column row)
                (unchanged_column columns before row column c n (ground (arith, x))),
          ),
        )
        | inr x ↦ (
          set_columns base.constraints.stored_as changed row before,
          ground (
            arith,
            u,
            d,
            s,
            x,
            select-update_self base.constraints.stored_as k.table k.auth_name k.code columns before
                row dropped.rows,
          ),
          states_column base.constraints.stored_as columns before row column c n,
        )
      ]

  -- Where such an iteration changes the value of a column, it reports the object once more, as
  -- replaced, with that column among those that changed; an axis is not reported.
  pub insert_row_reports :
      (table : Text) (columns : List Text) (row before : Row) (w : Objects) (column : Text)
      {w' : Objects}
      → keyed_update base sort_by table row w ≡ true
      → (let k = key_in table row in
          select base.constraints.stored_as table k.auth_name k.code w.rows ≡ before ∷ [])
      → table ≢ codes "axis"
      → contains columns column ≡ true
      → contains (auth_column ∷ code_column ∷ []) column ≡ false
      → same (get column before) (get column row) ≡ false
      → insert_row base sort_by table columns row w ≡ ok w'
      → (change : Change) × (w'.replaced ≡ w.replaced ++ (change ∷ []))
        × (change.key ≡ key_in table row)
        × (contains change.changed column ≡ true)
  unfolding update_row
  insert_row_reports table columns row before w column {w'} h s t c n g e =
      let k = key_in table row in
      let u = insert_row-update table columns row before w h s e in
      let d = drop_dependents-replaced k w in
      let f = differs_column columns before row column c n g in
      let some_change : is_empty (changed_columns columns before row) ≡ false =
        not_empty (changed_columns columns before row) column f in
      (
        record {
          key = k;
          name = get (codes "name") row;
          previous_name = get (codes "name") before;
          changed = changed_columns columns before row;
        },
        ground (arith, u, d, t, some_change),
        refl,
        f,
      )
