-- ===== src/ProjDb/Objects/Selecting.antt =====
-- What the statements of `insert` make of the rows with a key (geodetic_engine/projdb/writer.py).
use geodetic_engine.Base.{
  ◌≡◌, refl, Bool, true, false, ◌&&◌, List, [], ◌∷◌, ◌++◌, ◌==◌, contains, Text, text_eq, nat_eq,
  codes, if◌then◌else◌, arith, Bool-cases, inl, inr,
}
use geodetic_engine.Base.Dict
use geodetic_engine.ProjDb.Objects.{without_conflicts, any_conflict}
use geodetic_engine.ProjDb.Rows.{
  Affinity, written_as, null, str, Row, get, bound, Stored, has_key, select, Constraints, Child,
  delete_children, changed_columns, set_columns, update,
}

abbrev pub auth_column : Text
auth_column = codes "auth_name"

abbrev pub code_column : Text
code_column = codes "code"

abbrev pub child_tables : List Text
child_tables = codes "axis" ∷ codes "concatenated_operation_step" ∷ []

-- Whether two rows that are stored have one key.
abbrev pub key_of_row : Row → Row → Bool
key_of_row row old =
    str (get auth_column old) == str (get auth_column row)
    && str (get code_column old) == str (get code_column row)

module _ (stored_as : Affinity) where
  pub get-bound :
      (columns : List Text) (column : Text) (row : Row)
      → get column (bound stored_as columns row)
        ≡ (if contains columns column then stored_as column (get column row) else null)
  unfolding get bound Dict.lookup
  get-bound [] column row = refl
  get-bound (c ∷ columns) column row = ground (arith, get-bound columns column row)

  pub get-set_columns :
      (columns : List Text) (column : Text) (row before : Row)
      → contains columns column ≡ false
      → get column (set_columns stored_as columns row before) ≡ get column before
  unfolding get set_columns
  get-set_columns [] column row before h = refl
  get-set_columns (c ∷ columns) column row before h = ground (
    arith,
    h,
    Dict.lookup-insert column c (stored_as c (get c row))
        (set_columns stored_as columns row before),
    get-set_columns columns column row before,
  )

  pub changed_columns-key :
      (columns : List Text) (before row : Row) (column : Text)
      → contains (auth_column ∷ code_column ∷ []) column ≡ true
      → contains (changed_columns columns before row) column ≡ false
  unfolding changed_columns
  changed_columns-key [] before row column h = refl
  changed_columns-key (c ∷ columns) before row column h = elim (text_eq.dec column c) [
    | yes q ↦ ground (arith, h, q, changed_columns-key columns before row column h)
    | no n ↦ ground (arith, changed_columns-key columns before row column h)
  ]

  pub has_key-set_columns :
      (columns : List Text) (before row original : Row) (auth code : Text)
      → has_key stored_as auth code
          (set_columns stored_as (changed_columns columns before row) row original)
        ≡ has_key stored_as auth code original
  unfolding has_key text_eq
  has_key-set_columns columns before row original auth code =
      let changed = changed_columns columns before row in
      rw
        (
          get-set_columns changed auth_column row original
              (changed_columns-key columns before row auth_column refl),
          get-set_columns changed code_column row original
              (changed_columns-key columns before row code_column refl),
        )
        refl

  -- A row has one key.
  row_apart :
      (t a c table auth code : Text) (s : Stored)
      → (table == t
          && auth == a
          && written_as stored_as code_column code == written_as stored_as code_column c)
        ≡ false
      → (s.table == table && has_key stored_as auth code s.row) ≡ true
      → (s.table == t && has_key stored_as a c s.row) ≡ false
  unfolding has_key
  row_apart t a c table auth code s h e = ground (arith, h, e)

  key_apart :
      (a c : Text) (row old : Row)
      → has_key stored_as a c row ≡ false
      → key_of_row row old ≡ true
      → has_key stored_as a c old ≡ false
  unfolding has_key
  key_apart a c row old h e = ground (arith, h, e)

  key_same :
      (a c : Text) (row old : Row)
      → has_key stored_as a c row ≡ true
      → key_of_row row old ≡ has_key stored_as a c old
  unfolding has_key
  key_same a c row old h = ground (arith, h)

  module _ (t a c : Text) where
    pub select-append :
        (xs ys : List Stored)
        → select stored_as t a c (xs ++ ys) ≡ select stored_as t a c xs ++ select stored_as t a c ys
    unfolding select
    select-append [] ys = refl
    select-append (x ∷ xs) ys = ground (arith, select-append xs ys)

    pub select-delete_children :
        (child : Child) (auth code : Text) (rows : List Stored)
        → (child.table == t) ≡ false
        → select stored_as t a c (delete_children stored_as child auth code rows)
          ≡ select stored_as t a c rows
    unfolding select delete_children
    select-delete_children child auth code [] h = refl
    select-delete_children child auth code (s ∷ rows) h =
        ground (arith, h, select-delete_children child auth code rows h)

    pub select-update :
        (table auth code : Text) (columns : List Text) (before row : Row) (rows : List Stored)
        → (table == t
            && auth == a
            && written_as stored_as code_column code == written_as stored_as code_column c)
          ≡ false
        → select stored_as t a c
            (update stored_as table auth code (changed_columns columns before row) row rows)
          ≡ select stored_as t a c rows
    unfolding select update
    select-update table auth code columns before row [] h = refl
    select-update table auth code columns before row (s ∷ rows) h =
        elim (Bool-cases (s.table == table && has_key stored_as auth code s.row)) [
          | inl e ↦ ground (
            arith,
            e,
            row_apart t a c table auth code s h e,
            row_apart t a c table auth code
                (record s {
                  row = set_columns stored_as (changed_columns columns before row) row s.row;
                })
                h (rw (has_key-set_columns columns before row s.row auth code) e),
            select-update table auth code columns before row rows h,
          )
          | inr e ↦ ground (arith, e, select-update table auth code columns before row rows h)
        ]

    pub select-without_conflicts :
        (cs : Constraints) (table : Text) (row : Row) (rows : List Stored)
        → ((old : Row) → cs.conflicts t row old ≡ key_of_row row old)
        → (table == t && has_key stored_as a c row) ≡ false
        → select stored_as t a c (without_conflicts cs table row rows) ≡ select stored_as t a c rows
    unfolding select without_conflicts
    select-without_conflicts cs table row [] k h = refl
    select-without_conflicts cs table row (s ∷ rows) k h =
        let ih = select-without_conflicts cs table row rows k h in
        elim (text_eq.dec table t) [
          | no n ↦ ground (arith, n, ih)
          | yes q ↦ elim (Bool-cases (cs.conflicts table row s.row)) [
            | inl e ↦
                let f : key_of_row row s.row ≡ true = ground (arith, q, e, k s.row) in
                ground (arith, q, e, h, ih, key_apart a c row s.row (ground (arith, q, h)) f)
            | inr e ↦ ground (arith, e, ih)
          ]
        ]

    pub any_conflict-none :
        (cs : Constraints) (row : Row) (rows : List Stored) {r : Row} {rest : List Row}
        → ((old : Row) → cs.conflicts t row old ≡ key_of_row row old)
        → select stored_as t a c rows ≡ r ∷ rest
        → any_conflict cs t row rows ≡ false
        → has_key stored_as a c row ≡ false
    unfolding select any_conflict
    any_conflict-none cs row [] k e h = ground arith
    any_conflict-none cs row (s ∷ rows) {r} {rest} k e h =
        elim (Bool-cases (has_key stored_as a c row)) [
          | inr f ↦ f
          | inl f ↦ elim (Bool-cases (s.table == t && has_key stored_as a c s.row)) [
            | inl g ↦ absurd (ground (arith, g, h, k s.row, key_same a c row s.row f))
            | inr g ↦
                any_conflict-none cs row rows {r = r} {rest = rest} k (ground (arith, e, g))
                  (ground (arith, h))
          ]
        ]
