-- ===== src/ProjDb/Objects/Protection.antt =====
-- Objects that `insert` never touches (geodetic_engine/projdb/writer.py).
use geodetic_engine.Base.{
  ℕ, ◌≡◌, ◌≢◌, ◌∙◌, sym, true, false, ◌&&◌, Option, some, List, [], ◌∷◌, ◌++◌, ◌==◌, contains,
  not_member, All, Text, text_eq, nat_eq, codes, ok, arith, Option-cases, Bool-cases, Result-cases,
  List-cases, inl, inr,
}
use geodetic_engine.Base.Dict
use geodetic_engine.ProjDb.Columns.{table_columns, foreign_authority_allowed}
use geodetic_engine.ProjDb.Objects.{
  without_conflicts, any_conflict, insert_statement, key_in, drop_dependents, update_row, replace,
  insert_new, insert_row, insert_rows, insert, keyed_update,
}
use geodetic_engine.ProjDb.Rows.{
  Affinity, written_as, null, str, Row, get, has, bound, ObjectKey, Stored, has_key, select,
  Objects, Base, Child, dependents_of,
}
use geodetic_engine.ProjDb.Objects.Selecting.{
  auth_column, code_column, child_tables, get-bound, key_of_row, select-append,
  select-delete_children, select-update, select-without_conflicts, any_conflict-none,
}

-- An object of the base database whose row is there, in a table of objects of which the keys are
-- the constraint of uniqueness. `None` is what `str` makes of an absent authority or code.
pub record IsProtected (base : Base) (t a c : Text) : Type 0 where
  pub in_base : base.has_object t a c ≡ true
  pub guarded : contains foreign_authority_allowed t ≡ false
  pub no_child : contains child_tables t ≡ false
  pub named : a ≢ codes "None"
  pub coded : c ≢ codes "None"
  pub number : written_as base.constraints.stored_as code_column c ≢ codes "None"
  pub keyed : (row old : Row) → base.constraints.conflicts t row old ≡ key_of_row row old

-- A row of which neither the authority nor the code is stored as those of an object, or found with
-- them, without being written like them: with the code 7030 the row is the object's own, with 07030
-- it is not apart from it.
pub record IsApart (stored_as : Affinity) (a c : Text) (row : Row) : Type 0 where
  pub owner : str (stored_as auth_column (get auth_column row)) ≡ a → str (get auth_column row) ≡ a
  pub code :
      str (stored_as code_column (get code_column row)) ≡ written_as stored_as code_column c
      → str (get code_column row) ≡ c
  pub found :
      written_as stored_as code_column (str (get code_column row))
        ≡ written_as stored_as code_column c
      → str (get code_column row) ≡ c

pub dependents_of-table :
    (table : Text) {child : Child}
    → dependents_of table ≡ some child
    → contains child_tables child.table ≡ true
unfolding dependents_of text_eq
dependents_of-table table h = elim (Bool-cases (table == codes "coordinate_system")) [
  | inl e ↦ ground (arith, e, h)
  | inr e ↦ elim (Bool-cases (table == codes "concatenated_operation")) [
    | inl f ↦ ground (arith, e, f, h)
    | inr f ↦ absurd (ground (arith, e, f, h))
  ]
]

module _ (base : Base) (sort_by : Text → List Row → List Row) (t a c : Text) where
  -- The row of the key, which is the only one.
  abbrev Holds : Row → Objects → Type 0
  Holds r w = select base.constraints.stored_as t a c w.rows ≡ r ∷ []

  drop_dependents-Holds :
      (key : ObjectKey) (w : Objects) (r : Row)
      → contains child_tables t ≡ false
      → Holds r w
      → Holds r (drop_dependents base sort_by key w)
  unfolding drop_dependents
  drop_dependents-Holds key w r n h = elim (Option-cases (dependents_of key.table)) [
    | inl e ↦ ground (arith, e, h)
    | inr (child, e) ↦ ground (
      arith,
      e,
      h,
      select-delete_children base.constraints.stored_as t a c child key.auth_name key.code w.rows
          (not_member t child.table child_tables n (dependents_of-table key.table e)),
    )
  ]

  update_row-Holds :
      (key : ObjectKey) (columns : List Text) (row before r : Row) (w : Objects) {w' : Objects}
      → (key.table == t
          && key.auth_name == a
          && written_as base.constraints.stored_as code_column key.code
            == written_as base.constraints.stored_as code_column c)
        ≡ false
      → Holds r w
      → update_row base sort_by key columns row before w ≡ ok w'
      → Holds r w'
  unfolding update_row
  update_row-Holds key columns row before r w n h e = ground (
    arith,
    n,
    h,
    e,
    select-update base.constraints.stored_as t a c key.table key.auth_name key.code columns before
        row w.rows n,
  )

  select-added :
      (table : Text) (b r : Row) (rows : List Stored)
      → (table == t && has_key base.constraints.stored_as a c b) ≡ false
      → select base.constraints.stored_as t a c rows ≡ r ∷ []
      → select base.constraints.stored_as t a c (rows ++ (record { table = table; row = b } ∷ []))
        ≡ r ∷ []
  unfolding select
  select-added table b r rows n h = ground (
    arith,
    n,
    h,
    select-append base.constraints.stored_as t a c rows (record { table = table; row = b } ∷ []),
  )

  insert_new-Holds :
      (table : Text) (columns : List Text) (row r : Row) (w : Objects) {w' : Objects}
      → IsProtected base t a c
      → (w.overwrite_rows
          && (table == t
              && has_key base.constraints.stored_as a c
                  (bound base.constraints.stored_as columns row)))
        ≡ false
      → Holds r w
      → insert_new base sort_by table columns row w ≡ ok w'
      → Holds r w'
  unfolding insert_new insert_statement
  insert_new-Holds table columns row r w {w'} p n h e =
      let b = bound base.constraints.stored_as columns row in
      let cs = base.constraints in
      elim (Bool-cases w.overwrite_rows) [
        | inl o ↦
            let f : (table == t && has_key base.constraints.stored_as a c b) ≡ false =
              ground (arith, o, n) in
            let g =
              select-without_conflicts base.constraints.stored_as t a c cs table b w.rows
                (p.keyed b) f in
            ground
              (arith, o, e, select-added table b r (without_conflicts cs table b w.rows) f (g ∙ h))
        | inr o ↦ elim (Bool-cases (any_conflict cs table b w.rows)) [
          | inl x ↦ absurd (ground (arith, o, e, x))
          | inr x ↦ elim (text_eq.dec table t) [
            | no m ↦ ground (arith, o, e, x, select-added table b r w.rows (ground (arith, m)) h)
            | yes q ↦
                let y : any_conflict cs t b w.rows ≡ false = rw (sym q) x in
                let f =
                  any_conflict-none base.constraints.stored_as t a c cs b w.rows (p.keyed b) h y in
                ground (arith, o, e, x, select-added table b r w.rows (ground (arith, f)) h)
          ]
        ]
      ]

  -- The key of what is bound is that of the row, or none.
  bound_apart :
      (table : Text) (columns : List Text) (row : Row)
      → IsProtected base t a c
      → (table ≡ t → IsApart base.constraints.stored_as a c row)
      → (table == t && str (get auth_column row) == a && str (get code_column row) == c) ≡ false
      → (table == t
          && has_key base.constraints.stored_as a c (bound base.constraints.stored_as columns row))
        ≡ false
  unfolding has_key
  bound_apart table columns row p q h = elim (text_eq.dec table t) [
    | no n ↦ ground (arith, n)
    | yes same ↦
        let apart = q same in
        ground (
          arith,
          h,
          p.named,
          p.number,
          p.coded,
          apart.owner,
          apart.code,
          get-bound base.constraints.stored_as columns auth_column row,
          get-bound base.constraints.stored_as columns code_column row,
        )
  ]

  absent : (column : Text) (row : Row) → has column row ≡ false → get column row ≡ null
  unfolding get
  absent column row h = ground (arith, h)

  -- A row that is not an update by its key has not the protected one.
  not_bound :
      (table : Text) (columns : List Text) (row : Row) (w : Objects)
      → IsProtected base t a c
      → (table ≡ t → IsApart base.constraints.stored_as a c row)
      → keyed_update base sort_by table row w ≡ false
      → (w.overwrite_rows
          && (table == t
              && has_key base.constraints.stored_as a c
                  (bound base.constraints.stored_as columns row)))
        ≡ false
  unfolding keyed_update
  not_bound table columns row w p q o = elim (Bool-cases w.overwrite_rows) [
    | inr x ↦ ground (arith, x)
    | inl x ↦ elim (text_eq.dec table t) [
      | no n ↦ ground (arith, n)
      | yes same ↦ elim (Bool-cases (has auth_column row)) [
        | inr y ↦ ground (
          arith,
          bound_apart table columns row p q (ground (arith, absent auth_column row y, p.named)),
        )
        | inl y ↦ elim (Bool-cases (has code_column row)) [
          | inr z ↦ ground (
            arith,
            bound_apart table columns row p q (ground (arith, absent code_column row z, p.coded)),
          )
          | inl z ↦ absurd (ground (arith, o, x, y, z, same, p.guarded))
        ]
      ]
    ]
  ]

  replace-Holds :
      (table : Text) (columns : List Text) (row r : Row) (w : Objects) {found : Option Objects}
      → IsProtected base t a c
      → (table ≡ t → IsApart base.constraints.stored_as a c row)
      → Holds r w
      → replace base sort_by table columns row w ≡ ok found
      → ((table == t && str (get auth_column row) == a && str (get code_column row) == c) ≡ false)
        × ((w' : Objects) → found ≡ some w' → Holds r w')
  unfolding replace
  replace-Holds table columns row r w {found} p q h e =
      let k = key_in table row in
      elim (Bool-cases (base.has_object table k.auth_name k.code)) [
        | inl x ↦ absurd (ground (arith, e, x))
        | inr x ↦
            let other : (table == t && k.auth_name == a && k.code == c) ≡ false =
              ground (arith, x, p.in_base) in
            let elsewhere : (table == t
                  && k.auth_name == a
                  && written_as base.constraints.stored_as code_column k.code
                    == written_as base.constraints.stored_as code_column c)
                ≡ false =
              elim (text_eq.dec table t) [
                | no n ↦ ground (arith, n)
                | yes same ↦ let apart = q same in ground (arith, other, apart.found)
              ] in
            (
              other,
              λ w' f.
                  elim (List-cases
                    (select base.constraints.stored_as table k.auth_name k.code w.rows)) [
                      | inl y ↦ absurd (ground (arith, e, x, y, f))
                      | inr (existing, others, y) ↦
                          let dropped = drop_dependents base sort_by k w in
                          elim (Result-cases
                            (update_row base sort_by k columns row existing dropped)) [
                              | inr (v, z) ↦ absurd (ground (arith, e, x, y, z))
                              | inl (v, z) ↦
                                  let held =
                                    update_row-Holds k columns row existing r dropped elsewhere
                                      (drop_dependents-Holds k w r p.no_child h) z in
                                  let same : v ≡ w' = ground (arith, e, x, y, z, f) in
                                  rw (sym same) held
                            ]
                    ],
            )
      ]

  insert_row-Holds :
      (table : Text) (columns : List Text) (row r : Row) (w : Objects) {w' : Objects}
      → IsProtected base t a c
      → (table ≡ t → IsApart base.constraints.stored_as a c row)
      → Holds r w
      → insert_row base sort_by table columns row w ≡ ok w'
      → Holds r w'
  unfolding insert_row
  insert_row-Holds table columns row r w {w'} p q h e =
      elim (Bool-cases (keyed_update base sort_by table row w)) [
        | inl o ↦ elim (Result-cases (replace base sort_by table columns row w)) [
          | inr (x, f) ↦ absurd (ground (arith, e, o, f))
          | inl (found, f) ↦
              let (other, keep) = replace-Holds table columns row r w p q h f in
              elim (Option-cases found) [
                | inr (v, g) ↦
                    let same : v ≡ w' = ground (arith, e, o, f, g) in rw (sym same) (keep v g)
                | inl g ↦
                    insert_new-Holds table columns row r w {w' = w'} p
                      (ground (arith, bound_apart table columns row p q other)) h
                      (ground (arith, e, o, f, g))
              ]
        ]
        | inr o ↦
            insert_new-Holds table columns row r w {w' = w'} p (not_bound table columns row w p q o)
              h (ground (arith, e, o))
      ]

  insert_rows-Holds :
      (table : Text) (columns : List Text) (rows : List Row) (r : Row) (w : Objects) {w' : Objects}
      → IsProtected base t a c
      → (table ≡ t → All (IsApart base.constraints.stored_as a c) rows)
      → Holds r w
      → insert_rows base sort_by table columns rows w ≡ ok w'
      → Holds r w'
  unfolding insert_rows
  insert_rows-Holds table columns [] r w p q h e = ground (arith, h, e)
  insert_rows-Holds table columns (row ∷ rows) r w p q h e =
      elim (Result-cases (insert_row base sort_by table columns row w)) [
        | inl (v, f) ↦
            insert_rows-Holds table columns rows r v p (λ same. (q same).1)
              (insert_row-Holds table columns row r w p (λ same. (q same).0) h f) (rw f at e)
        | inr (x, f) ↦ absurd (ground (arith, e, f))
      ]

  -- A call of `insert` that returns, with `overwrite_rows` or without and for whichever table,
  -- leaves the row of an object of the base database as it is, if no row that it is given for the
  -- object's table has another spelling of the object's code, such as 07030 for 7030.
  pub insert_protects :
      (table : Text) (rows : List Row) (r : Row) (w : Objects) {out : Objects × ℕ}
      → IsProtected base t a c
      → (table ≡ t → All (IsApart base.constraints.stored_as a c) rows)
      → select base.constraints.stored_as t a c w.rows ≡ r ∷ []
      → insert base sort_by table rows w ≡ ok out
      → select base.constraints.stored_as t a c out.0.rows ≡ r ∷ []
  unfolding insert
  insert_protects table rows r w p q h e = elim (Option-cases (Dict.lookup table table_columns)) [
    | inl x ↦ absurd (ground (arith, e, x))
    | inr (columns, x) ↦ elim (Result-cases (insert_rows base sort_by table columns rows w)) [
      | inl (v, f) ↦
          let held = insert_rows-Holds table columns rows r w p q h f in
          ground (arith, e, x, f, held, h)
      | inr (y, f) ↦ ground (arith, e, x, f, h)
    ]
  ]
