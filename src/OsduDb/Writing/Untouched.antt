-- ===== src/OsduDb/Writing/Untouched.antt =====
-- What the writing of annotations and preferences leaves alone (geodetic_engine/projdb/common.py).
use geodetic_engine.Base.{
  ℕ, ◌≡◌, refl, chain_returns, nat_eq, Bool, true, false, ◌&&◌, List, [], ◌∷◌, All, map, Text,
  text_eq, codes, ◌==◌, ok, arith, Bool-cases, Result-cases, inl, inr, contains, not_member,
}
use geodetic_engine.ProjDb.Columns.{
  foreign_authority_allowed, authority_to_authority_preference_columns,
}
use geodetic_engine.ProjDb.Rows.{Row, select, bound, Stored, Objects, Base}
use geodetic_engine.ProjDb.Objects.{insert, insert_statement, without_conflicts}
use geodetic_engine.ProjDb.Objects.Selecting.{select-append}
use geodetic_engine.ProjDb.Objects.Protection.{IsProtected, IsApart, insert_protects}
use geodetic_engine.ProjDb.Refreshing.{upsert_rows, upsert_authority_preferences, preference_table}
use geodetic_engine.Base.Dict.{Dict}
use geodetic_engine.ProjDb.Usages.{Scope, Extent, UsageAccumulator}
use mathlib.Core.List.{append-nil}
use geodetic_engine.ProjDb.Aliases.{AliasCollector}
use geodetic_engine.ProjDb.Preferences.{
  PreferenceSettings, Preferences, builtin_rows, preference_rows,
}
use geodetic_engine.OsduDb.Staging.{Staging, Config, pending, write_staged}
use geodetic_engine.OsduDb.Staging.Written.{write_staged_protects}
use geodetic_engine.OsduDb.Writing.{
  put, builtin_row, preference_row, read_builtin, read_existing, select_new, all_own, write_build,
  write_collected, write_annotations, write_authority_preferences,
}

module _ (base : Base) (t a c : Text) where
  select-other_table :
      (table : Text) (row : Row) (rows : List Stored)
      → (table == t) ≡ false
      → select base.constraints.stored_as t a c (without_conflicts base.constraints table row rows)
        ≡ select base.constraints.stored_as t a c rows
  unfolding select without_conflicts
  select-other_table table row [] h = refl
  select-other_table table row (s ∷ rows) h = ground (arith, h, select-other_table table row rows h)

  select-inserted :
      (table : Text) (row : Row) (rows : List Stored) {after : List Stored}
      → (table == t) ≡ false
      → insert_statement base.constraints true table row rows ≡ ok after
      → select base.constraints.stored_as t a c after ≡ select base.constraints.stored_as t a c rows
  unfolding insert_statement select
  select-inserted table row rows h e =
      let kept = without_conflicts base.constraints table row rows in
      ground (
        arith,
        h,
        e,
        select-other_table table row rows h,
        select-append base.constraints.stored_as t a c kept
            (record { table = table; row = row } ∷ []),
        append-nil (select base.constraints.stored_as t a c kept),
      )

  select-upsert_rows :
      (table : Text) (columns : List Text) (given : List Row) (rows : List Stored)
      {after : List Stored}
      → (table == t) ≡ false
      → upsert_rows base.constraints table columns given rows ≡ ok after
      → select base.constraints.stored_as t a c after ≡ select base.constraints.stored_as t a c rows
  unfolding upsert_rows
  select-upsert_rows table columns [] rows h e = ground (arith, e)
  select-upsert_rows table columns (row ∷ given) rows {after} h e =
      elim (Result-cases (
        insert_statement base.constraints true table (bound base.constraints.stored_as columns row)
          rows)) [
            | inr (x, f) ↦ absurd (ground (arith, e, f))
            | inl (mid, f) ↦ ground (
              arith,
              select-inserted table (bound base.constraints.stored_as columns row) rows h f,
              select-upsert_rows table columns given mid {after = after} h (ground (arith, e, f)),
            )
          ]

  -- A table of preferences is not one of objects.
  apart : contains foreign_authority_allowed t ≡ false → (preference_table == t) ≡ false
  unfolding foreign_authority_allowed text_eq nat_eq
  apart h = not_member t preference_table foreign_authority_allowed h refl

  select-upsert :
      (given : List Row) (w : Objects) {out : Objects × ℕ}
      → contains foreign_authority_allowed t ≡ false
      → upsert_authority_preferences base given w ≡ ok out
      → select base.constraints.stored_as t a c out.0.rows
        ≡ select base.constraints.stored_as t a c w.rows
  unfolding upsert_authority_preferences
  select-upsert [] w h e = ground (arith, e)
  select-upsert (row ∷ given) w h e =
      elim (Result-cases (
        upsert_rows base.constraints preference_table authority_to_authority_preference_columns
          (row ∷ given) w.rows)) [
            | inr (x, f) ↦ absurd (ground (arith, e, f))
            | inl (rows, f) ↦ ground (
              arith,
              e,
              f,
              select-upsert_rows preference_table authority_to_authority_preference_columns
                  (row ∷ given) w.rows (apart h) f,
            )
          ]

-- The tables of what is collected beside the objects.
abbrev pub collected_tables : List Text
collected_tables =
    codes "scope"
    ∷ codes "extent"
    ∷ codes "usage"
    ∷ codes "alias_name"
    ∷ codes "builtin_authorities"
    ∷ []

module _ (config : Config) (base : Base) (sort_by : Text → List Row → List Row) (t a c : Text)
    (r : Row) (p : IsProtected base t a c) (o : contains collected_tables t ≡ false) where
  put_protects :
      (table : Text) (rows : List Row) (w : Objects) {w' : Objects}
      → contains collected_tables table ≡ true
      → select base.constraints.stored_as t a c w.rows ≡ r ∷ []
      → put config base sort_by table rows w ≡ ok w'
      → select base.constraints.stored_as t a c w'.rows ≡ r ∷ []
  put_protects table rows w k h e = elim (Result-cases (insert base sort_by table rows w)) [
    | inr (x, f) ↦ absurd (ground (arith, e, f))
    | inl (out, f) ↦
        let held =
          insert_protects base sort_by t a c table rows r w p
            (λ same. absurd (ground (arith, k, o, same))) h f in
        ground (arith, e, f, held)
  ]

  -- A writing of the preferences of authorities that returns leaves the row of an object of the
  -- base database as it is.
  pub write_authority_preferences_protects :
      (space : ℕ → Bool) (settings : PreferenceSettings) (w : Objects) {out : Objects × Preferences}
      → select base.constraints.stored_as t a c w.rows ≡ r ∷ []
      → write_authority_preferences config base sort_by space settings w ≡ ok out
      → select base.constraints.stored_as t a c out.0.rows ≡ r ∷ []
  unfolding write_authority_preferences text_eq nat_eq
  write_authority_preferences_protects space settings w h e =
      let names = builtin_rows config.casefold settings.authorities (read_builtin w.rows) in
      elim (Result-cases
        (put config base sort_by (codes "builtin_authorities") (map builtin_row names) w)) [
          | inr (x, f) ↦ absurd (ground (arith, e, f))
          | inl (w₁, f) ↦
              let rows =
                map preference_row (preference_rows space settings (read_existing w₁.rows [])) in
              let h₁ =
                put_protects (codes "builtin_authorities") (map builtin_row names) w refl h f in
              elim (Result-cases (upsert_authority_preferences base rows w₁)) [
                | inr (x, g) ↦ absurd (ground (arith, e, f, g))
                | inl (done, g) ↦
                    ground (arith, e, f, g, h₁, select-upsert base t a c rows w₁ p.guarded g)
              ]
        ]

  write_collected_protects :
      (scopes : Dict (Text × Text) Scope) (extents : Dict (Text × Text) Extent)
      (usage : UsageAccumulator) (alias : AliasCollector) (s : Staging) (w : Objects)
      {out : Objects × Staging}
      → select base.constraints.stored_as t a c w.rows ≡ r ∷ []
      → write_collected config base sort_by scopes extents usage alias s w ≡ ok out
      → select base.constraints.stored_as t a c out.0.rows ≡ r ∷ []
  unfolding write_collected text_eq nat_eq
  write_collected_protects scopes extents usage alias s w h e =
      let (w₁, e₁, f₁) = chain_returns _ _ e in
      let (w₂, e₂, f₂) = chain_returns _ _ e₁ in
      let (w₃, e₃, f₃) = chain_returns _ _ e₂ in
      let (w₄, e₄, f₄) = chain_returns _ _ e₃ in
      let h₁ = put_protects _ _ w refl h f₁ in
      let h₂ = put_protects _ _ w₁ refl h₁ f₂ in
      let h₃ = put_protects _ _ w₂ refl h₂ f₃ in
      let h₄ = put_protects _ _ w₃ refl h₃ f₄ in ground (arith, h₄, e₄)

  -- A writing of the annotations of a build that returns leaves the row of an object of the base
  -- database as it is, whatever scopes, extents, usages and aliases were collected.
  pub write_annotations_protects :
      (usage : UsageAccumulator) (alias : AliasCollector) (s : Staging) (w : Objects)
      {out : Objects × Staging}
      → select base.constraints.stored_as t a c w.rows ≡ r ∷ []
      → write_annotations config base sort_by usage alias s w ≡ ok out
      → select base.constraints.stored_as t a c out.0.rows ≡ r ∷ []
  unfolding write_annotations
  write_annotations_protects usage alias s w {out} h e =
      let scopes = select_new config base sort_by w (codes "scope") usage.scopes s in
      let extents = select_new config base sort_by w (codes "extent") usage.extents scopes.1 in
      elim (Bool-cases
        (all_own config base sort_by scopes.0 && all_own config base sort_by extents.0)) [
          | inr x ↦ absurd (ground (arith, e, x))
          | inl x ↦
              write_collected_protects scopes.0 extents.0 usage alias extents.1 w {out = out} h
                (ground (arith, e, x))
        ]

  -- The writing of a catalogue's rows, where it returns, leaves the row of an object of the base
  -- database as it is, whatever was collected and in whatever mode of preference, if no row that is
  -- staged for its table has another spelling of its code and its table is none of scopes, extents,
  -- usages, aliases and builtin authorities.
  pub write_build_protects :
      (space : ℕ → Bool) (settings : PreferenceSettings) (usage : UsageAccumulator)
      (alias : AliasCollector) (s : Staging) (w : Objects) {w' : Objects}
      → select base.constraints.stored_as t a c w.rows ≡ r ∷ []
      → All (IsApart base.constraints.stored_as a c) (pending t s)
      → write_build config base sort_by space settings usage alias s w ≡ ok w'
      → select base.constraints.stored_as t a c w'.rows ≡ r ∷ []
  unfolding write_build
  write_build_protects space settings usage alias s w {w'} h q e =
      elim (Result-cases (write_staged base sort_by s w)) [
        | inr (x, f) ↦ absurd (ground (arith, e, f))
        | inl (objects, f) ↦
            let h₁ = write_staged_protects base sort_by t a c s r w p q h f in
            elim (Result-cases (write_annotations config base sort_by usage alias s objects)) [
              | inr (x, g) ↦ absurd (ground (arith, e, f, g))
              | inl (annotated, g) ↦
                  let h₂ = write_annotations_protects usage alias s objects h₁ g in
                  elim (Result-cases
                    (write_authority_preferences config base sort_by space settings annotated.0)) [
                      | inr (x, k) ↦ absurd (ground (arith, e, f, g, k))
                      | inl (done, k) ↦
                          let h₃ =
                            write_authority_preferences_protects space settings annotated.0 h₂ k in
                          ground (arith, e, f, g, k, h₃)
                    ]
            ]
      ]
