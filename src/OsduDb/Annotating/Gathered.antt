-- ===== src/OsduDb/Annotating/Gathered.antt =====
-- What holds of the annotations of a build's objects (geodetic_engine/osdudb/context.py).
use geodetic_engine.Base.{
  ℕ, ◌+◌, ◌≡◌, ◌≢◌, Bool, false, Option, none, some, List, [], ◌∷◌, Text, arith, Option-cases, inl,
  inr, contains, text_eq,
}
use geodetic_engine.ProjDb.Rows.{ObjectKey, Base, select}
use geodetic_engine.ProjDb.Refreshing.{object_table}
use geodetic_engine.ProjDb.Refreshing.Kept.{annotation_tables, select-clear_annotations}
use geodetic_engine.ProjDb.Usages
use geodetic_engine.ProjDb.Usages.{Scope, Extent, UsageAccumulator}
use geodetic_engine.ProjDb.Usages.Invariant.{IsAccounted, add-IsAccounted}
use geodetic_engine.ProjDb.Aliases
use geodetic_engine.ProjDb.Aliases.{AliasCollector}
use geodetic_engine.ProjDb.Aliases.Kept.{AreAdmissible, add-AreAdmissible, add_returns}
use geodetic_engine.OsduDb.Catalogue.{Record}
use geodetic_engine.OsduDb.Annotating.{
  Data, Annotations, derived, add_usages, add_aliases, annotate,
}

add_usages-IsAccounted :
    (key : ObjectKey) (index : ℕ)
    (usages : List ((Text × Text → Option Scope) × (Text × Text → Option Extent)))
    (u : UsageAccumulator) {u' : UsageAccumulator}
    → IsAccounted u
    → add_usages key index usages u ≡ some u'
    → IsAccounted u'
unfolding add_usages
add_usages-IsAccounted key index [] u {u'} h e = let q : u ≡ u' = cc in rw (← q) h
add_usages-IsAccounted key index ((scope_of, extent_of) ∷ usages) u {u'} h e =
    elim (Option-cases (object_table key.table)) [
      | inl f ↦ absurd (ground (arith, e, f))
      | inr (table, f) ↦
          let k = derived table key index in
          elim (Option-cases (Usages.add key (scope_of k) (extent_of k) none u)) [
            | inl g ↦ absurd (ground (arith, e, f, g))
            | inr (mid, g) ↦
                add_usages-IsAccounted key (index + 1) usages mid {u' = u'}
                  (add-IsAccounted key (scope_of k) (extent_of k) none u h g)
                  (ground (arith, e, f, g))
          ]
    ]

add_usages_returns :
    (key : ObjectKey) (index : ℕ)
    (usages : List ((Text × Text → Option Scope) × (Text × Text → Option Extent)))
    (u : UsageAccumulator) {table : Text}
    → object_table key.table ≡ some table
    → add_usages key index usages u ≢ none
unfolding add_usages Usages.add
add_usages_returns key index [] u f e = cc
add_usages_returns key index ((scope_of, extent_of) ∷ usages) u {table} f e =
    let k = derived table key index in
    elim (Option-cases (Usages.add key (scope_of k) (extent_of k) none u)) [
      | inr (mid, g) ↦ add_usages_returns key (index + 1) usages mid f (ground (arith, e, f, g))
      | inl g ↦ elim (Option-cases (scope_of k)) [
        | inl s ↦ absurd (ground (arith, g, s))
        | inr (scope, s) ↦ elim (Option-cases (extent_of k)) [
          | inl x ↦ absurd (ground (arith, g, s, x))
          | inr (extent, x) ↦ absurd (ground (arith, g, s, x, f))
        ]
      ]
    ]

module _ (space : ℕ → Bool) (casefold lower : Text → Text) where
  add_aliases-AreAdmissible :
      (key : ObjectKey) (aliases : List (Text × Text)) (c : AliasCollector) {c' : AliasCollector}
      → AreAdmissible space casefold c
      → add_aliases space casefold lower key aliases c ≡ some c'
      → AreAdmissible space casefold c'
  unfolding add_aliases
  add_aliases-AreAdmissible key [] c {c'} h e = let q : c ≡ c' = cc in rw (← q) h
  add_aliases-AreAdmissible key ((alias, source) ∷ aliases) c {c'} h e =
      elim (Option-cases (Aliases.add space casefold key (some alias) source c)) [
        | inl f ↦ absurd (ground (arith, e, f))
        | inr ((mid, done), f) ↦
            add_aliases-AreAdmissible key aliases mid {c' = c'}
              (add-AreAdmissible space casefold key (some alias) source c {out = (mid, done)} h f)
              (ground (arith, e, f))
      ]

  -- `annotate`, where it returns, keeps it that usages are counted, told apart by their codes and
  -- have their scope and extent, and that aliases are distinct, long enough and asked for; and it
  -- leaves every row of the database that is not an annotation as it is.
  pub annotate_keeps :
      (base : Base) (data_of : Data) (naming_systems : List Text) (key : ObjectKey) (r : Record)
      (a : Annotations) (table auth code : Text) {a' : Annotations}
      → IsAccounted a.usage
      → AreAdmissible space casefold a.alias
      → contains annotation_tables table ≡ false
      → annotate space casefold lower base data_of naming_systems key r a ≡ some a'
      → IsAccounted a'.usage
        × AreAdmissible space casefold a'.alias
        × (select base.constraints.stored_as table auth code a'.writer.rows
            ≡ select base.constraints.stored_as table auth code a.writer.rows)
  unfolding annotate
  annotate_keeps base data_of naming_systems key r a table auth code {a'} h k t e =
      elim (Option-cases (add_usages key 1 (data_of.usages r) a.usage)) [
        | inl f ↦ absurd (ground (arith, e, f))
        | inr (u, f) ↦
            elim (Option-cases (add_aliases space casefold lower key (data_of.aliases r) a.alias)) [
              | inl g ↦ absurd (ground (arith, e, f, g))
              | inr (c, g) ↦
                  let q : a'.usage ≡ u = ground (arith, e, f, g) in
                  let q' : a'.alias ≡ c = ground (arith, e, f, g) in
                  (
                    rw q (add_usages-IsAccounted key 1 (data_of.usages r) a.usage h f),
                    rw q' (add_aliases-AreAdmissible key (data_of.aliases r) a.alias k g),
                    ground (
                      arith,
                      e,
                      f,
                      g,
                      select-clear_annotations base.constraints.stored_as table auth code base lower
                          key naming_systems a.writer t,
                    ),
                  )
            ]
      ]

  add_aliases_returns :
      (key : ObjectKey) (aliases : List (Text × Text)) (c : AliasCollector)
      → add_aliases space casefold lower key aliases c ≢ none
  unfolding add_aliases
  add_aliases_returns key [] c e = cc
  add_aliases_returns key ((alias, source) ∷ aliases) c e =
      elim (Option-cases (Aliases.add space casefold key (some alias) source c)) [
        | inl f ↦ add_returns space casefold key (some alias) source c f
        | inr ((mid, done), f) ↦ add_aliases_returns key aliases mid (ground (arith, e, f))
      ]

  -- `annotate` returns for an object of a table that annotations have a name for.
  pub annotate_returns :
      (base : Base) (data_of : Data) (naming_systems : List Text) (key : ObjectKey) (r : Record)
      (a : Annotations) {table : Text}
      → object_table key.table ≡ some table
      → annotate space casefold lower base data_of naming_systems key r a ≢ none
  unfolding annotate
  annotate_returns base data_of naming_systems key r a f e =
      elim (Option-cases (add_usages key 1 (data_of.usages r) a.usage)) [
        | inl g ↦ add_usages_returns key 1 (data_of.usages r) a.usage f g
        | inr (u, g) ↦
            elim (Option-cases (add_aliases space casefold lower key (data_of.aliases r) a.alias)) [
              | inl k ↦ add_aliases_returns key (data_of.aliases r) a.alias k
              | inr (c, k) ↦ absurd (ground (arith, e, g, k))
            ]
      ]
