-- ===== src/OsduDb/Annotating.antt =====
-- The annotations of a record's object (`annotate`, `candidates` and `skip` of
-- geodetic_engine/osdudb/context.py). What is read of a record's data is a parameter, `Data`.
pub mod Gathered
use geodetic_engine.Base.{
  ℕ, ◌+◌, Bool, true, false, not, ◌&&◌, Option, none, some, List, [], ◌∷◌, ◌++◌, map, contains,
  Text, text_eq, if◌then◌else◌,
}
use geodetic_engine.ProjDb.Rows.{ObjectKey, Objects, Base}
use geodetic_engine.ProjDb.Refreshing.{object_table, clear_annotations}
use geodetic_engine.ProjDb.Usages
use geodetic_engine.ProjDb.Usages.{Scope, Extent, UsageAccumulator, usage_code}
use geodetic_engine.ProjDb.Aliases
use geodetic_engine.ProjDb.Aliases.{AliasCollector}
use geodetic_engine.OsduDb.Catalogue.{Record, Context, Skipped, object_name}

-- The usages that a record states, with the scope and the extent of each, given the key for those
-- that have none of their own, and the aliases with their sources.
pub record Data : Type 0 where
  pub usages : Record → List ((Text × Text → Option Scope) × (Text × Text → Option Extent))
  pub aliases : Record → List (Text × Text)

-- What annotating changes.
pub record Annotations : Type 0 where
  pub writer : Objects
  pub deprecated_keys : List ObjectKey
  pub usage : UsageAccumulator
  pub alias : AliasCollector

-- `candidates`
unfoldable pub candidates : Context → (Record → Bool) → List Record → List Record
candidates ctx of_type [] = []
candidates ctx of_type (r ∷ rs) =
    let rest = candidates ctx of_type rs in
    if of_type r
      && contains (map ctx.casefold ctx.authorities) (ctx.casefold r.auth_name)
      && not (r.inactive && not ctx.include_deprecated)
    then r ∷ rest
    else rest

-- `skip`
abbrev pub skip : Record → Text → List Skipped → List Skipped
skip r reason skipped = skipped ++ (record { object = object_name r; reason = reason } ∷ [])

-- `(key.auth_name, f"{key.object_table_name}_{key.code}_{index}")`
abbrev pub derived : Text → ObjectKey → ℕ → Text × Text
derived table key index = (key.auth_name, usage_code table key.code index)

abbrev pub add_one :
    ObjectKey
    → ℕ
    → (Text × Text → Option Scope) × (Text × Text → Option Extent)
    → UsageAccumulator
    → Option UsageAccumulator
add_one key index (scope_of, extent_of) u = elim (object_table key.table) [
  | none ↦ none
  | some table ↦
      Usages.add key (scope_of (derived table key index)) (extent_of (derived table key index)) none
        u
]

-- The loop over the usages. None is a `KeyError`.
unfoldable pub add_usages :
    ObjectKey
    → ℕ
    → List ((Text × Text → Option Scope) × (Text × Text → Option Extent))
    → UsageAccumulator
    → Option UsageAccumulator
add_usages key index [] u = some u
add_usages key index (stated ∷ usages) u = elim (add_one key index stated u) [
  | none ↦ none
  | some u' ↦ add_usages key (index + 1) usages u'
]

module _ (space : ℕ → Bool) (casefold lower : Text → Text) where
  -- The loop over the aliases.
  unfoldable pub add_aliases :
      ObjectKey → List (Text × Text) → AliasCollector → Option AliasCollector
  add_aliases key [] c = some c
  add_aliases key ((alias, source) ∷ aliases) c =
      elim (Aliases.add space casefold key (some alias) source c) [
        | none ↦ none
        | some (c', done) ↦ add_aliases key aliases c'
      ]

  abbrev pub with_usages :
      Objects
      → List ObjectKey
      → Option UsageAccumulator
      → Option AliasCollector
      → Option Annotations
  with_usages w keys none c = none
  with_usages w keys (some u) none = none
  with_usages w keys (some u) (some c) =
      some (record { writer = w; deprecated_keys = keys; usage = u; alias = c })

  -- `annotate`
  unfoldable pub annotate :
      Base → Data → List Text → ObjectKey → Record → Annotations → Option Annotations
  annotate base data_of naming_systems key r a =
      with_usages (clear_annotations base lower key naming_systems a.writer)
        (if r.inactive then key ∷ a.deprecated_keys else a.deprecated_keys)
        (add_usages key 1 (data_of.usages r) a.usage) (add_aliases key (data_of.aliases r) a.alias)
