-- ===== src/ProjDb/Aliases.antt =====
-- The aliases of a build's objects (`AliasCollector` of geodetic_engine/projdb/alias.py).
pub mod Kept
use geodetic_engine.Base.{
  ℕ, Bool, true, false, not, ◌&&◌, ◌||◌, Option, none, some, List, [], ◌∷◌, ◌++◌, ◌==◌, map,
  contains, Text, text_eq, Eq, Text-discrete, codes, if◌then◌else◌, length, ltb,
}
use geodetic_engine.Base.Texts.{strip, unless_empty, or_blank}
use geodetic_engine.ProjDb.Columns.{words}
use geodetic_engine.ProjDb.Rows.{ObjectKey}
use geodetic_engine.ProjDb.Refreshing.{object_table}

-- `ALIASABLE_TABLES`
abbrev pub aliasable_tables : List Text
aliasable_tables =
    words "unit_of_measure celestial_body ellipsoid extent prime_meridian geodetic_datum"
    ++ words "vertical_datum engineering_datum geodetic_crs projected_crs vertical_crs"
    ++ words "compound_crs engineering_crs conversion_table grid_transformation"
    ++ words "helmert_transformation_table other_transformation concatenated_operation"

unfoldable pub is_aliasable : Text → Bool
is_aliasable table = contains aliasable_tables table

-- `ALL_NAMING_SYSTEMS`
abbrev pub all_naming_systems : Text
all_naming_systems = codes "*"

-- `_MINIMUM_LENGTH`
abbrev pub minimum_length : ℕ
minimum_length = 2

-- Which object an alias is of, and the alias.
pub record Identity : Type 0 where
  pub table_name : Text
  pub auth_name : Text
  pub code : Text
  pub alias : Text

Identity-discrete : Discrete Identity
unfolding Text-discrete
Identity-discrete = hlevel Text-discrete

instance unfoldable pub identity_eq : Eq Identity
unfolding Identity-discrete
identity_eq = record { dec = Identity-discrete }

pub record AliasRow : Type 0 where
  pub identity : Identity
  pub source : Option Text

-- `AliasCollector`, with the naming systems that it was made for.
pub record AliasCollector : Type 0 where
  pub naming_systems : List Text
  pub rows : List AliasRow
  pub seen : List Identity

-- `str.isspace` and `str.casefold`
module _ (space : ℕ → Bool) (casefold : Text → Text) where
  unfoldable pub is_wanted : List Text → Text → Bool
  is_wanted systems source =
      contains systems all_naming_systems || contains (map casefold systems) (casefold source)

  abbrev pub identity_of : Text → ObjectKey → Option Text → Identity
  identity_of table key alias = record {
    table_name = table;
    auth_name = key.auth_name;
    code = key.code;
    alias = strip space (or_blank alias);
  }

  abbrev pub add_identity : Identity → Text → AliasCollector → AliasCollector × Bool
  add_identity identity source c = if contains c.seen identity then (c, false) else (
    record c {
      seen = identity ∷ c.seen;
      rows = c.rows ++ (record { identity = identity; source = unless_empty source } ∷ []);
    },
    true,
  )

  -- `AliasCollector.add`: whether a row was added. None is a `KeyError`.
  unfoldable pub add :
      ObjectKey → Option Text → Text → AliasCollector → Option (AliasCollector × Bool)
  add key alias source c =
      if not (is_aliasable key.table)
      then some (c, false)
      else if not (is_wanted c.naming_systems source)
      then some (c, false)
      else if ltb (length (strip space (or_blank alias))) minimum_length
      then some (c, false)
      else elim (object_table key.table) [
        | none ↦ none
        | some table ↦ some (add_identity (identity_of table key alias) source c)
      ]
