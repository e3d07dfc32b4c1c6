-- ===== src/Tests/Records.antt =====
-- Usages, aliases and preferences of a small build.
use geodetic_engine.Base.{
  ℕ, ◌≡◌, refl, Bool, true, false, none, some, [], ◌∷◌, ◌==◌, Text, text_eq, nat_eq, text_pair_eq,
  codes,
}
use geodetic_engine.Base.Dict
use geodetic_engine.Base.Texts.{strip, lstrip, rstrip}
use geodetic_engine.ProjDb.Rows.{null, ObjectKey}
use geodetic_engine.ProjDb.Refreshing.{object_table}
use geodetic_engine.ProjDb.Usages
use geodetic_engine.ProjDb.Usages.{
  Scope, Extent, UsageAccumulator, add_usage, digits, decimal, set_default,
}
use geodetic_engine.ProjDb.Usages.Invariant.{IsAccounted, add-IsAccounted}
use geodetic_engine.ProjDb.Aliases
use geodetic_engine.ProjDb.Aliases.{AliasCollector, Identity, identity_eq, is_aliasable, is_wanted}
use geodetic_engine.ProjDb.Aliases.Kept.{AreAdmissible, add-AreAdmissible}
use geodetic_engine.ProjDb.Preferences.{
  PreferenceSettings, custom_first, Preferences, preference_rows, join, split,
}
use geodetic_engine.ProjDb.Preferences.Joined.{split-join}
use geodetic_engine.ProjDb.Preferences.Rows.{row_in, lookup-preference_rows}

abbrev pub key : ObjectKey
key = record { table = codes "ellipsoid"; auth_name = codes "X"; code = codes "1" }

abbrev scope : Scope
scope = record { auth_name = codes "X"; code = codes "s"; scope = codes "All"; deprecated = 0 }

abbrev extent : Extent
extent = record {
  auth_name = codes "X";
  code = codes "e";
  name = codes "World";
  description = null;
  south_lat = null;
  north_lat = null;
  west_lon = null;
  east_lon = null;
  deprecated = 0;
}

abbrev pub no_usages : UsageAccumulator
no_usages = record { usages = []; scopes = []; extents = []; counter = 0 }

pub no_usages-IsAccounted : IsAccounted no_usages
no_usages-IsAccounted = record { counted = refl; numbered = tt; told_apart = tt; referenced = tt }

abbrev pub one_usage : UsageAccumulator
one_usage = add_usage (codes "ellipsoid") key scope extent none no_usages

used : Usages.add key (some scope) (some extent) none no_usages ≡ some one_usage
unfolding Usages.add object_table text_eq nat_eq
used = refl

add-IsAccounted_holds : IsAccounted one_usage
add-IsAccounted_holds =
    add-IsAccounted key (some scope) (some extent) none no_usages no_usages-IsAccounted used

abbrev pub is_blank : ℕ → Bool
is_blank c = c == b' '

abbrev pub same : Text → Text
same t = t

abbrev pub no_aliases : AliasCollector
no_aliases = record { naming_systems = codes "X" ∷ []; rows = []; seen = [] }

pub no_aliases-AreAdmissible : AreAdmissible is_blank same no_aliases
no_aliases-AreAdmissible = record {
  distinct = tt;
  long_enough = tt;
  wanted = tt;
  known = λ identity. refl;
}

abbrev identity : Identity
identity = record {
  table_name = codes "ellipsoid";
  auth_name = codes "X";
  code = codes "1";
  alias = codes "ab";
}

abbrev pub one_alias : AliasCollector
one_alias = record no_aliases {
  rows = record { identity = identity; source = some (codes "X") } ∷ [];
  seen = identity ∷ [];
}

aliased :
    Aliases.add is_blank same key (some (codes " ab ")) (codes "X") no_aliases
    ≡ some (one_alias, true)
unfolding Aliases.add is_aliasable is_wanted object_table text_eq nat_eq strip lstrip rstrip
aliased = refl

add-AreAdmissible_example : AreAdmissible is_blank same one_alias
add-AreAdmissible_example =
    add-AreAdmissible is_blank same key (some (codes " ab ")) (codes "X") no_aliases
      {out = (one_alias, true)} no_aliases-AreAdmissible aliased

abbrev pub settings : PreferenceSettings
settings = record {
  authority_preference = custom_first;
  authorities = codes "X" ∷ [];
  fallback_authorities = codes "EPSG" ∷ [];
  append = false;
}

abbrev existing : Preferences
existing = ((codes "EPSG", codes "EPSG"), codes "PROJ,EPSG") ∷ []

lookup-preference_rows_example :
    Dict.lookup (codes "EPSG", codes "EPSG") (preference_rows is_blank settings existing)
    ≡ row_in is_blank settings existing custom_first (codes "EPSG", codes "EPSG")
unfolding Dict.lookup
lookup-preference_rows_example =
    lookup-preference_rows is_blank settings existing (codes "EPSG", codes "EPSG") (refl, tt)

split-join_holds :
    split (join (codes "PROJ" ∷ codes "EPSG" ∷ [])) ≡ codes "PROJ" ∷ codes "EPSG" ∷ []
unfolding nat_eq
split-join_holds = split-join (codes "PROJ") (codes "EPSG" ∷ []) (refl, (refl, tt))
