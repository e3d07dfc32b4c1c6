-- ===== src/ProjDb/Preferences.antt =====
-- The authorities that a build registers with PROJ and the order in which PROJ prefers their
-- operations (geodetic_engine/projdb/authority.py).
pub mod Joined
pub mod Rows
use geodetic_engine.Base.{
  ℕ, Bool, true, false, not, ◌&&◌, ◌||◌, Option, none, some, List, [], ◌∷◌, ◌++◌, ◌==◌, map,
  contains, Text, text_eq, text_pair_eq, nat_eq, codes, if◌then◌else◌,
}
use geodetic_engine.Base.Dict
use geodetic_engine.Base.Dict.{Dict}
use geodetic_engine.Base.Texts.{is_empty, strip, text_lt}

-- `sorted` of texts
unfoldable pub place_text : Text → List Text → List Text
place_text t [] = t ∷ []
place_text t (u ∷ us) = let rest = place_text t us in if text_lt u t then u ∷ rest else t ∷ u ∷ us

unfoldable pub sorted_texts : List Text → List Text
sorted_texts [] = []
sorted_texts (t ∷ ts) = place_text t (sorted_texts ts)

-- `builtin_rows`, by the names of the rows
unfoldable pub missing_names : (Text → Text) → List Text → List Text → List Text
missing_names casefold known [] = []
missing_names casefold known (name ∷ names) =
    let rest = missing_names casefold known names in
    if contains known (casefold name) then rest else name ∷ rest

unfoldable pub builtin_rows : (Text → Text) → List Text → List Text → List Text
unfolding missing_names sorted_texts
builtin_rows casefold authorities existing =
    missing_names casefold (map casefold existing) (sorted_texts authorities)

-- `dict.fromkeys`, behind the keys that there are
unfoldable pub distinct_from : List Text → List Text → List Text
distinct_from seen [] = []
distinct_from seen (t ∷ ts) =
    let rest = distinct_from (t ∷ seen) ts in
    let others = distinct_from seen ts in if contains seen t then others else t ∷ rest

abbrev pub distinct_names : List Text → List Text
distinct_names ts = distinct_from [] ts

-- `",".join(names)`
unfoldable pub join : List Text → Text
join [] = []
join (t ∷ []) = t
join (t ∷ u ∷ us) = t ++ (b',' ∷ join (u ∷ us))

abbrev pub cons_first : ℕ → List Text → List Text
cons_first c [] = (c ∷ []) ∷ []
cons_first c (t ∷ ts) = (c ∷ t) ∷ ts

-- `text.split(",")`
unfoldable pub split : Text → List Text
split [] = [] ∷ []
split (c ∷ t) = let rest = split t in if c == b',' then [] ∷ rest else cons_first c rest

-- `[name.strip() for name in names if name and name.strip()]`
unfoldable pub stripped : (ℕ → Bool) → List Text → List Text
stripped space [] = []
stripped space (name ∷ names) =
    let rest = stripped space names in
    if is_empty (strip space name) then rest else strip space name ∷ rest

-- `_join`
unfoldable pub join_names : (ℕ → Bool) → List Text → Text
unfolding stripped join distinct_from
join_names space names = join (distinct_names (stripped space names))

-- `AuthorityPreference`, with the settings that `preference_rows` reads.
pub data AuthorityPreference : Type 0 where
  no_preference custom_only custom_first : AuthorityPreference

pub record PreferenceSettings : Type 0 where
  pub authority_preference : AuthorityPreference
  pub authorities : List Text
  pub fallback_authorities : List Text
  pub append : Bool

abbrev pub any : Text
any = codes "any"

abbrev pub Preferences : Type 0
Preferences = Dict (Text × Text) Text

-- Rows by the pair of authorities, in the order of their pairs.
unfoldable pub pair_lt : Text × Text → Text × Text → Bool
pair_lt (a, b) (c, d) = if a == c then text_lt b d else text_lt a c

unfoldable pub place_row : (Text × Text) × Text → Preferences → Preferences
place_row row [] = row ∷ []
place_row row (other ∷ rows) =
    let rest = place_row row rows in
    if pair_lt other.0 row.0 then other ∷ rest else row ∷ other ∷ rows

unfoldable pub sort_rows : Preferences → Preferences
sort_rows [] = []
sort_rows (row ∷ rows) = place_row row (sort_rows rows)

module _ (space : ℕ → Bool) (config : PreferenceSettings) (existing : Preferences) where
  abbrev pub custom : List Text
  custom = sorted_texts config.authorities

  unfoldable pub preferred : Text
  preferred = join_names space (custom ++ config.fallback_authorities)

  abbrev pub behind : Option Text → Text
  behind none = preferred
  behind (some previous) = join_names space (split preferred ++ split previous)

  -- `preference`
  unfoldable pub preference : Text × Text → Text
  preference pair = if config.append then behind (Dict.lookup pair existing) else preferred

  -- The rows of a source and some targets.
  unfoldable pub rows_of : Text → List Text → Preferences → Preferences
  rows_of source [] rows = rows
  rows_of source (target ∷ preferred_targets) rows =
      rows_of source preferred_targets
        (Dict.insert (source, target) (preference (source, target)) rows)

  -- The rows of some sources and some targets.
  unfoldable pub rows_for : List Text → List Text → Preferences → Preferences
  rows_for [] preferred_targets rows = rows
  rows_for (source ∷ sources) preferred_targets rows =
      rows_for sources preferred_targets (rows_of source preferred_targets rows)

  abbrev pub is_custom : Text × Text → Bool
  is_custom pair = contains custom pair.0 || contains custom pair.1

  abbrev pub extended : Text → Text
  extended allowed = join_names space (split allowed ++ custom)

  -- A pair of other authorities, of which an earlier row is extended.
  unfoldable pub extend_row : Text × Text → Text → Preferences → Preferences
  extend_row pair allowed rows =
      if is_custom pair || extended allowed == allowed
      then rows
      else Dict.insert pair (extended allowed) rows

  unfoldable pub extend_rows : Preferences → Preferences → Preferences
  extend_rows [] rows = rows
  extend_rows ((pair, allowed) ∷ earlier) rows = extend_rows earlier (extend_row pair allowed rows)

  abbrev pub preferred_targets : List Text
  preferred_targets = distinct_names (any ∷ (config.fallback_authorities ++ custom))

  abbrev pub other_sources : List Text
  other_sources = distinct_names (any ∷ config.fallback_authorities)

  unfoldable pub custom_rows : Preferences
  custom_rows = rows_for other_sources custom (rows_for custom preferred_targets [])

  abbrev pub rows_in : AuthorityPreference → Preferences
  rows_in no_preference = []
  rows_in custom_only = custom_rows
  rows_in custom_first = extend_rows (sort_rows existing) custom_rows

  -- `preference_rows`: a later row of a pair replaces an earlier one.
  unfoldable pub preference_rows : Preferences
  preference_rows = rows_in config.authority_preference
