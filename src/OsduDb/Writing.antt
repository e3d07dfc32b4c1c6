-- ===== src/OsduDb/Writing.antt =====
-- What a build writes after its objects: their annotations and the preferences of authorities
-- (`write_annotations` and `write_authority_preferences` of geodetic_engine/projdb/common.py, with
-- the reads of geodetic_engine/projdb/authority.py).
pub mod Untouched
use geodetic_engine.Base.{
  ℕ, Bool, true, false, not, ◌&&◌, ◌||◌, Option, none, some, List, [], ◌∷◌, ◌++◌, ◌==◌, map,
  contains, Text, text_eq, text_pair_eq, codes, if◌then◌else◌, Result, ok, err, ◌>>=◌, ◌>>◌,
}
use geodetic_engine.Base.Dict
use geodetic_engine.Base.Dict.{Dict}
use geodetic_engine.Base.Texts.{is_empty}
use geodetic_engine.ProjDb.Rows.{
  Value, null, number, text, str, get, Row, Stored, Objects, Base, InsertError,
}
use geodetic_engine.ProjDb.Objects.{insert}
use geodetic_engine.ProjDb.Refreshing.{preference_table, upsert_authority_preferences}
use geodetic_engine.ProjDb.Usages.{Scope, Extent, Usage, UsageAccumulator, decimal}
use geodetic_engine.ProjDb.Aliases.{AliasRow, AliasCollector}
use geodetic_engine.ProjDb.Preferences.{
  PreferenceSettings, Preferences, builtin_rows, preference_rows,
}
use geodetic_engine.OsduDb.Staging.{Staging, Config, should_import, known, write_staged}

-- What stops the writing: a scope or an extent of another authority, or the writer.
pub data WritingError : Type 0 where
  foreign_annotations : WritingError
  refused : InsertError → WritingError

abbrev pub written : {A : Type 0} → Result InsertError A → Result WritingError A
written (ok a) = ok a
written (err e) = err (refused e)

abbrev pub flag : ℕ → Value
flag n = number n (decimal n)

abbrev pub or_null : Option Text → Value
or_null none = null
or_null (some t) = text t

-- The rows that are written for what was collected.
abbrev pub scope_row : Scope → Row
scope_row s =
    (codes "auth_name", text s.auth_name)
    ∷ (codes "code", text s.code)
    ∷ (codes "scope", text s.scope)
    ∷ (codes "deprecated", flag s.deprecated)
    ∷ []

abbrev pub extent_row : Extent → Row
extent_row e =
    (codes "auth_name", text e.auth_name)
    ∷ (codes "code", text e.code)
    ∷ (codes "name", text e.name)
    ∷ (codes "description", e.description)
    ∷ (codes "south_lat", e.south_lat)
    ∷ (codes "north_lat", e.north_lat)
    ∷ (codes "west_lon", e.west_lon)
    ∷ (codes "east_lon", e.east_lon)
    ∷ (codes "deprecated", flag e.deprecated)
    ∷ []

abbrev pub usage_row : Usage → Row
usage_row u =
    (codes "auth_name", text u.auth_name)
    ∷ (codes "code", text u.code)
    ∷ (codes "object_table_name", text u.object_table_name)
    ∷ (codes "object_auth_name", text u.object_auth_name)
    ∷ (codes "object_code", text u.object_code)
    ∷ (codes "extent_auth_name", text u.extent.0)
    ∷ (codes "extent_code", text u.extent.1)
    ∷ (codes "scope_auth_name", text u.scope.0)
    ∷ (codes "scope_code", text u.scope.1)
    ∷ []

abbrev pub alias_row : AliasRow → Row
alias_row a =
    (codes "table_name", text a.identity.table_name)
    ∷ (codes "auth_name", text a.identity.auth_name)
    ∷ (codes "code", text a.identity.code)
    ∷ (codes "alt_name", text a.identity.alias)
    ∷ (codes "source", or_null a.source)
    ∷ []

-- `read_builtin`
unfoldable pub read_builtin : List Stored → List Text
read_builtin [] = []
read_builtin (s ∷ rows) =
    let rest = read_builtin rows in
    if s.table == codes "builtin_authorities"
    then str (get (codes "auth_name") s.row) ∷ rest
    else rest

-- `read_existing`, behind the rows that were read: a later row of a pair replaces an earlier one.
unfoldable pub read_existing : List Stored → Preferences → Preferences
read_existing [] found = found
read_existing (s ∷ rows) found = read_existing rows (
    if s.table == preference_table
    then Dict.insert
        (str (get (codes "source_auth_name") s.row), str (get (codes "target_auth_name") s.row))
        (str (get (codes "allowed_authorities") s.row)) found
    else found)

abbrev pub builtin_row : Text → Row
builtin_row name = (codes "auth_name", text name) ∷ []

abbrev pub preference_row : (Text × Text) × Text → Row
preference_row ((source, target), allowed) =
    (codes "source_auth_name", text source)
    ∷ (codes "target_auth_name", text target)
    ∷ (codes "allowed_authorities", text allowed)
    ∷ []

module _ (config : Config) (base : Base) (sort_by : Text → List Row → List Row) where
  -- The entries of a dictionary that `should_import` selects, and the state after the calls.
  unfoldable pub select_new :
      {V : Type 0}
      → Objects
      → Text
      → Dict (Text × Text) V
      → Staging
      → Dict (Text × Text) V × Staging
  select_new w table [] s = ([], s)
  select_new w table (((auth, code), v) ∷ d) s =
      let (wanted, s') = should_import w config base table auth (some code) s in
      let (rest, after) = select_new w table d s' in
      (if wanted then ((auth, code), v) ∷ rest else rest, after)

  unfoldable pub all_own : {V : Type 0} → Dict (Text × Text) V → Bool
  all_own [] = true
  all_own (((auth, code), v) ∷ d) =
      contains (map config.casefold config.authorities) (config.casefold auth) && all_own d

  -- `known_keys(table).add(…)`
  unfoldable pub add_known :
      {V : Type 0} → Objects → Text → Dict (Text × Text) V → Staging → Staging
  add_known w table [] s = s
  add_known w table ((key, v) ∷ d) s =
      add_known w table d
        (record s { existing = Dict.insert table (key ∷ known w table s) s.existing })

  abbrev pub put : Text → List Row → Objects → Result WritingError Objects
  put table rows w = written (insert base sort_by table rows w >>= λ out. ok out.0)

  -- The four calls of `insert` for the scopes and extents that are new, the usages and the aliases.
  unfoldable pub write_collected :
      Dict (Text × Text) Scope
      → Dict (Text × Text) Extent
      → UsageAccumulator
      → AliasCollector
      → Staging
      → Objects
      → Result WritingError (Objects × Staging)
  write_collected scopes extents usage alias s w =
      put (codes "scope") (map (λ entry. scope_row entry.1) scopes) w >>= λ w₁.
      put (codes "extent") (map (λ entry. extent_row entry.1) extents) w₁ >>= λ w₂.
      put (codes "usage") (map usage_row usage.usages) w₂ >>= λ w₃.
      put (codes "alias_name") (map alias_row alias.rows) w₃ >>= λ w₄.
      ok (w₄, add_known w₂ (codes "extent") extents (add_known w₂ (codes "scope") scopes s))

  -- `write_annotations`
  unfoldable pub write_annotations :
      UsageAccumulator
      → AliasCollector
      → Staging
      → Objects
      → Result WritingError (Objects × Staging)
  write_annotations usage alias s w =
      let (scopes, s₁) = select_new w (codes "scope") usage.scopes s in
      let (extents, s₂) = select_new w (codes "extent") usage.extents s₁ in
      if all_own scopes && all_own extents
      then write_collected scopes extents usage alias s₂ w
      else err foreign_annotations

  -- `write_authority_preferences`, with the rows that were written
  unfoldable pub write_authority_preferences :
      (ℕ → Bool) → PreferenceSettings → Objects → Result WritingError (Objects × Preferences)
  write_authority_preferences space settings w =
      put (codes "builtin_authorities")
        (map builtin_row (builtin_rows config.casefold settings.authorities (read_builtin w.rows)))
        w
      >>= λ w₁.
          let rows = preference_rows space settings (read_existing w₁.rows []) in
          written (upsert_authority_preferences base (map preference_row rows) w₁) >>= λ out.
          ok (out.0, rows)

  -- The calls of `build` that write rows of PROJ's own tables, in their order. The ids and the
  -- references are written between the last two, to tables of their own.
  unfoldable pub write_build :
      (ℕ → Bool)
      → PreferenceSettings
      → UsageAccumulator
      → AliasCollector
      → Staging
      → Objects
      → Result WritingError Objects
  write_build space settings usage alias s w = do
    objects ← written (write_staged base sort_by s w)
    annotated ← write_annotations usage alias s objects
    preferring ← write_authority_preferences space settings annotated.0
    ok preferring.0
