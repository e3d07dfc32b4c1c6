-- ===== src/Georepository/Freshness.antt =====
-- Whether a cache is older than the register (`_reconcile_versions` and `_own_version` of
-- geodetic_engine/projdb/build.py, `versions` and `record_versions` of
-- geodetic_engine/georepository/cache.py). The live versions are those that the client has read.
pub mod Reports
use geodetic_engine.Base.{
  ℕ, Bool, true, false, not, ◌&&◌, ◌||◌, Option, none, some, List, [], ◌∷◌, ◌++◌, ◌==◌, Text,
  text_eq, Text-discrete, Eq, if◌then◌else◌, Result, ok, err, ◌>>=◌,
}
use geodetic_engine.Base.Dict
use geodetic_engine.Base.Dict.{Dict}
use geodetic_engine.Base.Texts.{is_empty}
use geodetic_engine.Georepository.Cache.{Cache, clear}
use geodetic_engine.Georepository.Versions.{Digits, ValueError, is_newer}

pub data CacheMode : Type 0 where
  served refreshed off : CacheMode

-- A cache file with its table `register_version`, and the statistics of a build with it.
pub record CacheFile : Type 0 where
  pub responses : Cache
  pub register_version : Dict Text Text

-- A data source whose version in the register is newer than the one in the cache.
pub record Stale : Type 0 where
  pub source : Text
  pub cached : Text
  pub version : Text

Stale-discrete : Discrete Stale
unfolding Text-discrete
Stale-discrete = hlevel Text-discrete

instance unfoldable pub stale_eq : Eq Stale
unfolding Stale-discrete
stale_eq = record { dec = Stale-discrete }

-- `INSERT OR REPLACE` of each version
unfoldable pub record_versions : Dict Text Text → CacheFile → CacheFile
record_versions [] f = f
record_versions ((source, version) ∷ versions) f =
    record_versions versions
      (record f { register_version = Dict.insert source version f.register_version })

abbrev pub is_refresh : CacheMode → Bool
is_refresh served = false
is_refresh refreshed = true
is_refresh off = false

module _ (d : Digits) where
  -- One element of the list of stale sources, or none.
  unfoldable pub staleness : Dict Text Text → Text → Text → Result ValueError (List Stale)
  staleness cached source version = elim (Dict.lookup source cached) [
    | none ↦ ok []
    | some old ↦ elim (is_newer d version old) [
      | err e ↦ err e
      | ok newer ↦
          ok
            (if newer then record { source = source; cached = old; version = version } ∷ [] else [])
    ]
  ]

  unfoldable pub stale_sources : Dict Text Text → Dict Text Text → Result ValueError (List Stale)
  stale_sources cached [] = ok []
  stale_sources cached ((source, version) ∷ versions) = elim (staleness cached source version) [
    | err e ↦ err e
    | ok found ↦ elim (stale_sources cached versions) [
      | err e ↦ err e
      | ok later ↦ ok (found ++ later)
    ]
  ]

  -- `_reconcile_versions` with a cache: the cache after it, and the stale sources.
  unfoldable pub reconcile_versions :
      CacheMode → Dict Text Text → CacheFile → Result ValueError (CacheFile × List Stale)
  unfolding clear
  reconcile_versions mode versions f =
      let f' =
        if is_refresh mode || is_empty f.register_version
        then record f { responses = clear f.responses }
        else f in
      elim (stale_sources f.register_version versions) [ err e ↦ err e | ok stale ↦ ok (f', stale) ]

  -- What `run` does with the versions before its requests and after them: a build that used the
  -- responses of an earlier one leaves the recorded versions as they are.
  unfoldable pub record_after : CacheMode → Dict Text Text → Dict Text Text → CacheFile → CacheFile
  record_after mode before versions f =
      if is_refresh mode || is_empty before then record_versions versions f else f

module _ (casefold : Text → Text) where
  abbrev pub version_of : Text → Dict Text Text → Option Text
  version_of authority [] = none
  version_of authority ((source, version) ∷ versions) =
      if casefold source == casefold authority then some version else version_of authority versions

  -- `_own_version`, over the authorities in their order
  unfoldable pub own_version : List Text → Dict Text Text → Option Text → Option Text
  own_version [] versions fallback = fallback
  own_version (authority ∷ authorities) versions fallback = elim (version_of authority versions) [
    | some version ↦ some version
    | none ↦ own_version authorities versions fallback
  ]
