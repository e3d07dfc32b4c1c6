-- ===== src/Georepository/Freshness/Reports.antt =====
-- What a build reports of the age of its cache (geodetic_engine/projdb/build.py).
use geodetic_engine.Base.{
  ◌≡◌, Bool, false, ◌&&◌, ◌||◌, Option, none, some, List, [], ◌∷◌, ◌==◌, contains, contains-append,
  Text, text_eq, if◌then◌else◌, Result, ok, err, arith, Option-cases, Result-cases, inl, inr,
}
use geodetic_engine.Base.Dict
use geodetic_engine.Base.Dict.{Dict}
use geodetic_engine.Base.Texts.{is_empty}
use geodetic_engine.Georepository.Cache.{clear}
use geodetic_engine.Georepository.Versions.{Digits, ValueError, is_newer}
use geodetic_engine.Georepository.Freshness.{
  CacheMode, CacheFile, Stale, stale_eq, is_refresh, staleness, stale_sources, reconcile_versions,
}

-- Whether a version is listed for a source.
abbrev pub lists : Text → Text → Dict Text Text → Bool
lists source version [] = false
lists source version ((s, v) ∷ d) = (source == s && version == v) || lists source version d

abbrev pub is_some_text : Text → Option Text → Bool
is_some_text t none = false
is_some_text t (some u) = t == u

abbrev pub surely : Result ValueError Bool → Bool
surely (ok b) = b
surely (err e) = false

module _ (d : Digits) where
  -- Whether the cache holds a source in a version than which another is newer.
  abbrev pub outdates : Dict Text Text → Stale → Bool
  outdates cached x =
      is_some_text x.cached (Dict.lookup x.source cached) && surely (is_newer d x.version x.cached)

  contains-staleness :
      (cached : Dict Text Text) (source version : Text) (x : Stale) {found : List Stale}
      → staleness d cached source version ≡ ok found
      → contains found x ≡ ((x.source == source && x.version == version) && outdates cached x)
  unfolding staleness stale_eq
  contains-staleness cached source version x h = elim (Option-cases (Dict.lookup source cached)) [
    | inl e ↦ elim (text_eq.dec x.source source) [
      | yes q ↦ ground (arith, e, q, h)
      | no n ↦ ground (arith, e, h)
    ]
    | inr (old, e) ↦ elim (Result-cases (is_newer d version old)) [
      | inr (y, f) ↦ absurd (ground (arith, e, f, h))
      | inl (newer, f) ↦ elim (text_eq.dec x.source source) [
        | yes q ↦ ground (arith, e, f, q, h)
        | no n ↦ ground (arith, e, f, h)
      ]
    ]
  ]

  contains-stale_sources :
      (cached versions : Dict Text Text) (x : Stale) {stale : List Stale}
      → stale_sources d cached versions ≡ ok stale
      → contains stale x ≡ (lists x.source x.version versions && outdates cached x)
  unfolding stale_sources
  contains-stale_sources cached [] x h = ground arith
  contains-stale_sources cached ((source, version) ∷ versions) x h =
      elim (Result-cases (staleness d cached source version)) [
        | inr (y, e) ↦ absurd (ground (arith, e, h))
        | inl (found, e) ↦ elim (Result-cases (stale_sources d cached versions)) [
          | inr (y, f) ↦ absurd (ground (arith, e, f, h))
          | inl (later, f) ↦ ground (
            arith,
            e,
            f,
            h,
            contains-append found later x,
            contains-staleness cached source version x e,
            contains-stale_sources cached versions x f,
          )
        ]
      ]

  -- Where `_reconcile_versions` returns, a source is reported as stale, with both versions, exactly
  -- if the register has the one version, the cache was recorded with the other, and the first is
  -- newer; the recorded versions stay, and no response is left if the build refreshes or no version
  -- was recorded, and else they all are.
  pub reconcile_versions_lem :
      (mode : CacheMode) (versions : Dict Text Text) (f : CacheFile) (x : Stale)
      {out : CacheFile × List Stale}
      → reconcile_versions d mode versions f ≡ ok out
      → (contains out.1 x ≡ (lists x.source x.version versions && outdates f.register_version x))
        × (out.0.register_version ≡ f.register_version)
        × (out.0.responses.rows
            ≡ (if is_refresh mode || is_empty f.register_version then [] else f.responses.rows))
  unfolding reconcile_versions clear
  reconcile_versions_lem mode versions f x {out} h =
      elim (Result-cases (stale_sources d f.register_version versions)) [
        | inr (y, e) ↦ absurd (ground (arith, e, h))
        | inl (stale, e) ↦ (
          ground (arith, e, h, contains-stale_sources f.register_version versions x e),
          ground (arith, e, h),
          ground (arith, e, h),
        )
      ]
