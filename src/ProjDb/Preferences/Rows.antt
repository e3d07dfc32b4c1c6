-- ===== src/ProjDb/Preferences/Rows.antt =====
-- Which pairs of authorities get a row, and what it says (geodetic_engine/projdb/authority.py).
use geodetic_engine.Base.{
  ℕ, ◌≡◌, refl, ◌∙◌, Bool, ◌&&◌, ◌||◌, Option, none, some, List, [], ◌∷◌, ◌++◌, not, ◌==◌, contains,
  contains-append, Text, text_eq, text_pair_eq, if◌then◌else◌, arith, Bool-cases, Option-cases, inl,
  inr,
}
use geodetic_engine.Base.Dict
use geodetic_engine.Base.Dict.{Dict}
use geodetic_engine.ProjDb.Preferences.{
  PreferenceSettings, AuthorityPreference, no_preference, custom_only, custom_first, Preferences,
  any, place_text, sorted_texts, distinct_from, join_names, split, preferred, custom, preference,
  rows_of, rows_for, is_custom, extended, extend_row, extend_rows, preferred_targets, other_sources,
  custom_rows, rows_in, preference_rows, sort_rows, place_row, pair_lt,
}

pair-eq : (p q : Text × Text) → (p == q) ≡ (p.0 == q.0 && p.1 == q.1)
pair-eq (a, b) (c, d) = elim (text_pair_eq.dec (a, b) (c, d)) [
  | yes q ↦ ground (arith, q)
  | no n ↦ ground (arith, n)
]

-- Each pair has one row.
abbrev pub IsKeyed : Preferences → Type 0
IsKeyed [] = Unit
IsKeyed ((pair, allowed) ∷ rows) = (Dict.lookup pair rows ≡ none) × IsKeyed rows

lookup-place_row :
    (p : Text × Text) (allowed : Text) (rows : Preferences) (pair : Text × Text)
    → Dict.lookup p rows ≡ none
    → Dict.lookup pair (place_row (p, allowed) rows)
      ≡ (if pair == p then some allowed else Dict.lookup pair rows)
unfolding place_row Dict.lookup
lookup-place_row p allowed [] pair h = refl
lookup-place_row p allowed ((q, old) ∷ rows) pair h = elim (text_pair_eq.dec p q) [
  | yes e ↦ absurd (ground (arith, h, e))
  | no n ↦ elim (text_pair_eq.dec pair p) [
    | yes e ↦ ground (arith, h, n, e, lookup-place_row p allowed rows pair)
    | no m ↦ ground (arith, h, n, m, lookup-place_row p allowed rows pair)
  ]
]

place_row-IsKeyed :
    (p : Text × Text) (allowed : Text) (rows : Preferences)
    → Dict.lookup p rows ≡ none
    → IsKeyed rows
    → IsKeyed (place_row (p, allowed) rows)
unfolding place_row Dict.lookup
place_row-IsKeyed p allowed [] h k = (refl, tt)
place_row-IsKeyed p allowed ((q, old) ∷ rows) h (e, k) = elim (text_pair_eq.dec p q) [
  | yes f ↦ absurd (ground (arith, h, f))
  | no n ↦
      let rest : Dict.lookup p rows ≡ none = ground (arith, h, n) in
      elim (Bool-cases (pair_lt q p)) [
        | inl l ↦ rw l (
          ground (arith, n, e, lookup-place_row p allowed rows q rest),
          place_row-IsKeyed p allowed rows rest k,
        )
        | inr l ↦ rw l (h, (e, k))
      ]
]

lookup-sort_rows :
    (rows : Preferences) (pair : Text × Text)
    → IsKeyed rows
    → IsKeyed (sort_rows rows) × (Dict.lookup pair (sort_rows rows) ≡ Dict.lookup pair rows)
unfolding sort_rows Dict.lookup
lookup-sort_rows [] pair h = (tt, refl)
lookup-sort_rows ((p, allowed) ∷ rows) pair (e, h) =
    let absent = (lookup-sort_rows rows p h).1 ∙ e in
    (
      place_row-IsKeyed p allowed (sort_rows rows) absent (lookup-sort_rows rows p h).0,
      ground (
        arith,
        lookup-place_row p allowed (sort_rows rows) pair absent,
        (lookup-sort_rows rows pair h).1,
      ),
    )

contains-place_text :
    (t u : Text) (ts : List Text) → contains (place_text t ts) u ≡ (u == t || contains ts u)
unfolding place_text
contains-place_text t u [] = refl
contains-place_text t u (v ∷ ts) = ground (arith, contains-place_text t u ts)

contains-sorted_texts : (ts : List Text) (u : Text) → contains (sorted_texts ts) u ≡ contains ts u
unfolding sorted_texts
contains-sorted_texts [] u = refl
contains-sorted_texts (t ∷ ts) u =
    ground (arith, contains-place_text t u (sorted_texts ts), contains-sorted_texts ts u)

contains-distinct_from :
    (seen ts : List Text) (u : Text)
    → contains (distinct_from seen ts) u ≡ (contains ts u && not (contains seen u))
unfolding distinct_from
contains-distinct_from seen [] u = refl
contains-distinct_from seen (t ∷ ts) u = elim (text_eq.dec u t) [
  | yes q ↦
      ground (arith, q, contains-distinct_from (t ∷ seen) ts u, contains-distinct_from seen ts u)
  | no n ↦
      ground (arith, n, contains-distinct_from (t ∷ seen) ts u, contains-distinct_from seen ts u)
]

module _ (space : ℕ → Bool) (config : PreferenceSettings) (existing : Preferences) where
  lookup-rows_of :
      (source : Text) (ts : List Text) (rows : Preferences) (pair : Text × Text)
      → Dict.lookup pair (rows_of space config existing source ts rows) ≡ (
          if pair.0 == source && contains ts pair.1
          then some (preference space config existing pair)
          else Dict.lookup pair rows)
  unfolding rows_of
  lookup-rows_of source [] rows pair = ground arith
  lookup-rows_of source (t ∷ ts) rows (a, b) = ground (
    arith,
    lookup-rows_of source ts
        (Dict.insert (source, t) (preference space config existing (source, t)) rows) (a, b),
    Dict.lookup-insert (a, b) (source, t) (preference space config existing (source, t)) rows,
    pair-eq (a, b) (source, t),
  )

  lookup-rows_for :
      (sources ts : List Text) (rows : Preferences) (pair : Text × Text)
      → Dict.lookup pair (rows_for space config existing sources ts rows) ≡ (
          if contains sources pair.0 && contains ts pair.1
          then some (preference space config existing pair)
          else Dict.lookup pair rows)
  unfolding rows_for
  lookup-rows_for [] ts rows pair = refl
  lookup-rows_for (s ∷ sources) ts rows pair = ground (
    arith,
    lookup-rows_for sources ts (rows_of space config existing s ts rows) pair,
    lookup-rows_of s ts rows pair,
  )

  -- What the extension makes of the row of a pair.
  abbrev extended_by : Option Text → Option Text → Option Text
  extended_by none row = row
  extended_by (some allowed) row =
      if extended space config existing allowed == allowed
      then row
      else some (extended space config existing allowed)

  abbrev after_extension : Preferences → Text × Text → Option Text → Option Text
  after_extension earlier pair row =
      if is_custom space config existing pair
      then row
      else extended_by (Dict.lookup pair earlier) row

  lookup-extend_row :
      (p : Text × Text) (allowed : Text) (rows : Preferences) (pair : Text × Text)
      → Dict.lookup pair (extend_row space config existing p allowed rows) ≡ (
          if pair == p
          then after_extension ((p, allowed) ∷ []) pair (Dict.lookup pair rows)
          else Dict.lookup pair rows)
  unfolding extend_row Dict.lookup
  lookup-extend_row p allowed rows pair = elim (text_pair_eq.dec pair p) [
    | yes q ↦
        ground (arith, q, Dict.lookup-insert pair p (extended space config existing allowed) rows)
    | no n ↦
        ground (arith, n, Dict.lookup-insert pair p (extended space config existing allowed) rows)
  ]

  lookup-extend_rows :
      (earlier rows : Preferences) (pair : Text × Text)
      → IsKeyed earlier
      → Dict.lookup pair (extend_rows space config existing earlier rows)
        ≡ after_extension earlier pair (Dict.lookup pair rows)
  unfolding extend_rows Dict.lookup
  lookup-extend_rows [] rows pair h = ground arith
  lookup-extend_rows ((p, allowed) ∷ earlier) rows pair (e, h) = elim (text_pair_eq.dec pair p) [
    | yes q ↦ ground (
      arith,
      q,
      e,
      lookup-extend_rows earlier (extend_row space config existing p allowed rows) pair h,
      lookup-extend_row p allowed rows pair,
    )
    | no n ↦ ground (
      arith,
      n,
      lookup-extend_rows earlier (extend_row space config existing p allowed rows) pair h,
      lookup-extend_row p allowed rows pair,
    )
  ]

  -- Any authority, a fallback or a custom one.
  abbrev pub is_target : Text → Bool
  is_target t = t == any || contains config.fallback_authorities t || contains config.authorities t

  -- Whether a pair is one of a custom authority and a target, or of any or a fallback and a custom
  -- authority.
  abbrev pub is_preferred : Text × Text → Bool
  is_preferred pair =
      contains config.authorities pair.0 && is_target pair.1
      || (pair.0 == any || contains config.fallback_authorities pair.0)
        && contains config.authorities pair.1

  -- The names for a pair: the custom authorities in their order, the fallbacks, and, where a
  -- database is appended to, the names of its row for the pair, each one once.
  abbrev pub names_by : Option Text → Text
  names_by none = join_names space (sorted_texts config.authorities ++ config.fallback_authorities)
  names_by (some previous) = join_names space (
      split (join_names space (sorted_texts config.authorities ++ config.fallback_authorities))
      ++ split previous)

  abbrev pub names_for : Text × Text → Text
  names_for pair = names_by (if config.append then Dict.lookup pair existing else none)

  abbrev pub custom_row : Text × Text → Option Text
  custom_row pair = if is_preferred pair then some (names_for pair) else none

  -- The names of an earlier row and behind them the custom authorities, where that makes other ones.
  abbrev pub extended_row : Option Text → Option Text
  extended_row none = none
  extended_row (some allowed) =
      let more = join_names space (split allowed ++ sorted_texts config.authorities) in
      if more == allowed then none else some more

  -- The row of a pair in each mode.
  abbrev pub row_in : AuthorityPreference → Text × Text → Option Text
  row_in no_preference pair = none
  row_in custom_only pair = custom_row pair
  row_in custom_first pair =
      if contains config.authorities pair.0 || contains config.authorities pair.1
      then custom_row pair
      else extended_row (Dict.lookup pair existing)

  preference-names_for :
      (pair : Text × Text) → preference space config existing pair ≡ names_for pair
  unfolding preference preferred
  preference-names_for pair = elim (Option-cases (Dict.lookup pair existing)) [
    | inl e ↦ ground (arith, e)
    | inr (previous, e) ↦ ground (arith, e)
  ]

  contains-targets :
      (u : Text)
      → (contains (preferred_targets space config existing) u ≡ is_target u)
        × (contains (other_sources space config existing) u
            ≡ (u == any || contains config.fallback_authorities u))
        × (contains (custom space config existing) u ≡ contains config.authorities u)
  contains-targets u =
      let sorted = contains-sorted_texts config.authorities u in
      let targets = any ∷ (config.fallback_authorities ++ custom space config existing) in
      let appended = contains-append config.fallback_authorities (custom space config existing) u in
      (
        contains-distinct_from [] targets u ∙ ground (arith, appended, sorted),
        contains-distinct_from [] (any ∷ config.fallback_authorities) u ∙ ground arith,
        sorted,
      )

  lookup-custom_rows :
      (pair : Text × Text) → Dict.lookup pair (custom_rows space config existing) ≡ custom_row pair
  unfolding custom_rows Dict.lookup
  lookup-custom_rows pair = ground (
    arith,
    lookup-rows_for (other_sources space config existing) (custom space config existing)
        (rows_for space config existing (custom space config existing)
          (preferred_targets space config existing) [])
        pair,
    lookup-rows_for (custom space config existing) (preferred_targets space config existing) []
        pair,
    preference-names_for pair,
    contains-targets pair.0,
    contains-targets pair.1,
  )

  lookup-rows_in :
      (mode : AuthorityPreference) (pair : Text × Text)
      → IsKeyed existing
      → Dict.lookup pair (rows_in space config existing mode) ≡ row_in mode pair
  unfolding Dict.lookup
  lookup-rows_in no_preference pair h = refl
  lookup-rows_in custom_only pair h = lookup-custom_rows pair
  lookup-rows_in custom_first pair h =
      let (keyed, found) = lookup-sort_rows existing pair h in
      ground (
        arith,
        lookup-extend_rows (sort_rows existing) (custom_rows space config existing) pair keyed,
        lookup-custom_rows pair,
        found,
        contains-targets pair.0,
        contains-targets pair.1,
      )

  pub lookup-preference_rows :
      (pair : Text × Text)
      → IsKeyed existing
      → Dict.lookup pair (preference_rows space config existing)
        ≡ row_in config.authority_preference pair
  unfolding preference_rows
  lookup-preference_rows pair h = lookup-rows_in config.authority_preference pair h
