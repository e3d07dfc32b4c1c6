-- ===== src/OsduDb/Staging/Recorded.antt =====
-- What a build knows of the objects that it staged (geodetic_engine/osdudb/context.py).
use geodetic_engine.Base.{
  ◌≡◌, refl, sym, true, false, ◌&&◌, none, some, List, [], ◌∷◌, ◌==◌, contains, Text, text_eq,
  texts_eq, text_pair_eq, if◌then◌else◌, ok, arith, ◌⊎◌, Option-cases, Result-cases, inl, inr,
}
use geodetic_engine.Base.Dict
use geodetic_engine.Base.Texts.{is_empty}
use geodetic_engine.ProjDb.Rows.{Row, ObjectKey, object_key_eq, Objects, Base}
use geodetic_engine.OsduDb.Staging.{
  Staging, Config, steps, row_key, staged_row, known, known_keys, is_new, record_object, record_row,
  add_row, stage_row, stage, require_reference, should_import,
}
use geodetic_engine.OsduDb.Staging.Spec.{staged_row-stage_row}

abbrev object_of : Text → Text → Text → ObjectKey
object_of table auth code = record { table = table; auth_name = auth; code = code }

module _ (writer : Objects) where
  -- Every object of which a row waits counts as taken in, and as known.
  pub record IsRecorded (s : Staging) : Type 0 where
    pub taken :
        (table auth code : Text) (row : Row)
        → (table == steps) ≡ false
        → staged_row table (auth ∷ code ∷ []) s ≡ some row
        → contains s.processed (object_of table auth code) ≡ true
    pub there :
        (table auth code : Text) (row : Row)
        → (table == steps) ≡ false
        → staged_row table (auth ∷ code ∷ []) s ≡ some row
        → contains (known writer table s) (auth, code) ≡ true

  known-record_object :
      (t a c table : Text) (s : Staging)
      → known writer t (record_object writer table a c s)
        ≡ (if t == table then (a, c) ∷ known writer table s else known writer t s)
  unfolding known record_object
  known-record_object t a c table s =
      ground (arith, Dict.lookup-insert t table ((a, c) ∷ known writer table s) s.existing)

  keeps_processed :
      (t : Text) (k : List Text) (s : Staging) (key : ObjectKey)
      → contains s.processed key ≡ true
      → contains (record_row writer t k s).processed key ≡ true
  unfolding record_row record_object
  keeps_processed t [] s key h = h
  keeps_processed t (a ∷ []) s key h = h
  keeps_processed t (a ∷ c ∷ []) s key h = ground (arith, h)
  keeps_processed t (a ∷ c ∷ d ∷ k) s key h = h

  keeps_known :
      (t : Text) (k : List Text) (s : Staging) (table : Text) (key : Text × Text)
      → contains (known writer table s) key ≡ true
      → contains (known writer table (record_row writer t k s)) key ≡ true
  unfolding record_row
  keeps_known t [] s table key h = h
  keeps_known t (a ∷ []) s table key h = h
  keeps_known t (a ∷ c ∷ []) s table key h = elim (text_eq.dec table t) [
    | no n ↦ ground (arith, n, h, known-record_object table a c t s)
    | yes q ↦ ground (arith, q, h, known-record_object table a c t s)
  ]
  keeps_known t (a ∷ c ∷ d ∷ k) s table key h = h

  own_processed :
      (table a c t : Text) (k : List Text) (s : Staging)
      → table ≡ t
      → a ∷ c ∷ [] ≡ k
      → (table == steps) ≡ false
      → contains (record_row writer t k s).processed (object_of table a c) ≡ true
  unfolding record_row record_object
  own_processed table a c t k s p q h = rw (sym p, sym q) (ground (arith, h))

  own_known :
      (table a c t : Text) (k : List Text) (s : Staging)
      → table ≡ t
      → a ∷ c ∷ [] ≡ k
      → (table == steps) ≡ false
      → contains (known writer table (record_row writer t k s)) (a, c) ≡ true
  unfolding record_row
  own_known table a c t k s p q h =
      rw (sym p, sym q) (ground (arith, h, known-record_object table a c table s))

  -- The row that waits after `record_row` is the one before.
  staged_row-record_row :
      (table : Text) (key : List Text) (t : Text) (k : List Text) (row : Row) (s : Staging)
      → staged_row t k s ≡ none
      → staged_row table key (record_row writer t k (add_row writer t k row s))
        ≡ (if table == t && key == k then some row else staged_row table key s)
  unfolding stage_row
  staged_row-record_row table key t k row s h =
      ground (arith, h, staged_row-stage_row writer table key t k row s)

  module _ (t : Text) (k : List Text) (row : Row) (s : Staging)
      (vacant : staged_row t k s ≡ none) where
    abbrev after : Staging
    after = record_row writer t k (add_row writer t k row s)

    -- The row is the object's own, or it waited before.
    own_or_earlier :
        (table auth code : Text) (r : Row)
        → staged_row table (auth ∷ code ∷ []) after ≡ some r
        → ((table ≡ t) × (auth ∷ code ∷ [] ≡ k)) ⊎ (staged_row table (auth ∷ code ∷ []) s ≡ some r)
    own_or_earlier table auth code r h =
        let e = staged_row-record_row table (auth ∷ code ∷ []) t k row s vacant in
        elim (text_eq.dec table t) [
          | no n ↦ inr (ground (arith, n, e, h))
          | yes p ↦ elim (texts_eq.dec (auth ∷ code ∷ []) k) [
            | yes q ↦ inl (p, q)
            | no n ↦ inr (ground (arith, n, e, h))
          ]
        ]

    known-add_row :
        (table : Text) → known writer table (add_row writer t k row s) ≡ known writer table s
    unfolding known
    known-add_row table = refl

    record_row-IsRecorded : IsRecorded s → IsRecorded after
    record_row-IsRecorded r =
        let added = add_row writer t k row s in
        record {
          taken = λ table auth code q h f. elim (own_or_earlier table auth code q f) [
            | inl (p, e) ↦ own_processed table auth code t k added p e h
            | inr e ↦
                keeps_processed t k added (object_of table auth code)
                  (r.taken table auth code q h e)
          ];
          there = λ table auth code q h f. elim (own_or_earlier table auth code q f) [
            | inl (p, e) ↦ own_known table auth code t k added p e h
            | inr e ↦
                keeps_known t k added table (auth, code)
                  (rw (known-add_row table) (r.there table auth code q h e))
          ];
        }

  stage_row-IsRecorded :
      (t : Text) (k : List Text) (row : Row) (s : Staging)
      → IsRecorded s
      → IsRecorded (stage_row writer t k row s)
  unfolding stage_row
  stage_row-IsRecorded t k row s r = elim (Option-cases (staged_row t k s)) [
    | inr (earlier, e) ↦ rw (e, stage_row) r
    | inl e ↦ rw (e, stage_row) (record_row-IsRecorded t k row s e r)
  ]

  -- `stage` keeps it that every object of which a row waits counts as taken in and as known.
  pub stage-IsRecorded :
      (staged : List (Text × Row)) (s : Staging) {s' : Staging}
      → IsRecorded s
      → stage writer staged s ≡ ok s'
      → IsRecorded s'
  unfolding stage
  stage-IsRecorded [] s {s'} r h = let e : s ≡ s' = ground (arith, h) in rw (sym e) r
  stage-IsRecorded ((t, row) ∷ staged) s r h = elim (Result-cases (row_key t row)) [
    | inr (x, e) ↦ absurd (ground (arith, e, h))
    | inl (k, e) ↦
        stage-IsRecorded staged (stage_row writer t k row s) (stage_row-IsRecorded t k row s r)
          (rw e at h)
  ]

  -- An object of which a row waits after `stage` may be referenced, and is not imported again unless
  -- it is asked for in another table.
  pub stage-require_reference :
      (config : Config) (base : Base) (staged : List (Text × Row)) (s : Staging)
      (table auth code : Text) (row : Row) {s' : Staging}
      → IsRecorded s
      → stage writer staged s ≡ ok s'
      → (table == steps) ≡ false
      → is_empty auth ≡ false
      → staged_row table (auth ∷ code ∷ []) s' ≡ some row
      → (require_reference writer table (some auth) (some code) s'
          ≡ ok ((auth, code), known_keys writer table s'))
        × (should_import writer config base table auth (some code) s' ≡ (false, s'))
  unfolding require_reference should_import is_new
  stage-require_reference config base staged s table auth code row {s'} r h n a f =
      let kept = stage-IsRecorded staged s r h in
      let there = kept.there table auth code row n f in
      let taken = kept.taken table auth code row n f in
      (ground (arith, there, a), ground (arith, taken))
