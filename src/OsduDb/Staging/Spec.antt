-- ===== src/OsduDb/Staging/Spec.antt =====
-- Which rows wait after `stage` (geodetic_engine/osdudb/context.py).
use geodetic_engine.Base.{
  ◌≡◌, refl, ◌&&◌, Option, none, some, List, [], ◌∷◌, ◌==◌, Text, text_eq, texts_eq, if◌then◌else◌,
  ok, err, arith, Option-cases, Result-cases, inl, inr,
}
use geodetic_engine.Base.Dict
use geodetic_engine.Base.Dict.{Dict}
use geodetic_engine.ProjDb.Rows.{Row, Objects}
use geodetic_engine.OsduDb.Staging.{
  Staging, row_key, staged_row, or_empty, record_object, record_row, add_row, stage_row, stage,
}

abbrev pub or_else : Option Row → Option Row → Option Row
or_else none r = r
or_else (some q) r = some q

-- The first row of a list that has a key in a table.
unfoldable pub first_stated : Text → List Text → List (Text × Row) → Option Row
first_stated table key [] = none
first_stated table key ((t, row) ∷ staged) = elim (row_key t row) [
  | err e ↦ first_stated table key staged
  | ok k ↦ if table == t && key == k then some row else first_stated table key staged
]

module _ (writer : Objects) where
  record_row-rows :
      (table : Text) (key : List Text) (s : Staging) → (record_row writer table key s).rows ≡ s.rows
  unfolding record_row record_object
  record_row-rows table [] s = refl
  record_row-rows table (a ∷ []) s = refl
  record_row-rows table (a ∷ c ∷ []) s = ground arith
  record_row-rows table (a ∷ c ∷ d ∷ k) s = refl

  pub staged_row-add_row :
      (table : Text) (key : List Text) (t : Text) (k : List Text) (row : Row) (s : Staging)
      → staged_row table key (add_row writer t k row s)
        ≡ (if table == t && key == k then some row else staged_row table key s)
  unfolding staged_row
  staged_row-add_row table key t k row s = elim (text_eq.dec table t) [
    | no n ↦ ground (
      arith,
      n,
      Dict.lookup-insert table t (Dict.insert k row (or_empty (Dict.lookup t s.rows))) s.rows,
    )
    | yes q ↦ ground (
      arith,
      q,
      Dict.lookup-insert table t (Dict.insert k row (or_empty (Dict.lookup t s.rows))) s.rows,
      Dict.lookup-insert key k row (or_empty (Dict.lookup t s.rows)),
    )
  ]

  staged_row-rows :
      (table : Text) (key : List Text) (s s' : Staging)
      → s'.rows ≡ s.rows
      → staged_row table key s' ≡ staged_row table key s
  unfolding staged_row
  staged_row-rows table key s s' h = rw h

  pub staged_row-stage_row :
      (table : Text) (key : List Text) (t : Text) (k : List Text) (row : Row) (s : Staging)
      → staged_row table key (stage_row writer t k row s)
        ≡ or_else (staged_row table key s) (if table == t && key == k then some row else none)
  unfolding stage_row
  staged_row-stage_row table key t k row s =
      let added = add_row writer t k row s in
      elim (Option-cases (staged_row t k s)) [
        | inl e ↦ ground (
          arith,
          e,
          staged_row-add_row table key t k row s,
          staged_row-rows table key added (record_row writer t k added) (record_row-rows t k added),
        )
        | inr (earlier, e) ↦ ground (arith, e)
      ]

  -- After `stage`, the row that waits under a key is the one that waited there, or else the first
  -- of the given rows with that key: nothing that waits is replaced,
  -- and a row waits also where the base database has one with its key.
  pub staged_row-stage :
      (table : Text) (key : List Text) (staged : List (Text × Row)) (s : Staging) {s' : Staging}
      → stage writer staged s ≡ ok s'
      → staged_row table key s' ≡ or_else (staged_row table key s) (first_stated table key staged)
  unfolding stage first_stated
  staged_row-stage table key [] s h = ground (arith, h)
  staged_row-stage table key ((t, row) ∷ staged) s {s'} h = elim (Result-cases (row_key t row)) [
    | inr (x, e) ↦ absurd (ground (arith, e, h))
    | inl (k, e) ↦ ground (
      arith,
      e,
      h,
      staged_row-stage_row table key t k row s,
      staged_row-stage table key staged (stage_row writer t k row s) {s' = s'}
          (ground (arith, e, h)),
    )
  ]
