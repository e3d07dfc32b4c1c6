-- ===== src/ProjDb/Overrides/Listed.antt =====
-- Which objects `overrides` lists (geodetic_engine/projdb/writer.py).
use geodetic_engine.Base.{
  ◌≡◌, refl, Bool, true, false, not, ◌&&◌, ◌||◌, Option, none, some, List, [], ◌∷◌, ◌==◌, Text,
  text_eq, arith, Bool-cases, Option-cases, inl, inr,
}
use geodetic_engine.Base.Dict
use geodetic_engine.Base.Dict.{Dict}
use geodetic_engine.ProjDb.Rows.{
  dependents_of, Value, Row, ObjectKey, object_key_eq, Stored, Objects, Base, Change,
}
use geodetic_engine.ProjDb.Objects.{dependent_rows}
use geodetic_engine.ProjDb.Overrides.{
  same_rows, Overrides, by_key, is_rebuilt, report_rebuilt, compare_dependents, overrides,
}

abbrev pub is_some {ℓ} : {A : Type ℓ} → Option A → Bool
is_some none = false
is_some (some a) = true

-- Whether an object is among those reported as replaced.
abbrev pub is_replaced : ObjectKey → List Change → Bool
is_replaced key [] = false
is_replaced key (change ∷ changes) = key == change.key || is_replaced key changes

abbrev pub is_listed : ObjectKey → Dict ObjectKey Change → Bool
is_listed key objects = is_some (Dict.lookup key objects)

is_listed-insert :
    (key k : ObjectKey) (change : Change) (objects : Dict ObjectKey Change)
    → is_listed key (Dict.insert k change objects) ≡ (key == k || is_listed key objects)
is_listed-insert key k change objects = ground (arith, Dict.lookup-insert key k change objects)

is_listed-by_key :
    (key : ObjectKey) (changes : List Change) (objects : Dict ObjectKey Change)
    → is_listed key (by_key changes objects) ≡ (is_replaced key changes || is_listed key objects)
unfolding by_key
is_listed-by_key key [] objects = refl
is_listed-by_key key (change ∷ changes) objects = ground (
  arith,
  is_listed-by_key key changes (Dict.insert change.key change objects),
  is_listed-insert key change.key change objects,
)

module _ (sort_by : Text → List Row → List Row) (base : Base) where
  -- Whether the axes of a coordinate system, or the steps of a concatenated operation, are no longer
  -- those of some rows of values, in number, order or value.
  abbrev pub has_others : ObjectKey → List (List Value) → List Stored → Bool
  has_others k before rows = elim (dependents_of k.table) [
    | none ↦ false
    | some child ↦
        not (same_rows (dependent_rows base sort_by child k.auth_name k.code rows) before)
  ]

  -- Whether an object has other children than it had before the build.
  abbrev pub has_rebuilt : ObjectKey → List (ObjectKey × List (List Value)) → List Stored → Bool
  has_rebuilt key [] rows = false
  has_rebuilt key ((k, before) ∷ rest) rows =
      (key == k && has_others k before rows) || has_rebuilt key rest rows

  is_listed-report_rebuilt :
      (key k : ObjectKey) (rows : List Stored) (report : Overrides)
      → is_listed key (report_rebuilt sort_by base k rows report).objects
        ≡ (key == k || is_listed key report.objects)
  unfolding report_rebuilt
  is_listed-report_rebuilt key k rows report = elim (Option-cases (Dict.lookup k report.objects)) [
    | inl e ↦ rw (e, report_rebuilt) (is_listed-insert key k _ report.objects)
    | inr (item, e) ↦ rw (e, report_rebuilt) (is_listed-insert key k _ report.objects)
  ]

  is_listed-compare_dependents :
      (key : ObjectKey) (ds : List (ObjectKey × List (List Value))) (rows : List Stored)
      (report : Overrides)
      → is_listed key (compare_dependents sort_by base ds rows report).objects
        ≡ (has_rebuilt key ds rows || is_listed key report.objects)
  unfolding compare_dependents is_rebuilt
  is_listed-compare_dependents key [] rows report = refl
  is_listed-compare_dependents key ((k, before) ∷ ds) rows report =
      elim (Bool-cases (is_rebuilt sort_by base k before rows)) [
        | inl e ↦ ground (
          arith,
          e,
          is_listed-compare_dependents key ds rows (report_rebuilt sort_by base k rows report),
          is_listed-report_rebuilt key k rows report,
        )
        | inr e ↦ ground (arith, e, is_listed-compare_dependents key ds rows report)
      ]

  pub is_listed-overrides :
      (key : ObjectKey) (w : Objects)
      → is_listed key (overrides sort_by base w).objects
        ≡ (is_replaced key w.replaced || has_rebuilt key w.dependents w.rows)
  unfolding overrides
  is_listed-overrides key w = ground (
    arith,
    is_listed-compare_dependents key w.dependents w.rows
        (record { objects = by_key w.replaced []; unchanged = w.unchanged; rebuilt = 0 }),
    is_listed-by_key key w.replaced [],
    Dict.lookup-nil {V = Change} key,
  )
