-- ===== src/ProjDb/References/Branches.antt =====
-- The branches of `write_persistable_references` (geodetic_engine/projdb/writer.py).
use geodetic_engine.Base.{
  ◌≡◌, ◌≢◌, Bool, true, false, none, some, text_eq, ok, arith, inl, inr, Result-cases, Option-cases,
}
use geodetic_engine.Base.Dict
use geodetic_engine.ProjDb.Tables.{key_eq, Reference}
use geodetic_engine.ProjDb.Writer.{Writer, ReferenceRow}
use geodetic_engine.ProjDb.References.{
  insert_reference, delete_reference, report_replaced, restore_displaced, write_reference,
}

pub restore_displaced-db :
    (row : ReferenceRow) (w : Writer) {w' : Writer} → restore_displaced row w ≡ ok w' → w'.db ≡ w.db
unfolding restore_displaced
restore_displaced-db row w h = ground arith

-- The branches on which an iteration of `write_persistable_references` returns.
module _ (row : ReferenceRow) (w : Writer) where
  pub data Stored (step : Writer × Bool) : Type 0 where
    fresh :
        (mid out : Writer)
        → Dict.lookup row.key w.db.references ≡ none
        → restore_displaced row w ≡ ok mid
        → insert_reference row mid ≡ ok out
        → step ≡ (out, true)
        → Stored step
    same :
        (r : Reference)
        → Dict.lookup row.key w.db.references ≡ some r
        → r.sha256 ≡ row.reference.sha256
        → step ≡ (w, false)
        → Stored step
    replaced :
        (r : Reference) (out : Writer)
        → Dict.lookup row.key w.db.references ≡ some r
        → r.sha256 ≢ row.reference.sha256
        → w.overwrite_rows ≡ true
        → insert_reference row (record (report_replaced row.key r.sha256 row.reference.sha256 w) {
          db = delete_reference row.key w.db;
        })
          ≡ ok out
        → step ≡ (out, true)
        → Stored step

  write_reference-fresh :
      {step : Writer × Bool}
      → Dict.lookup row.key w.db.references ≡ none
      → write_reference row w ≡ ok step
      → Stored step
  unfolding write_reference
  write_reference-fresh e h = elim (Result-cases (restore_displaced row w)) [
    | inl (mid, f) ↦ elim (Result-cases (insert_reference row mid)) [
      | inl (out, g) ↦ fresh mid out e f g (ground arith)
      | inr (x, g) ↦ absurd (ground arith)
    ]
    | inr (x, f) ↦ absurd (ground arith)
  ]

  write_reference-known :
      (r : Reference) {step : Writer × Bool}
      → Dict.lookup row.key w.db.references ≡ some r
      → write_reference row w ≡ ok step
      → Stored step
  unfolding write_reference
  write_reference-known r e h = elim (text_eq.dec r.sha256 row.reference.sha256) [
    | yes p ↦ same r e p (ground arith)
    | no n ↦
        elim (Result-cases (
          insert_reference row (record (report_replaced row.key r.sha256 row.reference.sha256 w) {
            db = delete_reference row.key w.db;
          }))) [
            | inl (out, f) ↦ replaced r out e n (ground arith) f (ground arith)
            | inr (x, f) ↦ absurd (ground arith)
          ]
  ]

  pub write_reference-Stored :
      {step : Writer × Bool} → write_reference row w ≡ ok step → Stored step
  write_reference-Stored h = elim (Option-cases (Dict.lookup row.key w.db.references)) [
    | inl e ↦ write_reference-fresh e h
    | inr (r, e) ↦ write_reference-known r e h
  ]
