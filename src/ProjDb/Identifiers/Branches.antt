-- ===== src/ProjDb/Identifiers/Branches.antt =====
-- The branches on which an iteration of `write_identifiers` or `remove_identifiers` returns
-- (geodetic_engine/projdb/writer.py), each with what the code has tested on the way.
use geodetic_engine.Base.{
  ℕ, List, [], ◌∷◌, ◌++◌, contains, ◌≡◌, ◌≢◌, subst, Bool, true, false, none, some, if◌then◌else◌,
  ok, arith, Option-cases, Bool-cases, Result-cases, inl, inr,
}
use geodetic_engine.Base.Dict
use geodetic_engine.ProjDb.Tables.{key_eq, target_eq, alias_eq, identifier_alias, Recorded, Db}
use geodetic_engine.ProjDb.Writer.{
  Writer, IdentifierRow, insert_identifier, add_identifier_alias, persistable_reference_recorded,
  nothing,
}
use geodetic_engine.ProjDb.Identifiers.{
  annotate, update_flag, report_move, named, same_flag, move_identifier, delete_recorded,
  write_identifier, write_identifier_rows, tick, Removal, remove_identifier, remove_identifier_rows,
  report_removed,
}

-- The writer after the report of a changed identifier.
abbrev pub reported : IdentifierRow → Recorded → Writer → Writer
reported row r w = report_move row.key (named r) (named row.recorded) w

-- What `annotate` leaves, where it returns.
unfoldable pub annotated : Bool → IdentifierRow → Bool → Writer → Writer × Bool × Bool
annotated false row wrote w = (w, wrote, false)
annotated true row wrote w =
    let alias = identifier_alias row.key row.recorded.target in
    if contains w.db.aliases alias
    then (w, wrote, false)
    else (record w { db = record w.db { aliases = w.db.aliases ++ (alias ∷ []) } }, wrote, true)

annotate-annotated :
    (aliases : Bool) (row : IdentifierRow) (wrote : Bool) (w : Writer) {step : Writer × Bool × Bool}
    → annotate aliases row wrote w ≡ ok step
    → step ≡ annotated aliases row wrote w
unfolding annotate annotated add_identifier_alias
annotate-annotated false row wrote w h = ground (arith, h)
annotate-annotated true row wrote w h = ground (arith, h)

module _ (aliases : Bool) (row : IdentifierRow) (w : Writer) where
  pub data Wrote (step : Writer × Bool × Bool) : Type 0 where
    fresh :
        (db : Db)
        → Dict.lookup row.key w.db.identifiers ≡ none
        → insert_identifier row w.db ≡ ok db
        → step ≡ annotated aliases row true (record w { db = db })
        → Wrote step
    kept :
        (r : Recorded)
        → Dict.lookup row.key w.db.identifiers ≡ some r
        → r.target ≡ row.recorded.target
        → r.deprecated ≡ row.recorded.deprecated
        → step ≡ annotated aliases row false w
        → Wrote step
    flagged :
        (r : Recorded)
        → Dict.lookup row.key w.db.identifiers ≡ some r
        → w.overwrite_rows ≡ true
        → r.target ≡ row.recorded.target
        → r.deprecated ≢ row.recorded.deprecated
        → step ≡ annotated aliases row true (update_flag row r (reported row r w))
        → Wrote step
    moved :
        (r : Recorded) (w' : Writer)
        → Dict.lookup row.key w.db.identifiers ≡ some r
        → w.overwrite_rows ≡ true
        → r.target ≢ row.recorded.target
        → move_identifier row r (reported row r w) ≡ ok w'
        → step ≡ annotated aliases row true w'
        → Wrote step

  write_identifier-fresh :
      {step : Writer × Bool × Bool}
      → Dict.lookup row.key w.db.identifiers ≡ none
      → write_identifier aliases row w ≡ ok step
      → Wrote step
  unfolding write_identifier
  write_identifier-fresh e h = elim (Result-cases (insert_identifier row w.db)) [
    | inl (db, f) ↦
        fresh db e f (annotate-annotated aliases row true (record w { db = db }) (ground arith))
    | inr (x, f) ↦ ground arith
  ]

  write_identifier-known :
      (r : Recorded) {step : Writer × Bool × Bool}
      → Dict.lookup row.key w.db.identifiers ≡ some r
      → write_identifier aliases row w ≡ ok step
      → Wrote step
  unfolding write_identifier
  write_identifier-known r e h = elim (target_eq.dec r.target row.recorded.target) [
    | yes p ↦ elim (Bool-cases (same_flag r.deprecated row.recorded.deprecated)) [
      | inl f ↦ kept r e p (ground arith) (annotate-annotated aliases row false w (ground arith))
      | inr f ↦ flagged r e (ground arith) p (ground arith) (
          annotate-annotated aliases row true (update_flag row r (reported row r w)) (ground arith))
    ]
    | no n ↦ elim (Result-cases (move_identifier row r (reported row r w))) [
      | inl (w', f) ↦
          moved r w' e (ground arith) n f (annotate-annotated aliases row true w' (ground arith))
      | inr (x, f) ↦ ground arith
    ]
  ]

  pub write_identifier-Wrote :
      {step : Writer × Bool × Bool} → write_identifier aliases row w ≡ ok step → Wrote step
  write_identifier-Wrote h = elim (Option-cases (Dict.lookup row.key w.db.identifiers)) [
    | inl e ↦ write_identifier-fresh e h
    | inr (r, e) ↦ write_identifier-known r e h
  ]

-- What holds before the loop and is kept by each iteration holds after it.
pub write_identifier_rows_inv {ℓ} :
    (P : Writer → Type ℓ) (aliases : Bool)
    → ((row : IdentifierRow) (w : Writer) (step : Writer × Bool × Bool)
        → P w
        → write_identifier aliases row w ≡ ok step
        → P step.0)
    → (rows : List IdentifierRow) (w : Writer) (written aliased : ℕ) {out : Writer × ℕ × ℕ} → P w
    → write_identifier_rows aliases rows w written aliased ≡ ok out
    → P out.0
unfolding write_identifier_rows
write_identifier_rows_inv P aliases keep [] w written aliased {out} p h = subst P (ground arith) p
write_identifier_rows_inv P aliases keep (row ∷ rows) w written aliased {out} p h =
    elim (Result-cases (write_identifier aliases row w)) [
      | inl (step, e) ↦
          write_identifier_rows_inv P aliases keep rows step.0 (tick step.1 written)
            (tick step.2 aliased) (keep row w step p e) (rw e at h)
      | inr (x, e) ↦ absurd (ground arith)
    ]

-- The branches of `remove_identifier`.
module _ (x : Removal) (w : Writer) where
  -- The writer after the report of a reference that goes with its identifier.
  abbrev pub noted : Writer
  noted = if persistable_reference_recorded x.key w.db then report_removed x.key w else w

  pub data Removed (step : Writer × Bool) : Type 0 where
    absent : Dict.lookup x.key w.db.identifiers ≡ none → step ≡ (w, false) → Removed step
    gone :
        (r : Recorded)
        → Dict.lookup x.key w.db.identifiers ≡ some r
        → w.overwrite_rows ≡ true
        → step ≡ (
          report_move x.key
              (named r)
              (nothing x.why)
              (record noted { db = delete_recorded x.key r.target w.db }),
          true,
        )
        → Removed step

  pub remove_identifier-Removed :
      {step : Writer × Bool} → remove_identifier x w ≡ ok step → Removed step
  unfolding remove_identifier
  remove_identifier-Removed h = elim (Option-cases (Dict.lookup x.key w.db.identifiers)) [
    | inl e ↦ absent e (ground arith)
    | inr (r, e) ↦ gone r e (ground arith) (ground arith)
  ]

pub remove_identifier_rows_inv {ℓ} :
    (P : Writer → Type ℓ)
    → ((x : Removal) (w : Writer) (step : Writer × Bool)
        → P w
        → remove_identifier x w ≡ ok step
        → P step.0)
    → (xs : List Removal) (w : Writer) (removed : ℕ) {out : Writer × ℕ} → P w
    → remove_identifier_rows xs w removed ≡ ok out
    → P out.0
unfolding remove_identifier_rows
remove_identifier_rows_inv P keep [] w removed p h = subst P (ground arith) p
remove_identifier_rows_inv P keep (x ∷ xs) w removed p h =
    elim (Result-cases (remove_identifier x w)) [
      | inl (step, e) ↦
          remove_identifier_rows_inv P keep xs step.0 (tick step.1 removed) (keep x w step p e)
            (rw e at h)
      | inr (y, e) ↦ absurd (ground arith)
    ]
