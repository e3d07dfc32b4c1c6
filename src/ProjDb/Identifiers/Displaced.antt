-- ===== src/ProjDb/Identifiers/Displaced.antt =====
-- No reference is lost in silence: those that the foreign key removes with an id are reported
-- (geodetic_engine/projdb/writer.py).
use geodetic_engine.Base.{
  ℕ, ◌≡◌, Bool, true, false, some, List, [], ◌∷◌, text_eq, ok, arith, ◌⊎◌, inl, contains,
  contains-append,
}
use geodetic_engine.Base.Dict
use geodetic_engine.ProjDb.Tables.{Key, key_eq, Recorded, Reference, delete_identifier, Db}
use geodetic_engine.ProjDb.Writer.{
  Writer, IdentifierRow, insert_identifier, reference_digest, persistable_reference_recorded,
}
use geodetic_engine.ProjDb.Identifiers.{
  update_flag, displace, write_identifiers, Removal, remove_identifiers, remove_identifier,
  delete_recorded,
}
use geodetic_engine.ProjDb.Identifiers.Branches.{
  annotated, Wrote, fresh, kept, flagged, moved, reported, write_identifier-Wrote,
  write_identifier_rows_inv, Removed, absent, gone, remove_identifier-Removed,
  remove_identifier_rows_inv,
}
use geodetic_engine.ProjDb.Identifiers.Resolution.{write_identifiers-loop}
use geodetic_engine.ProjDb.Identifiers.Safety.{annotate-rest, move_identifier-rest}

-- A reference is as it was, or its removal is reported.
module _ (k : Key) (r₀ : Reference) where
  abbrev Holds : Writer → Type 0
  Holds w =
      (w.db.reference_table ≡ true)
      × ((Dict.lookup k w.db.references ≡ some r₀)
          ⊎ (contains w.removed_references k.identifier ≡ true))

  displace-Holds :
      (j : Key) (w w' : Writer)
      → Holds w
      → w'.removed_references ≡ (displace j w).removed_references
      → w'.db.references ≡ Dict.erase j w.db.references
      → w'.db.reference_table ≡ w.db.reference_table
      → Holds w'
  unfolding displace reference_digest
  displace-Holds j w w' p a b c = ground (
    arith,
    Dict.lookup-erase k j w.db.references,
    contains-append w.removed_references (j.identifier ∷ []) k.identifier,
  )

  insert_identifier-Holds :
      (row : IdentifierRow) (w : Writer) {db : Db}
      → insert_identifier row w.db ≡ ok db
      → Holds w
      → Holds (record w { db = db })
  unfolding insert_identifier
  insert_identifier-Holds row w e p = ground arith

  annotate-Holds :
      (aliases : Bool) (row : IdentifierRow) (wrote : Bool) (w : Writer)
      → Holds w
      → Holds (annotated aliases row wrote w).0
  annotate-Holds aliases row wrote w p = ground (arith, annotate-rest aliases row wrote w)

  update_flag-Holds :
      (row : IdentifierRow) (r : Recorded) (w : Writer) → Holds w → Holds (update_flag row r w)
  unfolding update_flag
  update_flag-Holds row r w p = p

  write_identifier-Holds :
      (aliases : Bool) (row : IdentifierRow) (w : Writer) {step : Writer × Bool × Bool}
      → Holds w
      → Wrote aliases row w step
      → Holds step.0
  write_identifier-Holds aliases row w p (fresh db e f s) =
      rw s (annotate-Holds aliases row true _ (insert_identifier-Holds row w f p))
  write_identifier-Holds aliases row w p (kept r e q t s) =
      rw s (annotate-Holds aliases row false w p)
  write_identifier-Holds aliases row w p (flagged r e o q t s) =
      rw s (annotate-Holds aliases row true _ (update_flag-Holds row r (reported row r w) p))
  write_identifier-Holds aliases row w p (moved r w' e o q f s) =
      let (a, b, c, d) = move_identifier-rest row r (reported row r w) f in
      rw s
        (annotate-Holds aliases row true w' (displace-Holds row.key (reported row r w) w' p b c d))

  remove_identifier-Holds :
      (x : Removal) (w : Writer) {step : Writer × Bool} → Holds w → Removed x w step → Holds step.0
  unfolding remove_identifier delete_recorded delete_identifier persistable_reference_recorded
  remove_identifier-Holds x w p (absent e s) = rw s p
  remove_identifier-Holds x w p (gone r e o s) = rw s (
      ground (
        arith,
        Dict.lookup-erase k x.key w.db.references,
        contains-append w.removed_references (x.key.identifier ∷ []) k.identifier,
      ))

-- A persistableReference that is recorded before a call of `write_identifiers` that returns is
-- still there unchanged, or its id is listed among the references that the build removed.
pub write_identifiers_displaces :
    (aliases : Bool) (rows : List IdentifierRow) (w : Writer) (k : Key) (r : Reference)
    {out : Writer × ℕ × ℕ}
    → w.db.reference_table ≡ true
    → Dict.lookup k w.db.references ≡ some r
    → write_identifiers aliases rows w ≡ ok out
    → (Dict.lookup k out.0.db.references ≡ some r)
      ⊎ (contains out.0.removed_references k.identifier ≡ true)
write_identifiers_displaces aliases rows w k r t p h =
    let (mid, e, f) = write_identifiers-loop aliases rows w h in
    rw f
      (write_identifier_rows_inv (Holds k r) aliases
        (λ row v step q u.
          write_identifier-Holds k r aliases row v q (write_identifier-Wrote aliases row v u))
        rows _ 0 0 (t, inl p) e).1

-- A persistableReference that is recorded before a call of `remove_identifiers` that returns is
-- still there unchanged, or its id is listed among the references that the build removed.
pub remove_identifiers_displaces :
    (xs : List Removal) (w : Writer) (k : Key) (r : Reference) {out : Writer × ℕ}
    → w.db.reference_table ≡ true
    → Dict.lookup k w.db.references ≡ some r
    → remove_identifiers xs w ≡ ok out
    → (Dict.lookup k out.0.db.references ≡ some r)
      ⊎ (contains out.0.removed_references k.identifier ≡ true)
unfolding remove_identifiers
remove_identifiers_displaces [] w k r t p h = inl (ground arith)
remove_identifiers_displaces (x ∷ xs) w k r t p h =
    (remove_identifier_rows_inv (Holds k r)
      (λ y v step q u. remove_identifier-Holds k r y v q (remove_identifier-Removed y v u)) (x ∷ xs)
      _ 0 (t, inl p) h).1
