-- ===== src/ProjDb/Identifiers/Safety.antt =====
-- What `write_identifiers` leaves alone without `overwrite_rows`, and what it reports with it
-- (geodetic_engine/projdb/writer.py).
use geodetic_engine.Base.{
  ℕ, ◌≡◌, refl, ◌∙◌, Bool, true, false, some, List, [], ◌∷◌, ◌++◌, ◌==◌, Text, text_eq,
  if◌then◌else◌, ok, ◌||◌, arith, ◌⊎◌, inl,
}
use geodetic_engine.Base.Dict
use geodetic_engine.ProjDb.Tables.{Key, key_eq, Target, Recorded, delete_identifier}
use geodetic_engine.ProjDb.Writer.{Writer, Moved, IdentifierRow, insert_identifier, object}
use geodetic_engine.ProjDb.Identifiers.{
  update_flag, displace, delete_recorded, move_identifier, write_identifiers,
}
use geodetic_engine.ProjDb.Identifiers.Branches.{
  annotated, Wrote, fresh, kept, flagged, moved, reported, write_identifier-Wrote,
  write_identifier_rows_inv,
}
use geodetic_engine.ProjDb.Identifiers.Resolution.{
  names, names-write_identifier, write_identifiers-loop,
}

pub annotate-rest :
    (aliases : Bool) (row : IdentifierRow) (wrote : Bool) (w : Writer)
    → let w' = (annotated aliases row wrote w).0 in
      (w'.overwrite_rows ≡ w.overwrite_rows)
      × (w'.moved_identifiers ≡ w.moved_identifiers)
      × (w'.removed_references ≡ w.removed_references)
      × (w'.db.references ≡ w.db.references)
      × (w'.db.reference_table ≡ w.db.reference_table)
unfolding annotated
annotate-rest aliases row wrote w = ground arith

-- What an iteration does to an id that is recorded, without `overwrite_rows`.
module _ (k : Key) (n : Target × Bool) where
  abbrev Keeps : Writer → Type 0
  Keeps w = (w.overwrite_rows ≡ false) × (names k w.db ≡ some n)

  write_identifier-Keeps :
      (aliases : Bool) (row : IdentifierRow) (w : Writer) {step : Writer × Bool × Bool}
      → Keeps w
      → Wrote aliases row w step
      → Keeps step.0
  write_identifier-Keeps aliases row w p (fresh db e f s) = (
    rw s (ground (arith, annotate-rest aliases row true (record w { db = db }))),
    names-write_identifier aliases row w k (fresh db e f s) ∙ ground arith,
  )
  write_identifier-Keeps aliases row w p (kept r e q t s) = (
    rw s (ground (arith, annotate-rest aliases row false w)),
    names-write_identifier aliases row w k (kept r e q t s) ∙ ground arith,
  )
  write_identifier-Keeps aliases row w p (flagged r e o q t s) = absurd (ground arith)
  write_identifier-Keeps aliases row w p (moved r w' e o q f s) = absurd (ground arith)

-- Without `overwrite_rows` a call of `write_identifiers` that returns leaves every id that was
-- recorded naming the object that it named, with the same inactive flag.
pub write_identifiers_keeps :
    (aliases : Bool) (rows : List IdentifierRow) (w : Writer) (k : Key) {n : Target × Bool}
    {out : Writer × ℕ × ℕ}
    → w.overwrite_rows ≡ false
    → names k w.db ≡ some n
    → write_identifiers aliases rows w ≡ ok out
    → names k out.0.db ≡ some n
write_identifiers_keeps aliases rows w k {n} o p h =
    let (mid, e, f) = write_identifiers-loop aliases rows w h in
    rw f
      (write_identifier_rows_inv (Keeps k n) aliases
        (λ row v step q r.
          write_identifier-Keeps k n aliases row v q (write_identifier-Wrote aliases row v r))
        rows _ 0 0 (o, p) e).1

-- Whether a moved id is among the reports.
abbrev pub lists_move : Text → List Moved → Bool
lists_move t [] = false
lists_move t (m ∷ ms) = t == m.identifier || lists_move t ms

lists_move-append :
    (t : Text) (ms : List Moved) (m : Moved)
    → lists_move t (ms ++ (m ∷ [])) ≡ (lists_move t ms || t == m.identifier)
lists_move-append t [] m = ground arith
lists_move-append t (x ∷ ms) m = ground (arith, lists_move-append t ms m)

-- The parts of a moved id that its deletion and its new row leave alone.
pub move_identifier-rest :
    (row : IdentifierRow) (r : Recorded) (w : Writer) {w' : Writer}
    → move_identifier row r w ≡ ok w'
    → (w'.moved_identifiers ≡ w.moved_identifiers)
      × (w'.removed_references ≡ (displace row.key w).removed_references)
      × (w'.db.references ≡ Dict.erase row.key w.db.references)
      × (w'.db.reference_table ≡ w.db.reference_table)
unfolding move_identifier insert_identifier delete_recorded delete_identifier displace
move_identifier-rest row r w h = ground arith

update_flag-moved :
    (row : IdentifierRow) (r : Recorded) (w : Writer)
    → ((update_flag row r w).moved_identifiers ≡ w.moved_identifiers)
unfolding update_flag
update_flag-moved row r w = refl

-- An id names what it named, or its change is reported.
module _ (k : Key) (n : Target × Bool) where
  abbrev Tells : Writer → Type 0
  Tells w = (names k w.db ≡ some n) ⊎ (lists_move k.identifier w.moved_identifiers ≡ true)

  reported-Tells :
      (row : IdentifierRow) (r : Recorded) (w w' : Writer)
      → w'.moved_identifiers ≡ (reported row r w).moved_identifiers
      → names k w'.db ≡ (
          if k == row.key
          then some (row.recorded.target, row.recorded.deprecated)
          else names k w.db)
      → Tells w
      → Tells w'
  reported-Tells row r w w' m e t = ground (
    arith,
    lists_move-append k.identifier w.moved_identifiers (record {
      identifier = row.key.identifier;
      previous = object r.target r.deprecated;
      now = object row.recorded.target row.recorded.deprecated;
    }),
  )

  write_identifier-Tells :
      (aliases : Bool) (row : IdentifierRow) (w : Writer) {step : Writer × Bool × Bool}
      → Tells w
      → Wrote aliases row w step
      → Tells step.0
  write_identifier-Tells aliases row w p (fresh db e f s) = ground (
    arith,
    names-write_identifier aliases row w k (fresh db e f s),
    annotate-rest aliases row true (record w { db = db }),
  )
  write_identifier-Tells aliases row w p (kept r e q t s) = ground (
    arith,
    names-write_identifier aliases row w k (kept r e q t s),
    annotate-rest aliases row false w,
  )
  write_identifier-Tells aliases row w {step} p (flagged r e o q t s) =
      reported-Tells row r w step.0
        (rw s ((annotate-rest aliases row true _).1 ∙ update_flag-moved row r (reported row r w)))
        (names-write_identifier aliases row w k (flagged r e o q t s)) p
  write_identifier-Tells aliases row w {step} p (moved r w' e o q f s) =
      reported-Tells row r w step.0
        (rw s (
          (annotate-rest aliases row true w').1
          ∙ (move_identifier-rest row r (reported row r w) f).0))
        (names-write_identifier aliases row w k (moved r w' e o q f s)) p

-- A call of `write_identifiers` that returns leaves every recorded id naming the same object with
-- the same inactive flag, or lists the id among the moved identifiers that the build reports.
pub write_identifiers_reports :
    (aliases : Bool) (rows : List IdentifierRow) (w : Writer) (k : Key) {n : Target × Bool}
    {out : Writer × ℕ × ℕ}
    → names k w.db ≡ some n
    → write_identifiers aliases rows w ≡ ok out
    → (names k out.0.db ≡ some n) ⊎ (lists_move k.identifier out.0.moved_identifiers ≡ true)
write_identifiers_reports aliases rows w k {n} p h =
    let (mid, e, f) = write_identifiers-loop aliases rows w h in
    rw f (
      write_identifier_rows_inv (Tells k n) aliases
        (λ row v step q r.
          write_identifier-Tells k n aliases row v q (write_identifier-Wrote aliases row v r))
        rows _ 0 0 (inl p) e)
