-- ===== src/ProjDb/Identifiers/Consistency.antt =====
-- The annotation tables stay consistent under `write_identifiers` and `remove_identifiers`
-- (geodetic_engine/projdb/writer.py).
use geodetic_engine.Base.{
  ℕ, ◌≡◌, ◌≢◌, Bool, true, false, none, some, List, [], ◌∷◌, text_eq, ok, arith, Result-cases, inl,
  inr,
}
use geodetic_engine.Base.Dict
use geodetic_engine.ProjDb.Tables.{
  Key, key_eq, Target, Recorded, Reference, Db, create_identifiers, delete_identifier,
  admits_identifier,
}
use geodetic_engine.ProjDb.Writer.{Writer, IdentifierRow, insert_identifier}
use geodetic_engine.ProjDb.Identifiers.{
  update_flag, displace, delete_recorded, move_identifier, write_identifiers, Removal,
  remove_identifiers,
}
use geodetic_engine.ProjDb.Identifiers.Branches.{
  annotated, Wrote, fresh, kept, flagged, moved, reported, write_identifier-Wrote,
  write_identifier_rows_inv, Removed, absent, gone, remove_identifier-Removed,
  remove_identifier_rows_inv,
}
use geodetic_engine.ProjDb.Identifiers.Resolution.{displace-db, write_identifiers-loop}

-- Every id names an object of the database, and every reference belongs to a recorded id.
pub record IsConsistent (db : Db) : Type 0 where
  pub exist :
      (k : Key) (r : Recorded) → Dict.lookup k db.identifiers ≡ some r → db.objects r.target ≡ true
  pub backed :
      (k : Key) (r : Reference)
      → Dict.lookup k db.references ≡ some r
      → Dict.lookup k db.identifiers ≢ none

pub insert_identifier-IsConsistent :
    (row : IdentifierRow) (db : Db) {db' : Db}
    → IsConsistent db
    → insert_identifier row db ≡ ok db'
    → IsConsistent db'
unfolding insert_identifier admits_identifier
insert_identifier-IsConsistent row db c h = record {
  exist = λ k r e.
      ground (arith, c.exist k r, Dict.lookup-insert k row.key row.recorded db.identifiers);
  backed = λ k r e.
      ground (arith, c.backed k r, Dict.lookup-insert k row.key row.recorded db.identifiers);
}

pub delete_recorded-IsConsistent :
    (k : Key) (t : Target) (db : Db) → IsConsistent db → IsConsistent (delete_recorded k t db)
unfolding delete_recorded delete_identifier
delete_recorded-IsConsistent k t db c = record {
  exist = λ j r e. ground (arith, c.exist j r, Dict.lookup-erase j k db.identifiers);
  backed = λ j r e. ground (
    arith,
    c.backed j r,
    Dict.lookup-erase j k db.identifiers,
    Dict.lookup-erase j k db.references,
  );
}

update_flag-IsConsistent :
    (row : IdentifierRow) (r : Recorded) (w : Writer)
    → Dict.lookup row.key w.db.identifiers ≡ some r
    → IsConsistent w.db
    → IsConsistent (update_flag row r w).db
unfolding update_flag
update_flag-IsConsistent row r w found c = record {
  exist = λ k q e. elim (key_eq.dec k row.key) [
    | yes p ↦ ground (arith, c.exist row.key r found, rw Dict.lookup-insert at e)
    | no n ↦ ground (arith, c.exist k q, rw Dict.lookup-insert at e)
  ];
  backed = λ k q e. rw Dict.lookup-insert (ground (arith, c.backed k q e));
}

annotate-IsConsistent :
    (aliases : Bool) (row : IdentifierRow) (wrote : Bool) (w : Writer)
    → IsConsistent w.db
    → IsConsistent (annotated aliases row wrote w).0.db
unfolding annotated
annotate-IsConsistent aliases row wrote w c = record {
  exist = λ k r e. ground (arith, c.exist k r);
  backed = λ k r e. ground (arith, c.backed k r);
}

move_identifier-IsConsistent :
    (row : IdentifierRow) (r : Recorded) (w : Writer) {w' : Writer}
    → IsConsistent w.db
    → move_identifier row r w ≡ ok w'
    → IsConsistent w'.db
unfolding move_identifier
move_identifier-IsConsistent row r w {w'} c h =
    let before = delete_recorded row.key r.target (displace row.key w).db in
    let c' : IsConsistent before =
      delete_recorded-IsConsistent row.key r.target _ (rw displace-db c) in
    elim (Result-cases (insert_identifier row before)) [
      | inl (db, f) ↦
          let same : w'.db ≡ db = ground arith in
          rw same (insert_identifier-IsConsistent row before c' f)
      | inr (x, f) ↦ absurd (ground arith)
    ]

write_identifier-IsConsistent :
    (aliases : Bool) (row : IdentifierRow) (w : Writer) {step : Writer × Bool × Bool}
    → IsConsistent w.db
    → Wrote aliases row w step
    → IsConsistent step.0.db
write_identifier-IsConsistent aliases row w c (fresh db e f s) =
    rw s (annotate-IsConsistent aliases row true _ (insert_identifier-IsConsistent row w.db c f))
write_identifier-IsConsistent aliases row w c (kept r e p q s) =
    rw s (annotate-IsConsistent aliases row false w c)
write_identifier-IsConsistent aliases row w c (flagged r e o p q s) = rw s (
    annotate-IsConsistent aliases row true _
      (update_flag-IsConsistent row r (reported row r w) e c))
write_identifier-IsConsistent aliases row w c (moved r w' e o n f s) = rw s (
    annotate-IsConsistent aliases row true w'
      (move_identifier-IsConsistent row r (reported row r w) c f))

create_identifiers-IsConsistent : (db : Db) → IsConsistent db → IsConsistent (create_identifiers db)
create_identifiers-IsConsistent db c = record { exist = c.exist; backed = c.backed }

-- A call of `write_identifiers` that returns keeps the tables consistent: every id names an object
-- of the database, and every persistableReference belongs to a recorded id.
pub write_identifiers-IsConsistent :
    (aliases : Bool) (rows : List IdentifierRow) (w : Writer) {out : Writer × ℕ × ℕ}
    → IsConsistent w.db
    → write_identifiers aliases rows w ≡ ok out
    → IsConsistent out.0.db
write_identifiers-IsConsistent aliases rows w c h =
    let (mid, e, f) = write_identifiers-loop aliases rows w h in
    rw f (
      write_identifier_rows_inv (λ v. IsConsistent v.db) aliases
        (λ row v step p r.
          write_identifier-IsConsistent aliases row v p (write_identifier-Wrote aliases row v r))
        rows _ 0 0 (create_identifiers-IsConsistent w.db c) e)

remove_identifier-IsConsistent :
    (x : Removal) (w : Writer) {step : Writer × Bool}
    → IsConsistent w.db
    → Removed x w step
    → IsConsistent step.0.db
remove_identifier-IsConsistent x w c (absent e s) = rw s c
remove_identifier-IsConsistent x w c (gone r e o s) =
    rw s (delete_recorded-IsConsistent x.key r.target w.db c)

-- A call of `remove_identifiers` that returns keeps the tables consistent.
pub remove_identifiers-IsConsistent :
    (xs : List Removal) (w : Writer) {out : Writer × ℕ}
    → IsConsistent w.db
    → remove_identifiers xs w ≡ ok out
    → IsConsistent out.0.db
unfolding remove_identifiers
remove_identifiers-IsConsistent [] w {out} c h = let same : out.0 ≡ w = ground arith in rw same c
remove_identifiers-IsConsistent (x ∷ xs) w c h =
    remove_identifier_rows_inv (λ v. IsConsistent v.db)
      (λ y v step p r. remove_identifier-IsConsistent y v p (remove_identifier-Removed y v r))
      (x ∷ xs) _ 0 (create_identifiers-IsConsistent w.db c) h
