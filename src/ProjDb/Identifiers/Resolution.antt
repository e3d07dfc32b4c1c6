-- ===== src/ProjDb/Identifiers/Resolution.antt =====
-- What an id names after `write_identifiers` and `remove_identifiers`
-- (geodetic_engine/projdb/writer.py).
use geodetic_engine.Base.{
  ℕ, ◌+◌, ◌≡◌, ◌∙◌, Bool, true, Option, none, some, List, [], ◌∷◌, ◌==◌, text_eq, if◌then◌else◌, ok,
  ap, arith, Result-cases, inl, inr,
}
use geodetic_engine.Base.Dict
use geodetic_engine.ProjDb.Tables.{
  Key, key_eq, Target, target_eq, Recorded, Db, create_identifiers, delete_identifier,
}
use geodetic_engine.ProjDb.Writer.{Writer, IdentifierRow, insert_identifier}
use geodetic_engine.ProjDb.Identifiers.Branches.{
  annotated, Wrote, fresh, kept, flagged, moved, reported, write_identifier-Wrote,
}
use geodetic_engine.ProjDb.Identifiers.{
  same_flag, update_flag, displace, delete_recorded, move_identifier, write_identifier,
  write_identifier_rows, write_identifiers, tick,
}

-- The object and the inactive flag that an id names.
abbrev pub denoted : Option Recorded → Option (Target × Bool)
denoted none = none
denoted (some r) = some (r.target, r.deprecated)

abbrev pub names : Key → Db → Option (Target × Bool)
names k db = denoted (Dict.lookup k db.identifiers)

pub annotate-identifiers :
    (aliases : Bool) (row : IdentifierRow) (wrote : Bool) (w : Writer)
    → (annotated aliases row wrote w).0.db.identifiers ≡ w.db.identifiers
unfolding annotated
annotate-identifiers aliases row wrote w = ground arith

pub displace-db : (k : Key) (w : Writer) → (displace k w).db ≡ w.db
unfolding displace
displace-db k w = ground arith

same_flag-eq : (a b : Bool) → same_flag a b ≡ true → a ≡ b
same_flag-eq a b h = ground arith

names-insert_identifier :
    (row : IdentifierRow) (db : Db) {db' : Db} (k : Key)
    → insert_identifier row db ≡ ok db'
    → names k db'
      ≡ (if k == row.key then some (row.recorded.target, row.recorded.deprecated) else names k db)
unfolding insert_identifier
names-insert_identifier row db k h =
    ground (arith, Dict.lookup-insert k row.key row.recorded db.identifiers)

pub names-move_identifier :
    (row : IdentifierRow) (r : Recorded) (w : Writer) {w' : Writer} (k : Key)
    → move_identifier row r w ≡ ok w'
    → names k w'.db
      ≡ (if k == row.key then some (row.recorded.target, row.recorded.deprecated) else names k w.db)
unfolding move_identifier insert_identifier delete_recorded delete_identifier
names-move_identifier row r w k h = ground (
  arith,
  displace-db row.key w,
  Dict.lookup-insert k row.key row.recorded
      (Dict.erase row.key (displace row.key w).db.identifiers),
  Dict.lookup-erase k row.key (displace row.key w).db.identifiers,
)

names-update_flag :
    (row : IdentifierRow) (r : Recorded) (w : Writer) (k : Key)
    → r.target ≡ row.recorded.target
    → names k (update_flag row r w).db
      ≡ (if k == row.key then some (row.recorded.target, row.recorded.deprecated) else names k w.db)
unfolding update_flag
names-update_flag row r w k h = rw Dict.lookup-insert (ground arith)

pub names-write_identifier :
    (aliases : Bool) (row : IdentifierRow) (w : Writer) (k : Key) {step : Writer × Bool × Bool}
    → Wrote aliases row w step
    → names k step.0.db
      ≡ (if k == row.key then some (row.recorded.target, row.recorded.deprecated) else names k w.db)
names-write_identifier aliases row w k (fresh db e f s) =
    rw (s, annotate-identifiers) (names-insert_identifier row w.db k f)
names-write_identifier aliases row w k (kept r e p q s) =
    rw (s, annotate-identifiers) (ground arith)
names-write_identifier aliases row w k (flagged r e o p q s) =
    rw (s, annotate-identifiers) (names-update_flag row r (reported row r w) k p)
names-write_identifier aliases row w k (moved r w' e o n f s) =
    rw (s, annotate-identifiers) (names-move_identifier row r (reported row r w) k f)

-- What the last row for an id states, or what held before.
abbrev pub stated_last : Key → List IdentifierRow → Option (Target × Bool) → Option (Target × Bool)
stated_last k [] old = old
stated_last k (row ∷ rows) old =
    stated_last k rows
      (if k == row.key then some (row.recorded.target, row.recorded.deprecated) else old)

names-write_identifier_rows :
    (aliases : Bool) (rows : List IdentifierRow) (w : Writer) (written aliased : ℕ) (k : Key)
    {out : Writer × ℕ × ℕ}
    → write_identifier_rows aliases rows w written aliased ≡ ok out
    → names k out.0.db ≡ stated_last k rows (names k w.db)
unfolding write_identifier_rows
names-write_identifier_rows aliases [] w written aliased k h = ground arith
names-write_identifier_rows aliases (row ∷ rows) w written aliased k h =
    elim (Result-cases (write_identifier aliases row w)) [
      | inl (step, e) ↦
          names-write_identifier_rows aliases rows step.0 (tick step.1 written)
            (tick step.2 aliased) k (rw e at h)
          ∙ ap (stated_last k rows)
              (names-write_identifier aliases row w k (write_identifier-Wrote aliases row w e))
      | inr (x, e) ↦ absurd (ground arith)
    ]

-- The loop of a call that returned, and that the call's writer holds the loop's database.
pub write_identifiers-loop :
    (aliases : Bool) (rows : List IdentifierRow) (w : Writer) {out : Writer × ℕ × ℕ}
    → write_identifiers aliases rows w ≡ ok out
    → (mid : Writer × ℕ × ℕ) × (write_identifier_rows aliases rows
          (record w { db = create_identifiers w.db })
          0
          0
        ≡ ok mid)
      × (out ≡ (
        record mid.0 {
          inserted_identifiers = mid.0.inserted_identifiers + mid.1;
          inserted_aliases = mid.0.inserted_aliases + mid.2;
        },
        mid.1,
        mid.2,
      ))
unfolding write_identifiers
write_identifiers-loop aliases rows w h =
    elim (Result-cases
      (write_identifier_rows aliases rows (record w { db = create_identifiers w.db }) 0 0)) [
        | inl (mid, e) ↦ (mid, e, ground arith)
        | inr (x, e) ↦ absurd (ground arith)
      ]

-- After a call of `write_identifiers` that returns, every id names the object, with the inactive
-- flag, that the last row for it states, and an id for which no row was given names what it named
-- before.
pub names-write_identifiers :
    (aliases : Bool) (rows : List IdentifierRow) (w : Writer) (k : Key) {out : Writer × ℕ × ℕ}
    → write_identifiers aliases rows w ≡ ok out
    → names k out.0.db ≡ stated_last k rows (names k w.db)
names-write_identifiers aliases rows w k h =
    let (mid, e, f) = write_identifiers-loop aliases rows w h in
    rw f (names-write_identifier_rows aliases rows _ 0 0 k e)
