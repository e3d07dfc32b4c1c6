-- ===== src/ProjDb/Identifiers/Returns.antt =====
-- When `write_identifiers` returns (geodetic_engine/projdb/writer.py).
use geodetic_engine.Base.{
  leb, length, contains, text_eq, ◌&&◌, ℕ, ◌+◌, ◌≡◌, ◌≢◌, refl, ◌∙◌, Bool, true, false, some, List,
  [], ◌∷◌, All, ok, err, arith, Result-cases, Option-cases, Bool-cases, ◌==◌, inl, inr,
}
use geodetic_engine.Base.Dict
use geodetic_engine.ProjDb.Tables.{
  Db, Recorded, admits_identifier, admits_alias, alias_eq, create_identifiers, delete_identifier,
  target_eq, key_eq,
}
use geodetic_engine.ProjDb.Writer.{
  Error, Writer, IdentifierRow, insert_identifier, add_identifier_alias,
}
use geodetic_engine.ProjDb.Identifiers.{
  annotate, same_flag, update_flag, displace, delete_recorded, move_identifier, write_identifier,
  write_identifier_rows, write_identifiers, tick,
}
use geodetic_engine.ProjDb.Identifiers.Branches.{
  annotated, Wrote, fresh, kept, flagged, moved, reported, write_identifier-Wrote,
}

-- What PROJ's tables and those of this package accept: the columns and the object of a row, and its
-- alias where aliases are asked for.
abbrev pub Admits : Bool → Writer → IdentifierRow → Type 0
Admits aliases w row =
    (admits_identifier w.db row.key row.recorded ≡ true)
    × (aliases ≡ true
        → (leb 2 (length row.key.identifier)
            && contains w.db.alias_tables row.recorded.target.table_name
            && w.db.objects row.recorded.target)
          ≡ true)

-- What a step leaves alone, and on which it depends whether the next one returns.
abbrev Like : Writer → Writer → Type 0
Like w w' =
    (w'.overwrite_rows ≡ w.overwrite_rows)
    × (w'.db.objects ≡ w.db.objects)
    × (w'.db.alias_tables ≡ w.db.alias_tables)

Admits-Like :
    (aliases : Bool) (row : IdentifierRow) (w w' : Writer)
    → Like w w'
    → Admits aliases w row
    → Admits aliases w' row
unfolding admits_identifier
Admits-Like aliases row w w' (e, f, g) (a, b) = (rw f a, λ h. rw (f, g) (b h))

annotate-Like :
    (aliases : Bool) (row : IdentifierRow) (wrote : Bool) (w : Writer)
    → Like w (annotated aliases row wrote w).0
unfolding annotated
annotate-Like aliases row wrote w = (ground arith, ground arith, ground arith)

insert_identifier-kept :
    (row : IdentifierRow) (db : Db) {db' : Db}
    → insert_identifier row db ≡ ok db'
    → (db'.objects ≡ db.objects) × (db'.alias_tables ≡ db.alias_tables)
unfolding insert_identifier
insert_identifier-kept row db h = (ground arith, ground arith)

insert_identifier-Like :
    (row : IdentifierRow) (w : Writer) {db : Db}
    → insert_identifier row w.db ≡ ok db
    → Like w (record w { db = db })
insert_identifier-Like row w h = let (o, t) = insert_identifier-kept row w.db h in (refl, o, t)

displace-Like : (row : IdentifierRow) (w : Writer) → Like w (displace row.key w)
unfolding displace
displace-Like row w = (ground arith, ground arith, ground arith)

Like-trans : (u v w : Writer) → Like u v → Like v w → Like u w
Like-trans u v w (a, b, c) (d, e, f) = (d ∙ a, e ∙ b, f ∙ c)

move_identifier-Like :
    (row : IdentifierRow) (r : Recorded) (w : Writer) {w' : Writer}
    → move_identifier row r w ≡ ok w'
    → Like w w'
unfolding move_identifier delete_recorded delete_identifier
move_identifier-Like row r w {w'} h =
    let v = displace row.key w in
    let (e, f, g) = displace-Like row w in
    elim (Result-cases (insert_identifier row (delete_recorded row.key r.target v.db))) [
      | inl (db, k) ↦
          let (o, t) = insert_identifier-kept row (delete_recorded row.key r.target v.db) k in
          (ground (arith, h, e, k), ground (arith, h, f, k, o), ground (arith, h, g, k, t))
      | inr (x, k) ↦ absurd (ground (arith, h, k))
    ]

write_identifier-Like :
    (aliases : Bool) (row : IdentifierRow) (w : Writer) {step : Writer × Bool × Bool}
    → Wrote aliases row w step
    → Like w step.0
unfolding update_flag
write_identifier-Like aliases row w (fresh db e f s) =
    let inserted : Writer = record w { db = db } in
    rw s (
      Like-trans w inserted (annotated aliases row true inserted).0 (insert_identifier-Like row w f)
        (annotate-Like aliases row true inserted))
write_identifier-Like aliases row w (kept r e p q s) = rw s (annotate-Like aliases row false w)
write_identifier-Like aliases row w (flagged r e o p q s) =
    rw s (annotate-Like aliases row true (update_flag row r (reported row r w)))
write_identifier-Like aliases row w (moved r w' e o p f s) = rw s (
    Like-trans w w' (annotated aliases row true w').0
      (move_identifier-Like row r (reported row r w) f) (annotate-Like aliases row true w'))

insert_identifier_returns :
    (aliases : Bool) (row : IdentifierRow) (w : Writer) (db : Db) {e : Error}
    → db.objects ≡ w.db.objects
    → Admits aliases w row
    → insert_identifier row db ≢ err e
unfolding insert_identifier admits_identifier
insert_identifier_returns aliases row w db f a h = ground (arith, f, a.0, h)

annotate_returns :
    (aliases : Bool) (row : IdentifierRow) (wrote : Bool) (w w' : Writer) {e : Error}
    → Like w w'
    → Admits aliases w row
    → annotate aliases row wrote w' ≢ err e
unfolding annotate add_identifier_alias admits_alias
annotate_returns false row wrote w w' l a h = ground (arith, h)
annotate_returns true row wrote w w' l a h =
    ground (arith, h, (Admits-Like true row w w' l a).1 refl)

update_flag-Like : (row : IdentifierRow) (r : Recorded) (w : Writer) → Like w (update_flag row r w)
unfolding update_flag
update_flag-Like row r w = (refl, refl, refl)

move_identifier_returns :
    (aliases : Bool) (row : IdentifierRow) (r : Recorded) (w : Writer) {e : Error}
    → Admits aliases w row
    → move_identifier row r w ≢ err e
unfolding move_identifier delete_recorded delete_identifier
move_identifier_returns aliases row r w a h =
    let moved_db = delete_recorded row.key r.target (displace row.key w).db in
    elim (Result-cases (insert_identifier row moved_db)) [
      | inl (db, f) ↦ ground (arith, f, h)
      | inr (x, f) ↦ insert_identifier_returns aliases row w moved_db (displace-Like row w).1 a f
    ]

known_returns :
    (aliases : Bool) (row : IdentifierRow) (w : Writer) (r : Recorded) {e : Error}
    → w.overwrite_rows ≡ true
    → Admits aliases w row
    → Dict.lookup row.key w.db.identifiers ≡ some r
    → write_identifier aliases row w ≢ err e
unfolding write_identifier
known_returns aliases row w r {e} o a l h =
    let v = reported row r w in
    let flagged_only = update_flag row r v in
    elim (Bool-cases (r.target == row.recorded.target)) [
      | inl t ↦ elim (Bool-cases (same_flag r.deprecated row.recorded.deprecated)) [
        | inl f ↦
            annotate_returns aliases row false w w {e = e} (refl, refl, refl) a
              (ground (arith, l, t, f, h))
        | inr f ↦
            annotate_returns aliases row true w flagged_only {e = e} (update_flag-Like row r v) a
              (ground (arith, l, t, f, o, h))
      ]
      | inr t ↦ elim (Result-cases (move_identifier row r v)) [
        | inr (x, f) ↦ move_identifier_returns aliases row r v a f
        | inl (w', f) ↦
            annotate_returns aliases row true w w' {e = e} (move_identifier-Like row r v f) a
              (ground (arith, l, t, f, o, h))
      ]
    ]

write_identifier_returns :
    (aliases : Bool) (row : IdentifierRow) (w : Writer) {e : Error}
    → w.overwrite_rows ≡ true
    → Admits aliases w row
    → write_identifier aliases row w ≢ err e
unfolding write_identifier
write_identifier_returns aliases row w {e} o a h =
    elim (Option-cases (Dict.lookup row.key w.db.identifiers)) [
      | inl l ↦ elim (Result-cases (insert_identifier row w.db)) [
        | inl (db, f) ↦
            annotate_returns aliases row true w (record w { db = db }) {e = e}
              (insert_identifier-Like row w f) a (ground (arith, l, f, h))
        | inr (x, f) ↦ insert_identifier_returns aliases row w w.db refl a f
      ]
      | inr (r, l) ↦ known_returns aliases row w r o a l h
    ]

All-Like :
    (aliases : Bool) (rows : List IdentifierRow) (w w' : Writer)
    → Like w w'
    → All (Admits aliases w) rows
    → All (Admits aliases w') rows
All-Like aliases [] w w' l a = tt
All-Like aliases (row ∷ rows) w w' l (a, rest) =
    (Admits-Like aliases row w w' l a, All-Like aliases rows w w' l rest)

write_identifier_rows_returns :
    (aliases : Bool) (rows : List IdentifierRow) (w : Writer) (written aliased : ℕ)
    → w.overwrite_rows ≡ true
    → All (Admits aliases w) rows
    → (out : Writer × ℕ × ℕ) × (write_identifier_rows aliases rows w written aliased ≡ ok out)
unfolding write_identifier_rows
write_identifier_rows_returns aliases [] w written aliased o a = ((w, written, aliased), refl)
write_identifier_rows_returns aliases (row ∷ rows) w written aliased o (a, rest) =
    elim (Result-cases (write_identifier aliases row w)) [
      | inr (x, e) ↦ absurd (write_identifier_returns aliases row w o a e)
      | inl (step, e) ↦
          let l = write_identifier-Like aliases row w (write_identifier-Wrote aliases row w e) in
          let (out, f) =
            write_identifier_rows_returns aliases rows step.0 (tick step.1 written)
              (tick step.2 aliased) (l.0 ∙ o) (All-Like aliases rows w step.0 l rest) in
          (out, rw e f)
    ]

-- With `overwrite_rows`, a call of `write_identifiers` returns, whatever was recorded before, where
-- each row has an object of the database and no empty column and, if aliases are asked for, an id
-- of at least two characters for an object of a table that may have aliases.
pub write_identifiers_returns :
    (aliases : Bool) (rows : List IdentifierRow) (w : Writer)
    → w.overwrite_rows ≡ true
    → All (Admits aliases w) rows
    → (out : Writer × ℕ × ℕ) × (write_identifiers aliases rows w ≡ ok out)
unfolding write_identifiers
write_identifiers_returns aliases rows w o a =
    let v : Writer = record w { db = create_identifiers w.db } in
    let (out, e) =
      write_identifier_rows_returns aliases rows v 0 0 o
        (All-Like aliases rows w v (refl, refl, refl) a) in
    let counted : Writer × ℕ × ℕ = (
      record out.0 {
        inserted_identifiers = out.0.inserted_identifiers + out.1;
        inserted_aliases = out.0.inserted_aliases + out.2;
      },
      out.1,
      out.2,
    ) in
    (counted, rw e refl)
