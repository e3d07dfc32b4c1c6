-- ===== src/ProjDb/References/Laws.antt =====
-- What `write_persistable_references` leaves recorded (geodetic_engine/projdb/writer.py).
use geodetic_engine.Base.{
  ℕ, ◌+◌, ◌≡◌, ◌∙◌, ap, Bool, false, Option, none, some, List, [], ◌∷◌, ◌==◌, Text, text_eq,
  if◌then◌else◌, ok, arith, inl, inr, Result-cases,
}
use geodetic_engine.Base.Dict
use geodetic_engine.ProjDb.Tables.{
  Key, key_eq, Reference, Db, create_identifiers, create_references, admits_reference,
}
use geodetic_engine.ProjDb.Writer.{Writer, ReferenceRow}
use geodetic_engine.ProjDb.References.{
  insert_reference, delete_reference, restore_displaced, write_reference, write_reference_rows,
  write_persistable_references,
}
use geodetic_engine.ProjDb.Identifiers.Consistency.{IsConsistent}
use geodetic_engine.ProjDb.References.Branches.{
  restore_displaced-db, Stored, fresh, same, replaced, write_reference-Stored,
}

-- The digest of an id's reference.
abbrev pub digested : Option Reference → Option Text
digested none = none
digested (some r) = some r.sha256

abbrev pub digest : Key → Db → Option Text
digest k db = digested (Dict.lookup k db.references)

-- What the last row for an id states, or what held before.
abbrev pub digest_last : Key → List ReferenceRow → Option Text → Option Text
digest_last k [] old = old
digest_last k (row ∷ rows) old =
    digest_last k rows (if k == row.key then some row.reference.sha256 else old)

insert_reference-digest :
    (row : ReferenceRow) (w : Writer) {out : Writer} (k : Key)
    → insert_reference row w ≡ ok out
    → digest k out.db ≡ (if k == row.key then some row.reference.sha256 else digest k w.db)
unfolding insert_reference
insert_reference-digest row w k h =
    ground (arith, Dict.lookup-insert k row.key row.reference w.db.references)

write_reference-digest :
    (row : ReferenceRow) (w : Writer) (k : Key) {step : Writer × Bool}
    → Stored row w step
    → digest k step.0.db ≡ (if k == row.key then some row.reference.sha256 else digest k w.db)
write_reference-digest row w k (fresh mid out e f g s) =
    rw s (insert_reference-digest row mid k g ∙ ground (arith, restore_displaced-db row w f))
write_reference-digest row w k (same r e p s) = rw s (ground arith)
write_reference-digest row w k (replaced r out e n o f s) = rw s (
    insert_reference-digest row _ k f ∙ ground (arith, Dict.lookup-erase k row.key w.db.references))

write_reference_rows-digest :
    (rows : List ReferenceRow) (w : Writer) (written unchanged : ℕ) (k : Key) {out : Writer × ℕ × ℕ}
    → write_reference_rows rows w written unchanged ≡ ok out
    → digest k out.0.db ≡ digest_last k rows (digest k w.db)
unfolding write_reference_rows
write_reference_rows-digest [] w written unchanged k h = ground arith
write_reference_rows-digest (row ∷ rows) w written unchanged k h =
    elim (Result-cases (write_reference row w)) [
      | inl (step, e) ↦
          write_reference_rows-digest rows step.0 _ _ k (rw e at h)
          ∙ ap (digest_last k rows)
              (write_reference-digest row w k (write_reference-Stored row w e))
      | inr (x, e) ↦ absurd (ground arith)
    ]

pub write_persistable_references-loop :
    (rows : List ReferenceRow) (w : Writer) {out : Writer × ℕ × ℕ}
    → write_persistable_references rows w ≡ ok out
    → (mid : Writer × ℕ × ℕ) × (write_reference_rows rows
          (record w { db = create_references (create_identifiers w.db) })
          0
          0
        ≡ ok mid)
      × (out ≡ (
        record mid.0 { inserted_references = mid.0.inserted_references + mid.1 },
        mid.1,
        mid.2,
      ))
unfolding write_persistable_references
write_persistable_references-loop rows w h =
    elim (Result-cases (
      write_reference_rows rows (record w { db = create_references (create_identifiers w.db) }) 0
        0)) [ inl (mid, e) ↦ (mid, e, ground arith) | inr (x, e) ↦ absurd (ground arith) ]

-- After a call of `write_persistable_references` that returns, the digest recorded for an id is
-- the one that the last row for it states, and an id for which no row was given has the digest
-- that it had, or none.
pub digest-write_persistable_references :
    (rows : List ReferenceRow) (w : Writer) (k : Key) {out : Writer × ℕ × ℕ}
    → write_persistable_references rows w ≡ ok out
    → digest k out.0.db ≡ digest_last k rows (digest k w.db)
digest-write_persistable_references rows w k h =
    let (mid, e, f) = write_persistable_references-loop rows w h in
    rw f (write_reference_rows-digest rows _ 0 0 k e)

-- What holds before the loop and is kept by each iteration holds after it.
write_reference_rows_inv {ℓ} :
    (P : Writer → Type ℓ)
    → ((row : ReferenceRow) (w : Writer) (step : Writer × Bool)
        → P w
        → Stored row w step
        → P step.0)
    → (rows : List ReferenceRow) (w : Writer) (written unchanged : ℕ) {out : Writer × ℕ × ℕ} → P w
    → write_reference_rows rows w written unchanged ≡ ok out
    → P out.0
unfolding write_reference_rows
write_reference_rows_inv P keep [] w written unchanged {out} p h =
    let e : out.0 ≡ w = ground arith in rw e p
write_reference_rows_inv P keep (row ∷ rows) w written unchanged p h =
    elim (Result-cases (write_reference row w)) [
      | inl (step, e) ↦
          write_reference_rows_inv P keep rows step.0 _ _
            (keep row w step p (write_reference-Stored row w e)) (rw e at h)
      | inr (x, e) ↦ absurd (ground arith)
    ]

insert_reference-IsConsistent :
    (row : ReferenceRow) (w : Writer) {out : Writer}
    → IsConsistent w.db
    → insert_reference row w ≡ ok out
    → IsConsistent out.db
unfolding insert_reference admits_reference
insert_reference-IsConsistent row w c h = record {
  exist = λ k r e. ground (arith, c.exist k r);
  backed = λ k r e.
      ground (arith, c.backed k r, Dict.lookup-insert k row.key row.reference w.db.references);
}

delete_reference-IsConsistent :
    (k : Key) (db : Db) → IsConsistent db → IsConsistent (delete_reference k db)
delete_reference-IsConsistent k db c = record {
  exist = c.exist;
  backed = λ j r e. ground (arith, c.backed j r, Dict.lookup-erase j k db.references);
}

write_reference-IsConsistent :
    (row : ReferenceRow) (w : Writer) (step : Writer × Bool)
    → IsConsistent w.db
    → Stored row w step
    → IsConsistent step.0.db
write_reference-IsConsistent row w step c (fresh mid out e f g s) =
    rw s (insert_reference-IsConsistent row mid (rw (restore_displaced-db row w f) c) g)
write_reference-IsConsistent row w step c (same r e p s) = rw s c
write_reference-IsConsistent row w step c (replaced r out e n o f s) =
    rw s (insert_reference-IsConsistent row _ (delete_reference-IsConsistent row.key w.db c) f)

-- A call of `write_persistable_references` that returns keeps the tables consistent: each
-- reference belongs to a recorded id, and each id names an object.
pub write_persistable_references-IsConsistent :
    (rows : List ReferenceRow) (w : Writer) {out : Writer × ℕ × ℕ}
    → IsConsistent w.db
    → write_persistable_references rows w ≡ ok out
    → IsConsistent out.0.db
write_persistable_references-IsConsistent rows w c h =
    let (mid, e, f) = write_persistable_references-loop rows w h in
    rw f (
      write_reference_rows_inv (λ v. IsConsistent v.db) write_reference-IsConsistent rows _ 0 0
        (record { exist = c.exist; backed = c.backed }) e)

module _ (k : Key) (r₀ : Reference) where
  abbrev Keeps : Writer → Type 0
  Keeps w = (w.overwrite_rows ≡ false) × (Dict.lookup k w.db.references ≡ some r₀)

  restore_displaced-overwrite :
      (row : ReferenceRow) (w : Writer) {w' : Writer}
      → restore_displaced row w ≡ ok w'
      → w'.overwrite_rows ≡ w.overwrite_rows
  unfolding restore_displaced
  restore_displaced-overwrite row w h = ground arith

  write_reference-Keeps :
      (row : ReferenceRow) (w : Writer) (step : Writer × Bool)
      → Keeps w
      → Stored row w step
      → Keeps step.0
  unfolding insert_reference
  write_reference-Keeps row w step p (fresh mid out e f g s) = rw s (
      ground (
        arith,
        restore_displaced-overwrite row w f,
        restore_displaced-db row w f,
        Dict.lookup-insert k row.key row.reference mid.db.references,
      ))
  write_reference-Keeps row w step p (same r e q s) = rw s p
  write_reference-Keeps row w step p (replaced r out e n o f s) = absurd (ground arith)

-- Without `overwrite_rows` a call of `write_persistable_references` that returns leaves every
-- reference that was recorded as it was.
pub write_persistable_references_keeps :
    (rows : List ReferenceRow) (w : Writer) (k : Key) {r : Reference} {out : Writer × ℕ × ℕ}
    → w.overwrite_rows ≡ false
    → Dict.lookup k w.db.references ≡ some r
    → write_persistable_references rows w ≡ ok out
    → Dict.lookup k out.0.db.references ≡ some r
write_persistable_references_keeps rows w k {r} o p h =
    let (mid, e, f) = write_persistable_references-loop rows w h in
    rw f (write_reference_rows_inv (Keeps k r) (write_reference-Keeps k r) rows _ 0 0 (o, p) e).1
