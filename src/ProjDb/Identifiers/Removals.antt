-- ===== src/ProjDb/Identifiers/Removals.antt =====
-- What `remove_identifiers` removes (geodetic_engine/projdb/writer.py).
use geodetic_engine.Base.{
  ℕ, ◌≡◌, ◌∙◌, Bool, true, false, none, List, [], ◌∷◌, ◌==◌, text_eq, if◌then◌else◌, ok, ◌||◌,
  arith, inl, inr, Result-cases, Option-cases,
}
use geodetic_engine.Base.Dict
use geodetic_engine.ProjDb.Tables.{Key, key_eq, delete_identifier}
use geodetic_engine.ProjDb.Writer.{Writer}
use geodetic_engine.ProjDb.Identifiers.{
  Removal, remove_identifier, remove_identifier_rows, remove_identifiers, delete_recorded, tick,
}
use geodetic_engine.ProjDb.Identifiers.Branches.{Removed, absent, gone, remove_identifier-Removed}
use geodetic_engine.ProjDb.Identifiers.Consistency.{IsConsistent, remove_identifiers-IsConsistent}

-- Whether a request names an id.
abbrev pub asks : Key → List Removal → Bool
asks k [] = false
asks k (x ∷ xs) = k == x.key || asks k xs

module _ (k : Key) where
  remove_identifier-lookup :
      (x : Removal) (w : Writer) {step : Writer × Bool}
      → Removed x w step
      → Dict.lookup k step.0.db.identifiers
        ≡ (if k == x.key then none else Dict.lookup k w.db.identifiers)
  unfolding delete_recorded delete_identifier
  remove_identifier-lookup x w (absent e s) = rw s (ground arith)
  remove_identifier-lookup x w (gone r e o s) = rw s (Dict.lookup-erase k x.key w.db.identifiers)

  remove_identifier_rows-lookup :
      (xs : List Removal) (w : Writer) (removed : ℕ) {out : Writer × ℕ}
      → remove_identifier_rows xs w removed ≡ ok out
      → Dict.lookup k out.0.db.identifiers
        ≡ (if asks k xs then none else Dict.lookup k w.db.identifiers)
  unfolding remove_identifier_rows
  remove_identifier_rows-lookup [] w removed h = ground arith
  remove_identifier_rows-lookup (x ∷ xs) w removed h = elim (Result-cases (remove_identifier x w)) [
    | inl (step, e) ↦
        remove_identifier_rows-lookup xs step.0 (tick step.1 removed) (rw e at h)
        ∙ ground (arith, remove_identifier-lookup x w (remove_identifier-Removed x w e))
    | inr (y, e) ↦ absurd (ground arith)
  ]

-- After a call of `remove_identifiers` that returns, each id asked for names nothing, and every
-- other id has the row that it had.
pub lookup-remove_identifiers :
    (xs : List Removal) (w : Writer) (k : Key) {out : Writer × ℕ}
    → remove_identifiers xs w ≡ ok out
    → Dict.lookup k out.0.db.identifiers
      ≡ (if asks k xs then none else Dict.lookup k w.db.identifiers)
unfolding remove_identifiers
lookup-remove_identifiers [] w k h = ground arith
lookup-remove_identifiers (x ∷ xs) w k h = remove_identifier_rows-lookup k (x ∷ xs) _ 0 h

-- In a consistent database no reference is left either for an id that `remove_identifiers` was
-- asked to remove, once it has returned.
pub remove_identifiers-references :
    (xs : List Removal) (w : Writer) (k : Key) {out : Writer × ℕ}
    → IsConsistent w.db
    → asks k xs ≡ true
    → remove_identifiers xs w ≡ ok out
    → Dict.lookup k out.0.db.references ≡ none
remove_identifiers-references xs w k {out} c a h =
    let after = remove_identifiers-IsConsistent xs w c h in
    elim (Option-cases (Dict.lookup k out.0.db.references)) [
      | inl e ↦ e
      | inr (r, e) ↦ absurd (after.backed k r e (lookup-remove_identifiers xs w k h ∙ ground arith))
    ]
