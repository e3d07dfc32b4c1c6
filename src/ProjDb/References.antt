-- ===== src/ProjDb/References.antt =====
-- `write_persistable_references` and `remove_persistable_references`
-- (geodetic_engine/projdb/writer.py).
pub mod Branches
pub mod Laws
use geodetic_engine.Base.{
  ℕ, ◌+◌, Bool, true, false, Option, none, some, List, [], ◌∷◌, ◌++◌, ◌==◌, Text, text_eq,
  if◌then◌else◌, Result, ok, err, ◌>>=◌, not,
}
use geodetic_engine.Base.Dict
use geodetic_engine.ProjDb.Tables.{
  Key, key_eq, Reference, Db, create_identifiers, create_references, admits_reference,
}
use geodetic_engine.ProjDb.Writer.{
  Error, collision, missing_object, no_such_table, not_listed, Replaced, Writer, ReferenceRow,
}

-- `INSERT`, whose foreign key refuses a reference for an id that is not recorded.
unfoldable pub insert_reference : ReferenceRow → Writer → Result Error Writer
insert_reference row w =
    if admits_reference w.db row.key row.reference
    then ok (record w {
      db = record w.db { references = Dict.insert row.key row.reference w.db.references };
    })
    else err missing_object

abbrev pub delete_reference : Key → Db → Db
delete_reference k db = record db { references = Dict.erase k db.references }

abbrev pub report_replaced : Key → Text → Text → Writer → Writer
report_replaced k previous now w = record w {
  replaced_references =
      w.replaced_references
      ++ (record { identifier = k.identifier; previous_sha256 = previous; sha256 = now } ∷ []);
}

-- Python's `list.remove`, which raises where the item is not listed.
unfoldable pub remove_first : Text → List Text → Option (List Text)
remove_first t [] = none
remove_first t (x ∷ xs) =
    let rest = remove_first t xs in
    if t == x then some xs else elim rest [ none ↦ none | some ys ↦ some (x ∷ ys) ]

-- A reference that was removed earlier in this build with an id that moved, and is now recorded
-- again, is a replacement and not a removal.
unfoldable pub restore_displaced : ReferenceRow → Writer → Result Error Writer
restore_displaced row w = elim (Dict.lookup row.key w.displaced_references) [
  | none ↦ ok w
  | some digest ↦ elim (remove_first row.key.identifier w.removed_references) [
    | none ↦ err not_listed
    | some removed ↦
        let w' = record w {
          displaced_references = Dict.erase row.key w.displaced_references;
          removed_references = removed;
        } in
        ok (
          if digest == row.reference.sha256
          then w'
          else report_replaced row.key digest row.reference.sha256 w')
  ]
]

-- One iteration of the loop of `write_persistable_references`: whether the row was written.
unfoldable pub write_reference : ReferenceRow → Writer → Result Error (Writer × Bool)
write_reference row w = elim (Dict.lookup row.key w.db.references) [
  | none ↦ do w' ← restore_displaced row w; w'' ← insert_reference row w'; ok (w'', true)
  | some r ↦
      if r.sha256 == row.reference.sha256
      then ok (w, false)
      else if not w.overwrite_rows
      then err collision
      else do
        w' ←
            insert_reference row (record (report_replaced row.key r.sha256 row.reference.sha256 w) {
              db = delete_reference row.key w.db;
            })
        ok (w', true)
]

unfoldable pub write_reference_rows :
    List ReferenceRow → Writer → ℕ → ℕ → Result Error (Writer × ℕ × ℕ)
write_reference_rows [] w written unchanged = ok (w, written, unchanged)
write_reference_rows (row ∷ rows) w written unchanged = write_reference row w >>= λ step.
    write_reference_rows rows step.0 (if step.1 then written + 1 else written)
      (if step.1 then unchanged else unchanged + 1)

unfoldable pub write_persistable_references :
    List ReferenceRow → Writer → Result Error (Writer × ℕ × ℕ)
unfolding write_reference_rows
write_persistable_references rows w = do
  (w', written, unchanged) ←
      write_reference_rows rows (record w { db = create_references (create_identifiers w.db) }) 0 0
  ok (record w' { inserted_references = w'.inserted_references + written }, written, unchanged)

-- One `DELETE` of the loop of `remove_persistable_references`, with its row count.
unfoldable pub remove_reference : Key → Writer → Writer × ℕ
remove_reference k w = elim (Dict.lookup k w.db.references) [
  | none ↦ (w, 0)
  | some _ ↦ (
    record w {
      db = delete_reference k w.db;
      removed_references = w.removed_references ++ (k.identifier ∷ []);
    },
    1,
  )
]

unfoldable pub remove_reference_rows : List Key → Writer → ℕ → Writer × ℕ
remove_reference_rows [] w removed = (w, removed)
remove_reference_rows (k ∷ ks) w removed =
    let (w', n) = remove_reference k w in remove_reference_rows ks w' (removed + n)

-- A `DELETE` from a table that no build has created is an error of SQLite's.
unfoldable pub remove_persistable_references : List Key → Writer → Result Error (Writer × ℕ)
unfolding remove_reference_rows
remove_persistable_references [] w = ok (w, 0)
remove_persistable_references (k ∷ ks) w =
    if not w.overwrite_rows
    then err collision
    else if not w.db.reference_table
    then err no_such_table
    else ok (remove_reference_rows (k ∷ ks) w 0)
