-- ===== src/ProjDb/Identifiers.antt =====
-- `write_identifiers` and `remove_identifiers` (geodetic_engine/projdb/writer.py).
pub mod Branches
pub mod Resolution
pub mod Consistency
pub mod Safety
pub mod Displaced
pub mod Removals
pub mod Returns
use geodetic_engine.Base.{
  ℕ, ◌+◌, Bool, true, false, Option, none, some, List, [], ◌∷◌, ◌++◌, ◌==◌, contains, Text, text_eq,
  if◌then◌else◌, Result, ok, err, ◌>>=◌, ◌>>◌, guard, not, ◌&&◌,
}
use geodetic_engine.Base.Dict
use geodetic_engine.ProjDb.Tables.{
  Key, key_eq, Target, target_eq, Recorded, Db, create_identifiers, delete_identifier, delete_alias,
  identifier_alias,
}
use geodetic_engine.ProjDb.Writer.{
  Error, collision, Named, object, nothing, Moved, Writer, IdentifierRow, insert_identifier,
  add_identifier_alias, reference_digest, persistable_reference_recorded,
}

-- Whether an existing row names what a row states: the same object, with the same flag.
abbrev pub same_flag : Bool → Bool → Bool
same_flag true b = b
same_flag false b = not b

-- The tail of an iteration of `write_identifiers`: the alias, if aliases are asked for. The
-- result is the writer, whether the identifier was written and whether the alias was.
unfoldable pub annotate : Bool → IdentifierRow → Bool → Writer → Result Error (Writer × Bool × Bool)
annotate false row wrote w = ok (w, wrote, false)
annotate true row wrote w = elim (add_identifier_alias row.key row.recorded.target w.db) [
  | err e ↦ err e
  | ok (db, added) ↦ ok (record w { db = db }, wrote, added)
]

abbrev pub named : Recorded → Named
named r = object r.target r.deprecated

-- Only the flag of an identifier changes, with its source.
unfoldable pub update_flag : IdentifierRow → Recorded → Writer → Writer
update_flag row r w = record w {
  db = record w.db {
    identifiers =
        Dict.insert row.key
          (record r { deprecated = row.recorded.deprecated; source = row.recorded.source })
          w.db.identifiers;
  };
}

-- The reference that the foreign key removes with a moved identifier is kept in mind by its
-- digest and reported as removed.
unfoldable pub displace : Key → Writer → Writer
displace k w = elim (reference_digest k w.db) [
  | none ↦ w
  | some digest ↦ record w {
    displaced_references = Dict.insert k digest w.displaced_references;
    removed_references = w.removed_references ++ (k.identifier ∷ []);
  }
]

-- The two `DELETE`s of an identifier and of the alias of the object that it named.
unfoldable pub delete_recorded : Key → Target → Db → Db
delete_recorded k previous db =
    let db' = delete_identifier k db in
    record db' { aliases = delete_alias (identifier_alias k previous) db'.aliases }

abbrev pub report_move : Key → Named → Named → Writer → Writer
report_move k previous now w = record w {
  moved_identifiers =
      w.moved_identifiers
      ++ (record { identifier = k.identifier; previous = previous; now = now } ∷ []);
}

-- An identifier that named another object is deleted, with what hung on it, and recorded anew.
unfoldable pub move_identifier : IdentifierRow → Recorded → Writer → Result Error Writer
move_identifier row r w =
    let w' = displace row.key w in
    do
      db ← insert_identifier row (delete_recorded row.key r.target w'.db)
      ok (record w' { db = db })

-- One iteration of the loop of `write_identifiers`.
unfoldable pub write_identifier :
    Bool → IdentifierRow → Writer → Result Error (Writer × Bool × Bool)
write_identifier aliases row w = elim (Dict.lookup row.key w.db.identifiers) [
  | none ↦ do db ← insert_identifier row w.db; annotate aliases row true (record w { db = db })
  | some r ↦
      if r.target == row.recorded.target && same_flag r.deprecated row.recorded.deprecated
      then annotate aliases row false w
      else if not w.overwrite_rows
      then err collision
      else let w' = report_move row.key (named r) (named row.recorded) w in
        if r.target == row.recorded.target
        then annotate aliases row true (update_flag row r w')
        else do moved ← move_identifier row r w'; annotate aliases row true moved
]

abbrev pub tick : Bool → ℕ → ℕ
tick b n = if b then n + 1 else n

-- The loop, with what it counts.
unfoldable pub write_identifier_rows :
    Bool → List IdentifierRow → Writer → ℕ → ℕ → Result Error (Writer × ℕ × ℕ)
write_identifier_rows aliases [] w written aliased = ok (w, written, aliased)
write_identifier_rows aliases (row ∷ rows) w written aliased =
    write_identifier aliases row w >>= λ step.
    write_identifier_rows aliases rows step.0 (tick step.1 written) (tick step.2 aliased)

unfoldable pub write_identifiers :
    Bool → List IdentifierRow → Writer → Result Error (Writer × ℕ × ℕ)
unfolding write_identifier_rows
write_identifiers aliases rows w = do
  (w', written, aliased) ←
      write_identifier_rows aliases rows (record w { db = create_identifiers w.db }) 0 0
  ok (
    record w' {
      inserted_identifiers = w'.inserted_identifiers + written;
      inserted_aliases = w'.inserted_aliases + aliased;
    },
    written,
    aliased,
  )

-- What `remove_identifiers` is asked to remove, and why.
pub record Removal : Type 0 where
  pub key : Key
  pub why : Text

abbrev pub report_removed : Key → Writer → Writer
report_removed k w = record w { removed_references = w.removed_references ++ (k.identifier ∷ []) }

-- One iteration of the loop of `remove_identifiers`: whether the identifier was removed.
unfoldable pub remove_identifier : Removal → Writer → Result Error (Writer × Bool)
remove_identifier x w = elim (Dict.lookup x.key w.db.identifiers) [
  | none ↦ ok (w, false)
  | some r ↦
      if not w.overwrite_rows
      then err collision
      else let w' =
          if persistable_reference_recorded x.key w.db then report_removed x.key w else w in
        ok (
          report_move x.key (named r) (nothing x.why)
              (record w' { db = delete_recorded x.key r.target w.db }),
          true,
        )
]

unfoldable pub remove_identifier_rows : List Removal → Writer → ℕ → Result Error (Writer × ℕ)
remove_identifier_rows [] w removed = ok (w, removed)
remove_identifier_rows (x ∷ xs) w removed =
    remove_identifier x w >>= λ step. remove_identifier_rows xs step.0 (tick step.1 removed)

-- An empty request returns before the table is created.
unfoldable pub remove_identifiers : List Removal → Writer → Result Error (Writer × ℕ)
unfolding remove_identifier_rows
remove_identifiers [] w = ok (w, 0)
remove_identifiers (x ∷ xs) w =
    remove_identifier_rows (x ∷ xs) (record w { db = create_identifiers w.db }) 0
