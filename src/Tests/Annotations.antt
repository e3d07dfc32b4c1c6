-- ===== src/Tests/Annotations.antt =====
-- The identifier and reference tables, in a build that overwrites.
use geodetic_engine.Base.{
  ℕ, ◌≡◌, refl, Bool, true, false, ◌||◌, none, some, List, [], ◌∷◌, ◌==◌, contains, Text, text_eq,
  nat_eq, codes, Result, ok, err, ◌⊎◌, arith,
}
use geodetic_engine.Base.Dict
use geodetic_engine.ProjDb.Tables.{
  Key, key_eq, Target, target_eq, Reference, alias_eq, Db, admits_identifier, admits_alias,
  admits_reference, delete_identifier, delete_alias, identifier_alias_source,
}
use geodetic_engine.ProjDb.Writer.{
  Error, Writer, IdentifierRow, ReferenceRow, insert_identifier, add_identifier_alias,
  reference_digest, persistable_reference_recorded,
}
use geodetic_engine.ProjDb.Identifiers.{
  annotate, update_flag, displace, delete_recorded, move_identifier, write_identifier,
  write_identifiers, Removal, remove_identifier, remove_identifiers,
}
use geodetic_engine.ProjDb.Identifiers.Resolution.{names, names-write_identifiers}
use geodetic_engine.ProjDb.Identifiers.Consistency.{
  IsConsistent, write_identifiers-IsConsistent, remove_identifiers-IsConsistent,
}
use geodetic_engine.ProjDb.Identifiers.Safety.{
  write_identifiers_keeps, write_identifiers_reports, lists_move,
}
use geodetic_engine.ProjDb.Identifiers.Returns.{write_identifiers_returns}
use geodetic_engine.ProjDb.Identifiers.Displaced.{
  write_identifiers_displaces, remove_identifiers_displaces,
}
use geodetic_engine.ProjDb.Identifiers.Removals.{
  lookup-remove_identifiers, remove_identifiers-references,
}
use geodetic_engine.ProjDb.References.{
  insert_reference, restore_displaced, write_reference, write_persistable_references, remove_first,
}
use geodetic_engine.ProjDb.References.Laws.{
  digest, digest_last, digest-write_persistable_references,
  write_persistable_references-IsConsistent, write_persistable_references_keeps,
}

abbrev key_a : Key
key_a = record { scheme = codes "S"; identifier = codes "id-a" }

abbrev key_b : Key
key_b = record { scheme = codes "S"; identifier = codes "id-b" }

abbrev ed50 : Target
ed50 = record { table_name = codes "crs"; auth_name = codes "EPSG"; code = codes "1" }

abbrev nad27 : Target
nad27 = record { table_name = codes "crs"; auth_name = codes "EPSG"; code = codes "2" }

abbrev sha : Text
sha = codes "0123456789abcdef0123456789abcdef0123456789abcdef0123456789abcdef"

abbrev reference_a : Reference
reference_a = record {
  kind = codes "CT";
  name = none;
  stated_auth_name = none;
  stated_code = none;
  version = none;
  sha256 = sha;
  persistable_reference = codes "{}";
  source = none;
}

-- The id `a` names ED50 and has a reference.
abbrev before : Db
before = record {
  objects = λ t. t == ed50 || t == nad27;
  alias_tables = codes "crs" ∷ [];
  identifier_table = true;
  identifiers = (key_a, record { target = ed50; deprecated = false; source = none }) ∷ [];
  reference_table = true;
  references = (key_a, reference_a) ∷ [];
  aliases = [];
}

abbrev writer : Bool → Writer
writer overwrite = record {
  overwrite_rows = overwrite;
  db = before;
  inserted_identifiers = 0;
  inserted_aliases = 0;
  inserted_references = 0;
  moved_identifiers = [];
  replaced_references = [];
  removed_references = [];
  displaced_references = [];
}

abbrev row : Key → Target → IdentifierRow
row k t = record { key = k; recorded = record { target = t; deprecated = false; source = none } }

abbrev returned : {A : Type 0} → Result Error A → A → A
returned (ok a) d = a
returned (err e) d = d

-- What the runs below compute with.
running : ℕ
unfolding write_identifiers write_identifier insert_identifier add_identifier_alias annotate
    update_flag displace delete_recorded delete_identifier delete_alias move_identifier
    reference_digest persistable_reference_recorded admits_identifier admits_alias admits_reference
    remove_identifiers remove_identifier write_persistable_references write_reference
    restore_displaced insert_reference remove_first Dict.lookup Dict.insert Dict.erase key_eq
    target_eq alias_eq identifier_alias_source text_eq
running = 0

-- The id `a` moves to NAD27, and `b` is new.
abbrev rows : List IdentifierRow
rows = row key_a nad27 ∷ row key_b ed50 ∷ []

abbrev moved : Writer × ℕ × ℕ
moved = returned (write_identifiers true rows (writer true)) (writer true, 0, 0)

-- The id `b` is new, with no overwriting.
abbrev added_b : Writer × ℕ × ℕ
added_b =
    returned (write_identifiers false (row key_b nad27 ∷ []) (writer false)) (writer false, 0, 0)

abbrev removals : List Removal
removals = record { key = key_a; why = codes "withdrawn" } ∷ []

abbrev removed : Writer × ℕ
removed = returned (remove_identifiers removals (writer true)) (writer true, 0)

-- Another payload for `a`.
abbrev restated : List ReferenceRow
restated =
    record {
      key = key_a;
      reference = record reference_a {
        sha256 = codes "1123456789abcdef0123456789abcdef0123456789abcdef0123456789abcdef";
      };
    }
    ∷ []

abbrev replaced : Writer × ℕ × ℕ
replaced = returned (write_persistable_references restated (writer true)) (writer true, 0, 0)

-- The payload of `a` once more, with no overwriting.
abbrev repeated : List ReferenceRow
repeated = record { key = key_a; reference = reference_a } ∷ []

abbrev kept : Writer × ℕ × ℕ
kept = returned (write_persistable_references repeated (writer false)) (writer false, 0, 0)

before-IsConsistent : IsConsistent before
unfolding Dict.lookup key_eq target_eq
before-IsConsistent = record { exist = λ k r e. ground arith; backed = λ k r e. ground arith }

-- What was moved is what the source would move: `a` and its reference.
moved_counts :
    (moved.1 ≡ 2)
    × (moved.2 ≡ 2)
    × (moved.0.removed_references ≡ codes "id-a" ∷ [])
    × (Dict.lookup key_a moved.0.db.references ≡ none)
unfolding running
moved_counts = (refl, refl, refl, refl)

names-write_identifiers_example : names key_a moved.0.db ≡ some (nad27, false)
unfolding running
names-write_identifiers_example = names-write_identifiers true rows (writer true) key_a refl

write_identifiers-IsConsistent_example : IsConsistent moved.0.db
unfolding running
write_identifiers-IsConsistent_example =
    write_identifiers-IsConsistent true rows (writer true) before-IsConsistent refl

write_identifiers_returns_example :
    (out : Writer × ℕ × ℕ) × (write_identifiers true rows (writer true) ≡ ok out)
unfolding running
write_identifiers_returns_example =
    write_identifiers_returns true rows (writer true) refl
      ((refl, λ h. refl), ((refl, λ h. refl), tt))

write_identifiers_keeps_example : names key_a added_b.0.db ≡ some (ed50, false)
unfolding running
write_identifiers_keeps_example =
    write_identifiers_keeps false (row key_b nad27 ∷ []) (writer false) key_a refl refl refl

write_identifiers_reports_example :
    (names key_a moved.0.db ≡ some (ed50, false))
    ⊎ (lists_move (codes "id-a") moved.0.moved_identifiers ≡ true)
unfolding running
write_identifiers_reports_example =
    write_identifiers_reports true rows (writer true) key_a refl refl

write_identifiers_displaces_example :
    (Dict.lookup key_a moved.0.db.references ≡ some reference_a)
    ⊎ (contains moved.0.removed_references (codes "id-a") ≡ true)
unfolding running
write_identifiers_displaces_example =
    write_identifiers_displaces true rows (writer true) key_a reference_a refl refl refl

remove_identifiers_displaces_holds :
    (Dict.lookup key_a removed.0.db.references ≡ some reference_a)
    ⊎ (contains removed.0.removed_references (codes "id-a") ≡ true)
unfolding running
remove_identifiers_displaces_holds =
    remove_identifiers_displaces removals (writer true) key_a reference_a refl refl refl

remove_identifiers-IsConsistent_holds : IsConsistent removed.0.db
unfolding running
remove_identifiers-IsConsistent_holds =
    remove_identifiers-IsConsistent removals (writer true) before-IsConsistent refl

lookup-remove_identifiers_example : Dict.lookup key_a removed.0.db.identifiers ≡ none
unfolding running
lookup-remove_identifiers_example = lookup-remove_identifiers removals (writer true) key_a refl

remove_identifiers-references_holds : Dict.lookup key_a removed.0.db.references ≡ none
unfolding running
remove_identifiers-references_holds =
    remove_identifiers-references removals (writer true) key_a before-IsConsistent refl refl

digest-write_persistable_references_example :
    digest key_a replaced.0.db ≡ digest_last key_a restated (some sha)
unfolding running
digest-write_persistable_references_example =
    digest-write_persistable_references restated (writer true) key_a refl

write_persistable_references-IsConsistent_holds : IsConsistent replaced.0.db
unfolding running
write_persistable_references-IsConsistent_holds =
    write_persistable_references-IsConsistent restated (writer true) before-IsConsistent refl

write_persistable_references_keeps_holds : Dict.lookup key_a kept.0.db.references ≡ some reference_a
unfolding running
write_persistable_references_keeps_holds =
    write_persistable_references_keeps repeated (writer false) key_a refl refl refl
