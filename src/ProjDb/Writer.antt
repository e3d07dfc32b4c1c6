-- ===== src/ProjDb/Writer.antt =====
-- `ProjDbWriter` as far as its annotations go (geodetic_engine/projdb/writer.py): the state that
-- the identifier and persistableReference methods keep, and the helpers that they share. An exception ends a
-- build, whose staging is then discarded, so a raise carries no state.
use geodetic_engine.Base.{
  ℕ, Bool, true, false, Option, none, some, List, [], ◌∷◌, ◌++◌, contains, Text, text_eq,
  if◌then◌else◌, Result, ok, err,
}
use geodetic_engine.Base.Dict
use geodetic_engine.Base.Dict.{Dict}
use geodetic_engine.ProjDb.Tables.{
  Key, key_eq, Target, target_eq, Recorded, Reference, alias_eq, Db, admits_identifier,
  admits_alias, identifier_alias,
}

pub data Error : Type 0 where
  collision missing_object no_such_table not_listed refused_alias : Error

-- What an id names: an object and its inactive flag, or nothing, and why.
pub data Named : Type 0 where
  object : Target → Bool → Named
  nothing : Text → Named

pub record Moved : Type 0 where
  pub identifier : Text
  pub previous : Named
  pub now : Named

pub record Replaced : Type 0 where
  pub identifier : Text
  pub previous_sha256 : Text
  pub sha256 : Text

pub record Writer : Type 0 where
  pub overwrite_rows : Bool
  pub db : Db
  pub inserted_identifiers : ℕ
  pub inserted_aliases : ℕ
  pub inserted_references : ℕ
  pub moved_identifiers : List Moved
  pub replaced_references : List Replaced
  pub removed_references : List Text
  pub displaced_references : Dict Key Text

-- A row for `write_identifiers`.
pub record IdentifierRow : Type 0 where
  pub key : Key
  pub recorded : Recorded

-- A row for `write_persistable_references`.
pub record ReferenceRow : Type 0 where
  pub key : Key
  pub reference : Reference

-- `_insert_identifier`
unfoldable pub insert_identifier : IdentifierRow → Db → Result Error Db
insert_identifier row db =
    if admits_identifier db row.key row.recorded
    then ok (record db { identifiers = Dict.insert row.key row.recorded db.identifiers })
    else err missing_object

-- `_add_identifier_alias`: whether one was added.
unfoldable pub add_identifier_alias : Key → Target → Db → Result Error (Db × Bool)
add_identifier_alias k t db =
    if contains db.aliases (identifier_alias k t)
    then ok (db, false)
    else if admits_alias db k t
    then ok (record db { aliases = db.aliases ++ (identifier_alias k t ∷ []) }, true)
    else err refused_alias

-- `_reference_digest`
unfoldable pub reference_digest : Key → Db → Option Text
reference_digest k db =
    if db.reference_table
    then elim (Dict.lookup k db.references) [ none ↦ none | some r ↦ some r.sha256 ]
    else none

-- `persistable_reference_recorded`
unfoldable pub persistable_reference_recorded : Key → Db → Bool
unfolding reference_digest
persistable_reference_recorded k db = elim (reference_digest k db) [ none ↦ false | some _ ↦ true ]

-- `recorded_identifier`
unfoldable pub recorded_identifier : Key → Db → Option Recorded
recorded_identifier k db = if db.identifier_table then Dict.lookup k db.identifiers else none
