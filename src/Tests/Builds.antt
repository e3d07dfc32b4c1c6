-- ===== src/Tests/Builds.antt =====
-- Collecting the ids of a small catalogue, and a build that is published or fails.
use geodetic_engine.Base.{
  ℕ, ap, ◌+◌, ◌≡◌, refl, Bool, true, false, Option, none, some, List, [], ◌∷◌, ◌==◌, Text, text_eq,
  nat_eq, codes, Result, ok, err, ◌⊎◌, arith, leb,
}
use geodetic_engine.Base.Dict
use geodetic_engine.Base.Dict.{Dict}
use geodetic_engine.Base.Texts.{text_lt}
use geodetic_engine.ProjDb.Tables.{
  Key, key_eq, Target, target_eq, alias_eq, admits_identifier, delete_identifier, delete_alias,
  identifier_alias_source,
}
use geodetic_engine.ProjDb.Writer.{
  Error, Writer, insert_identifier, reference_digest, persistable_reference_recorded,
  recorded_identifier,
}
use geodetic_engine.ProjDb.Identifiers.{
  annotate, update_flag, displace, delete_recorded, move_identifier, write_identifier,
  write_identifiers, remove_identifier, remove_identifiers, write_identifier_rows,
  remove_identifier_rows,
}
use geodetic_engine.ProjDb.Identifiers.Resolution.{names}
use geodetic_engine.ProjDb.Publication.{
  Build, Faults, Setting, session, open_writer, open_steps, commit, publish_staging, exit,
  disconnect, rollback,
}
use geodetic_engine.ProjDb.Publication.Atomic.{
  final_state, IsIdle, no_faults, IsPublished, session_atomic, session_cleans, session_publishes,
}
use geodetic_engine.OsduDb.Catalogue.{
  Record, no_field, ObjectName, object_name_eq, Context, is_new, crs_tables, object_table_name,
  first_holding, table_of, drift, catalogue_source,
}
use geodetic_engine.OsduDb.Collecting.{
  append_to, sort_record, sort_records, targets, first_active, speaker, judge, osdu, collect,
  retire, retired, Report, collect_identifiers, object_lt, place, sorted, joined, why_ambiguous,
}
use geodetic_engine.OsduDb.Collecting.Outcome.{names-collect_identifiers}
use geodetic_engine.OsduDb.Collecting.Decided.{collect_identifiers_decides}
use geodetic_engine.OsduDb.Collecting.Ambiguous.{collect_identifiers-ambiguous}
use geodetic_engine.OsduDb.Collecting.Foreign.{collect_identifiers_keeps}

abbrev projected : Text → Text → Text → Bool → Record
projected auth code id inactive = record {
  auth_name = auth;
  code = code;
  kind = codes "ProjectedCRS";
  is_operation = false;
  name = codes "unknown";
  inactive = inactive;
  osdu_id = some id;
  reference = no_field;
}

-- `a` stands for two objects, `b` for one, and `c` for one that is inactive.
abbrev catalogue : List Record
catalogue =
    projected (codes "EPSG") (codes "1") (codes "a") false
    ∷ projected (codes "EPSG") (codes "2") (codes "b") false
    ∷ projected (codes "EPSG") (codes "3") (codes "a") false
    ∷ projected (codes "EPSG") (codes "4") (codes "c") true
    ∷ []

abbrev context : Context
context = record {
  records = catalogue;
  authorities = codes "EPSG" ∷ [];
  include_deprecated = false;
  osdu_id_aliases = false;
  osdu_persistable_references = true;
  overwrite_rows = true;
  file_name = codes "CRS.json";
  catalog_version = none;
  casefold = λ t. t;
  known = λ table o. table == codes "projected_crs";
  stored = λ table o. none;
  skipped = [];
}

abbrev crs : Text → Target
crs code = record { table_name = codes "projected_crs"; auth_name = codes "EPSG"; code = code }

abbrev foreign : Key
foreign = record { scheme = codes "X"; identifier = codes "a" }

abbrev before : Writer
before = record {
  overwrite_rows = true;
  db = record {
    objects = λ t. t.table_name == codes "projected_crs";
    alias_tables = codes "geodetic_crs" ∷ [];
    identifier_table = true;
    identifiers =
        (osdu (codes "a"), record { target = crs (codes "1"); deprecated = false; source = none })
        ∷ (osdu (codes "c"), record { target = crs (codes "4"); deprecated = false; source = none })
        ∷ (foreign, record { target = crs (codes "1"); deprecated = false; source = none })
        ∷ [];
    reference_table = false;
    references = [];
    aliases = [];
  };
  inserted_identifiers = 0;
  inserted_aliases = 0;
  inserted_references = 0;
  moved_identifiers = [];
  replaced_references = [];
  removed_references = [];
  displaced_references = [];
}

abbrev returned : {A : Type 0} → Result Error A → A → A
returned (ok a) b = a
returned (err e) b = b

abbrev blank : Report
blank = record {
  mapped = 0;
  written = 0;
  aliases_written = 0;
  marked_inactive = 0;
  unmapped = [];
  warnings = [];
}

abbrev after : Writer × Dict Text Record × Report
after = returned (collect_identifiers context before) (before, [], blank)

-- What the runs below compute with.
running : ℕ
unfolding collect_identifiers sort_records sort_record append_to Dict.lookup Dict.insert collect
    judge targets table_of first_holding is_new crs_tables speaker first_active object_table_name
    catalogue_source drift retired retire recorded_identifier why_ambiguous sorted place object_lt
    text_lt joined key_eq target_eq alias_eq object_name_eq text_eq nat_eq remove_identifiers
    remove_identifier_rows remove_identifier persistable_reference_recorded reference_digest
    delete_recorded delete_identifier delete_alias Dict.erase identifier_alias_source
    write_identifiers write_identifier_rows write_identifier insert_identifier admits_identifier
    annotate update_flag displace move_identifier
running = 0

-- `c` is retired: it names its object still, as an inactive one.
retires_c : names (osdu (codes "c")) after.0.db ≡ some (crs (codes "4"), true)
unfolding running
retires_c = refl

-- `c`, whose records are left out, names its object still, as an inactive one.
collect_identifiers_decides_example :
    (names (osdu (codes "c")) after.0.db ≡ some (crs (codes "4"), true))
    × (after.2.marked_inactive ≡ 1)
unfolding running
collect_identifiers_decides_example = collect_identifiers_decides context (codes "c") before refl

names-collect_identifiers_holds :
    names (osdu (codes "b")) after.0.db ≡ some (crs (codes "2"), false)
unfolding running
names-collect_identifiers_holds = names-collect_identifiers context (codes "b") before refl

abbrev epsg : Text → ObjectName
epsg code = record { auth_name = codes "EPSG"; code = code }

abbrev code_point : Text → ℕ
code_point [] = 0
code_point (c ∷ t) = c

collect_identifiers-ambiguous_example : names (osdu (codes "a")) after.0.db ≡ none
unfolding running
collect_identifiers-ambiguous_example =
    collect_identifiers-ambiguous context (codes "a") (epsg (codes "1")) (epsg (codes "3")) before
      (λ e. omega (arith, ap (λ o. code_point o.code) e)) refl refl refl

collect_identifiers_keeps_example : names foreign after.0.db ≡ some (crs (codes "1"), false)
unfolding running
collect_identifiers_keeps_example = collect_identifiers_keeps context foreign (λ e. cc) before refl

-- Databases as numbers, of which those above 100 are refused.
abbrev setting : Setting ℕ
setting = record {
  base = 7;
  empty = 0;
  append = true;
  windows = false;
  discards = λ o. false;
  drifted = λ d. false;
  migrate = λ d. some d;
}

abbrev idle : Build ℕ
idle = record {
  output = some 20;
  staged_file = none;
  locked = false;
  connection = none;
  staging = false;
  appended = false;
  committed = false;
}

abbrev add_one : ℕ → Option ℕ
add_one d = some (d + 1)

abbrev small : ℕ → Bool
small d = leb d 100

-- A build whose file cannot be put in place leaves the output as it was.
abbrev denied : Faults
denied = record no_faults { replace = true }

denied_keeps : (final_state (session setting denied add_one small true idle)).output ≡ some 20
unfolding session open_writer open_steps commit publish_staging exit rollback disconnect
denied_keeps = refl

-- A build whose directory cannot be synced raises, and yet its database is in place.
abbrev unsynced : Faults
unsynced = record no_faults { sync_directory = true }

unsynced_publishes :
    (final_state (session setting unsynced add_one small true idle)).output ≡ some 21
unfolding session open_writer open_steps commit publish_staging exit rollback disconnect
unsynced_publishes = refl

session_atomic_example :
    let b' = final_state (session setting denied add_one small true idle) in
    (b'.output ≡ some 20) ⊎ IsPublished setting denied add_one small idle b'
session_atomic_example = session_atomic setting denied add_one small true idle refl

session_cleans_example : IsIdle (final_state (session setting denied add_one small true idle))
session_cleans_example =
    session_cleans setting denied add_one small true idle refl refl refl refl
      (record { unlocked = refl; disconnected = refl; unstaged = refl; no_file = refl })

session_publishes_example :
    (b' : Build ℕ) × (session setting no_faults add_one small true idle ≡ ok b')
    × (b'.output ≡ some 21)
session_publishes_example = session_publishes setting add_one small idle refl refl refl refl refl
