-- ===== src/Tests/Referring.antt =====
-- The persistableReferences of a small catalogue.
use geodetic_engine.Base.{
  ◌≡◌, refl, Bool, true, false, Option, none, some, [], ◌∷◌, ◌==◌, Text, text_eq, nat_eq, codes,
  Result, ok, err, arith,
}
use geodetic_engine.Base.Dict
use geodetic_engine.Base.Dict.{Dict}
use geodetic_engine.Base.Texts.{strip, lstrip, rstrip}
use geodetic_engine.ProjDb.Tables.{key_eq, Target, target_eq, admits_reference, Reference}
use geodetic_engine.ProjDb.Writer.{Error, Writer, persistable_reference_recorded}
use geodetic_engine.ProjDb.References.{
  insert_reference, restore_displaced, write_reference, write_persistable_references,
  remove_reference, remove_persistable_references,
}
use geodetic_engine.ProjDb.References.Laws.{digest}
use geodetic_engine.OsduDb.Catalogue.{Record, Context, no_field, text_field}
use geodetic_engine.OsduDb.Collecting.{append_to, osdu}
use geodetic_engine.OsduDb.Stating.{Reader, speaking, stated_texts, payload, envelope, assess}
use geodetic_engine.OsduDb.Referring.{
  link, link_all, gather_all, reconcile_entries, Account, collect_persistable_references,
}
use geodetic_engine.OsduDb.Referring.Stated.{digest_stated, collect_persistable_references_settles}
use geodetic_engine.OsduDb.Referring.Settled.{
  settle, publishing, digest-collect_persistable_references,
}

abbrev projected : Text → Option Text → Record
projected id raw = record {
  auth_name = codes "EPSG";
  code = codes "1";
  kind = codes "ProjectedCRS";
  is_operation = false;
  name = codes "unknown";
  inactive = false;
  osdu_id = some id;
  reference = elim raw [ none ↦ no_field | some t ↦ text_field t ];
}

-- `a` states a reference and `b` states none.
abbrev context : Context
context = record {
  records = projected (codes "a") (some (codes "rs")) ∷ projected (codes "b") none ∷ [];
  authorities = codes "EPSG" ∷ [];
  include_deprecated = false;
  osdu_id_aliases = false;
  osdu_persistable_references = true;
  overwrite_rows = true;
  file_name = codes "C";
  catalog_version = none;
  casefold = λ t. t;
  known = λ table o. true;
  stored = λ table o. none;
  skipped = [];
}

abbrev recorded : Dict Text Record
recorded =
    (codes "a", projected (codes "a") (some (codes "rs")))
    ∷ (codes "b", projected (codes "b") none)
    ∷ []

abbrev sha : Text → Text
sha t = codes "0123456789abcdef0123456789abcdef0123456789abcdef0123456789abcdef"

abbrev reader : Reader
reader = record {
  space = λ c. c == b' ';
  decode = λ t. ok (record {
    kind = codes "LBC";
    name = codes "n";
    version = codes "1";
    authority_code = some (codes "EPSG", codes "1");
  });
  malformed = λ t. none;
  malformed_wkt = λ t. none;
  sha256 = sha;
}

abbrev crs : Target
crs = record { table_name = codes "projected_crs"; auth_name = codes "EPSG"; code = codes "1" }

abbrev earlier : Reference
earlier = record {
  kind = codes "LBC";
  name = none;
  stated_auth_name = none;
  stated_code = none;
  version = none;
  sha256 = sha [];
  persistable_reference = codes "q";
  source = none;
}

-- The database has a reference for `b`, from an earlier build.
abbrev before : Writer
before = record {
  overwrite_rows = true;
  db = record {
    objects = λ t. t.table_name == codes "projected_crs";
    alias_tables = codes "geodetic_crs" ∷ [];
    identifier_table = true;
    identifiers =
        (osdu (codes "a"), record { target = crs; deprecated = false; source = none })
        ∷ (osdu (codes "b"), record { target = crs; deprecated = false; source = none })
        ∷ [];
    reference_table = true;
    references = (osdu (codes "b"), earlier) ∷ [];
    aliases = [];
  };
  inserted_identifiers = 0;
  inserted_aliases = 0;
  inserted_references = 0;
  moved_identifiers = [];
  replaced_references = [];
  removed_references = [];
  displaced_references = [];
}

abbrev or_before : Result Error (Writer × Option Account) → Writer × Option Account
or_before (ok out) = out
or_before (err e) = (before, none)

abbrev is_ok : Result Error (Writer × Option Account) → Bool
is_ok (ok out) = true
is_ok (err e) = false

ok-or_before : (r : Result Error (Writer × Option Account)) → is_ok r ≡ true → r ≡ ok (or_before r)
ok-or_before (ok out) h = refl
ok-or_before (err e) h = absurd (ground (arith, h))

returns : is_ok (collect_persistable_references context reader recorded before) ≡ true
unfolding collect_persistable_references link_all link append_to Dict.lookup Dict.insert gather_all
    assess speaking stated_texts payload envelope text_eq nat_eq reconcile_entries
    persistable_reference_recorded key_eq remove_persistable_references remove_reference
    write_persistable_references write_reference restore_displaced insert_reference admits_reference
    strip lstrip rstrip target_eq Dict.erase
returns = refl

digest-collect_persistable_references_holds :
    (let out = or_before (collect_persistable_references context reader recorded before) in
      digest (osdu (codes "b")) out.0.db)
    ≡ settle context recorded reader
        (codes "b")
        (publishing context recorded reader (codes "b"))
        (digest (osdu (codes "b")) before.db)
digest-collect_persistable_references_holds =
    digest-collect_persistable_references context recorded reader (codes "b") before refl
      (λ h. absurd (cc h))
      (ok-or_before (collect_persistable_references context reader recorded before) returns)

-- `a` gets the reference that its record states.
collect_persistable_references_settles_example :
    (let out = or_before (collect_persistable_references context reader recorded before) in
      digest (osdu (codes "a")) out.0.db)
    ≡ digest_stated context recorded reader
        (codes "a")
        (publishing context recorded reader (codes "a"))
        (digest (osdu (codes "a")) before.db)
collect_persistable_references_settles_example =
    collect_persistable_references_settles context recorded reader (codes "a") before refl
      (λ h. absurd (cc h))
      (ok-or_before (collect_persistable_references context reader recorded before) returns)
