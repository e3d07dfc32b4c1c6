-- ===== src/ProjDb/Tables.antt =====
-- The two tables that this package adds to a proj.db, and PROJ's `alias_name`, as the SQL of
-- geodetic_engine/projdb/schema.py declares them: keys, checks, the insert trigger on
-- `object_view` and the foreign key with its cascade.
use geodetic_engine.Base.{
  Bool, true, false, ◌&&◌, Option, none, some, List, ◌++◌, [], ◌∷◌, leb, Eq, ◌==◌, contains, Text,
  codes, text_eq, nat_eq, Text-discrete, length, if◌then◌else◌,
}
use geodetic_engine.Base.Dict
use geodetic_engine.Base.Dict.{Dict}

-- The primary key of both tables.
pub record Key : Type 0 where
  pub scheme : Text
  pub identifier : Text

-- An object, as PROJ's `object_view` names it.
pub record Target : Type 0 where
  pub table_name : Text
  pub auth_name : Text
  pub code : Text

Key-discrete : Discrete Key
unfolding Text-discrete
Key-discrete = hlevel Text-discrete

Target-discrete : Discrete Target
unfolding Text-discrete
Target-discrete = hlevel Text-discrete

instance unfoldable pub key_eq : Eq Key
unfolding Key-discrete
key_eq = record { dec = Key-discrete }

instance unfoldable pub target_eq : Eq Target
unfolding Target-discrete
target_eq = record { dec = Target-discrete }

-- A row of the identifier table, without its key.
pub record Recorded : Type 0 where
  pub target : Target
  pub deprecated : Bool
  pub source : Option Text

-- A row of the persistableReference table, without its key.
pub record Reference : Type 0 where
  pub kind : Text
  pub name : Option Text
  pub stated_auth_name : Option Text
  pub stated_code : Option Text
  pub version : Option Text
  pub sha256 : Text
  pub persistable_reference : Text
  pub source : Option Text

-- A row of PROJ's `alias_name`.
pub record Alias : Type 0 where
  pub target : Target
  pub alt_name : Text
  pub source : Text

Alias-discrete : Discrete Alias
unfolding Text-discrete
Alias-discrete = hlevel Text-discrete

instance unfoldable pub alias_eq : Eq Alias
unfolding Alias-discrete
alias_eq = record { dec = Alias-discrete }

-- The tables that the writer's annotations touch. A table of this package is absent until one of
-- its `CREATE TABLE IF NOT EXISTS` has run, and then has no rows.
pub record Db : Type 0 where
  pub objects : Target → Bool
  pub alias_tables : List Text
  pub identifier_table : Bool
  pub identifiers : Dict Key Recorded
  pub reference_table : Bool
  pub references : Dict Key Reference
  pub aliases : List Alias

-- `IDENTIFIER_DDL`
abbrev pub create_identifiers : Db → Db
create_identifiers db = record db { identifier_table = true }

-- `PERSISTABLE_REFERENCE_DDL`
abbrev pub create_references : Db → Db
create_references db = record db { reference_table = true }

-- `CHECK (length(column) >= 1)`
abbrev pub stated : Text → Bool
stated t = leb 1 (length t)

-- The column checks and the insert trigger of the identifier table.
unfoldable pub admits_identifier : Db → Key → Recorded → Bool
admits_identifier db k r =
    stated k.scheme
    && stated k.identifier
    && stated r.target.table_name
    && stated r.target.auth_name
    && stated r.target.code
    && db.objects r.target

-- The checks of PROJ's `alias_name`, an alias of at least two characters and one of its tables of
-- objects, and its insert trigger.
unfoldable pub admits_alias : Db → Key → Target → Bool
admits_alias db k t =
    leb 2 (length k.identifier) && contains db.alias_tables t.table_name && db.objects t

abbrev pub kinds : List Text
kinds = codes "LBC" ∷ codes "EBC" ∷ codes "ST" ∷ codes "CT" ∷ codes "USO" ∷ codes "UAD" ∷ []

-- The column checks and the foreign key of the persistableReference table.
unfoldable pub admits_reference : Db → Key → Reference → Bool
admits_reference db k r =
    stated k.scheme
    && stated k.identifier
    && contains kinds r.kind
    && leb 64 (length r.sha256)
    && leb (length r.sha256) 64
    && leb 2 (length r.persistable_reference)
    && elim (Dict.lookup k db.identifiers) [ none ↦ false | some _ ↦ true ]

-- `DELETE` of an identifier, with the cascade to its reference.
unfoldable pub delete_identifier : Key → Db → Db
delete_identifier k db = record db {
  identifiers = Dict.erase k db.identifiers;
  references = Dict.erase k db.references;
}

-- `DELETE` of every alias row equal to this one.
unfoldable pub delete_alias : Alias → List Alias → List Alias
delete_alias a [] = []
delete_alias a (b ∷ bs) = let rest = delete_alias a bs in if a == b then rest else b ∷ rest

-- The `source` of the aliases of a scheme.
unfoldable pub identifier_alias_source : Text → Text
identifier_alias_source scheme = scheme ++ codes "_ID"

abbrev pub identifier_alias : Key → Target → Alias
identifier_alias k t = record {
  target = t;
  alt_name = k.identifier;
  source = identifier_alias_source k.scheme;
}
