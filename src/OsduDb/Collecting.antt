-- ===== src/OsduDb/Collecting.antt =====
-- `collect_identifiers` and `_retired` (geodetic_engine/osdudb/identifier.py).
pub mod Grouping
pub mod Outcome
pub mod Decided
pub mod Ambiguous
pub mod Foreign
use geodetic_engine.Base.{
  ℕ, ◌+◌, Bool, true, false, not, ◌&&◌, ◌||◌, Option, none, some, List, [], ◌∷◌, ◌++◌, map, ◌==◌,
  contains, leb, ltb, nat_eq, Text, text_eq, codes, if◌then◌else◌, length, Result, ok, err, ◌>>=◌,
}
use geodetic_engine.Base.Dict
use geodetic_engine.Base.Dict.{Dict}
use geodetic_engine.Base.Texts.{text_lt}
use geodetic_engine.ProjDb.Tables.{Key, Target, Recorded, Db}
use geodetic_engine.ProjDb.Writer.{Error, Writer, IdentifierRow, recorded_identifier}
use geodetic_engine.ProjDb.Identifiers.{Removal, remove_identifiers, write_identifiers}
use geodetic_engine.OsduDb.Catalogue.{
  Record, ObjectName, object_name, object_name_eq, Context, object_table_name, table_of, Reason,
  no_id, more_than_one, missing, Unmapped, entry, Warning, drift, catalogue_source,
}

-- The records published under one id: the first one and those after it.
abbrev pub Published : Type 0
Published = Record × List Record

abbrev pub all_of : Published → List Record
all_of (r, rs) = r ∷ rs

abbrev pub added : Option Published → Record → Published
added none r = (r, [])
added (some (first, rs)) r = (first, rs ++ (r ∷ []))

-- `by_id[id].append(record)` on a `defaultdict(list)`
unfoldable pub append_to : Text → Record → Dict Text Published → Dict Text Published
append_to id r d = Dict.insert id (added (Dict.lookup id d) r) d

-- What the first loop of `collect_identifiers` fills.
pub record Sorted : Type 0 where
  pub by_identifier : Dict Text Published
  pub excluded : Dict Text Published
  pub unmapped : List Unmapped

unfoldable pub sort_record : Context → Record → Sorted → Sorted
sort_record ctx r s =
    if r.inactive && not ctx.include_deprecated
    then elim r.osdu_id [ none ↦ s | some id ↦ record s { excluded = append_to id r s.excluded } ]
    else elim r.osdu_id [
      | none ↦ record s { unmapped = s.unmapped ++ (entry r no_id ∷ []) }
      | some id ↦ record s { by_identifier = append_to id r s.by_identifier }
    ]

unfoldable pub sort_records : Context → List Record → Sorted → Sorted
sort_records ctx [] s = s
sort_records ctx (r ∷ rs) s = sort_records ctx rs (sort_record ctx r s)

abbrev pub nothing_sorted : Sorted
nothing_sorted = record { by_identifier = []; excluded = []; unmapped = [] }

-- The set of the objects that records name.
unfoldable pub targets : List Record → List ObjectName
targets [] = []
targets (r ∷ rs) =
    let rest = targets rs in if contains rest (object_name r) then rest else object_name r ∷ rest

-- The first active record, if there is one.
unfoldable pub first_active : List Record → Option Record
first_active [] = none
first_active (r ∷ rs) = let rest = first_active rs in if not r.inactive then some r else rest

unfoldable pub speaker : Published → Record
speaker (r, rs) = elim (first_active (r ∷ rs)) [ none ↦ r | some active ↦ active ]

-- Objects by their authority and then their code.
unfoldable pub object_lt : ObjectName → ObjectName → Bool
object_lt a b =
    if a.auth_name == b.auth_name then text_lt a.code b.code else text_lt a.auth_name b.auth_name

unfoldable pub place : ObjectName → List ObjectName → List ObjectName
place o [] = o ∷ []
place o (p ∷ ps) = let rest = place o ps in if object_lt p o then p ∷ rest else o ∷ p ∷ ps

unfoldable pub sorted : List ObjectName → List ObjectName
sorted [] = []
sorted (o ∷ os) = place o (sorted os)

abbrev pub shown : ObjectName → Text
shown o = o.auth_name ++ (codes ":" ++ o.code)

unfoldable pub joined : List ObjectName → Text
joined [] = []
joined (o ∷ []) = shown o
joined (o ∷ p ∷ os) = shown o ++ (codes ", " ++ joined (p ∷ os))

unfoldable pub why_ambiguous : List ObjectName → Text
why_ambiguous os =
    codes "the catalogue publishes it for more than one object ("
    ++ (joined (sorted os) ++ codes ")")

-- What becomes of an id.
pub data Verdict : Type 0 where
  ambiguous : List ObjectName → Verdict
  absent : Record → Reason → Verdict
  mapped : Record → Text → Verdict

unfoldable pub judge : Context → Published → Verdict
judge ctx p =
    if leb 2 (length (targets (all_of p)))
    then ambiguous (targets (all_of p))
    else elim (table_of ctx (speaker p)) [
      | none ↦ absent (speaker p) (missing ctx (speaker p))
      | some table ↦ mapped (speaker p) table
    ]

-- `SCHEME` with an id
abbrev pub osdu : Text → Key
osdu id = record { scheme = codes "OSDU"; identifier = id }

abbrev pub target_in : Text → Record → Target
target_in table r = record {
  table_name = object_table_name table;
  auth_name = r.auth_name;
  code = r.code;
}

abbrev pub row_for : Context → Text → Record → Text → IdentifierRow
row_for ctx id r table = record {
  key = osdu id;
  recorded = record {
    target = target_in table r;
    deprecated = r.inactive;
    source = some (catalogue_source ctx);
  };
}

-- What the second loop fills.
pub record Collected : Type 0 where
  pub rows : List IdentifierRow
  pub removals : List Removal
  pub unmapped : List Unmapped
  pub warnings : List Warning
  pub recorded_identifiers : Dict Text Record

abbrev pub collect_one : Context → Text → Published → Verdict → Collected → Collected
collect_one ctx id p (ambiguous objects) c = record c {
  removals = record { key = osdu id; why = why_ambiguous objects } ∷ c.removals;
  unmapped = map (λ r. entry r (more_than_one objects)) (all_of p) ++ c.unmapped;
}
collect_one ctx id p (absent r reason) c = record c { unmapped = entry r reason ∷ c.unmapped }
collect_one ctx id p (mapped r table) c = record c {
  rows = row_for ctx id r table ∷ c.rows;
  warnings = drift ctx r table ++ c.warnings;
  recorded_identifiers = (id, r) ∷ c.recorded_identifiers;
}

unfoldable pub collect : Context → Dict Text Published → Collected
collect ctx [] = record {
  rows = [];
  removals = [];
  unmapped = [];
  warnings = [];
  recorded_identifiers = [];
}
collect ctx ((id, p) ∷ d) = let rest = collect ctx d in collect_one ctx id p (judge ctx p) rest

abbrev pub all_name : Target → List Record → Bool
all_name t [] = true
all_name t (r ∷ rs) =
    object_name r == record { auth_name = t.auth_name; code = t.code } && all_name t rs

-- The row that retires an id, if it was recorded as active and its records name its object.
unfoldable pub retire : Context → Writer → Text → Published → Option IdentifierRow
retire ctx w id p = elim (recorded_identifier (osdu id) w.db) [
  | none ↦ none
  | some r ↦
      if r.deprecated
      then none
      else if not (all_name r.target (all_of p))
      then none
      else some (record {
        key = osdu id;
        recorded = record {
          target = r.target;
          deprecated = true;
          source = some (catalogue_source ctx);
        };
      })
]

abbrev pub put : Option IdentifierRow → List IdentifierRow → List IdentifierRow
put none rows = rows
put (some row) rows = row ∷ rows

abbrev pub is_in : Option Published → Bool
is_in none = false
is_in (some p) = true

-- `_retired`
unfoldable pub retired :
    Context → Writer → Dict Text Published → Dict Text Published → List IdentifierRow
retired ctx w included [] = []
retired ctx w included ((id, p) ∷ d) =
    let rest = retired ctx w included d in
    if is_in (Dict.lookup id included) then rest else put (retire ctx w id p) rest

pub record Report : Type 0 where
  pub mapped : ℕ
  pub written : ℕ
  pub aliases_written : ℕ
  pub marked_inactive : ℕ
  pub unmapped : List Unmapped
  pub warnings : List Warning

unfoldable pub collect_identifiers :
    Context → Writer → Result Error (Writer × Dict Text Record × Report)
collect_identifiers ctx w =
    let s = sort_records ctx ctx.records nothing_sorted in
    let c = collect ctx s.by_identifier in
    let gone = retired ctx w s.by_identifier s.excluded in
    do
      (w', removed) ← remove_identifiers c.removals w
      (w'', written, aliased) ← write_identifiers ctx.osdu_id_aliases (c.rows ++ gone) w'
      ok (
        w'',
        c.recorded_identifiers,
        record {
          mapped = length (c.rows ++ gone);
          written = written;
          aliases_written = aliased;
          marked_inactive = length gone;
          unmapped = s.unmapped ++ c.unmapped;
          warnings = c.warnings;
        },
      )
