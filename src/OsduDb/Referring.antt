-- ===== src/OsduDb/Referring.antt =====
-- The recording of the persistableReferences of a catalogue (`collect_persistable_references` and
-- `_reconcile` of geodetic_engine/osdudb/persistable_reference.py).
pub mod Settled
pub mod Stated
use geodetic_engine.Base.{
  ℕ, ◌+◌, Bool, true, false, not, ◌&&◌, ◌||◌, Option, none, some, List, [], ◌∷◌, ◌++◌, map, ◌==◌,
  Text, text_eq, if◌then◌else◌, length, Result, ok, err, ◌>>=◌,
}
use geodetic_engine.Base.Dict
use geodetic_engine.Base.Dict.{Dict}
use geodetic_engine.Base.Texts.{is_empty}
use geodetic_engine.ProjDb.Tables.{Key}
use geodetic_engine.ProjDb.Writer.{Error, Writer, ReferenceRow, persistable_reference_recorded}
use geodetic_engine.ProjDb.References.{write_persistable_references, remove_persistable_references}
use geodetic_engine.OsduDb.Catalogue.{
  Record, Context, Field, no_field, null_field, text_field, other_field,
}
use geodetic_engine.OsduDb.Collecting.{Published, append_to, osdu}
use geodetic_engine.OsduDb.Stating.{
  Reader, Why, and_removed, Envelope, Assessment, unstated, unusable, usable, assess, Disagreement,
  kept_earlier, disagreements, reference_row, Unreferenced, unreferenced,
}

-- `record.data.get(FIELD) not in (None, "")`
abbrev pub publishes : Field → Bool
publishes no_field = false
publishes null_field = false
publishes (text_field t) = not (is_empty t)
publishes (other_field type) = true

-- What the first loop fills. `recorded` gives the record that an id was recorded from.
pub record Linked : Type 0 where
  pub published : Dict Text Published
  pub unlinked : ℕ

abbrev pub count_unlinked : Record → Linked → Linked
count_unlinked r l = if publishes r.reference then record l { unlinked = l.unlinked + 1 } else l

abbrev pub link_to : Dict Text Record → Record → Option Text → Linked → Linked
link_to recorded r none l = count_unlinked r l
link_to recorded r (some id) l = elim (Dict.lookup id recorded) [
  | none ↦ count_unlinked r l
  | some spoke ↦ record l { published = append_to id r l.published }
]

unfoldable pub link : Context → Dict Text Record → Record → Linked → Linked
link ctx recorded r l =
    if r.inactive && not ctx.include_deprecated then l else link_to recorded r r.osdu_id l

unfoldable pub link_all : Context → Dict Text Record → List Record → Linked → Linked
link_all ctx recorded [] l = l
link_all ctx recorded (r ∷ rs) l = link_all ctx recorded rs (link ctx recorded r l)

abbrev pub nothing_linked : Linked
nothing_linked = record { published = []; unlinked = 0 }

-- The record of an id; the first loop takes only ids that have one.
abbrev pub record_of : Option Record → Published → Record
record_of none (r, rs) = r
record_of (some spoke) p = spoke

-- What the second loop fills.
pub record Gathered : Type 0 where
  pub rows : List ReferenceRow
  pub missing : List Unreferenced
  pub invalid : List Unreferenced
  pub warnings : List (Text × Disagreement)

abbrev pub gather_one : Context → Reader → Text → Record → Assessment → Gathered → Gathered
gather_one ctx reader id r (unstated why) g = record g {
  missing = unreferenced id r why ∷ g.missing;
}
gather_one ctx reader id r (unusable why) g = record g {
  invalid = unreferenced id r why ∷ g.invalid;
}
gather_one ctx reader id r (usable raw e) g = record g {
  rows = reference_row ctx reader id raw e ∷ g.rows;
  warnings = map (λ d. (id, d)) (disagreements ctx r e) ++ g.warnings;
}

abbrev pub assess_in : Reader → Dict Text Record → Text → Published → Assessment
assess_in reader recorded id p = assess reader (record_of (Dict.lookup id recorded) p) p

unfoldable pub gather_all : Context → Reader → Dict Text Record → Dict Text Published → Gathered
gather_all ctx reader recorded [] = record { rows = []; missing = []; invalid = []; warnings = [] }
gather_all ctx reader recorded ((id, p) ∷ d) =
    let rest = gather_all ctx reader recorded d in
    gather_one ctx reader id (record_of (Dict.lookup id recorded) p)
      (assess_in reader recorded id p) rest

-- What `_reconcile` makes of the entries without a reference.
pub record Reconciled : Type 0 where
  pub remaining : List Unreferenced
  pub stale : List Key
  pub kept : ℕ
  pub warnings : List (Text × Disagreement)

-- The inner loop of `_reconcile`.
unfoldable pub reconcile_entries : Bool → Writer → List Unreferenced → Reconciled
reconcile_entries overwrite w [] = record { remaining = []; stale = []; kept = 0; warnings = [] }
reconcile_entries overwrite w (entry ∷ entries) =
    let rest = reconcile_entries overwrite w entries in
    if not (persistable_reference_recorded (osdu entry.identifier) w.db)
    then record rest { remaining = entry ∷ rest.remaining }
    else if overwrite
    then record rest {
      stale = osdu entry.identifier ∷ rest.stale;
      remaining = record entry { reason = and_removed entry.reason } ∷ rest.remaining;
    }
    else record rest {
      kept = rest.kept + 1;
      warnings = (entry.identifier, kept_earlier entry.reason) ∷ rest.warnings;
    }

-- What the build reports: nothing where recording is disabled.
pub record Account : Type 0 where
  pub recorded : ℕ
  pub written : ℕ
  pub unchanged : ℕ
  pub kept : ℕ
  pub removed : ℕ
  pub unlinked : ℕ
  pub missing : List Unreferenced
  pub invalid : List Unreferenced
  pub warnings : List (Text × Disagreement)

unfoldable pub collect_persistable_references :
    Context → Reader → Dict Text Record → Writer → Result Error (Writer × Option Account)
collect_persistable_references ctx reader recorded w =
    let l = link_all ctx recorded ctx.records nothing_linked in
    let g = gather_all ctx reader recorded l.published in
    let m = reconcile_entries ctx.overwrite_rows w g.missing in
    let i = reconcile_entries ctx.overwrite_rows w g.invalid in
    if not ctx.osdu_persistable_references then ok (w, none) else do
      (w', removed) ← remove_persistable_references (m.stale ++ i.stale) w
      (w'', written, unchanged) ← write_persistable_references g.rows w'
      ok (
        w'',
        some (record {
          recorded = length g.rows;
          written = written;
          unchanged = unchanged;
          kept = m.kept + i.kept;
          removed = removed;
          unlinked = l.unlinked;
          missing = m.remaining;
          invalid = i.remaining;
          warnings = g.warnings ++ (m.warnings ++ i.warnings);
        }),
      )
