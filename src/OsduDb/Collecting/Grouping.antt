-- ===== src/OsduDb/Collecting/Grouping.antt =====
-- What the dictionaries of `collect_identifiers` hold (geodetic_engine/osdudb/identifier.py).
use geodetic_engine.Base.{
  ◌≡◌, refl, ◌∙◌, Bool, false, not, ◌&&◌, Option, none, some, List, [], ◌∷◌, ◌==◌, Text, text_eq,
  if◌then◌else◌, arith, ap, Option-cases, inl, inr,
}
use geodetic_engine.Base.Dict
use geodetic_engine.Base.Dict.{Dict}
use geodetic_engine.OsduDb.Catalogue.{Record, Context}
use geodetic_engine.OsduDb.Collecting.{
  Published, added, append_to, Sorted, sort_record, sort_records,
}

-- Each id is a key once.
abbrev pub Distinct : Dict Text Published → Type 0
Distinct [] = Unit
Distinct ((id, p) ∷ d) = (Dict.lookup id d ≡ none) × Distinct d

abbrev pub has_id : Text → Option Text → Bool
has_id id none = false
has_id id (some given) = id == given

-- Whether a record is one of those that are recorded, or of those left out, under an id.
abbrev pub counts : Context → Text → Record → Bool
counts ctx id r = not (r.inactive && not ctx.include_deprecated) && has_id id r.osdu_id

abbrev pub drops : Context → Text → Record → Bool
drops ctx id r = (r.inactive && not ctx.include_deprecated) && has_id id r.osdu_id

-- The records of a list that satisfy a test, added in order to those that there are.
abbrev pub gather : (Record → Bool) → List Record → Option Published → Option Published
gather f [] p = p
gather f (r ∷ rs) p = gather f rs (if f r then some (added p r) else p)

insert-Distinct :
    (id : Text) (p : Published) (d : Dict Text Published)
    → Distinct d
    → Distinct (Dict.insert id p d)
unfolding Dict.insert Dict.lookup
insert-Distinct id p [] h = (refl, tt)
insert-Distinct id p ((j, q) ∷ d) (e, h) =
    ground (arith, Dict.lookup-insert j id p d, insert-Distinct id p d h, e)

pub append_to-Distinct :
    (id : Text) (r : Record) (d : Dict Text Published) → Distinct d → Distinct (append_to id r d)
unfolding append_to
append_to-Distinct id r d h = insert-Distinct id (added (Dict.lookup id d) r) d h

pub lookup-append_to :
    (id j : Text) (r : Record) (d : Dict Text Published)
    → Dict.lookup id (append_to j r d)
      ≡ (if id == j then some (added (Dict.lookup id d) r) else Dict.lookup id d)
unfolding append_to
lookup-append_to id j r d = ground (arith, Dict.lookup-insert id j (added (Dict.lookup j d) r) d)

sort_record-Distinct :
    (ctx : Context) (r : Record) (s : Sorted)
    → Distinct s.by_identifier
    → Distinct s.excluded
    → Distinct (sort_record ctx r s).by_identifier × Distinct (sort_record ctx r s).excluded
unfolding sort_record
sort_record-Distinct ctx r s h g = elim (Option-cases r.osdu_id) [
  | inl e ↦ ground arith
  | inr (j, e) ↦
      ground (arith, append_to-Distinct j r s.by_identifier h, append_to-Distinct j r s.excluded g)
]

pub sort_records-Distinct :
    (ctx : Context) (rs : List Record) (s : Sorted)
    → Distinct s.by_identifier
    → Distinct s.excluded
    → Distinct (sort_records ctx rs s).by_identifier × Distinct (sort_records ctx rs s).excluded
unfolding sort_records
sort_records-Distinct ctx [] s h g = (h, g)
sort_records-Distinct ctx (r ∷ rs) s h g =
    let (a, b) = sort_record-Distinct ctx r s h g in
    sort_records-Distinct ctx rs (sort_record ctx r s) a b

by_identifier-sort_record :
    (ctx : Context) (id : Text) (r : Record) (s : Sorted)
    → Dict.lookup id (sort_record ctx r s).by_identifier ≡ (
        if counts ctx id r
        then some (added (Dict.lookup id s.by_identifier) r)
        else Dict.lookup id s.by_identifier)
unfolding sort_record
by_identifier-sort_record ctx id r s = elim (Option-cases r.osdu_id) [
  | inl e ↦ ground arith
  | inr (j, e) ↦ ground (arith, lookup-append_to id j r s.by_identifier)
]

excluded-sort_record :
    (ctx : Context) (id : Text) (r : Record) (s : Sorted)
    → Dict.lookup id (sort_record ctx r s).excluded ≡ (
        if drops ctx id r
        then some (added (Dict.lookup id s.excluded) r)
        else Dict.lookup id s.excluded)
unfolding sort_record
excluded-sort_record ctx id r s = elim (Option-cases r.osdu_id) [
  | inl e ↦ ground arith
  | inr (j, e) ↦ ground (arith, lookup-append_to id j r s.excluded)
]

pub by_identifier-sort_records :
    (ctx : Context) (id : Text) (rs : List Record) (s : Sorted)
    → Dict.lookup id (sort_records ctx rs s).by_identifier
      ≡ gather (counts ctx id) rs (Dict.lookup id s.by_identifier)
unfolding sort_records
by_identifier-sort_records ctx id [] s = refl
by_identifier-sort_records ctx id (r ∷ rs) s =
    by_identifier-sort_records ctx id rs (sort_record ctx r s)
    ∙ ap (gather (counts ctx id) rs) (by_identifier-sort_record ctx id r s)

pub excluded-sort_records :
    (ctx : Context) (id : Text) (rs : List Record) (s : Sorted)
    → Dict.lookup id (sort_records ctx rs s).excluded
      ≡ gather (drops ctx id) rs (Dict.lookup id s.excluded)
unfolding sort_records
excluded-sort_records ctx id [] s = refl
excluded-sort_records ctx id (r ∷ rs) s =
    excluded-sort_records ctx id rs (sort_record ctx r s)
    ∙ ap (gather (drops ctx id) rs) (excluded-sort_record ctx id r s)
