-- ===== src/OsduDb/Collecting/Decided.antt =====
-- What the records of a catalogue decide of an id, without the steps by which it is found
-- (geodetic_engine/osdudb/identifier.py).
use geodetic_engine.Base.{
  ℕ, ◌+◌, Result-cases, ◌≡◌, refl, ◌∙◌, Bool, true, false, not, ◌&&◌, Option, none, some, List, [],
  ◌∷◌, ◌==◌, Text, text_eq, nat_eq, if◌then◌else◌, arith, Option-cases, Bool-cases, inl, inr, ok,
  length, leb, contains,
}
use geodetic_engine.Base.Dict
use geodetic_engine.Base.Dict.{Dict}
use geodetic_engine.ProjDb.Tables.{key_eq, Target}
use geodetic_engine.ProjDb.Writer.{IdentifierRow, Writer, recorded_identifier}
use geodetic_engine.ProjDb.Identifiers.Resolution.{names, stated_last}
use geodetic_engine.OsduDb.Catalogue.{
  Record, Context, ObjectName, object_name, object_name_eq, table_of, object_table_name,
}
use geodetic_engine.ProjDb.Identifiers.{remove_identifiers, write_identifiers}
use geodetic_engine.OsduDb.Collecting.{
  retired, Published, all_of, targets, first_active, speaker, judge, retire, put, all_name, osdu,
  Report, collect_identifiers,
}
use geodetic_engine.OsduDb.Collecting.Outcome.{
  counted, left, stated_by, sorted_all, collected_all, all_rows, written_by, removed_by, retired_by,
  names-collect_identifiers,
}

-- Whether records are all of one object.
abbrev pub are_of : ObjectName → List Record → Bool
are_of o [] = true
are_of o (r ∷ rs) = object_name r == o && are_of o rs

-- The first record that is not inactive, or else a given one.
abbrev pub first_of : Record → List Record → Record
first_of r [] = r
first_of r (s ∷ ss) = if s.inactive then first_of r ss else s

-- The object of a record in its table, with its flag.
abbrev pub in_table : Record → Option Text → Option (Target × Bool) → Option (Target × Bool)
in_table r none old = old
in_table r (some table) old = some (
  record { table_name = object_table_name table; auth_name = r.auth_name; code = r.code },
  r.inactive,
)

-- The object that an id names, as an inactive one if it was active and some records are all of it.
abbrev pub retired_to : List Record → Option (Target × Bool) → Option (Target × Bool)
retired_to rs none = none
retired_to rs (some (t, true)) = some (t, true)
retired_to rs (some (t, false)) =
    some (t, are_of (record { auth_name = t.auth_name; code = t.code }) rs)

-- Whether all the names in a list without repetitions are one name.
abbrev alone : ObjectName → List ObjectName → Bool
alone o [] = true
alone o (p ∷ []) = o == p
alone o (p ∷ q ∷ os) = false

alone-cons :
    (o n : ObjectName) (os : List ObjectName)
    → alone o (if contains os n then os else n ∷ os) ≡ (n == o && alone o os)
unfolding object_name_eq
alone-cons o n [] = elim (object_name_eq.dec n o) [
  | yes q ↦ ground (arith, q)
  | no m ↦ ground (arith, m)
]
alone-cons o n (p ∷ []) = elim (object_name_eq.dec n p) [
  | yes q ↦ elim (object_name_eq.dec o p) [
    | yes f ↦ ground (arith, q, f)
    | no m ↦ ground (arith, q, m)
  ]
  | no m ↦ elim (object_name_eq.dec n o) [
    | yes q ↦ ground (arith, m, q)
    | no k ↦ ground (arith, m, k)
  ]
]
alone-cons o n (p ∷ q ∷ os) = ground arith

are_of-targets : (o : ObjectName) (rs : List Record) → are_of o rs ≡ alone o (targets rs)
unfolding targets
are_of-targets o [] = refl
are_of-targets o (r ∷ rs) =
    ground (arith, are_of-targets o rs, alone-cons o (object_name r) (targets rs))

one_target :
    (n : ObjectName) (os : List ObjectName)
    → leb 2 (length (if contains os n then os else n ∷ os))
      ≡ not (alone n (if contains os n then os else n ∷ os))
unfolding object_name_eq
one_target n [] = ground arith
one_target n (p ∷ []) = elim (object_name_eq.dec n p) [
  | yes q ↦ ground (arith, q)
  | no m ↦ ground (arith, m)
]
one_target n (p ∷ q ∷ os) = ground arith

several_targets :
    (r : Record) (rs : List Record)
    → leb 2 (length (targets (r ∷ rs))) ≡ not (are_of (object_name r) rs)
unfolding targets
several_targets r rs =
    one_target (object_name r) (targets rs)
    ∙ ground (
      arith,
      alone-cons (object_name r) (object_name r) (targets rs),
      are_of-targets (object_name r) rs,
    )

first_active-first_of :
    (r : Record) (rs : List Record)
    → (elim (first_active rs) [ none ↦ r | some active ↦ active ]) ≡ first_of r rs
unfolding first_active
first_active-first_of r [] = refl
first_active-first_of r (s ∷ ss) = elim (Bool-cases s.inactive) [
  | inl e ↦ ground (arith, e, first_active-first_of r ss)
  | inr e ↦ ground (arith, e)
]

speaker-first_of : (p : Published) → speaker p ≡ first_of p.0 (all_of p)
unfolding speaker
speaker-first_of (r, rs) = first_active-first_of r (r ∷ rs)

all_name-are_of :
    (t : Target) (rs : List Record)
    → all_name t rs ≡ are_of (record { auth_name = t.auth_name; code = t.code }) rs
all_name-are_of t [] = refl
all_name-are_of t (r ∷ rs) = ground (arith, all_name-are_of t rs)

-- What the counted records of an id make of what it named before.
abbrev pub decided : Context → Published → Option (Target × Bool) → Option (Target × Bool)
decided ctx (r, rs) old =
    let speaks = first_of r (r ∷ rs) in
    if are_of (object_name r) rs then in_table speaks (table_of ctx speaks) old else none

-- The same of all records, with those that a build leaves out.
abbrev pub decided_by :
    Context
    → Bool
    → Option Published
    → Option Published
    → Option (Target × Bool)
    → Option (Target × Bool)
decided_by ctx tabled (some p) dropped old = decided ctx p old
decided_by ctx tabled none none old = old
decided_by ctx tabled none (some p) old = if tabled then retired_to (all_of p) old else old

-- Whether an id that named an object as an active one is to name it as an inactive one.
abbrev pub is_due : Bool → List Record → Option (Target × Bool) → Bool
is_due tabled rs none = false
is_due tabled rs (some (t, inactive)) =
    tabled && not inactive && are_of (record { auth_name = t.auth_name; code = t.code }) rs

abbrev pub is_there : Option Published → Bool
is_there none = false
is_there (some p) = true

-- How many of the ids whose records are left out are due, those apart that also have counted ones.
abbrev pub count_due : Writer → Dict Text Published → Dict Text Published → ℕ
count_due w included [] = 0
count_due w included ((id, p) ∷ d) =
    (if not (is_there (Dict.lookup id included))
        && is_due w.db.identifier_table (all_of p) (names (osdu id) w.db)
      then 1
      else 0)
    + count_due w included d

length-put :
    (ctx : Context) (w : Writer) (id : Text) (p : Published) (rows : List IdentifierRow)
    → length (put (retire ctx w id p) rows)
      ≡ (if is_due w.db.identifier_table (all_of p) (names (osdu id) w.db) then 1 else 0)
        + length rows
unfolding retire recorded_identifier
length-put ctx w id p rows = elim (Bool-cases w.db.identifier_table) [
  | inr t ↦ elim (Option-cases (Dict.lookup (osdu id) w.db.identifiers)) [
    | inl e ↦ ground (arith, t, e)
    | inr (r, e) ↦ ground (arith, t, e)
  ]
  | inl t ↦ elim (Option-cases (Dict.lookup (osdu id) w.db.identifiers)) [
    | inl e ↦ ground (arith, t, e)
    | inr (r, e) ↦ ground (arith, t, e, all_name-are_of r.target (all_of p))
  ]
]

length-retired :
    (ctx : Context) (w : Writer) (included d : Dict Text Published)
    → length (retired ctx w included d) ≡ count_due w included d
unfolding retired
length-retired ctx w included [] = refl
length-retired ctx w included ((id, p) ∷ d) = elim (Option-cases (Dict.lookup id included)) [
  | inl e ↦
      ground (
        arith,
        e,
        length-put ctx w id p (retired ctx w included d),
        length-retired ctx w included d,
      )
  | inr (q, e) ↦ ground (arith, e, length-retired ctx w included d)
]

marked_inactive-retired :
    (ctx : Context) (w : Writer) {out : Writer × Dict Text Record × Report}
    → collect_identifiers ctx w ≡ ok out
    → out.2.marked_inactive
      ≡ length (retired ctx w (sorted_all ctx).by_identifier (sorted_all ctx).excluded)
unfolding collect_identifiers
marked_inactive-retired ctx w h =
    elim (Result-cases (remove_identifiers (collected_all ctx).removals w)) [
      | inl (a, e) ↦
          elim (Result-cases (write_identifiers ctx.osdu_id_aliases (all_rows ctx w) a.0)) [
            | inl (b, f) ↦ ground (arith, h, e, f)
            | inr (x, f) ↦ absurd (ground (arith, h, e, f))
          ]
      | inr (x, e) ↦ absurd (ground (arith, h, e))
    ]

module _ (ctx : Context) where
  judge-decided :
      (p : Published) (old : Option (Target × Bool))
      → stated_by (judge ctx p) (if removed_by ctx (some p) then none else old) ≡ decided ctx p old
  unfolding judge
  judge-decided (r, rs) old =
      let several = several_targets r rs in
      let speaks = speaker-first_of (r, rs) in
      elim (Bool-cases (are_of (object_name r) rs)) [
        | inr e ↦ rw (several, judge) (rw e refl)
        | inl e ↦ elim (Option-cases (table_of ctx (first_of r (r ∷ rs)))) [
          | inl f ↦ rw (several, speaks, judge) (rw (e, f) refl)
          | inr (table, f) ↦ rw (several, speaks, judge) (rw (e, f) (rw speaks refl))
        ]
      ]

  module _ (id : Text) (w : Writer) where
    retire-retired_to :
        (p : Published)
        → stated_last (osdu id) (put (retire ctx w id p) []) (names (osdu id) w.db) ≡ (
            if w.db.identifier_table
            then retired_to (all_of p) (names (osdu id) w.db)
            else names (osdu id) w.db)
    unfolding retire recorded_identifier
    retire-retired_to p = elim (Bool-cases w.db.identifier_table) [
      | inr t ↦ ground (arith, t)
      | inl t ↦ elim (Option-cases (Dict.lookup (osdu id) w.db.identifiers)) [
        | inl e ↦ ground (arith, t, e)
        | inr (r, e) ↦ elim (Bool-cases r.deprecated) [
          | inl d ↦ ground (arith, t, e, d)
          | inr d ↦ ground (arith, t, e, d, all_name-are_of r.target (all_of p))
        ]
      ]
    ]

    recorded_by-decided_by :
        (c l : Option Published)
        → (let old = names (osdu id) w.db in
            retired_by ctx id w c l (written_by ctx c (if removed_by ctx c then none else old)))
          ≡ decided_by ctx w.db.identifier_table c l (names (osdu id) w.db)
    recorded_by-decided_by (some p) l = judge-decided p (names (osdu id) w.db)
    recorded_by-decided_by none none = refl
    recorded_by-decided_by none (some p) = retire-retired_to p

    -- After a call of `collect_identifiers` that returns, an id of the catalogue names what its
    -- counted records decide: nothing if they are not all of one object, and else the object of the
    -- first one that is not inactive, or of the first one if all are, with its flag, or what it named
    -- before where that object is in no table. Where no record is counted, an id that named an active
    -- object names it as an inactive one if the records left out are all of that object; otherwise
    -- it names what it named before. The report counts the ids that become inactive so.
    pub collect_identifiers_decides :
        {out : Writer × Dict Text Record × Report}
        → collect_identifiers ctx w ≡ ok out
        → (names (osdu id) out.0.db
            ≡ decided_by ctx w.db.identifier_table
                (counted ctx id)
                (left ctx id)
                (names (osdu id) w.db))
          × (out.2.marked_inactive
              ≡ count_due w (sorted_all ctx).by_identifier (sorted_all ctx).excluded)
    collect_identifiers_decides h = (
      names-collect_identifiers ctx id w h ∙ recorded_by-decided_by (counted ctx id) (left ctx id),
      marked_inactive-retired ctx w h
          ∙ length-retired ctx w (sorted_all ctx).by_identifier (sorted_all ctx).excluded,
    )
