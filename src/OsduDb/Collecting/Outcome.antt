-- ===== src/OsduDb/Collecting/Outcome.antt =====
-- What an id of a catalogue names after `collect_identifiers`
-- (geodetic_engine/osdudb/identifier.py).
use geodetic_engine.Base.{
  ℕ, ◌≡◌, refl, ◌∙◌, Bool, true, false, ◌&&◌, ◌||◌, Option, none, some, List, [], ◌∷◌, ◌++◌, ◌==◌,
  Text, text_eq, if◌then◌else◌, arith, ap, Option-cases, inl, inr, Result-cases, ok,
}
use geodetic_engine.Base.Dict
use geodetic_engine.Base.Dict.{Dict}
use geodetic_engine.ProjDb.Tables.{Key, key_eq, Target}
use geodetic_engine.ProjDb.Writer.{Writer, IdentifierRow, recorded_identifier}
use geodetic_engine.ProjDb.Identifiers.{remove_identifiers, write_identifiers}
use geodetic_engine.ProjDb.Identifiers.Resolution.{names, stated_last, names-write_identifiers}
use geodetic_engine.ProjDb.Identifiers.Removals.{asks, lookup-remove_identifiers}
use geodetic_engine.OsduDb.Catalogue.{Record, Context, object_name_eq}
use geodetic_engine.OsduDb.Collecting.{
  Published, Sorted, sort_records, nothing_sorted, judge, Verdict, ambiguous, absent, mapped, osdu,
  target_in, collect, collect_one, Collected, retire, put, retired, Report, collect_identifiers,
}
use geodetic_engine.OsduDb.Collecting.Grouping.{
  Distinct, counts, drops, gather, sort_records-Distinct, by_identifier-sort_records,
  excluded-sort_records,
}

pub osdu-eq : (id j : Text) → (osdu id == osdu j) ≡ (id == j)
unfolding key_eq
osdu-eq id j = ground arith

pub stated_last-append :
    (k : Key) (xs ys : List IdentifierRow) (old : Option (Target × Bool))
    → stated_last k (xs ++ ys) old ≡ stated_last k ys (stated_last k xs old)
stated_last-append k [] ys old = refl
stated_last-append k (x ∷ xs) ys old = stated_last-append k xs ys _

-- What the rows and the removals of a verdict make of an id.
abbrev pub stated_by : Verdict → Option (Target × Bool) → Option (Target × Bool)
stated_by (ambiguous objects) old = old
stated_by (absent r reason) old = old
stated_by (mapped r table) old = some (target_in table r, r.inactive)

abbrev pub written_by : Context → Option Published → Option (Target × Bool) → Option (Target × Bool)
written_by ctx none old = old
written_by ctx (some p) old = stated_by (judge ctx p) old

abbrev pub is_ambiguous : Verdict → Bool
is_ambiguous (ambiguous objects) = true
is_ambiguous (absent r reason) = false
is_ambiguous (mapped r table) = false

abbrev pub removed_by : Context → Option Published → Bool
removed_by ctx none = false
removed_by ctx (some p) = is_ambiguous (judge ctx p)

module _ (ctx : Context) where
  abbrev pub sorted_all : Sorted
  sorted_all = sort_records ctx ctx.records nothing_sorted

  abbrev pub collected_all : Collected
  collected_all = collect ctx sorted_all.by_identifier

  abbrev pub all_rows : Writer → List IdentifierRow
  all_rows w = collected_all.rows ++ retired ctx w sorted_all.by_identifier sorted_all.excluded

  -- The two calls of the writer in a call that returned.
  pub collect_identifiers-calls :
      (w : Writer) {out : Writer × Dict Text Record × Report}
      → collect_identifiers ctx w ≡ ok out
      → (a : Writer × ℕ) × (b : Writer × ℕ × ℕ) × (remove_identifiers collected_all.removals w
          ≡ ok a)
        × (write_identifiers ctx.osdu_id_aliases (all_rows w) a.0 ≡ ok b)
        × (out.0 ≡ b.0)
  unfolding collect_identifiers
  collect_identifiers-calls w h =
      elim (Result-cases (remove_identifiers collected_all.removals w)) [
        | inl (a, e) ↦
            elim (Result-cases (write_identifiers ctx.osdu_id_aliases (all_rows w) a.0)) [
              | inl (b, f) ↦ (a, b, e, f, ground arith)
              | inr (x, f) ↦ absurd (ground arith)
            ]
        | inr (x, e) ↦ absurd (ground arith)
      ]

module _ (ctx : Context) (id : Text) where
  rows-collect_one :
      (j : Text) (p : Published) (v : Verdict) (c : Collected) (old : Option (Target × Bool))
      → stated_last (osdu id) (collect_one ctx j p v c).rows old
        ≡ stated_last (osdu id) c.rows (if id == j then stated_by v old else old)
  rows-collect_one j p (ambiguous objects) c old = ground arith
  rows-collect_one j p (absent r reason) c old = ground arith
  rows-collect_one j p (mapped r table) c old =
      ap
        (λ b.
          stated_last (osdu id) c.rows (if b then some (target_in table r, r.inactive) else old))
        (osdu-eq id j)

  removals-collect_one :
      (j : Text) (p : Published) (v : Verdict) (c : Collected)
      → asks (osdu id) (collect_one ctx j p v c).removals
        ≡ (id == j && is_ambiguous v || asks (osdu id) c.removals)
  removals-collect_one j p (ambiguous objects) c = ground (arith, osdu-eq id j)
  removals-collect_one j p (absent r reason) c = ground arith
  removals-collect_one j p (mapped r table) c = ground arith

  stated_last-collect :
      (d : Dict Text Published) (old : Option (Target × Bool))
      → Distinct d
      → stated_last (osdu id) (collect ctx d).rows old ≡ written_by ctx (Dict.lookup id d) old
  unfolding collect Dict.lookup
  stated_last-collect [] old h = refl
  stated_last-collect ((j, p) ∷ d) old (e, h) =
      let now = if id == j then stated_by (judge ctx p) old else old in
      rows-collect_one j p (judge ctx p) (collect ctx d) old
      ∙ (stated_last-collect d now h ∙ ground arith)

  asks-collect :
      (d : Dict Text Published)
      → Distinct d
      → asks (osdu id) (collect ctx d).removals ≡ removed_by ctx (Dict.lookup id d)
  unfolding collect Dict.lookup
  asks-collect [] h = refl
  asks-collect ((j, p) ∷ d) (e, h) =
      removals-collect_one j p (judge ctx p) (collect ctx d) ∙ ground (arith, asks-collect d h)

  -- What the rows of the retired ids make of an id.
  abbrev pub retired_by :
      Writer → Option Published → Option Published → Option (Target × Bool) → Option (Target × Bool)
  retired_by w (some q) dropped old = old
  retired_by w none none old = old
  retired_by w none (some p) old = stated_last (osdu id) (put (retire ctx w id p) []) old

  -- What the row that retires one id makes of another, and of its own.
  stated_last-retire :
      (w : Writer) (j : Text) (p : Published) (old : Option (Target × Bool))
      → stated_last (osdu id) (put (retire ctx w j p) []) old
        ≡ (if id == j then stated_last (osdu id) (put (retire ctx w id p) []) old else old)
  unfolding retire
  stated_last-retire w j p old = elim (text_eq.dec id j) [
    | yes q ↦ ground arith
    | no n ↦ elim (Option-cases (recorded_identifier (osdu j) w.db)) [
      | inl e ↦ ground arith
      | inr (r, e) ↦ ground (arith, osdu-eq id j)
    ]
  ]

  stated_last-put :
      (o : Option IdentifierRow) (rows : List IdentifierRow) (old : Option (Target × Bool))
      → stated_last (osdu id) (put o rows) old
        ≡ stated_last (osdu id) rows (stated_last (osdu id) (put o []) old)
  stated_last-put none rows old = refl
  stated_last-put (some row) rows old = refl

  stated_last-retired :
      (w : Writer) (included d : Dict Text Published) (old : Option (Target × Bool))
      → Distinct d
      → stated_last (osdu id) (retired ctx w included d) old
        ≡ retired_by w (Dict.lookup id included) (Dict.lookup id d) old
  unfolding retired Dict.lookup
  stated_last-retired w included [] old h = ground arith
  stated_last-retired w included ((j, p) ∷ d) old (e, h) =
      let now = stated_last (osdu id) (put (retire ctx w j p) []) old in
      elim (text_eq.dec id j) [
        | yes q ↦ ground (
          arith,
          stated_last-put (retire ctx w j p) (retired ctx w included d) old,
          stated_last-retired w included d old h,
          stated_last-retired w included d now h,
          stated_last-retire w j p old,
          e,
        )
        | no n ↦ ground (
          arith,
          stated_last-put (retire ctx w j p) (retired ctx w included d) old,
          stated_last-retired w included d old h,
          stated_last-retired w included d now h,
          stated_last-retire w j p old,
        )
      ]

  -- The records that a build counts under the id, and those that it leaves out.
  abbrev pub counted : Option Published
  counted = gather (counts ctx id) ctx.records none

  abbrev pub left : Option Published
  left = gather (drops ctx id) ctx.records none

  by_identifier-counted : Dict.lookup id (sorted_all ctx).by_identifier ≡ counted
  unfolding Dict.lookup
  by_identifier-counted = by_identifier-sort_records ctx id ctx.records nothing_sorted

  excluded-left : Dict.lookup id (sorted_all ctx).excluded ≡ left
  unfolding Dict.lookup
  excluded-left = excluded-sort_records ctx id ctx.records nothing_sorted

  sorted_all-Distinct : Distinct (sorted_all ctx).by_identifier × Distinct (sorted_all ctx).excluded
  sorted_all-Distinct = sort_records-Distinct ctx ctx.records nothing_sorted tt tt

  -- What the id names between the two calls of the writer.
  names-removed :
      (w : Writer) {a : Writer × ℕ}
      → remove_identifiers (collected_all ctx).removals w ≡ ok a
      → names (osdu id) a.0.db ≡ (if removed_by ctx counted then none else names (osdu id) w.db)
  names-removed w e =
      let asked = asks-collect (sorted_all ctx).by_identifier sorted_all-Distinct.0 in
      let found = lookup-remove_identifiers (collected_all ctx).removals w (osdu id) e in
      ground (arith, asked, found, by_identifier-counted)

  -- What the catalogue makes of an id that named something, or nothing, before: its counted
  -- records decide, and where there are none, those left out may retire it.
  abbrev pub recorded_by : Writer → Option (Target × Bool) → Option (Target × Bool)
  recorded_by w old =
      retired_by w counted left
        (written_by ctx counted (if removed_by ctx counted then none else old))

  -- After a call of `collect_identifiers` that returns, an id of the catalogue names what its
  -- counted records decide: the object of their active record, or else of their first one, with
  -- its flag; nothing where they are of more than one object; and what it named before where that
  -- object is in no table. Where no record is counted, the id is retired, with its object, if those
  -- left out are all of the object for which it was recorded as active; otherwise it names what it
  -- named before.
  pub names-collect_identifiers :
      (w : Writer) {out : Writer × Dict Text Record × Report}
      → collect_identifiers ctx w ≡ ok out
      → names (osdu id) out.0.db ≡ recorded_by w (names (osdu id) w.db)
  names-collect_identifiers w {out} h =
      let (a, b, e, f, g) = collect_identifiers-calls ctx w h in
      let (apart, apart') = sorted_all-Distinct in
      let between = names (osdu id) a.0.db in
      let middle = stated_last (osdu id) (collected_all ctx).rows between in
      ap (λ v. names (osdu id) v.db) g
      ∙ (names-write_identifiers ctx.osdu_id_aliases (all_rows ctx w) a.0 (osdu id) f
          ∙ (stated_last-append (osdu id) (collected_all ctx).rows
                (retired ctx w (sorted_all ctx).by_identifier (sorted_all ctx).excluded) between
              ∙ (stated_last-retired w (sorted_all ctx).by_identifier (sorted_all ctx).excluded
                    middle apart'
                  ∙ rw
                      (
                        stated_last-collect (sorted_all ctx).by_identifier between apart,
                        by_identifier-counted,
                        excluded-left,
                        names-removed w e,
                      )
                      refl)))
