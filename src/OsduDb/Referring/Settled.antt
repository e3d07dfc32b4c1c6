-- ===== src/OsduDb/Referring/Settled.antt =====
-- Which reference an id has after `collect_persistable_references`
-- (geodetic_engine/osdudb/persistable_reference.py).
use geodetic_engine.Base.{
  ℕ, ◌+◌, ◌≡◌, refl, ◌∙◌, Bool, true, false, not, ◌&&◌, ◌||◌, Option, none, some, List, [], ◌∷◌,
  ◌++◌, ◌==◌, contains, contains-append, Text, text_eq, if◌then◌else◌, arith, ap, Option-cases,
  Bool-cases, inl, inr, Result-cases, ok,
}
use geodetic_engine.Base.Dict
use geodetic_engine.Base.Dict.{Dict}
use geodetic_engine.ProjDb.Tables.{Key, key_eq}
use geodetic_engine.ProjDb.Writer.{Writer, reference_digest, persistable_reference_recorded}
use geodetic_engine.ProjDb.References.{
  remove_reference, remove_reference_rows, remove_persistable_references,
  write_persistable_references,
}
use geodetic_engine.ProjDb.References.Laws.{
  digest, digest_last, digest-write_persistable_references,
}
use geodetic_engine.OsduDb.Catalogue.{Record, Context}
use geodetic_engine.OsduDb.Collecting.{Published, added, osdu}
use geodetic_engine.OsduDb.Collecting.Grouping.{
  Distinct, has_id, gather, append_to-Distinct, lookup-append_to,
}
use geodetic_engine.OsduDb.Collecting.Outcome.{osdu-eq}
use geodetic_engine.OsduDb.Stating.{Reader, Assessment, unstated, unusable, usable, Unreferenced}
use geodetic_engine.OsduDb.Referring.{
  Linked, link, link_all, nothing_linked, Gathered, gather_one, gather_all, assess_in, record_of,
  reconcile_entries, Account, collect_persistable_references,
}

-- The digest after a removal.
remove_reference-digest :
    (k j : Key) (w : Writer)
    → digest k (remove_reference j w).0.db ≡ (if k == j then none else digest k w.db)
unfolding remove_reference
remove_reference-digest k j w = elim (Option-cases (Dict.lookup j w.db.references)) [
  | inr (r, e) ↦ ground (arith, e, Dict.lookup-erase k j w.db.references)
  | inl e ↦ elim (key_eq.dec k j) [ yes q ↦ ground (arith, e, q) | no n ↦ ground (arith, e, n) ]
]

remove_reference_rows-digest :
    (k : Key) (ks : List Key) (w : Writer) (removed : ℕ)
    → digest k (remove_reference_rows ks w removed).0.db
      ≡ (if contains ks k then none else digest k w.db)
unfolding remove_reference_rows
remove_reference_rows-digest k [] w removed = refl
remove_reference_rows-digest k (j ∷ ks) w removed =
    let step = remove_reference j w in
    ground (
      arith,
      remove_reference_rows-digest k ks step.0 (removed + step.1),
      remove_reference-digest k j w,
    )

remove_persistable_references-digest :
    (k : Key) (ks : List Key) (w : Writer) {out : Writer × ℕ}
    → remove_persistable_references ks w ≡ ok out
    → digest k out.0.db ≡ (if contains ks k then none else digest k w.db)
unfolding remove_persistable_references
remove_persistable_references-digest k [] w h = ground (arith, h)
remove_persistable_references-digest k (j ∷ ks) w h =
    ground (arith, h, remove_reference_rows-digest k (j ∷ ks) w 0)

-- Whether a record publishes for an id that was recorded.
abbrev pub is_some {ℓ} : {A : Type ℓ} → Option A → Bool
is_some none = false
is_some (some a) = true

abbrev pub links : Context → Dict Text Record → Text → Record → Bool
links ctx recorded id r =
    not (r.inactive && not ctx.include_deprecated)
    && has_id id r.osdu_id
    && is_some (Dict.lookup id recorded)

module _ (ctx : Context) (recorded : Dict Text Record) where
  link-Distinct :
      (r : Record) (l : Linked) → Distinct l.published → Distinct (link ctx recorded r l).published
  unfolding link
  link-Distinct r l h = elim (Option-cases r.osdu_id) [
    | inl e ↦ ground (arith, e, h)
    | inr (id, e) ↦ ground (arith, e, h, append_to-Distinct id r l.published h)
  ]

  link_all-Distinct :
      (rs : List Record) (l : Linked)
      → Distinct l.published
      → Distinct (link_all ctx recorded rs l).published
  unfolding link_all
  link_all-Distinct [] l h = h
  link_all-Distinct (r ∷ rs) l h =
      link_all-Distinct rs (link ctx recorded r l) (link-Distinct r l h)

  lookup-link :
      (id : Text) (r : Record) (l : Linked)
      → Dict.lookup id (link ctx recorded r l).published ≡ (
          if links ctx recorded id r
          then some (added (Dict.lookup id l.published) r)
          else Dict.lookup id l.published)
  unfolding link
  lookup-link id r l = elim (Option-cases r.osdu_id) [
    | inl e ↦ ground (arith, e)
    | inr (j, e) ↦ elim (text_eq.dec id j) [
      | yes q ↦ ground (arith, e, q, lookup-append_to id j r l.published)
      | no n ↦ ground (arith, e, n, lookup-append_to id j r l.published)
    ]
  ]

  lookup-link_all :
      (id : Text) (rs : List Record) (l : Linked)
      → Dict.lookup id (link_all ctx recorded rs l).published
        ≡ gather (links ctx recorded id) rs (Dict.lookup id l.published)
  unfolding link_all
  lookup-link_all id [] l = refl
  lookup-link_all id (r ∷ rs) l =
      lookup-link_all id rs (link ctx recorded r l)
      ∙ ap (gather (links ctx recorded id) rs) (lookup-link id r l)

  module _ (reader : Reader) (id : Text) where
    -- What an assessment makes of the digest of an id's reference, while rows are written.
    abbrev pub written_digest : Assessment → Option Text → Option Text
    written_digest (unstated why) old = old
    written_digest (unusable why) old = old
    written_digest (usable raw e) old = some (reader.sha256 raw)

    abbrev pub lacks : Assessment → Bool
    lacks (unstated why) = true
    lacks (unusable why) = true
    lacks (usable raw e) = false

    abbrev pub digest_by : Option Published → Option Text → Option Text
    digest_by none old = old
    digest_by (some p) old = written_digest (assess_in reader recorded id p) old

    abbrev pub lacks_by : Option Published → Bool
    lacks_by none = false
    lacks_by (some p) = lacks (assess_in reader recorded id p)

    rows-gather_one :
        (j : Text) (r : Record) (a : Assessment) (g : Gathered) (old : Option Text)
        → digest_last (osdu id) (gather_one ctx reader j r a g).rows old
          ≡ digest_last (osdu id) g.rows (if id == j then written_digest a old else old)
    rows-gather_one j r (unstated why) g old = ground arith
    rows-gather_one j r (unusable why) g old = ground arith
    rows-gather_one j r (usable raw e) g old =
        ap (λ b. digest_last (osdu id) g.rows (if b then some (reader.sha256 raw) else old))
          (osdu-eq id j)

    digest_last-gather_all :
        (d : Dict Text Published) (old : Option Text)
        → Distinct d
        → digest_last (osdu id) (gather_all ctx reader recorded d).rows old
          ≡ digest_by (Dict.lookup id d) old
    unfolding gather_all Dict.lookup
    digest_last-gather_all [] old h = refl
    digest_last-gather_all ((j, p) ∷ d) old (e, h) =
        let a = assess_in reader recorded j p in
        let now = if id == j then written_digest a old else old in
        rows-gather_one j (record_of (Dict.lookup j recorded) p) a
          (gather_all ctx reader recorded d) old
        ∙ (digest_last-gather_all d now h
            ∙ elim (text_eq.dec id j) [ yes q ↦ ground (arith, q, e) | no n ↦ ground (arith, n) ])

    abbrev pub mentions : List Unreferenced → Bool
    mentions [] = false
    mentions (entry ∷ entries) = id == entry.identifier || mentions entries

    mentions-gather_one :
        (j : Text) (r : Record) (a : Assessment) (g : Gathered)
        → (mentions (gather_one ctx reader j r a g).missing
            || mentions (gather_one ctx reader j r a g).invalid)
          ≡ (id == j && lacks a || (mentions g.missing || mentions g.invalid))
    mentions-gather_one j r (unstated why) g = ground arith
    mentions-gather_one j r (unusable why) g = ground arith
    mentions-gather_one j r (usable raw e) g = ground arith

    mentions-gather_all :
        (d : Dict Text Published)
        → Distinct d
        → (let g = gather_all ctx reader recorded d in mentions g.missing || mentions g.invalid)
          ≡ lacks_by (Dict.lookup id d)
    unfolding gather_all Dict.lookup
    mentions-gather_all [] h = refl
    mentions-gather_all ((j, p) ∷ d) (e, h) =
        mentions-gather_one j (record_of (Dict.lookup j recorded) p) (assess_in reader recorded j p)
          (gather_all ctx reader recorded d)
        ∙ elim (text_eq.dec id j) [
          | yes q ↦ ground (arith, q, e, mentions-gather_all d h)
          | no n ↦ ground (arith, n, mentions-gather_all d h)
        ]

    stale-reconcile_entries :
        (overwrite : Bool) (w : Writer) (entries : List Unreferenced)
        → contains (reconcile_entries overwrite w entries).stale (osdu id)
          ≡ (overwrite && persistable_reference_recorded (osdu id) w.db && mentions entries)
    unfolding reconcile_entries
    stale-reconcile_entries overwrite w [] = ground arith
    stale-reconcile_entries overwrite w (entry ∷ entries) = elim (text_eq.dec id entry.identifier) [
      | yes q ↦ ground (arith, q, stale-reconcile_entries overwrite w entries)
      | no n ↦
          ground
            (arith, n, osdu-eq id entry.identifier, stale-reconcile_entries overwrite w entries)
    ]

    -- The digest that an id is left with, where it had another one or none.
    abbrev pub settle_by : Assessment → Option Text → Option Text
    settle_by (unstated why) old = if ctx.overwrite_rows then none else old
    settle_by (unusable why) old = if ctx.overwrite_rows then none else old
    settle_by (usable raw e) old = some (reader.sha256 raw)

    abbrev pub settle : Option Published → Option Text → Option Text
    settle none old = old
    settle (some p) old = settle_by (assess_in reader recorded id p) old

    -- The records that publish for the id.
    abbrev pub publishing : Option Published
    publishing = gather (links ctx recorded id) ctx.records none

    abbrev linked_all : Linked
    linked_all = link_all ctx recorded ctx.records nothing_linked

    abbrev gathered_all : Gathered
    gathered_all = gather_all ctx reader recorded linked_all.published

    abbrev stale_keys : Writer → List Key
    stale_keys w =
        (reconcile_entries ctx.overwrite_rows w gathered_all.missing).stale
        ++ (reconcile_entries ctx.overwrite_rows w gathered_all.invalid).stale

    published-publishing : Dict.lookup id linked_all.published ≡ publishing
    unfolding Dict.lookup
    published-publishing = lookup-link_all id ctx.records nothing_linked

    linked_all-Distinct : Distinct linked_all.published
    linked_all-Distinct = link_all-Distinct ctx.records nothing_linked tt

    stale_keys-contains :
        (w : Writer)
        → contains (stale_keys w) (osdu id) ≡ (
            ctx.overwrite_rows
            && persistable_reference_recorded (osdu id) w.db
            && lacks_by publishing)
    stale_keys-contains w =
        let m = reconcile_entries ctx.overwrite_rows w gathered_all.missing in
        let i = reconcile_entries ctx.overwrite_rows w gathered_all.invalid in
        contains-append m.stale i.stale (osdu id)
        ∙ ground (
          arith,
          stale-reconcile_entries ctx.overwrite_rows w gathered_all.missing,
          stale-reconcile_entries ctx.overwrite_rows w gathered_all.invalid,
          mentions-gather_all linked_all.published linked_all-Distinct,
          published-publishing,
        )

    -- A table that is not there holds nothing.
    abbrev pub HasTable : Writer → Type 0
    HasTable w = w.db.reference_table ≡ false → Dict.lookup (osdu id) w.db.references ≡ none

    unrecorded :
        (w : Writer)
        → HasTable w
        → persistable_reference_recorded (osdu id) w.db ≡ false
        → digest (osdu id) w.db ≡ none
    unfolding persistable_reference_recorded reference_digest
    unrecorded w c h = elim (Bool-cases w.db.reference_table) [
      | inl t ↦ elim (Option-cases (Dict.lookup (osdu id) w.db.references)) [
        | inl e ↦ ground (arith, e)
        | inr (r, e) ↦ absurd (ground (arith, h, t, e))
      ]
      | inr t ↦ ground (arith, c t)
    ]

    settle_assessed :
        (a : Assessment) (recorded_before : Bool) (old : Option Text)
        → (recorded_before ≡ false → old ≡ none)
        → written_digest a (if ctx.overwrite_rows && recorded_before && lacks a then none else old)
          ≡ settle_by a old
    settle_assessed (unstated why) true old h = ground arith
    settle_assessed (unstated why) false old h = ground (arith, h refl)
    settle_assessed (unusable why) true old h = ground arith
    settle_assessed (unusable why) false old h = ground (arith, h refl)
    settle_assessed (usable raw e) recorded_before old h = refl

    settle_one :
        (p : Option Published) (recorded_before : Bool) (old : Option Text)
        → (recorded_before ≡ false → old ≡ none)
        → digest_by p (if ctx.overwrite_rows && recorded_before && lacks_by p then none else old)
          ≡ settle p old
    settle_one none recorded_before old h = ground arith
    settle_one (some p) recorded_before old h =
        settle_assessed (assess_in reader recorded id p) recorded_before old h

    settle_calls :
        (w : Writer) (old : Option Text)
        → (persistable_reference_recorded (osdu id) w.db ≡ false → old ≡ none)
        → digest_by publishing (if contains (stale_keys w) (osdu id) then none else old)
          ≡ settle publishing old
    settle_calls w old h =
        rw (stale_keys-contains w)
          (settle_one publishing (persistable_reference_recorded (osdu id) w.db) old h)

    -- A call of `collect_persistable_references` that returns leaves an id with the reference that
    -- the catalogue states for it, by its digest. Where the catalogue states none for an id that it
    -- recorded, or one that cannot be used, an earlier reference of the id is removed with
    -- `overwrite_rows` and kept without. An id for which no record publishes is left as it was.
    pub digest-collect_persistable_references :
        (w : Writer) {out : Writer × Option Account}
        → ctx.osdu_persistable_references ≡ true
        → HasTable w
        → collect_persistable_references ctx reader recorded w ≡ ok out
        → digest (osdu id) out.0.db ≡ settle publishing (digest (osdu id) w.db)
    unfolding collect_persistable_references
    digest-collect_persistable_references w {out} o c h =
        elim (Result-cases (remove_persistable_references (stale_keys w) w)) [
          | inr (x, e) ↦ absurd (ground (arith, o, h, e))
          | inl (a, e) ↦ elim (Result-cases (write_persistable_references gathered_all.rows a.0)) [
            | inr (x, f) ↦ absurd (ground (arith, o, h, e, f))
            | inl (b, f) ↦
                let same : out.0 ≡ b.0 = ground (arith, o, h, e, f) in
                ground (
                  arith,
                  same,
                  digest-write_persistable_references gathered_all.rows a.0 (osdu id) f,
                  remove_persistable_references-digest (osdu id) (stale_keys w) w e,
                  digest_last-gather_all linked_all.published (digest (osdu id) a.0.db)
                      linked_all-Distinct,
                  published-publishing,
                  settle_calls w (digest (osdu id) w.db) (unrecorded w c),
                )
          ]
        ]
