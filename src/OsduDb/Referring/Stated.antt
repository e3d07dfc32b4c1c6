-- ===== src/OsduDb/Referring/Stated.antt =====
-- The reference that the records of an id state, without the steps by which it is found
-- (geodetic_engine/osdudb/persistable_reference.py).
use geodetic_engine.Base.{
  ℕ, ◌≡◌, refl, ◌∙◌, Bool, true, false, not, ◌&&◌, ◌||◌, Option, none, some, List, [], ◌∷◌, ◌==◌,
  Text, text_eq, nat_eq, if◌then◌else◌, arith, Option-cases, Bool-cases, Result-cases, inl, inr, ok,
  err, contains, codes,
}
use geodetic_engine.Base.Dict
use geodetic_engine.Base.Dict.{Dict}
use geodetic_engine.Base.Texts.{is_empty}
use geodetic_engine.ProjDb.Writer.{Writer}
use geodetic_engine.ProjDb.References.Laws.{digest}
use geodetic_engine.OsduDb.Catalogue.{
  Record, Context, Field, no_field, null_field, text_field, other_field,
}
use geodetic_engine.OsduDb.Collecting.{Published, all_of, osdu}
use geodetic_engine.OsduDb.Stating.{
  Reader, Assessment, is_blank, active, speaking, text_of, stated_texts, payload, envelope,
  assess_raw, assess_payload, assess_texts, expected_kinds, assess, with_text,
}
use geodetic_engine.OsduDb.Referring.{record_of, Account, collect_persistable_references}
use geodetic_engine.OsduDb.Referring.Settled.{
  settle_by, settle, publishing, HasTable, digest-collect_persistable_references,
}

-- The records that are not inactive.
abbrev pub only_active : List Record → List Record
only_active [] = []
only_active (r ∷ rs) = if r.inactive then only_active rs else r ∷ only_active rs

abbrev pub has_active : List Record → Bool
has_active [] = false
has_active (r ∷ rs) = not r.inactive || has_active rs

-- The text that a field states, if it is more than spaces.
abbrev pub given_text : (ℕ → Bool) → Field → Option Text
given_text space no_field = none
given_text space null_field = none
given_text space (text_field t) = if is_blank space t then none else some t
given_text space (other_field type) = none

abbrev pub cons_given : Option Text → List Text → List Text
cons_given none ts = ts
cons_given (some t) ts = t ∷ ts

abbrev pub given_texts : (ℕ → Bool) → List Record → List Text
given_texts space [] = []
given_texts space (r ∷ rs) = cons_given (given_text space r.reference) (given_texts space rs)

abbrev pub all_same : Text → List Text → Bool
all_same t [] = true
all_same t (u ∷ us) = u == t && all_same t us

-- The one text of some, or else that of a field.
abbrev pub one_text : Option Text → List Text → Option Text
one_text own [] = own
one_text own (t ∷ ts) = if all_same t ts then some t else none

-- `LBC` or `EBC` for a system, `ST` or `CT` for an operation.
abbrev pub fits : Bool → Text → Bool
fits true kind = kind == codes "ST" || kind == codes "CT"
fits false kind = kind == codes "LBC" || kind == codes "EBC"

abbrev pub is_none : Option Text → Bool
is_none none = true
is_none (some t) = false

-- Whether a reference can be read, is well formed, also as WKT, and is of a kind that fits.
abbrev pub is_usable : Reader → Record → Text → Bool
is_usable reader r raw = elim (reader.decode raw) [
  | err message ↦ false
  | ok e ↦
      is_none (reader.malformed raw)
      && is_none (reader.malformed_wkt raw)
      && fits r.is_operation e.kind
]

abbrev pub spoken : List Record → List Record
spoken rs = if has_active rs then only_active rs else rs

-- The digest after a build of the records that publish an id, where `r` is the record that the id
-- was recorded from.
abbrev pub digest_of : Bool → Reader → Record → Option Text → Option Text → Option Text
digest_of overwrite reader r none old = if overwrite then none else old
digest_of overwrite reader r (some raw) old =
    if is_usable reader r raw then some (reader.sha256 raw) else if overwrite then none else old

abbrev pub stated_of : Reader → Record → List Record → Option Text
stated_of reader r rs =
    one_text (given_text reader.space r.reference) (given_texts reader.space (spoken rs))

abbrev alone : Text → List Text → Bool
alone t [] = true
alone t (u ∷ []) = t == u
alone t (u ∷ v ∷ us) = false

alone-with :
    (t u : Text) (us : List Text)
    → alone t (if contains us u then us else u ∷ us) ≡ (u == t && alone t us)
alone-with t u [] = elim (text_eq.dec u t) [ yes q ↦ ground (arith, q) | no m ↦ ground (arith, m) ]
alone-with t u (p ∷ []) = elim (text_eq.dec u p) [
  | yes q ↦ elim (text_eq.dec t p) [ yes f ↦ ground (arith, q, f) | no m ↦ ground (arith, q, m) ]
  | no m ↦ elim (text_eq.dec u t) [ yes q ↦ ground (arith, m, q) | no k ↦ ground (arith, m, k) ]
]
alone-with t u (p ∷ q ∷ us) = ground arith

alone-with_text :
    (space : ℕ → Bool) (t : Text) (f : Field) (us gs : List Text)
    → alone t us ≡ all_same t gs
    → alone t (with_text (text_of space f) us) ≡ all_same t (cons_given (given_text space f) gs)
alone-with_text space t no_field us gs h = h
alone-with_text space t null_field us gs h = h
alone-with_text space t (other_field type) us gs h = h
alone-with_text space t (text_field u) us gs h = elim (Bool-cases (is_blank space u)) [
  | inl e ↦ ground (arith, e, h)
  | inr e ↦ ground (arith, e, h, alone-with t u us)
]

alone-stated_texts :
    (space : ℕ → Bool) (t : Text) (rs : List Record)
    → alone t (stated_texts space rs) ≡ all_same t (given_texts space rs)
unfolding stated_texts
alone-stated_texts space t [] = refl
alone-stated_texts space t (r ∷ rs) =
    alone-with_text space t r.reference (stated_texts space rs) (given_texts space rs)
      (alone-stated_texts space t rs)

contains-with_text :
    (space : ℕ → Bool) (t : Text) (f : Field) (us gs : List Text)
    → contains us t ≡ contains gs t
    → contains (with_text (text_of space f) us) t ≡ contains (cons_given (given_text space f) gs) t
contains-with_text space t no_field us gs h = h
contains-with_text space t null_field us gs h = h
contains-with_text space t (other_field type) us gs h = h
contains-with_text space t (text_field u) us gs h = elim (Bool-cases (is_blank space u)) [
  | inl e ↦ ground (arith, e, h)
  | inr e ↦ elim (text_eq.dec t u) [
    | yes q ↦ ground (arith, e, q, h)
    | no n ↦ ground (arith, e, n, h)
  ]
]

contains-stated_texts :
    (space : ℕ → Bool) (t : Text) (rs : List Record)
    → contains (stated_texts space rs) t ≡ contains (given_texts space rs) t
unfolding stated_texts
contains-stated_texts space t [] = refl
contains-stated_texts space t (r ∷ rs) =
    contains-with_text space t r.reference (stated_texts space rs) (given_texts space rs)
      (contains-stated_texts space t rs)

active-only_active : (rs : List Record) → active rs ≡ only_active rs
unfolding active
active-only_active [] = refl
active-only_active (r ∷ rs) = ground (arith, active-only_active rs)

is_empty-only_active : (rs : List Record) → is_empty (only_active rs) ≡ not (has_active rs)
is_empty-only_active [] = refl
is_empty-only_active (r ∷ rs) = ground (arith, is_empty-only_active rs)

speaking-spoken : (rs : List Record) → speaking rs ≡ spoken rs
unfolding speaking
speaking-spoken rs = rw (active-only_active rs) (rw (is_empty-only_active rs) (ground arith))

module _ (ctx : Context) (recorded : Dict Text Record) (reader : Reader) (id : Text) where
  -- The digest that an assessment leaves.
  abbrev left_by : Assessment → Option Text → Option Text
  left_by a old = settle_by ctx recorded reader id a old

  abbrev wanted : Record → Option Text → Option Text → Option Text
  wanted r stated old = digest_of ctx.overwrite_rows reader r stated old

  expects-fits : (o : Bool) (kind : Text) → contains (expected_kinds o) kind ≡ fits o kind
  expects-fits true kind = ground arith
  expects-fits false kind = ground arith

  assess_raw-wanted :
      (r : Record) (raw : Text) (old : Option Text)
      → left_by (assess_raw reader r raw) old ≡ wanted r (some raw) old
  unfolding envelope
  assess_raw-wanted r raw old = elim (Result-cases (reader.decode raw)) [
    | inr (message, e) ↦ ground (arith, e)
    | inl (env, e) ↦ elim (Option-cases (reader.malformed raw)) [
      | inr (message, f) ↦ ground (arith, e, f)
      | inl f ↦ elim (Option-cases (reader.malformed_wkt raw)) [
        | inr (message, g) ↦ ground (arith, e, f, g)
        | inl g ↦ ground (arith, e, f, g, expects-fits r.is_operation env.kind)
      ]
    ]
  ]

  assess_payload-wanted :
      (r : Record) (f : Field) (old : Option Text)
      → left_by (assess_payload reader r (payload reader.space f)) old
        ≡ wanted r (given_text reader.space f) old
  unfolding payload
  assess_payload-wanted r no_field old = refl
  assess_payload-wanted r null_field old = refl
  assess_payload-wanted r (other_field type) old = refl
  assess_payload-wanted r (text_field t) old = elim (Bool-cases (is_blank reader.space t)) [
    | inl e ↦ rw e refl
    | inr e ↦ rw e (assess_raw-wanted r t old)
  ]

  assess_texts-wanted :
      (r : Record) (t : Text) (us ts : List Text) (old : Option Text)
      → contains us t ≡ true
      → alone t us ≡ all_same t ts
      → left_by (assess_texts reader r us) old
        ≡ wanted r (if all_same t ts then some t else none) old
  assess_texts-wanted r t [] ts old h a = absurd (ground (arith, h))
  assess_texts-wanted r t (u ∷ []) ts old h a =
      let q : t ≡ u = ground (arith, h) in
      let e : all_same t ts ≡ true = ground (arith, a, h) in rw e (rw q (assess_raw-wanted r u old))
  assess_texts-wanted r t (u ∷ v ∷ us) ts old h a =
      let e : all_same t ts ≡ false = ground (arith, a) in rw e refl

  texts-wanted :
      (r : Record) (us ts : List Text) (old : Option Text)
      → ((t : Text) → contains us t ≡ contains ts t)
      → ((t : Text) → alone t us ≡ all_same t ts)
      → left_by (assess_texts reader r us) old
        ≡ wanted r (one_text (given_text reader.space r.reference) ts) old
  texts-wanted r [] [] old h a = assess_payload-wanted r r.reference old
  texts-wanted r (u ∷ us) [] old h a = absurd (ground (arith, h u))
  texts-wanted r us (t ∷ ts) old h a =
      assess_texts-wanted r t us ts old (ground (arith, h t)) (ground (arith, a t))

  assess-wanted :
      (r : Record) (p : Published) (old : Option Text)
      → left_by (assess reader r p) old ≡ wanted r (stated_of reader r (all_of p)) old
  unfolding assess
  assess-wanted r p old =
      let rs = spoken (all_of p) in
      rw (speaking-spoken (all_of p)) (
        texts-wanted r (stated_texts reader.space rs) (given_texts reader.space rs) old
          (λ t. contains-stated_texts reader.space t rs)
          (λ t. alone-stated_texts reader.space t rs))

  -- The digest for the records that publish the id, if any do.
  abbrev pub digest_stated : Option Published → Option Text → Option Text
  digest_stated none old = old
  digest_stated (some p) old =
      let r = record_of (Dict.lookup id recorded) p in
      digest_of ctx.overwrite_rows reader r (stated_of reader r (all_of p)) old

  settle-digest_stated :
      (p : Option Published) (old : Option Text)
      → settle ctx recorded reader id p old ≡ digest_stated p old
  settle-digest_stated none old = refl
  settle-digest_stated (some p) old = assess-wanted (record_of (Dict.lookup id recorded) p) p old

  -- A call of `collect_persistable_references` that returns leaves an id with the digest of the one
  -- reference that its records state, the active ones if there are any, or else the record that it
  -- was recorded from, if that can be read, is well formed and is of a kind that fits. Where the
  -- records that publish the id state none, several or one that is not so, an earlier reference is
  -- removed with `overwrite_rows` and kept without. An id for which no record publishes is left as it
  -- was.
  pub collect_persistable_references_settles :
      (w : Writer) {out : Writer × Option Account}
      → ctx.osdu_persistable_references ≡ true
      → HasTable ctx recorded reader id w
      → collect_persistable_references ctx reader recorded w ≡ ok out
      → digest (osdu id) out.0.db
        ≡ digest_stated (publishing ctx recorded reader id) (digest (osdu id) w.db)
  collect_persistable_references_settles w o c h =
      digest-collect_persistable_references ctx recorded reader id w o c h
      ∙ settle-digest_stated (publishing ctx recorded reader id) (digest (osdu id) w.db)
