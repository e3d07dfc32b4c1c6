-- ===== src/Referencing/OsduId/Candidates.antt =====
-- The version separator of a reference, and the ids that are looked up
-- (geodetic_engine/_referencing/osdu_id.py).
use geodetic_engine.Base.{
  ℕ, true, false, ◌≡◌, ◌≢◌, refl, ap, Option, none, some, [], ◌∷◌, ◌++◌, ◌==◌, Text, text_eq,
  nat_eq, if◌then◌else◌, arith, Option-cases, inl, inr, ◌↔◌, ◌⊎◌,
}
use geodetic_engine.Base.Texts.{all, split_last, split_last-eq, split_last-append}
use geodetic_engine.Referencing.OsduId.{
  CharClasses, OsduId, identifier, is_stem, versioned, resolve_osdu_id,
}
use geodetic_engine.Referencing.OsduId.Parsing.{IsDocumented}

-- `(?P<id>.*[^:]):\d*`, as a description of the whole text by its group.
pub record IsVersioned (cs : CharClasses) (t stem : Text) : Type 0 where
  pub version : Text
  pub whole : t ≡ stem ++ (b':' ∷ version)
  pub numbered : all cs.digit version ≡ true
  pub start : Text
  pub last : ℕ
  pub parts : stem ≡ start ++ (last ∷ [])
  pub no_line_end : all (λ c. if c == 10 then false else true) start ≡ true
  pub no_colon : last ≢ b':'

module _ (cs : CharClasses) (doc : IsDocumented cs) where
  digits-colon :
      (t : Text) → all cs.digit t ≡ true → all (λ c. if c == b':' then false else true) t ≡ true
  digits-colon [] h = refl
  digits-colon (c ∷ t) h = elim (nat_eq.dec c b':') [
    | yes p ↦ absurd (ground (arith, doc.digits, ap cs.digit p))
    | no n ↦ ground (arith, digits-colon t)
  ]

  -- What a stem ends in, and what stands before.
  abbrev Parts : Text → Type 0
  Parts t =
      (start : Text) × (last : ℕ) × (t ≡ start ++ (last ∷ []))
      × (all (λ c. if c == 10 then false else true) start ≡ true)
      × (last ≢ b':')

  is_stem-Parts : (t : Text) → is_stem cs t ≡ true → Parts t
  unfolding is_stem
  is_stem-Parts [] h = absurd (ground arith)
  is_stem-Parts (c ∷ []) h = ([], c, refl, refl, ground arith)
  is_stem-Parts (c ∷ d ∷ t) h =
      let (s, l, e, a, n) = is_stem-Parts (d ∷ t) (ground arith) in
      (c ∷ s, l, ap (λ x. c ∷ x) e, ground arith, n)

  Parts-is_stem :
      (s : Text) (l : ℕ)
      → all (λ c. if c == 10 then false else true) s ≡ true
      → l ≢ b':'
      → is_stem cs (s ++ (l ∷ [])) ≡ true
  unfolding is_stem
  Parts-is_stem [] l a n = ground arith
  Parts-is_stem (c ∷ []) l a n = ground arith
  Parts-is_stem (c ∷ d ∷ s) l a n = ground (arith, Parts-is_stem (d ∷ s) l)

  versioned-IsVersioned : (t stem : Text) → versioned cs t ≡ some stem → IsVersioned cs t stem
  unfolding versioned
  versioned-IsVersioned t stem h = elim (Option-cases (split_last b':' t)) [
    | inl e ↦ absurd (ground arith)
    | inr ((s, v), e) ↦
        let (b, l, f, a, n) = is_stem-Parts s (ground arith) in
        record {
          version = v;
          whole = ground (arith, split_last-eq b':' t e);
          numbered = ground arith;
          start = b;
          last = l;
          parts = ground arith;
          no_line_end = a;
          no_colon = n;
        }
  ]

  IsVersioned-versioned : (t stem : Text) → IsVersioned cs t stem → versioned cs t ≡ some stem
  unfolding versioned
  IsVersioned-versioned t stem h =
      let found : split_last b':' t ≡ some (stem, h.version) =
        rw h.whole (split_last-append b':' stem h.version (digits-colon h.version h.numbered)) in
      let stem_ok : is_stem cs stem ≡ true =
        rw h.parts (Parts-is_stem h.start h.last h.no_line_end h.no_colon) in
      rw (found, versioned) (ground arith)

  -- The version separator is recognised exactly where the text is a stem, a colon and then digits
  -- only, the stem being some characters with no line end and a last one that is no colon, and the
  -- stem is then the group `id`. The hypothesis is that a colon is no digit.
  pub versioned_iff : (t stem : Text) → (versioned cs t ≡ some stem) ↔ IsVersioned cs t stem
  versioned_iff t stem = (versioned-IsVersioned t stem, IsVersioned-versioned t stem)

  resolved_stem :
      {A : Type 0} (lookup : Text → Option A) (o : OsduId) (stem : Text) {found : A}
      → lookup (identifier o) ≡ none
      → versioned cs o.record_id ≡ some stem
      → resolve_osdu_id cs lookup o ≡ some found
      → lookup (identifier (record o { record_id = stem })) ≡ some found
  unfolding resolve_osdu_id
  resolved_stem lookup o stem e v h =
      elim (Option-cases (lookup (identifier (record o { record_id = stem })))) [
        | inl f ↦ absurd (ground (arith, e, v, h, f))
        | inr (x, f) ↦ ground (arith, e, v, h, f)
      ]

  -- An id resolves to an object, over any lookup, exactly if the object is recorded for the id as
  -- given, or if nothing is, the id ends in a version separator and the object is recorded for its
  -- stem.
  pub resolve_osdu_id_iff :
      {A : Type 0} (lookup : Text → Option A) (o : OsduId) (found : A)
      → (resolve_osdu_id cs lookup o ≡ some found) ↔ (
          (lookup (identifier o) ≡ some found)
          ⊎ ((lookup (identifier o) ≡ none)
              × (stem : Text) × IsVersioned cs o.record_id stem
              × (lookup (identifier (record o { record_id = stem })) ≡ some found)))
  unfolding resolve_osdu_id
  resolve_osdu_id_iff lookup o found = (
    λ h. elim (Option-cases (lookup (identifier o))) [
      | inr (x, e) ↦ inl (ground (arith, h, e))
      | inl e ↦ elim (Option-cases (versioned cs o.record_id)) [
        | inl v ↦ absurd (ground (arith, h, e, v))
        | inr (stem, v) ↦
            inr
              (e, stem, versioned-IsVersioned o.record_id stem v, resolved_stem lookup o stem e v h)
      ]
    ],
    λ h. elim h [
      | inl e ↦ ground (arith, e)
      | inr (e, stem, v, f) ↦ ground (arith, e, f, IsVersioned-versioned o.record_id stem v)
    ],
  )
