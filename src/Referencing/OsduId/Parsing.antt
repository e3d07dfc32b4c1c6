-- ===== src/Referencing/OsduId/Parsing.antt =====
-- What `parse_osdu_id` accepts (geodetic_engine/_referencing/osdu_id.py).
use geodetic_engine.Base.{
  ℕ, true, false, ◌≡◌, refl, sym, ◌∙◌, ap, none, some, [], ◌∷◌, ◌++◌, contains, Text, text_eq,
  nat_eq, codes, if◌then◌else◌, ok, arith, Option-cases, inl, inr, ◌⊎◌,
}
use geodetic_engine.Base.Texts.{
  all, strip, drop_prefix, split_first, split_first-eq, split_first-none, strip-ends,
  drop_prefix-append,
}
use mathlib.Core.List.{append_assoc}
use geodetic_engine.Referencing.OsduId.{
  CharClasses, OsduId, crs_entity, transformation_entity, entities, identifier, record_char,
  is_record_id, is_namespace, before_colon, read_found, parse_loop, parse_osdu_id,
}

-- The id as it is written out.
unfoldable pub render : OsduId → Text
render o = elim o.namespace [
  | none ↦ identifier o
  | some namespace ↦ namespace ++ (b':' ∷ identifier o)
]

module _ (cs : CharClasses) where
  before_colon-eq : (t : Text) {r : Text} → before_colon cs t ≡ some r → t ≡ r ++ (b':' ∷ [])
  unfolding before_colon
  before_colon-eq [] h = ground arith
  before_colon-eq (c ∷ []) h = ground arith
  before_colon-eq (c ∷ d ∷ t) {r} h = elim (Option-cases (before_colon cs (d ∷ t))) [
    | inl e ↦ ground arith
    | inr (x, e) ↦ ground (arith, before_colon-eq (d ∷ t) e)
  ]

  -- What is read at a marker, as a statement about the result.
  abbrev Reads : Text → Text → Text → OsduId → Type 0
  Reads entity prefix record_id o =
      (o.entity ≡ entity)
      × (o.record_id ≡ record_id)
      × (is_record_id cs record_id ≡ true)
      × (render o ≡ prefix ++ (entity ++ (b':' ∷ record_id)))

  read_found-Reads :
      (entity prefix record_id : Text) (o : OsduId)
      → read_found cs entity prefix record_id ≡ some o
      → Reads entity prefix record_id o
  unfolding read_found render identifier is_namespace drop_prefix
  read_found-Reads entity [] record_id o h = ground arith
  read_found-Reads entity (c ∷ prefix) record_id o h =
      elim (Option-cases (before_colon cs (c ∷ prefix))) [
        | inl e ↦ ground arith
        | inr ([], e) ↦ ground arith
        | inr (d ∷ n, e) ↦ ground (
          arith,
          before_colon-eq (c ∷ prefix) e,
          append_assoc (d ∷ n) (b':' ∷ []) (entity ++ (b':' ∷ record_id)),
        )
      ]

  -- What the loop returned: the entity type that it found, and no earlier marker in the text.
  abbrev FromLoop : Text → OsduId → Type 0
  FromLoop text o =
      (prefix : Text) × (text ≡ prefix ++ identifier o)
      × (is_record_id cs o.record_id ≡ true)
      × (render o ≡ text)
      × ((o.entity ≡ crs_entity)
          ⊎ ((o.entity ≡ transformation_entity)
              × (split_first (crs_entity ++ (b':' ∷ [])) text ≡ none)))

  read_found-text :
      (entity text prefix record_id : Text) (o : OsduId)
      → split_first (entity ++ (b':' ∷ [])) text ≡ some (prefix, record_id)
      → Reads entity prefix record_id o
      → render o ≡ text
  read_found-text entity text prefix record_id o e (a, b, c, d) =
      d
      ∙ ap (λ t. prefix ++ t) (sym (append_assoc entity (b':' ∷ []) record_id))
      ∙ sym (split_first-eq _ text e)

  found-FromLoop :
      (entity text prefix record_id : Text) (o : OsduId)
      → split_first (entity ++ (b':' ∷ [])) text ≡ some (prefix, record_id)
      → read_found cs entity prefix record_id ≡ some o
      → (entity ≡ crs_entity)
        ⊎ ((entity ≡ transformation_entity) × (split_first (crs_entity ++ (b':' ∷ [])) text ≡ none))
      → FromLoop text o
  unfolding identifier
  found-FromLoop entity text prefix record_id o e h which =
      let r = read_found-Reads entity prefix record_id o h in
      (
        prefix,
        rw (r.0, r.1) (sym (read_found-text entity text prefix record_id o e r) ∙ r.3),
        rw r.1 r.2,
        read_found-text entity text prefix record_id o e r,
        rw r.0 which,
      )

  parse_loop-FromLoop :
      (text : Text) (o : OsduId) → parse_loop cs entities text none ≡ some o → FromLoop text o
  unfolding parse_loop
  parse_loop-FromLoop text o h =
      elim (Option-cases (split_first (crs_entity ++ (b':' ∷ [])) text)) [
        | inr ((prefix, record_id), e) ↦
            found-FromLoop crs_entity text prefix record_id o e (rw (e, parse_loop) at h) (inl refl)
        | inl e ↦ elim (Option-cases (split_first (transformation_entity ++ (b':' ∷ [])) text)) [
          | inr ((prefix, record_id), f) ↦
              found-FromLoop transformation_entity text prefix record_id o f (ground arith)
                (inr (refl, e))
          | inl f ↦ absurd (ground arith)
        ]
      ]

-- What `parse_osdu_id` recognises without an expected entity type is the stripped text itself: the
-- parts of the id, written out again with the colons between them, are that text. The entity type is
-- one of the two, and the rest is a record id of the allowed characters.
pub render-parse_osdu_id :
    (cs : CharClasses) (value : Text) (o : OsduId)
    → parse_osdu_id cs value none ≡ ok (some o)
    → (render o ≡ strip cs.space value)
      × (contains entities o.entity ≡ true)
      × (is_record_id cs o.record_id ≡ true)
unfolding parse_osdu_id
render-parse_osdu_id cs value o h =
    let (prefix, a, b, c, d) = parse_loop-FromLoop cs (strip cs.space value) o (ground arith) in
    (c, ground arith, b)

-- What `re` and `str.strip` document of their character classes, as far as ids rest on it.
pub record IsDocumented (cs : CharClasses) : Type 0 where
  pub apart : (c : ℕ) → record_char cs c ≡ true → cs.space c ≡ false
  pub letter : cs.space b'r' ≡ false
  pub digits : cs.digit b':' ≡ false

module _ (cs : CharClasses) (doc : IsDocumented cs) where
  nonspace :
      (t : Text)
      → all (record_char cs) t ≡ true
      → all (λ c. if cs.space c then false else true) t ≡ true
  nonspace [] h = refl
  nonspace (c ∷ t) h = ground (arith, doc.apart c, nonspace t)

  strip-marked :
      (e t : Text)
      → is_record_id cs t ≡ true
      → strip cs.space ((b'r' ∷ e) ++ (b':' ∷ t)) ≡ (b'r' ∷ e) ++ (b':' ∷ t)
  unfolding is_record_id
  strip-marked e t h =
      strip-ends cs.space b'r' e b':' t doc.letter (nonspace (b':' ∷ t) (ground arith))

  identifier-eq : (o : OsduId) {e : Text} → o.entity ≡ e → identifier o ≡ e ++ (b':' ∷ o.record_id)
  unfolding identifier
  identifier-eq o p = ap (λ t. t ++ (b':' ∷ o.record_id)) p

  found-at-start : (e t : Text) → split_first (b'r' ∷ e) ((b'r' ∷ e) ++ t) ≡ some ([], t)
  unfolding split_first
  found-at-start e t = rw (drop_prefix-append (b'r' ∷ e) t, split_first)

  abbrev bare : OsduId → OsduId
  bare o = record o { namespace = none }

  bare-eq :
      (o : OsduId) {e : Text}
      → o.entity ≡ e
      → ◌≡◌ {A = OsduId} (record { entity = e; record_id = o.record_id; namespace = none }) (bare o)
  bare-eq o p = λ i. record { entity = sym p i; record_id = o.record_id; namespace = none }

  parse_loop-identifier :
      (o : OsduId) (prefix text : Text)
      → text ≡ prefix ++ identifier o
      → is_record_id cs o.record_id ≡ true
      → (o.entity ≡ crs_entity)
        ⊎ ((o.entity ≡ transformation_entity)
            × (split_first (crs_entity ++ (b':' ∷ [])) text ≡ none))
      → parse_loop cs entities (identifier o) none ≡ some (bare o)
  unfolding parse_loop read_found
  parse_loop-identifier o prefix text t h (inl e) =
      let at_start : split_first (crs_entity ++ (b':' ∷ [])) (identifier o)
          ≡ some ([], o.record_id) =
        rw (identifier-eq o e) (found-at-start _ o.record_id) in
      rw (at_start, parse_loop) (rw (h, read_found) (ap some (bare-eq o e)))
  parse_loop-identifier o prefix text t h (inr (e, f)) =
      let no_crs : split_first (crs_entity ++ (b':' ∷ [])) (identifier o) ≡ none =
        split_first-none _ prefix (identifier o) (rw t at f) in
      let at_start : split_first (transformation_entity ++ (b':' ∷ [])) (identifier o)
          ≡ some ([], o.record_id) =
        rw (identifier-eq o e) (found-at-start _ o.record_id) in
      rw (no_crs, at_start, parse_loop) (rw (h, read_found) (ap some (bare-eq o e)))

  strip-identifier :
      (o : OsduId)
      → is_record_id cs o.record_id ≡ true
      → (o.entity ≡ crs_entity) ⊎ (o.entity ≡ transformation_entity)
      → strip cs.space (identifier o) ≡ identifier o
  strip-identifier o h (inl e) =
      rw (identifier-eq o e)
        (strip-marked (codes "eference-data--CoordinateReferenceSystem") o.record_id h)
  strip-identifier o h (inr e) =
      rw (identifier-eq o e)
        (strip-marked (codes "eference-data--CoordinateTransformation") o.record_id h)

  -- Where an id is recognised, its identifier is recognised too, as the same id without its data
  -- partition: what is looked up does not depend on the partition.
  pub parse_osdu_id-identifier :
      (value : Text) (o : OsduId)
      → parse_osdu_id cs value none ≡ ok (some o)
      → parse_osdu_id cs (identifier o) none ≡ ok (some (record o { namespace = none }))
  unfolding parse_osdu_id
  parse_osdu_id-identifier value o h =
      let (prefix, a, b, c, d) = parse_loop-FromLoop cs (strip cs.space value) o (ground arith) in
      let s : strip cs.space (identifier o) ≡ identifier o =
        strip-identifier o b (elim d [ inl e ↦ inl e | inr e ↦ inr e.0 ]) in
      rw s (ap ok (parse_loop-identifier o prefix (strip cs.space value) a b d))
