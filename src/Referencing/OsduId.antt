-- ===== src/Referencing/OsduId.antt =====
-- OSDU record ids for coordinate reference systems and transformations
-- (geodetic_engine/_referencing/osdu_id.py). Texts are code points; which of them `re` and
-- `str.strip` take for word characters, digits and spaces is a parameter.
pub mod Parsing
pub mod Candidates
use geodetic_engine.Base.{
  ℕ, Bool, true, false, not, ◌&&◌, ◌||◌, ◌≡◌, Option, none, some, List, [], ◌∷◌, ◌++◌, map, ◌==◌,
  contains, Text, text_eq, nat_eq, codes, if◌then◌else◌, Result, ok, err,
}
use mathlib.Core.Option
use geodetic_engine.Base.Texts.{all, is_empty, strip, drop_prefix, split_first, split_last}

-- `\w`, `\d` and the spaces of `str.strip`.
pub record CharClasses : Type 0 where
  pub word : ℕ → Bool
  pub digit : ℕ → Bool
  pub space : ℕ → Bool

abbrev pub crs_entity : Text
crs_entity = codes "reference-data--CoordinateReferenceSystem"

abbrev pub transformation_entity : Text
transformation_entity = codes "reference-data--CoordinateTransformation"

abbrev pub entities : List Text
entities = crs_entity ∷ transformation_entity ∷ []

pub record OsduId : Type 0 where
  pub entity : Text
  pub record_id : Text
  pub namespace : Option Text

-- The `ValueError` for an entity type that is neither.
pub data NotAnEntity : Type 0 where
  not_an_entity : Text → NotAnEntity

-- `OsduId.identifier`
unfoldable pub identifier : OsduId → Text
identifier o = o.entity ++ (b':' ∷ o.record_id)

-- `OsduId.is_crs`
unfoldable pub is_crs : OsduId → Bool
is_crs o = o.entity == crs_entity

module _ (cs : CharClasses) where
  -- `[\w\-.:%]`
  abbrev pub record_char : ℕ → Bool
  record_char c = cs.word c || c == b'-' || c == b'.' || c == b':' || c == b'%'

  -- `_RECORD_ID.fullmatch`
  unfoldable pub is_record_id : Text → Bool
  is_record_id t = not (is_empty t) && all record_char t

  -- `[\w\-.]`
  abbrev pub namespace_char : ℕ → Bool
  namespace_char c = cs.word c || c == b'-' || c == b'.'

  -- `\w+\}\}`, the rest of a placeholder.
  unfoldable pub is_placeholder_rest : Text → Bool
  is_placeholder_rest [] = false
  is_placeholder_rest (c ∷ t) =
      let more = is_placeholder_rest t in cs.word c && (t == codes "}}" || more)

  abbrev pub placeholder : Option Text → Bool
  placeholder none = false
  placeholder (some rest) = is_placeholder_rest rest

  -- `_NAMESPACE.fullmatch`
  unfoldable pub is_namespace : Text → Bool
  is_namespace t =
      (not (is_empty t) && all namespace_char t) || placeholder (drop_prefix (codes "{{") t)

  -- `prefix[:-1]` if the prefix ends with a colon.
  unfoldable pub before_colon : Text → Option Text
  before_colon [] = none
  before_colon (c ∷ []) = if c == b':' then some [] else none
  before_colon (c ∷ d ∷ t) = Option.map (λ r. c ∷ r) (before_colon (d ∷ t))

  -- What the branch for a found marker returns, from what stands before and after it.
  unfoldable pub read_found : Text → Text → Text → Option OsduId
  read_found entity [] record_id =
      if is_record_id record_id
      then some (record { entity = entity; record_id = record_id; namespace = none })
      else none
  read_found entity (c ∷ prefix) record_id = elim (before_colon (c ∷ prefix)) [
    | none ↦ none
    | some namespace ↦
        if is_namespace namespace && is_record_id record_id
        then some (record {
          entity = entity;
          record_id = record_id;
          namespace = if is_empty namespace then none else some namespace;
        })
        else none
  ]

  -- The loop over the entity types.
  unfoldable pub parse_loop : List Text → Text → Option Text → Option OsduId
  parse_loop [] text none = none
  parse_loop [] text (some entity) =
      if is_record_id text
      then some (record { entity = entity; record_id = text; namespace = none })
      else none
  parse_loop (candidate ∷ rest) text entity =
      let later = parse_loop rest text entity in
      elim (split_first (candidate ++ (b':' ∷ [])) text) [
        | none ↦ later
        | some (prefix, record_id) ↦ read_found candidate prefix record_id
      ]

  unfoldable pub parse_osdu_id : Text → Option Text → Result NotAnEntity (Option OsduId)
  unfolding parse_loop
  parse_osdu_id value none = ok (parse_loop entities (strip cs.space value) none)
  parse_osdu_id value (some entity) =
      if not (contains entities entity)
      then err (not_an_entity entity)
      else ok (parse_loop entities (strip cs.space value) (some entity))

  -- `.*[^:]`: no line end but at the last place, where no colon stands.
  unfoldable pub is_stem : Text → Bool
  is_stem [] = false
  is_stem (c ∷ []) = not (c == b':')
  is_stem (c ∷ d ∷ t) = not (c == 10) && is_stem (d ∷ t)

  -- `_VERSIONED.fullmatch`, and its group `id`.
  unfoldable pub versioned : Text → Option Text
  versioned t = elim (split_last b':' t) [
    | none ↦ none
    | some (stem, version) ↦ if is_stem stem && all cs.digit version then some stem else none
  ]

  -- `OsduId.candidates`. The stem is shorter than the id, so `dict.fromkeys` drops nothing.
  unfoldable pub candidates : OsduId → List Text
  candidates o = identifier o ∷ (elim (versioned o.record_id) [
    | none ↦ []
    | some stem ↦ identifier (record o { record_id = stem }) ∷ []
  ])

  module _ {ℓ} {A : Type ℓ} (identified_object : Text → Option A) where
    unfoldable pub first_found : List Text → Option A
    first_found [] = none
    first_found (t ∷ ts) =
        let later = first_found ts in
        elim (identified_object t) [ none ↦ later | some found ↦ some found ]

    -- `resolve_osdu_id`, over the lookup of identifiers in the active proj.db.
    unfoldable pub resolve_osdu_id : OsduId → Option A
    unfolding first_found candidates
    resolve_osdu_id o = first_found (candidates o)
