-- ===== src/OsduDb/Stating.antt =====
-- What the records of an id state as its persistableReference, and whether it can be recorded
-- (`_payload`, `_absence`, `_envelope`, `_disagreements` and `_row` of
-- geodetic_engine/osdudb/persistable_reference.py). The readers of a reference are parameters.
use geodetic_engine.Base.{
  ℕ, Bool, true, false, ◌&&◌, Option, none, some, List, [], ◌∷◌, ◌++◌, ◌==◌, contains, Text,
  text_eq, codes, if◌then◌else◌, length, Result, ok, err, ◌>>=◌, ◌>>◌,
}
use geodetic_engine.Base.Texts.{is_empty, strip, unless_empty}
use geodetic_engine.ProjDb.Writer.{ReferenceRow}
use geodetic_engine.OsduDb.Catalogue.{
  Record, Context, Field, no_field, null_field, text_field, other_field, ObjectName, object_name,
  catalogue_source,
}
use geodetic_engine.OsduDb.Collecting.{Published, all_of, osdu}

-- What is read of a reference.
pub record Envelope : Type 0 where
  pub kind : Text
  pub name : Text
  pub version : Text
  pub authority_code : Option (Text × Text)

-- The readers: `str.isspace`, `decode` with its error, the errors by which the grammar and the
-- WKT say that they are malformed, and the digest.
pub record Reader : Type 0 where
  pub space : ℕ → Bool
  pub decode : Text → Result Text Envelope
  pub malformed : Text → Option Text
  pub malformed_wkt : Text → Option Text
  pub sha256 : Text → Text

-- Why an id has no reference of this build: how a record states none, what is wrong with the one
-- it states, and whether an earlier one was removed for it.
pub data Why : Type 0 where
  states_none states_empty : Why
  several : ℕ → Why
  not_a_string unreadable is_malformed wkt_is_malformed states_kind : Text → Why
  and_removed : Why → Why

-- `Kind`
abbrev pub late_bound_crs : Text
late_bound_crs = codes "LBC"

abbrev pub early_bound_crs : Text
early_bound_crs = codes "EBC"

abbrev pub transformation : Text
transformation = codes "ST"

abbrev pub concatenated_transformation : Text
concatenated_transformation = codes "CT"

-- `raw.strip()` as a test
abbrev pub is_blank : (ℕ → Bool) → Text → Bool
is_blank space t = is_empty (strip space t)

-- `[item for item in records if not deprecated] or records`
unfoldable pub active : List Record → List Record
active [] = []
active (r ∷ rs) = let rest = active rs in if r.inactive then rest else r ∷ rest

unfoldable pub speaking : List Record → List Record
unfolding active
speaking rs = if is_empty (active rs) then rs else active rs

-- The set of the references that records state as a text.
abbrev pub text_of : (ℕ → Bool) → Field → List Text
text_of space no_field = []
text_of space null_field = []
text_of space (text_field t) = if is_blank space t then [] else t ∷ []
text_of space (other_field type) = []

abbrev pub with_text : List Text → List Text → List Text
with_text [] texts = texts
with_text (t ∷ ts) texts = if contains texts t then texts else t ∷ texts

unfoldable pub stated_texts : (ℕ → Bool) → List Record → List Text
stated_texts space [] = []
stated_texts space (r ∷ rs) = with_text (text_of space r.reference) (stated_texts space rs)

-- `_payload`
unfoldable pub payload : (ℕ → Bool) → Field → Result Why (Option Text)
payload space no_field = ok none
payload space null_field = ok none
payload space (text_field t) = if is_blank space t then ok none else ok (some t)
payload space (other_field type) = err (not_a_string type)

-- `_absence`
abbrev pub absence : Field → Why
absence no_field = states_none
absence null_field = states_empty
absence (text_field t) = states_empty
absence (other_field type) = states_empty

-- `_CRS_KINDS` and `_OPERATION_KINDS`
abbrev pub expected_kinds : Bool → List Text
expected_kinds true = transformation ∷ concatenated_transformation ∷ []
expected_kinds false = late_bound_crs ∷ early_bound_crs ∷ []

abbrev pub refuse : Option Text → (Text → Why) → Result Why (Unit {0})
refuse none why = ok tt
refuse (some message) why = err (why message)

abbrev pub decoded : Result Text Envelope → Result Why Envelope
decoded (ok e) = ok e
decoded (err message) = err (unreadable message)

abbrev pub of_kind : Bool → Envelope → Result Why Envelope
of_kind is_operation e =
    if contains (expected_kinds is_operation) e.kind then ok e else err (states_kind e.kind)

-- `_envelope`
unfoldable pub envelope : Reader → Record → Text → Result Why Envelope
envelope reader r raw = do
  e ← decoded (reader.decode raw)
  refuse (reader.malformed raw) is_malformed
  refuse (reader.malformed_wkt raw) wkt_is_malformed
  of_kind r.is_operation e

-- `_EXPECTED_KIND`
unfoldable pub expected_kind : Record → Text
expected_kind r =
    if r.kind == codes "BoundCRS"
    then early_bound_crs
    else if r.kind == codes "Transformation"
    then transformation
    else if r.kind == codes "ConcatenatedOperation"
    then concatenated_transformation
    else if r.is_operation
    then transformation
    else late_bound_crs

pub data Disagreement : Type 0 where
  another_kind : Text → Disagreement
  no_auth_code : Disagreement
  another_code : Text → Text → Disagreement
  -- An earlier reference is kept where the catalogue has none that can be used.
  kept_earlier : Why → Disagreement

unfoldable pub code_disagreements : Context → Record → Option (Text × Text) → List Disagreement
code_disagreements ctx r none = no_auth_code ∷ []
code_disagreements ctx r (some (authority, code)) =
    if ctx.casefold authority == ctx.casefold r.auth_name && code == r.code
    then []
    else another_code authority code ∷ []

-- `_disagreements`
unfoldable pub disagreements : Context → Record → Envelope → List Disagreement
disagreements ctx r e =
    (if e.kind == expected_kind r then [] else another_kind e.kind ∷ [])
    ++ code_disagreements ctx r e.authority_code

abbrev pub stated_authority : Option (Text × Text) → Option Text
stated_authority none = none
stated_authority (some (authority, code)) = some authority

abbrev pub stated_code : Option (Text × Text) → Option Text
stated_code none = none
stated_code (some (authority, code)) = some code

-- `_row`
abbrev pub reference_row : Context → Reader → Text → Text → Envelope → ReferenceRow
reference_row ctx reader id raw e = record {
  key = osdu id;
  reference = record {
    kind = e.kind;
    name = unless_empty e.name;
    stated_auth_name = stated_authority e.authority_code;
    stated_code = stated_code e.authority_code;
    version = unless_empty e.version;
    sha256 = reader.sha256 raw;
    persistable_reference = raw;
    source = some (catalogue_source ctx);
  };
}

-- What becomes of an id: it has no reference, one that cannot be used, or one with the envelope
-- that was read of it.
pub data Assessment : Type 0 where
  unstated unusable : Why → Assessment
  usable : Text → Envelope → Assessment

abbrev pub assess_raw : Reader → Record → Text → Assessment
assess_raw reader r raw = elim (envelope reader r raw) [
  | err why ↦ unusable why
  | ok e ↦ usable raw e
]

abbrev pub assess_payload : Reader → Record → Result Why (Option Text) → Assessment
assess_payload reader r (err why) = unusable why
assess_payload reader r (ok none) = unstated (absence r.reference)
assess_payload reader r (ok (some raw)) = assess_raw reader r raw

abbrev pub assess_texts : Reader → Record → List Text → Assessment
assess_texts reader r [] = assess_payload reader r (payload reader.space r.reference)
assess_texts reader r (raw ∷ []) = assess_raw reader r raw
assess_texts reader r (raw ∷ other ∷ texts) = unusable (several (length (raw ∷ other ∷ texts)))

-- The body of the second loop, up to what it appends: `r` is the record that the id was recorded
-- from, `p` are those that publish it.
unfoldable pub assess : Reader → Record → Published → Assessment
assess reader r p = assess_texts reader r (stated_texts reader.space (speaking (all_of p)))

-- `_entry`
pub record Unreferenced : Type 0 where
  pub identifier : Text
  pub object : ObjectName
  pub name : Text
  pub kind : Text
  pub reason : Why

abbrev pub unreferenced : Text → Record → Why → Unreferenced
unreferenced id r why = record {
  identifier = id;
  object = object_name r;
  name = r.name;
  kind = r.kind;
  reason = why;
}
