-- ===== src/PersistableReference/EsriWkt.antt =====
-- Reading and writing the ESRI dialect of WKT
-- (geodetic_engine/persistablereference/esriwkt.py). A number is given by how `repr` writes it.
pub mod Parts
pub mod Items
pub mod RoundTrip
pub mod Fuel
use geodetic_engine.Base.{
  ℕ, zero, suc, ◌+◌, ◌^◌, Bool, true, false, not, ◌&&◌, ◌||◌, Option, none, some, List, [], ◌∷◌,
  ◌++◌, ◌==◌, contains, nat_eq, Text, codes, if◌then◌else◌, length, ltb, Result, ok, err, ◌>>=◌,
}
use geodetic_engine.Base.Texts.{is_empty, lstrip}

-- `Node` and `Child`
mutual
  pub data Node : Type 0 where
    element : Text → Children → Node

  pub data Child : Type 0 where
    node : Node → Child
    word string number : Text → Child

  pub data Children : Type 0 where
    no_more : Children
    one_more : Child → Children → Children

-- `MalformedReferenceError`, by what is wrong; the last one is no error of the code.
pub data WktError : Type 0 where
  too_long too_deep malformed no_fuel : WktError

abbrev pub quote : ℕ
quote = b'"'

abbrev pub max_length : ℕ
max_length = 2 ^ 20

abbrev pub max_depth : ℕ
max_depth = 32

-- A quote inside a string is written twice.
unfoldable pub escaped : Text → Text
escaped [] = []
escaped (c ∷ t) = let rest = escaped t in if c == quote then quote ∷ quote ∷ rest else c ∷ rest

-- `write` and `_rendered`
unfoldable mutual
  pub write : Node → Text
  write (element keyword children) = keyword ++ (b'[' ∷ write_children children)

  pub rendered : Child → Text
  rendered (node n) = write n
  rendered (word t) = t
  rendered (string t) = quote ∷ (escaped t ++ (quote ∷ []))
  rendered (number t) = t

  pub write_children : Children → Text
  write_children no_more = b']' ∷ []
  write_children (one_more c cs) = rendered c ++ write_rest cs

  pub write_rest : Children → Text
  write_rest no_more = b']' ∷ []
  write_rest (one_more c cs) = b',' ∷ (rendered c ++ write_rest cs)

-- The longest beginning of a text whose characters satisfy a test, and what follows it.
unfoldable pub span : (ℕ → Bool) → Text → Text × Text
span p [] = ([], [])
span p (c ∷ t) = let rest = span p t in if p c then (c ∷ rest.0, rest.1) else ([], c ∷ t)

abbrev pub number_char : ℕ → Bool
number_char c = contains (codes "0123456789+-.eE") c

abbrev pub number_start : ℕ → Bool
number_start c = contains (codes "0123456789+-.") c

abbrev pub cons_read : ℕ → Result WktError (Text × Text) → Result WktError (Text × Text)
cons_read c (ok (t, rest)) = ok (c ∷ t, rest)
cons_read c (err e) = err e

-- `_string`, behind the opening quote: whether the last character was a quote, of which a second
-- one would make one inside the string.
unfoldable pub read_string : Bool → Text → Result WktError (Text × Text)
read_string true [] = ok ([], [])
read_string false [] = err malformed
read_string true (c ∷ t) =
    let rest = read_string false t in if c == quote then cons_read quote rest else ok ([], c ∷ t)
read_string false (c ∷ t) =
    let plain = read_string false t in
    let quoted = read_string true t in if c == quote then quoted else cons_read c plain

-- `str.isspace` and `str.isalnum`, and the number that a literal is read as, by how it is written.
module _ (space alnum : ℕ → Bool) (value : Text → Option Text) where
  abbrev pub keyword_char : ℕ → Bool
  keyword_char c = alnum c || c == b'_'

  abbrev pub unless_none : Text × Text → Result WktError (Text × Text)
  unless_none ([], rest) = err malformed
  unless_none (c ∷ t, rest) = ok (c ∷ t, rest)

  -- `_keyword`
  unfoldable pub read_keyword : Text → Result WktError (Text × Text)
  read_keyword t = unless_none (span keyword_char (lstrip space t))

  -- `_number`
  unfoldable pub read_number : Text → Result WktError (Child × Text)
  read_number t = elim (value (span number_char t).0) [
    | none ↦ err malformed
    | some literal ↦ ok (number literal, (span number_char t).1)
  ]

  -- `_take`, behind the space
  unfoldable pub take : ℕ → Text → Result WktError Text
  take d [] = err malformed
  take d (c ∷ t) = if c == d then ok t else err malformed

  abbrev pub as_string : Result WktError (Text × Text) → Result WktError (Child × Text)
  as_string (ok (t, rest)) = ok (string t, rest)
  as_string (err e) = err e

  abbrev pub as_node : Result WktError (Node × Text) → Result WktError (Child × Text)
  as_node (ok (n, rest)) = ok (node n, rest)
  as_node (err e) = err e

  -- Whether a character comes next.
  abbrev pub starts : ℕ → Text → Bool
  starts d [] = false
  starts d (c ∷ t) = c == d

  abbrev pub after_first : Text → Text
  after_first [] = []
  after_first (c ∷ t) = t

  -- What a keyword is the start of: an element if a bracket follows, or else a word.
  unfoldable pub named_child :
      Text → Text → (Text → Text → Result WktError (Node × Text)) → Result WktError (Child × Text)
  named_child keyword t nested =
      if starts b'[' t then as_node (nested keyword t) else ok (word keyword, t)

  -- `_child`, by its first character and a reader of elements
  unfoldable pub first_child :
      Text → (Text → Text → Result WktError (Node × Text)) → Result WktError (Child × Text)
  first_child [] nested = err malformed
  first_child (c ∷ t) nested =
      if c == quote
      then as_string (read_string false t)
      else if number_start c
      then read_number (c ∷ t)
      else read_keyword (c ∷ t) >>= λ k. named_child k.0 (lstrip space k.1) nested

  -- `_Scanner.node` behind its keyword, with `_child` and the loop over the children.
  unfoldable mutual
    pub read_node : ℕ → ℕ → Text → Text → Result WktError (Node × Text)
    read_node zero depth keyword t = err no_fuel
    read_node (suc f) depth keyword t =
        let inside =
          (take b'[' (lstrip space t) >>= λ t₁. read_child f depth t₁ >>= λ first.
          read_rest f depth first.1 >>= λ rest.
          ok (element keyword (one_more first.0 rest.0), rest.1)) in
        if ltb max_depth depth then err too_deep else inside

    pub read_child : ℕ → ℕ → Text → Result WktError (Child × Text)
    read_child zero depth t = err no_fuel
    read_child (suc f) depth t =
        first_child (lstrip space t) (λ keyword rest. read_node f (depth + 1) keyword rest)

    pub read_rest : ℕ → ℕ → Text → Result WktError (Children × Text)
    read_rest zero depth t = err no_fuel
    read_rest (suc f) depth t =
        let more =
          (read_child f depth (after_first (lstrip space t)) >>= λ next.
          read_rest f depth next.1 >>= λ rest. ok (one_more next.0 rest.0, rest.1)) in
        if starts b',' (lstrip space t)
        then more
        else take b']' (lstrip space t) >>= λ t₁. ok (no_more, t₁)

  abbrev pub to_the_end : Node × Text → Result WktError Node
  to_the_end (n, t) = if is_empty (lstrip space t) then ok n else err malformed

  -- `read`, with the length of the text as fuel: a character is taken before each call.
  unfoldable pub read : Text → Result WktError Node
  read t =
      if ltb max_length (length t)
      then err too_long
      else read_keyword t >>= λ k. read_node (length t) 1 k.0 k.1 >>= λ out. to_the_end out
