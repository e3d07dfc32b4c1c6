-- ===== src/PersistableReference/EsriWkt/Items.antt =====
-- The grammar of an element and the reading of the things in it other than elements
-- (geodetic_engine/persistablereference/esriwkt.py).
use geodetic_engine.Base.{
  ℕ, ◌+◌, ◌≤◌, ◌≡◌, refl, ◌∙◌, Bool, true, false, not, ◌&&◌, ◌||◌, Option, some, [], ◌∷◌, ◌++◌,
  ◌==◌, nat_eq, Text, arith, Result, ok, Bool-cases, inl, inr, length, length-append,
}
use mathlib.Core.List.{append_assoc}
use geodetic_engine.Base.Texts.{all, lstrip, is_empty}
use geodetic_engine.PersistableReference.EsriWkt.{
  Node, element, Child, node, word, string, number, Children, no_more, one_more, WktError, quote,
  max_depth, escaped, rendered, write_rest, number_char, number_start, keyword_char, read_keyword,
  read_number, named_child, first_child,
}
use geodetic_engine.PersistableReference.EsriWkt.Parts.{
  stops, span-append, lstrip-stops, read_string-escaped,
}

module _ (space alnum : ℕ → Bool) (value : Text → Option Text) where
  -- What Python's tests say of the characters of the grammar.
  pub record IsDocumented : Type 0 where
    pub open_space : space b'[' ≡ false
    pub close_space : space b']' ≡ false
    pub comma_space : space b',' ≡ false
    pub quote_space : space quote ≡ false
    pub alnum_space : (c : ℕ) → alnum c ≡ true → space c ≡ false
    pub underscore_space : space b'_' ≡ false
    pub number_space : (c : ℕ) → number_start c ≡ true → space c ≡ false
    pub open_alnum : alnum b'[' ≡ false
    pub close_alnum : alnum b']' ≡ false
    pub comma_alnum : alnum b',' ≡ false
    pub quote_alnum : alnum quote ≡ false

  abbrev pub is_keyword : Text → Bool
  is_keyword t = not (is_empty t) && all (keyword_char space alnum value) t

  abbrev pub starts_number : Text → Bool
  starts_number [] = false
  starts_number (c ∷ t) = number_start c

  -- An element that the grammar can state: keywords and words of the characters of keywords, a word
  -- that does not begin like a number, numbers as `repr` writes them, and no element that is empty or
  -- nested too deep.
  unfoldable mutual
    pub IsNode : ℕ → Node → Type 0
    IsNode depth (element keyword no_more) = ⊥
    IsNode depth (element keyword (one_more c cs)) =
        (is_keyword keyword ≡ true)
        × (starts_number keyword ≡ false)
        × (depth ≤ max_depth)
        × IsChild depth c
        × AreChildren depth cs

    pub IsChild : ℕ → Child → Type 0
    IsChild depth (node n) = IsNode (depth + 1) n
    IsChild depth (word t) = (is_keyword t ≡ true) × (starts_number t ≡ false)
    IsChild depth (string t) = Unit
    IsChild depth (number t) =
        (value t ≡ some t) × (all number_char t ≡ true) × (starts_number t ≡ true)

    pub AreChildren : ℕ → Children → Type 0
    AreChildren depth no_more = Unit
    AreChildren depth (one_more c cs) = IsChild depth c × AreChildren depth cs

  module _ (k : IsDocumented) where
    -- What may follow a child.
    abbrev pub is_separator : Text → Bool
    is_separator [] = false
    is_separator (c ∷ t) = c == b',' || c == b']'

    pub keyword_char-space : (c : ℕ) → keyword_char space alnum value c ≡ true → space c ≡ false
    keyword_char-space c h = elim (Bool-cases (alnum c)) [
      | inl e ↦ k.alnum_space c e
      | inr e ↦ elim (nat_eq.dec c b'_') [
        | yes q ↦ rw q k.underscore_space
        | no n ↦ absurd (ground (arith, h, e, n))
      ]
    ]

    keyword_char-quote : keyword_char space alnum value quote ≡ false
    unfolding nat_eq
    keyword_char-quote = ground (arith, k.quote_alnum)

    not_quote : (c : ℕ) → keyword_char space alnum value c ≡ true → (c == quote) ≡ false
    not_quote c h = elim (nat_eq.dec c quote) [
      | yes q ↦ absurd (ground (arith, q, h, keyword_char-quote))
      | no n ↦ ground (arith, n)
    ]

    -- A keyword is read up to what follows it.
    pub first_child-keyword :
        (t rest : Text) (nested : Text → Text → Result WktError (Node × Text))
        → is_keyword t ≡ true
        → starts_number t ≡ false
        → stops (keyword_char space alnum value) rest ≡ true
        → stops space rest ≡ true
        → first_child space alnum value (lstrip space (t ++ rest)) nested
          ≡ named_child space alnum value t rest nested
    unfolding first_child read_keyword
    first_child-keyword [] rest nested h n s p = absurd (ground (arith, h))
    first_child-keyword (c ∷ t) rest nested h n s p =
        let first : keyword_char space alnum value c ≡ true = ground (arith, h) in
        let plain = keyword_char-space c first in
        rw (lstrip-stops space (c ∷ (t ++ rest)) (ground (arith, plain))) (
          ground (
            arith,
            n,
            not_quote c first,
            lstrip-stops space (c ∷ (t ++ rest)) (ground (arith, plain)),
            span-append (keyword_char space alnum value) (c ∷ t) rest (ground (arith, h)) s,
            lstrip-stops space rest p,
          ))

    separator-stops :
        (p : ℕ → Bool) (rest : Text)
        → p b',' ≡ false
        → p b']' ≡ false
        → is_separator rest ≡ true
        → stops p rest ≡ true
    separator-stops p [] a b h = refl
    separator-stops p (c ∷ t) a b h = elim (nat_eq.dec c b',') [
      | yes q ↦ ground (arith, q, a)
      | no n ↦ elim (nat_eq.dec c b']') [
        | yes q ↦ ground (arith, q, b)
        | no m ↦ absurd (ground (arith, h, n, m))
      ]
    ]

    comma_keyword : keyword_char space alnum value b',' ≡ false
    unfolding nat_eq
    comma_keyword = ground (arith, k.comma_alnum)

    close_keyword : keyword_char space alnum value b']' ≡ false
    unfolding nat_eq
    close_keyword = ground (arith, k.close_alnum)

    pub open_keyword : keyword_char space alnum value b'[' ≡ false
    unfolding nat_eq
    open_keyword = ground (arith, k.open_alnum)

    not_open :
        (t rest : Text) (nested : Text → Text → Result WktError (Node × Text))
        → is_separator rest ≡ true
        → named_child space alnum value t rest nested ≡ ok (word t, rest)
    unfolding named_child nat_eq
    not_open t [] nested s = refl
    not_open t (c ∷ r) nested s = elim (nat_eq.dec c b'[') [
      | yes q ↦ absurd (ground (arith, q, s))
      | no n ↦ ground (arith, n)
    ]

    -- A word is read.
    pub word-read :
        (t rest : Text) (nested : Text → Text → Result WktError (Node × Text))
        → is_keyword t ≡ true
        → starts_number t ≡ false
        → is_separator rest ≡ true
        → first_child space alnum value (lstrip space (t ++ rest)) nested ≡ ok (word t, rest)
    word-read t rest nested h n s =
        first_child-keyword t rest nested h n
          (separator-stops (keyword_char space alnum value) rest comma_keyword close_keyword s)
          (separator-stops space rest k.comma_space k.close_space s)
        ∙ not_open t rest nested s

    pub string-read :
        (t rest : Text) (nested : Text → Text → Result WktError (Node × Text))
        → is_separator rest ≡ true
        → first_child space alnum value (lstrip space (rendered (string t) ++ rest)) nested
          ≡ ok (string t, rest)
    unfolding first_child rendered nat_eq
    string-read t rest nested s =
        rw
          (
            lstrip-stops space ((quote ∷ (escaped t ++ (quote ∷ []))) ++ rest)
                (ground (arith, k.quote_space)),
            append_assoc (escaped t) (quote ∷ []) rest,
            read_string-escaped t rest (separator-stops (λ c. c == quote) rest refl refl s),
          )
          refl

    number_start-quote : (c : ℕ) → number_start c ≡ true → (c == quote) ≡ false
    unfolding nat_eq
    number_start-quote c h = elim (nat_eq.dec c quote) [
      | yes q ↦ absurd (ground (arith, q, h))
      | no n ↦ ground (arith, n)
    ]

    comma_number : number_char b',' ≡ false
    unfolding nat_eq
    comma_number = refl

    close_number : number_char b']' ≡ false
    unfolding nat_eq
    close_number = refl

    pub number-read :
        (t rest : Text) (nested : Text → Text → Result WktError (Node × Text))
        → value t ≡ some t
        → all number_char t ≡ true
        → starts_number t ≡ true
        → is_separator rest ≡ true
        → first_child space alnum value (lstrip space (t ++ rest)) nested ≡ ok (number t, rest)
    unfolding first_child read_number
    number-read [] rest nested a b c s = absurd (ground (arith, c))
    number-read (d ∷ t) rest nested a b c s =
        rw (lstrip-stops space (d ∷ (t ++ rest)) (ground (arith, k.number_space d c))) (
          ground (
            arith,
            c,
            a,
            number_start-quote d c,
            span-append number_char (d ∷ t) rest b
                (separator-stops number_char rest comma_number close_number s),
          ))

    pub rest-separator : (cs : Children) (rest : Text) → is_separator (write_rest cs ++ rest) ≡ true
    unfolding write_rest nat_eq
    rest-separator no_more rest = refl
    rest-separator (one_more c cs) rest = refl

    pub keyword_pos : (t : Text) → is_keyword t ≡ true → 1 ≤ length t
    keyword_pos [] h = absurd (ground (arith, h))
    keyword_pos (c ∷ t) h = omega arith

    pub rendered_pos : (depth : ℕ) (c : Child) → IsChild depth c → 1 ≤ length (rendered c)
    unfolding rendered IsChild
    rendered_pos depth (node (element keyword no_more)) h = elim h [ ]
    rendered_pos depth (node (element keyword (one_more c cs))) h = omega (
      arith,
      keyword_pos keyword h.0,
      length-append keyword (b'[' ∷ (rendered c ++ write_rest cs)),
    )
    rendered_pos depth (word t) h = keyword_pos t h.0
    rendered_pos depth (string t) h = omega arith
    rendered_pos depth (number []) h = absurd (ground (arith, h))
    rendered_pos depth (number (c ∷ t)) h = omega arith

    pub write_rest_pos : (cs : Children) → 1 ≤ length (write_rest cs)
    unfolding write_rest
    write_rest_pos no_more = omega arith
    write_rest_pos (one_more c cs) = omega arith
