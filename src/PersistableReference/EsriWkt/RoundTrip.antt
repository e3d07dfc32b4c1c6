-- ===== src/PersistableReference/EsriWkt/RoundTrip.antt =====
-- An element is read back as it was written (geodetic_engine/persistablereference/esriwkt.py).
use geodetic_engine.Base.{
  ℕ, zero, suc, ◌+◌, ◌≤◌, ◌≡◌, refl, ◌∙◌, Bool, true, Option, [], ◌∷◌, ◌++◌, nat_eq, Text, arith,
  ok, length, length-append,
}
use mathlib.Core.List.{append_assoc, append-nil}
use geodetic_engine.Base.Texts.{lstrip}
use geodetic_engine.PersistableReference.EsriWkt.{
  Node, element, Child, node, word, string, number, Children, no_more, one_more, max_depth,
  max_length, write, rendered, write_children, write_rest, keyword_char, read_keyword, take,
  named_child, read_node, read_child, read_rest, read,
}
use geodetic_engine.PersistableReference.EsriWkt.Parts.{stops, span-append, lstrip-stops}
use geodetic_engine.PersistableReference.EsriWkt.Items.{
  IsDocumented, is_keyword, IsNode, IsChild, AreChildren, is_separator, keyword_char-space,
  first_child-keyword, open_keyword, word-read, string-read, number-read, rest-separator,
  keyword_pos, rendered_pos, write_rest_pos,
}

module _ (space alnum : ℕ → Bool) (value : Text → Option Text)
    (k : IsDocumented space alnum value) where
  mutual
    unfolding read_node read_child read_rest write rendered write_rest write_children IsNode take
        named_child nat_eq

    read_node-write :
        (f depth : ℕ) (keyword : Text) (c : Child) (cs : Children) (rest : Text)
        → IsChild space alnum value depth c
        → AreChildren space alnum value depth cs
        → depth ≤ max_depth
        → length (rendered c ++ write_rest cs) + 1 ≤ f
        → read_node space alnum value f depth keyword
            (b'[' ∷ ((rendered c ++ write_rest cs) ++ rest))
          ≡ ok (element keyword (one_more c cs), rest)
    read_node-write zero depth keyword c cs rest h hs d l = absurd (omega (arith, l))
    read_node-write (suc f) depth keyword c cs rest h hs d l = ground (
      arith,
      d,
      lstrip-stops space (b'[' ∷ ((rendered c ++ write_rest cs) ++ rest))
          (ground (arith, k.open_space)),
      append_assoc (rendered c) (write_rest cs) rest,
      read_child-rendered f depth c (write_rest cs ++ rest) h
          (omega (arith, l, length-append (rendered c) (write_rest cs)))
          (rest-separator space alnum value k cs rest),
      read_rest-write_rest f depth cs rest hs
          (omega (arith, l, length-append (rendered c) (write_rest cs))),
    )

    read_child-rendered :
        (f depth : ℕ) (c : Child) (rest : Text)
        → IsChild space alnum value depth c
        → length (rendered c) ≤ f
        → is_separator space alnum value k rest ≡ true
        → read_child space alnum value f depth (rendered c ++ rest) ≡ ok (c, rest)
    read_child-rendered zero depth c rest h l s =
        absurd (omega (arith, l, rendered_pos space alnum value k depth c h))
    read_child-rendered (suc f) depth (node (element keyword no_more)) rest h l s = elim h [ ]
    read_child-rendered (suc f) depth (node (element keyword (one_more c cs))) rest (a, b, d, h, hs)
          l s =
        let inside = b'[' ∷ ((rendered c ++ write_rest cs) ++ rest) in
        let nested = λ (name : Text) (t : Text). read_node space alnum value f (depth + 1) name t in
        let inner = read_node-write f (depth + 1) keyword c cs rest h hs d (
          omega (
            arith,
            l,
            keyword_pos space alnum value k keyword a,
            length-append keyword (b'[' ∷ (rendered c ++ write_rest cs)),
          )) in
        rw (append_assoc keyword (b'[' ∷ (rendered c ++ write_rest cs)) rest) (
          first_child-keyword space alnum value k keyword inside nested a b
            (ground (arith, open_keyword space alnum value k)) (ground (arith, k.open_space))
          ∙ ground (arith, inner))
    read_child-rendered (suc f) depth (word t) rest (a, b) l s =
        word-read space alnum value k t rest _ a b s
    read_child-rendered (suc f) depth (string t) rest h l s =
        string-read space alnum value k t rest _ s
    read_child-rendered (suc f) depth (number t) rest (a, b, c) l s =
        number-read space alnum value k t rest _ a b c s

    read_rest-write_rest :
        (f depth : ℕ) (cs : Children) (rest : Text)
        → AreChildren space alnum value depth cs
        → length (write_rest cs) ≤ f
        → read_rest space alnum value f depth (write_rest cs ++ rest) ≡ ok (cs, rest)
    read_rest-write_rest zero depth cs rest h l =
        absurd (omega (arith, l, write_rest_pos space alnum value k cs))
    read_rest-write_rest (suc f) depth no_more rest h l =
        ground (arith, lstrip-stops space (b']' ∷ rest) (ground (arith, k.close_space)))
    read_rest-write_rest (suc f) depth (one_more c cs) rest (h, hs) l = ground (
      arith,
      lstrip-stops space (b',' ∷ ((rendered c ++ write_rest cs) ++ rest))
          (ground (arith, k.comma_space)),
      append_assoc (rendered c) (write_rest cs) rest,
      read_child-rendered f depth c (write_rest cs ++ rest) h
          (omega (arith, l, length-append (rendered c) (write_rest cs)))
          (rest-separator space alnum value k cs rest),
      read_rest-write_rest f depth cs rest hs
          (omega (arith, l, length-append (rendered c) (write_rest cs))),
    )

  read_keyword-append :
      (t rest : Text)
      → is_keyword space alnum value t ≡ true
      → stops (keyword_char space alnum value) rest ≡ true
      → read_keyword space alnum value (t ++ rest) ≡ ok (t, rest)
  unfolding read_keyword
  read_keyword-append [] rest h s = absurd (ground (arith, h))
  read_keyword-append (c ∷ t) rest h s =
      rw
        (
          lstrip-stops space (c ∷ (t ++ rest))
              (ground (arith, keyword_char-space space alnum value k c (ground (arith, h)))),
          span-append (keyword_char space alnum value) (c ∷ t) rest (ground (arith, h)) s,
        )
        refl

  -- `read` gives back the element that `write` rendered, where the element can be stated in the
  -- grammar, nests no deeper than 32 levels and is written in at most 2 ^ 20 characters.
  pub read-write :
      (n : Node)
      → IsNode space alnum value 1 n
      → length (write n) ≤ max_length
      → read space alnum value (write n) ≡ ok n
  unfolding read write IsNode lstrip
  read-write (element keyword no_more) h l = elim h [ ]
  read-write (element keyword (one_more c cs)) (a, b, d, h, hs) l =
      let inside = rendered c ++ write_rest cs in
      let size = length-append keyword (b'[' ∷ inside) in
      let inner =
        read_node-write (length (keyword ++ (b'[' ∷ inside))) 1 keyword c cs [] h hs d
          (omega (arith, size, keyword_pos space alnum value k keyword a)) in
      ground (
        arith,
        l,
        read_keyword-append keyword (b'[' ∷ inside) a
            (ground (arith, open_keyword space alnum value k)),
        append-nil inside,
        inner,
      )
