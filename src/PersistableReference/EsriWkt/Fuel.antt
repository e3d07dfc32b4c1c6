-- ===== src/PersistableReference/EsriWkt/Fuel.antt =====
-- The fuel of `read` does not run out (geodetic_engine/persistablereference/esriwkt.py).
use geodetic_engine.Base.{
  ℕ, zero, suc, ◌+◌, ◌≤◌, ◌≡◌, ◌≢◌, Bool, true, false, Option, [], ◌∷◌, ◌==◌, nat_eq,
  contains-append, codes, Text, arith, Result, ok, err, ◌>>=◌, Bool-cases, Option-cases, inl, inr,
  length, ltb,
}
use geodetic_engine.Base.Texts.{lstrip, is_empty}
use geodetic_engine.PersistableReference.EsriWkt.{
  Node, WktError, malformed, no_fuel, quote, max_depth, max_length, span, number_char, number_start,
  read_string, keyword_char, unless_none, read_keyword, read_number, take, starts, as_string,
  as_node, after_first, named_child, first_child, read_node, read_child, read_rest, read,
  to_the_end, cons_read,
}

-- What is left of a text of some length, where a reading succeeds; a failure is not one of fuel.
abbrev Ends : {A : Type 0} → ℕ → Result WktError (A × Text) → Type 0
Ends n (ok (a, rest)) = length rest + 1 ≤ n
Ends n (err e) = e ≢ no_fuel

Ends-le : {A : Type 0} (m n : ℕ) (r : Result WktError (A × Text)) → m ≤ n → Ends m r → Ends n r
Ends-le m n (ok (a, rest)) h e = omega (arith, h, e)
Ends-le m n (err x) h e = e

Ends-bind :
    {A B : Type 0} (n : ℕ) (r : Result WktError (A × Text))
    (next : A × Text → Result WktError (B × Text))
    → Ends n r
    → ((a : A) (rest : Text) → length rest + 1 ≤ n → Ends n (next (a, rest)))
    → Ends n (r >>= next)
Ends-bind n (ok (a, rest)) next e f = f a rest e
Ends-bind n (err x) next e f = e

span-length : (p : ℕ → Bool) (t : Text) → length (span p t).1 ≤ length t
unfolding span
span-length p [] = omega arith
span-length p (c ∷ t) = ground (arith, span-length p t)

lstrip-length : (space : ℕ → Bool) (t : Text) → length (lstrip space t) ≤ length t
unfolding lstrip
lstrip-length space [] = omega arith
lstrip-length space (c ∷ t) = ground (arith, lstrip-length space t)

Ends-cons_read : (c n : ℕ) (r : Result WktError (Text × Text)) → Ends n r → Ends n (cons_read c r)
Ends-cons_read c n (ok (t, rest)) h = h
Ends-cons_read c n (err e) h = h

not_fuel : malformed ≢ no_fuel
not_fuel e = cc

read_string-Ends : (b : Bool) (t : Text) → Ends (length t + 1) (read_string b t)
unfolding read_string
read_string-Ends true [] = omega arith
read_string-Ends false [] = not_fuel
read_string-Ends true (c ∷ t) = elim (Bool-cases (c == quote)) [
  | inl e ↦ rw e (
      Ends-cons_read quote _ (read_string false t) (
        Ends-le (length t + 1) (length (c ∷ t) + 1) (read_string false t) (omega arith)
          (read_string-Ends false t)))
  | inr e ↦ rw e (omega arith)
]
read_string-Ends false (c ∷ t) = elim (Bool-cases (c == quote)) [
  | inl e ↦ rw e (
      Ends-le (length t + 1) (length (c ∷ t) + 1) (read_string true t) (omega arith)
        (read_string-Ends true t))
  | inr e ↦ rw e (
      Ends-cons_read c _ (read_string false t) (
        Ends-le (length t + 1) (length (c ∷ t) + 1) (read_string false t) (omega arith)
          (read_string-Ends false t)))
]

number_start-char : (c : ℕ) → number_start c ≡ true → number_char c ≡ true
number_start-char c h = ground (arith, h, contains-append (codes "0123456789+-.") (codes "eE") c)

module _ (space alnum : ℕ → Bool) (value : Text → Option Text) where
  Ends-unless_none :
      (t : Text) (p : ℕ → Bool) → Ends (length t) (unless_none space alnum value (span p t))
  unfolding span
  Ends-unless_none [] p = not_fuel
  Ends-unless_none (c ∷ t) p = elim (Bool-cases (p c)) [
    | inl e ↦ rw e (omega (arith, span-length p t))
    | inr e ↦ rw e not_fuel
  ]

  read_keyword-Ends : (t : Text) → Ends (length t) (read_keyword space alnum value t)
  unfolding read_keyword
  read_keyword-Ends t =
      Ends-le (length (lstrip space t)) (length t) _ (lstrip-length space t)
        (Ends-unless_none (lstrip space t) (keyword_char space alnum value))

  read_number-Ends :
      (c : ℕ) (t : Text)
      → number_start c ≡ true
      → Ends (length (c ∷ t)) (read_number space alnum value (c ∷ t))
  unfolding read_number span
  read_number-Ends c t h =
      let first = number_start-char c h in
      elim (Option-cases (value (span number_char (c ∷ t)).0)) [
        | inl e ↦ rw (e, read_number) not_fuel
        | inr (literal, e) ↦
            rw (e, read_number) (rw first (omega (arith, span-length number_char t)))
      ]

  Ends-take :
      {B : Type 0} (d n : ℕ) (t : Text) (next : Text → Result WktError (B × Text))
      → length t ≤ n
      → ((rest : Text) → length rest + 1 ≤ n → Ends n (next rest))
      → Ends n (take space alnum value d t >>= next)
  unfolding take
  Ends-take d n [] next h f = not_fuel
  Ends-take d n (c ∷ t) next h f = elim (Bool-cases (c == d)) [
    | inl e ↦ rw e (f t (omega (arith, h)))
    | inr e ↦ rw e not_fuel
  ]

  Ends-as_string :
      (n : ℕ) (r : Result WktError (Text × Text))
      → Ends n r
      → Ends n (as_string space alnum value r)
  Ends-as_string n (ok (t, rest)) h = h
  Ends-as_string n (err e) h = h

  Ends-as_node :
      (n : ℕ) (r : Result WktError (Node × Text)) → Ends n r → Ends n (as_node space alnum value r)
  Ends-as_node n (ok (t, rest)) h = h
  Ends-as_node n (err e) h = h

  named_child-Ends :
      (n : ℕ) (keyword t : Text) (nested : Text → Text → Result WktError (Node × Text))
      → length t + 1 ≤ n
      → Ends n (nested keyword t)
      → Ends n (named_child space alnum value keyword t nested)
  unfolding named_child
  named_child-Ends n keyword t nested h ends = elim (Bool-cases (starts space alnum value b'[' t)) [
    | inl e ↦ rw e (Ends-as_node n (nested keyword t) ends)
    | inr e ↦ rw e h
  ]

  first_child-Ends :
      (t : Text) (nested : Text → Text → Result WktError (Node × Text))
      → ((keyword rest : Text) → length rest + 1 ≤ length t → Ends (length t) (nested keyword rest))
      → Ends (length t) (first_child space alnum value t nested)
  unfolding first_child
  first_child-Ends [] nested h = not_fuel
  first_child-Ends (c ∷ t) nested h = elim (Bool-cases (c == quote)) [
    | inl e ↦ rw e (
        Ends-as_string (length (c ∷ t)) (read_string false t) (
          Ends-le (length t + 1) (length (c ∷ t)) (read_string false t) (omega arith)
            (read_string-Ends false t)))
    | inr e ↦ rw e (elim (Bool-cases (number_start c)) [
      | inl s ↦ rw s (read_number-Ends c t s)
      | inr s ↦ rw s (
          Ends-bind (length (c ∷ t)) (read_keyword space alnum value (c ∷ t)) _
            (read_keyword-Ends (c ∷ t))
            (λ keyword rest shorter.
              let less = lstrip-length space rest in
              named_child-Ends (length (c ∷ t)) keyword (lstrip space rest) nested
                (omega (arith, less, shorter))
                (h keyword (lstrip space rest) (omega (arith, less, shorter)))))
    ])
  ]

  starts-shorter :
      (d : ℕ) (t : Text)
      → starts space alnum value d t ≡ true
      → length (after_first space alnum value t) + 1 ≤ length t
  starts-shorter d [] h = absurd (cc h)
  starts-shorter d (c ∷ t) h = omega arith

  mutual
    unfolding read_node read_child read_rest

    read_node-Ends :
        (f depth : ℕ) (keyword t : Text)
        → length t + 1 ≤ f
        → Ends (length t) (read_node space alnum value f depth keyword t)
    read_node-Ends zero depth keyword t h = absurd (omega (arith, h))
    read_node-Ends (suc f) depth keyword t h = elim (Bool-cases (ltb max_depth depth)) [
      | inl e ↦ rw e (λ q. cc q)
      | inr e ↦ rw e (
          Ends-take b'[' (length t) (lstrip space t) _ (lstrip-length space t) (λ t₁ h₁.
            Ends-bind (length t) (read_child space alnum value f depth t₁) _
              (Ends-le (length t₁) (length t) _ (omega (arith, h₁))
                (read_child-Ends f depth t₁ (omega (arith, h, h₁))))
              (λ first t₂ h₂.
                Ends-bind (length t) (read_rest space alnum value f depth t₂) _
                  (Ends-le (length t₂) (length t) _ (omega (arith, h₂))
                    (read_rest-Ends f depth t₂ (omega (arith, h, h₂))))
                  (λ rest t₃ h₃. h₃))))
    ]

    read_child-Ends :
        (f depth : ℕ) (t : Text)
        → length t + 1 ≤ f
        → Ends (length t) (read_child space alnum value f depth t)
    read_child-Ends zero depth t h = absurd (omega (arith, h))
    read_child-Ends (suc f) depth t h =
        let less = lstrip-length space t in
        Ends-le (length (lstrip space t)) (length t) _ less (
          first_child-Ends (lstrip space t) _ (λ keyword rest h₁.
            Ends-le (length rest) (length (lstrip space t)) _ (omega (arith, h₁))
              (read_node-Ends f (depth + 1) keyword rest (omega (arith, h, h₁, less)))))

    read_rest-Ends :
        (f depth : ℕ) (t : Text)
        → length t + 1 ≤ f
        → Ends (length t) (read_rest space alnum value f depth t)
    read_rest-Ends zero depth t h = absurd (omega (arith, h))
    read_rest-Ends (suc f) depth t h =
        let less = lstrip-length space t in
        elim (Bool-cases (starts space alnum value b',' (lstrip space t))) [
          | inl e ↦ rw e (
              let shorter = starts-shorter b',' (lstrip space t) e in
              let t₁ = after_first space alnum value (lstrip space t) in
              Ends-bind (length t) (read_child space alnum value f depth t₁) _
                (Ends-le (length t₁) (length t) _ (omega (arith, less, shorter))
                  (read_child-Ends f depth t₁ (omega (arith, h, less, shorter))))
                (λ next t₂ h₂.
                  Ends-bind (length t) (read_rest space alnum value f depth t₂) _
                    (Ends-le (length t₂) (length t) _ (omega (arith, h₂))
                      (read_rest-Ends f depth t₂ (omega (arith, h, h₂))))
                    (λ rest t₃ h₃. h₃)))
          | inr e ↦ rw e (Ends-take b']' (length t) (lstrip space t) _ less (λ t₁ h₁. h₁))
        ]

  Ends-final :
      {A B : Type 0} (n : ℕ) (r : Result WktError (A × Text)) (next : A × Text → Result WktError B)
      → Ends n r
      → ((a : A) (rest : Text) → length rest + 1 ≤ n → next (a, rest) ≢ err no_fuel)
      → (r >>= next) ≢ err no_fuel
  Ends-final n (ok (a, rest)) next e f = f a rest e
  Ends-final n (err x) next e f = λ q. e (cc q)

  to_the_end_returns : (n : Node) (t : Text) → to_the_end space alnum value (n, t) ≢ err no_fuel
  to_the_end_returns n t = elim (Bool-cases (is_empty (lstrip space t))) [
    | inl e ↦ rw e (λ q. cc q)
    | inr e ↦ rw e (λ q. cc q)
  ]

  -- Whatever the text, `read` does not run out of fuel: it gives an element or an error of the
  -- source.
  pub read_returns : (t : Text) → read space alnum value t ≢ err no_fuel
  unfolding read
  read_returns t = elim (Bool-cases (ltb max_length (length t))) [
    | inl e ↦ rw e (λ q. cc q)
    | inr e ↦ rw e (
        Ends-final (length t) (read_keyword space alnum value t) _ (read_keyword-Ends t)
          (λ keyword rest shorter.
            Ends-final (length t) (read_node space alnum value (length t) 1 keyword rest) _
              (Ends-le (length rest) (length t) _ (omega (arith, shorter))
                (read_node-Ends (length t) 1 keyword rest shorter))
              (λ n t₁ h. to_the_end_returns n t₁)))
  ]
