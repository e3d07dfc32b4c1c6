-- ===== src/Georepository/Pages/Completeness.antt =====
-- The enumeration ends, and what it yields when it returns is complete
-- (geodetic_engine/georepository/client.py).
use geodetic_engine.Base.{
  ℕ, zero, suc, ◌+◌, ◌-◌, ◌≤◌, ◌<◌, ◌≡◌, ◌≢◌, refl, ap, Bool, true, false, Option, none, some, List,
  [], ◌∷◌, ◌++◌, Eq, if◌then◌else◌, map, Result, ok, err, leb, leb→le, length, length-append, arith,
  Result-cases, inl, inr,
}
use geodetic_engine.Base.Texts.{is_empty}
use native.Mathlib.Numerals.{add-one}
use geodetic_engine.Georepository.Pages.{
  Page, complete, repeated_page, short, out_of_fuel, Outcome, select, repeats, finish, advertised,
  first_total, pages, iter_collection,
}

pub select-append :
    {A : Type 0} (wanted : A → Bool) (xs ys : List A)
    → select wanted (xs ++ ys) ≡ select wanted xs ++ select wanted ys
select-append wanted [] ys = refl
select-append wanted (x ∷ xs) ys = ground (arith, select-append wanted xs ys)

-- The items of the first pages, up to one that is refused.
abbrev pub served : {E A : Type 0} → (ℕ → Result E (Page A)) → ℕ → List A
served request zero = []
served request (suc n) = elim (request n) [
  | err x ↦ served request n
  | ok p ↦ served request n ++ p.results
]

module _ {E A K : Type 0} ⦃e : Eq K⦄ (key : A → K) (wanted : A → Bool)
    (request : ℕ → Result E (Page A)) where
  -- What a page that is read leads to, but for the page's own tests.
  abbrev rest : ℕ → Page A → ℕ → ℕ → ℕ → List A → Outcome E A
  rest fuel p page collected total out =
      pages key wanted request fuel (page + 1) (collected + length p.results) (some total)
        (some (map key p.results)) (out ++ select wanted p.results)

  finish-ending :
      (total collected : ℕ) (out : List A)
      → (finish {E = E} total collected out).ending ≢ out_of_fuel
  unfolding finish
  finish-ending total collected out = ground arith

  positive : (xs : List A) → is_empty xs ≡ false → 0 < length xs
  positive [] h = absurd (ground arith)
  positive (x ∷ xs) h = omega arith

  -- A page that is read: its tests, once `total` is known.
  pages_read :
      (P : Outcome E A → Type 0) (fuel page collected : ℕ) (total : Option ℕ)
      (previous : Option (List K)) (out : List A) (p : Page A)
      → request page ≡ ok p
      → (is_empty p.results ≡ true → P (finish (advertised total p) collected out))
      → P (record { yielded = out; ending = repeated_page })
      → (advertised total p ≤ collected + length p.results
          → P (
              finish
                (advertised total p)
                (collected + length p.results)
                (out ++ select wanted p.results)))
      → (0 < length p.results
          → collected + length p.results < advertised total p
          → P (rest fuel p page collected (advertised total p) out))
      → P (pages key wanted request (suc fuel) page collected total previous out)
  unfolding pages
  pages_read P fuel page collected total previous out p f when_empty when_same when_done when_more =
      rw (f, pages) (split (is_empty p.results) refl)
    where
      third :
          (b : Bool)
          → is_empty p.results ≡ false
          → leb (advertised total p) (collected + length p.results) ≡ b
          → P (
              if b
              then finish
                  (advertised total p)
                  (collected + length p.results)
                  (out ++ select wanted p.results)
              else rest fuel p page collected (advertised total p) out)
      third true e g = when_done (leb→le _ _ g)
      third false e g = when_more (positive p.results e) (ground arith)

      second :
          (b : Bool)
          → is_empty p.results ≡ false
          → P (
              if b
              then record { yielded = out; ending = repeated_page }
              else if leb (advertised total p) (collected + length p.results)
              then finish
                  (advertised total p)
                  (collected + length p.results)
                  (out ++ select wanted p.results)
              else rest fuel p page collected (advertised total p) out)
      second true e = when_same
      second false e = third _ e refl

      split :
          (b : Bool)
          → is_empty p.results ≡ b
          → P (
              if b
              then finish (advertised total p) collected out
              else if repeats (map key p.results) previous
              then record { yielded = out; ending = repeated_page }
              else if leb (advertised total p) (collected + length p.results)
              then finish
                  (advertised total p)
                  (collected + length p.results)
                  (out ++ select wanted p.results)
              else rest fuel p page collected (advertised total p) out)
      split true e = when_empty e
      split false e = second _ e

  pages_fuel :
      (fuel page collected total : ℕ) (previous : Option (List K)) (out : List A)
      → total - collected < fuel
      → (pages key wanted request fuel page collected (some total) previous out).ending
        ≢ out_of_fuel
  unfolding pages
  pages_fuel zero page collected total previous out h = absurd (omega arith)
  pages_fuel (suc fuel) page collected total previous out h = elim (Result-cases (request page)) [
    | inr (x, f) ↦ rw (f, pages) (ground arith)
    | inl (p, f) ↦
        pages_read (λ o. o.ending ≢ out_of_fuel) fuel page collected (some total) previous out p f
          (λ g. finish-ending total collected out) (ground arith) (λ g. finish-ending total _ _)
          (λ a b. pages_fuel fuel (page + 1) _ total _ _ (omega arith))
  ]

  served-next :
      (n : ℕ) (p : Page A)
      → request n ≡ ok p
      → served request (n + 1) ≡ served request n ++ p.results
  served-next n p f = rw add-one (ground arith)

  -- What an outcome says of the pages: it yields the selected items of the first of them, and how
  -- it ends says whether these hold as many items as were advertised.
  abbrev pub Accounts : ℕ → Outcome E A → Type 0
  Accounts total o =
      (n : ℕ) × (o.yielded ≡ select wanted (served request n))
      × (o.ending ≡ complete → total ≤ length (served request n))
      × (o.ending ≡ short → length (served request n) < total)

  finish-Accounts :
      (total collected n : ℕ) (out : List A)
      → out ≡ select wanted (served request n)
      → collected ≡ length (served request n)
      → Accounts total (finish total collected out)
  unfolding finish
  finish-Accounts total collected n out a b = (n, ground arith, ground arith, ground arith)

  pages-Accounts :
      (fuel page collected total : ℕ) (seen : Option ℕ) (previous : Option (List K)) (out : List A)
      → ((p : Page A) → request page ≡ ok p → advertised seen p ≡ total)
      → out ≡ select wanted (served request page)
      → collected ≡ length (served request page)
      → Accounts total (pages key wanted request fuel page collected seen previous out)
  unfolding pages
  pages-Accounts zero page collected total seen previous out t a b =
      (page, a, ground arith, ground arith)
  pages-Accounts (suc fuel) page collected total seen previous out t a b =
      elim (Result-cases (request page)) [
        | inr (x, f) ↦ rw (f, pages) (page, a, ground arith, ground arith)
        | inl (p, f) ↦
            let next : served request (page + 1) ≡ served request page ++ p.results =
              served-next page p f in
            let a' : out ++ select wanted p.results ≡ select wanted (served request (page + 1)) =
              rw (next, select-append) (ap (λ l. l ++ select wanted p.results) a) in
            let b' : collected + length p.results ≡ length (served request (page + 1)) =
              rw (next, length-append) (omega arith) in
            pages_read (Accounts total) fuel page collected seen previous out p f
              (λ g. rw (t p f) (finish-Accounts total collected page out a b))
              (page, a, ground arith, ground arith)
              (λ g. rw (t p f) (finish-Accounts total _ (page + 1) _ a' b'))
              (λ x y.
                rw (t p f)
                  (pages-Accounts fuel (page + 1) _ total (some total) _ _ (λ q h. refl) a' b'))
      ]

  first-total : (p : Page A) → request 0 ≡ ok p → advertised none p ≡ first_total request
  unfolding first_total
  first-total p f = ground arith

  -- The enumeration of a collection ends: a page more than the first page's total is fuel enough,
  -- whatever the server answers.
  pub iter_collection_ends : (iter_collection key wanted request).ending ≢ out_of_fuel
  unfolding iter_collection
  iter_collection_ends = elim (Result-cases (request 0)) [
    | inr (x, f) ↦ rw (f, pages) (ground arith)
    | inl (p, f) ↦
        pages_read (λ o. o.ending ≢ out_of_fuel) (first_total request) 0 0 none none [] p f
          (λ g. finish-ending (advertised none p) 0 []) (ground arith)
          (λ g.
            finish-ending (advertised none p) (0 + length p.results)
              ([] ++ select wanted p.results))
          (λ a b.
            pages_fuel (first_total request) 1 _ _ _ _ (let t = first-total p f in omega arith))
  ]

  -- However the enumeration ends, it has yielded the wanted items of the pages up to one, in order.
  -- Where it returns, those pages hold as many items as the first page advertised or more; where it
  -- raises because the pages ran out, they hold fewer.
  pub iter_collection-Accounts : Accounts (first_total request) (iter_collection key wanted request)
  unfolding iter_collection
  iter_collection-Accounts =
      pages-Accounts (suc (first_total request)) 0 0 (first_total request) none none [] first-total
        refl refl
