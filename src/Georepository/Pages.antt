-- ===== src/Georepository/Pages.antt =====
-- `GeorepositoryClient.iter_collection` (geodetic_engine/georepository/client.py): every page of a
-- collection, filtered by authority. The server is a function from the page number to its answer;
-- no page is asked for twice, so it may change between the requests. What an item is, and its
-- `(Code, DataSource)` pair, are parameters.
pub mod Completeness
use geodetic_engine.Base.{
  ℕ, zero, suc, ◌+◌, Bool, true, false, ◌&&◌, Option, none, some, List, [], ◌∷◌, ◌++◌, ◌==◌,
  contains, Eq, if◌then◌else◌, map, Result, ok, err, leb, ltb, length,
}
use geodetic_engine.Base.Texts.{all, is_empty}

-- A page: its `Results`, and the `TotalResults` that it advertises.
pub record Page (A : Type 0) : Type 0 where
  pub results : List A
  pub total : ℕ

-- How the generator ends: by returning, by one of the two `PaginationTruncatedError`s or by the
-- error of a request. `out_of_fuel` is no outcome of the program.
pub data Ending (E : Type 0) : Type 0 where
  complete repeated_page short out_of_fuel : Ending E
  failed : E → Ending E

-- What the consumer has received when the generator ends.
pub record Outcome (E A : Type 0) : Type 0 where
  pub yielded : List A
  pub ending : Ending E

-- The items that are kept.
abbrev pub select : {A : Type 0} → (A → Bool) → List A → List A
select wanted [] = []
select wanted (x ∷ xs) = let rest = select wanted xs in if wanted x then x ∷ rest else rest

module _ {K : Type 0} ⦃e : Eq K⦄ where
  -- `==` of two frozensets.
  unfoldable pub same_keys : List K → List K → Bool
  same_keys ks js = all (contains js) ks && all (contains ks) js

  -- `page_keys == previous_page_keys`
  unfoldable pub repeats : List K → Option (List K) → Bool
  repeats ks none = false
  repeats ks (some previous) = same_keys ks previous

-- The test after the loop.
unfoldable pub finish : {E A : Type 0} → ℕ → ℕ → List A → Outcome E A
finish total collected out =
    if ltb 0 total && ltb collected total
    then record { yielded = out; ending = short }
    else record { yielded = out; ending = complete }

-- `total` is set on the first page only.
abbrev pub advertised : {A : Type 0} → Option ℕ → Page A → ℕ
advertised none p = p.total
advertised (some t) p = t

-- The total that the first page advertises.
unfoldable pub first_total : {E A : Type 0} → (ℕ → Result E (Page A)) → ℕ
first_total request = elim (request 0) [ err x ↦ 0 | ok p ↦ p.total ]

module _ {E A K : Type 0} ⦃e : Eq K⦄ (key : A → K) (wanted : A → Bool) where
  unfoldable pub pages :
      (ℕ → Result E (Page A)) → ℕ → ℕ → ℕ → Option ℕ → Option (List K) → List A → Outcome E A
  pages request zero page collected total previous out = record {
    yielded = out;
    ending = out_of_fuel;
  }
  pages request (suc fuel) page collected total previous out = elim (request page) [
    | err x ↦ record { yielded = out; ending = failed x }
    | ok p ↦
        let total' = advertised total p in
        let collected' = collected + length p.results in
        let out' = out ++ select wanted p.results in
        let more =
          pages request fuel (page + 1) collected' (some total') (some (map key p.results)) out' in
        if is_empty p.results
        then finish total' collected out
        else if repeats (map key p.results) previous
        then record { yielded = out; ending = repeated_page }
        else if leb total' collected'
        then finish total' collected' out'
        else more
  ]

  -- A page more than the first total is fuel enough: each page that is followed by another adds an
  -- item to those collected.
  unfoldable pub iter_collection : (ℕ → Result E (Page A)) → Outcome E A
  unfolding pages first_total finish repeats same_keys
  iter_collection request = pages request (suc (first_total request)) 0 0 none none []
