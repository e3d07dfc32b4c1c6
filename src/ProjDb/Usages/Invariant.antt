-- ===== src/ProjDb/Usages/Invariant.antt =====
-- What holds of the usages that were added (geodetic_engine/projdb/records.py).
use geodetic_engine.Base.{
  ℕ, ◌+◌, ◌≤◌, ◌≡◌, refl, Bool, true, false, ◌&&◌, ◌||◌, Option, none, some, List, [], ◌∷◌, ◌++◌,
  ◌==◌, Text, text_eq, text_pair_eq, arith, length, length-append, All, All-append, All-imp,
  Option-cases, inl, inr, ap,
}
use geodetic_engine.Base.Dict
use geodetic_engine.Base.Dict.{Dict}
use geodetic_engine.ProjDb.Rows.{ObjectKey}
use geodetic_engine.ProjDb.Refreshing.{object_table}
use geodetic_engine.ProjDb.Usages.{
  Scope, Extent, Usage, UsageAccumulator, set_default, scope_key, extent_key, add_usage, add,
}
use geodetic_engine.ProjDb.Usages.Codes.{number_in, number_in-usage_code}

abbrev has_key {ℓ} : {V : Type ℓ} → Dict (Text × Text) V → Text × Text → Bool
has_key d k = elim (Dict.lookup k d) [ none ↦ false | some v ↦ true ]

abbrev is_referenced : UsageAccumulator → Usage → Bool
is_referenced u x = has_key u.scopes x.scope && has_key u.extents x.extent

abbrev has_code : Text → List Usage → Bool
has_code code [] = false
has_code code (x ∷ xs) = code == x.code || has_code code xs

-- No two usages have the same code.
abbrev HasDistinctCodes : List Usage → Type 0
HasDistinctCodes [] = Unit
HasDistinctCodes (x ∷ xs) = (has_code x.code xs ≡ false) × HasDistinctCodes xs

-- The usages are counted, their codes tell them apart, and the scope and the extent of each are
-- among those to be written.
pub record IsAccounted (u : UsageAccumulator) : Type 0 where
  pub counted : length u.usages ≡ u.counter
  pub numbered : All (λ x. number_in x.code ≤ u.counter) u.usages
  pub told_apart : HasDistinctCodes u.usages
  pub referenced : All (λ x. is_referenced u x ≡ true) u.usages

has_key-set_default {ℓ} :
    {V : Type ℓ} (k j : Text × Text) (v : V) (d : Dict (Text × Text) V)
    → has_key (set_default k v d) j ≡ (j == k || has_key d j)
unfolding set_default
has_key-set_default k j v d = elim (Option-cases (Dict.lookup k d)) [
  | inl e ↦ ground (arith, e, Dict.lookup-insert j k v d)
  | inr (w, e) ↦ elim (text_pair_eq.dec j k) [
    | yes q ↦ ground (arith, e, q)
    | no n ↦ ground (arith, e, n)
  ]
]

has_code-append :
    (code : Text) (xs : List Usage) (y : Usage)
    → has_code code (xs ++ (y ∷ [])) ≡ (has_code code xs || code == y.code)
has_code-append code [] y = ground arith
has_code-append code (x ∷ xs) y = ground (arith, has_code-append code xs y)

-- A code that ends in a greater number is a new one.
fresh_code :
    (n : ℕ) (xs : List Usage) (y : Usage)
    → All (λ x. number_in x.code ≤ n) xs
    → number_in y.code ≡ n + 1
    → HasDistinctCodes xs
    → HasDistinctCodes (xs ++ (y ∷ []))
fresh_code n [] y h e d = (refl, tt)
fresh_code n (x ∷ xs) y (h, hs) e (d, ds) = elim (text_eq.dec x.code y.code) [
  | yes q ↦ absurd (omega (arith, h, e, ap number_in q))
  | no m ↦ (ground (arith, d, m, has_code-append x.code xs y), fresh_code n xs y hs e ds)
]

add_usage-IsAccounted :
    (table : Text) (key : ObjectKey) (scope : Scope) (extent : Extent) (authority : Option Text)
    (u : UsageAccumulator)
    → IsAccounted u
    → IsAccounted (add_usage table key scope extent authority u)
add_usage-IsAccounted table key scope extent authority u h =
    let after = add_usage table key scope extent authority u in
    let number = number_in-usage_code table key.code (u.counter + 1) in
    record {
      counted = omega (arith, h.counted, length-append u.usages _);
      numbered =
          All-append (λ x. number_in x.code ≤ after.counter) u.usages _
            (All-imp (λ x. number_in x.code ≤ u.counter) (λ x. number_in x.code ≤ after.counter)
              u.usages (λ x k. omega arith) h.numbered)
            (omega (arith, number), tt);
      told_apart = fresh_code u.counter u.usages _ h.numbered number h.told_apart;
      referenced =
          All-append (λ x. is_referenced after x ≡ true) u.usages _
            (All-imp (λ x. is_referenced u x ≡ true) (λ x. is_referenced after x ≡ true) u.usages
              (λ x k. ground (
                arith,
                k,
                has_key-set_default (scope_key scope) x.scope scope u.scopes,
                has_key-set_default (extent_key extent) x.extent extent u.extents,
              ))
              h.referenced)
            (
              ground (
                arith,
                has_key-set_default (scope_key scope) (scope_key scope) scope u.scopes,
                has_key-set_default (extent_key extent) (extent_key extent) extent u.extents,
              ),
              tt,
            );
    }

-- `add` keeps it that the usages are counted, that no two have the same code, and that the scope
-- and the extent of each are among those to be written.
pub add-IsAccounted :
    (key : ObjectKey) (scope : Option Scope) (extent : Option Extent) (authority : Option Text)
    (u : UsageAccumulator) {u' : UsageAccumulator}
    → IsAccounted u
    → add key scope extent authority u ≡ some u'
    → IsAccounted u'
unfolding add
add-IsAccounted key none extent authority u {u'} h e = let q : u ≡ u' = cc in rw (← q) h
add-IsAccounted key (some scope) none authority u {u'} h e = let q : u ≡ u' = cc in rw (← q) h
add-IsAccounted key (some scope) (some extent) authority u {u'} h e =
    elim (Option-cases (object_table key.table)) [
      | inl f ↦ absurd (ground (arith, e, f))
      | inr (table, f) ↦
          let q : add_usage table key scope extent authority u ≡ u' = ground (arith, e, f) in
          rw (← q) (add_usage-IsAccounted table key scope extent authority u h)
    ]
