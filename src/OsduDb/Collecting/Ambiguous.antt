-- ===== src/OsduDb/Collecting/Ambiguous.antt =====
-- Ids that a catalogue publishes for several objects (geodetic_engine/osdudb/identifier.py).
use geodetic_engine.Base.{
  ◌≡◌, ◌≢◌, refl, ◌∙◌, Bool, true, false, ◌||◌, ◌&&◌, Option, none, some, List, [], ◌∷◌, ◌++◌, ◌==◌,
  Text, text_eq, arith, Option-cases, inl, inr, ok, contains, leb, length,
}
use geodetic_engine.Base.Dict.{Dict}
use geodetic_engine.ProjDb.Writer.{Writer}
use geodetic_engine.ProjDb.Identifiers.Resolution.{names}
use geodetic_engine.OsduDb.Catalogue.{Record, Context, object_name, object_name_eq, ObjectName}
use geodetic_engine.OsduDb.Collecting.{
  Published, all_of, added, judge, ambiguous, osdu, Report, collect_identifiers, targets,
}
use geodetic_engine.OsduDb.Collecting.Grouping.{counts, gather}
use geodetic_engine.OsduDb.Collecting.Outcome.{names-collect_identifiers, counted}

-- Whether a record of a list that satisfies a test names an object.
abbrev pub publishes : (Record → Bool) → ObjectName → List Record → Bool
publishes f o [] = false
publishes f o (r ∷ rs) = (f r && o == object_name r) || publishes f o rs

contains-targets :
    (o : ObjectName) (rs : List Record) → contains (targets rs) o ≡ publishes (λ r. true) o rs
unfolding targets
contains-targets o [] = refl
contains-targets o (r ∷ rs) = ground (arith, contains-targets o rs)

two_members :
    (o p : ObjectName) (os : List ObjectName)
    → o ≢ p
    → contains os o ≡ true
    → contains os p ≡ true
    → leb 2 (length os) ≡ true
two_members o p [] n a b = ground arith
two_members o p (q ∷ []) n a b = ground arith
two_members o p (q ∷ r ∷ os) n a b = ground arith

abbrev named_in : ObjectName → Option Published → Bool
named_in o none = false
named_in o (some p) = publishes (λ r. true) o (all_of p)

publishes-append :
    (o : ObjectName) (f : Record → Bool) (xs ys : List Record)
    → publishes f o (xs ++ ys) ≡ (publishes f o xs || publishes f o ys)
publishes-append o f [] ys = refl
publishes-append o f (x ∷ xs) ys = ground (arith, publishes-append o f xs ys)

named_in-added :
    (o : ObjectName) (p : Option Published) (r : Record)
    → named_in o (some (added p r)) ≡ (named_in o p || o == object_name r)
named_in-added o none r = ground arith
named_in-added o (some (first, rs)) r = ground (arith, publishes-append o (λ r. true) rs (r ∷ []))

named_in-gather :
    (o : ObjectName) (f : Record → Bool) (rs : List Record) (p : Option Published)
    → named_in o (gather f rs p) ≡ (named_in o p || publishes f o rs)
named_in-gather o f [] p = ground arith
named_in-gather o f (r ∷ rs) p = ground (
  arith,
  named_in-gather o f rs p,
  named_in-gather o f rs (some (added p r)),
  named_in-added o p r,
)

judge-ambiguous :
    (ctx : Context) (o p : ObjectName) (g : Published)
    → o ≢ p
    → named_in o (some g) ≡ true
    → named_in p (some g) ≡ true
    → judge ctx g ≡ ambiguous (targets (all_of g))
unfolding judge
judge-ambiguous ctx o p g n a b = ground (
  arith,
  two_members o p (targets (all_of g)) n (contains-targets o (all_of g) ∙ a)
      (contains-targets p (all_of g) ∙ b),
)

-- An id that counted records of the catalogue publish for two different objects names nothing
-- after a call of `collect_identifiers` that returns, whatever it named before.
pub collect_identifiers-ambiguous :
    (ctx : Context) (id : Text) (o p : ObjectName) (w : Writer)
    {out : Writer × Dict Text Record × Report}
    → o ≢ p
    → publishes (counts ctx id) o ctx.records ≡ true
    → publishes (counts ctx id) p ctx.records ≡ true
    → collect_identifiers ctx w ≡ ok out
    → names (osdu id) out.0.db ≡ none
collect_identifiers-ambiguous ctx id o p w n a b h =
    let ina = named_in-gather o (counts ctx id) ctx.records none in
    let inb = named_in-gather p (counts ctx id) ctx.records none in
    elim (Option-cases (counted ctx id)) [
      | inl e ↦ absurd (ground arith)
      | inr (g, e) ↦
          names-collect_identifiers ctx id w h
          ∙ ground (arith, judge-ambiguous ctx o p g n (ground arith) (ground arith))
    ]
