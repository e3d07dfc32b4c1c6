-- ===== src/OsduDb/Collecting/Foreign.antt =====
-- Ids of other schemes (geodetic_engine/osdudb/identifier.py).
use geodetic_engine.Base.{
  ◌≡◌, ◌≢◌, refl, ◌∙◌, Bool, false, Option, List, [], ◌∷◌, ◌==◌, Text, text_eq, codes, arith, ap,
  Option-cases, inl, inr, ok,
}
use geodetic_engine.Base.Dict.{Dict}
use geodetic_engine.ProjDb.Tables.{Key, key_eq, Target}
use geodetic_engine.ProjDb.Writer.{Writer, IdentifierRow, recorded_identifier}
use geodetic_engine.ProjDb.Identifiers.Resolution.{names, stated_last, names-write_identifiers}
use geodetic_engine.ProjDb.Identifiers.Removals.{asks, lookup-remove_identifiers}
use geodetic_engine.OsduDb.Catalogue.{Record, Context}
use geodetic_engine.OsduDb.Collecting.{
  Published, Verdict, ambiguous, absent, mapped, judge, osdu, collect, Collected, collect_one,
  retire, put, retired, Report, collect_identifiers,
}
use geodetic_engine.OsduDb.Collecting.Outcome.{
  collect_identifiers-calls, stated_last-append, collected_all, sorted_all, all_rows,
}

module _ (ctx : Context) (k : Key) (other : k.scheme ≢ codes "OSDU") where
  not_osdu : (id : Text) → (k == osdu id) ≡ false
  unfolding key_eq
  not_osdu id = ground arith

  rows-collect_one :
      (id : Text) (p : Published) (v : Verdict) (c : Collected) (old : Option (Target × Bool))
      → stated_last k (collect_one ctx id p v c).rows old ≡ stated_last k c.rows old
  rows-collect_one id p (ambiguous objects) c old = refl
  rows-collect_one id p (absent r reason) c old = refl
  rows-collect_one id p (mapped r table) c old = ground (arith, not_osdu id)

  asks-collect_one :
      (id : Text) (p : Published) (v : Verdict) (c : Collected)
      → asks k (collect_one ctx id p v c).removals ≡ asks k c.removals
  asks-collect_one id p (ambiguous objects) c = ground (arith, not_osdu id)
  asks-collect_one id p (absent r reason) c = refl
  asks-collect_one id p (mapped r table) c = refl

  stated_last-collect :
      (d : Dict Text Published) (old : Option (Target × Bool))
      → stated_last k (collect ctx d).rows old ≡ old
  unfolding collect
  stated_last-collect [] old = refl
  stated_last-collect ((id, p) ∷ d) old =
      rows-collect_one id p (judge ctx p) (collect ctx d) old ∙ stated_last-collect d old

  asks-collect : (d : Dict Text Published) → asks k (collect ctx d).removals ≡ false
  unfolding collect
  asks-collect [] = refl
  asks-collect ((id, p) ∷ d) = asks-collect_one id p (judge ctx p) (collect ctx d) ∙ asks-collect d

  stated_last-put :
      (w : Writer) (id : Text) (p : Published) (rows : List IdentifierRow)
      (old : Option (Target × Bool))
      → stated_last k (put (retire ctx w id p) rows) old ≡ stated_last k rows old
  unfolding retire
  stated_last-put w id p rows old = elim (Option-cases (recorded_identifier (osdu id) w.db)) [
    | inl e ↦ ground arith
    | inr (r, e) ↦ ground (arith, not_osdu id)
  ]

  stated_last-retired :
      (w : Writer) (included d : Dict Text Published) (old : Option (Target × Bool))
      → stated_last k (retired ctx w included d) old ≡ old
  unfolding retired
  stated_last-retired w included [] old = refl
  stated_last-retired w included ((id, p) ∷ d) old = ground (
    arith,
    stated_last-put w id p (retired ctx w included d) old,
    stated_last-retired w included d old,
  )

  -- A call of `collect_identifiers` that returns leaves every id of another scheme than `OSDU`
  -- naming what it named.
  pub collect_identifiers_keeps :
      (w : Writer) {out : Writer × Dict Text Record × Report}
      → collect_identifiers ctx w ≡ ok out
      → names k out.0.db ≡ names k w.db
  collect_identifiers_keeps w h =
      let (a, b, e, f, g) = collect_identifiers-calls ctx w h in
      let s = sorted_all ctx in
      let between = names k a.0.db in
      let found = lookup-remove_identifiers (collected_all ctx).removals w k e in
      let unasked = asks-collect s.by_identifier in
      ap (λ v. names k v.db) g
      ∙ (names-write_identifiers ctx.osdu_id_aliases (all_rows ctx w) a.0 k f
          ∙ (stated_last-append k (collected_all ctx).rows
                (retired ctx w s.by_identifier s.excluded) between
              ∙ (stated_last-retired w s.by_identifier s.excluded
                    (stated_last k (collected_all ctx).rows between)
                  ∙ (stated_last-collect s.by_identifier between
                      ∙ ground (arith, found, unasked)))))
