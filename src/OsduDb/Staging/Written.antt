-- ===== src/OsduDb/Staging/Written.antt =====
-- What the writing of staged rows leaves alone (geodetic_engine/osdudb/context.py).
use geodetic_engine.Base.{
  ◌≡◌, List, [], ◌∷◌, All, Text, ok, arith, Bool-cases, Result-cases, inl, inr,
}
use geodetic_engine.Base.Texts.{is_empty}
use geodetic_engine.ProjDb.Rows.{Row, select, Objects, Base}
use geodetic_engine.ProjDb.Objects.{insert}
use geodetic_engine.ProjDb.Objects.Protection.{IsProtected, IsApart, insert_protects}
use geodetic_engine.OsduDb.Staging.{Staging, pending, write_tables, write_staged}

module _ (base : Base) (sort_by : Text → List Row → List Row) (t a c : Text) where
  write_tables_protects :
      (tables : List Text) (s : Staging) (r : Row) (w : Objects) {w' : Objects}
      → IsProtected base t a c
      → All (IsApart base.constraints.stored_as a c) (pending t s)
      → select base.constraints.stored_as t a c w.rows ≡ r ∷ []
      → write_tables base sort_by tables s w ≡ ok w'
      → select base.constraints.stored_as t a c w'.rows ≡ r ∷ []
  unfolding write_tables
  write_tables_protects [] s r w p q h e = ground (arith, h, e)
  write_tables_protects (table ∷ tables) s r w {w'} p q h e =
      let rows = pending table s in
      elim (Bool-cases (is_empty rows)) [
        | inl f ↦ write_tables_protects tables s r w {w' = w'} p q h (ground (arith, e, f))
        | inr f ↦ elim (Result-cases (insert base sort_by table rows w)) [
          | inr (x, g) ↦ absurd (ground (arith, e, f, g))
          | inl ((v, n), g) ↦
              write_tables_protects tables s r v {w' = w'} p q
                (insert_protects base sort_by t a c table rows r w p (λ same. rw same q) h g)
                (ground (arith, e, f, g))
        ]
      ]

  -- A writing of all that is staged that returns leaves the row of an object of the base database
  -- as it is, if no row that is staged for its table has another spelling of its code.
  pub write_staged_protects :
      (s : Staging) (r : Row) (w : Objects) {w' : Objects}
      → IsProtected base t a c
      → All (IsApart base.constraints.stored_as a c) (pending t s)
      → select base.constraints.stored_as t a c w.rows ≡ r ∷ []
      → write_staged base sort_by s w ≡ ok w'
      → select base.constraints.stored_as t a c w'.rows ≡ r ∷ []
  unfolding write_staged
  write_staged_protects s r w p q h e = write_tables_protects _ s r w p q h e
