-- ===== src/ProjDb/Refreshing/Kept.antt =====
-- What `clear_annotations` keeps (geodetic_engine/projdb/writer.py).
use geodetic_engine.Base.{
  ◌≡◌, refl, ◌∙◌, Bool, false, List, [], ◌∷◌, ◌==◌, contains, not_member, Text, text_eq, codes,
  arith, Option-cases, inl, inr,
}
use geodetic_engine.ProjDb.Rows.{Affinity, Row, Stored, select, Objects, Base, ObjectKey}
use geodetic_engine.ProjDb.Refreshing.{
  delete_where, owned_usage, superseded, alias_of, delete_aliases, object_table, clear_annotations,
}

abbrev pub annotation_tables : List Text
annotation_tables = codes "usage" ∷ codes "supersession" ∷ codes "alias_name" ∷ []

apart :
    (t : Text)
    → contains annotation_tables t ≡ false
    → ((codes "usage" == t) ≡ false)
      × ((codes "supersession" == t) ≡ false)
      × ((codes "alias_name" == t) ≡ false)
unfolding text_eq
apart t h = (
  not_member t (codes "usage") annotation_tables h refl,
  not_member t (codes "supersession") annotation_tables h refl,
  not_member t (codes "alias_name") annotation_tables h refl,
)

module _ (stored_as : Affinity) (t a c : Text) where
  select-delete_where :
      (table : Text) (test : Row → Bool) (rows : List Stored)
      → (table == t) ≡ false
      → select stored_as t a c (delete_where table test rows) ≡ select stored_as t a c rows
  unfolding select delete_where
  select-delete_where table test [] h = refl
  select-delete_where table test (s ∷ rows) h =
      ground (arith, h, select-delete_where table test rows h)

  select-delete_aliases :
      (compared_as : Affinity) (lower : Text → Text) (name : Text) (key : ObjectKey)
      (sources : List Text) (rows : List Stored)
      → (codes "alias_name" == t) ≡ false
      → select stored_as t a c (delete_aliases compared_as lower name key sources rows)
        ≡ select stored_as t a c rows
  unfolding delete_aliases
  select-delete_aliases compared_as lower name key [] rows h = refl
  select-delete_aliases compared_as lower name key (source ∷ sources) rows h =
      select-delete_aliases compared_as lower name key sources _ h
      ∙ select-delete_where (codes "alias_name") (alias_of compared_as lower name key source) rows h

  -- `clear_annotations` leaves every row of a table other than the three of annotations.
  pub select-clear_annotations :
      (base : Base) (lower : Text → Text) (key : ObjectKey) (naming_systems : List Text)
      (w : Objects)
      → contains annotation_tables t ≡ false
      → select stored_as t a c (clear_annotations base lower key naming_systems w).rows
        ≡ select stored_as t a c w.rows
  unfolding clear_annotations
  select-clear_annotations base lower key naming_systems w h =
      let (u, s, l) = apart t h in
      elim (Option-cases (object_table key.table)) [
        | inl e ↦ ground (arith, e)
        | inr (name, e) ↦
            let deleted =
              delete_where (codes "usage")
                (owned_usage base.constraints.stored_as name key w.authorities) w.rows in
            ground (
              arith,
              e,
              select-delete_aliases base.constraints.stored_as lower name key naming_systems
                  (delete_where (codes "supersession")
                    (superseded base.constraints.stored_as name key) deleted)
                  l,
              select-delete_where (codes "supersession")
                  (superseded base.constraints.stored_as name key) deleted s,
              select-delete_where (codes "usage")
                  (owned_usage base.constraints.stored_as name key w.authorities) w.rows u,
            )
      ]
