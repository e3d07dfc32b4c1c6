-- ===== src/ProjDb/Aliases/Kept.antt =====
-- What holds of the aliases that were added (geodetic_engine/projdb/alias.py).
use geodetic_engine.Base.{
  ℕ, ◌≤◌, ◌≡◌, ◌≢◌, refl, Bool, true, false, ◌||◌, Option, none, some, List, [], ◌∷◌, ◌++◌, ◌==◌,
  contains, Text, text_eq, nat_eq, arith, length, All, All-append, Option-cases, Bool-cases, inl,
  inr, ltb,
}
use geodetic_engine.Base.Texts.{strip, all, unless_empty, or_blank}
use geodetic_engine.ProjDb.Rows.{ObjectKey}
use geodetic_engine.ProjDb.Refreshing.{object_table}
use geodetic_engine.ProjDb.Aliases.{
  aliasable_tables, is_aliasable, minimum_length, Identity, identity_eq, AliasRow, AliasCollector,
  is_wanted, identity_of, add_identity, add,
}

abbrev is_listed : Identity → List AliasRow → Bool
is_listed identity [] = false
is_listed identity (row ∷ rows) = identity == row.identity || is_listed identity rows

-- No alias of an object is listed twice.
abbrev AreDistinct : List AliasRow → Type 0
AreDistinct [] = Unit
AreDistinct (row ∷ rows) = (is_listed row.identity rows ≡ false) × AreDistinct rows

-- No alias is listed twice or has fewer characters than proj.db requires, each is of a naming
-- system that was asked for or of none, and those that were seen are those listed.
pub record AreAdmissible (space : ℕ → Bool) (fold : Text → Text) (c : AliasCollector) : Type 0 where
  pub distinct : AreDistinct c.rows
  pub long_enough : All (λ row. minimum_length ≤ length row.identity.alias) c.rows
  pub wanted :
      All (λ row. is_wanted space fold c.naming_systems (or_blank row.source) ≡ true) c.rows
  pub known : (identity : Identity) → is_listed identity c.rows ≡ contains c.seen identity

is_listed-append :
    (identity : Identity) (rows : List AliasRow) (row : AliasRow)
    → is_listed identity (rows ++ (row ∷ []))
      ≡ (is_listed identity rows || identity == row.identity)
is_listed-append identity [] row = ground arith
is_listed-append identity (r ∷ rows) row = ground (arith, is_listed-append identity rows row)

AreDistinct-append :
    (rows : List AliasRow) (row : AliasRow)
    → AreDistinct rows
    → is_listed row.identity rows ≡ false
    → AreDistinct (rows ++ (row ∷ []))
AreDistinct-append [] row h k = (refl, tt)
AreDistinct-append (r ∷ rows) row (h, hs) k = elim (identity_eq.dec r.identity row.identity) [
  | yes q ↦ absurd (ground (arith, k, q))
  | no n ↦ (
    ground (arith, h, n, is_listed-append r.identity rows row),
    AreDistinct-append rows row hs (ground (arith, k)),
  )
]

or_blank-unless_empty : (t : Text) → or_blank (unless_empty t) ≡ t
or_blank-unless_empty [] = refl
or_blank-unless_empty (c ∷ t) = refl

module _ (space : ℕ → Bool) (casefold : Text → Text) where
  abbrev listed : Identity → Text → AliasCollector → AliasCollector
  listed identity source c = record c {
    seen = identity ∷ c.seen;
    rows = c.rows ++ (record { identity = identity; source = unless_empty source } ∷ []);
  }

  listed-AreAdmissible :
      (identity : Identity) (source : Text) (c : AliasCollector)
      → AreAdmissible space casefold c
      → minimum_length ≤ length identity.alias
      → is_wanted space casefold c.naming_systems source ≡ true
      → contains c.seen identity ≡ false
      → AreAdmissible space casefold (listed identity source c)
  listed-AreAdmissible identity source c h l w n = record {
    distinct = AreDistinct-append c.rows _ h.distinct (ground (arith, n, h.known identity));
    long_enough = All-append _ c.rows _ h.long_enough (l, tt);
    wanted =
        All-append (λ row. is_wanted space casefold c.naming_systems (or_blank row.source) ≡ true)
          c.rows _ h.wanted (rw (or_blank-unless_empty source) w, tt);
    known = λ other. ground (
      arith,
      h.known other,
      is_listed-append other c.rows (record { identity = identity; source = unless_empty source }),
    );
  }

  add_identity-AreAdmissible :
      (identity : Identity) (source : Text) (c : AliasCollector)
      → AreAdmissible space casefold c
      → minimum_length ≤ length identity.alias
      → is_wanted space casefold c.naming_systems source ≡ true
      → AreAdmissible space casefold (add_identity space casefold identity source c).0
  add_identity-AreAdmissible identity source c h l w =
      elim (Bool-cases (contains c.seen identity)) [
        | inl e ↦ rw e h
        | inr e ↦ rw e (listed-AreAdmissible identity source c h l w e)
      ]

  -- `add` keeps it that no alias of an object is listed twice, that each has at least two
  -- characters, that each is of a naming system that was asked for, and that those seen are those
  -- listed.
  pub add-AreAdmissible :
      (key : ObjectKey) (alias : Option Text) (source : Text) (c : AliasCollector)
      {out : AliasCollector × Bool}
      → AreAdmissible space casefold c
      → add space casefold key alias source c ≡ some out
      → AreAdmissible space casefold out.0
  unfolding add
  add-AreAdmissible key alias source c {out} h e = elim (Bool-cases (is_aliasable key.table)) [
    | inr a ↦ unchanged (ground (arith, e, a))
    | inl a ↦ elim (Bool-cases (is_wanted space casefold c.naming_systems source)) [
      | inr b ↦ unchanged (ground (arith, e, a, b))
      | inl b ↦ elim (Bool-cases (ltb (length (strip space (or_blank alias))) minimum_length)) [
        | inl l ↦ unchanged (ground (arith, e, a, b, l))
        | inr l ↦ elim (Option-cases (object_table key.table)) [
          | inl f ↦ absurd (ground (arith, e, a, b, l, f))
          | inr (table, f) ↦
              let identity = identity_of space casefold table key alias in
              let q : out ≡ add_identity space casefold identity source c =
                ground (arith, e, a, b, l, f) in
              rw q (add_identity-AreAdmissible identity source c h (ground (arith, l)) b)
        ]
      ]
    ]
  ]
    where
      unchanged : out ≡ (c, false) → AreAdmissible space casefold out.0
      unchanged q = rw q h

all-contains :
    (p : Text → Bool) (ts : List Text) (t : Text)
    → all p ts ≡ true
    → contains ts t ≡ true
    → p t ≡ true
all-contains p (u ∷ ts) t h k = elim (text_eq.dec t u) [
  | yes q ↦ rw q (ground (arith, h))
  | no n ↦ all-contains p ts t (ground (arith, h)) (ground (arith, k, n))
]
all-contains p [] t h k = absurd (ground (arith, k))

abbrev has_name : Text → Bool
has_name table = elim (object_table table) [ none ↦ false | some name ↦ true ]

all_named : all has_name aliasable_tables ≡ true
unfolding object_table text_eq nat_eq
all_named = refl

-- A table that may have aliases has a name for them.
object_table-is_aliasable : (table : Text) → is_aliasable table ≡ true → object_table table ≢ none
unfolding is_aliasable
object_table-is_aliasable table h e =
    absurd (ground (arith, e, all-contains has_name aliasable_tables table all_named h))

module _ (space : ℕ → Bool) (casefold : Text → Text) where
  -- `add` does not fail: each table that may have aliases has a name for them.
  pub add_returns :
      (key : ObjectKey) (alias : Option Text) (source : Text) (c : AliasCollector)
      → add space casefold key alias source c ≢ none
  unfolding add
  add_returns key alias source c e = elim (Bool-cases (is_aliasable key.table)) [
    | inr a ↦ absurd (ground (arith, e, a))
    | inl a ↦ elim (Option-cases (object_table key.table)) [
      | inl f ↦ object_table-is_aliasable key.table a f
      | inr (table, f) ↦ absurd (ground (arith, e, a, f))
    ]
  ]
