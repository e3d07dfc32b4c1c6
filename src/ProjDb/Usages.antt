-- ===== src/ProjDb/Usages.antt =====
-- The usages of a build's objects, with the scopes and extents that they reference
-- (`UsageAccumulator` of geodetic_engine/projdb/records.py).
pub mod Codes
pub mod Invariant
use geodetic_engine.Base.{
  ℕ, suc, zero, ◌+◌, ◌*◌, ◌-◌, ◌/◌, ◌%◌, Bool, true, false, Option, none, some, List, [], ◌∷◌, ◌++◌,
  ◌==◌, Text, text_eq, text_pair_eq, codes, if◌then◌else◌, ltb,
}
use geodetic_engine.Base.Dict
use geodetic_engine.Base.Dict.{Dict}
use geodetic_engine.ProjDb.Rows.{ObjectKey, Value}
use geodetic_engine.ProjDb.Refreshing.{object_table}

-- `Scope`
pub record Scope : Type 0 where
  pub auth_name : Text
  pub code : Text
  pub scope : Text
  pub deprecated : ℕ

-- `Extent`
pub record Extent : Type 0 where
  pub auth_name : Text
  pub code : Text
  pub name : Text
  pub description : Value
  pub south_lat : Value
  pub north_lat : Value
  pub west_lon : Value
  pub east_lon : Value
  pub deprecated : ℕ

pub record Usage : Type 0 where
  pub auth_name : Text
  pub code : Text
  pub object_table_name : Text
  pub object_auth_name : Text
  pub object_code : Text
  pub extent : Text × Text
  pub scope : Text × Text

-- `UsageAccumulator`
pub record UsageAccumulator : Type 0 where
  pub usages : List Usage
  pub scopes : Dict (Text × Text) Scope
  pub extents : Dict (Text × Text) Extent
  pub counter : ℕ

-- The digits of a number, before a text; the fuel is more than the number.
unfoldable pub digits : ℕ → ℕ → Text → Text
digits zero n t = t
digits (suc f) n t =
    let rest = digits f (n / 10) ((48 + n % 10) ∷ t) in if ltb n 10 then (48 + n) ∷ t else rest

-- `str(n)`
unfoldable pub decimal : ℕ → Text
unfolding digits
decimal n = digits (n + 1) n []

-- `if key not in table: table[key] = value`
unfoldable pub set_default {ℓ} :
    {V : Type ℓ} → Text × Text → V → Dict (Text × Text) V → Dict (Text × Text) V
set_default k v d = elim (Dict.lookup k d) [ some earlier ↦ d | none ↦ Dict.insert k v d ]

abbrev pub or_own : Option Text → Text → Text
or_own none own = own
or_own (some authority) own = authority

abbrev pub usage_code : Text → Text → ℕ → Text
usage_code table code n = table ++ (b'_' ∷ (code ++ (b'_' ∷ decimal n)))

abbrev pub scope_key : Scope → Text × Text
scope_key s = (s.auth_name, s.code)

abbrev pub extent_key : Extent → Text × Text
extent_key e = (e.auth_name, e.code)

abbrev pub add_usage :
    Text → ObjectKey → Scope → Extent → Option Text → UsageAccumulator → UsageAccumulator
add_usage table key scope extent authority u = record {
  usages =
      u.usages
      ++ (record {
        auth_name = or_own authority key.auth_name;
        code = usage_code table key.code (u.counter + 1);
        object_table_name = table;
        object_auth_name = key.auth_name;
        object_code = key.code;
        extent = extent_key extent;
        scope = scope_key scope;
      }
          ∷ []);
  scopes = set_default (scope_key scope) scope u.scopes;
  extents = set_default (extent_key extent) extent u.extents;
  counter = u.counter + 1;
}

-- `UsageAccumulator.add`: none is a `KeyError`, for a table whose objects have no usages.
unfoldable pub add :
    ObjectKey
    → Option Scope
    → Option Extent
    → Option Text
    → UsageAccumulator
    → Option UsageAccumulator
add key none extent authority u = some u
add key (some scope) none authority u = some u
add key (some scope) (some extent) authority u = elim (object_table key.table) [
  | none ↦ none
  | some table ↦ some (add_usage table key scope extent authority u)
]
