-- ===== src/Tests/Exports.antt =====
-- Objects of a register, read twice, and where they are exported.
use geodetic_engine.Base.{
  ℕ, ◌≡◌, refl, false, some, [], ◌∷◌, ◌==◌, text_eq, nat_eq, codes, ok, arith,
}
use geodetic_engine.Base.Dict
use geodetic_engine.Base.Texts.{is_empty, split_last, rstrip, strip, lstrip}
use geodetic_engine.Georepository.Links.{
  Item, Client, Register, get_object, self_href, first_self, export_url, ends_with, unquoted, wkt,
}
use geodetic_engine.Georepository.Links.Caching.{
  IsLinked, get_object_twice, get_object-IsLinked, wkt_twice, export_url_lem,
}

-- A register that answers each request with its number, and exports one text.
abbrev register : Register ℕ ℕ
register = record {
  request = λ n url. ok (record { links = []; content = n });
  request_text = λ n url. ok (codes " \"GEOGCRS\" ");
  casefold = λ t. t;
  space = λ c. c == b' ';
  json_text = λ t. some (codes "GEOGCRS");
}

abbrev unused : Client ℕ
unused = record { object_cache = []; wkt_cache = []; requests = 0 }

abbrev used : Client ℕ
used = (get_object register (codes "https://r/Unit/1") unused).1

abbrev unit : Item ℕ
unit = record {
  links = record { href = some (codes "https://r/Unit/1"); rel = some (codes "self") } ∷ [];
  content = 0;
}

get_object_twice_holds : get_object register (codes "https://r/Unit/1") used ≡ (ok unit, used)
unfolding get_object Dict.lookup Dict.insert
get_object_twice_holds = get_object_twice register (codes "https://r/Unit/1") unused refl

get_object-IsLinked_holds : (is_empty unit.links ≡ false) × IsLinked register used
unfolding get_object Dict.lookup Dict.insert
get_object-IsLinked_holds =
    get_object-IsLinked register (codes "https://r/Unit/1") unused (λ url item h. ground arith) refl

abbrev exported : Client ℕ
exported = (wkt register unit unused).1

wkt_twice_holds : wkt register unit exported ≡ (ok (some (codes "GEOGCRS")), exported)
unfolding wkt self_href first_self export_url unquoted strip lstrip rstrip ends_with split_last
    Dict.lookup Dict.insert text_eq nat_eq
wkt_twice_holds = wkt_twice register unit unused refl

export_url_lem_holds :
    export_url (codes "https://r/GeodeticCoordRefSystem/4143")
    ≡ codes "https://r/CoordRefSystem/4143/export"
unfolding ends_with nat_eq text_eq
export_url_lem_holds =
    export_url_lem (codes "https://r") (codes "GeodeticCoordRefSystem") b'4' (codes "143") refl refl
