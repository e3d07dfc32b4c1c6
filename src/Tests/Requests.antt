-- ===== src/Tests/Requests.antt =====
-- Pages, attempts, the cache and versions.
use geodetic_engine.Base.{
  ℕ, zero, suc, ◌-◌, ◌≡◌, ◌↔◌, ◌≢◌, refl, Bool, true, false, ◌&&◌, none, some, [], ◌∷◌, ◌||◌, ◌==◌,
  contains, Text, text_eq, nat_eq, codes, Result, ok, if◌then◌else◌, inr, arith, leb,
}
use geodetic_engine.Base.Dict
use geodetic_engine.Base.Texts.{split_first, drop_prefix, strip}
use geodetic_engine.Georepository.Pages.{
  Page, complete, repeated_page, out_of_fuel, iter_collection, first_total,
}
use geodetic_engine.Georepository.Pages.Completeness.{
  Accounts, iter_collection_ends, iter_collection-Accounts,
}
use geodetic_engine.Georepository.Fetch.{Url, Reply, http_error, response, fetch, is_trusted}
use geodetic_engine.Georepository.Fetch.Retries.{fetch-decisive, fetch_trusted}
use geodetic_engine.Georepository.Cache.{
  Request, Response, Cache, Zlib, cache_key_eq, handle_request, key_of, clear,
}
use geodetic_engine.Georepository.Cache.Laws.{
  IsHonest, IsLossless, IsShownAs, handle_request-IsHonest, handle_request_passes,
  handle_request_twice,
}
use geodetic_engine.Georepository.Versions.{Digits, parts, is_newer, tuple_lt}
use geodetic_engine.Georepository.Versions.Order.{IsLater, is_newer_iff, is_newer_trans}
use geodetic_engine.Georepository.Freshness.{
  refreshed, CacheFile, Stale, stale_eq, staleness, stale_sources, reconcile_versions,
}
use geodetic_engine.Georepository.Freshness.Reports.{reconcile_versions_lem}

-- Two pages of two items, of which the odd ones are wanted.
abbrev server : ℕ → Result ℕ (Page ℕ)
server zero = ok (record { results = 1 ∷ 2 ∷ []; total = 4 })
server (suc zero) = ok (record { results = 3 ∷ 4 ∷ []; total = 4 })
server _ = ok (record { results = []; total = 4 })

abbrev is_odd : ℕ → Bool
is_odd n = n == 1 || n == 3

abbrev itself : ℕ → ℕ
itself n = n

-- A server that ignores the page.
abbrev stuck_server : ℕ → Result ℕ (Page ℕ)
stuck_server n = ok (record { results = 1 ∷ 2 ∷ []; total = 4 })

iter_collection-server :
    iter_collection itself is_odd server ≡ record { yielded = 1 ∷ 3 ∷ []; ending = complete }
unfolding iter_collection nat_eq
iter_collection-server = refl

iter_collection-stuck :
    iter_collection itself is_odd stuck_server ≡ record { yielded = 1 ∷ []; ending = repeated_page }
unfolding iter_collection nat_eq
iter_collection-stuck = refl

iter_collection_ends_example : (iter_collection itself is_odd stuck_server).ending ≢ out_of_fuel
iter_collection_ends_example = iter_collection_ends itself is_odd stuck_server

iter_collection-Accounts_example :
    Accounts itself is_odd server (first_total server) (iter_collection itself is_odd server)
iter_collection-Accounts_example = iter_collection-Accounts itself is_odd server

abbrev origin : Url
origin = record {
  scheme = codes "https";
  host = codes "register";
  port = none;
  userinfo = [];
  fragment = [];
}

-- A 503, then an error of the transport, then a 200.
abbrev flaky : ℕ → Reply Text
flaky n =
    if n == 1 then response 503 [] else if n == 2 then http_error else response 200 (codes "ok")

fetch-decisive_example :
    fetch flaky (some origin) origin ≡ record { requests = 3; result = ok (codes "ok") }
unfolding is_trusted text_eq nat_eq
fetch-decisive_example = fetch-decisive flaky origin origin refl

fetch_trusted_example :
    (destination : Url) × (some origin ≡ some destination)
    × (destination.scheme ≡ codes "https")
    × (destination.host ≡ origin.host)
    × (destination.port ≡ origin.port)
    × (destination.userinfo ≡ [])
    × (destination.fragment ≡ [])
unfolding fetch text_eq nat_eq
fetch_trusted_example = fetch_trusted flaky (some origin) origin (omega arith)

abbrev zlib : Zlib
zlib = record { compress = λ t. 0 ∷ t; decompress = λ t. elim t [ [] ↦ [] | x ∷ r ↦ r ] }

zlib-IsLossless : IsLossless zlib
zlib-IsLossless = record { back = λ t. refl }

-- A server that answers with its count of requests.
abbrev counting : ℕ → Request → Response
counting n r = record { status = 200; content_type = some (codes "json"); body = n ∷ [] }

abbrev empty : Cache
empty = record { rows = []; hits = 0; misses = 0; stored = 0; travelled = 0 }

empty-IsHonest : IsHonest empty
unfolding Dict.lookup
empty-IsHonest = record { kept = λ k row e. absurd (ground arith) }

abbrev get_crs : Request
get_crs = record {
  method = codes "GET";
  url = codes "https://register/crs";
  path = codes "/crs";
  accept = codes "json";
}

abbrev get_history : Request
get_history = record get_crs { path = codes "/VersionHistory" }

handle_request-IsHonest_example : IsHonest (handle_request zlib counting false get_crs empty).1
handle_request-IsHonest_example =
    handle_request-IsHonest zlib counting false get_crs empty empty-IsHonest

handle_request_passes_holds :
    handle_request zlib counting false get_history empty
    ≡ (counting 0 get_history, record empty { travelled = 1 })
handle_request_passes_holds =
    handle_request_passes zlib counting false get_history empty [] [] (inr refl)

handle_request_twice_example :
    let (a, c) = handle_request zlib counting false get_crs empty in
    let (b, d) = handle_request zlib counting false get_crs c in
    (b.status ≡ a.status)
    × (b.body ≡ a.body)
    × IsShownAs a.content_type b.content_type
    × (d.travelled ≡ c.travelled)
unfolding handle_request text_eq nat_eq cache_key_eq split_first drop_prefix Dict.lookup
handle_request_twice_example =
    handle_request_twice zlib counting zlib-IsLossless false get_crs empty refl refl

-- Python's characters, as far as versions hold them.
abbrev digits : Digits
digits = record {
  space = λ c. c == 32;
  is_digit = λ c. leb b'0' c && leb c b'9';
  value = λ c. if leb b'0' c && leb c b'9' then some (c - b'0') else none;
}

is_newer_iff_example :
    (is_newer digits (codes "v1.103") (codes "1.99") ≡ ok true)
    ↔ IsLater (1 ∷ 103 ∷ []) (1 ∷ 99 ∷ [])
unfolding parts strip nat_eq
is_newer_iff_example = is_newer_iff digits (codes "v1.103") (codes "1.99") refl refl

is_newer_trans_holds : is_newer digits (codes "2") (codes "1.9") ≡ ok true
unfolding parts is_newer tuple_lt strip nat_eq
is_newer_trans_holds =
    is_newer_trans digits (codes "2") (codes "1.10") (codes "1.9") refl refl refl refl refl

abbrev older : CacheFile
older = record {
  responses = record {
    rows = (key_of get_crs, record { status = 200; content_type = none; body = [] }) ∷ [];
    hits = 0;
    misses = 0;
    stored = 0;
    travelled = 0;
  };
  register_version = (codes "EPSG", codes "1.9") ∷ [];
}

abbrev live : Dict.Dict Text Text
live = (codes "EPSG", codes "1.10") ∷ []

abbrev outdated : Stale
outdated = record { source = codes "EPSG"; cached = codes "1.9"; version = codes "1.10" }

-- The build refreshes what it has.
abbrev emptied : CacheFile
emptied = record older { responses = clear older.responses }

reconcile_versions_lem_example :
    (contains (outdated ∷ []) outdated ≡ true)
    × (emptied.register_version ≡ older.register_version)
    × (emptied.responses.rows ≡ [])
unfolding reconcile_versions stale_sources staleness stale_eq Dict.lookup parts is_newer tuple_lt
    strip text_eq nat_eq clear
reconcile_versions_lem_example =
    reconcile_versions_lem digits refreshed live older outdated {out = (emptied, outdated ∷ [])}
      refl
