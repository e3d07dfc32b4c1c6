-- ===== src/Georepository/Cache.antt =====
-- `ResponseCache` and `CachingTransport` (geodetic_engine/georepository/cache.py). The wrapped
-- transport is a function from the number of requests that have reached it and the request, so it
-- may answer anew each time; `zlib` is a parameter. The lock and the timestamps are left out: no
-- answer depends on them.
pub mod Laws
use geodetic_engine.Base.{
  ℕ, ◌+◌, Bool, true, false, not, ◌&&◌, Option, none, some, List, [], ◌∷◌, ◌==◌, nat_eq, Text,
  text_eq, Text-discrete, Eq, codes, if◌then◌else◌,
}
use geodetic_engine.Base.Dict
use geodetic_engine.Base.Dict.{Dict}
use geodetic_engine.Base.Texts.{split_first, is_empty}

-- `httpx.Request`, as far as the transport reads it.
pub record Request : Type 0 where
  pub method : Text
  pub url : Text
  pub path : Text
  pub accept : Text

pub record Response : Type 0 where
  pub status : ℕ
  pub content_type : Option Text
  pub body : Text

-- The primary key of the table `response`.
pub record CacheKey : Type 0 where
  pub url : Text
  pub accept : Text

CacheKey-discrete : Discrete CacheKey
unfolding Text-discrete
CacheKey-discrete = hlevel Text-discrete

instance unfoldable pub cache_key_eq : Eq CacheKey
unfolding CacheKey-discrete
cache_key_eq = record { dec = CacheKey-discrete }

-- A row of the table `response`, its body compressed.
pub record Row : Type 0 where
  pub status : ℕ
  pub content_type : Option Text
  pub body : Text

pub record Zlib : Type 0 where
  pub compress : Text → Text
  pub decompress : Text → Text

-- The cache with its statistics, and how many requests have travelled.
pub record Cache : Type 0 where
  pub rows : Dict CacheKey Row
  pub hits : ℕ
  pub misses : ℕ
  pub stored : ℕ
  pub travelled : ℕ

abbrev pub key_of : Request → CacheKey
key_of r = record { url = r.url; accept = r.accept }

-- `_is_cacheable`
unfoldable pub is_cacheable : Request → Bool
is_cacheable r =
    r.method == codes "GET"
    && (elim (split_first (codes "/VersionHistory") r.path) [ none ↦ true | some _ ↦ false ])

-- The headers of a response from the cache: an empty content type is left out.
abbrev pub shown_type : Option Text → Option Text
shown_type none = none
shown_type (some t) = if is_empty t then none else some t

module _ (z : Zlib) (wrapped : ℕ → Request → Response) where
  -- `ResponseCache.read`
  unfoldable pub read : CacheKey → Cache → Option Response × Cache
  read k c = elim (Dict.lookup k c.rows) [
    | none ↦ (none, record c { misses = c.misses + 1 })
    | some row ↦ (
      some (record {
        status = row.status;
        content_type = row.content_type;
        body = z.decompress row.body;
      }),
      record c { hits = c.hits + 1 },
    )
  ]

  -- `ResponseCache.write`
  unfoldable pub write : CacheKey → Response → Cache → Cache
  write k r c = record c {
    rows =
        Dict.insert k
          (record { status = r.status; content_type = r.content_type; body = z.compress r.body })
          c.rows;
    stored = c.stored + 1;
  }

  -- A request to the wrapped transport.
  abbrev pub travel : Request → Cache → Response × Cache
  travel r c = (wrapped c.travelled r, record c { travelled = c.travelled + 1 })

  -- What is not served locally is fetched, and stored if it is a 200.
  unfoldable pub fetch_and_store : Request → Cache → Response × Cache
  unfolding write
  fetch_and_store r c =
      let (response, c') = travel r c in
      if response.status == 200 then (response, write (key_of r) response c') else (response, c')

  unfoldable pub handle_request : Bool → Request → Cache → Response × Cache
  unfolding is_cacheable read fetch_and_store
  handle_request refresh r c =
      if not (is_cacheable r)
      then travel r c
      else if refresh
      then fetch_and_store r c
      else let (found, c') = read (key_of r) c in
        elim found [
          | none ↦ fetch_and_store r c'
          | some s ↦ (record s { content_type = shown_type s.content_type }, c')
        ]

-- `ResponseCache.clear`
unfoldable pub clear : Cache → Cache
clear c = record c { rows = [] }
