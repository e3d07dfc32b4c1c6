-- ===== src/Georepository/Cache/Laws.antt =====
-- What the cache serves and keeps (geodetic_engine/georepository/cache.py).
use geodetic_engine.Base.{
  ℕ, ◌+◌, ◌≡◌, ◌≢◌, refl, sym, subst, Bool, true, false, Option, none, some, [], ◌∷◌, ◌++◌, nat_eq,
  Text, text_eq, codes, arith, ◌⊎◌, inl, inr, Option-cases,
}
use geodetic_engine.Base.Dict
use geodetic_engine.Base.Texts.{split_first-append}
use geodetic_engine.Georepository.Cache.{
  Request, Response, CacheKey, cache_key_eq, Row, Zlib, Cache, key_of, is_cacheable, shown_type,
  read, write, fetch_and_store, handle_request,
}

-- Only answers with the status 200 are kept.
pub record IsHonest (c : Cache) : Type 0 where
  pub kept : (k : CacheKey) (row : Row) → Dict.lookup k c.rows ≡ some row → row.status ≡ 200

-- What `zlib` documents.
pub record IsLossless (z : Zlib) : Type 0 where
  pub back : (t : Text) → z.decompress (z.compress t) ≡ t

-- The content type of an answer, or none if it is empty.
abbrev pub IsShownAs : Option Text → Option Text → Type 0
IsShownAs none shown = shown ≡ none
IsShownAs (some []) shown = shown ≡ none
IsShownAs (some (c ∷ t)) shown = shown ≡ some (c ∷ t)

shown_type-IsShownAs : (t : Option Text) → IsShownAs t (shown_type t)
shown_type-IsShownAs none = refl
shown_type-IsShownAs (some []) = refl
shown_type-IsShownAs (some (c ∷ t)) = refl

module _ (z : Zlib) (wrapped : ℕ → Request → Response) where
  fetch_and_store-IsHonest :
      (r : Request) (c : Cache) → IsHonest c → IsHonest (fetch_and_store z wrapped r c).1
  unfolding fetch_and_store write
  fetch_and_store-IsHonest r c h = record {
    kept = λ k row e. ground (
      arith,
      h.kept k row,
      Dict.lookup-insert k (key_of r)
          (record {
            status = (wrapped c.travelled r).status;
            content_type = (wrapped c.travelled r).content_type;
            body = z.compress (wrapped c.travelled r).body;
          })
          c.rows,
    );
  }

  -- The rows that a request leaves.
  handle_request-rows :
      (refresh : Bool) (r : Request) (c : Cache)
      → ((handle_request z wrapped refresh r c).1.rows ≡ c.rows)
        ⊎ ((handle_request z wrapped refresh r c).1.rows ≡ (fetch_and_store z wrapped r c).1.rows)
  unfolding handle_request
  handle_request-rows refresh r c = elim (Option-cases (Dict.lookup (key_of r) c.rows)) [
    | inl e ↦ rw (e, handle_request, read) (ground arith)
    | inr (row, e) ↦ rw (e, handle_request, read) (ground arith)
  ]

  -- Whatever a request is answered with, only answers with the status 200 are in the cache after it
  -- if that was so before.
  pub handle_request-IsHonest :
      (refresh : Bool) (r : Request) (c : Cache)
      → IsHonest c
      → IsHonest (handle_request z wrapped refresh r c).1
  handle_request-IsHonest refresh r c h =
      let stored = fetch_and_store-IsHonest r c h in
      elim (handle_request-rows refresh r c) [
        | inl e ↦ record { kept = λ k row f. h.kept k row (rw e at f) }
        | inr e ↦ record { kept = λ k row f. stored.kept k row (rw e at f) }
      ]

  -- A request that is no `GET`, or whose path holds `/VersionHistory`, travels and is answered by
  -- the server, and leaves the rows and the statistics of the cache as they are.
  pub handle_request_passes :
      (refresh : Bool) (r : Request) (c : Cache) (before after : Text)
      → (r.method ≢ codes "GET") ⊎ (r.path ≡ before ++ (codes "/VersionHistory" ++ after))
      → handle_request z wrapped refresh r c
        ≡ (wrapped c.travelled r, record c { travelled = c.travelled + 1 })
  unfolding handle_request is_cacheable
  handle_request_passes refresh r c before after (inl h) = ground arith
  handle_request_passes refresh r c before after (inr h) =
      ground (arith, split_first-append b'/' (codes "VersionHistory") before after)

  shown_type_idem : (t : Option Text) → shown_type (shown_type t) ≡ shown_type t
  shown_type_idem none = refl
  shown_type_idem (some []) = refl
  shown_type_idem (some (x ∷ t)) = refl

  -- What a request that was served or kept is answered from then on.
  abbrev Answers : Request → Response → Cache → Type 0
  Answers r a c =
      (row : Row) × (Dict.lookup (key_of r) c.rows ≡ some row)
      × (a.status ≡ row.status)
      × (a.body ≡ z.decompress row.body)
      × (shown_type a.content_type ≡ shown_type row.content_type)

  fetch_and_store-Answers :
      IsLossless z
      → (r : Request) (c : Cache) → (fetch_and_store z wrapped r c).0.status ≡ 200
      → let (a, c') = fetch_and_store z wrapped r c in Answers r a c'
  unfolding fetch_and_store write
  fetch_and_store-Answers zl r c h =
      let a = wrapped c.travelled r in
      let row : Row = record {
        status = a.status;
        content_type = a.content_type;
        body = z.compress a.body;
      } in
      (
        row,
        ground (arith, Dict.lookup-insert (key_of r) (key_of r) row c.rows),
        ground arith,
        ground (arith, zl.back a.body),
        ground arith,
      )

  handle_request_served :
      (r : Request) (row : Row) (c : Cache)
      → is_cacheable r ≡ true
      → Dict.lookup (key_of r) c.rows ≡ some row
      → handle_request z wrapped false r c ≡ (
        record {
          status = row.status;
          content_type = shown_type row.content_type;
          body = z.decompress row.body;
        },
        record c { hits = c.hits + 1 },
      )
  unfolding handle_request read
  handle_request_served r row c g e = ground arith

  handle_request_missed :
      (r : Request) (c : Cache)
      → is_cacheable r ≡ true
      → Dict.lookup (key_of r) c.rows ≡ none
      → handle_request z wrapped false r c
        ≡ fetch_and_store z wrapped r (record c { misses = c.misses + 1 })
  unfolding handle_request read
  handle_request_missed r c g e = ground arith

  handle_request_afresh :
      (r : Request) (c : Cache)
      → is_cacheable r ≡ true
      → handle_request z wrapped true r c ≡ fetch_and_store z wrapped r c
  unfolding handle_request
  handle_request_afresh r c g = ground arith

  handle_request-Answers :
      IsLossless z
      → (refresh : Bool) (r : Request) (c : Cache) → is_cacheable r ≡ true
      → (handle_request z wrapped refresh r c).0.status ≡ 200
      → let (a, c') = handle_request z wrapped refresh r c in Answers r a c'
  handle_request-Answers zl true r c g h =
      rw (handle_request_afresh r c g)
        (fetch_and_store-Answers zl r c (rw (handle_request_afresh r c g) at h))
  handle_request-Answers zl false r c g h = elim (Option-cases (Dict.lookup (key_of r) c.rows)) [
    | inl e ↦
        rw (handle_request_missed r c g e)
          (fetch_and_store-Answers zl r _ (rw (handle_request_missed r c g e) at h))
    | inr (row, e) ↦
        rw (handle_request_served r row c g e)
          (row, e, refl, refl, shown_type_idem row.content_type)
  ]

  -- A request that may be cached and was answered with the status 200, from the server or from the
  -- cache, is answered alike the next time if the build does not refresh: with the same status and
  -- body and the same content type, an empty one counting as none, and without travelling.
  pub handle_request_twice :
      IsLossless z
      → (refresh : Bool) (r : Request) (c : Cache) → is_cacheable r ≡ true
      → (handle_request z wrapped refresh r c).0.status ≡ 200
      → let (a, c') = handle_request z wrapped refresh r c in
        let (b, c'') = handle_request z wrapped false r c' in
        (b.status ≡ a.status)
        × (b.body ≡ a.body)
        × IsShownAs a.content_type b.content_type
        × (c''.travelled ≡ c'.travelled)
  handle_request_twice zl refresh r c g h =
      let (row, e, s, b, t) = handle_request-Answers zl refresh r c g h in
      rw (handle_request_served r row (handle_request z wrapped refresh r c).1 g e) (
        sym s,
        sym b,
        subst (IsShownAs (handle_request z wrapped refresh r c).0.content_type) t
            (shown_type-IsShownAs (handle_request z wrapped refresh r c).0.content_type),
        refl,
      )
