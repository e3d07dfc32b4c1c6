-- ===== src/Georepository/Links/Caching.antt =====
-- What the client keeps of the objects that it has read, and where their exports are
-- (geodetic_engine/georepository/client.py).
use geodetic_engine.Base.{
  ℕ, ◌≡◌, sym, Bool, true, false, some, [], ◌∷◌, ◌++◌, ◌==◌, Text, text_eq, nat_eq, codes,
  if◌then◌else◌, ok, arith, Option-cases, Result-cases, inl, inr,
}
use geodetic_engine.Base.Dict
use mathlib.Core.List.{append_assoc}
use geodetic_engine.Base.Texts.{is_empty, all, rstrip, rstrip-append, split_last-append}
use geodetic_engine.Georepository.Links.{
  Item, Client, Register, rpartition, linked, get_object, self_href, export_url, unquoted, wkt,
  ends_with, is_slash,
}

module _ {E C : Type 0} (reg : Register E C) where
  -- An object that has been read is read again from the cache, as the same object and with no
  -- request, whatever the register would answer by then.
  pub get_object_twice :
      (url : Text) (c : Client C) {item : Item C} {c' : Client C}
      → get_object reg url c ≡ (ok item, c')
      → get_object reg url c' ≡ (ok item, c')
  unfolding get_object
  get_object_twice url c h = elim (Option-cases (Dict.lookup url c.object_cache)) [
    | inr (item, e) ↦ ground (arith, e)
    | inl e ↦ elim (Result-cases (reg.request c.requests url)) [
      | inr (x, f) ↦ absurd (ground (arith, e, f))
      | inl (payload, f) ↦
          ground (arith, e, f, Dict.lookup-insert url url (linked reg url payload) c.object_cache)
    ]
  ]

  -- Each object in the cache has a link.
  abbrev pub IsLinked : Client C → Type 0
  IsLinked c =
      (url : Text) (item : Item C)
      → Dict.lookup url c.object_cache ≡ some item
      → is_empty item.links ≡ false

  linked-links : (url : Text) (item : Item C) → is_empty (linked reg url item).links ≡ false
  linked-links url item = ground arith

  -- Every object that `get_object` returns has a link by which its own resources are reached, and
  -- so has every object in the cache after it, if each in the cache before had one.
  pub get_object-IsLinked :
      (url : Text) (c : Client C) {item : Item C} {c' : Client C}
      → IsLinked c
      → get_object reg url c ≡ (ok item, c')
      → (is_empty item.links ≡ false) × IsLinked c'
  unfolding get_object
  get_object-IsLinked url c l h = elim (Option-cases (Dict.lookup url c.object_cache)) [
    | inr (item, e) ↦ (ground (arith, e, l url item e), λ u i f. l u i (ground (arith, e, f)))
    | inl e ↦ elim (Result-cases (reg.request c.requests url)) [
      | inr (x, f) ↦ absurd (ground (arith, e, f))
      | inl (payload, f) ↦ (
        ground (arith, e, f, linked-links url payload),
        λ u i g. elim (text_eq.dec u url) [
          | yes q ↦ ground (
            arith,
            e,
            f,
            g,
            Dict.lookup-insert u url (linked reg url payload) c.object_cache,
            linked-links url payload,
          )
          | no n ↦ l u i (
              ground
                (arith, e, f, g, Dict.lookup-insert u url (linked reg url payload) c.object_cache))
        ],
      )
    ]
  ]

  -- An export that has been read and was not empty is read again from the cache, as the same text
  -- and with no request.
  pub wkt_twice :
      (item : Item C) (c : Client C) {text : Text} {c' : Client C}
      → wkt reg item c ≡ (ok (some text), c')
      → wkt reg item c' ≡ (ok (some text), c')
  unfolding wkt
  wkt_twice item c h = elim (Option-cases (self_href reg item)) [
    | inl e ↦ absurd (ground (arith, e))
    | inr (href, e) ↦ elim (Option-cases (Dict.lookup (export_url href) c.wkt_cache)) [
      | inr (found, f) ↦ ground (arith, e, f)
      | inl f ↦ elim (Result-cases (reg.request_text c.requests (export_url href))) [
        | inr (x, g) ↦ absurd (ground (arith, e, f, g))
        | inl (payload, g) ↦ ground (
          arith,
          e,
          f,
          g,
          Dict.lookup-insert (export_url href) (export_url href) (unquoted reg payload) c.wkt_cache,
        )
      ]
    ]
  ]

abbrev pub no_slash : Text → Bool
no_slash t = all (λ c. if c == b'/' then false else true) t

rpartition-append : (b a : Text) → no_slash a ≡ true → rpartition (b ++ (b'/' ∷ a)) ≡ (b, a)
rpartition-append b a h = ground (arith, split_last-append b'/' b a h)

below-append :
    (b : Bool) (root other collection rest : Text)
    → (if b then root ++ (b'/' ∷ other) else root ++ (b'/' ∷ collection)) ++ rest
      ≡ root ++ (b'/' ∷ ((if b then other else collection) ++ rest))
below-append true root other collection rest = append_assoc root (b'/' ∷ other) rest
below-append false root other collection rest = append_assoc root (b'/' ∷ collection) rest

-- The object at an URL of a collection is exported below the collection itself, or below
-- `CoordRefSystem` if the name of the collection ends so.
pub export_url_lem :
    (root collection : Text) (c : ℕ) (code : Text)
    → no_slash collection ≡ true
    → no_slash (c ∷ code) ≡ true
    → export_url (root ++ (b'/' ∷ (collection ++ (b'/' ∷ c ∷ code))))
      ≡ root
        ++ (b'/'
            ∷ ((if ends_with (codes "CoordRefSystem") collection
                  then codes "CoordRefSystem"
                  else collection)
                ++ (codes "/" ++ ((c ∷ code) ++ codes "/export"))))
unfolding export_url
export_url_lem root collection c code h k =
    let below = root ++ (b'/' ∷ collection) in
    let whole : below ++ (b'/' ∷ c ∷ code) ≡ root ++ (b'/' ∷ (collection ++ (b'/' ∷ c ∷ code))) =
      append_assoc root (b'/' ∷ collection) (b'/' ∷ c ∷ code) in
    let slash : (below ++ (b'/' ∷ [])) ++ (c ∷ code) ≡ below ++ (b'/' ∷ c ∷ code) =
      append_assoc below (b'/' ∷ []) (c ∷ code) in
    let stripped = rstrip-append is_slash (below ++ (b'/' ∷ [])) c code k in
    let unstripped : rstrip is_slash (below ++ (b'/' ∷ c ∷ code)) ≡ below ++ (b'/' ∷ c ∷ code) =
      rw slash at stripped in
    rw
      (
        sym whole,
        unstripped,
        rpartition-append below (c ∷ code) k,
        rpartition-append root collection h,
      )
      (below-append (ends_with (codes "CoordRefSystem") collection) root (codes "CoordRefSystem")
        collection (codes "/" ++ ((c ∷ code) ++ codes "/export")))
