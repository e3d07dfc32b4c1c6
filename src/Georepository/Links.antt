-- ===== src/Georepository/Links.antt =====
-- Following links, and the export of an object (`_export_url`, `get_object`, `resolve`,
-- `self_href`, `detail`, `wkt` of geodetic_engine/georepository/client.py).
pub mod Caching
use geodetic_engine.Base.{
  ℕ, ◌+◌, Bool, true, false, not, ◌&&◌, Option, none, some, List, [], ◌∷◌, ◌++◌, ◌==◌, contains,
  Text, text_eq, nat_eq, codes, if◌then◌else◌, Result, ok, err, ◌>>=◌,
}
use geodetic_engine.Base.Dict
use geodetic_engine.Base.Dict.{Dict}
use geodetic_engine.Base.Texts.{is_empty, strip, rstrip, split_last}

-- A `ChildLink`, as far as it is read; a value that is absent is `none`.
pub record Link : Type 0 where
  pub href : Option Text
  pub rel : Option Text

-- A JSON object of the register: its `Links`, empty where there are none, and the rest.
pub record Item (C : Type 0) : Type 0 where
  pub links : List Link
  pub content : C

-- A client, with the number of requests that it has sent.
pub record Client (C : Type 0) : Type 0 where
  pub object_cache : Dict Text (Item C)
  pub wkt_cache : Dict Text Text
  pub requests : ℕ

-- The register, which may answer the same request differently each time, and the functions that
-- the client takes from Python.
pub record Register (E C : Type 0) : Type 0 where
  pub request : ℕ → Text → Result E (Item C)
  pub request_text : ℕ → Text → Result E Text
  pub casefold : Text → Text
  pub space : ℕ → Bool
  pub json_text : Text → Option Text

-- `text.rpartition("/")`
abbrev pub rpartition : Text → Text × Text
rpartition t = elim (split_last b'/' t) [ none ↦ ([], t) | some (head, tail) ↦ (head, tail) ]

-- `text.endswith(suffix)`
unfoldable pub ends_with : Text → Text → Bool
ends_with suffix [] = is_empty suffix
ends_with suffix (c ∷ t) = let rest = ends_with suffix t in if suffix == c ∷ t then true else rest

abbrev pub is_slash : ℕ → Bool
is_slash c = c == b'/'

unfoldable pub export_url : Text → Text
unfolding split_last rstrip
export_url href =
    let (prefix, code) = rpartition (rstrip is_slash href) in
    let (root, collection) = rpartition prefix in
    let prefix' =
      if ends_with (codes "CoordRefSystem") collection
      then root ++ codes "/CoordRefSystem"
      else prefix in
    prefix' ++ (codes "/" ++ (code ++ codes "/export"))

-- `value or ""`, and whether it is neither absent nor empty
abbrev pub or_empty : Option Text → Text
or_empty none = []
or_empty (some t) = t

abbrev pub is_given : Option Text → Bool
is_given none = false
is_given (some t) = not (is_empty t)

-- `text.startswith('"')`
abbrev pub is_quoted : Text → Bool
is_quoted [] = false
is_quoted (c ∷ t) = c == b'"'

module _ {E C : Type 0} (reg : Register E C) where
  abbrev pub is_self : Link → Bool
  is_self link =
      is_given link.href && contains (codes "self" ∷ [] ∷ []) (reg.casefold (or_empty link.rel))

  unfoldable pub first_self : List Link → Option Text
  first_self [] = none
  first_self (link ∷ links) =
      let rest = first_self links in if is_self link then link.href else rest

  abbrev pub first_href : List Link → Option Text
  first_href [] = none
  first_href (link ∷ links) = if is_given link.href then link.href else none

  unfoldable pub self_href : Item C → Option Text
  unfolding first_self
  self_href item = elim (first_self item.links) [
    | some url ↦ some url
    | none ↦ first_href item.links
  ]

  -- A payload without links is given one to itself.
  abbrev pub linked : Text → Item C → Item C
  linked url item =
      if is_empty item.links
      then record item { links = record { href = some url; rel = some (codes "self") } ∷ [] }
      else item

  unfoldable pub get_object : Text → Client C → Result E (Item C) × Client C
  get_object url c = elim (Dict.lookup url c.object_cache) [
    | some cached ↦ (ok cached, c)
    | none ↦
        let sent = record c { requests = c.requests + 1 } in
        elim (reg.request c.requests url) [
          | err e ↦ (err e, sent)
          | ok payload ↦ (
            ok (linked url payload),
            record sent { object_cache = Dict.insert url (linked url payload) c.object_cache },
          )
        ]
  ]

  -- No link, or one without an URL, leads to the empty mapping, here `none`.
  unfoldable pub resolve : Option Link → Client C → Result E (Option (Item C)) × Client C
  resolve none c = (ok none, c)
  resolve (some link) c =
      if is_given link.href
      then (let (item, c') = get_object (or_empty link.href) c in
          (item >>= λ found. ok (some found), c'))
      else (ok none, c)

  unfoldable pub detail : Item C → Client C → Result E (Item C) × Client C
  detail item c = elim (self_href item) [
    | none ↦ (ok item, c)
    | some href ↦ if is_empty href then (ok item, c) else get_object href c
  ]

  -- A quoted body is read as a JSON string, and kept where it is none.
  unfoldable pub unquoted : Text → Text
  unfolding strip ends_with
  unquoted payload =
      let text = strip reg.space payload in
      if is_quoted text && ends_with (codes "\"") text
      then elim (reg.json_text text) [ none ↦ text | some read ↦ read ]
      else text

  unfoldable pub wkt : Item C → Client C → Result E (Option Text) × Client C
  wkt item c = elim (self_href item) [
    | none ↦ (ok none, c)
    | some href ↦ elim (Dict.lookup (export_url href) c.wkt_cache) [
      | some text ↦ (ok (some text), c)
      | none ↦
          let sent = record c { requests = c.requests + 1 } in
          elim (reg.request_text c.requests (export_url href)) [
            | err e ↦ (err e, sent)
            | ok payload ↦ if is_empty (unquoted payload) then (ok none, sent) else (
              ok (some (unquoted payload)),
              record sent {
                wkt_cache = Dict.insert (export_url href) (unquoted payload) c.wkt_cache;
              },
            )
          ]
    ]
  ]
