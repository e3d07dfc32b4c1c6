-- ===== src/Georepository/Fetch/Retries.antt =====
-- Which attempt decides a request, and where requests go
-- (geodetic_engine/georepository/client.py).
use geodetic_engine.Base.{
  ℕ, suc, ◌+◌, ◌<◌, ◌≡◌, refl, ◌⊎◌, Bool, true, not, Option, none, some, [], ◌==◌, nat_eq, contains,
  text_eq, codes, if◌then◌else◌, Result, ok, err, arith, inl, inr,
}
use geodetic_engine.Georepository.Fetch.{
  Url, Reply, http_error, response, FetchError, attempts_failed, bad_status, retry_status,
  is_trusted, attempts, fetch,
}

-- Whether a reply leads to another attempt, where one is left.
abbrev pub retryable : {B : Type 0} → Reply B → Bool
retryable http_error = true
retryable (response status body) = contains retry_status status

-- What a reply means where it decides the request.
abbrev pub verdict : {B : Type 0} → Reply B → Result FetchError B
verdict http_error = err attempts_failed
verdict (response status body) = if status == 200 then ok body else err (bad_status status)

-- The first of three replies that leads to no other attempt, and its number.
abbrev pub decisive : {B : Type 0} → Reply B → Reply B → Reply B → ℕ × Reply B
decisive a b c = if not (retryable a) then (1, a) else if not (retryable b) then (2, b) else (3, c)

Reply-cases :
    {B : Type 0} (r : Reply B)
    → (r ≡ http_error) ⊎ ((status : ℕ) × (body : B) × (r ≡ response status body))
Reply-cases http_error = inl refl
Reply-cases (response status body) = inr (status, body, refl)

module _ {B : Type 0} (get : ℕ → Reply B) where
  last_attempt : attempts get 3 1 ≡ record { requests = 3; result = verdict (get 3) }
  unfolding attempts nat_eq
  last_attempt = elim (Reply-cases (get 3)) [
    | inl e ↦ rw (e, attempts)
    | inr (s, b, e) ↦ rw (e, attempts) (ground arith)
  ]

  earlier :
      (n left : ℕ)
      → n < 3
      → attempts get n (suc left) ≡ (
          if retryable (get n)
          then attempts get (n + 1) left
          else record { requests = n; result = verdict (get n) })
  unfolding attempts
  earlier n left h = elim (Reply-cases (get n)) [
    | inl e ↦ rw (e, attempts) (ground arith)
    | inr (s, b, e) ↦ rw (e, attempts) (ground arith)
  ]

  attempts-decisive : attempts get 1 3 ≡ (
      let (n, r) = decisive (get 1) (get 2) (get 3) in record { requests = n; result = verdict r })
  attempts-decisive =
      ground (arith, earlier 1 2 (omega arith), earlier 2 1 (omega arith), last_attempt)

  -- A request to a trusted URL sends at most three requests, and comes to what the first reply says
  -- that is no error of the transport and no 502, 503 or 504, or else to what the third says: its
  -- body for a 200, an error that names any other status, and an error that says that the attempts
  -- failed where the third is one of the transport.
  pub fetch-decisive :
      (destination origin : Url)
      → is_trusted destination origin ≡ true
      → fetch get (some destination) origin ≡ (
          let (n, r) = decisive (get 1) (get 2) (get 3) in
          record { requests = n; result = verdict r })
  unfolding fetch
  fetch-decisive destination origin h = rw (h, fetch) attempts-decisive

  -- A request, which carries the credential, is sent only to an `https` URL with the host and the
  -- port of the configured API, no user information and no fragment.
  pub fetch_trusted :
      (url : Option Url) (origin : Url)
      → 0 < (fetch get url origin).requests
      → (destination : Url) × (url ≡ some destination)
        × (destination.scheme ≡ codes "https")
        × (destination.host ≡ origin.host)
        × (destination.port ≡ origin.port)
        × (destination.userinfo ≡ [])
        × (destination.fragment ≡ [])
  unfolding fetch is_trusted
  fetch_trusted none origin h = absurd (omega arith)
  fetch_trusted (some d) origin h =
      (d, refl, ground arith, ground arith, ground arith, ground arith, ground arith)
