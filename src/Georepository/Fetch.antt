-- ===== src/Georepository/Fetch.antt =====
-- `GeorepositoryClient._fetch` (geodetic_engine/georepository/client.py): the trusted origin and
-- the retries. How `httpx` reads a URL, and what each attempt comes back with, are parameters.
pub mod Retries
use geodetic_engine.Base.{
  ℕ, zero, suc, ◌+◌, ◌-◌, Bool, true, false, not, ◌&&◌, ◌||◌, Option, none, some, List, [], ◌∷◌,
  ◌==◌, nat_eq, contains, Text, text_eq, codes, if◌then◌else◌, Result, ok, err, ltb,
}

-- `httpx.URL`, as far as the check reads it. `port` is absent where the scheme's own is meant.
pub record Url : Type 0 where
  pub scheme : Text
  pub host : Text
  pub port : Option ℕ
  pub userinfo : Text
  pub fragment : Text

-- What an attempt comes back with: an `httpx.HTTPError`, or a status and a body.
pub data Reply (B : Type 0) : Type 0 where
  http_error : Reply B
  response : ℕ → B → Reply B

-- The three `GeorepositoryApiError`s that name a cause.
pub data FetchError : Type 0 where
  invalid_url untrusted attempts_failed : FetchError
  bad_status : ℕ → FetchError

-- How many requests were sent, and what the call returned or raised.
pub record Fetched (B : Type 0) : Type 0 where
  pub requests : ℕ
  pub result : Result FetchError B

abbrev pub max_attempts : ℕ
max_attempts = 3

abbrev pub retry_status : List ℕ
retry_status = 502 ∷ 503 ∷ 504 ∷ []

abbrev pub same_port : Option ℕ → Option ℕ → Bool
same_port none none = true
same_port (some a) (some b) = a == b
same_port _ _ = false

-- The origin check, before any request is sent.
unfoldable pub is_trusted : Url → Url → Bool
is_trusted destination origin =
    destination.scheme == codes "https"
    && destination.host == origin.host
    && same_port destination.port origin.port
    && destination.userinfo == []
    && destination.fragment == []

module _ {B : Type 0} (get : ℕ → Reply B) where
  -- The loop, from the attempt given on, while attempts are left.
  unfoldable pub attempts : ℕ → ℕ → Fetched B
  attempts attempt zero = record { requests = attempt - 1; result = err attempts_failed }
  attempts attempt (suc left) =
      let again = attempts (attempt + 1) left in
      elim (get attempt) [
        | http_error ↦
            if attempt == max_attempts
            then record { requests = attempt; result = err attempts_failed }
            else again
        | response status body ↦
            if contains retry_status status && ltb attempt max_attempts
            then again
            else if status == 200
            then record { requests = attempt; result = ok body }
            else record { requests = attempt; result = err (bad_status status) }
      ]

  unfoldable pub fetch : Option Url → Url → Fetched B
  unfolding attempts is_trusted
  fetch none origin = record { requests = 0; result = err invalid_url }
  fetch (some destination) origin =
      if not (is_trusted destination origin)
      then record { requests = 0; result = err untrusted }
      else attempts 1 max_attempts
