-- ===== src/SearchPath/Race.antt =====
-- Two switches across one call of `database_identity` (geodetic_engine/_search_path.py).
use geodetic_engine.Base.{ℕ, ◌≡◌, ◌≢◌, true, none, List, [], ◌∷◌, Eq, nat_eq, arith}
use geodetic_engine.SearchPath.{idle, returned, Event, counts, makes, steps, followed, run}

-- A switch from one path to another is made after the thread has read the first, and a second switch
-- back is counted before the thread reads the count and made after it has pointed its context.
abbrev pub there_and_back : {P : Type 0} → P → P → List (Event P)
there_and_back p q =
    counts q ∷ steps ∷ makes ∷ counts p ∷ steps ∷ steps ∷ makes ∷ steps ∷ steps ∷ []

module _ {P I : Type 0} ⦃e : Eq I⦄ (identity : P → I) where
  -- For any two paths with different databases there is an order of events, with two switches and
  -- one call of `database_identity`, after which the call has returned the identity of the search
  -- path, the thread counts as following it, and its context is pointed at the other databases.
  pub there_and_back_stale :
      (p q : P) (n : ℕ)
      → identity p ≢ identity q
      → let (sh, t) = run identity (there_and_back p q) (
        record { path = p; count = n; pending = none },
        record { context = p; seen = none; place = idle },
      ) in
        (t.place ≡ returned (identity sh.path))
        × (followed identity sh t ≡ true)
        × (identity t.context ≢ identity sh.path)
  unfolding run followed
  there_and_back_stale p q n h = ground arith
