-- ===== src/SearchPath.antt =====
-- PROJ's search path and the threads that follow it (geodetic_engine/_search_path.py). The path is
-- shared; each thread's PROJ context is pointed at a path of its own. One thread is followed step by
-- step, against switches that another thread makes under the lock. What a path's databases are on
-- disk, `_identity`, is a parameter, and does not change here.
pub mod Calls
pub mod Race
use geodetic_engine.Base.{
  ℕ, zero, suc, ◌+◌, Bool, true, false, ◌&&◌, Option, none, some, List, [], ◌∷◌, Eq, ◌==◌, nat_eq,
  if◌then◌else◌,
}

-- The search path, how often it was switched, and a switch that is counted but not yet made.
pub record Shared (P : Type 0) : Type 0 where
  pub path : P
  pub count : ℕ
  pub pending : Option P

-- Where the thread is in `database_identity`: with the identity and the count that it has read.
pub data At (I : Type 0) : Type 0 where
  idle : At I
  read_path : I → At I
  read_count : I → ℕ → At I
  pointed : I → ℕ → At I
  read_again : I → ℕ → I → At I
  returned : I → At I

pub record Thread (P I : Type 0) : Type 0 where
  pub context : P
  pub seen : Option (I × ℕ)
  pub place : At I

-- `set_search_path`: the count first, then the path. The lock lets one switch be under way.
unfoldable pub begin_switch : {P : Type 0} → P → Shared P → Shared P
begin_switch p sh = elim sh.pending [
  | none ↦ record sh { count = sh.count + 1; pending = some p }
  | some q ↦ sh
]

unfoldable pub finish_switch : {P : Type 0} → Shared P → Shared P
finish_switch sh = elim sh.pending [ none ↦ sh | some p ↦ record sh { path = p; pending = none } ]

-- What happens, in the order in which it happens: another thread counts a switch or makes it, the
-- thread sets a path of its own with pyproj, or it takes a step.
pub data Event (P : Type 0) : Type 0 where
  counts : P → Event P
  makes : Event P
  sets : P → Event P
  steps : Event P

module _ {P I : Type 0} ⦃e : Eq I⦄ (identity : P → I) where
  -- `_thread.seen == (identity, generation)`
  abbrev pub matches : Option (I × ℕ) → I → ℕ → Bool
  matches none i g = false
  matches (some (j, h)) i g = j == i && h == g

  -- One step of `database_identity`, from its loop's head to its return, or back to the head.
  unfoldable pub thread_step : Shared P → Thread P I → Thread P I
  thread_step sh t = elim t.place [
    | idle ↦ record t { place = read_path (identity sh.path) }
    | read_path i ↦ record t { place = read_count i sh.count }
    | read_count i g ↦
        if matches t.seen i g
        then record t { place = returned i }
        else record t { context = sh.path; place = pointed i g }
    | pointed i g ↦ record t { place = read_again i g (identity sh.path) }
    | read_again i g j ↦
        if j == i && sh.count == g
        then record t { seen = some (i, g); place = returned i }
        else record t { place = idle }
    | returned i ↦ record t { place = idle }
  ]

  -- `followed`, without the path that is no directory.
  unfoldable pub followed : Shared P → Thread P I → Bool
  followed sh t = matches t.seen (identity sh.path) sh.count

  unfoldable pub happen : Event P → Shared P × Thread P I → Shared P × Thread P I
  unfolding begin_switch finish_switch thread_step
  happen (counts p) (sh, t) = (begin_switch p sh, t)
  happen makes (sh, t) = (finish_switch sh, t)
  happen (sets p) (sh, t) = (record sh { path = p }, record t { context = p })
  happen steps (sh, t) = (sh, thread_step sh t)

  unfoldable pub run : List (Event P) → Shared P × Thread P I → Shared P × Thread P I
  unfolding happen
  run [] w = w
  run (x ∷ xs) w = run xs (happen x w)
