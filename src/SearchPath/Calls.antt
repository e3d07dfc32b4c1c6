-- ===== src/SearchPath/Calls.antt =====
-- Calls of `database_identity` that nothing interrupts (geodetic_engine/_search_path.py).
use geodetic_engine.Base.{
  ℕ, ◌≤◌, ◌≡◌, refl, true, false, Option, none, some, List, [], ◌∷◌, Eq, nat_eq, arith, inl, inr,
  Bool-cases,
}
use geodetic_engine.SearchPath.{
  Shared, idle, returned, Thread, begin_switch, finish_switch, matches, thread_step,
}

-- What happens between calls: a whole switch by another thread, a path that the thread sets, or a
-- call of the thread's.
pub data Turn (P : Type 0) : Type 0 where
  switches : P → Turn P
  sets_own : P → Turn P
  calls : Turn P

module _ {P I : Type 0} ⦃e : Eq I⦄ (identity : P → I) where
  -- A call from the loop's head to the return, with no other event in between: it reads the path
  -- and the count, and then returns, or points the context and reads them once more.
  abbrev pub call : Shared P → Thread P I → Thread P I
  call sh t =
      let t' = thread_step identity sh (thread_step identity sh t) in
      let hit = thread_step identity sh t' in
      elim hit.place [
        | returned i ↦ hit
        | _ ↦ thread_step identity sh (thread_step identity sh hit)
      ]

  -- The thread after it has taken the value that a call returned.
  abbrev pub settled : Thread P I → Thread P I
  settled t = record t { place = idle }

  unfoldable pub turn : Turn P → Shared P × Thread P I → Shared P × Thread P I
  turn (switches p) (sh, t) = (finish_switch (begin_switch p sh), t)
  turn (sets_own p) (sh, t) = (record sh { path = p }, record t { context = p })
  turn calls (sh, t) = (sh, settled (call sh t))

  unfoldable pub turns : List (Turn P) → Shared P × Thread P I → Shared P × Thread P I
  unfolding turn
  turns [] w = w
  turns (x ∷ xs) w = turns xs (turn x w)

  -- What the thread remembers is true of its context, if the path and the count are still those.
  abbrev Remembers : Shared P → Thread P I → Type 0
  Remembers sh t =
      (i : I) (g : ℕ)
      → t.seen ≡ some (i, g)
      → (g ≤ sh.count) × (g ≡ sh.count → identity sh.path ≡ i → identity t.context ≡ i)

  abbrev Sound : Shared P × Thread P I → Type 0
  Sound w = (w.0.pending ≡ none) × (w.1.place ≡ idle) × Remembers w.0 w.1

  call_hit :
      (sh : Shared P) (t : Thread P I)
      → t.place ≡ idle
      → matches identity t.seen (identity sh.path) sh.count ≡ true
      → call sh t ≡ record t { place = returned (identity sh.path) }
  unfolding thread_step
  call_hit sh t p h = ground arith

  call_miss :
      (sh : Shared P) (t : Thread P I)
      → t.place ≡ idle
      → matches identity t.seen (identity sh.path) sh.count ≡ false
      → call sh t ≡ record {
        context = sh.path;
        seen = some (identity sh.path, sh.count);
        place = returned (identity sh.path);
      }
  unfolding thread_step
  call_miss sh t p h = ground arith

  hit-seen : (s : Option (I × ℕ)) (i : I) (g : ℕ) → matches identity s i g ≡ true → s ≡ some (i, g)
  hit-seen none i g h = absurd (ground arith)
  hit-seen (some (j, k)) i g h = ground arith

  call-follows :
      (sh : Shared P) (t : Thread P I)
      → t.place ≡ idle
      → Remembers sh t
      → ((call sh t).place ≡ returned (identity sh.path))
        × (identity (call sh t).context ≡ identity sh.path)
        × Remembers sh (call sh t)
  call-follows sh t p r = elim (Bool-cases (matches identity t.seen (identity sh.path) sh.count)) [
    | inl h ↦
        rw (call_hit sh t p h)
          (refl, (r (identity sh.path) sh.count (hit-seen _ _ _ h)).1 refl refl, r)
    | inr h ↦ rw (call_miss sh t p h) (refl, refl, λ i g s. (ground arith, λ a b. b))
  ]

  turn-Sound : (x : Turn P) (w : Shared P × Thread P I) → Sound w → Sound (turn x w)
  unfolding turn begin_switch finish_switch
  turn-Sound (switches p) (sh, t) (a, b, r) =
      (ground arith, b, λ i g s. (ground (arith, r i g s), λ e. absurd (ground (arith, r i g s))))
  turn-Sound (sets_own p) (sh, t) (a, b, r) = (a, b, λ i g s. ((r i g s).0, λ f h. h))
  turn-Sound calls (sh, t) (a, b, r) = (a, refl, (call-follows sh t b r).2)

  turns-Sound : (xs : List (Turn P)) (w : Shared P × Thread P I) → Sound w → Sound (turns xs w)
  unfolding turns
  turns-Sound [] w s = s
  turns-Sound (x ∷ xs) w s = turns-Sound xs (turn x w) (turn-Sound x w s)

  -- After any number of whole switches by other threads, paths that the thread itself set and calls,
  -- in any order, from a thread that has remembered nothing, an uninterrupted call of
  -- `database_identity` returns the identity of the search path, and the thread's own context is
  -- then pointed at databases of that identity.
  pub turns-call :
      (xs : List (Turn P)) (path context : P) (count : ℕ)
      → let (sh, t) = turns xs (
        record { path = path; count = count; pending = none },
        record { context = context; seen = none; place = idle },
      ) in
        ((call sh t).place ≡ returned (identity sh.path))
        × (identity (call sh t).context ≡ identity sh.path)
  turns-call xs path context count =
      let w : Shared P × Thread P I = turns xs (
        record { path = path; count = count; pending = none },
        record { context = context; seen = none; place = idle },
      ) in
      let (a, b, r) =
        turns-Sound xs
          (
            record { path = path; count = count; pending = none },
            record { context = context; seen = none; place = idle },
          )
          (refl, refl, λ i g s. absurd (ground arith)) in
      let (p, q, m) = call-follows w.0 w.1 b r in (p, q)
