-- ===== src/ProjDb/Publication/Atomic.antt =====
-- What a build leaves behind (geodetic_engine/projdb/writer.py).
use geodetic_engine.Base.{
  ◌≡◌, refl, Bool, true, false, not, ◌&&◌, ◌||◌, Option, none, some, ok, err, ◌>>=◌, ◌⊎◌, inl, inr,
  if◌then◌else◌, subst, Bool-cases, Option-cases, Result-cases, arith, ◌∙◌,
}
use geodetic_engine.ProjDb.Publication.{
  Build, Faults, Setting, is_file, or_base, Step, disconnect, rollback, open_steps, open_writer,
  write_rows, publish_staging, commit, exit, session,
}

abbrev pub final_state : {D : Type 0} → Step D → Build D
final_state (ok b) = b
final_state (err b) = b

-- A writer that is not in use.
pub record IsIdle {D : Type 0} (b : Build D) : Type 0 where
  pub unlocked : b.locked ≡ false
  pub disconnected : b.connection ≡ none
  pub unstaged : b.staging ≡ false
  pub no_file : b.staged_file ≡ none

abbrev pub no_faults : Faults
no_faults = record {
  mkstemp = false;
  snapshot = false;
  begin = false;
  commit = false;
  sync = false;
  replace = false;
  sync_directory = false;
  roll_back = false;
  close = false;
  unlink = false;
}

module _ {D : Type 0} (set : Setting D) (faults : Faults) where
  -- The contents that a build starts from.
  abbrev pub source : Build D → Option D
  source b =
      if set.append && is_file b.output
      then set.migrate (or_base b.output set.base)
      else some set.base

  -- What `open` leaves where it returns.
  record IsOpen (b b' : Build D) : Type 0 where
    output : b'.output ≡ b.output
    staging : b'.staging ≡ true
    locked : b'.locked ≡ true
    committed : b'.committed ≡ b.committed
    start :
        (d : D) × (source b ≡ some d)
        × (b'.connection ≡ some (record { working = d; in_transaction = true }))

  open_steps-output : (b : Build D) → (final_state (open_steps set faults b)).output ≡ b.output
  unfolding open_steps
  open_steps-output b = ground arith

  open_steps-kept : (b : Build D) → (final_state (open_steps set faults b)).committed ≡ b.committed
  unfolding open_steps
  open_steps-kept b = ground arith

  open_steps-IsOpen :
      (b : Build D) {b' : Build D} → b.locked ≡ true → open_steps set faults b ≡ ok b' → IsOpen b b'
  unfolding open_steps
  open_steps-IsOpen b h e = elim (Option-cases (set.migrate (or_base b.output set.base))) [
    | inl m ↦ record {
      output = ground arith;
      staging = ground arith;
      locked = ground arith;
      committed = ground arith;
      start = (set.base, ground arith, ground arith);
    }
    | inr (d, m) ↦ elim (Bool-cases (set.append && is_file b.output)) [
      | inl a ↦ record {
        output = ground arith;
        staging = ground arith;
        locked = ground arith;
        committed = ground arith;
        start = (d, ground arith, ground arith);
      }
      | inr a ↦ record {
        output = ground arith;
        staging = ground arith;
        locked = ground arith;
        committed = ground arith;
        start = (set.base, ground arith, ground arith);
      }
    ]
  ]

  -- A writer that could not be opened leaves the output as it was, and is idle again if what it has
  -- can be given up.
  open_writer-output :
      (b : Build D) {b' : Build D} → open_writer set faults b ≡ err b' → b'.output ≡ b.output
  unfolding open_writer open_steps rollback disconnect
  open_writer-output b e = ground arith

  open_writer-IsIdle :
      (b : Build D) {b' : Build D}
      → faults.roll_back ≡ false
      → faults.close ≡ false
      → faults.unlink ≡ false
      → IsIdle b
      → open_writer set faults b ≡ err b'
      → IsIdle b'
  unfolding open_writer open_steps rollback disconnect
  open_writer-IsIdle b r k u i e = record {
    unlocked = ground (arith, i.unlocked);
    disconnected = ground (arith, i.disconnected);
    unstaged = ground (arith, i.unstaged);
    no_file = ground (arith, i.no_file);
  }

  -- What is written through an open writer and how it is committed.
  abbrev write_and_commit : (D → Option D) → (D → Bool) → Bool → Build D → Step D
  write_and_commit edit valid publish b =
      write_rows set faults edit b >>= λ b'. commit set faults valid publish b'

  abbrev leave : Step D → Build D
  leave (ok b) = final_state (exit set faults false b)
  leave (err b) = final_state (exit set faults true b)

  write_and_commit-IsIdle :
      (edit : D → Option D) (valid : D → Bool) (publish : Bool) (b b' : Build D)
      → faults.roll_back ≡ false
      → faults.close ≡ false
      → faults.unlink ≡ false
      → b.committed ≡ false
      → IsOpen b b'
      → IsIdle (leave (write_and_commit edit valid publish b'))
  unfolding commit publish_staging exit rollback disconnect
  write_and_commit-IsIdle edit valid publish b b' r k u c o =
      let (d, _, e) = o.start in
      record {
        unlocked = ground (arith, e, o.staging, o.committed);
        disconnected = ground (arith, e, o.staging, o.committed);
        unstaged = ground (arith, e, o.staging, o.committed);
        no_file = ground (arith, e, o.staging, o.committed);
      }

  -- The output of a build that was published.
  abbrev pub IsPublished : (D → Option D) → (D → Bool) → Build D → Build D → Type 0
  IsPublished edit valid b b' =
      (d : D) × (e : D) × (source b ≡ some d)
      × (edit d ≡ some e)
      × (valid e ≡ true)
      × (b'.output ≡ some e)

  write_and_commit-output :
      (edit : D → Option D) (valid : D → Bool) (publish : Bool) (b b' : Build D)
      → b.committed ≡ false
      → IsOpen b b'
      → let b'' = leave (write_and_commit edit valid publish b') in
        (b''.output ≡ b.output) ⊎ IsPublished edit valid b b''
  unfolding commit publish_staging exit rollback disconnect
  write_and_commit-output edit valid publish b b' c o =
      let (d, s, e) = o.start in
      elim (Option-cases (edit d)) [
        | inl n ↦ inl (ground (arith, o.output))
        | inr (new, n) ↦ elim (Bool-cases (valid new)) [
          | inr v ↦ inl (ground (arith, o.output))
          | inl v ↦
              elim (Bool-cases
                (faults.commit || not publish || faults.close || faults.sync || faults.replace)) [
                  | inl f ↦ inl (ground (arith, o.output))
                  | inr f ↦ inr (d, new, s, n, v, ground (arith, o.output))
                ]
        ]
      ]

  session-cases :
      (edit : D → Option D) (valid : D → Bool) (publish : Bool) (b : Build D)
      → final_state (session set faults edit valid publish b) ≡ (elim (open_writer set faults b) [
        | ok b' ↦ leave (write_and_commit edit valid publish b')
        | err b' ↦ b'
      ])
  unfolding session
  session-cases edit valid publish b = ground arith

  open_writer-IsOpen : (b : Build D) {b' : Build D} → open_writer set faults b ≡ ok b' → IsOpen b b'
  unfolding open_writer
  open_writer-IsOpen b {b'} e =
      let locked_b : Build D = record b { locked = true } in
      elim (Result-cases (open_steps set faults locked_b)) [
        | inl (x, f) ↦
            let o = open_steps-IsOpen locked_b refl f in
            let same : x ≡ b' = ground (arith, e, f) in
            subst (IsOpen b) same (record {
              output = o.output;
              staging = o.staging;
              locked = o.locked;
              committed = o.committed;
              start = o.start;
            })
        | inr (x, f) ↦ absurd (ground (arith, e, f))
      ]

  -- A build with a writer that has not committed, however it ends and whichever calls raise, leaves
  -- an output that is as it was or that is what the rows made of the base or of the appended output,
  -- validated.
  pub session_atomic :
      (edit : D → Option D) (valid : D → Bool) (publish : Bool) (b : Build D)
      → b.committed ≡ false
      → let b' = final_state (session set faults edit valid publish b) in
        (b'.output ≡ b.output) ⊎ IsPublished edit valid b b'
  session_atomic edit valid publish b c = elim (Result-cases (open_writer set faults b)) [
    | inl (b', e) ↦
        let o = open_writer-IsOpen b e in
        let same : final_state (session set faults edit valid publish b)
            ≡ leave (write_and_commit edit valid publish b') =
          session-cases edit valid publish b ∙ rw e refl in
        rw same (write_and_commit-output edit valid publish b b' c o)
    | inr (b', e) ↦
        let same : final_state (session set faults edit valid publish b) ≡ b' =
          session-cases edit valid publish b ∙ rw e refl in
        rw same (inl (open_writer-output b e))
  ]

  pub session_cleans :
      (edit : D → Option D) (valid : D → Bool) (publish : Bool) (b : Build D)
      → faults.roll_back ≡ false
      → faults.close ≡ false
      → faults.unlink ≡ false
      → b.committed ≡ false
      → IsIdle b
      → IsIdle (final_state (session set faults edit valid publish b))
  session_cleans edit valid publish b r k u c i = elim (Result-cases (open_writer set faults b)) [
    | inl (b', e) ↦
        let same : final_state (session set faults edit valid publish b)
            ≡ leave (write_and_commit edit valid publish b') =
          session-cases edit valid publish b ∙ rw e refl in
        rw same (write_and_commit-IsIdle edit valid publish b b' r k u c (open_writer-IsOpen b e))
    | inr (b', e) ↦
        let same : final_state (session set faults edit valid publish b) ≡ b' =
          session-cases edit valid publish b ∙ rw e refl in
        rw same (open_writer-IsIdle b r k u i e)
  ]

module _ {D : Type 0} (set : Setting D) where
  -- Where no call raises, the schema is the expected one, no authority would be discarded, the rows
  -- can be written and the result is valid, a build that publishes returns, and its output is what
  -- the rows made of the database that it started from.
  pub session_publishes :
      (edit : D → Option D) (valid : D → Bool) (b : Build D) {d e : D}
      → not set.append && set.discards b.output ≡ false
      → set.drifted (if set.append && is_file b.output then or_base b.output set.base else set.base)
        ≡ false
      → source set no_faults b ≡ some d
      → edit d ≡ some e
      → valid e ≡ true
      → (b' : Build D) × (session set no_faults edit valid true b ≡ ok b') × (b'.output ≡ some e)
  unfolding session open_writer open_steps commit publish_staging exit rollback disconnect
  session_publishes edit valid b h g s n v =
      (final_state (session set no_faults edit valid true b), ground arith, ground arith)
