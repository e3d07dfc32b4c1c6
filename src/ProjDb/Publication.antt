-- ===== src/ProjDb/Publication.antt =====
-- The staging and the publication of a database by `ProjDbWriter` (`open`, `commit`, `rollback`
-- and `__exit__` of geodetic_engine/projdb/writer.py). The calls of the system that may raise are
-- named by `Faults`; to release the lock is taken to return.
pub mod Atomic
use geodetic_engine.Base.{
  Bool, true, false, not, ◌&&◌, ◌||◌, Option, none, some, Result, ok, err, ◌>>=◌, guard,
  if◌then◌else◌,
}

-- A connection to the staged database, with the contents that it sees.
pub record Connection (D : Type 0) : Type 0 where
  pub working : D
  pub in_transaction : Bool

-- The state of a writer and the files that it touches. `staging` says whether the writer has the
-- name of a staged file, and `staged_file` is that file.
pub record Build (D : Type 0) : Type 0 where
  pub output : Option D
  pub staged_file : Option D
  pub locked : Bool
  pub connection : Option (Connection D)
  pub staging : Bool
  pub appended : Bool
  pub committed : Bool

-- Whether each call raises, on this run.
pub record Faults : Type 0 where
  pub mkstemp : Bool
  pub snapshot : Bool
  pub begin : Bool
  pub commit : Bool
  pub sync : Bool
  pub replace : Bool
  pub sync_directory : Bool
  pub roll_back : Bool
  pub close : Bool
  pub unlink : Bool

-- The configuration, and what is done to a database elsewhere: `discards` is
-- `check_discarded_authorities`, `drifted` is `verify_schema`, `migrate` moves the identifiers of
-- a former table.
pub record Setting (D : Type 0) : Type 0 where
  pub base : D
  pub empty : D
  pub append : Bool
  pub windows : Bool
  pub discards : Option D → Bool
  pub drifted : D → Bool
  pub migrate : D → Option D

abbrev pub is_file : {D : Type 0} → Option D → Bool
is_file none = false
is_file (some d) = true

abbrev pub or_base : {D : Type 0} → Option D → D → D
or_base none base = base
or_base (some d) base = d

-- An outcome that raised has the state in which it did.
abbrev pub Step : Type 0 → Type 0
Step D = Result (Build D) (Build D)

-- The connection of a build that is given up, which is closed also if its transaction cannot be
-- rolled back.
unfoldable pub disconnect : {D : Type 0} → Faults → Build D → Step D
disconnect faults b = elim b.connection [
  | none ↦ ok b
  | some c ↦
      if faults.close
      then err b
      else if c.in_transaction && faults.roll_back
      then err (record b { connection = none })
      else ok (record b { connection = none })
]

-- `_unlink`, which leaves the file where it cannot be deleted, and logs that.
abbrev pub unlink_staging : {D : Type 0} → Faults → Build D → Build D
unlink_staging faults b = if faults.unlink then b else record b { staged_file = none }

abbrev pub drop_staging : {D : Type 0} → Faults → Build D → Build D
drop_staging faults b =
    if b.staging then record (unlink_staging faults b) { staging = false } else b

-- `rollback`
unfoldable pub rollback : {D : Type 0} → Faults → Build D → Step D
unfolding disconnect
rollback faults b = elim (disconnect faults b) [
  | err b' ↦ err b'
  | ok b' ↦ ok (drop_staging faults b')
]

abbrev pub release : {D : Type 0} → Build D → Build D
release b = record b { locked = false }

module _ {D : Type 0} (set : Setting D) (faults : Faults) where
  -- `original.backup`, from the output if it is appended to
  abbrev pub snapshot_of : Build D → D
  snapshot_of b = if b.appended then or_base b.output set.base else set.base

  abbrev pub create_staging : Build D → Step D
  create_staging b =
      let b' = record b { appended = set.append && is_file b.output } in
      if faults.mkstemp
      then err b'
      else ok (record b' { staging = true; staged_file = some set.empty })

  abbrev pub fill_staging : Build D → Step D
  fill_staging b =
      let b' = record b {
        connection = some (record { working = set.empty; in_transaction = false });
      } in
      if faults.snapshot
      then err b'
      else ok (record b {
        connection = some (record { working = snapshot_of b; in_transaction = false });
        staged_file = some (snapshot_of b);
      })

  abbrev pub begin_transaction : Build D → Step D
  begin_transaction b =
      if set.drifted (snapshot_of b)
      then err b
      else if faults.begin
      then err b
      else ok (record b {
        connection = some (record { working = snapshot_of b; in_transaction = true });
      })

  abbrev pub migrate_identifiers : Build D → Step D
  migrate_identifiers b =
      if b.appended
      then elim (set.migrate (snapshot_of b)) [
        | none ↦ err b
        | some d ↦
            ok (record b { connection = some (record { working = d; in_transaction = true }) })
      ]
      else ok b

  unfoldable pub open_steps : Build D → Step D
  open_steps b = if not set.append && set.discards b.output then err b else do
    b₁ ← create_staging b
    b₂ ← fill_staging b₁
    b₃ ← begin_transaction b₂
    migrate_identifiers b₃

  -- `open`, from the point at which the lock is held
  unfoldable pub open_writer : Build D → Step D
  unfolding open_steps rollback
  open_writer b = elim (open_steps (record b { locked = true })) [
    | ok b' ↦ ok b'
    | err b' ↦ elim (rollback faults b') [ ok b'' ↦ err (release b'') | err b'' ↦ err b'' ]
  ]

  -- The inserts of a build go to the connection, and may raise.
  abbrev pub write_rows : (D → Option D) → Build D → Step D
  write_rows edit b = elim b.connection [
    | none ↦ err b
    | some c ↦ elim (edit c.working) [
      | none ↦ err b
      | some d ↦ ok (record b { connection = some (record c { working = d }) })
    ]
  ]

  abbrev pub commit_staging : Build D → Step D
  commit_staging b = elim b.connection [
    | none ↦ err b
    | some c ↦
        if faults.commit
        then err b
        else ok (record b {
          connection = some (record c { in_transaction = false });
          staged_file = some c.working;
        })
  ]

  abbrev pub validated : (D → Bool) → Build D → Step D
  validated valid b = elim b.staged_file [ none ↦ err b | some d ↦ if valid d then ok b else err b ]

  -- From the closing of the connection on.
  unfoldable pub publish_staging : Build D → Step D
  publish_staging b =
      let closed = record b { connection = none } in
      if faults.close
      then err b
      else if faults.sync
      then err closed
      else if faults.replace
      then err closed
      else let moved = record closed { output = b.staged_file; staged_file = none } in
        if not set.windows && faults.sync_directory
        then err moved
        else ok (record moved { staging = false; committed = true })

  -- `commit`; no validation is one that accepts everything.
  unfoldable pub commit : (D → Bool) → Bool → Build D → Step D
  unfolding publish_staging
  commit valid publish b = do
    b₁ ← commit_staging b
    b₂ ← validated valid b₁
    if publish then publish_staging b₂ else ok b₂

  abbrev pub close_connection : Build D → Step D
  close_connection b = elim b.connection [
    | none ↦ ok b
    | some c ↦ if faults.close then err b else ok (record b { connection = none })
  ]

  -- `__exit__`, with whether the block raised
  unfoldable pub exit : Bool → Build D → Step D
  unfolding rollback
  exit raised b =
      elim (if raised || not b.committed then rollback faults b else close_connection b) [
        | ok b' ↦ ok (release b')
        | err b' ↦ err (release b')
      ]

  -- `with ProjDbWriter(config) as writer:` around the writing of rows and a commit
  unfoldable pub session : (D → Option D) → (D → Bool) → Bool → Build D → Step D
  unfolding open_writer commit exit
  session edit valid publish b = elim (open_writer b) [
    | err b' ↦ err b'
    | ok b' ↦ elim (write_rows edit b' >>= λ b''. commit valid publish b'') [
      | ok done ↦ exit false done
      | err failed ↦ elim (exit true failed) [ ok left ↦ err left | err left ↦ err left ]
    ]
  ]
