-- ===== src/Scheduler.antt =====
-- server/src/scheduler.rs. A job is a row of `scheduled_changes`; its id is the number of the uuid, and a
-- time is seconds since 1970. A round is one transaction of a worker: the row lock of the job that it
-- claims keeps the others off, so the rounds of all workers take effect one after another.
pub mod Api
pub mod Rounds
pub mod Once
pub mod Retry
pub mod Drain
mod Tests
use checkgate.Common.{
  ℕ, zero, suc, ◌+◌, String, Bool, true, false, not, ◌&&◌, ◌||◌, Option, none, some, List, [], ◌∷◌,
  ◌++◌, ltb, leb, ◌==◌, map, if◌then◌else◌,
}
use checkgate.Status.{StatusCode, conflict, internal_server_error, Result, ok, err, ◌>>=◌}
use checkgate.Server.{FlagJson, Db, Effect, lock_environment}
use checkgate.Flags.Write.{Written, apply_patch_in_tx, emit_patch}

pub record Job (V : Type 0) : Type 0 where
  pub id : ℕ
  pub environment_id : String
  pub flag_key : String
  pub scheduled_at : ℕ
  pub patch : V
  pub executed_at : Option ℕ
  pub last_attempt_at : Option ℕ
  pub attempts : ℕ
  pub last_error : Option StatusCode
  pub created_at : ℕ

-- The query that fails in a round, if one does; a commit that fails is rolled back.
pub data Fault : Type 0 where
  working begin claiming savepoint update commit : Fault
  rollback record_failure commit_failure : Fault

abbrev code_of : Fault → ℕ
code_of working = 0
code_of begin = 1
code_of claiming = 2
code_of savepoint = 3
code_of update = 4
code_of commit = 5
code_of rollback = 6
code_of record_failure = 7
code_of commit_failure = 8

-- the fault is the one of this query
abbrev pub fails : Fault → Fault → Bool
fails fault query = code_of fault == code_of query

-- What a round meets: the clock of its transaction, the rows that other workers have locked, and a
-- fault.
pub record Round : Type 0 where
  pub now : ℕ
  pub locked : ℕ → Bool
  pub fault : Fault

pub record Tables (V : Type 0) : Type 0 where
  pub db : Db V
  pub jobs : List (Job V)

-- What a round leaves: the tables, what it emits, the job that it has applied, and whether the loop
-- goes on.
pub record Left (V : Type 0) : Type 0 where
  pub tables : Tables V
  pub effects : List (Effect V)
  pub applied : Option ℕ
  pub goes_on : Bool

-- What the rounds of a loop leave: the jobs that they have applied, in order.
pub record Ran (V : Type 0) : Type 0 where
  pub tables : Tables V
  pub effects : List (Effect V)
  pub applied : List ℕ

abbrev pub add_applied : Option ℕ → List ℕ → List ℕ
add_applied none ids = ids
add_applied (some id) ids = id ∷ ids

abbrev pub is_unset : Option ℕ → Bool
is_unset none = true
is_unset (some t) = false

-- `last_attempt_at IS NULL OR last_attempt_at <= NOW() - INTERVAL '60 seconds'`
abbrev pub has_backed_off : Option ℕ → ℕ → Bool
has_backed_off none now = true
has_backed_off (some t) now = leb (t + 60) now

module _ {V : Type 0} where
  -- the `WHERE` of the claim, with `SKIP LOCKED`
  unfoldable pub is_due : ℕ → (ℕ → Bool) → Job V → Bool
  is_due now locked job =
      is_unset job.executed_at
      && leb job.scheduled_at now
      && has_backed_off job.last_attempt_at now
      && not (locked job.id)

  -- `ORDER BY scheduled_at, id`
  abbrev pub is_before : Job V → Job V → Bool
  is_before a b =
      ltb a.scheduled_at b.scheduled_at || (a.scheduled_at == b.scheduled_at && ltb a.id b.id)

  abbrev pub earlier : Job V → Option (Job V) → Job V
  earlier job none = job
  earlier job (some other) = if is_before other job then other else job

  -- the claim: the first due job
  unfoldable pub claim : ℕ → (ℕ → Bool) → List (Job V) → Option (Job V)
  unfolding is_due
  claim now locked [] = none
  claim now locked (job ∷ jobs) =
      let rest = claim now locked jobs in
      if is_due now locked job then some (earlier job rest) else rest

  abbrev pub executed : ℕ → Job V → Job V
  executed now job = record job {
    executed_at = some now;
    last_error = none;
    last_attempt_at = some now;
    attempts = suc job.attempts;
  }

  abbrev pub failed_at : ℕ → StatusCode → Job V → Job V
  failed_at now status job = record job {
    last_error = some status;
    last_attempt_at = some now;
    attempts = suc job.attempts;
  }

  -- `UPDATE scheduled_changes SET … WHERE id = …`
  unfoldable pub update_job : ℕ → (Job V → Job V) → List (Job V) → List (Job V)
  update_job id change jobs = map (λ j. if j.id == id then change j else j) jobs

  -- `… AND executed_at IS NULL`
  abbrev pub if_unset : (Job V → Job V) → Job V → Job V
  if_unset change job = if is_unset job.executed_at then change job else job

  -- A round that ends the loop and leaves the tables as they were.
  abbrev pub gives_up : Tables V → Left V
  gives_up t = record { tables = t; effects = []; applied = none; goes_on = false }

-- What the block after the savepoint leaves: the tables of the transaction, and its result.
pub record Tried (V : Type 0) : Type 0 where
  pub db : Db V
  pub outcome : Result (Written V)

-- `ROLLBACK TO SAVEPOINT flag_patch`: from the tables of the transaction to those at the savepoint
unfoldable pub rollback_to : {V : Type 0} → Db V → Db V → Db V
rollback_to saved current = saved

module _ {V : Type 0} (json : FlagJson V) where
  -- `UPDATE scheduled_changes SET executed_at`, after the patch: an update that fails leaves the patch in
  -- the transaction
  abbrev pub then_update : Fault → Db V → Result (Written V) → Tried V
  then_update fault db (err status) = record { db = db; outcome = err status }
  then_update fault db (ok written) = record {
    db = written.db;
    outcome = if fails fault update then err internal_server_error else ok written;
  }

  -- the patch of a job, in an environment that is locked
  abbrev pub patch_unprotected : Db V → Job V → Result (Written V)
  patch_unprotected db job = do
    protected ← lock_environment db job.environment_id
    if protected
        then err conflict
        else apply_patch_in_tx json db job.environment_id job.flag_key job.patch

  -- the block after the savepoint
  unfoldable pub attempt : Fault → Db V → Job V → Tried V
  attempt fault db job = then_update fault db (patch_unprotected db job)

module _ {V : Type 0} (json : FlagJson V) (uuid_text : ℕ → String) where
  -- What a round leaves that commits the patch, and what one leaves that commits its failure.
  unfoldable pub success : Round → Tables V → Job V → Written V → Left V
  unfolding update_job emit_patch
  success round t job written = record {
    tables = record { db = written.db; jobs = update_job job.id (executed round.now) t.jobs };
    effects =
        emit_patch json written.db job.environment_id job.flag_key written.applied none
          (some (uuid_text job.id));
    applied = some job.id;
    goes_on = true;
  }

  unfoldable pub failure : Round → Tables V → Db V → Job V → StatusCode → Left V
  unfolding update_job rollback_to
  failure round t current job status = record {
    tables = record {
      db = rollback_to t.db current;
      jobs = update_job job.id (if_unset (failed_at round.now status)) t.jobs;
    };
    effects = [];
    applied = none;
    goes_on = true;
  }

  -- The end of the transaction. Where it is not committed, the tables stay as they were before it.
  unfoldable pub settle : Round → Tables V → Job V → Tried V → Left V
  unfolding success failure
  settle round t job tried = elim tried.outcome [
    | ok written ↦ if fails round.fault commit then gives_up t else success round t job written
    | err status ↦
        if fails round.fault rollback
          || fails round.fault record_failure
          || fails round.fault commit_failure
        then gives_up t
        else failure round t tried.db job status
  ]

  -- a job that has been claimed
  unfoldable pub work : Round → Tables V → Job V → Left V
  unfolding settle
  work round t job = settle round t job (attempt json round.fault t.db job)

  unfoldable pub claimed : Round → Tables V → Option (Job V) → Left V
  unfolding work
  claimed round t none = gives_up t
  claimed round t (some job) = if fails round.fault savepoint then gives_up t else work round t job

  -- one round of the loop of `execute_due`
  unfoldable pub step : Round → Tables V → Left V
  unfolding claim claimed
  step round t =
      if fails round.fault begin || fails round.fault claiming
      then gives_up t
      else claimed round t (claim round.now round.locked t.jobs)

  -- a round, and what the rounds after it leave
  abbrev pub followed_by : Left V → Ran V → Ran V
  followed_by left rest = record {
    tables = rest.tables;
    effects = left.effects ++ rest.effects;
    applied = add_applied left.applied rest.applied;
  }

  -- The loop: the rounds that are left, what each of them meets, and the tables.
  unfoldable pub rounds_from : ℕ → (ℕ → Round) → Tables V → Ran V
  unfolding step
  rounds_from zero meets t = record { tables = t; effects = []; applied = [] }
  rounds_from (suc n) meets t =
      let left = step (meets n) t in
      elim left.goes_on [
        | true ↦ followed_by left (rounds_from n meets left.tables)
        | false ↦ followed_by left (record { tables = left.tables; effects = []; applied = [] })
      ]

  -- `for _ in 0..50`
  unfoldable pub execute_due : (ℕ → Round) → Tables V → Ran V
  unfolding rounds_from
  execute_due meets t = rounds_from 50 meets t
