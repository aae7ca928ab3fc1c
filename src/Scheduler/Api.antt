-- ===== src/Scheduler/Api.antt =====
-- server/src/api/scheduled.rs: the handlers that create, delete and list the jobs of the scheduler.
pub mod Laws
pub mod Lists
use checkgate.Common.{
  ℕ, suc, ◌-◌, String, Bool, true, false, ◌&&◌, Option, none, some, List, [], ◌∷◌, ◌++◌, ltb, leb,
  ◌==◌, map, str_eq, if◌then◌else◌,
}
use checkgate.Status.{
  StatusCode, conflict, not_found, unprocessable_entity, Result, ok, err, ok_or, ◌>>=◌, ◌>>◌,
}
use checkgate.Auth.{AuthContext, AuthWorld}
use checkgate.Auth.Access.{check_env_access}
use checkgate.Server.{FlagJson, lock_environment}
use checkgate.Flags.Patch.{merge_and_validate}
use checkgate.Scheduler.{Job, Tables, is_unset}

pub record ScheduledChange (V : Type 0) : Type 0 where
  pub id : ℕ
  pub environment_id : String
  pub flag_key : String
  pub scheduled_at : ℕ
  pub patch : V
  pub executed_at : Option ℕ
  pub attempts : ℕ
  pub last_error : Option StatusCode
  pub created_at : ℕ

pub record CreateBody (V : Type 0) : Type 0 where
  pub scheduled_at : String
  pub patch : V

-- What a call meets: `OffsetDateTime::parse` at `Rfc3339`, in whole seconds since 1970, the clock, and
-- the uuid that the table gives the row.
pub record Call : Type 0 where
  pub parse_rfc3339 : String → Option ℕ
  pub now : ℕ
  pub new_id : ℕ

-- What a handler answers, and the tables that it leaves.
pub record Answer (V A : Type 0) : Type 0 where
  pub response : Result A
  pub tables : Tables V

module _ {V : Type 0} where
  abbrev pub row_to_change : Job V → ScheduledChange V
  row_to_change job = record {
    id = job.id;
    environment_id = job.environment_id;
    flag_key = job.flag_key;
    scheduled_at = job.scheduled_at;
    patch = job.patch;
    executed_at = job.executed_at;
    attempts = job.attempts;
    last_error = job.last_error;
    created_at = job.created_at;
  }

  abbrev pub rows_to_changes : List (Job V) → List (ScheduledChange V)
  rows_to_changes rows = map row_to_change rows

  -- `ORDER BY scheduled_at ASC`
  unfoldable pub insert_row : Job V → List (Job V) → List (Job V)
  insert_row job [] = job ∷ []
  insert_row job (j ∷ jobs) =
      let rest = insert_row job jobs in
      if leb job.scheduled_at j.scheduled_at then job ∷ j ∷ jobs else j ∷ rest

  -- `SELECT … WHERE … ORDER BY scheduled_at ASC`
  unfoldable pub select_rows : (Job V → Bool) → List (Job V) → List (Job V)
  unfolding insert_row
  select_rows condition [] = []
  select_rows condition (job ∷ jobs) =
      let rest = select_rows condition jobs in if condition job then insert_row job rest else rest

  -- the `WHERE` of the deletion
  abbrev pub may_be_deleted : String → ℕ → Job V → Bool
  may_be_deleted env_id id job =
      job.id == id && str_eq job.environment_id env_id && is_unset job.executed_at

  -- `DELETE FROM scheduled_changes …`, with the number of the rows
  unfoldable pub delete_jobs : String → ℕ → List (Job V) → List (Job V)
  delete_jobs env_id id [] = []
  delete_jobs env_id id (job ∷ jobs) =
      let rest = delete_jobs env_id id jobs in
      if may_be_deleted env_id id job then rest else job ∷ rest

  unfoldable pub rows_affected : String → ℕ → List (Job V) → ℕ
  rows_affected env_id id [] = 0
  rows_affected env_id id (job ∷ jobs) =
      let rest = rows_affected env_id id jobs in
      if may_be_deleted env_id id job then suc rest else rest

  abbrev pub new_job : Call → String → String → ℕ → V → Job V
  new_job call env_id key scheduled_at patch = record {
    id = call.new_id;
    environment_id = env_id;
    flag_key = key;
    scheduled_at = scheduled_at;
    patch = patch;
    executed_at = none;
    last_attempt_at = none;
    attempts = 0;
    last_error = none;
    created_at = call.now;
  }

  module _ (world : AuthWorld) where
    unfoldable pub list_scheduled :
        Tables V → AuthContext → String → Result (List (ScheduledChange V))
    unfolding check_env_access select_rows
    list_scheduled t jar env_id = do
      check_env_access world jar env_id
      ok (rows_to_changes (select_rows (λ job. str_eq job.environment_id env_id) t.jobs))

    unfoldable pub list_scheduled_for_flag :
        Tables V → AuthContext → String → String → Result (List (ScheduledChange V))
    unfolding check_env_access select_rows
    list_scheduled_for_flag t jar env_id key = do
      check_env_access world jar env_id
      ok (
          rows_to_changes (
            select_rows (λ job. str_eq job.environment_id env_id && str_eq job.flag_key key)
              t.jobs))

    unfoldable pub delete_scheduled : Tables V → AuthContext → String → ℕ → Answer V (Unit {0})
    unfolding check_env_access delete_jobs rows_affected
    delete_scheduled t jar env_id id = elim (check_env_access world jar env_id) [
      | err status ↦ record { response = err status; tables = t }
      | ok done ↦ record {
        response = if rows_affected env_id id t.jobs == 0 then err not_found else ok tt;
        tables = record t { jobs = delete_jobs env_id id t.jobs };
      }
    ]

    module _ (json : FlagJson V) where
      -- the checks before the row is inserted: its time
      unfoldable pub may_schedule :
          Call → Tables V → AuthContext → String → String → CreateBody V → Result ℕ
      unfolding check_env_access merge_and_validate
      may_schedule call t jar env_id key body = do
        check_env_access world jar env_id
        protected ← lock_environment t.db env_id
        if protected then err conflict else (do
          merged ← merge_and_validate json t.db.flags env_id key body.patch
          scheduled_at ← ok_or (call.parse_rfc3339 body.scheduled_at) unprocessable_entity
          if ltb scheduled_at (call.now - 30) then err unprocessable_entity else ok scheduled_at)

      unfoldable pub create_scheduled :
          Call
          → Tables V
          → AuthContext
          → String
          → String
          → CreateBody V
          → Answer V (ScheduledChange V)
      unfolding may_schedule
      create_scheduled call t jar env_id key body = elim (may_schedule call t jar env_id key body) [
        | err status ↦ record { response = err status; tables = t }
        | ok scheduled_at ↦
            let job = new_job call env_id key scheduled_at body.patch in
            record {
              response = ok (row_to_change job);
              tables = record t { jobs = t.jobs ++ job ∷ [] };
            }
      ]
