-- ===== src/Scheduler/Tests.antt =====
-- A patch of the rollout, scheduled at 100, and rounds at and after that time.
use checkgate.Common.{
  ℕ, String, ◌≡◌, refl, Bool, true, false, none, some, List, [], ◌∷◌, ◌≤◌, ◌<◌, ◌+◌, arith, any,
  leb, not, ◌&&◌,
}
use checkgate.Types.{pos}
use checkgate.Status.{ok, fetched}
use checkgate.Auth.{AuthContext, AuthWorld}
use checkgate.Auth.Require.{by_session}
use checkgate.Auth.Roles.{get_session_claims}
use checkgate.Auth.Access.{check_env_access}
use checkgate.Server.{find_row}
use checkgate.Server.Concrete.{Json, text, number, of_fields, json}
use checkgate.Flags.Patch.{merge_and_validate, insert_all}
use checkgate.Flags.Write.{apply_patch_in_tx}
use checkgate.Scheduler.{Job, update, Round, Tables, claim, is_due, step, attempt, execute_due}
use checkgate.Scheduler.Api.{
  ScheduledChange, CreateBody, Call, row_to_change, rows_to_changes, list_scheduled,
  delete_scheduled, create_scheduled,
}
use checkgate.Scheduler.Api.Laws.{
  HasDistinctIds, delete_scheduled-final, IsSchedulable, create_scheduled-ok,
}
use checkgate.Scheduler.Once.{
  Event, round, schedules, applied_by, count, applied_by-once, is_pending,
}
use checkgate.Scheduler.Retry.{Spares, step-retry}
use checkgate.Scheduler.Drain.{at_time, count_due, count_due-execute_due}

abbrev world : AuthWorld
world = record {
  user_by_id = λ i. fetched none;
  sdk_key_by_value = λ key. fetched none;
  pat_by_hash = λ hash. fetched none;
  project_role = λ env user. fetched (some "editor");
  now = pos 0;
  db_now = pos 0;
  env_sdk_key = none;
  sha256 = λ bytes. bytes;
  constant_time_eq = λ a b. false;
}

abbrev ada : AuthContext
ada =
    by_session
      (record { user_id = pos 1; expires_at = pos 9; email = "ada"; name = "ada"; role = "viewer" })

abbrev patch : Json
patch = of_fields (("rollout_percentage", number 70) ∷ [])

abbrev job : ℕ → Job Json
job id = record {
  id = id;
  environment_id = "env-1";
  flag_key = "a";
  scheduled_at = 100;
  patch = patch;
  executed_at = none;
  last_attempt_at = none;
  attempts = 0;
  last_error = none;
  created_at = 40;
}

abbrev tables : List (Job Json) → Tables Json
tables jobs = record {
  db = record {
    environments = ("env-1", false) ∷ [];
    flags =
        record {
          environment_id = "env-1";
          key = "a";
          value = of_fields (("key", text "a") ∷ []);
          tags = [];
          owner_email = none;
          archived_at = none;
          revision = 1;
        }
        ∷ [];
    segments = [];
    change_requests = [];
    next_revision = 2;
    next_request = 5;
  };
  jobs = jobs;
}

abbrev uuid_text : ℕ → String
uuid_text id = "job"

abbrev failing : ℕ → Round
failing now = record { now = now; locked = λ id. false; fault = update }

abbrev events : List (Event Json)
events = round (failing 100) ∷ round (at_time 130) ∷ round (at_time 160) ∷ round (at_time 300) ∷ []

applied_after_a_failure : applied_by json uuid_text events (tables (job 4 ∷ [])) ≡ 4 ∷ []
unfolding applied_by step attempt apply_patch_in_tx
applied_after_a_failure = refl

no_other : any (schedules 4) events ≡ false
no_other = refl

applied_by-once_example : count 4 (applied_by json uuid_text events (tables (job 4 ∷ []))) ≤ 1
applied_by-once_example = applied_by-once json uuid_text 4 events (tables (job 4 ∷ [])) no_other

abbrev two : Tables Json
two = tables (job 4 ∷ job 5 ∷ [])

goes_on : (step json uuid_text (failing 100) two).goes_on ≡ true
unfolding step attempt apply_patch_in_tx
goes_on = refl

none_applied : (step json uuid_text (failing 100) two).applied ≡ none
unfolding step attempt apply_patch_in_tx
none_applied = refl

next_is_5 :
    claim 159 (λ id. false) (step json uuid_text (failing 100) two).tables.jobs ≡ some (job 5)
unfolding step attempt apply_patch_in_tx
next_is_5 = refl

soon : 159 < 100 + 60
soon = omega arith

step-retry_example :
    (j : Job Json) × (claim 100 (λ id. false) two.jobs ≡ some j)
    × (is_pending j.id (step json uuid_text (failing 100) two).tables.jobs ≡ true)
    × Spares json uuid_text j.id
        (claim 159 (λ id. false) (step json uuid_text (failing 100) two).tables.jobs)
step-retry_example =
    step-retry json uuid_text (failing 100) two 159 (λ id. false) goes_on none_applied soon

two_due : count_due 100 two.jobs ≤ 50
unfolding count_due
two_due = omega arith

count_due-execute_due_example :
    count_due 100 (execute_due json uuid_text (λ i. at_time 100) two).tables.jobs ≡ 0
count_due-execute_due_example = count_due-execute_due json uuid_text 100 two two_due

distinct : HasDistinctIds two.jobs
distinct = ((refl, tt), (tt, tt))

is_deleted : (delete_scheduled world two ada "env-1" 5).response ≡ ok tt
unfolding delete_scheduled
is_deleted = refl

no_fifth : any (schedules 5) events ≡ false
no_fifth = refl

delete_scheduled-final_example :
    count 5 (applied_by json uuid_text events (delete_scheduled world two ada "env-1" 5).tables) ≡ 0
delete_scheduled-final_example =
    delete_scheduled-final json uuid_text world two ada "env-1" 5 events distinct is_deleted
      no_fifth

abbrev call : Call
call = record { parse_rfc3339 = λ t. some 100; now = 110; new_id = 6 }

abbrev body : CreateBody Json
body = record { scheduled_at = "1970-01-01T00:01:40Z"; patch = patch }

abbrev change : ScheduledChange Json
change = row_to_change (record (job 6) { created_at = 110 })

is_created :
    (create_scheduled world json call (tables []) ada "env-1" "a" body).response ≡ ok change
unfolding create_scheduled check_env_access merge_and_validate find_row insert_all
    get_session_claims
is_created = refl

create_scheduled-ok_example :
    IsSchedulable world json call (tables []) ada "env-1" "a" body 100
    × (j : Job Json) × ((create_scheduled world json call
          (tables [])
          ada
          "env-1"
          "a"
          body).tables.jobs
        ≡ j ∷ [])
    × (change ≡ row_to_change j)
    × (j.environment_id ≡ "env-1")
    × (j.flag_key ≡ "a")
    × (j.patch ≡ patch)
    × ((now : ℕ) (locked : ℕ → Bool)
        → is_due now locked j ≡ (leb j.scheduled_at now && not (locked j.id)))
create_scheduled-ok_example =
    create_scheduled-ok world json call (tables []) ada "env-1" "a" body change is_created

is_listed : list_scheduled world two ada "env-1" ≡ ok (rows_to_changes two.jobs)
unfolding list_scheduled check_env_access get_session_claims
is_listed = refl
