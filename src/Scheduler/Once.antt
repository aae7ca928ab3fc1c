-- ===== src/Scheduler/Once.antt =====
-- How often a job is applied, by the rounds of all workers between any other transactions of the server.
use mathlib.Core.Path.{subst}
use checkgate.Common.{
  ℕ, zero, suc, ◌≤◌, ◌≡◌, refl, ap, ◌∙◌, inl, inr, Bool, true, false, ◌&&◌, some, String, List, [],
  ◌∷◌, ◌++◌, any, any-map, any-In, length, arith, map, ◌==◌, ==_iff, Bool-cases, Option-cases,
  if◌then◌else◌,
}
use checkgate.Status.{StatusCode, some_injective, none-absurd}
use checkgate.Server.{FlagJson, Db}
use checkgate.Scheduler.{
  Job, Round, Tables, add_applied, is_due, is_unset, claim, executed, failed_at, update_job,
  if_unset, rounds_from, success, failure, step,
}
use checkgate.Scheduler.Api.{delete_jobs, may_be_deleted}
use checkgate.Scheduler.Rounds.{claim_lem, step_ind}

module _ {V : Type 0} where
  -- a row with this id is still to be applied
  unfoldable pub is_pending : ℕ → List (Job V) → Bool
  is_pending id jobs = any (λ job. job.id == id && is_unset job.executed_at) jobs

  pub is_pending-executed :
      (id now other : ℕ) (jobs : List (Job V))
      → is_pending other jobs ≡ false
      → is_pending other (update_job id (executed now) jobs) ≡ false
  unfolding is_pending update_job
  is_pending-executed id now other jobs h =
      any-map (λ job. job.id == other && is_unset job.executed_at)
        (λ j. if j.id == id then executed now j else j)
        (λ job e. elim (Bool-cases (job.id == id)) [ inl b ↦ rw b (ground arith) | inr b ↦ rw b e ])
        jobs h

  pub is_pending-failed_at :
      (id now : ℕ) (status : StatusCode) (other : ℕ) (jobs : List (Job V))
      → is_pending other jobs ≡ false
      → is_pending other (update_job id (if_unset (failed_at now status)) jobs) ≡ false
  unfolding is_pending update_job
  is_pending-failed_at id now status other jobs h =
      any-map (λ job. job.id == other && is_unset job.executed_at)
        (λ j. if j.id == id then if_unset (failed_at now status) j else j)
        (λ job e. elim (Bool-cases (job.id == id)) [
          | inl b ↦ elim (Bool-cases (is_unset job.executed_at)) [
            | inl u ↦ rw (b, u) e
            | inr u ↦ rw (b, u) e
          ]
          | inr b ↦ rw b e
        ])
        jobs h

  -- The job that has been executed is pending no more.
  pub is_pending-done :
      (id now : ℕ) (jobs : List (Job V)) → is_pending id (update_job id (executed now) jobs) ≡ false
  unfolding is_pending update_job
  is_pending-done id now [] = refl
  is_pending-done id now (job ∷ jobs) =
      let rest = is_pending-done id now jobs in
      elim (Bool-cases (job.id == id)) [ inl b ↦ rw b (ground arith) | inr b ↦ rw b (ground arith) ]

-- A transaction that commits: a round of a worker, an insertion and a deletion of server/src/api/scheduled.rs,
-- and one of another handler, which leaves other tables.
pub data Event (V : Type 0) : Type 0 where
  round : Round → Event V
  scheduled : Job V → Event V
  unscheduled : String → ℕ → Event V
  written : Db V → Event V

-- how many times an id stands in a list
unfoldable pub count : ℕ → List ℕ → ℕ
count id [] = 0
count id (other ∷ ids) = let rest = count id ids in if other == id then suc rest else rest

module _ {V : Type 0} where
  abbrev pub schedules : ℕ → Event V → Bool
  schedules id (scheduled job) = job.id == id
  schedules id _ = false

  pub is_pending-append :
      (id : ℕ) (jobs : List (Job V)) (job : Job V)
      → (job.id == id) ≡ false
      → is_pending id jobs ≡ false
      → is_pending id (jobs ++ job ∷ []) ≡ false
  unfolding is_pending
  is_pending-append id [] job n h = rw n refl
  is_pending-append id (j ∷ jobs) job n h =
      let rest = is_pending-append id jobs job n in ground arith

  pub is_pending-delete_jobs :
      (env_id : String) (id other : ℕ) (jobs : List (Job V))
      → is_pending other jobs ≡ false
      → is_pending other (delete_jobs env_id id jobs) ≡ false
  unfolding is_pending delete_jobs
  is_pending-delete_jobs env_id id other [] h = refl
  is_pending-delete_jobs env_id id other (job ∷ jobs) h =
      let rest = is_pending-delete_jobs env_id id other jobs in
      elim (Bool-cases (may_be_deleted env_id id job)) [
        | inl b ↦ rw b (ground arith)
        | inr b ↦ rw b (ground arith)
      ]

module _ {V : Type 0} (json : FlagJson V) (uuid_text : ℕ → String) where
  -- The transactions, one after another, and the jobs that their rounds apply.
  unfoldable pub applied_by : List (Event V) → Tables V → List ℕ
  unfolding step delete_jobs
  applied_by [] t = []
  applied_by (round r ∷ events) t =
      let left = step json uuid_text r t in add_applied left.applied (applied_by events left.tables)
  applied_by (scheduled job ∷ events) t = applied_by events (record t { jobs = t.jobs ++ job ∷ [] })
  applied_by (unscheduled env_id id ∷ events) t =
      applied_by events (record t { jobs = delete_jobs env_id id t.jobs })
  applied_by (written db ∷ events) t = applied_by events (record t { db = db })

  -- A job that is not pending is not made pending by a round.
  pub is_pending-step :
      (r : Round) (t : Tables V) (id : ℕ)
      → is_pending id t.jobs ≡ false
      → is_pending id (step json uuid_text r t).tables.jobs ≡ false
  unfolding success failure
  is_pending-step r t id h =
      step_ind json uuid_text (λ left. is_pending id left.tables.jobs ≡ false) r t (λ z. h)
        (λ job w a. is_pending-executed job.id r.now id t.jobs h)
        (λ job status c z. is_pending-failed_at job.id r.now status id t.jobs h)

  -- The job that a round claims is pending.
  pub is_pending-claimed :
      (r : Round) (t : Tables V) (job : Job V)
      → claim r.now r.locked t.jobs ≡ some job
      → is_pending job.id t.jobs ≡ true
  unfolding is_pending is_due
  is_pending-claimed r t job c =
      let (m, due) = claim_lem r.now r.locked t.jobs job c in
      any-In (λ j. j.id == job.id && is_unset j.executed_at) t.jobs job
        (ground (arith, ==_iff job.id job.id)) m

  -- A round applies a job that is pending, which is not pending after it.
  pub step-applied :
      (r : Round) (t : Tables V) (id : ℕ)
      → (step json uuid_text r t).applied ≡ some id
      → (is_pending id t.jobs ≡ true)
        × (is_pending id (step json uuid_text r t).tables.jobs ≡ false)
  unfolding success failure is_pending is_due
  step-applied r t id =
      step_ind json uuid_text
        (λ left.
          left.applied ≡ some id
          → (is_pending id t.jobs ≡ true) × (is_pending id left.tables.jobs ≡ false))
        r t (λ z h. none-absurd h)
        (λ job w a h.
          subst
            (λ n.
              (is_pending n t.jobs ≡ true)
              × (is_pending n (update_job job.id (executed r.now) t.jobs) ≡ false))
            (some_injective h)
            (is_pending-claimed r t job a.claims, is_pending-done job.id r.now t.jobs))
        (λ job status c z h. none-absurd h)

  -- A job that is not pending is never applied again.
  pub applied_by-done :
      (id : ℕ) (events : List (Event V)) (t : Tables V)
      → any (schedules id) events ≡ false
      → is_pending id t.jobs ≡ false
      → count id (applied_by events t) ≡ 0
  unfolding applied_by count
  applied_by-done id [] t n h = refl
  applied_by-done id (round r ∷ events) t n h =
      let later =
        applied_by-done id events (step json uuid_text r t).tables n (is_pending-step r t id h) in
      elim (Option-cases (step json uuid_text r t).applied) [
        | inl e ↦ rw e later
        | inr (other, e) ↦ elim (Bool-cases (other == id)) [
          | inl b ↦
              let (was, done) = step-applied r t id (e ∙ ap some ((==_iff other id).0 b)) in
              ground arith
          | inr b ↦ rw (e, b) later
        ]
      ]
  applied_by-done id (scheduled job ∷ events) t n h =
      applied_by-done id events _ (ground arith) (is_pending-append id t.jobs job (ground arith) h)
  applied_by-done id (unscheduled env_id other ∷ events) t n h =
      applied_by-done id events _ n (is_pending-delete_jobs env_id other id t.jobs h)
  applied_by-done id (written db ∷ events) t n h = applied_by-done id events _ n h

  -- Over any list of committed transactions (rounds of any workers, with any clocks, locks and faults,
  -- insertions and deletions of jobs, and writes of the other tables) that inserts no job with this id,
  -- the job is applied at most once.
  pub applied_by-once :
      (id : ℕ) (events : List (Event V)) (t : Tables V)
      → any (schedules id) events ≡ false
      → count id (applied_by events t) ≤ 1
  unfolding applied_by count
  applied_by-once id [] t n = omega arith
  applied_by-once id (round r ∷ events) t n =
      let later = applied_by-once id events (step json uuid_text r t).tables n in
      elim (Option-cases (step json uuid_text r t).applied) [
        | inl e ↦ rw e later
        | inr (other, e) ↦ elim (Bool-cases (other == id)) [
          | inl b ↦
              let (was, done) = step-applied r t id (e ∙ ap some ((==_iff other id).0 b)) in
              let none_later = applied_by-done id events (step json uuid_text r t).tables n done in
              rw (e, b) (omega arith)
          | inr b ↦ rw (e, b) later
        ]
      ]
  applied_by-once id (scheduled job ∷ events) t n = applied_by-once id events _ (ground arith)
  applied_by-once id (unscheduled env_id other ∷ events) t n = applied_by-once id events _ n
  applied_by-once id (written db ∷ events) t n = applied_by-once id events _ n

  -- A run of the loop is a list of at most as many rounds, which applies the same jobs and leaves the
  -- same tables.
  pub rounds_from-applied_by :
      (n : ℕ) (meets : ℕ → Round) (t : Tables V)
      → (rounds : List Round) × (length rounds ≤ n)
        × ((rounds_from json uuid_text n meets t).applied ≡ applied_by (map round rounds) t)
  unfolding rounds_from applied_by
  rounds_from-applied_by zero meets t = ([], omega arith, refl)
  rounds_from-applied_by (suc n) meets t =
      elim (Bool-cases (step json uuid_text (meets n) t).goes_on) [
        | inl e ↦
            let (rounds, short, same) =
              rounds_from-applied_by n meets (step json uuid_text (meets n) t).tables in
            (
              meets n ∷ rounds,
              omega arith,
              rw (e, rounds_from) (ap (add_applied (step json uuid_text (meets n) t).applied) same),
            )
        | inr e ↦ (meets n ∷ [], omega arith, rw (e, rounds_from) refl)
      ]
