-- ===== src/Scheduler/Api/Laws.antt =====
-- What the handlers of scheduled changes accept, delete and list, and what the scheduler does after a
-- deletion.
use mathlib.Core.Path.{subst}
use checkgate.Common.{
  ℕ, ◌-◌, ◌≤◌, ◌≡◌, ◌↔◌, refl, ap, sym, ◌∙◌, inl, inr, Bool, true, false, not, ◌&&◌, some, String,
  List, [], ◌∷◌, ◌++◌, All, any, arith, lookup, leb, ltb, ◌==◌, ==_iff, Bool-cases, false-absurd,
  Option-cases,
}
use checkgate.Status.{ok, Result-cases, ok_injective, err-absurd}
use checkgate.Auth.{AuthContext, AuthWorld}
use checkgate.Auth.Access.{check_env_access}
use checkgate.Server.{FlagJson}
use checkgate.Flags.Patch.{merge_and_validate, Merged}
use checkgate.Scheduler.{Job, Tables, is_due}
use checkgate.Scheduler.Api.{
  ScheduledChange, CreateBody, Call, row_to_change, may_be_deleted, delete_jobs, rows_affected,
  delete_scheduled, may_schedule, new_job, create_scheduled,
}
use checkgate.Scheduler.Once.{
  is_pending, is_pending-delete_jobs, Event, schedules, applied_by, applied_by-done, count,
}

module _ {V : Type 0} where
  -- the primary key of the table
  abbrev pub HasDistinctIds : List (Job V) → Type 0
  HasDistinctIds [] = Unit
  HasDistinctIds (job ∷ jobs) = All (λ k. (k.id == job.id) ≡ false) jobs × HasDistinctIds jobs

  pub is_pending-cons :
      (id : ℕ) (job : Job V) (jobs : List (Job V))
      → (job.id == id) ≡ false
      → is_pending id jobs ≡ false
      → is_pending id (job ∷ jobs) ≡ false
  unfolding is_pending
  is_pending-cons id job jobs n h = rw n h

  pub is_pending-All :
      (id : ℕ) (jobs : List (Job V))
      → All (λ k. (k.id == id) ≡ false) jobs
      → is_pending id jobs ≡ false
  unfolding is_pending
  is_pending-All id [] h = refl
  is_pending-All id (job ∷ jobs) (n, h) = let rest = is_pending-All id jobs h in ground arith

  pub rows_affected-All :
      (env_id : String) (id : ℕ) (jobs : List (Job V))
      → All (λ k. (k.id == id) ≡ false) jobs
      → rows_affected env_id id jobs ≡ 0
  unfolding rows_affected
  rows_affected-All env_id id [] h = refl
  rows_affected-All env_id id (job ∷ jobs) (n, h) =
      let rest = rows_affected-All env_id id jobs h in rw n rest

  -- A deletion that affects a row leaves its job not pending.
  pub is_pending-rows_affected :
      (env_id : String) (id : ℕ) (jobs : List (Job V))
      → HasDistinctIds jobs
      → (rows_affected env_id id jobs == 0) ≡ false
      → is_pending id (delete_jobs env_id id jobs) ≡ false
  unfolding rows_affected delete_jobs
  is_pending-rows_affected env_id id [] d h = ground arith
  is_pending-rows_affected env_id id (job ∷ jobs) (n, d) h = elim (Bool-cases (job.id == id)) [
    | inl same ↦
        let others =
          subst (λ k. All (λ j. (j.id == k) ≡ false) jobs) ((==_iff job.id id).0 same) n in
        let none_left = rows_affected-All env_id id jobs others in
        elim (Bool-cases (may_be_deleted env_id id job)) [
          | inl m ↦ rw m (is_pending-delete_jobs env_id id id jobs (is_pending-All id jobs others))
          | inr m ↦ false-absurd (sym (rw (m, none_left) at h))
        ]
    | inr other ↦
        let rest = is_pending-rows_affected env_id id jobs d (rw other at h) in
        rw other (is_pending-cons id job (delete_jobs env_id id jobs) other rest)
  ]

module _ {V : Type 0} (json : FlagJson V) (uuid_text : ℕ → String) (world : AuthWorld) where
  -- In a table of distinct ids, a job whose deletion is answered with success is applied by no round
  -- after it, whatever transactions follow that insert no job with its id.
  pub delete_scheduled-final :
      (t : Tables V) (jar : AuthContext) (env_id : String) (id : ℕ) (events : List (Event V))
      → HasDistinctIds t.jobs
      → (delete_scheduled world t jar env_id id).response ≡ ok tt
      → any (schedules id) events ≡ false
      → count id (applied_by json uuid_text events (delete_scheduled world t jar env_id id).tables)
        ≡ 0
  unfolding delete_scheduled
  delete_scheduled-final t jar env_id id events d h n =
      elim (Result-cases (check_env_access world jar env_id)) [
        | inl (s, c) ↦ err-absurd (rw (c, delete_scheduled) at h)
        | inr (u, c) ↦ elim (Bool-cases (rows_affected env_id id t.jobs == 0)) [
          | inl z ↦ err-absurd (rw (c, delete_scheduled, z) at h)
          | inr z ↦
              rw (c, delete_scheduled)
                (applied_by-done json uuid_text id events _ n
                  (is_pending-rows_affected env_id id t.jobs d z))
        ]
      ]

module _ {V : Type 0} (world : AuthWorld) (json : FlagJson V) (call : Call) (t : Tables V)
    (jar : AuthContext) (env_id key : String) (body : CreateBody V) where
  -- What a scheduled change needs: the access, an environment without approval, a patch that the flag
  -- takes now, and a time that is at most 30 seconds past.
  abbrev pub IsSchedulable : ℕ → Type 0
  IsSchedulable scheduled_at =
      (check_env_access world jar env_id ≡ ok tt)
      × (lookup env_id t.db.environments ≡ some false)
      × ((merged : Merged V) × (merge_and_validate json t.db.flags env_id key body.patch
            ≡ ok merged))
      × (call.parse_rfc3339 body.scheduled_at ≡ some scheduled_at)
      × (call.now - 30 ≤ scheduled_at)

  pub may_schedule_iff :
      (scheduled_at : ℕ)
      → (may_schedule world json call t jar env_id key body ≡ ok scheduled_at)
        ↔ IsSchedulable scheduled_at
  unfolding may_schedule
  may_schedule_iff scheduled_at = (
    λ h. elim (Result-cases (check_env_access world jar env_id)) [
      | inl (s, c) ↦ err-absurd (rw (c, may_schedule) at h)
      | inr (u, c) ↦
          let h₁ = rw (c, may_schedule) at h in
          elim (Option-cases (lookup env_id t.db.environments)) [
            | inl l ↦ err-absurd (rw l at h₁)
            | inr (true, l) ↦ err-absurd (rw l at h₁)
            | inr (false, l) ↦
                elim (Result-cases (merge_and_validate json t.db.flags env_id key body.patch)) [
                  | inl (s, m) ↦ err-absurd (rw (l, m) at h₁)
                  | inr (merged, m) ↦ elim (Option-cases (call.parse_rfc3339 body.scheduled_at)) [
                    | inl p ↦ err-absurd (rw (l, m, p) at h₁)
                    | inr (time, p) ↦ elim (Bool-cases (ltb time (call.now - 30))) [
                      | inl b ↦ err-absurd (rw (l, m, p, b) at h₁)
                      | inr b ↦
                          let same = ok_injective (rw (l, m, p, b) at h₁) in
                          (
                            c,
                            l,
                            (merged, m),
                            p ∙ ap some same,
                            subst (λ n. call.now - 30 ≤ n) same (ground arith),
                          )
                    ]
                  ]
                ]
          ]
    ],
    λ (c, l, (merged, m), p, recent).
        let b : ltb scheduled_at (call.now - 30) ≡ false = ground arith in
        rw (c, may_schedule, l, m, p, b) refl,
  )

  -- A scheduled change is accepted with the answer `change` only if the checks pass at its time, and then
  -- the table gains one row, which is shown in the answer and is due at a round exactly when its time has come and it is not
  -- locked.
  pub create_scheduled-ok :
      (change : ScheduledChange V)
      → (create_scheduled world json call t jar env_id key body).response ≡ ok change
      → IsSchedulable change.scheduled_at
        × (job : Job V) × ((create_scheduled world json call t jar env_id key body).tables.jobs
            ≡ t.jobs ++ job ∷ [])
        × (change ≡ row_to_change job)
        × (job.environment_id ≡ env_id)
        × (job.flag_key ≡ key)
        × (job.patch ≡ body.patch)
        × ((now : ℕ) (locked : ℕ → Bool)
            → is_due now locked job ≡ (leb job.scheduled_at now && not (locked job.id)))
  unfolding create_scheduled is_due
  create_scheduled-ok change h =
      elim (Result-cases (may_schedule world json call t jar env_id key body)) [
        | inl (s, c) ↦ err-absurd (rw (c, create_scheduled) at h)
        | inr (time, c) ↦
            let same = ok_injective (rw (c, create_scheduled) at h) in
            (
              subst (λ x. IsSchedulable x.scheduled_at) same ((may_schedule_iff time).0 c),
              new_job call env_id key time body.patch,
              rw (c, create_scheduled) refl,
              sym same,
              refl,
              refl,
              refl,
              λ now locked. ground arith,
            )
      ]
