-- ===== src/Scheduler/Api/Lists.antt =====
-- The lists of server/src/api/scheduled.rs: the rows of the condition, in the order of their times.
use mathlib.Core.Path.{subst}
use checkgate.Common.{
  ℕ, ◌≤◌, ◌≡◌, ◌↔◌, ap, sym, ◌∙◌, inl, inr, Bool, true, String, List, [], ◌∷◌, All, In, arith,
  str_eq, eq_iff, leb, Bool-cases, false-absurd,
}
use checkgate.Status.{ok, Result-cases, ok_injective, err-absurd}
use checkgate.Auth.{AuthContext, AuthWorld}
use checkgate.Auth.Access.{check_env_access}
use checkgate.Scheduler.{Job, Tables}
use checkgate.Scheduler.Api.{
  ScheduledChange, rows_to_changes, list_scheduled, insert_row, select_rows,
}

module _ {V : Type 0} where
  -- A sorted list of rows.
  abbrev pub IsSorted : List (Job V) → Type 0
  IsSorted [] = Unit
  IsSorted (job ∷ jobs) = All (λ k. job.scheduled_at ≤ k.scheduled_at) jobs × IsSorted jobs

  pub All-insert_row :
      (P : Job V → Type 0) (job : Job V) (jobs : List (Job V))
      → P job
      → All P jobs
      → All P (insert_row job jobs)
  unfolding insert_row
  All-insert_row P job [] p h = (p, tt)
  All-insert_row P job (j ∷ jobs) p (q, h) =
      elim (Bool-cases (leb job.scheduled_at j.scheduled_at)) [
        | inl e ↦ rw e (p, (q, h))
        | inr e ↦ rw e (q, All-insert_row P job jobs p h)
      ]

  pub All-later :
      (n m : ℕ) (jobs : List (Job V))
      → n ≤ m
      → All (λ k. m ≤ k.scheduled_at) jobs
      → All (λ k. n ≤ k.scheduled_at) jobs
  All-later n m [] l h = tt
  All-later n m (job ∷ jobs) l (q, h) = (omega arith, All-later n m jobs l h)

  pub insert_row-IsSorted :
      (job : Job V) (jobs : List (Job V)) → IsSorted jobs → IsSorted (insert_row job jobs)
  unfolding insert_row
  insert_row-IsSorted job [] h = (tt, tt)
  insert_row-IsSorted job (j ∷ jobs) (q, h) =
      elim (Bool-cases (leb job.scheduled_at j.scheduled_at)) [
        | inl e ↦
            let le : job.scheduled_at ≤ j.scheduled_at = ground arith in
            rw e ((le, All-later job.scheduled_at j.scheduled_at jobs le q), (q, h))
        | inr e ↦
            let le : j.scheduled_at ≤ job.scheduled_at = ground arith in
            rw e (
              All-insert_row (λ k. j.scheduled_at ≤ k.scheduled_at) job jobs le q,
              insert_row-IsSorted job jobs h,
            )
      ]

  pub select_rows-IsSorted :
      (condition : Job V → Bool) (jobs : List (Job V)) → IsSorted (select_rows condition jobs)
  unfolding select_rows
  select_rows-IsSorted condition [] = tt
  select_rows-IsSorted condition (job ∷ jobs) =
      let rest = select_rows-IsSorted condition jobs in
      elim (Bool-cases (condition job)) [
        | inl e ↦ rw e (insert_row-IsSorted job _ rest)
        | inr e ↦ rw e rest
      ]

  pub In-insert_row :
      (k job : Job V) (jobs : List (Job V)) → In k (insert_row job jobs) ↔ In k (job ∷ jobs)
  unfolding insert_row
  In-insert_row k job [] = (λ h. h, λ h. h)
  In-insert_row k job (j ∷ jobs) =
      let (to, of) = In-insert_row k job jobs in
      elim (Bool-cases (leb job.scheduled_at j.scheduled_at)) [
        | inl e ↦ rw e (λ h. h, λ h. h)
        | inr e ↦ rw e (ground arith)
      ]

  pub In-select_rows :
      (condition : Job V → Bool) (k : Job V) (jobs : List (Job V))
      → In k (select_rows condition jobs) ↔ (In k jobs × (condition k ≡ true))
  unfolding select_rows
  In-select_rows condition k [] = (λ h. elim h [ ], λ h. h.0)
  In-select_rows condition k (job ∷ jobs) =
      let (to, of) = In-select_rows condition k jobs in
      elim (Bool-cases (condition job)) [
        | inl e ↦
            let (into, out) = In-insert_row k job (select_rows condition jobs) in
            rw e (
              λ h. elim (into h) [
                | inl s ↦ (inl s, subst (λ x. condition x ≡ true) s e)
                | inr m ↦ let (a, b) = to m in (inr a, b)
              ],
              λ h. elim h.0 [ inl s ↦ out (inl s) | inr m ↦ out (inr (of (m, h.1))) ],
            )
        | inr e ↦ rw e (
          λ h. let (a, b) = to h in (inr a, b),
          λ h. elim h.0 [
            | inl s ↦ false-absurd (sym e ∙ ap condition s ∙ h.1)
            | inr m ↦ of (m, h.1)
          ],
        )
      ]

module _ {V : Type 0} (world : AuthWorld) where
  -- A list that `list_scheduled` answers holds exactly the jobs of the environment, for a caller that may
  -- read it, in the order of their times.
  pub list_scheduled-exact :
      (t : Tables V) (jar : AuthContext) (env_id : String) (changes : List (ScheduledChange V))
      → list_scheduled world t jar env_id ≡ ok changes
      → (check_env_access world jar env_id ≡ ok tt)
        × (rows : List (Job V)) × (changes ≡ rows_to_changes rows)
        × IsSorted rows
        × ((job : Job V) → In job rows ↔ (In job t.jobs × (job.environment_id ≡ env_id)))
  unfolding list_scheduled
  list_scheduled-exact t jar env_id changes h =
      elim (Result-cases (check_env_access world jar env_id)) [
        | inl (s, c) ↦ err-absurd (rw (c, list_scheduled) at h)
        | inr (u, c) ↦
            let condition : Job V → Bool = λ job. str_eq job.environment_id env_id in
            (
              c,
              select_rows condition t.jobs,
              sym (ok_injective (rw (c, list_scheduled) at h)),
              select_rows-IsSorted condition t.jobs,
              λ job.
                  let (to, of) = In-select_rows condition job t.jobs in
                  let (same, eq) = eq_iff job.environment_id env_id in
                  (λ m. let (a, b) = to m in (a, same b), λ m. of (m.0, eq m.1)),
            )
      ]
