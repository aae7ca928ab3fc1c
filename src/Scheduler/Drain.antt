-- ===== src/Scheduler/Drain.antt =====
-- The jobs that are due, through rounds without faults and locks.
use mathlib.Core.Path.{subst}
use checkgate.Common.{
  ℕ, zero, suc, ◌≤◌, ◌<◌, ◌≡◌, refl, sym, inl, inr, Bool, true, false, none, some, String, List, [],
  ◌∷◌, In, arith, map, ◌==◌, ==_iff, Bool-cases, false-absurd, Option-cases, if◌then◌else◌,
}
use checkgate.Status.{StatusCode, Result-cases, none-absurd}
use checkgate.Server.{FlagJson}
use checkgate.Scheduler.{
  Job, Round, Tables, working, is_due, claim, executed, failed_at, update_job, if_unset, gives_up,
  attempt, success, failure, settle, work, claimed, step, rounds_from, execute_due,
}
use checkgate.Scheduler.Rounds.{claim_lem}

-- what a round meets at which nothing fails and nothing is locked
abbrev pub at_time : ℕ → Round
at_time now = record { now = now; locked = λ id. false; fault = working }

module _ {V : Type 0} where
  -- a row is due when no worker has locked it
  abbrev pub is_ready : ℕ → Job V → Bool
  is_ready now job = is_due now (λ id. false) job

  unfoldable pub count_due : ℕ → List (Job V) → ℕ
  unfolding is_due
  count_due now [] = 0
  count_due now (job ∷ jobs) =
      let rest = count_due now jobs in if is_ready now job then suc rest else rest

  pub count_due-map :
      (now : ℕ) (change : Job V → Job V)
      → ((job : Job V) → is_ready now (change job) ≡ true → is_ready now job ≡ true)
      → (jobs : List (Job V)) → count_due now (map change jobs) ≤ count_due now jobs
  unfolding count_due
  count_due-map now change keeps [] = omega arith
  count_due-map now change keeps (job ∷ jobs) =
      let here = keeps job in let rest = count_due-map now change keeps jobs in ground arith

  pub count_due-map-less :
      (now : ℕ) (change : Job V → Job V)
      → ((job : Job V) → is_ready now (change job) ≡ true → is_ready now job ≡ true)
      → (jobs : List (Job V)) (job : Job V) → In job jobs
      → is_ready now job ≡ true
      → is_ready now (change job) ≡ false
      → count_due now (map change jobs) < count_due now jobs
  unfolding count_due
  count_due-map-less now change keeps [] job m d n = elim m [ ]
  count_due-map-less now change keeps (j ∷ jobs) job (inl e) d n =
      let rest = count_due-map now change keeps jobs in
      let due = subst (λ k. is_ready now k ≡ true) (sym e) d in
      let gone = subst (λ k. is_ready now (change k) ≡ false) (sym e) n in ground arith
  count_due-map-less now change keeps (j ∷ jobs) job (inr m) d n =
      let here = keeps j in
      let rest = count_due-map-less now change keeps jobs job m d n in ground arith

  -- Nothing is claimed only when nothing is due.
  pub claim-none :
      (now : ℕ) (jobs : List (Job V)) → claim now (λ id. false) jobs ≡ none → count_due now jobs ≡ 0
  unfolding count_due claim
  claim-none now [] h = refl
  claim-none now (job ∷ jobs) h = elim (Bool-cases (is_ready now job)) [
    | inl e ↦ none-absurd (sym (rw e at h))
    | inr e ↦ rw e (claim-none now jobs (rw e at h))
  ]

module _ {V : Type 0} where
  pub count_due-executed :
      (now : ℕ) (jobs : List (Job V)) (job : Job V)
      → In job jobs
      → is_ready now job ≡ true
      → count_due now (update_job job.id (executed now) jobs) < count_due now jobs
  unfolding update_job is_due
  count_due-executed now jobs job m d =
      let same = ==_iff job.id job.id in
      count_due-map-less now (λ j. if j.id == job.id then executed now j else j)
        (λ j h. elim (Bool-cases (j.id == job.id)) [
          | inl b ↦ false-absurd (rw b at h)
          | inr b ↦ rw b at h
        ])
        jobs job m d (ground arith)

  pub count_due-failed_at :
      (now : ℕ) (status : StatusCode) (jobs : List (Job V)) (job : Job V)
      → In job jobs
      → is_ready now job ≡ true
      → count_due now (update_job job.id (if_unset (failed_at now status)) jobs)
        < count_due now jobs
  unfolding update_job is_due
  count_due-failed_at now status jobs job m d =
      let same = ==_iff job.id job.id in
      count_due-map-less now (λ j. if j.id == job.id then if_unset (failed_at now status) j else j)
        (λ j h. ground arith) jobs job m d (ground arith)

module _ {V : Type 0} (json : FlagJson V) (uuid_text : ℕ → String) where
  -- A round that finds a job, at which nothing fails and nothing is locked, lowers the number of the jobs
  -- that are due.
  pub count_due-step :
      (now : ℕ) (t : Tables V) (job : Job V)
      → claim now (λ id. false) t.jobs ≡ some job
      → (count_due now (step json uuid_text (at_time now) t).tables.jobs < count_due now t.jobs)
        × ((step json uuid_text (at_time now) t).goes_on ≡ true)
  unfolding step claimed work settle success failure
  count_due-step now t job c =
      let (m, d) = claim_lem now (λ id. false) t.jobs job c in
      elim (Result-cases (attempt json working t.db job).outcome) [
        | inr (w, a) ↦ rw (c, a, work) (count_due-executed now t.jobs job m d, refl)
        | inl (status, a) ↦ rw (c, a, work) (count_due-failed_at now status t.jobs job m d, refl)
      ]

  -- A round that finds no job ends the loop.
  pub step-idle :
      (now : ℕ) (t : Tables V)
      → claim now (λ id. false) t.jobs ≡ none
      → step json uuid_text (at_time now) t ≡ gives_up t
  unfolding step claimed
  step-idle now t e = rw (e, step) refl

  -- As many rounds as jobs are due leave none that is due.
  pub count_due-rounds_from :
      (n now : ℕ) (t : Tables V)
      → count_due now t.jobs ≤ n
      → count_due now (rounds_from json uuid_text n (λ i. at_time now) t).tables.jobs ≡ 0
  unfolding rounds_from
  count_due-rounds_from zero now t h = omega arith
  count_due-rounds_from (suc n) now t h = elim (Option-cases (claim now (λ id. false) t.jobs)) [
    | inl e ↦ rw (step-idle now t e, rounds_from) (rw (step-idle now t e) (claim-none now t.jobs e))
    | inr (job, e) ↦
        let (less, on) = count_due-step now t job e in
        let rest =
          count_due-rounds_from n now (step json uuid_text (at_time now) t).tables (omega arith) in
        rw (rounds_from, on) rest
  ]

  -- At one time, with no faults and no locks, a pass over at most 50 due jobs leaves none that is due.
  pub count_due-execute_due :
      (now : ℕ) (t : Tables V)
      → count_due now t.jobs ≤ 50
      → count_due now (execute_due json uuid_text (λ i. at_time now) t).tables.jobs ≡ 0
  unfolding execute_due
  count_due-execute_due now t h = count_due-rounds_from 50 now t h
