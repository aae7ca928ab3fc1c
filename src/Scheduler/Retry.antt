-- ===== src/Scheduler/Retry.antt =====
-- What a round of the scheduler leaves of the flags and of its job, applied or failed.
use mathlib.Core.Path.{subst}
use checkgate.Common.{
  ℕ, ◌+◌, ◌<◌, ◌≡◌, ◌≢◌, sym, ◌∙◌, inl, inr, Bool, true, false, Option, none, some, String,
  Option-cases, List, [], ◌∷◌, In, arith, ◌==◌, ==_iff, Bool-cases, false-absurd,
}
use checkgate.Status.{StatusCode, none-absurd}
use checkgate.Server.{FlagJson}
use checkgate.Flags.Write.{Written, emit_patch}
use checkgate.Scheduler.{
  Job, Round, Tables, Left, is_due, is_unset, claim, executed, failed_at, update_job, if_unset,
  success, failure, step,
}
use checkgate.Scheduler.Rounds.{claim_lem, Hindered, Applicable, step_ind}
use checkgate.Scheduler.Once.{is_pending, is_pending-claimed}

module _ {V : Type 0} where
  -- A row that has failed is due at no time of the next minute.
  pub is_due-failed_at :
      (id now later : ℕ) (locked : ℕ → Bool) (status : StatusCode) (jobs : List (Job V))
      (job : Job V)
      → later < now + 60
      → In job (update_job id (if_unset (failed_at now status)) jobs)
      → job.id ≡ id
      → is_due later locked job ≡ false
  unfolding update_job is_due
  is_due-failed_at id now later locked status [] job h m same = elim m [ ]
  is_due-failed_at id now later locked status (j ∷ jobs) job h (inl e) same =
      let iff = ==_iff j.id id in
      subst (λ k. k.id ≡ id → is_due later locked k ≡ false) e (λ s. ground arith) same
  is_due-failed_at id now later locked status (j ∷ jobs) job h (inr m) same =
      is_due-failed_at id now later locked status jobs job h m same

  pub is_pending-failed :
      (id now : ℕ) (status : StatusCode) (jobs : List (Job V))
      → is_pending id jobs ≡ true
      → is_pending id (update_job id (if_unset (failed_at now status)) jobs) ≡ true
  unfolding is_pending update_job
  is_pending-failed id now status [] h = h
  is_pending-failed id now status (job ∷ jobs) h =
      let rest = is_pending-failed id now status jobs in
      elim (Bool-cases (job.id == id)) [
        | inl b ↦ elim (Bool-cases (is_unset job.executed_at)) [
          | inl u ↦ rw (b, u) (ground arith)
          | inr u ↦ rw (b, u) (ground arith)
        ]
        | inr b ↦ rw b (ground arith)
      ]

module _ {V : Type 0} (json : FlagJson V) (uuid_text : ℕ → String) where
  -- What a round may leave: nothing new, where something keeps it from applying a job, and else the patch of
  -- the job that it has claimed, with its notices and its mark on the job.
  pub data IsAtomic (r : Round) (t : Tables V) (left : Left V) : Type 0 where
    nothing :
        Hindered json r t
        → left.applied ≡ none
        → left.tables.db ≡ t.db
        → left.effects ≡ []
        → IsAtomic r t left
    all_of :
        (job : Job V) (w : Written V)
        → Applicable json r t job w
        → left.applied ≡ some job.id
        → left.tables.db ≡ w.db
        → left.tables.jobs ≡ update_job job.id (executed r.now) t.jobs
        → left.effects
          ≡ emit_patch json w.db job.environment_id job.flag_key w.applied none
              (some (uuid_text job.id))
        → IsAtomic r t left

  -- The claim takes another job than this one, or none.
  abbrev pub Spares : ℕ → Option (Job V) → Type 0
  Spares id none = Unit
  Spares id (some next) = next.id ≢ id

  claim-Spares :
      (id now later : ℕ) (locked : ℕ → Bool) (status : StatusCode) (jobs : List (Job V))
      → later < now + 60
      → Spares id (claim later locked (update_job id (if_unset (failed_at now status)) jobs))
  claim-Spares id now later locked status jobs h =
      let left = update_job id (if_unset (failed_at now status)) jobs in
      elim (Option-cases (claim later locked left)) [
        | inl n ↦ rw n tt
        | inr (next, e) ↦
            let (m, d) = claim_lem later locked left next e in
            rw e (λ same.
              false-absurd
                (sym (is_due-failed_at id now later locked status jobs next h m same) ∙ d))
      ]

  -- A round after which the loop goes on and that has applied nothing has failed a job, which stays
  -- pending, and a claim at any time of the next 60 seconds, by any worker, does not take it.
  pub step-retry :
      (r : Round) (t : Tables V) (later : ℕ) (locked : ℕ → Bool)
      → (step json uuid_text r t).goes_on ≡ true
      → (step json uuid_text r t).applied ≡ none
      → later < r.now + 60
      → (job : Job V) × (claim r.now r.locked t.jobs ≡ some job)
        × (is_pending job.id (step json uuid_text r t).tables.jobs ≡ true)
        × Spares job.id (claim later locked (step json uuid_text r t).tables.jobs)
  unfolding success failure
  step-retry r t later locked on none_applied h =
      step_ind json uuid_text
        (λ left.
          left.goes_on ≡ true
          → left.applied ≡ none
          → (job : Job V) × (claim r.now r.locked t.jobs ≡ some job)
            × (is_pending job.id left.tables.jobs ≡ true)
            × Spares job.id (claim later locked left.tables.jobs))
        r t (λ z on n. false-absurd on) (λ job w a on n. none-absurd (sym n))
        (λ job status c z on n. (
          job,
          c,
          is_pending-failed job.id r.now status t.jobs
              (is_pending-claimed json uuid_text r t job c),
          claim-Spares job.id r.now later locked status t.jobs h,
        ))
        on none_applied
