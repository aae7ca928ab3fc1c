-- ===== src/Scheduler/Rounds.antt =====
-- A proof rule for a round of the scheduler, and what the claim takes.
use checkgate.Common.{
  ℕ, ◌≡◌, ◌⊎◌, refl, ap, ◌∙◌, inl, inr, Bool, true, false, ◌||◌, All, none, some, String, List, [],
  ◌∷◌, In, Bool-cases, Option-cases,
}
use mathlib.Core.Path.{subst}
use checkgate.Status.{
  StatusCode, conflict, internal_server_error, ok, err, Result-cases, some_injective, none-absurd,
}
use checkgate.Server.{FlagJson, lock_environment}
use checkgate.Flags.Write.{Written, apply_patch_in_tx}
use checkgate.Scheduler.{
  Job, Fault, begin, claiming, savepoint, update, commit, rollback, record_failure, commit_failure,
  fails, Round, Tables, Left, is_due, is_before, claim, gives_up, attempt, success, failure, settle,
  work, claimed, step,
}

module _ {V : Type 0} where
  -- The claim takes a due job of the table.
  pub claim_lem :
      (now : ℕ) (locked : ℕ → Bool) (jobs : List (Job V)) (job : Job V)
      → claim now locked jobs ≡ some job
      → In job jobs × (is_due now locked job ≡ true)
  unfolding claim
  claim_lem now locked [] job h = none-absurd h
  claim_lem now locked (j ∷ jobs) job h = elim (Bool-cases (is_due now locked j)) [
    | inr e ↦ let (m, d) = claim_lem now locked jobs job (rw e at h) in (inr m, d)
    | inl e ↦ elim (Option-cases (claim now locked jobs)) [
      | inl n ↦ (
        inl (some_injective (rw (e, n) at h)),
        subst (λ k. is_due now locked k ≡ true) (some_injective (rw (e, n) at h)) e,
      )
      | inr (k, c) ↦ elim (Bool-cases (is_before k j)) [
        | inl b ↦
            let k≡job = some_injective (rw (e, c, b) at h) in
            let (m, d) = claim_lem now locked jobs job (c ∙ ap some k≡job) in (inr m, d)
        | inr b ↦ (
          inl (some_injective (rw (e, c, b) at h)),
          subst (λ k. is_due now locked k ≡ true) (some_injective (rw (e, c, b) at h)) e,
        )
      ]
    ]
  ]

module _ {V : Type 0} (json : FlagJson V) (r : Round) (t : Tables V) where
  -- The queries that a round needs to apply a job.
  abbrev pub needed : List Fault
  needed = begin ∷ claiming ∷ savepoint ∷ update ∷ commit ∷ []

  -- What keeps a round from applying a job: a query that fails, no job to claim, and a job whose environment
  -- is missing or protected, or whose patch is refused.
  pub data Hindered : Type 0 where
    hit : (query : Fault) → In query needed → fails r.fault query ≡ true → Hindered
    idle : claim r.now r.locked t.jobs ≡ none → Hindered
    unknown :
        (job : Job V) (status : StatusCode)
        → claim r.now r.locked t.jobs ≡ some job
        → lock_environment t.db job.environment_id ≡ err status
        → Hindered
    protected :
        (job : Job V)
        → claim r.now r.locked t.jobs ≡ some job
        → lock_environment t.db job.environment_id ≡ ok true
        → Hindered
    refused :
        (job : Job V) (status : StatusCode)
        → claim r.now r.locked t.jobs ≡ some job
        → apply_patch_in_tx json t.db job.environment_id job.flag_key job.patch ≡ err status
        → Hindered

  -- A job that may be applied: every query succeeds, its environment is not protected, and its patch has
  -- been written.
  pub record Applicable (job : Job V) (w : Written V) : Type 0 where
    pub no_fault : All (λ query. fails r.fault query ≡ false) needed
    pub claims : claim r.now r.locked t.jobs ≡ some job
    pub unprotected : lock_environment t.db job.environment_id ≡ ok false
    pub applies : apply_patch_in_tx json t.db job.environment_id job.flag_key job.patch ≡ ok w

  -- The three ways in which the block after the savepoint ends.
  attempt-cases :
      (job : Job V)
      → claim r.now r.locked t.jobs ≡ some job
      → ((w : Written V) × (attempt json r.fault t.db job ≡ record { db = w.db; outcome = ok w })
          × (fails r.fault update ≡ false)
          × (lock_environment t.db job.environment_id ≡ ok false)
          × (apply_patch_in_tx json t.db job.environment_id job.flag_key job.patch ≡ ok w))
        ⊎ ((status : StatusCode) × ((attempt json r.fault t.db job).outcome ≡ err status)
            × Hindered)
  unfolding attempt
  attempt-cases job c = elim (Result-cases (lock_environment t.db job.environment_id)) [
    | inl (s, l) ↦ rw (l, attempt) (inr (s, refl, unknown job s c l))
    | inr (true, l) ↦ rw (l, attempt) (inr (conflict, refl, protected job c l))
    | inr (false, l) ↦
        elim (Result-cases
          (apply_patch_in_tx json t.db job.environment_id job.flag_key job.patch)) [
            | inl (s, a) ↦ rw (l, a, attempt) (inr (s, refl, refused job s c a))
            | inr (w, a) ↦ elim (Bool-cases (fails r.fault update)) [
              | inl u ↦
                  rw (l, a, attempt, u)
                    (inr (internal_server_error, refl, hit update (inr (inr (inr (inl refl)))) u))
              | inr u ↦ rw (l, a, attempt, u) (inl (w, refl, refl, refl, refl))
            ]
          ]
  ]

module _ {V : Type 0} (json : FlagJson V) (uuid_text : ℕ → String) (P : Left V → Type 0) (r : Round)
    (t : Tables V) where
  -- What holds of the three ways in which a round ends holds of the round.
  pub step_ind :
      (Hindered json r t → P (gives_up t))
      → ((job : Job V) (w : Written V)
          → Applicable json r t job w
          → P (success json uuid_text r t job w))
      → ((job : Job V) (status : StatusCode)
          → claim r.now r.locked t.jobs ≡ some job
          → Hindered json r t
          → P (failure json uuid_text r t (attempt json r.fault t.db job).db job status))
      → P (step json uuid_text r t)
  unfolding step claimed work settle
  step_ind gave succeeded failed = elim (Bool-cases (fails r.fault begin)) [
    | inl b ↦ rw (b, step) (gave (hit begin (inl refl) b))
    | inr b ↦ elim (Bool-cases (fails r.fault claiming)) [
      | inl q ↦ rw (b, step, q) (gave (hit claiming (inr (inl refl)) q))
      | inr q ↦ elim (Option-cases (claim r.now r.locked t.jobs)) [
        | inl n ↦ rw (b, step, q, n) (gave (idle n))
        | inr (job, c) ↦ elim (Bool-cases (fails r.fault savepoint)) [
          | inl s ↦ rw (b, step, q, c, s) (gave (hit savepoint (inr (inr (inl refl))) s))
          | inr s ↦ elim (attempt-cases json r t job c) [
            | inl (w, a, u, l, p) ↦ elim (Bool-cases (fails r.fault commit)) [
              | inl f ↦
                  rw (b, step, q, c, s, a, work, f)
                    (gave (hit commit (inr (inr (inr (inr (inl refl))))) f))
              | inr f ↦
                  rw (b, step, q, c, s, a, work, f)
                    (succeeded job w (record {
                      no_fault = (b, (q, (s, (u, (f, tt)))));
                      claims = c;
                      unprotected = l;
                      applies = p;
                    }))
            ]
            | inr (status, a, hindered) ↦
                elim (Bool-cases (
                  fails r.fault rollback
                  || fails r.fault record_failure
                  || fails r.fault commit_failure)) [
                    | inl f ↦ rw (b, step, q, c, s, work, a, f) (gave hindered)
                    | inr f ↦ rw (b, step, q, c, s, work, a, f) (failed job status c hindered)
                  ]
          ]
        ]
      ]
    ]
  ]
