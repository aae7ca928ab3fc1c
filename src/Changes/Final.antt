-- ===== src/Changes/Final.antt =====
-- Requests that are decided, under the calls of the handlers.
use checkgate.Common.{
  ℕ, String, ◌≡◌, ◌≢◌, refl, sym, ap, ◌∙◌, inl, inr, true, false, Option, none, some, List, [], ◌∷◌,
  ◌++◌, arith, str_eq, ◌==◌, eq_iff, Bool-cases, Option-cases,
}
use checkgate.Status.{
  ok, ok_or, Result-cases, chain_lem, ok_or_lem, forbidden, unauthorized, not_found, ◌>>◌,
  ok_injective, some_injective, none-absurd,
}
use checkgate.Auth.{SessionClaims, AuthContext, AuthWorld}
use checkgate.Auth.Access.{check_env_access}
use checkgate.Auth.Roles.{get_session_claims}
use checkgate.Server.{FlagJson, ChangeRow, Db, lock_environment}
use checkgate.Flags.Write.{
  email_of, apply_patch_in_tx, may_queue, create_change_request, patch_now, patch_later, patch_flag,
}
use checkgate.Changes.{
  find_id, in_environment, if_pending, review, approval, approve_change_request, rejection,
  reject_change_request, cancellable, cancellation, cancel_change_request,
}
use checkgate.Changes.Laws.{
  find_id-review_other, find_id-delete_other, apply_patch_in_tx-change_requests,
  approval-IsApproved,
}

-- A call of the handlers that write change requests.
pub data Call (V : Type 0) : Type 0 where
  patch : String → String → V → Call V
  approve : String → ℕ → Call V
  reject : String → ℕ → Option String → Call V
  cancel : String → ℕ → Call V

module _ {V : Type 0} where
  find_id-append :
      (rows more : List (ChangeRow V)) (i : ℕ) (row : ChangeRow V)
      → find_id i rows ≡ some row
      → find_id i (rows ++ more) ≡ some row
  unfolding find_id
  find_id-append [] more i row h = none-absurd h
  find_id-append (r ∷ rows) more i row h = ground (arith, find_id-append rows more i row)

  if_pending_lem :
      (env_id : String) (found : Option (ChangeRow V)) (row : ChangeRow V)
      → if_pending (in_environment env_id found) ≡ some row
      → (found ≡ some row) × (row.status ≡ "pending")
  if_pending_lem env_id none row h = none-absurd h
  if_pending_lem env_id (some r) row h = elim (Bool-cases (str_eq r.environment_id env_id)) [
    | inr e ↦ none-absurd (rw e at h)
    | inl e ↦ elim (Bool-cases (str_eq r.status "pending")) [
      | inr p ↦ none-absurd (rw (e, p) at h)
      | inl p ↦
          let same = some_injective (rw (e, p) at h) in
          (
            ap some same,
            ap (λ (x : ChangeRow V). x.status) (sym same) ∙ (eq_iff r.status "pending").0 p,
          )
    ]
  ]

  cancellable_lem :
      (claims : SessionClaims) (env_id : String) (found : Option (ChangeRow V)) (row : ChangeRow V)
      → cancellable claims (in_environment env_id found) ≡ some row
      → if_pending (in_environment env_id found) ≡ some row
  cancellable_lem claims env_id found row h = elim (Bool-cases (str_eq claims.role "admin")) [
    | inl e ↦ rw e at h
    | inr e ↦ elim (Option-cases (if_pending (in_environment env_id found))) [
      | inl n ↦ none-absurd (rw (e, n) at h)
      | inr (r, p) ↦ elim (Bool-cases (str_eq r.requested_by claims.email)) [
        | inl q ↦ p ∙ (rw (e, p, q) at h)
        | inr q ↦ none-absurd (rw (e, p, q) at h)
      ]
    ]
  ]

  -- A request that is not pending is not the pending one.
  other_id :
      (rows : List (ChangeRow V)) (i id : ℕ) (row pending : ChangeRow V)
      → find_id i rows ≡ some row
      → row.status ≢ "pending"
      → find_id id rows ≡ some pending
      → pending.status ≡ "pending"
      → (i == id) ≡ false
  other_id rows i id row pending f n g p = elim (Bool-cases (i == id)) [
    | inr e ↦ e
    | inl e ↦
        let same : i ≡ id = ground arith in
        absurd (
          n (
            ap (λ (x : ChangeRow V). x.status)
              (some_injective (sym f ∙ ap (λ j. find_id j rows) same ∙ g))
            ∙ p))
  ]

module _ {V : Type 0} (json : FlagJson V) (world : AuthWorld) where
  -- The tables after a call.
  unfoldable pub after : Db V → AuthContext → Call V → Db V
  unfolding patch_flag approve_change_request reject_change_request cancel_change_request
  after db jar (patch env_id key p) = (patch_flag json world db jar env_id key p).db
  after db jar (approve env_id id) = (approve_change_request json world db jar env_id id).db
  after db jar (reject env_id id reason) =
      (reject_change_request json world db jar env_id id reason).db
  after db jar (cancel env_id id) = (cancel_change_request json world db jar env_id id).db

  rejection_lem :
      (db : Db V) (jar : AuthContext) (env_id : String) (id : ℕ) (r : String × ChangeRow V)
      → rejection json world db jar env_id id ≡ ok r
      → if_pending (in_environment env_id (find_id id db.change_requests)) ≡ some r.1
  unfolding rejection
  rejection_lem db jar env_id id r h =
      let found = if_pending (in_environment env_id (find_id id db.change_requests)) in
      let P = λ (x : String × ChangeRow V). found ≡ some x.1 in
      chain_lem P (check_env_access world jar env_id) _
        (λ u x e₁ h₁.
          chain_lem P (ok_or (email_of (get_session_claims jar)) unauthorized) _
            (λ m y e₂ h₂.
              chain_lem P (ok_or found not_found) _
                (λ row z e₃ h₃.
                  ok_or_lem found not_found e₃
                  ∙ ap (λ (x : String × ChangeRow V). some x.1) (ok_injective h₃))
                y h₂)
            x h₁)
        r h

  cancellation_lem :
      (db : Db V) (jar : AuthContext) (env_id : String) (id : ℕ) (row : ChangeRow V)
      → cancellation json world db jar env_id id ≡ ok row
      → if_pending (in_environment env_id (find_id id db.change_requests)) ≡ some row
  unfolding cancellation
  cancellation_lem db jar env_id id row h =
      let found = in_environment env_id (find_id id db.change_requests) in
      let P = λ (x : ChangeRow V). if_pending found ≡ some x in
      chain_lem P (check_env_access world jar env_id) _
        (λ u x e₁ h₁.
          chain_lem P (ok_or (get_session_claims jar) forbidden) _
            (λ claims y e₂ h₂.
              cancellable_lem claims env_id (find_id id db.change_requests) y
                (ok_or_lem (cancellable claims found) not_found h₂))
            x h₁)
        row h

  module _ (db : Db V) (jar : AuthContext) (i : ℕ) (row : ChangeRow V)
      (found : find_id i db.change_requests ≡ some row) (decided : row.status ≢ "pending") where
    abbrev Unchanged : Db V → Type 0
    Unchanged d = find_id i d.change_requests ≡ some row

    keeps_review :
        (rows : List (ChangeRow V)) (id : ℕ) (status reviewer : String) (reason : Option String)
        (pending : ChangeRow V)
        → rows ≡ db.change_requests
        → find_id id db.change_requests ≡ some pending
        → pending.status ≡ "pending"
        → find_id i (review id status reviewer reason rows) ≡ some row
    keeps_review rows id status reviewer reason pending e g p =
        find_id-review_other rows row i id status reviewer reason
          (other_id db.change_requests i id row pending found decided g p)
        ∙ ap (find_id i) e
        ∙ found

    keeps_approve :
        (env_id : String) (id : ℕ)
        → Unchanged (approve_change_request json world db jar env_id id).db
    unfolding approve_change_request
    keeps_approve env_id id = elim (Result-cases (approval json world db jar env_id id)) [
      | inl (s, e) ↦ rw (e, approve_change_request) found
      | inr (a, e) ↦
          let is = approval-IsApproved json world db jar env_id id a e in
          rw (e, approve_change_request)
            (keeps_review a.written.db.change_requests id "approved" a.reviewer a.request.reason
              a.request
              (apply_patch_in_tx-change_requests json db env_id a.request.flag_key a.request.patch
                a.written is.applied)
              is.found is.pending)
    ]

    keeps_reject :
        (env_id : String) (id : ℕ) (reason : Option String)
        → Unchanged (reject_change_request json world db jar env_id id reason).db
    unfolding reject_change_request
    keeps_reject env_id id reason = elim (Result-cases (rejection json world db jar env_id id)) [
      | inl (s, e) ↦ rw (e, reject_change_request) found
      | inr (r, e) ↦
          let (g, p) =
            if_pending_lem env_id (find_id id db.change_requests) r.1
              (rejection_lem db jar env_id id r e) in
          rw (e, reject_change_request)
            (keeps_review db.change_requests id "rejected" r.0 reason r.1 refl g p)
    ]

    keeps_cancel :
        (env_id : String) (id : ℕ)
        → Unchanged (cancel_change_request json world db jar env_id id).db
    unfolding cancel_change_request
    keeps_cancel env_id id = elim (Result-cases (cancellation json world db jar env_id id)) [
      | inl (s, e) ↦ rw (e, cancel_change_request) found
      | inr (r, e) ↦
          let (g, p) =
            if_pending_lem env_id (find_id id db.change_requests) r
              (cancellation_lem db jar env_id id r e) in
          rw (e, cancel_change_request)
            (find_id-delete_other db.change_requests i id
                (other_id db.change_requests i id row r found decided g p)
              ∙ found)
    ]

    keeps_patch :
        (env_id key : String) (p : V) → Unchanged (patch_flag json world db jar env_id key p).db
    unfolding patch_flag patch_now patch_later create_change_request
    keeps_patch env_id key p =
        elim (Result-cases (check_env_access world jar env_id >> lock_environment db env_id)) [
          | inl (s, e) ↦ rw (e, patch_flag) found
          | inr (true, e) ↦ elim (Result-cases (may_queue json world db jar env_id key p)) [
            | inl (s, q) ↦ rw (e, patch_flag, q, patch_later) found
            | inr (email, q) ↦
                rw (e, patch_flag, q, patch_later, create_change_request)
                  (find_id-append db.change_requests _ i row found)
          ]
          | inr (false, e) ↦ elim (Result-cases (apply_patch_in_tx json db env_id key p)) [
            | inl (s, q) ↦ rw (e, patch_flag, q, patch_now) found
            | inr (w, q) ↦
                rw (e, patch_flag, q, patch_now)
                  (ap (find_id i) (apply_patch_in_tx-change_requests json db env_id key p w q)
                    ∙ found)
          ]
        ]

  -- A request that is not pending stays as it is, whatever call comes next, of whom and on what: no
  -- decision is taken twice, changed or deleted.
  pub after-final :
      (db : Db V) (jar : AuthContext) (call : Call V) (i : ℕ) (row : ChangeRow V)
      → find_id i db.change_requests ≡ some row
      → row.status ≢ "pending"
      → find_id i (after db jar call).change_requests ≡ some row
  unfolding after
  after-final db jar (patch env_id key p) i row f d = keeps_patch db jar i row f d env_id key p
  after-final db jar (approve env_id id) i row f d = keeps_approve db jar i row f d env_id id
  after-final db jar (reject env_id id reason) i row f d =
      keeps_reject db jar i row f d env_id id reason
  after-final db jar (cancel env_id id) i row f d = keeps_cancel db jar i row f d env_id id
