-- ===== src/Changes/Laws.antt =====
-- The decision of a change request: by whom, and on which requests.
use mathlib.Core.Path.{subst}
use checkgate.Common.{
  ℕ, String, ◌≡◌, ◌≢◌, refl, sym, ap, ◌∙◌, inl, inr, false, Option, none, some, List, [], ◌∷◌,
  arith, str_eq, ◌==◌, eq_iff, Bool-cases, Option-cases,
}
use checkgate.Status.{
  not_found, ok, ok_or, Result-cases, chain_lem, ok_injective, err-absurd, some_injective,
  none-absurd,
}
use checkgate.Auth.{AuthContext, AuthWorld}
use checkgate.Auth.Roles.{get_session_claims}
use checkgate.Auth.Access.{check_env_access}
use checkgate.Server.{FlagJson, ChangeRow, Db, lock_environment, find_row}
use checkgate.Flags.Patch.{merge_and_validate}
use checkgate.Flags.Write.{FlagWithMetadata, Written, email_of, apply_patch_in_tx}
use checkgate.Changes.{
  find_id, in_environment, review, delete_id, lock_pending, Approval, approval,
  approve_change_request,
}

module _ {V : Type 0} where
  abbrev pub reviewed : String → String → Option String → ChangeRow V → ChangeRow V
  reviewed status reviewer reason row = record row {
    status = status;
    reviewed_by = some reviewer;
    reason = reason;
  }

  find_id-review_same :
      (rows : List (ChangeRow V)) (row : ChangeRow V) (id : ℕ) (status reviewer : String)
      (reason : Option String)
      → find_id id rows ≡ some row
      → find_id id (review id status reviewer reason rows)
        ≡ some (reviewed status reviewer reason row)
  unfolding find_id review
  find_id-review_same [] row id status reviewer reason h = none-absurd h
  find_id-review_same (r ∷ rows) row id status reviewer reason h = elim (Bool-cases (r.id == id)) [
    | inl e ↦
        rw (e, e) (ap (λ x. some (reviewed status reviewer reason x)) (some_injective (rw e at h)))
    | inr e ↦ rw (e, e) (find_id-review_same rows row id status reviewer reason (rw e at h))
  ]

  pub find_id-review_other :
      (rows : List (ChangeRow V)) (row : ChangeRow V) (i id : ℕ) (status reviewer : String)
      (reason : Option String)
      → (i == id) ≡ false
      → find_id i (review id status reviewer reason rows) ≡ find_id i rows
  unfolding find_id review
  find_id-review_other [] row i id status reviewer reason h = refl
  find_id-review_other (r ∷ rows) row i id status reviewer reason h =
      ground (arith, find_id-review_other rows row i id status reviewer reason h)

  pub find_id-delete_other :
      (rows : List (ChangeRow V)) (i id : ℕ)
      → (i == id) ≡ false
      → find_id i (delete_id id rows) ≡ find_id i rows
  unfolding find_id delete_id
  find_id-delete_other [] i id h = refl
  find_id-delete_other (r ∷ rows) i id h = ground (arith, find_id-delete_other rows i id h)

module _ {V : Type 0} (json : FlagJson V) where
  pub apply_patch_in_tx-change_requests :
      (db : Db V) (env_id key : String) (patch : V) (w : Written V)
      → apply_patch_in_tx json db env_id key patch ≡ ok w
      → w.db.change_requests ≡ db.change_requests
  unfolding apply_patch_in_tx
  apply_patch_in_tx-change_requests db env_id key patch w h =
      let Same = λ (x : Written V). x.db.change_requests ≡ db.change_requests in
      chain_lem Same (lock_environment db env_id) _
        (λ p x e₁ h₁.
          chain_lem Same (ok_or (find_row env_id key db.flags) not_found) _
            (λ row y e₂ h₂.
              chain_lem Same (merge_and_validate json db.flags env_id key patch) _
                (λ m z e₃ h₃. sym (ap (λ (x : Written V). x.db.change_requests) (ok_injective h₃)))
                y h₂)
            x h₁)
        w h

  module _ (world : AuthWorld) where
    -- What an approval has checked.
    pub record IsApproved (db : Db V) (jar : AuthContext) (env_id : String) (id : ℕ)
        (a : Approval V) : Type 0 where
      pub by_user : email_of (get_session_claims jar) ≡ some a.reviewer
      pub found : find_id id db.change_requests ≡ some a.request
      pub environment : a.request.environment_id ≡ env_id
      pub pending : a.request.status ≡ "pending"
      pub other : a.request.requested_by ≢ a.reviewer
      pub applied :
          apply_patch_in_tx json db env_id a.request.flag_key a.request.patch ≡ ok a.written

    in_environment_lem :
        (env_id : String) (found : Option (ChangeRow V)) (row : ChangeRow V)
        → in_environment env_id found ≡ some row
        → (found ≡ some row) × (row.environment_id ≡ env_id)
    in_environment_lem env_id none row h = none-absurd h
    in_environment_lem env_id (some r) row h = elim (Bool-cases (str_eq r.environment_id env_id)) [
      | inl e ↦
          let same = some_injective (rw e at h) in
          (
            ap some same,
            ap (λ (x : ChangeRow V). x.environment_id) (sym same)
                ∙ (eq_iff r.environment_id env_id).0 e,
          )
      | inr e ↦ none-absurd (rw e at h)
    ]

    pub approval-IsApproved :
        (db : Db V) (jar : AuthContext) (env_id : String) (id : ℕ) (a : Approval V)
        → approval json world db jar env_id id ≡ ok a
        → IsApproved db jar env_id id a
    unfolding approval lock_pending
    approval-IsApproved db jar env_id id a h =
        elim (Result-cases (check_env_access world jar env_id)) [
          | inl (s, c) ↦ err-absurd (rw (c, approval) at h)
          | inr (u, c) ↦
              let h₁ = rw (c, approval) at h in
              elim (Option-cases (email_of (get_session_claims jar))) [
                | inl m ↦ err-absurd (rw m at h₁)
                | inr (reviewer, m) ↦
                    elim (Option-cases (in_environment env_id (find_id id db.change_requests))) [
                      | inl f ↦ err-absurd (rw (m, f) at h₁)
                      | inr (row, f) ↦
                          let h₂ = rw (m, f) at h₁ in
                          elim (Bool-cases (str_eq row.status "pending")) [
                            | inr p ↦ err-absurd (rw p at h₂)
                            | inl p ↦ elim (Bool-cases (str_eq row.requested_by reviewer)) [
                              | inl o ↦ err-absurd (rw (p, o) at h₂)
                              | inr o ↦
                                  elim (Result-cases
                                    (apply_patch_in_tx json db env_id row.flag_key row.patch)) [
                                      | inl (s, w) ↦ err-absurd (rw (p, o, w) at h₂)
                                      | inr (written, w) ↦
                                          let (found, place) =
                                            in_environment_lem env_id
                                              (find_id id db.change_requests) row f in
                                          subst (IsApproved db jar env_id id)
                                            (ok_injective (rw (p, o, w) at h₂))
                                            (record {
                                              by_user = m;
                                              found = found;
                                              environment = place;
                                              pending = (eq_iff row.status "pending").0 p;
                                              other = λ q.
                                                  cc ((eq_iff row.requested_by reviewer).1 q, o);
                                              applied = w;
                                            })
                                    ]
                            ]
                          ]
                    ]
              ]
        ]

    -- When an approval is answered with a flag, the caller is a user other than the one who asked for the
    -- change, the request was pending in this environment, its patch has been applied to its flag, and the
    -- request is approved, by the caller.
    pub approve_change_request-IsApproved :
        (db : Db V) (jar : AuthContext) (env_id : String) (id : ℕ) (result : FlagWithMetadata V)
        → (approve_change_request json world db jar env_id id).response ≡ ok result
        → (a : Approval V) × IsApproved db jar env_id id a
          × (a.written.applied.result ≡ result)
          × ((approve_change_request json world db jar env_id id).db.flags ≡ a.written.db.flags)
          × (find_id id (approve_change_request json world db jar env_id id).db.change_requests
              ≡ some (reviewed "approved" a.reviewer a.request.reason a.request))
    unfolding approve_change_request
    approve_change_request-IsApproved db jar env_id id result h =
        elim (Result-cases (approval json world db jar env_id id)) [
          | inl (s, e) ↦ err-absurd (rw (e, approve_change_request) at h)
          | inr (a, e) ↦
              let is = approval-IsApproved db jar env_id id a e in
              let kept =
                apply_patch_in_tx-change_requests db env_id a.request.flag_key a.request.patch
                  a.written is.applied in
              (
                a,
                is,
                ok_injective (rw (e, approve_change_request) at h),
                rw (e, approve_change_request),
                rw (e, approve_change_request)
                    (find_id-review_same a.written.db.change_requests a.request id "approved"
                      a.reviewer a.request.reason (ap (find_id id) kept ∙ is.found)),
              )
        ]
