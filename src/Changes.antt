-- ===== src/Changes.antt =====
-- The handlers of server/src/api/change_requests.rs. `id` is the primary key of the table: a query by id
-- reads or writes the one row with it.
pub mod Laws
pub mod Final
pub mod Protected
mod Tests
use checkgate.Common.{
  ℕ, String, Bool, true, false, not, ◌&&◌, Option, none, some, List, [], ◌∷◌, ◌++◌, str_eq, ◌==◌,
  unwrap_or, if◌then◌else◌,
}
use checkgate.Status.{
  StatusCode, forbidden, unauthorized, not_found, conflict, Result, ok, err, ok_or, ◌>>=◌, ◌>>◌,
}
use checkgate.Auth.{SessionClaims, AuthContext, AuthWorld}
use checkgate.Auth.Roles.{get_session_claims}
use checkgate.Auth.Access.{check_env_access}
use checkgate.Server.{FlagJson, ChangeRow, Db, Effect, notified_request, Outcome, refused}
use checkgate.Flags.Write.{
  FlagWithMetadata, AppliedPatch, Written, email_of, apply_patch_in_tx, emit_patch,
}

module _ {V : Type 0} where
  unfoldable pub find_id : ℕ → List (ChangeRow V) → Option (ChangeRow V)
  find_id id [] = none
  find_id id (row ∷ rows) = let rest = find_id id rows in if row.id == id then some row else rest

  -- `WHERE id = $1 AND environment_id = $2`
  abbrev pub in_environment : String → Option (ChangeRow V) → Option (ChangeRow V)
  in_environment env_id none = none
  in_environment env_id (some row) = if str_eq row.environment_id env_id then some row else none

  -- `… AND status = 'pending'`
  abbrev pub if_pending : Option (ChangeRow V) → Option (ChangeRow V)
  if_pending none = none
  if_pending (some row) = if str_eq row.status "pending" then some row else none

  -- `… AND requested_by = $3`
  abbrev pub if_requested_by : String → Option (ChangeRow V) → Option (ChangeRow V)
  if_requested_by email none = none
  if_requested_by email (some row) = if str_eq row.requested_by email then some row else none

  -- `UPDATE change_requests SET status = …, reviewed_by = …, reason = … WHERE id = …`
  unfoldable pub review :
      ℕ → String → String → Option String → List (ChangeRow V) → List (ChangeRow V)
  review id status reviewer reason [] = []
  review id status reviewer reason (row ∷ rows) =
      let rest = review id status reviewer reason rows in
      if row.id == id
      then record row { status = status; reviewed_by = some reviewer; reason = reason } ∷ rows
      else row ∷ rest

  -- `DELETE FROM change_requests WHERE id = …`
  unfoldable pub delete_id : ℕ → List (ChangeRow V) → List (ChangeRow V)
  delete_id id [] = []
  delete_id id (row ∷ rows) =
      let rest = delete_id id rows in if row.id == id then rows else row ∷ rest

  unfoldable pub lock_pending : Db V → String → ℕ → Result (ChangeRow V)
  unfolding find_id
  lock_pending db env_id id =
      ok_or (in_environment env_id (find_id id db.change_requests)) not_found

  -- the row that the caller may delete
  abbrev pub cancellable : SessionClaims → Option (ChangeRow V) → Option (ChangeRow V)
  cancellable claims found =
      if str_eq claims.role "admin"
      then if_pending found
      else if_requested_by claims.email (if_pending found)

-- What an approval has found and written in its transaction.
pub record Approval (V : Type 0) : Type 0 where
  pub reviewer : String
  pub request : ChangeRow V
  pub written : Written V

module _ {V : Type 0} (json : FlagJson V) (world : AuthWorld) where
  -- The transaction of an approval, up to the update of the request.
  unfoldable pub approval : Db V → AuthContext → String → ℕ → Result (Approval V)
  unfolding check_env_access get_session_claims lock_pending apply_patch_in_tx
  approval db jar env_id id = do
    check_env_access world jar env_id
    reviewer ← ok_or (email_of (get_session_claims jar)) unauthorized
    row ← lock_pending db env_id id
    if not (str_eq row.status "pending")
        then err conflict
        else if str_eq row.requested_by reviewer
        then err forbidden
        else (do
          written ← apply_patch_in_tx json db env_id row.flag_key row.patch
          ok (record { reviewer = reviewer; request = row; written = written }))

  unfoldable pub approve_change_request :
      Db V → AuthContext → String → ℕ → Outcome V (FlagWithMetadata V)
  unfolding approval review emit_patch
  approve_change_request db jar env_id id = elim (approval db jar env_id id) [
    | err status ↦ refused db status
    | ok a ↦
        let after = a.written.db in
        record {
          response = ok a.written.applied.result;
          db = record after {
            change_requests =
                review id "approved" a.reviewer a.request.reason after.change_requests;
          };
          effects =
              emit_patch json after env_id a.request.flag_key a.written.applied (some a.reviewer)
                none
              ++ notified_request "change_request.approved" env_id a.request.flag_key id
                  (some a.reviewer) none
                ∷ [];
        }
  ]

  -- who rejects, and the request
  unfoldable pub rejection : Db V → AuthContext → String → ℕ → Result (String × ChangeRow V)
  unfolding check_env_access get_session_claims find_id
  rejection db jar env_id id = do
    check_env_access world jar env_id
    reviewer ← ok_or (email_of (get_session_claims jar)) unauthorized
    row ← ok_or (if_pending (in_environment env_id (find_id id db.change_requests))) not_found
    ok (reviewer, row)

  unfoldable pub reject_change_request :
      Db V → AuthContext → String → ℕ → Option String → Outcome V (Unit {0})
  unfolding rejection review
  reject_change_request db jar env_id id reason = elim (rejection db jar env_id id) [
    | err status ↦ refused db status
    | ok r ↦ record {
      response = ok tt;
      db = record db { change_requests = review id "rejected" r.0 reason db.change_requests };
      effects =
          notified_request "change_request.rejected" env_id r.1.flag_key id (some r.0) reason ∷ [];
    }
  ]

  unfoldable pub cancellation : Db V → AuthContext → String → ℕ → Result (ChangeRow V)
  unfolding check_env_access get_session_claims find_id
  cancellation db jar env_id id = do
    check_env_access world jar env_id
    claims ← ok_or (get_session_claims jar) forbidden
    ok_or (cancellable claims (in_environment env_id (find_id id db.change_requests))) not_found

  unfoldable pub cancel_change_request : Db V → AuthContext → String → ℕ → Outcome V (Unit {0})
  unfolding cancellation delete_id
  cancel_change_request db jar env_id id = elim (cancellation db jar env_id id) [
    | err status ↦ refused db status
    | ok row ↦ record {
      response = ok tt;
      db = record db { change_requests = delete_id id db.change_requests };
      effects = [];
    }
  ]
