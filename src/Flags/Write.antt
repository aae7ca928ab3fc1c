-- ===== src/Flags/Write.antt =====
-- `apply_patch_in_tx`, `emit_patch` and `patch_flag`: the patch of a flag, applied at once or queued for
-- approval.
use checkgate.Common.{
  ℕ, suc, String, Option, none, some, List, [], ◌∷◌, ◌++◌, is_some, lookup, unwrap_or,
  if◌then◌else◌,
}
use checkgate.Types.{Flag}
use checkgate.Status.{not_found, unauthorized, Result, ok, err, ok_or, ◌>>=◌, ◌>>◌}
use checkgate.Segments.{expand_flag_with_segments}
use checkgate.Auth.{SessionClaims, AuthContext, AuthWorld}
use checkgate.Auth.Roles.{get_session_claims}
use checkgate.Auth.Access.{check_env_access}
use checkgate.Server.{
  FlagJson, FlagRow, Db, Effect, audited, stored, published, notified, notified_request, Outcome,
  refused, is_row, find_row, lock_environment,
}
use checkgate.Flags.Patch.{merge_and_validate}

pub record FlagWithMetadata (V : Type 0) : Type 0 where
  pub flag : Flag V
  pub tags : List String
  pub owner_email : Option String
  pub archived_at : Option ℕ

pub record AppliedPatch (V : Type 0) : Type 0 where
  pub result : FlagWithMetadata V
  pub before : V
  pub value : V
  pub revision : ℕ

-- A patch with the tables that it leaves in the transaction.
pub record Written (V : Type 0) : Type 0 where
  pub applied : AppliedPatch V
  pub db : Db V

abbrev pub email_of : Option SessionClaims → Option String
email_of none = none
email_of (some claims) = some claims.email

module _ {V : Type 0} where
  -- `UPDATE flags SET … WHERE key = $4 AND environment_id = $5`, of the primary key
  unfoldable pub update_row : FlagRow V → List (FlagRow V) → List (FlagRow V)
  update_row new [] = []
  update_row new (row ∷ rows) =
      let rest = update_row new rows in
      if is_row new.environment_id new.key row then new ∷ rows else row ∷ rest

module _ {V : Type 0} (json : FlagJson V) where
  unfoldable pub apply_patch_in_tx : Db V → String → String → V → Result (Written V)
  unfolding find_row merge_and_validate update_row
  apply_patch_in_tx db env_id key patch = do
    protected ← lock_environment db env_id
    rec ← ok_or (find_row env_id key db.flags) not_found
    merged ← merge_and_validate json db.flags env_id key patch
    let tags = unwrap_or merged.new_tags rec.tags
    let owner_email = unwrap_or merged.new_owner_email rec.owner_email
    ok (record {
      applied = record {
        result = record {
          flag = merged.flag;
          tags = tags;
          owner_email = owner_email;
          archived_at = rec.archived_at;
        };
        before = merged.before;
        value = merged.value;
        revision = db.next_revision;
      };
      db = record db {
        flags =
            update_row
              (record rec {
                value = merged.value;
                tags = tags;
                owner_email = owner_email;
                revision = db.next_revision;
              })
              db.flags;
        next_revision = suc db.next_revision;
      };
    })

  abbrev pub patch_metadata : Option String → Option V
  patch_metadata none = none
  patch_metadata (some id) = some (json.of_object (("scheduled_change_id", json.of_str id) ∷ []))

  unfoldable pub emit_patch :
      Db V → String → String → AppliedPatch V → Option String → Option String → List (Effect V)
  unfolding expand_flag_with_segments
  emit_patch db env_id key applied actor_email scheduled_change_id =
      let metadata = patch_metadata scheduled_change_id in
      let segment_map = unwrap_or (lookup env_id db.segments) [] in
      let expanded = expand_flag_with_segments applied.result.flag segment_map in
      audited env_id key actor_email "UPDATE" (some applied.before) (some applied.value) metadata
      ∷ stored expanded
      ∷ published env_id expanded applied.revision
      ∷ notified
          (if is_some scheduled_change_id then "flag.scheduled_change_applied" else "flag.updated")
          env_id key (some applied.value) actor_email metadata
      ∷ []

  -- The row that `create_change_request` inserts, at the end.
  unfoldable pub create_change_request : Db V → String → String → V → String → Db V
  create_change_request db env_id flag_key patch requested_by = record db {
    change_requests =
        db.change_requests
        ++ record {
          id = db.next_request;
          environment_id = env_id;
          flag_key = flag_key;
          patch = patch;
          requested_by = requested_by;
          status = "pending";
          reviewed_by = none;
          reason = none;
        }
          ∷ [];
    next_request = suc db.next_request;
  }

  -- The two answers of `patch_flag`: the flag, or the request's id with the status "accepted".
  pub data Patched : Type 0 where
    updated : FlagWithMetadata V → Patched
    queued : ℕ → Patched

  module _ (world : AuthWorld) where
    -- without approval: apply and emit
    unfoldable pub patch_now : Db V → AuthContext → String → String → V → Outcome V Patched
    unfolding apply_patch_in_tx emit_patch get_session_claims
    patch_now db jar env_id key patch = elim (apply_patch_in_tx db env_id key patch) [
      | err status ↦ refused db status
      | ok written ↦ record {
        response = ok (updated written.applied.result);
        db = written.db;
        effects =
            emit_patch written.db env_id key written.applied (email_of (get_session_claims jar))
              none;
      }
    ]

    -- the checks before a request is queued: who asks
    unfoldable pub may_queue : Db V → AuthContext → String → String → V → Result String
    unfolding merge_and_validate get_session_claims
    may_queue db jar env_id key patch = do
      requested_by ← ok_or (email_of (get_session_claims jar)) unauthorized
      merged ← merge_and_validate json db.flags env_id key patch
      ok requested_by

    -- with approval: queue
    unfoldable pub patch_later : Db V → AuthContext → String → String → V → Outcome V Patched
    unfolding may_queue create_change_request
    patch_later db jar env_id key patch = elim (may_queue db jar env_id key patch) [
      | err status ↦ refused db status
      | ok requested_by ↦ record {
        response = ok (queued db.next_request);
        db = create_change_request db env_id key patch requested_by;
        effects =
            notified_request "change_request.opened" env_id key db.next_request (some requested_by)
              none
            ∷ [];
      }
    ]

    unfoldable pub patch_flag : Db V → AuthContext → String → String → V → Outcome V Patched
    unfolding check_env_access patch_now patch_later
    patch_flag db jar env_id key patch =
        elim (check_env_access world jar env_id >> lock_environment db env_id) [
          | err status ↦ refused db status
          | ok require_approval ↦
              if require_approval
              then patch_later db jar env_id key patch
              else patch_now db jar env_id key patch
        ]
