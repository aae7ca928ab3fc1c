-- ===== src/Flags/Handlers.antt =====
-- Other handlers that write flags: `create_flag`, `delete_flag` and `promote_flag`.
pub mod Checks
pub mod Rows
pub mod Laws
use checkgate.Common.{
  ℕ, suc, String, Bool, true, false, not, ◌&&◌, Option, none, some, List, [], ◌∷◌, ◌++◌, is_some,
  lookup, str_eq, unwrap_or, if◌then◌else◌,
}
use checkgate.Types.{Flag}
use checkgate.Status.{
  StatusCode, conflict, not_found, unprocessable_entity, internal_server_error, Result, ok, err,
  ok_or, ◌>>=◌, ◌>>◌,
}
use checkgate.Segments.{expand_flag_with_segments}
use checkgate.Auth.{AuthContext, AuthWorld}
use checkgate.Auth.Roles.{get_session_claims}
use checkgate.Auth.Access.{check_env_access, check_env_write_access}
use checkgate.Server.{
  FlagJson, FlagRow, Db, Effect, audited, stored, published, published_delete, notified, Outcome,
  refused, is_row, find_row, lock_environment,
}
use checkgate.Flags.{is_valid_flag_key}
use checkgate.Flags.Patch.{is_over}
use checkgate.Flags.Write.{FlagWithMetadata, email_of, update_row}

module _ {V : Type 0} where
  -- `DELETE FROM flags WHERE key = $1 AND environment_id = $2`, of the primary key
  unfoldable pub delete_row : String → String → List (FlagRow V) → List (FlagRow V)
  delete_row env_id key [] = []
  delete_row env_id key (row ∷ rows) =
      let rest = delete_row env_id key rows in if is_row env_id key row then rows else row ∷ rest

  -- `INSERT … ON CONFLICT (key, environment_id) DO UPDATE SET …`: the row that is there, changed, or
  -- else the new one
  unfoldable pub upsert_row : FlagRow V → (FlagRow V → FlagRow V) → Db V → Db V
  unfolding find_row update_row
  upsert_row new change db = elim (find_row new.environment_id new.key db.flags) [
    | none ↦ record db { flags = db.flags ++ new ∷ []; next_revision = suc db.next_revision }
    | some row ↦ record db {
      flags = update_row (record (change row) { revision = db.next_revision }) db.flags;
      next_revision = suc db.next_revision;
    }
  ]

  -- the flag with its segments, as it is stored and published
  abbrev pub expanded : Db V → String → Flag V → Flag V
  expanded db env_id flag =
      expand_flag_with_segments flag (unwrap_or (lookup env_id db.segments) [])

pub record CreateFlagRequest (V : Type 0) : Type 0 where
  pub flag : Flag V
  pub tags : List String
  pub owner_email : Option String

module _ {V : Type 0} (json : FlagJson V) (world : AuthWorld) where
  -- the checks of `create_flag`, up to the conflict; the payload as JSON
  unfoldable pub may_create : Db V → AuthContext → String → CreateFlagRequest V → Result V
  unfolding check_env_access is_valid_flag_key find_row
  may_create db jar env_id req = do
    check_env_access world jar env_id
    if not (is_valid_flag_key req.flag.key)
        then err unprocessable_entity
        else if is_over req.flag.rollout_percentage
        then err unprocessable_entity
        else (do
          value ← ok_or (json.to_json req.flag) internal_server_error
          protected ← lock_environment db env_id
          if protected && is_some (find_row env_id req.flag.key db.flags)
              then err conflict
              else ok value)

  unfoldable pub create_flag :
      Db V → AuthContext → String → CreateFlagRequest V → Outcome V (FlagWithMetadata V)
  unfolding may_create upsert_row get_session_claims expand_flag_with_segments
  create_flag db jar env_id req = elim (may_create db jar env_id req) [
    | err status ↦ refused db status
    | ok value ↦
        let new : FlagRow V = record {
          environment_id = env_id;
          key = req.flag.key;
          value = value;
          tags = req.tags;
          owner_email = req.owner_email;
          archived_at = none;
          revision = db.next_revision;
        } in
        let actor_email = email_of (get_session_claims jar) in
        record {
          response = ok (record {
            flag = req.flag;
            tags = req.tags;
            owner_email = req.owner_email;
            archived_at = none;
          });
          db =
              upsert_row new
                (λ row. record row {
                  value = value;
                  tags = req.tags;
                  owner_email = req.owner_email;
                })
                db;
          effects =
              audited env_id req.flag.key actor_email "CREATE" none (some value) none
              ∷ stored (expanded db env_id req.flag)
              ∷ published env_id (expanded db env_id req.flag) db.next_revision
              ∷ notified "flag.created" env_id req.flag.key (some value) actor_email none
              ∷ [];
        }
  ]

  -- the row that `delete_flag` may delete
  unfoldable pub may_delete : Db V → AuthContext → String → String → Result (FlagRow V)
  unfolding check_env_access find_row
  may_delete db jar env_id key = do
    check_env_access world jar env_id
    protected ← lock_environment db env_id
    if protected then err conflict else ok_or (find_row env_id key db.flags) not_found

  unfoldable pub delete_flag : Db V → AuthContext → String → String → Outcome V (Unit {0})
  unfolding may_delete delete_row get_session_claims
  delete_flag db jar env_id key = elim (may_delete db jar env_id key) [
    | err status ↦ refused db status
    | ok row ↦
        let actor_email = email_of (get_session_claims jar) in
        record {
          response = ok tt;
          db = record db { flags = delete_row env_id key db.flags };
          effects =
              audited env_id key actor_email "DELETE" (some row.value) none none
              ∷ published_delete env_id key row.revision
              ∷ notified "flag.deleted" env_id key (some row.value) actor_email none
              ∷ [];
        }
  ]

  abbrev pub target_of : Option (List (String × V)) → Option V
  target_of none = none
  target_of (some fields) = lookup "target_env_id" fields

  abbrev pub text_of : Option V → Option String
  text_of none = none
  text_of (some v) = json.as_str v

  -- what `promote_flag` reads: the target, the value and the flag
  pub record Promotion : Type 0 where
    pub target : String
    pub value : V
    pub flag : Flag V

  unfoldable pub may_promote : Db V → AuthContext → String → String → V → Result Promotion
  unfolding check_env_access check_env_write_access find_row
  may_promote db jar env_id key body = do
    check_env_access world jar env_id
    target ← ok_or (text_of (target_of (json.as_object body))) unprocessable_entity
    check_env_write_access world jar target
    protected ← lock_environment db target
    if protected then err conflict else (do
      row ← ok_or (find_row env_id key db.flags) not_found
      flag ← ok_or (json.of_json row.value) internal_server_error
      ok (record { target = target; value = row.value; flag = flag }))

  unfoldable pub promote_flag : Db V → AuthContext → String → String → V → Outcome V (Flag V)
  unfolding may_promote upsert_row get_session_claims expand_flag_with_segments
  promote_flag db jar env_id key body = elim (may_promote db jar env_id key body) [
    | err status ↦ refused db status
    | ok p ↦
        let new : FlagRow V = record {
          environment_id = p.target;
          key = key;
          value = p.value;
          tags = [];
          owner_email = none;
          archived_at = none;
          revision = db.next_revision;
        } in
        let actor_email = email_of (get_session_claims jar) in
        let metadata =
          json.of_object
            (("from_env_id", json.of_str env_id) ∷ ("to_env_id", json.of_str p.target) ∷ []) in
        record {
          response = ok p.flag;
          db = upsert_row new (λ row. record row { value = p.value }) db;
          effects =
              audited p.target key actor_email "PROMOTE" none (some p.value) (some metadata)
              ∷ stored (expanded db p.target p.flag)
              ∷ published p.target (expanded db p.target p.flag) db.next_revision
              ∷ notified "flag.promoted" p.target key (some p.value) actor_email (some metadata)
              ∷ [];
        }
  ]
