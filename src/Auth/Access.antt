-- ===== src/Auth/Access.antt =====
-- server/src/api/flags.rs: the access to an environment, by the identity of the request.
pub mod Laws
use checkgate.Common.{
  String, Bool, true, false, not, Option, none, some, str_eq, is_some, if◌then◌else◌, ◌≡◌, refl,
}
use checkgate.Status.{forbidden, Result, ok, err, ◌>>◌, ◌>>=◌}
use checkgate.Auth.{SdkKeyEntry, AuthContext, AuthWorld}
use checkgate.Auth.Roles.{get_session_claims, check_write_scope_ctx, check_env_role}

-- `and_then(|k| k.environment_id)`
abbrev pub bound_environment : Option SdkKeyEntry → Option String
bound_environment none = none
bound_environment (some key) = key.environment_id

abbrev pub check_bound : Option String → String → Result (Unit {0})
check_bound none env_id = ok tt
check_bound (some bound) env_id = if not (str_eq bound env_id) then err forbidden else ok tt

unfoldable pub check_sdk_key_env : AuthContext → String → Result (Unit {0})
check_sdk_key_env jar env_id = check_bound (bound_environment jar.sdk_key) env_id

module _ (world : AuthWorld) where
  unfoldable pub check_env_access : AuthContext → String → Result (Unit {0})
  unfolding check_sdk_key_env get_session_claims check_env_role
  check_env_access jar env_id = elim (get_session_claims jar) [
    | some claims ↦ check_env_role world claims env_id false >> ok tt
    | none ↦ check_sdk_key_env jar env_id >> ok tt
  ]

  unfoldable pub check_env_write_access : AuthContext → String → Result (Unit {0})
  unfolding get_session_claims check_env_role
  check_env_write_access jar env_id = elim (get_session_claims jar) [
    | some claims ↦ check_env_role world claims env_id true >> ok tt
    | none ↦ ok tt
  ]

  unfoldable pub check_ingest_access : AuthContext → String → Result (Unit {0})
  unfolding get_session_claims check_write_scope_ctx check_sdk_key_env check_env_write_access
  check_ingest_access jar env_id =
      if is_some (get_session_claims jar)
      then check_write_scope_ctx jar >> check_env_write_access jar env_id
      else check_sdk_key_env jar env_id
