-- ===== src/Auth/Roles.antt =====
-- The role checks behind the authentication: `require_admin`, `require_editor`, `check_env_role`, the
-- scope of tokens and the identity of a context.
pub mod Laws
use checkgate.Common.{
  ℕ, String, Bool, true, false, not, ◌&&◌, ◌||◌, Option, none, some, List, [], ◌∷◌, str_eq, is_some,
  or_else, if◌then◌else◌,
}
use checkgate.Text.Split.{split}
use checkgate.Status.{
  StatusCode, forbidden, unauthorized, internal_server_error, Result, ok, err, Fetch, ◌>>=◌, ◌>>◌,
  ok_or, or_status,
}
use checkgate.Auth.{SessionClaims, PatIdentity, SdkKeyEntry, AuthContext, Request, AuthWorld}

abbrev pub pat_claims : Option PatIdentity → Option SessionClaims
pat_claims none = none
pat_claims (some p) = some p.claims

unfoldable pub get_session_claims : AuthContext → Option SessionClaims
get_session_claims ctx = or_else ctx.session (pat_claims ctx.pat)

unfoldable pub request_claims : AuthContext → Result SessionClaims
request_claims ext = ok_or (or_else ext.session (pat_claims ext.pat)) unauthorized

abbrev pub scope_of : Option PatIdentity → Option String
scope_of none = none
scope_of (some p) = some p.scope

unfoldable pub pat_scope : AuthContext → Option String
pat_scope ctx = if is_some ctx.session then none else scope_of ctx.pat

-- a scope that may not write
abbrev pub is_read_only : Option String → Bool
is_read_only none = false
is_read_only (some scope) = not (str_eq scope "read_write")

unfoldable pub check_write_scope_ctx : AuthContext → Result (Unit {0})
unfolding pat_scope
check_write_scope_ctx ctx = if is_read_only (pat_scope ctx) then err forbidden else ok tt

unfoldable pub check_write_scope : AuthContext → Result (Unit {0})
check_write_scope ext = if is_read_only (scope_of ext.pat) then err forbidden else ok tt

unfoldable pub require_admin : AuthContext → Result (Unit {0})
unfolding request_claims check_write_scope
require_admin ext = if is_some ext.sdk_key then err forbidden else (do
  claims ← request_claims ext
  if not (str_eq claims.role "admin") then err forbidden else check_write_scope ext)

-- the `match` on the role in the project
abbrev pub member_may : Option String → Bool → Bool
member_may none write = false
member_may (some role) write =
    str_eq role "admin" || str_eq role "editor" || (str_eq role "viewer" && not write)

-- `parts.find(|p| *p == "environments").and_then(|_| parts.next())`
abbrev pub after_environments : List String → Option String
after_environments [] = none
after_environments (p ∷ []) = none
after_environments (p ∷ q ∷ ps) =
    let rest = after_environments (q ∷ ps) in if str_eq p "environments" then some q else rest

module _ (world : AuthWorld) where
  unfoldable pub check_env_role : SessionClaims → String → Bool → Result (Unit {0})
  check_env_role claims env_id write = if str_eq claims.role "admin" then ok tt else (do
    role ← or_status (world.project_role env_id claims.user_id) internal_server_error
    if member_may role write then ok tt else err forbidden)

  -- where the path names an environment, the role in its project; else the workspace role
  unfoldable pub check_editor : SessionClaims → Option String → Result (Unit {0})
  unfolding check_env_role
  check_editor claims (some env_id) = check_env_role claims env_id true
  check_editor claims none =
      if not (str_eq claims.role "admin" || str_eq claims.role "editor")
      then err forbidden
      else ok tt

  unfoldable pub require_editor : Request → AuthContext → Result (Unit {0})
  unfolding check_editor request_claims check_write_scope split
  require_editor req ext = if is_some ext.sdk_key then err forbidden else (do
    check_write_scope ext
    claims ← request_claims ext
    check_editor claims (after_environments (split req.path b'/')))
