-- ===== src/Auth/Tests.antt =====
-- Requests to a concrete server: two users, a key bound to `env-1`, a token that only reads.
use checkgate.Common.{
  ℕ, String, ◌≡◌, ◌↔◌, refl, true, false, none, some, str_eq, ◌==◌, if◌then◌else◌,
}
use checkgate.Types.{ℤ, pos, negsuc}
use checkgate.Status.{forbidden, unauthorized, ok, err, Fetch, fetched}
use checkgate.Auth.{
  SessionClaims, AuthContext, Method, get, put, Request, UserRow, SdkKeyRow, PatRow, AuthWorld,
}
use checkgate.Auth.Routes.{path_segments, route_allowed, sdk_key_route_allowed}
use checkgate.Auth.Routes.Laws.{SdkRoute, sdk_key_route_allowed_iff}
use checkgate.Auth.Require.{
  resolve_session, require_key, admit_sdk_key, extract_sdk_key, require_auth, by_sdk_key,
  by_session, by_pat, pat_identity, key_entry, require_pat, extract_bearer, resolve_pat, hash_token,
  env_key,
}
use checkgate.Auth.Require.Laws.{Authentic, require_auth-Authentic}
use checkgate.Auth.Roles.{
  request_claims, check_write_scope, check_editor, require_admin, require_editor, check_env_role,
}
use checkgate.Auth.Access.Laws.{ReachesAdmin, require_admin-ReachesAdmin}

abbrev ada : UserRow
ada = record { email = "ada@x"; name = "Ada"; role = "admin" }

abbrev bob : UserRow
bob = record { email = "bob@x"; name = "Bob"; role = "viewer" }

abbrev users : ℤ → Fetch UserRow
users (pos i) = fetched (if i == 1 then some ada else if i == 2 then some bob else none)
users (negsuc i) = fetched none

abbrev mobile : SdkKeyRow
mobile = record { id = pos 7; name = "mobile"; value = "sdk-1"; environment_id = "env-1" }

-- A token of Ada's that expires at 1500.
abbrev token_row : PatRow
token_row = record {
  id = pos 3;
  expires_at = some (pos 1500);
  scope = "read_write";
  user_id = pos 1;
  email = "ada@x";
  name = "Ada";
  role = "admin";
}

abbrev world : AuthWorld
world = record {
  user_by_id = users;
  sdk_key_by_value = λ key. fetched (if str_eq key "sdk-1" then some mobile else none);
  pat_by_hash = λ hash. fetched (if str_eq hash "70" then some token_row else none);
  project_role = λ env user. fetched (if str_eq env "env-1" then some "editor" else none);
  now = pos 1000;
  db_now = pos 1000;
  env_sdk_key = none;
  sha256 = λ bytes. bytes;
  constant_time_eq = λ a b. false;
}

abbrev claims_of : ℕ → SessionClaims
claims_of i = record {
  user_id = pos i;
  expires_at = pos 2000;
  email = "";
  name = "";
  role = "editor";
}

abbrev key_request : Method → String → Request
key_request m p = record {
  method = m;
  path = p;
  query = none;
  authorization = some "Bearer sdk-1";
  cookie = none;
}

abbrev session_request : ℕ → String → Request
session_request i p = record {
  method = put;
  path = p;
  query = none;
  authorization = none;
  cookie = some (claims_of i);
}

abbrev token_request : Request
token_request = record {
  method = put;
  path = "/api/users";
  query = none;
  authorization = some "Bearer p";
  cookie = none;
}

abbrev token_ctx : AuthContext
token_ctx = by_pat (pat_identity token_row)

abbrev key_ctx : AuthContext
key_ctx = by_sdk_key (key_entry mobile)

abbrev user_ctx : UserRow → ℕ → AuthContext
user_ctx row i =
    by_session (record (claims_of i) { email = row.email; name = row.name; role = row.role })

key_may_read : require_auth world (key_request get "/api/environments/env-1/flags") ≡ ok key_ctx
unfolding require_auth resolve_session require_key extract_sdk_key admit_sdk_key
    sdk_key_route_allowed route_allowed path_segments
key_may_read = refl

key_may_not_write :
    require_auth world (key_request put "/api/environments/env-1/flags/a") ≡ err forbidden
unfolding require_auth resolve_session require_key extract_sdk_key admit_sdk_key
    sdk_key_route_allowed route_allowed path_segments
key_may_not_write = refl

session_role : require_auth world (session_request 1 "/api/users") ≡ ok (user_ctx ada 1)
unfolding require_auth resolve_session
session_role = refl

token_admitted : require_auth world token_request ≡ ok token_ctx
unfolding require_auth resolve_session require_key extract_sdk_key require_pat extract_bearer
    resolve_pat hash_token env_key
token_admitted = refl

late_token : require_auth (record world { db_now = pos 1500 }) token_request ≡ err unauthorized
unfolding require_auth resolve_session require_key extract_sdk_key require_pat extract_bearer
    resolve_pat hash_token env_key
late_token = refl

sdk_key_route_allowed_iff_example :
    (sdk_key_route_allowed get "/api/environments/env-1/flags" (some "env-1") ≡ true)
    ↔ SdkRoute (some "env-1") get (path_segments "/api/environments/env-1/flags")
sdk_key_route_allowed_iff_example =
    sdk_key_route_allowed_iff get "/api/environments/env-1/flags" (some "env-1")

require_auth-Authentic_example :
    Authentic world (key_request get "/api/environments/env-1/flags") key_ctx
require_auth-Authentic_example =
    require_auth-Authentic world (key_request get "/api/environments/env-1/flags") key_ctx
      key_may_read

session_is_admin : require_admin (user_ctx ada 1) ≡ ok tt
unfolding require_admin request_claims check_write_scope
session_is_admin = refl

key_is_not_admin : require_admin key_ctx ≡ err forbidden
unfolding require_admin
key_is_not_admin = refl

token_is_admin : require_admin token_ctx ≡ ok tt
unfolding require_admin request_claims check_write_scope
token_is_admin = refl

require_admin-ReachesAdmin_example : ReachesAdmin world token_request
require_admin-ReachesAdmin_example =
    require_admin-ReachesAdmin world token_request token_ctx token_admitted token_is_admin

abbrev edit_path : String
edit_path = "/api/environments/env-1/flags/a"

editor_in_project : require_editor world (session_request 2 edit_path) (user_ctx bob 2) ≡ ok tt
unfolding require_editor check_editor check_env_role request_claims check_write_scope
editor_in_project = refl
