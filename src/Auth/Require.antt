-- ===== src/Auth/Require.antt =====
-- The authentication of a request: `resolve_session`, `resolve_pat` and `require_auth`. The update of
-- a token's `last_used_at` is best effort and not modelled: its result is dropped, and nothing
-- that the authentication reads depends on it.
pub mod Laws
use checkgate.Common.{
  ℕ, ◌<◌, String, Bool, true, false, not, ◌&&◌, Option, none, some, List, [], ◌∷◌, ltb, leb, str_eq,
  or_else, unwrap_or, if◌then◌else◌,
}
use checkgate.Text.Bytes.{as_bytes}
use checkgate.Text.Split.{split, strip_prefix, hex}
use checkgate.Types.{ℤ, pos, negsuc}
use checkgate.Status.{
  StatusCode, forbidden, unauthorized, service_unavailable, Result, ok, err, Fetch, failed, fetched,
  ◌>>=◌, or_status,
}
use checkgate.Auth.{
  SessionClaims, PatIdentity, SdkKeyEntry, AuthContext, Request, UserRow, SdkKeyRow, PatRow,
  AuthWorld,
}
use checkgate.Auth.Routes.{sdk_key_route_allowed}

-- `a <= b`, of `i64`
abbrev pub le_int : ℤ → ℤ → Bool
le_int (pos a) (pos b) = leb a b
le_int (pos a) (negsuc b) = false
le_int (negsuc a) (pos b) = true
le_int (negsuc a) (negsuc b) = leb b a

abbrev pub i64_max : ℤ
i64_max = pos 9223372036854775807

-- `query.split('&').find_map(|p| p.strip_prefix("sdk_key="))`
abbrev pub find_stripped : String → List String → Option String
find_stripped prefix [] = none
find_stripped prefix (p ∷ ps) = or_else (strip_prefix p prefix) (find_stripped prefix ps)

abbrev pub bearer_of : Option String → Option String
bearer_of none = none
bearer_of (some header) = strip_prefix header "Bearer "

unfoldable pub extract_bearer : Request → Option String
unfolding strip_prefix
extract_bearer req = bearer_of req.authorization

unfoldable pub extract_sdk_key : Request → Option String
unfolding strip_prefix split
extract_sdk_key req = elim (bearer_of req.authorization) [
  | some bearer ↦ some bearer
  | none ↦ find_stripped "sdk_key=" (split (unwrap_or req.query "") b'&')
]

-- the current email, name and role of a session's account
abbrev pub with_account : SessionClaims → UserRow → SessionClaims
with_account claims row = record claims { email = row.email; name = row.name; role = row.role }

abbrev pub found_account : SessionClaims → Option UserRow → Option SessionClaims
found_account claims none = none
found_account claims (some row) = some (with_account claims row)

abbrev pub key_entry : SdkKeyRow → SdkKeyEntry
key_entry row = record {
  id = row.id;
  name = row.name;
  value = row.value;
  environment_id = some row.environment_id;
}

abbrev pub env_entry : String → SdkKeyEntry
env_entry value = record {
  id = negsuc 0;
  name = "env:SDK_KEY";
  value = value;
  environment_id = none;
}

abbrev pub pat_identity : PatRow → PatIdentity
pat_identity row = record {
  claims = record {
    user_id = row.user_id;
    expires_at = i64_max;
    email = row.email;
    name = row.name;
    role = row.role;
  };
  scope = row.scope;
}

-- `expires_at IS NULL OR expires_at > NOW()`
abbrev pub is_unexpired : Option ℤ → ℤ → Bool
is_unexpired none now = true
is_unexpired (some t) now = not (le_int t now)

-- the row that the query returns, as an identity
abbrev pub found_pat : ℤ → Option PatRow → Option PatIdentity
found_pat now none = none
found_pat now (some row) = if is_unexpired row.expires_at now then some (pat_identity row) else none

-- The extensions after an identity has been inserted.
abbrev pub by_session : SessionClaims → AuthContext
by_session claims = record { session = some claims; pat = none; sdk_key = none }

abbrev pub by_pat : PatIdentity → AuthContext
by_pat pat = record { session = none; pat = some pat; sdk_key = none }

abbrev pub by_sdk_key : SdkKeyEntry → AuthContext
by_sdk_key entry = record { session = none; pat = none; sdk_key = some entry }

module _ (world : AuthWorld) where
  unfoldable pub hash_token : String → String
  unfolding hex as_bytes
  hash_token token = hex (world.sha256 (as_bytes token))

  unfoldable pub resolve_pat : String → Fetch PatIdentity
  resolve_pat token = elim (world.pat_by_hash (hash_token token)) [
    | failed ↦ failed
    | fetched row ↦ fetched (found_pat world.db_now row)
  ]

  unfoldable pub resolve_session : Request → Result (Option SessionClaims)
  resolve_session req = elim req.cookie [
    | none ↦ ok none
    | some claims ↦ if le_int claims.expires_at world.now then ok none else (do
      row ← or_status (world.user_by_id claims.user_id) service_unavailable
      ok (found_account claims row))
  ]

  -- the fallback on the variable `SDK_KEY`
  unfoldable pub env_key : String → Option SdkKeyEntry
  unfolding as_bytes
  env_key key = elim world.env_sdk_key [
    | none ↦ none
    | some expected ↦
        if not (str_eq expected "") && world.constant_time_eq (as_bytes key) (as_bytes expected)
        then some (env_entry expected)
        else none
  ]

  abbrev entry_of : String → Option SdkKeyRow → Option SdkKeyEntry
  entry_of key (some row) = some (key_entry row)
  entry_of key none = env_key key

  -- the last part: the bearer as a personal access token
  unfoldable pub require_pat : Request → Result AuthContext
  require_pat req = elim (extract_bearer req) [
    | none ↦ err unauthorized
    | some token ↦ do
      pat ← or_status (resolve_pat token) service_unavailable
      elim pat [ none ↦ err unauthorized | some identity ↦ ok (by_pat identity) ]
  ]

  -- an SDK key that was found, on its route
  unfoldable pub admit_sdk_key : Request → SdkKeyEntry → Result AuthContext
  admit_sdk_key req entry =
      if not (sdk_key_route_allowed req.method req.path entry.environment_id)
      then err forbidden
      else ok (by_sdk_key entry)

  -- an SDK key if there is one, else on to the token
  abbrev pub admit_or_pat : Request → Option SdkKeyEntry → Result AuthContext
  admit_or_pat req (some entry) = admit_sdk_key req entry
  admit_or_pat req none = require_pat req

  -- the middle part: an SDK key, else on to the token
  unfoldable pub require_key : Request → Result AuthContext
  require_key req = elim (extract_sdk_key req) [
    | none ↦ require_pat req
    | some key ↦ do
      row ← or_status (world.sdk_key_by_value key) service_unavailable
      admit_or_pat req (entry_of key row)
  ]

  unfoldable pub require_auth : Request → Result AuthContext
  require_auth req = do
    session ← resolve_session req
    elim session [ some claims ↦ ok (by_session claims) | none ↦ require_key req ]
