-- ===== src/Changes/Tests.antt =====
-- A change request of Ada's, in an environment that requires approval, and Bob who reviews it.
use checkgate.Common.{String, ◌≡◌, ◌≢◌, refl, true, false, none, some, [], ◌∷◌}
use checkgate.Types.{pos}
use checkgate.Status.{forbidden, ok, err, fetched}
use checkgate.Auth.{AuthContext, AuthWorld}
use checkgate.Auth.Require.{by_session}
use checkgate.Auth.Roles.{get_session_claims}
use checkgate.Server.{ChangeRow, Db}
use checkgate.Server.Concrete.{Json, text, number, of_fields, flag_at, json}
use checkgate.Flags.Write.{FlagWithMetadata}
use checkgate.Changes.{find_id, Approval, approval, approve_change_request}
use checkgate.Changes.Laws.{reviewed, IsApproved, approve_change_request-IsApproved}
use checkgate.Changes.Final.{reject, after, after-final}

abbrev world : AuthWorld
world = record {
  user_by_id = λ i. fetched none;
  sdk_key_by_value = λ key. fetched none;
  pat_by_hash = λ hash. fetched none;
  project_role = λ env user. fetched (some "editor");
  now = pos 0;
  db_now = pos 0;
  env_sdk_key = none;
  sha256 = λ bytes. bytes;
  constant_time_eq = λ a b. false;
}

abbrev user : String → AuthContext
user email =
    by_session
      (record { user_id = pos 1; expires_at = pos 9; email = email; name = email; role = "viewer" })

abbrev request : String → ChangeRow Json
request status = record {
  id = 4;
  environment_id = "env-1";
  flag_key = "a";
  patch = of_fields (("rollout_percentage", number 70) ∷ []);
  requested_by = "ada";
  status = status;
  reviewed_by = none;
  reason = none;
}

abbrev tables : String → Db Json
tables status = record {
  environments = ("env-1", true) ∷ [];
  flags =
      record {
        environment_id = "env-1";
        key = "a";
        value = of_fields (("key", text "a") ∷ []);
        tags = [];
        owner_email = none;
        archived_at = none;
        revision = 1;
      }
      ∷ [];
  segments = [];
  change_requests = request status ∷ [];
  next_revision = 2;
  next_request = 5;
}

abbrev answer : FlagWithMetadata Json
answer = record { flag = flag_at (some 70); tags = []; owner_email = none; archived_at = none }

bob_approves :
    (approve_change_request json world (tables "pending") (user "bob") "env-1" 4).response
    ≡ ok answer
unfolding approve_change_request approval get_session_claims
bob_approves = refl

ada_may_not :
    (approve_change_request json world (tables "pending") (user "ada") "env-1" 4).response
    ≡ err forbidden
unfolding approve_change_request approval get_session_claims
ada_may_not = refl

approve_change_request-IsApproved_example :
    (a : Approval Json) × IsApproved json world (tables "pending") (user "bob") "env-1" 4 a
    × (a.written.applied.result ≡ answer)
    × ((approve_change_request json world (tables "pending") (user "bob") "env-1" 4).db.flags
        ≡ a.written.db.flags)
    × (find_id 4
          (approve_change_request json world
            (tables "pending")
            (user "bob")
            "env-1"
            4).db.change_requests
        ≡ some (reviewed "approved" a.reviewer a.request.reason a.request))
approve_change_request-IsApproved_example =
    approve_change_request-IsApproved json world (tables "pending") (user "bob") "env-1" 4 answer
      bob_approves

is_found : find_id 4 (tables "approved").change_requests ≡ some (request "approved")
unfolding find_id
is_found = refl

approved_is_decided : (request "approved").status ≢ "pending"
approved_is_decided e = cc e

after-final_example :
    find_id 4
      (after json world (tables "approved") (user "bob") (reject "env-1" 4 none)).change_requests
    ≡ some (request "approved")
after-final_example =
    after-final json world (tables "approved") (user "bob") (reject "env-1" 4 none) 4
      (request "approved") is_found approved_is_decided
