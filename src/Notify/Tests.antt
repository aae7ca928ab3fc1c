-- ===== src/Notify/Tests.antt =====
-- An integration of Slack's that hears of approvals, its table and its messages.
use checkgate.Common.{
  ℕ, zero, suc, ◌≡◌, refl, ap, String, true, false, none, some, Option, List, [], ◌∷◌, lookup, All,
  any,
}
use checkgate.Types.{pos}
use checkgate.Status.{fetched}
use checkgate.Auth.{AuthContext, AuthWorld}
use checkgate.Auth.Require.{by_session}
use checkgate.Server.{Db}
use checkgate.Server.Concrete.{
  Json, text, number, end, of_fields, fields_of, fields_of-of_fields, text_of, flag_at, json,
}
use checkgate.Flags.Write.{AppliedPatch, emit_patch}
use checkgate.Notify.{is_allowed_url, is_loopback, supported_events}
use checkgate.Notify.Urls.{is_allowed_url-http}
use checkgate.Notify.Format.{Message, IsJson, detail_fields, change_request_payload}
use checkgate.Notify.Format.Laws.{detail_fields-change_request_payload}
use checkgate.Notify.Deliver.{Reply, responded, unreachable, IntegrationRow, Network}
use checkgate.Notify.Laws.{
  create, patch, delete, Call, IsValid, run, run-IsValid, is_heard, emit_patch-unheard,
}

abbrev get_field : String → Option (List (String × Json)) → Option Json
get_field key none = none
get_field key (some fields) = lookup key fields

abbrev values : Message Json
values = record {
  get = λ v key. get_field key (fields_of v);
  as_str = text_of;
  as_bool = λ v. none;
  as_i64 = λ v. none;
  object = of_fields;
  array = λ vs. end;
  text = text;
  boolean = λ b. end;
  number = number;
  null = end;
  to_vec = λ v. some (1 ∷ []);
  display = λ i. "";
}

laws : IsJson values
laws = record {
  get_object = λ fields key. ap (get_field key) (fields_of-of_fields fields);
  get_null = λ key. refl;
  as_str_text = λ s. refl;
  as_str_null = refl;
}

detail_fields-change_request_payload_example :
    detail_fields values
      (change_request_payload values "change_request.rejected" "env-1" "a" 4
        (some "bob")
        (some "not now"))
      "Production"
    ≡ ("Environment", "Production") ∷ ("Flag", "a") ∷ ("By", "bob") ∷ ("Reason", "not now") ∷ []
detail_fields-change_request_payload_example =
    detail_fields-change_request_payload values laws "change_request.rejected" "env-1" "a"
      "Production" 4 (some "bob") (some "not now")

abbrev third : ℕ → Reply
third zero = unreachable "refused"
third (suc zero) = unreachable "timeout"
third (suc (suc n)) = responded 204 ""

abbrev integration : ℕ → List String → IntegrationRow
integration id events = record {
  id = id;
  environment_id = "env-1";
  kind = "slack";
  name = "ops";
  webhook_url = "https://hooks.example/T0";
  events = events;
  enabled = true;
}

abbrev payload : Json
payload = change_request_payload values "change_request.approved" "env-1" "a" 4 none none

abbrev network : Network values
network post attempt = third attempt

abbrev rows : List IntegrationRow
rows = integration 7 ("change_request.approved" ∷ []) ∷ integration 8 ("flag.created" ∷ []) ∷ []

is_allowed_url-http_example :
    is_allowed_url "http://127.0.0.1.evil.com/x" ≡ is_loopback "127.0.0.1.evil.com"
is_allowed_url-http_example = is_allowed_url-http "127.0.0.1.evil.com" "/" "x" refl refl

abbrev world : AuthWorld
world = record {
  user_by_id = λ i. fetched none;
  sdk_key_by_value = λ key. fetched none;
  pat_by_hash = λ hash. fetched none;
  project_role = λ env user. fetched (some "editor");
  now = pos 0;
  db_now = pos 0;
  env_sdk_key = none;
  sha256 = λ bytes. bytes;
  constant_time_eq = λ a b. false;
}

abbrev ada : AuthContext
ada =
    by_session
      (record { user_id = pos 1; expires_at = pos 9; email = "ada"; name = "ada"; role = "viewer" })

abbrev calls : List (AuthContext × String × Call)
calls =
    (
      ada,
      "env-1",
      create 9 (record {
        kind = "teams";
        name = "alerts";
        webhook_url = "http://localhost:9/x";
        events = [];
        enabled = true;
      }),
    )
    ∷ (
      ada,
      "env-1",
      patch 7 (record {
        name = none;
        webhook_url = none;
        events = some supported_events;
        enabled = none;
      }),
    )
    ∷ (ada, "env-1", delete 8)
    ∷ []

rows-IsValid : All IsValid rows
unfolding is_allowed_url
rows-IsValid = ((refl, refl, refl), ((refl, refl, refl), tt))

run-IsValid_example : All IsValid (run world calls rows)
run-IsValid_example = run-IsValid world calls rows rows-IsValid

abbrev db : Db Json
db = record {
  environments = [];
  flags = [];
  segments = [];
  change_requests = [];
  next_revision = 1;
  next_request = 1;
}

abbrev applied : AppliedPatch Json
applied = record {
  result = record { flag = flag_at none; tags = []; owner_email = none; archived_at = none };
  before = end;
  value = end;
  revision = 1;
}

heard-IsValid : IsValid (integration 7 supported_events)
unfolding is_allowed_url
heard-IsValid = (refl, refl, refl)

emit_patch-unheard_example :
    any
      (is_heard (integration 7 supported_events))
      (emit_patch json db "env-1" "a" applied none (some "job"))
    ≡ false
emit_patch-unheard_example =
    emit_patch-unheard json db "env-1" "a" applied none "job" (integration 7 supported_events)
      heard-IsValid refl
