-- ===== src/Notify/Api.antt =====
-- The handlers of server/src/api/integrations.rs; Webhooks has those of server/src/api/webhooks.rs.
-- A table is its rows in the order of their creation. The ids are numbers.
pub mod Webhooks
use checkgate.Common.{
  select, ℕ, String, Bool, true, not, ◌&&◌, Option, none, some, List, [], ◌∷◌, ◌++◌, map, is_some,
  ◌==◌, any, str_eq, unwrap_or, if◌then◌else◌,
}
use checkgate.Status.{
  not_found, unprocessable_entity, StatusCode, Result, ok, err, ok_or, ◌>>=◌, ◌>>◌,
}
use checkgate.Auth.{AuthContext, AuthWorld}
use checkgate.Auth.Access.{check_env_access}
use checkgate.Notify.{is_good_url, are_supported, validate, preview_url, is_allowed_url}
use checkgate.Notify.Format.{Message, take, flag_event_payload}
use checkgate.Notify.Deliver.{IntegrationRow, WebhookRow, Delivery, Network, deliver_to_env}

pub record Integration : Type 0 where
  pub id : ℕ
  pub environment_id : String
  pub kind : String
  pub name : String
  pub webhook_url_preview : String
  pub events : List String
  pub enabled : Bool

-- The `CreateBody` of an integration, with the defaults filled in, and its `PatchBody`.
pub record NewIntegration : Type 0 where
  pub kind : String
  pub name : String
  pub webhook_url : String
  pub events : List String
  pub enabled : Bool

pub record IntegrationPatch : Type 0 where
  pub name : Option String
  pub webhook_url : Option String
  pub events : Option (List String)
  pub enabled : Option Bool

-- What a handler answers, and the table that it leaves.
pub record Answer (R A : Type 0) : Type 0 where
  pub response : Result A
  pub rows : List R

abbrev pub no_change : {R A : Type 0} → List R → StatusCode → Answer R A
no_change rows status = record { response = err status; rows = rows }

-- the first row of a condition
abbrev pub find : {R : Type 0} → (R → Bool) → List R → Option R
find condition [] = none
find condition (row ∷ rows) =
    let rest = find condition rows in if condition row then some row else rest

-- `ORDER BY delivered_at DESC LIMIT …`, of the rows of one hook
abbrev pub latest : {V : Type 0} → ℕ → ℕ → List (Delivery V) → List (Delivery V)
latest limit id log = take limit (select (λ row. row.hook_id == id) log)

-- `UPDATE … SET … WHERE …` and `DELETE … WHERE …`
abbrev pub update_where : {R : Type 0} → (R → Bool) → (R → R) → List R → List R
update_where condition change rows = map (λ row. if condition row then change row else row) rows

abbrev pub delete_where : {R : Type 0} → (R → Bool) → List R → List R
delete_where condition rows = select (λ row. not (condition row)) rows

unfoldable pub row_to_integration : IntegrationRow → Integration
unfolding preview_url
row_to_integration row = record {
  id = row.id;
  environment_id = row.environment_id;
  kind = row.kind;
  name = row.name;
  webhook_url_preview = preview_url row.webhook_url;
  events = row.events;
  enabled = row.enabled;
}

abbrev pub is_integration : String → ℕ → IntegrationRow → Bool
is_integration env_id id row = row.id == id && str_eq row.environment_id env_id

-- `COALESCE($n, column)` in each column
abbrev pub patched_integration : IntegrationPatch → IntegrationRow → IntegrationRow
patched_integration body row = record row {
  name = unwrap_or body.name row.name;
  webhook_url = unwrap_or body.webhook_url row.webhook_url;
  events = unwrap_or body.events row.events;
  enabled = unwrap_or body.enabled row.enabled;
}

-- the checks of a patch
abbrev pub has_good_url : Option String → Bool
has_good_url none = true
has_good_url (some url) = is_good_url url

abbrev pub has_good_events : Option (List String) → Bool
has_good_events none = true
has_good_events (some events) = are_supported events

abbrev pub may_patch_integration : IntegrationPatch → Result (Unit {0})
may_patch_integration body =
    if not (has_good_url body.webhook_url)
    then err unprocessable_entity
    else if not (has_good_events body.events)
    then err unprocessable_entity
    else ok tt

module _ (world : AuthWorld) (jar : AuthContext) (env_id : String) where
  unfoldable pub list_integrations : List IntegrationRow → Result (List Integration)
  unfolding check_env_access row_to_integration
  list_integrations rows = do
    check_env_access world jar env_id
    ok (map row_to_integration (select (λ row. str_eq row.environment_id env_id) rows))

  abbrev pub new_integration : ℕ → NewIntegration → IntegrationRow
  new_integration id body = record {
    id = id;
    environment_id = env_id;
    kind = body.kind;
    name = body.name;
    webhook_url = body.webhook_url;
    events = body.events;
    enabled = body.enabled;
  }

  -- with the id that the table gives the row
  unfoldable pub create_integration :
      ℕ → NewIntegration → List IntegrationRow → Answer IntegrationRow Integration
  unfolding check_env_access validate row_to_integration
  create_integration id body rows =
      elim (check_env_access world jar env_id >> validate body.kind body.webhook_url body.events) [
        | err status ↦ no_change rows status
        | ok done ↦ record {
          response = ok (row_to_integration (new_integration id body));
          rows = rows ++ new_integration id body ∷ [];
        }
      ]

  unfoldable pub patch_integration :
      ℕ → IntegrationPatch → List IntegrationRow → Answer IntegrationRow Integration
  unfolding check_env_access is_allowed_url row_to_integration
  patch_integration id body rows =
      elim (check_env_access world jar env_id >> may_patch_integration body) [
        | err status ↦ no_change rows status
        | ok done ↦ record {
          response = do
            row ← ok_or (find (is_integration env_id id) rows) not_found
            ok (row_to_integration (patched_integration body row));
          rows = update_where (is_integration env_id id) (patched_integration body) rows;
        }
      ]

  unfoldable pub delete_integration : ℕ → List IntegrationRow → Answer IntegrationRow (Unit {0})
  unfolding check_env_access
  delete_integration id rows = elim (check_env_access world jar env_id) [
    | err status ↦ no_change rows status
    | ok done ↦ record {
      response = if any (is_integration env_id id) rows then ok tt else err not_found;
      rows = delete_where (is_integration env_id id) rows;
    }
  ]

  unfoldable pub list_integration_deliveries :
      {V : Type 0} → ℕ → List IntegrationRow → List (Delivery V) → Result (List (Delivery V))
  unfolding check_env_access
  list_integration_deliveries id rows log = do
    check_env_access world jar env_id
    ok (if any (is_integration env_id id) rows then latest 50 id log else [])

  -- `test_integration`: the answer, and the log after the message, with the text of the clock
  unfoldable pub test_integration :
      {V : Type 0} (json : Message V)
      → Network json
      → String
      → String
      → ℕ
      → List IntegrationRow
      → List (Delivery V)
      → Answer (Delivery V) (Unit {0})
  unfolding check_env_access flag_event_payload deliver_to_env
  test_integration json network timestamp env_name id rows log =
      elim (check_env_access world jar env_id) [
        | err status ↦ no_change log status
        | ok done ↦
            if any (is_integration env_id id) rows
            then record {
              response = ok tt;
              rows =
                  deliver_to_env json network
                    (flag_event_payload json timestamp "flag.updated" env_id "checkgate_test_flag"
                      (some (
                        json.object (
                          ("is_enabled", json.boolean true)
                          ∷ ("rollout_percentage", json.number 100)
                          ∷ [])))
                      (some "checkgate") none)
                    env_id env_name rows log;
            }
            else no_change log not_found
      ]
