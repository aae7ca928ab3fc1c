-- ===== src/Notify/Api/Webhooks.antt =====
-- The handlers of server/src/api/webhooks.rs.
use checkgate.Common.{
  select, ℕ, String, Bool, ◌&&◌, Option, none, some, List, [], ◌∷◌, ◌++◌, map, is_some, ◌==◌, any,
  str_eq, unwrap_or, if◌then◌else◌,
}
use checkgate.Status.{not_found, unprocessable_entity, Result, ok, err, ok_or, ◌>>=◌, ◌>>◌}
use checkgate.Auth.{AuthContext, AuthWorld}
use checkgate.Auth.Access.{check_env_access}
use checkgate.Notify.Deliver.{WebhookRow, Delivery}
use checkgate.Notify.Api.{Answer, no_change, find, latest, update_where, delete_where}

pub record Webhook : Type 0 where
  pub id : ℕ
  pub environment_id : String
  pub name : String
  pub url : String
  pub has_secret : Bool
  pub enabled : Bool

-- The `CreateBody` of a webhook, with the defaults filled in, and its `PatchBody`.
pub record NewWebhook : Type 0 where
  pub name : String
  pub url : String
  pub secret : Option String
  pub enabled : Bool

pub record WebhookPatch : Type 0 where
  pub name : Option String
  pub url : Option String
  pub secret : Option String
  pub enabled : Option Bool

abbrev pub row_to_webhook : WebhookRow → Webhook
row_to_webhook row = record {
  id = row.id;
  environment_id = row.environment_id;
  name = row.name;
  url = row.url;
  has_secret = is_some row.secret;
  enabled = row.enabled;
}

abbrev pub is_webhook : String → ℕ → WebhookRow → Bool
is_webhook env_id id row = row.id == id && str_eq row.environment_id env_id

abbrev pub patched_webhook : WebhookPatch → WebhookRow → WebhookRow
patched_webhook body row = record row {
  name = unwrap_or body.name row.name;
  url = unwrap_or body.url row.url;
  secret = elim body.secret [ none ↦ row.secret | some s ↦ some s ];
  enabled = unwrap_or body.enabled row.enabled;
}

module _ (world : AuthWorld) (jar : AuthContext) (env_id : String) where
  unfoldable pub list_webhooks : List WebhookRow → Result (List Webhook)
  unfolding check_env_access
  list_webhooks rows = do
    check_env_access world jar env_id
    ok (map row_to_webhook (select (λ row. str_eq row.environment_id env_id) rows))

  abbrev pub new_webhook : ℕ → NewWebhook → WebhookRow
  new_webhook id body = record {
    id = id;
    environment_id = env_id;
    name = body.name;
    url = body.url;
    secret = body.secret;
    enabled = body.enabled;
  }

  unfoldable pub create_webhook : ℕ → NewWebhook → List WebhookRow → Answer WebhookRow Webhook
  unfolding check_env_access
  create_webhook id body rows = elim (check_env_access world jar env_id) [
    | err status ↦ no_change rows status
    | ok done ↦ if str_eq body.url "" then no_change rows unprocessable_entity else record {
      response = ok (row_to_webhook (new_webhook id body));
      rows = rows ++ new_webhook id body ∷ [];
    }
  ]

  unfoldable pub patch_webhook : ℕ → WebhookPatch → List WebhookRow → Answer WebhookRow Webhook
  unfolding check_env_access
  patch_webhook id body rows = elim (check_env_access world jar env_id) [
    | err status ↦ no_change rows status
    | ok done ↦ record {
      response = do
        row ← ok_or (find (is_webhook env_id id) rows) not_found
        ok (row_to_webhook (patched_webhook body row));
      rows = update_where (is_webhook env_id id) (patched_webhook body) rows;
    }
  ]

  unfoldable pub delete_webhook : ℕ → List WebhookRow → Answer WebhookRow (Unit {0})
  unfolding check_env_access
  delete_webhook id rows = elim (check_env_access world jar env_id) [
    | err status ↦ no_change rows status
    | ok done ↦ record {
      response = if any (is_webhook env_id id) rows then ok tt else err not_found;
      rows = delete_where (is_webhook env_id id) rows;
    }
  ]

  unfoldable pub list_webhook_deliveries :
      {V : Type 0} → ℕ → List WebhookRow → List (Delivery V) → Result (List (Delivery V))
  unfolding check_env_access
  list_webhook_deliveries id rows log = do
    check_env_access world jar env_id
    if any (is_webhook env_id id) rows then ok (latest 100 id log) else err not_found
