-- ===== src/Notify/Deliver.antt =====
-- The deliveries: `deliver_with_retry`, `log_delivery` and `deliver_to_env` of both sinks, and `notify`. A
-- log of deliveries is a list, the newest first; what a post is answered is a parameter. The ids are
-- numbers.
pub mod Logs
pub mod Receivers
pub mod Laws
use Prim.Native.String.{◌++◌}
use checkgate.Common.{
  ℕ, zero, suc, ◌+◌, String, Bool, true, false, not, ◌&&◌, Option, none, some, List, [], ◌∷◌,
  length, is_empty, ◌==◌, str_eq, unwrap_or, if◌then◌else◌,
}
use checkgate.Text.Bytes.{as_bytes}
use checkgate.Text.Split.{hex}
use checkgate.Notify.{wants_event}
use checkgate.Notify.Format.{Message, text_in, format_for}

-- A row of `webhook_deliveries` or `integration_deliveries`; `hook_id` is the webhook or the integration.
pub record Delivery (V : Type 0) : Type 0 where
  pub hook_id : ℕ
  pub event : String
  pub payload : V
  pub status_code : Option ℕ
  pub response_body : Option String
  pub error : Option String

-- What `send` gives: a response, or an error with its text.
pub data Reply : Type 0 where
  responded : ℕ → String → Reply
  unreachable : String → Reply

-- What a delivery leaves: the log, the number of the posts and the seconds that it has slept.
pub record Sent (V : Type 0) : Type 0 where
  pub log : List (Delivery V)
  pub posts : ℕ
  pub slept : ℕ

-- A post: the url, the signature in its header, and the body.
pub record Post : Type 0 where
  pub url : String
  pub signature : Option String
  pub body : List ℕ

-- A row of `integrations`, without its times.
pub record IntegrationRow : Type 0 where
  pub id : ℕ
  pub environment_id : String
  pub kind : String
  pub name : String
  pub webhook_url : String
  pub events : List String
  pub enabled : Bool

-- A row of `webhooks`, without its times.
pub record WebhookRow : Type 0 where
  pub id : ℕ
  pub environment_id : String
  pub name : String
  pub url : String
  pub secret : Option String
  pub enabled : Bool

abbrev pub backoff_secs : List ℕ
backoff_secs = 1 ∷ 5 ∷ 15 ∷ []

module _ {V : Type 0} where
  -- `DELETE … WHERE id NOT IN (SELECT id … ORDER BY delivered_at DESC LIMIT 200)`, with the rows that
  -- may still stay
  unfoldable pub prune : ℕ → ℕ → List (Delivery V) → List (Delivery V)
  prune room hook_id [] = []
  prune room hook_id (row ∷ rows) =
      if row.hook_id == hook_id
      then elim room [ zero ↦ prune zero hook_id rows | suc n ↦ row ∷ prune n hook_id rows ]
      else row ∷ prune room hook_id rows

  unfoldable pub log_delivery : Delivery V → List (Delivery V) → List (Delivery V)
  unfolding prune
  log_delivery row log = prune 200 row.hook_id (row ∷ log)

  abbrev pub answered : ℕ → String → V → ℕ → String → Delivery V
  answered hook_id event payload status body = record {
    hook_id = hook_id;
    event = event;
    payload = payload;
    status_code = some status;
    response_body = some body;
    error = none;
  }

  abbrev pub unanswered : ℕ → String → V → String → Delivery V
  unanswered hook_id event payload e = record {
    hook_id = hook_id;
    event = event;
    payload = payload;
    status_code = none;
    response_body = none;
    error = some e;
  }

  abbrev pub slept_more : ℕ → Sent V → Sent V
  slept_more wait sent = record sent { posts = suc sent.posts; slept = wait + sent.slept }

  -- The attempts from this one on.
  unfoldable pub attempts_from :
      ℕ → List ℕ → (ℕ → Reply) → ℕ → String → V → List (Delivery V) → Sent V
  unfolding log_delivery
  attempts_from attempt [] replies hook_id event payload log = record {
    log = log;
    posts = 0;
    slept = 0;
  }
  attempts_from attempt (wait ∷ waits) replies hook_id event payload log =
      let rest = attempts_from (suc attempt) waits replies hook_id event payload in
      elim (replies attempt) [
        | responded status body ↦ record {
          log = log_delivery (answered hook_id event payload status body) log;
          posts = 1;
          slept = 0;
        }
        | unreachable e ↦
            if attempt == 2
            then slept_more 0 (rest (log_delivery (unanswered hook_id event payload e) log))
            else slept_more wait (rest log)
      ]

  unfoldable pub deliver_with_retry : (ℕ → Reply) → ℕ → String → V → List (Delivery V) → Sent V
  unfolding attempts_from
  deliver_with_retry replies hook_id event payload log =
      attempts_from 0 backoff_secs replies hook_id event payload log

module _ {V : Type 0} (json : Message V) where
  abbrev pub event_or_unknown : V → String
  event_or_unknown payload = unwrap_or (text_in json (json.get payload "event")) "unknown"

  -- What the posts are answered, attempt by attempt.
  abbrev pub Network : Type 0
  Network = Post → ℕ → Reply

  -- the integrations that the query and the filter leave
  abbrev pub is_subscribed : String → String → IntegrationRow → Bool
  is_subscribed env_id event row =
      (str_eq row.environment_id env_id && row.enabled) && wants_event row.events event

  -- The message and the body for an integration: an unknown kind and a message that cannot be written have
  -- none.
  abbrev pub with_body : Option V → Option (V × List ℕ)
  with_body none = none
  with_body (some message) = elim (json.to_vec message) [
    | none ↦ none
    | some body ↦ some (message, body)
  ]

  unfoldable pub message_for : V → String → IntegrationRow → Option (V × List ℕ)
  unfolding format_for
  message_for payload env_name row = with_body (format_for json row.kind payload env_name)

  unfoldable pub deliver_one :
      Network → V → String → IntegrationRow → List (Delivery V) → List (Delivery V)
  unfolding deliver_with_retry message_for
  deliver_one network payload env_name row log = elim (message_for payload env_name row) [
    | none ↦ log
    | some (message, body) ↦
        (deliver_with_retry
          (network (record { url = row.webhook_url; signature = none; body = body })) row.id
          (event_or_unknown payload) message log).log
  ]

  -- `deliver_to_env` of server/src/integrations.rs
  unfoldable pub deliver_to_env :
      Network → V → String → String → List IntegrationRow → List (Delivery V) → List (Delivery V)
  unfolding deliver_one
  deliver_to_env network payload env_id env_name [] log = log
  deliver_to_env network payload env_id env_name (row ∷ rows) log =
      let rest = deliver_to_env network payload env_id env_name rows in
      if is_subscribed env_id (event_or_unknown payload) row
      then rest (deliver_one network payload env_name row log)
      else rest log

  -- `sign_payload`, with the bytes that HMAC-SHA256 gives for a key and a message
  unfoldable pub sign_payload : (List ℕ → List ℕ → List ℕ) → String → List ℕ → String
  unfolding hex
  sign_payload hmac secret body = "sha256=" ++ hex (hmac (as_bytes secret) body)

  -- The header is left out when there is no secret.
  abbrev pub signature_of : (List ℕ → List ℕ → List ℕ) → Option String → List ℕ → Option String
  signature_of hmac none body = none
  signature_of hmac (some secret) body = some (sign_payload hmac secret body)

  module _ (hmac : List ℕ → List ℕ → List ℕ) where
    -- the loop over the webhooks of `deliver_to_env` of server/src/webhook_fire.rs
    unfoldable pub deliver_hooks :
        Network → V → String → List ℕ → List WebhookRow → List (Delivery V) → List (Delivery V)
    unfolding deliver_with_retry sign_payload
    deliver_hooks network payload env_id body [] log = log
    deliver_hooks network payload env_id body (row ∷ rows) log =
        let rest = deliver_hooks network payload env_id body rows in
        if str_eq row.environment_id env_id && row.enabled
        then rest
            (deliver_with_retry
              (network (record {
                url = row.url;
                signature = signature_of hmac row.secret body;
                body = body;
              }))
              row.id (event_or_unknown payload) payload log).log
        else rest log

    unfoldable pub deliver_webhooks :
        Network → V → String → List WebhookRow → List (Delivery V) → List (Delivery V)
    unfolding deliver_hooks
    deliver_webhooks network payload env_id rows log = elim (json.to_vec payload) [
      | none ↦ log
      | some body ↦ deliver_hooks network payload env_id body rows log
    ]
