-- ===== src/Notify/Deliver/Receivers.antt =====
-- Whom `deliver_to_env` of server/src/integrations.rs sends a message, and what the log says of each.
use mathlib.Core.Path.{subst}
use checkgate.Common.{
  ℕ, zero, suc, String, ◌≡◌, ◌↔◌, refl, ap, ◌∙◌, inl, inr, arith, true, none, some, List, [], ◌∷◌,
  In, str_eq, eq_iff, Bool-cases, Option-cases,
}
use checkgate.Status.{some_injective, none-absurd}
use checkgate.Notify.{has_text, wants_event}
use checkgate.Notify.Format.{Message, format_slack, format_teams, format_for}
use checkgate.Notify.Deliver.{
  Delivery, Reply, responded, unreachable, IntegrationRow, event_or_unknown, Network, is_subscribed,
  with_body, message_for,
}

-- The posts before this one got no answer.
pub data Unanswered (replies : ℕ → Reply) : ℕ → Type 0 where
  start : Unanswered replies zero
  next :
      {n : ℕ} (e : String)
      → Unanswered replies n
      → replies n ≡ unreachable e
      → Unanswered replies (suc n)

module _ {V : Type 0} where
  -- What a delivery reports: the first of at most three posts that is answered, after which it stops, or the
  -- error of the third, when none is answered.
  pub data IsReport (replies : ℕ → Reply) (row : Delivery V) (posts : ℕ) : Type 0 where
    first_answer :
        (attempt status : ℕ) (body : String)
        → posts ≡ suc attempt
        → Unanswered replies attempt
        → replies attempt ≡ responded status body
        → row.status_code ≡ some status
        → row.response_body ≡ some body
        → row.error ≡ none
        → IsReport replies row posts
    last_error :
        (e : String)
        → posts ≡ 3
        → Unanswered replies 2
        → replies 2 ≡ unreachable e
        → row.status_code ≡ none
        → row.response_body ≡ none
        → row.error ≡ some e
        → IsReport replies row posts

has_text_iff : (texts : List String) (text : String) → (has_text texts text ≡ true) ↔ In text texts
has_text_iff [] text = ground arith
has_text_iff (t ∷ texts) text = ground (arith, has_text_iff texts text, eq_iff t text)

-- An integration with no events hears of all.
abbrev pub Subscribes : List String → String → Type 0
Subscribes [] event = Unit
Subscribes (e ∷ events) event = In event (e ∷ events)

wants_event_iff :
    (events : List String) (event : String)
    → (wants_event events event ≡ true) ↔ Subscribes events event
wants_event_iff [] event = (λ h. tt, λ h. refl)
wants_event_iff (e ∷ events) event = has_text_iff (e ∷ events) event

module _ {V : Type 0} (json : Message V) (payload : V) (env_id env_name : String) where
  -- The message of a kind, and its body, where it can be written.
  pub data IsWritten (kind : String) : V → List ℕ → Type 0 where
    slack :
        (body : List ℕ)
        → kind ≡ "slack"
        → json.to_vec (format_slack json payload env_name) ≡ some body
        → IsWritten kind (format_slack json payload env_name) body
    teams :
        (body : List ℕ)
        → kind ≡ "teams"
        → json.to_vec (format_teams json payload env_name) ≡ some body
        → IsWritten kind (format_teams json payload env_name) body

  -- The integration is to get this message.
  pub record Receives (row : IntegrationRow) (message : V) (body : List ℕ) : Type 0 where
    pub here : row.environment_id ≡ env_id
    pub is_on : row.enabled ≡ true
    pub subscribes : Subscribes row.events (event_or_unknown json payload)
    pub written : IsWritten row.kind message body

  -- What is logged for the integrations: one row for each that is to get a message, in their order, with the
  -- report of its posts, and none for the others.
  pub data Logged (network : Network json) : List IntegrationRow → List (Delivery V) → Type 0 where
    no_more : Logged network [] []
    sent :
        {row : IntegrationRow} {rows : List IntegrationRow} {logged : List (Delivery V)}
        (message : V) (body : List ℕ) (delivery : Delivery V) (posts : ℕ)
        → Receives row message body
        → delivery.hook_id ≡ row.id
        → delivery.event ≡ event_or_unknown json payload
        → delivery.payload ≡ message
        → IsReport
            (network (record { url = row.webhook_url; signature = none; body = body }))
            delivery
            posts
        → Logged network rows logged
        → Logged network (row ∷ rows) (delivery ∷ logged)
    skipped :
        {row : IntegrationRow} {rows : List IntegrationRow} {logged : List (Delivery V)}
        → ((message : V) (body : List ℕ) → ¬ Receives row message body)
        → Logged network rows logged
        → Logged network (row ∷ rows) logged

  pub is_subscribed_iff :
      (row : IntegrationRow)
      → (is_subscribed json env_id (event_or_unknown json payload) row ≡ true) ↔ (
          (row.environment_id ≡ env_id)
          × (row.enabled ≡ true)
          × Subscribes row.events (event_or_unknown json payload))
  is_subscribed_iff row =
      let wants = wants_event_iff row.events (event_or_unknown json payload) in
      ground (arith, eq_iff row.environment_id env_id, wants)

  with_body_lem :
      (m message : V) (body : List ℕ)
      → with_body json (some m) ≡ some (message, body)
      → (m ≡ message) × (json.to_vec m ≡ some body)
  with_body_lem m message body h = elim (Option-cases (json.to_vec m)) [
    | inl n ↦ none-absurd (rw (n, with_body) at h)
    | inr (b, w) ↦
        let e = some_injective (rw (w, with_body) at h) in
        (ap (λ (x : V × List ℕ). x.0) e, w ∙ ap (λ (x : V × List ℕ). some x.1) e)
  ]

  pub IsWritten-message_for :
      (row : IntegrationRow) (message : V) (body : List ℕ)
      → message_for json payload env_name row ≡ some (message, body)
      → IsWritten row.kind message body
  unfolding message_for format_for
  IsWritten-message_for row message body h = elim (Bool-cases (str_eq row.kind "slack")) [
    | inl s ↦
        let (same, w) =
          with_body_lem (format_slack json payload env_name) message body (rw s at h) in
        subst (λ m. IsWritten row.kind m body) same (slack body ((eq_iff row.kind "slack").0 s) w)
    | inr s ↦ elim (Bool-cases (str_eq row.kind "teams")) [
      | inl t ↦
          let (same, w) =
            with_body_lem (format_teams json payload env_name) message body (rw (s, t) at h) in
          subst (λ m. IsWritten row.kind m body) same (teams body ((eq_iff row.kind "teams").0 t) w)
      | inr t ↦ none-absurd (rw (s, t) at h)
    ]
  ]

  pub message_for-IsWritten :
      (row : IntegrationRow) (message : V) (body : List ℕ)
      → IsWritten row.kind message body
      → message_for json payload env_name row ≡ some (message, body)
  unfolding message_for format_for
  message_for-IsWritten row _ body (slack _ k w) = rw (k, message_for) (rw w refl)
  message_for-IsWritten row _ body (teams _ k w) = rw (k, message_for) (rw w refl)
