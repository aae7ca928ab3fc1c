-- ===== src/Notify/Format.antt =====
-- The messages: the fields that a payload shows, in the shapes of Slack and Teams, and the payloads.
pub mod Laws
use Prim.Native.String.{◌++◌}
use checkgate.Common.{
  ℕ, zero, suc, String, Bool, true, false, not, ◌&&◌, Option, none, some, List, [], ◌∷◌, map, ◌==◌,
  unwrap_or, str_eq, is_empty, lookup, ◌≡◌, if◌then◌else◌,
}
use checkgate.Types.{ℤ}
use checkgate.Notify.{wants_event}

-- `serde_json::Value` as these functions use it: `get`, the conversions, what `json!` builds, `to_vec`, and
-- the text of an `i64`.
pub record Message (V : Type 0) : Type 0 where
  pub get : V → String → Option V
  pub as_str : V → Option String
  pub as_bool : V → Option Bool
  pub as_i64 : V → Option ℤ
  pub object : List (String × V) → V
  pub array : List V → V
  pub text : String → V
  pub boolean : Bool → V
  pub number : ℕ → V
  pub null : V
  pub to_vec : V → Option (List ℕ)
  pub display : ℤ → String

-- what the code relies on: a field of an object is read back, and so is a text; `null` has no fields and
-- is no text, and a text has no fields
pub record IsJson {V : Type 0} (json : Message V) : Type 0 where
  pub get_object :
      (fields : List (String × V)) (key : String)
      → json.get (json.object fields) key ≡ lookup key fields
  pub get_null : (key : String) → json.get json.null key ≡ none
  pub as_str_text : (s : String) → json.as_str (json.text s) ≡ some s
  pub as_str_null : json.as_str json.null ≡ none

abbrev pub event_title : String → String
event_title event =
    if str_eq event "flag.created"
    then "Flag created"
    else if str_eq event "flag.updated"
    then "Flag updated"
    else if str_eq event "flag.deleted"
    then "Flag deleted"
    else if str_eq event "flag.promoted"
    then "Flag promoted"
    else if str_eq event "change_request.opened"
    then "Change request opened"
    else if str_eq event "change_request.approved"
    then "Change request approved"
    else if str_eq event "change_request.rejected"
    then "Change request rejected"
    else event

abbrev pub event_color : String → String
event_color event =
    if str_eq event "flag.deleted"
    then "D64545"
    else if str_eq event "change_request.rejected"
    then "D64545"
    else if str_eq event "change_request.opened"
    then "E8A33D"
    else if str_eq event "change_request.approved"
    then "3DA35D"
    else "10B981"

-- `take(n)`
abbrev pub take : {A : Type 0} → ℕ → List A → List A
take zero xs = []
take (suc n) [] = []
take (suc n) (x ∷ xs) = x ∷ take n xs

-- `if let Some(value) = … { fields.push(…) }`, before the fields that follow
abbrev pub with_field :
    {A : Type 0}
    → Option A
    → (A → String × String)
    → List (String × String)
    → List (String × String)
with_field none field rest = rest
with_field (some value) field rest = field value ∷ rest

abbrev pub non_empty : Option String → Option String
non_empty none = none
non_empty (some s) = if str_eq s "" then none else some s

module _ {V : Type 0} (json : Message V) where
  -- `value.and_then(|v| v.get(key))`
  abbrev pub get_in : Option V → String → Option V
  get_in none key = none
  get_in (some v) key = json.get v key

  abbrev pub text_in : Option V → Option String
  text_in none = none
  text_in (some v) = json.as_str v

  abbrev pub bool_in : Option V → Option Bool
  bool_in none = none
  bool_in (some v) = json.as_bool v

  abbrev pub i64_in : Option V → Option ℤ
  i64_in none = none
  i64_in (some v) = json.as_i64 v

  abbrev pub flag_enabled : V → Option Bool
  flag_enabled payload = bool_in (get_in (json.get payload "flag") "is_enabled")

  abbrev pub rollout_of : V → Option ℤ
  rollout_of payload = i64_in (get_in (json.get payload "flag") "rollout_percentage")

  unfoldable pub detail_fields : V → String → List (String × String)
  detail_fields payload env_name =
      ("Environment", env_name)
      ∷ with_field (text_in (json.get payload "flag_key")) (λ key. ("Flag", key))
          (with_field (flag_enabled payload)
            (λ enabled. ("State", if enabled then "Enabled" else "Disabled"))
            (with_field (rollout_of payload) (λ rollout. ("Rollout", json.display rollout ++ "%"))
              (with_field (text_in (json.get payload "actor_email")) (λ actor. ("By", actor))
                (with_field (non_empty (text_in (get_in (json.get payload "metadata") "reason")))
                  (λ reason. ("Reason", reason)) []))))

  abbrev pub event_of : V → String
  event_of payload = unwrap_or (text_in (json.get payload "event")) ""

  abbrev pub mrkdwn : String × String → V
  mrkdwn field = json.object (
      ("type", json.text "mrkdwn")
      ∷ ("text", json.text ("*" ++ (field.0 ++ ("*\n" ++ field.1))))
      ∷ [])

  -- the section of the fields, if there are any
  abbrev pub section : List V → List V
  section [] = []
  section fields =
      json.object (("type", json.text "section") ∷ ("fields", json.array fields) ∷ []) ∷ []

  abbrev pub fallback : Option String → String → String → String
  fallback none title env_name = title ++ (" (" ++ (env_name ++ ")"))
  fallback (some key) title env_name = title ++ (": " ++ (key ++ (" (" ++ (env_name ++ ")"))))

  unfoldable pub format_slack : V → String → V
  unfolding detail_fields
  format_slack payload env_name =
      let event = event_of payload in
      let title = event_title event in
      let field_blocks = map mrkdwn (take 10 (detail_fields payload env_name)) in
      let blocks =
        json.object (
          ("type", json.text "header")
          ∷ (
            "text",
            json.object (
                ("type", json.text "plain_text")
                ∷ ("text", json.text title)
                ∷ ("emoji", json.boolean true)
                ∷ []),
          )
          ∷ [])
        ∷ section field_blocks in
      json.object (
        ("text", json.text (fallback (text_in (json.get payload "flag_key")) title env_name))
        ∷ (
          "attachments",
          json.array (
              json.object (
                ("color", json.text ("#" ++ event_color event))
                ∷ ("blocks", json.array blocks)
                ∷ [])
              ∷ []),
        )
        ∷ [])

  abbrev pub fact : String × String → V
  fact field = json.object (("name", json.text field.0) ∷ ("value", json.text field.1) ∷ [])

  abbrev pub summary : Option String → String → String
  summary none title = title
  summary (some key) title = title ++ (": " ++ key)

  unfoldable pub format_teams : V → String → V
  unfolding detail_fields
  format_teams payload env_name =
      let event = event_of payload in
      let title = event_title event in
      json.object (
        ("@type", json.text "MessageCard")
        ∷ ("@context", json.text "https://schema.org/extensions")
        ∷ ("themeColor", json.text (event_color event))
        ∷ ("summary", json.text (summary (text_in (json.get payload "flag_key")) title))
        ∷ (
          "sections",
          json.array (
              json.object (
                ("activityTitle", json.text title)
                ∷ ("facts", json.array (map fact (detail_fields payload env_name)))
                ∷ ("markdown", json.boolean false)
                ∷ [])
              ∷ []),
        )
        ∷ [])

  unfoldable pub format_for : String → V → String → Option V
  unfolding format_slack format_teams
  format_for kind payload env_name =
      if str_eq kind "slack"
      then some (format_slack payload env_name)
      else if str_eq kind "teams"
      then some (format_teams payload env_name)
      else none

  abbrev pub text_or_null : Option String → V
  text_or_null none = json.null
  text_or_null (some s) = json.text s

  unfoldable pub change_request_payload :
      String → String → String → ℕ → Option String → Option String → V
  change_request_payload event env_id flag_key change_request_id actor_email reason = json.object (
      ("event", json.text event)
      ∷ ("environment_id", json.text env_id)
      ∷ ("flag_key", json.text flag_key)
      ∷ ("change_request_id", json.number change_request_id)
      ∷ ("actor_email", text_or_null actor_email)
      ∷ ("metadata", json.object (("reason", text_or_null reason) ∷ []))
      ∷ [])

  -- `flag_event_payload`, with the text of the clock
  unfoldable pub flag_event_payload :
      String → String → String → String → Option V → Option String → Option V → V
  flag_event_payload timestamp event env_id flag_key flag actor_email metadata = json.object (
      ("event", json.text event)
      ∷ ("environment_id", json.text env_id)
      ∷ ("flag_key", json.text flag_key)
      ∷ ("flag", unwrap_or flag json.null)
      ∷ ("actor_email", text_or_null actor_email)
      ∷ ("metadata", unwrap_or metadata json.null)
      ∷ ("timestamp", json.text timestamp)
      ∷ [])
