-- ===== src/Notify.antt =====
-- The notifications: server/src/integrations.rs, server/src/webhook_fire.rs and the handlers of
-- server/src/api/integrations.rs and server/src/api/webhooks.rs. Here are the events, the urls and the
-- checks of an integration.
pub mod Format
pub mod Deliver
pub mod Api
pub mod Laws
pub mod Urls
mod Tests
use Prim.Native.Char.{Char, code}
use Prim.Native.String.{◌++◌}
use checkgate.Common.{
  ℕ, suc, ◌-◌, String, Bool, true, false, not, ◌||◌, ◌&&◌, Option, none, some, List, [], ◌∷◌, ◌==◌,
  leb, any, all, is_empty, str_eq, if◌then◌else◌,
}
use checkgate.Status.{unprocessable_entity, Result, ok, err}
use checkgate.Text.{starts_with}
use checkgate.Text.Split.{strip_prefix}

-- `SUPPORTED_EVENTS` and `VALID_KINDS`
abbrev pub supported_events : List String
supported_events =
    "flag.created" ∷ "flag.updated" ∷ "flag.deleted" ∷ "flag.promoted" ∷ "change_request.opened"
    ∷ "change_request.approved" ∷ "change_request.rejected" ∷ []

abbrev pub valid_kinds : List String
valid_kinds = "slack" ∷ "teams" ∷ []

-- `contains`, of a slice of texts
abbrev pub has_text : List String → String → Bool
has_text texts text = any (λ t. str_eq t text) texts

abbrev pub wants_event : List String → String → Bool
wants_event subscribed event = is_empty subscribed || has_text subscribed event

-- `split(…).next()`: the text up to the first of the separators
abbrev pub take_until : (ℕ → Bool) → String → String
take_until is_separator String.[] = ""
take_until is_separator (String.◌∷◌ c s) =
    let rest = take_until is_separator s in if is_separator (code c) then "" else String.◌∷◌ c rest

abbrev pub has_code : ℕ → String → Bool
has_code separator String.[] = false
has_code separator (String.◌∷◌ c s) = code c == separator || has_code separator s

-- `rsplit(…).next()`: the text after the last of the separators
abbrev pub after_last : ℕ → String → String
after_last separator String.[] = ""
after_last separator (String.◌∷◌ c s) =
    let rest = after_last separator s in
    if has_code separator s then rest else if code c == separator then s else String.◌∷◌ c s

abbrev pub text_length : String → ℕ
text_length String.[] = 0
text_length (String.◌∷◌ c s) = suc (text_length s)

-- `chars().rev().take(n)`, turned around again: the last `n` characters
abbrev pub last_chars : ℕ → String → String
last_chars n String.[] = ""
last_chars n (String.◌∷◌ c s) =
    let rest = last_chars n s in if leb (suc (text_length s)) n then String.◌∷◌ c s else rest

unfoldable pub preview_url : String → String
preview_url url = "…" ++ last_chars 6 url

-- '/', '?' and '#'
abbrev pub ends_authority : ℕ → Bool
ends_authority c = c == 47 || c == 63 || c == 35

-- the host in an authority without credentials: an IPv6 literal, or what is before the ':'
abbrev pub host_of : String → String
host_of (String.◌∷◌ c s) =
    if code c == 91 then take_until (λ d. d == 93) s else take_until (λ d. d == 58) (String.◌∷◌ c s)
host_of String.[] = ""

abbrev pub is_loopback : String → Bool
is_loopback host = str_eq host "localhost" || str_eq host "127.0.0.1" || str_eq host "::1"

abbrev pub is_local : Option String → Bool
is_local none = false
is_local (some rest) = is_loopback (host_of (after_last 64 (take_until ends_authority rest)))

unfoldable pub is_allowed_url : String → Bool
unfolding starts_with strip_prefix
is_allowed_url url = starts_with url "https://" || is_local (strip_prefix url "http://")

-- the events that a subscription may have
abbrev pub are_supported : List String → Bool
are_supported events = all (has_text supported_events) events

abbrev pub is_good_url : String → Bool
is_good_url url = not (str_eq url "") && is_allowed_url url

unfoldable pub validate : String → String → List String → Result (Unit {0})
unfolding is_allowed_url
validate kind url events =
    if not (has_text valid_kinds kind)
    then err unprocessable_entity
    else if not (is_good_url url)
    then err unprocessable_entity
    else if not (are_supported events)
    then err unprocessable_entity
    else ok tt
