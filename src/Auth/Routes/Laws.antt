-- ===== src/Auth/Routes/Laws.antt =====
-- The routes of SDK keys as a relation, beside `sdk_key_route_allowed`.
use checkgate.Common.{
  String, ◌≡◌, ◌↔◌, refl, inl, inr, true, ◌||◌, Option, none, some, List, [], ◌∷◌, arith, str_eq,
  eq_iff, Bool-cases,
}
use checkgate.Auth.{Method, get, post}
use checkgate.Auth.Routes.{path_segments, env_ok, route_allowed, sdk_key_route_allowed}

-- The environment is the one that the key is bound to; a key with no binding may name any.
abbrev pub InScope : Option String → String → Type 0
InScope none env = Unit
InScope (some bound) env = bound ≡ env

-- The stream, the snapshot, the flags of an environment or one of them, and the reports of
-- impressions and events.
pub data SdkRoute (key_env : Option String) : Method → List String → Type 0 where
  stream : SdkRoute key_env get ("stream" ∷ [])
  snapshot : SdkRoute key_env get ("flags" ∷ "snapshot" ∷ [])
  flags :
      {env : String}
      → InScope key_env env
      → SdkRoute key_env get ("api" ∷ "environments" ∷ env ∷ "flags" ∷ [])
  flag :
      {env key : String}
      → InScope key_env env
      → SdkRoute key_env get ("api" ∷ "environments" ∷ env ∷ "flags" ∷ key ∷ [])
  impressions :
      {env : String}
      → InScope key_env env
      → SdkRoute key_env post ("api" ∷ "environments" ∷ env ∷ "impressions" ∷ [])
  events :
      {env : String}
      → InScope key_env env
      → SdkRoute key_env post ("api" ∷ "environments" ∷ env ∷ "events" ∷ [])

pub env_ok_iff :
    (key_env : Option String) (env : String) → (env_ok key_env env ≡ true) ↔ InScope key_env env
env_ok_iff none env = (λ h. tt, λ h. refl)
env_ok_iff (some bound) env = eq_iff bound env

route_complete :
    {key_env : Option String} {method : Method} {segments : List String}
    → SdkRoute key_env method segments
    → route_allowed method segments key_env ≡ true
unfolding route_allowed
route_complete stream = refl
route_complete snapshot = refl
route_complete {key_env} (flags {env} h) = (env_ok_iff key_env env).1 h
route_complete {key_env} (flag {env} h) = (env_ok_iff key_env env).1 h
route_complete {key_env} (impressions {env} h) = (env_ok_iff key_env env).1 h
route_complete {key_env} (events {env} h) = (env_ok_iff key_env env).1 h

-- A text that passes a test is the text of the test.
is : (s t : String) → str_eq s t ≡ true → s ≡ t
is s t = (eq_iff s t).0

report :
    {key_env : Option String} (env d : String)
    → ((str_eq d "impressions" || str_eq d "events") ≡ true)
    → InScope key_env env
    → SdkRoute key_env post ("api" ∷ "environments" ∷ env ∷ d ∷ [])
report {key_env} env d h scope = elim (Bool-cases (str_eq d "impressions")) [
  | inl e ↦ rw (is d "impressions" e) (impressions scope)
  | inr e ↦ rw (is d "events" (ground arith)) (events scope)
]

route_sound :
    (key_env : Option String) (method : Method) (segments : List String)
    → route_allowed method segments key_env ≡ true
    → SdkRoute key_env method segments
unfolding route_allowed
route_sound k get (a ∷ []) h = rw (is a "stream" h) stream
route_sound k get (a ∷ b ∷ []) h =
    rw (is a "flags" (ground arith), is b "snapshot" (ground arith)) snapshot
route_sound k get (a ∷ b ∷ env ∷ d ∷ []) h =
    rw (is a "api" (ground arith), is b "environments" (ground arith), is d "flags" (ground arith))
      (flags ((env_ok_iff k env).0 (ground arith)))
route_sound k get (a ∷ b ∷ env ∷ d ∷ key ∷ []) h =
    rw (is a "api" (ground arith), is b "environments" (ground arith), is d "flags" (ground arith))
      (flag ((env_ok_iff k env).0 (ground arith)))
route_sound k post (a ∷ b ∷ env ∷ d ∷ []) h =
    rw (is a "api" (ground arith), is b "environments" (ground arith))
      (report env d (ground arith) ((env_ok_iff k env).0 (ground arith)))
route_sound _ _ _ h = cc

-- An SDK key is let through exactly on the routes of the SDKs, and where the route names an
-- environment, only for the environment that the key is bound to.
pub sdk_key_route_allowed_iff :
    (method : Method) (path : String) (key_env : Option String)
    → (sdk_key_route_allowed method path key_env ≡ true)
      ↔ SdkRoute key_env method (path_segments path)
unfolding sdk_key_route_allowed
sdk_key_route_allowed_iff method path key_env =
    (route_sound key_env method (path_segments path), route_complete)
