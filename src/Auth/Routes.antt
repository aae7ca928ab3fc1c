-- ===== src/Auth/Routes.antt =====
-- The routes that an SDK key may use: `sdk_key_route_allowed`.
pub mod Laws
use checkgate.Common.{
  ℕ, String, Bool, true, false, not, ◌&&◌, ◌||◌, Option, none, some, List, [], ◌∷◌, str_eq,
  if◌then◌else◌,
}
use checkgate.Text.Split.{split}
use checkgate.Auth.{Method, get, post}

-- `filter(|s| !s.is_empty())`
abbrev pub non_empty : List String → List String
non_empty [] = []
non_empty (s ∷ ss) = if str_eq s "" then non_empty ss else s ∷ non_empty ss

-- `path.split('/').filter(|s| !s.is_empty())`
unfoldable pub path_segments : String → List String
unfolding split
path_segments path = non_empty (split path b'/')

-- `key_env.is_none_or(|bound| bound == env)`
abbrev pub env_ok : Option String → String → Bool
env_ok none env = true
env_ok (some bound) env = str_eq bound env

-- the `match` on the method and the segments
unfoldable pub route_allowed : Method → List String → Option String → Bool
route_allowed get (a ∷ []) key_env = str_eq a "stream"
route_allowed get (a ∷ b ∷ []) key_env = str_eq a "flags" && str_eq b "snapshot"
route_allowed get (a ∷ b ∷ env ∷ d ∷ []) key_env =
    str_eq a "api" && str_eq b "environments" && str_eq d "flags" && env_ok key_env env
route_allowed get (a ∷ b ∷ env ∷ d ∷ flag ∷ []) key_env =
    str_eq a "api" && str_eq b "environments" && str_eq d "flags" && env_ok key_env env
route_allowed post (a ∷ b ∷ env ∷ d ∷ []) key_env =
    str_eq a "api"
    && str_eq b "environments"
    && (str_eq d "impressions" || str_eq d "events")
    && env_ok key_env env
route_allowed _ _ key_env = false

unfoldable pub sdk_key_route_allowed : Method → String → Option String → Bool
sdk_key_route_allowed method path key_env = route_allowed method (path_segments path) key_env
