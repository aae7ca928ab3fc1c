-- ===== src/Sdk.antt =====
-- The bindings of the core: sdks/react-native/src/lib.rs (Ffi), sdks/nodejs/src/lib.rs (Node) and
-- sdks/web/src/lib.rs (Web). Serde, napi and wasm-bindgen are parameters.
pub mod Ffi
pub mod Node
pub mod Web
pub mod Laws
mod Tests
use checkgate.Common.{ℕ, String, ◌≡◌, Bool, Option, none, some, List, [], ◌∷◌}
use checkgate.Types.{FlagType, FlagValue, EvalResult, TargetingRule, Flag}

-- `serde_json` over its values `V`: `from_str` and `from_value` at the types that the bindings read
-- (`none` for an error), `to_string` at the ones they write, and what `json!` builds; and
-- `serde_wasm_bindgen` over the values `Js` of the browser.
pub record Serde (V : Type 0) : Type 1 where
  pub parse_flag : String → Option (Flag V)
  pub parse_json : String → Option V
  pub parse_attributes : String → Option (List (String × String))
  pub flag_of_json : V → Option (Flag V)
  pub value_text : FlagValue V → Option String
  pub result_text : EvalResult V → Option String
  pub object : List (String × V) → V
  pub array : List V → V
  pub string : String → V
  pub boolean : Bool → V
  pub number : ℕ → V
  pub null : V
  pub rules_json : List (TargetingRule V) → V
  pub Js : Type 0
  pub js_null : Js
  pub js_attributes : Js → Option (List (String × String))
  pub js_rules : Js → Option (List (TargetingRule V))
  pub js_of_value : FlagValue V → Option Js
  pub js_of_result : EvalResult V → Option Js

module _ {V : Type 0} (serde : Serde V) where
  -- `json!` of an optional number and of an optional text
  abbrev pub optional_number : Option ℕ → V
  optional_number none = serde.null
  optional_number (some n) = serde.number n

  abbrev pub optional_string : Option String → V
  optional_string none = serde.null
  optional_string (some s) = serde.string s

  -- the object that the positional upserts build
  abbrev pub flag_json : String → Bool → V → V → V → V
  flag_json key is_enabled rollout_percentage description rules = serde.object (
      ("key", serde.string key)
      ∷ ("is_enabled", serde.boolean is_enabled)
      ∷ ("rollout_percentage", rollout_percentage)
      ∷ ("description", description)
      ∷ ("rules", rules)
      ∷ [])
