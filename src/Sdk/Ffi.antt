-- ===== src/Sdk/Ffi.antt =====
-- The C functions of sdks/react-native/src/lib.rs. The global store is passed in and returned; a pointer
-- that may be null is an `Option`; an `i32` that is 0 or 1 is a number. Pointers are live, as the
-- functions' safety contracts demand; releasing them changes no value.
use checkgate.Common.{
  ℕ, String, Bool, true, false, Option, none, some, List, [], leb, ◌==◌, any, unwrap_or,
  if◌then◌else◌,
}
use checkgate.Text.Bytes.{as_bytes}
use checkgate.External.{External}
use checkgate.Types.{ℤ, pos, negsuc, EvalResult, Flag, UserContext}
use checkgate.Store.{FlagStore, upsert_flag, get_flag, delete_flag, clear}
use checkgate.Evaluator.Evaluate.{evaluate, evaluate_variant}
use checkgate.Sdk.{Serde, flag_json}

-- `CString::new`, which refuses a text with a NUL
abbrev cstring : String → Option String
cstring s = if any (λ b. b == 0) (as_bytes s) then none else some s

unfoldable pub alloc_cstring : String → String
unfolding as_bytes
alloc_cstring s = unwrap_or (cstring s) "null"

-- `rollout_percentage.min(100)`
abbrev pub at_most_100 : ℕ → ℕ
at_most_100 p = if leb p 100 then p else 100

abbrev pub of_bool : Bool → ℕ
of_bool true = 1
of_bool false = 0

module _ (ext : External) (serde : Serde ext.Value) where
  -- `if let Ok(flag) = …`
  abbrev pub upsert_parsed : FlagStore ext → Option (Flag ext.Value) → FlagStore ext
  upsert_parsed store none = store
  upsert_parsed store (some flag) = upsert_flag ext store flag

  unfoldable pub checkgate_upsert_flag_v2 : FlagStore ext → Option String → FlagStore ext
  unfolding upsert_flag
  checkgate_upsert_flag_v2 store none = store
  checkgate_upsert_flag_v2 store (some json) = upsert_parsed store (serde.parse_flag json)

  abbrev pub rules_of : Option String → ext.Value
  rules_of none = serde.array []
  rules_of (some json) = unwrap_or (serde.parse_json json) (serde.array [])

  abbrev pub rollout_of : ℤ → ext.Value
  rollout_of (negsuc p) = serde.null
  rollout_of (pos p) = serde.number (at_most_100 p)

  unfoldable pub checkgate_upsert_flag :
      FlagStore ext → String → Bool → ℤ → Option String → FlagStore ext
  unfolding upsert_flag
  checkgate_upsert_flag store key is_enabled rollout_percentage rules_json = upsert_parsed store (
      serde.flag_of_json (
        flag_json serde key is_enabled (rollout_of rollout_percentage) serde.null
          (rules_of rules_json)))

  unfoldable pub checkgate_delete_flag : FlagStore ext → String → FlagStore ext
  unfolding delete_flag
  checkgate_delete_flag store key = delete_flag ext store key

  unfoldable pub checkgate_clear_store : FlagStore ext → FlagStore ext
  unfolding clear
  checkgate_clear_store store = clear ext store

  abbrev pub attributes_of : Option String → List (String × String)
  attributes_of none = []
  attributes_of (some json) = unwrap_or (serde.parse_attributes json) []

  unfoldable pub checkgate_make_context : String → Option String → UserContext
  checkgate_make_context user_key attributes_json = record {
    key = user_key;
    attributes = attributes_of attributes_json;
  }

  unfoldable pub checkgate_is_enabled_ctx : FlagStore ext → String → Option UserContext → ℕ
  unfolding get_flag evaluate
  checkgate_is_enabled_ctx store flag_key context = elim (get_flag ext store flag_key) [
    | none ↦ 0
    | some flag ↦ elim context [ none ↦ 0 | some ctx ↦ of_bool (evaluate ext flag ctx store) ]
  ]

  unfoldable pub eval_result_to_json : EvalResult ext.Value → String
  eval_result_to_json result = unwrap_or (serde.result_text result) "null"

  unfoldable pub value_to_json : EvalResult ext.Value → String
  value_to_json result = unwrap_or (serde.value_text result.value) "null"

  unfoldable pub checkgate_get_variant : FlagStore ext → String → String → Option String → String
  unfolding get_flag evaluate_variant eval_result_to_json alloc_cstring
  checkgate_get_variant store flag_key user_key attributes_json =
      elim (get_flag ext store flag_key) [
        | none ↦ alloc_cstring "null"
        | some flag ↦
            let ctx : UserContext = record {
              key = user_key;
              attributes = attributes_of attributes_json;
            } in
            alloc_cstring (eval_result_to_json (evaluate_variant ext flag ctx store))
      ]

  unfoldable pub checkgate_get_value : FlagStore ext → String → String → Option String → String
  unfolding get_flag evaluate_variant value_to_json alloc_cstring
  checkgate_get_value store flag_key user_key attributes_json = elim (get_flag ext store flag_key) [
    | none ↦ alloc_cstring "null"
    | some flag ↦
        let ctx : UserContext = record {
          key = user_key;
          attributes = attributes_of attributes_json;
        } in
        alloc_cstring (value_to_json (evaluate_variant ext flag ctx store))
  ]

  unfoldable pub checkgate_is_enabled : FlagStore ext → String → String → Option String → ℕ
  unfolding get_flag evaluate
  checkgate_is_enabled store flag_key user_key attributes_json =
      elim (get_flag ext store flag_key) [
        | none ↦ 0
        | some flag ↦
            let ctx : UserContext = record {
              key = user_key;
              attributes = attributes_of attributes_json;
            } in
            of_bool (evaluate ext flag ctx store)
      ]
