-- ===== src/Sdk/Web.antt =====
-- `CheckgateCoreWasm` of sdks/web/src/lib.rs. The object is its store.
use checkgate.Common.{String, Bool, false, ℕ, Option, none, some, List, [], unwrap_or}
use checkgate.External.{External}
use checkgate.Types.{Flag, UserContext}
use checkgate.Store
use checkgate.Store.{FlagStore, get_flag, clear}
use checkgate.Evaluator.Evaluate.{evaluate, evaluate_variant}
use checkgate.Sdk.{Serde, flag_json, optional_number, optional_string}

module _ (ext : External) (serde : Serde ext.Value) where
  abbrev pub CheckgateCoreWasm : Type 0
  CheckgateCoreWasm = FlagStore ext

  unfoldable pub new : CheckgateCoreWasm
  unfolding Store.new
  new = Store.new ext

  abbrev upsert_parsed : CheckgateCoreWasm → Option (Flag ext.Value) → CheckgateCoreWasm
  upsert_parsed core none = core
  upsert_parsed core (some flag) = Store.upsert_flag ext core flag

  unfoldable pub upsert_flag_v2 : CheckgateCoreWasm → String → CheckgateCoreWasm
  unfolding Store.upsert_flag
  upsert_flag_v2 core json = upsert_parsed core (serde.parse_flag json)

  -- `from_value(…).unwrap_or_default()`
  abbrev pub rules_of : serde.Js → ext.Value
  rules_of rules_js = serde.rules_json (unwrap_or (serde.js_rules rules_js) [])

  abbrev pub attributes_of : serde.Js → List (String × String)
  attributes_of user_attributes_js = unwrap_or (serde.js_attributes user_attributes_js) []

  unfoldable pub upsert_flag :
      CheckgateCoreWasm → String → Bool → Option ℕ → Option String → serde.Js → CheckgateCoreWasm
  unfolding Store.upsert_flag
  upsert_flag core key is_enabled rollout_percentage description rules_js = upsert_parsed core (
      serde.flag_of_json (
        flag_json serde key is_enabled (optional_number serde rollout_percentage)
          (optional_string serde description) (rules_of rules_js)))

  unfoldable pub delete_flag : CheckgateCoreWasm → String → CheckgateCoreWasm
  unfolding Store.delete_flag
  delete_flag core key = Store.delete_flag ext core key

  unfoldable pub clear_store : CheckgateCoreWasm → CheckgateCoreWasm
  unfolding clear
  clear_store core = clear ext core

  unfoldable pub is_enabled : CheckgateCoreWasm → String → String → serde.Js → Bool
  unfolding get_flag evaluate
  is_enabled core flag_key user_key user_attributes_js = elim (get_flag ext core flag_key) [
    | none ↦ false
    | some flag ↦
        let ctx : UserContext = record {
          key = user_key;
          attributes = attributes_of user_attributes_js;
        } in
        evaluate ext flag ctx core
  ]

  unfoldable pub get_value : CheckgateCoreWasm → String → String → serde.Js → serde.Js
  unfolding get_flag evaluate_variant
  get_value core flag_key user_key user_attributes_js = elim (get_flag ext core flag_key) [
    | none ↦ serde.js_null
    | some flag ↦
        let ctx : UserContext = record {
          key = user_key;
          attributes = attributes_of user_attributes_js;
        } in
        let result = evaluate_variant ext flag ctx core in
        unwrap_or (serde.js_of_value result.value) serde.js_null
  ]

  unfoldable pub get_variant : CheckgateCoreWasm → String → String → serde.Js → serde.Js
  unfolding get_flag evaluate_variant
  get_variant core flag_key user_key user_attributes_js = elim (get_flag ext core flag_key) [
    | none ↦ serde.js_null
    | some flag ↦
        let ctx : UserContext = record {
          key = user_key;
          attributes = attributes_of user_attributes_js;
        } in
        let result = evaluate_variant ext flag ctx core in
        unwrap_or (serde.js_of_result result) serde.js_null
  ]
