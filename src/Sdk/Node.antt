-- ===== src/Sdk/Node.antt =====
-- `CheckgateCore` of sdks/nodejs/src/lib.rs. The object is its store.
use checkgate.Common.{String, Bool, false, ℕ, Option, none, some, List, [], unwrap_or}
use checkgate.External.{External}
use checkgate.Types.{Flag, UserContext}
use checkgate.Store
use checkgate.Store.{FlagStore, get_flag, clear}
use checkgate.Evaluator.Evaluate.{evaluate, evaluate_variant}
use checkgate.Sdk.{Serde, flag_json, optional_number, optional_string}

module _ (ext : External) (serde : Serde ext.Value) where
  abbrev pub CheckgateCore : Type 0
  CheckgateCore = FlagStore ext

  unfoldable pub new : CheckgateCore
  unfolding Store.new
  new = Store.new ext

  abbrev upsert_parsed : CheckgateCore → Option (Flag ext.Value) → CheckgateCore
  upsert_parsed core none = core
  upsert_parsed core (some flag) = Store.upsert_flag ext core flag

  unfoldable pub upsert_flag_v2 : CheckgateCore → String → CheckgateCore
  unfolding Store.upsert_flag
  upsert_flag_v2 core json = upsert_parsed core (serde.parse_flag json)

  -- `rules_json.and_then(…).unwrap_or(…)`
  abbrev pub rules_of : Option String → ext.Value
  rules_of none = serde.array []
  rules_of (some json) = unwrap_or (serde.parse_json json) (serde.array [])

  unfoldable pub upsert_flag :
      CheckgateCore → String → Bool → Option ℕ → Option String → Option String → CheckgateCore
  unfolding Store.upsert_flag
  upsert_flag core key is_enabled rollout_percentage description rules_json = upsert_parsed core (
      serde.flag_of_json (
        flag_json serde key is_enabled (optional_number serde rollout_percentage)
          (optional_string serde description) (rules_of rules_json)))

  unfoldable pub delete_flag : CheckgateCore → String → CheckgateCore
  unfolding Store.delete_flag
  delete_flag core key = Store.delete_flag ext core key

  unfoldable pub clear_store : CheckgateCore → CheckgateCore
  unfolding clear
  clear_store core = clear ext core

  unfoldable pub is_enabled : CheckgateCore → String → String → List (String × String) → Bool
  unfolding get_flag evaluate
  is_enabled core flag_key user_key user_attributes = elim (get_flag ext core flag_key) [
    | none ↦ false
    | some flag ↦
        let ctx : UserContext = record { key = user_key; attributes = user_attributes } in
        evaluate ext flag ctx core
  ]

  unfoldable pub get_value : CheckgateCore → String → String → List (String × String) → String
  unfolding get_flag evaluate_variant
  get_value core flag_key user_key user_attributes = elim (get_flag ext core flag_key) [
    | none ↦ "null"
    | some flag ↦
        let ctx : UserContext = record { key = user_key; attributes = user_attributes } in
        let result = evaluate_variant ext flag ctx core in
        unwrap_or (serde.value_text result.value) "null"
  ]

  unfoldable pub get_variant : CheckgateCore → String → String → List (String × String) → String
  unfolding get_flag evaluate_variant
  get_variant core flag_key user_key user_attributes = elim (get_flag ext core flag_key) [
    | none ↦ "null"
    | some flag ↦
        let ctx : UserContext = record { key = user_key; attributes = user_attributes } in
        let result = evaluate_variant ext flag ctx core in
        unwrap_or (serde.result_text result) "null"
  ]
