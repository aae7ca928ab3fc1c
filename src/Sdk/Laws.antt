-- ===== src/Sdk/Laws.antt =====
-- The bindings beside each other, and beside the evaluator on what the last calls left in the store.
use checkgate.Common.{
  ℕ, String, ◌≡◌, ◌↔◌, sym, inl, inr, ◌∙◌, Bool, true, Option, none, some, List, [], ◌∷◌, arith,
  Option-cases,
}
use mathlib.Core.Path.{subst}
use checkgate.Status.{some_injective}
use checkgate.External.{External}
use checkgate.Types.{ℤ, pos, negsuc, FlagType, Flag, TargetingRule, UserContext}
use checkgate.Store.{FlagStore, get_flag}
use checkgate.Store.Laws.{Write, last_write, run, get_flag-run}
use checkgate.Evaluator.Prerequisites.{Granted, evaluate_iff}
use checkgate.Sdk.{Serde, flag_json, optional_number}
use checkgate.Sdk.Ffi.{
  alloc_cstring, at_most_100, of_bool, attributes_of, rules_of, checkgate_make_context,
  checkgate_is_enabled_ctx, checkgate_is_enabled, checkgate_upsert_flag, checkgate_get_value,
  checkgate_get_variant, eval_result_to_json, value_to_json,
}
use checkgate.Sdk.Node
use checkgate.Sdk.Web

module _ (ext : External) (serde : Serde ext.Value) where
  -- A context that is made once gives what the call that parses the attributes each time gives.
  pub checkgate_is_enabled_ctx-make_context :
      (store : FlagStore ext) (flag_key user_key : String) (attributes_json : Option String)
      → checkgate_is_enabled_ctx ext serde store flag_key
          (some (checkgate_make_context ext serde user_key attributes_json))
        ≡ checkgate_is_enabled ext serde store flag_key user_key attributes_json
  unfolding checkgate_is_enabled_ctx checkgate_make_context checkgate_is_enabled
  checkgate_is_enabled_ctx-make_context store flag_key user_key attributes_json = ground arith

  -- The C functions, the Node object and the browser's object agree on one store, for attributes that
  -- read the same: on whether a flag is enabled, and the C functions and the Node object on the texts.
  pub bindings_agree :
      (store : FlagStore ext) (flag_key user_key : String) (attributes_json : Option String)
      (attributes_js : serde.Js)
      → Web.attributes_of ext serde attributes_js ≡ attributes_of ext serde attributes_json
      → let attributes = attributes_of ext serde attributes_json in
        (checkgate_is_enabled ext serde store flag_key user_key attributes_json
          ≡ of_bool (Node.is_enabled ext serde store flag_key user_key attributes))
        × (Web.is_enabled ext serde store flag_key user_key attributes_js
            ≡ Node.is_enabled ext serde store flag_key user_key attributes)
        × (checkgate_get_value ext serde store flag_key user_key attributes_json
            ≡ alloc_cstring (Node.get_value ext serde store flag_key user_key attributes))
        × (checkgate_get_variant ext serde store flag_key user_key attributes_json
            ≡ alloc_cstring (Node.get_variant ext serde store flag_key user_key attributes))
  unfolding checkgate_is_enabled checkgate_get_value checkgate_get_variant value_to_json
      eval_result_to_json Node.is_enabled Node.get_value Node.get_variant Web.is_enabled
  bindings_agree store flag_key user_key attributes_json attributes_js same =
      elim (Option-cases (get_flag ext store flag_key)) [
        | inl n ↦ (ground arith, ground arith, ground arith, ground arith)
        | inr (flag, f) ↦ (
          ground arith,
          rw (f, Web.is_enabled, Node.is_enabled, same),
          ground arith,
          ground arith,
        )
      ]

  -- After any calls, the object says that a flag is enabled exactly when the last call about its key left
  -- a flag that its prerequisites, rules and rollout grant to the user.
  pub is_enabled-Granted :
      (ws : List (Write ext.Value)) (flag_key user_key : String)
      (attributes : List (String × String))
      → (Node.is_enabled ext serde (run ext ws) flag_key user_key attributes ≡ true) ↔ (
          (flag : Flag ext.Value) × (last_write ws flag_key ≡ some flag)
          × Granted ext (record { key = user_key; attributes = attributes }) (run ext ws) 10 flag)
  unfolding Node.is_enabled
  is_enabled-Granted ws flag_key user_key attributes =
      let ctx : UserContext = record { key = user_key; attributes = attributes } in
      elim (Option-cases (get_flag ext (run ext ws) flag_key)) [
        | inl n ↦ (
          λ h. cc (rw (n, Node.is_enabled) at h),
          λ (flag, e, g). cc (get_flag-run ext ws flag_key),
        )
        | inr (flag, f) ↦
            let (sound, complete) = evaluate_iff ext ctx (run ext ws) flag in
            (
              λ h. (
                flag,
                sym (get_flag-run ext ws flag_key) ∙ f,
                sound (rw (f, Node.is_enabled) at h),
              ),
              λ (other, e, g).
                  rw (f, Node.is_enabled)
                    (complete (
                      subst (Granted ext ctx (run ext ws) 10)
                        (some_injective (sym e ∙ sym (get_flag-run ext ws flag_key) ∙ f)) g)),
            )
      ]

  -- A flag that no call, or a delete or clear as the last call, has left is off for everybody: the
  -- C functions return 0 and `null`, also for a context that is null.
  pub off_when_absent :
      (ws : List (Write ext.Value)) (flag_key user_key : String) (attributes_json : Option String)
      (context : Option UserContext)
      → last_write ws flag_key ≡ none
      → (checkgate_is_enabled ext serde (run ext ws) flag_key user_key attributes_json ≡ 0)
        × (checkgate_is_enabled_ctx ext serde (run ext ws) flag_key context ≡ 0)
        × (checkgate_get_value ext serde (run ext ws) flag_key user_key attributes_json ≡ "null")
        × (checkgate_get_variant ext serde (run ext ws) flag_key user_key attributes_json ≡ "null")
  unfolding checkgate_is_enabled checkgate_is_enabled_ctx checkgate_get_value checkgate_get_variant
      alloc_cstring
  off_when_absent ws flag_key user_key attributes_json context e =
      let n = get_flag-run ext ws flag_key ∙ e in
      (
        rw (n, checkgate_is_enabled),
        rw (n, checkgate_is_enabled_ctx),
        rw (n, checkgate_get_value),
        rw (n, checkgate_get_variant),
      )

  -- The flag of the positional upsert: no percentage for a negative one, and at most 100.
  abbrev pub percentage_of : ℤ → Option ℕ
  percentage_of (negsuc p) = none
  percentage_of (pos p) = some (at_most_100 p)

  abbrev pub positional : String → Bool → Option ℕ → List (TargetingRule ext.Value) → Flag ext.Value
  positional key is_enabled rollout_percentage rules = record {
    key = key;
    is_enabled = is_enabled;
    rollout_percentage = rollout_percentage;
    description = none;
    rules = rules;
    flag_type = FlagType.boolean;
    default_value = none;
    disabled_value = none;
    variants = [];
    prerequisites = [];
  }

  -- The object of the five fields deserializes to the flag of these fields, the others at their
  -- defaults, if its rules deserialize.
  pub record ReadsFlags : Type 0 where
    pub read_rules : ext.Value → Option (List (TargetingRule ext.Value))
    pub read_flag :
        (key : String) (is_enabled : Bool) (rollout : Option ℕ) (json : ext.Value)
        (rules : List (TargetingRule ext.Value))
        → read_rules json ≡ some rules
        → serde.flag_of_json
            (flag_json serde key is_enabled (optional_number serde rollout) serde.null json)
          ≡ some (positional key is_enabled rollout rules)

  -- The positional upsert counts as an upsert of the flag with the rules it was given, with no percentage
  -- if the one given is negative, and otherwise with the smaller of it and 100.
  pub checkgate_upsert_flag-run :
      (reads : ReadsFlags) (ws : List (Write ext.Value)) (key : String) (is_enabled : Bool)
      (rollout : ℤ) (rules_json : Option String) (rules : List (TargetingRule ext.Value))
      (k : String)
      → reads.read_rules (rules_of ext serde rules_json) ≡ some rules
      → get_flag ext
          (checkgate_upsert_flag ext serde (run ext ws) key is_enabled rollout rules_json)
          k
        ≡ last_write (Write.upsert (positional key is_enabled (percentage_of rollout) rules) ∷ ws) k
  unfolding checkgate_upsert_flag run
  checkgate_upsert_flag-run reads ws key is_enabled (pos p) rules_json rules k h =
      rw
        (
          reads.read_flag key is_enabled (some (at_most_100 p)) (rules_of ext serde rules_json)
              rules h,
          checkgate_upsert_flag,
        )
        (get_flag-run ext
          (Write.upsert (positional key is_enabled (some (at_most_100 p)) rules) ∷ ws) k)
  checkgate_upsert_flag-run reads ws key is_enabled (negsuc p) rules_json rules k h =
      rw
        (
          reads.read_flag key is_enabled none (rules_of ext serde rules_json) rules h,
          checkgate_upsert_flag,
        )
        (get_flag-run ext (Write.upsert (positional key is_enabled none rules) ∷ ws) k)
