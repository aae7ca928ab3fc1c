-- ===== src/Evaluator/Evaluate.antt =====
-- `evaluate`, `evaluate_variant` and the check of prerequisites of core/src/evaluator.rs.
--
-- The source recurs through `prerequisites_satisfied`, one level deeper at each prerequisite. Here
-- `evaluate_step` is its body, with the evaluation one level deeper as the argument `recur`;
-- `evaluate_with` ties the knot on fuel, and `evaluate_variant_at_depth` gives the fuel
-- `max_prerequisite_depth - depth`.
use Prim.Native.String.{◌++◌ as append}
use checkgate.Common.{
  ℕ, zero, suc, ◌-◌, ◌%◌, Bool, true, false, not, ◌&&◌, Option, none, some, List, [], ◌∷◌, all,
  is_empty, unwrap_or, or_else, ltb, leb, ◌==◌, if◌then◌else◌,
}
use checkgate.External.{External}
use checkgate.Text.Bytes.{as_bytes}
use checkgate.Types.{
  FlagType, FlagValue, bool, null, EvalResult, TargetingRule, Prerequisite, Flag, UserContext,
  same_value,
}
use checkgate.Store.{FlagStore, get_flag}
use checkgate.Evaluator.Hashing.{murmurhash3_x86_32}
use checkgate.Evaluator.Rules.{rule_matches}
use checkgate.Evaluator.Variants.{pick_weighted_variant, saturating_add, u64_max}

module _ {V : Type 0} where
  abbrev pub default_of : FlagType → FlagValue V
  default_of FlagType.boolean = bool true
  default_of _ = null

  unfoldable pub enabled_default : Flag V → FlagValue V
  enabled_default flag = default_of flag.flag_type

  unfoldable pub disabled_result : Flag V → EvalResult V
  disabled_result flag = record {
    enabled = false;
    value = unwrap_or flag.disabled_value (bool false);
  }

  -- `rule.variant`, else the flag's default value, else that of its type
  unfoldable pub rule_value : Flag V → TargetingRule V → FlagValue V
  unfolding enabled_default
  rule_value flag rule = unwrap_or (or_else rule.variant flag.default_value) (enabled_default flag)

abbrev pub max_prerequisite_depth : ℕ
max_prerequisite_depth = 10

module _ (ext : External) where
  -- the loop over the targeting rules: the first that matches
  unfoldable pub matching_rule :
      List (TargetingRule ext.Value) → UserContext → Option (TargetingRule ext.Value)
  matching_rule [] user_context = none
  matching_rule (rule ∷ rules) user_context =
      let rest = matching_rule rules user_context in
      if rule_matches ext rule user_context then some rule else rest

  unfoldable pub rollout_hash : Flag ext.Value → UserContext → ℕ
  rollout_hash flag user_context =
      murmurhash3_x86_32 ext (as_bytes (append flag.key (append ":" user_context.key))) 0

  -- the rollout bucket check: is the user left out?
  unfoldable pub outside_rollout : Flag ext.Value → UserContext → Bool
  unfolding rollout_hash
  outside_rollout flag user_context = elim flag.rollout_percentage [
    | none ↦ false
    | some percentage ↦
        if percentage == 0
        then true
        else if ltb percentage 100
        then leb percentage (rollout_hash flag user_context % 100)
        else false
  ]

  -- the value of an enabled flag with no matching rule
  unfoldable pub served_value : Flag ext.Value → UserContext → FlagValue ext.Value
  unfolding enabled_default
  served_value flag user_context =
      if not (is_empty flag.variants)
      then pick_weighted_variant ext flag.key user_context.key flag.variants
      else unwrap_or flag.default_value (enabled_default flag)

  -- is the result what the prerequisite requires?
  unfoldable pub meets : Prerequisite ext.Value → EvalResult ext.Value → Bool
  meets prereq result = elim prereq.required_value [
    | some required ↦ result.enabled && same_value ext.value_eq result.value required
    | none ↦ result.enabled
  ]

  -- the closure that `prerequisites_satisfied` gives to `all`
  unfoldable pub prerequisite_met :
      (Flag ext.Value → EvalResult ext.Value) → FlagStore ext → Prerequisite ext.Value → Bool
  unfolding meets
  prerequisite_met recur store prereq = elim (get_flag ext store prereq.flag_key) [
    | none ↦ false
    | some prereq_flag ↦ meets prereq (recur prereq_flag)
  ]

  unfoldable pub prerequisites_satisfied :
      (Flag ext.Value → EvalResult ext.Value) → Flag ext.Value → FlagStore ext → ℕ → Bool
  prerequisites_satisfied recur flag store depth =
      if is_empty flag.prerequisites
      then true
      else if leb max_prerequisite_depth depth
      then false
      else all (prerequisite_met recur store) flag.prerequisites

  -- the targeting rules, the rollout and the value, in the source's order
  unfoldable pub serve : Flag ext.Value → UserContext → EvalResult ext.Value
  serve flag user_context = elim (matching_rule flag.rules user_context) [
    | some rule ↦ record { enabled = true; value = rule_value flag rule }
    | none ↦
        if outside_rollout flag user_context
        then disabled_result flag
        else record { enabled = true; value = served_value flag user_context }
  ]

  unfoldable pub evaluate_step :
      (Flag ext.Value → EvalResult ext.Value)
      → Flag ext.Value
      → UserContext
      → FlagStore ext
      → ℕ
      → EvalResult ext.Value
  evaluate_step recur flag user_context store depth =
      if not flag.is_enabled
      then disabled_result flag
      else if not (prerequisites_satisfied recur flag store depth)
      then disabled_result flag
      else serve flag user_context

  -- With no fuel left `recur` is not called: see Depth.
  unfoldable pub evaluate_with :
      ℕ → Flag ext.Value → UserContext → FlagStore ext → ℕ → EvalResult ext.Value
  evaluate_with zero flag user_context store depth =
      evaluate_step disabled_result flag user_context store depth
  evaluate_with (suc fuel) flag user_context store depth =
      evaluate_step (λ f. evaluate_with fuel f user_context store (saturating_add u64_max depth 1))
        flag user_context store depth

  unfoldable pub evaluate_variant_at_depth :
      Flag ext.Value → UserContext → FlagStore ext → ℕ → EvalResult ext.Value
  evaluate_variant_at_depth flag user_context store depth =
      evaluate_with (max_prerequisite_depth - depth) flag user_context store depth

  unfoldable pub evaluate_variant :
      Flag ext.Value → UserContext → FlagStore ext → EvalResult ext.Value
  evaluate_variant flag user_context store = evaluate_variant_at_depth flag user_context store 0

  unfoldable pub evaluate : Flag ext.Value → UserContext → FlagStore ext → Bool
  evaluate flag user_context store = (evaluate_variant flag user_context store).enabled
