-- ===== src/Evaluator/Tests.antt =====
-- Runs of the evaluator, and its theorems at inputs that reach the code.
use checkgate.Common.{
  ◌%◌, ◌<◌, String, ◌≡◌, ◌≢◌, ◌↔◌, ◌⊎◌, refl, inl, inr, true, false, none, some, List, [], ◌∷◌,
  arith,
}
use checkgate.External.Concrete.{without, dedup, weighted_sum, digits, concrete}
use checkgate.Text.{contains, starts_with, ends_with, trim}
use checkgate.Text.Bytes.{as_bytes}
use checkgate.Types.{
  Operator, FlagType, str, null, TargetingRule, WeightedVariant, Prerequisite, Flag, UserContext,
}
use checkgate.Store.{FlagStore, new, upsert_flag, get_flag}
use checkgate.Evaluator.Hashing.{murmurhash3_x86_32}
use checkgate.Evaluator.Rules.{numeric_cmp, operator_matches, rule_matches}
use checkgate.Evaluator.Rules.Laws.{RuleHolds, rule_matches_iff}
use checkgate.Evaluator.Variants.{
  saturating_add, u64_max, bucket_of, variant_hash, pick_weighted_variant,
}
use checkgate.Evaluator.Variants.Laws.{weight_sum, pick_weighted_variant-stretch}
use checkgate.Evaluator.Variants.Rescaling.{weighted, split, pick-rescaled}
use checkgate.Evaluator.Evaluate.{
  disabled_result, rule_value, matching_rule, rollout_hash, outside_rollout, served_value, meets,
  prerequisite_met, prerequisites_satisfied, serve, evaluate_step, evaluate_with,
  evaluate_variant_at_depth, evaluate_variant, evaluate,
}
use checkgate.Evaluator.Depth.{evaluate_variant_at_depth-step}
use checkgate.Evaluator.Prerequisites.{Granted, evaluate_iff}
use checkgate.Evaluator.Prerequisites.Results.{IsResult, evaluate_variant-IsResult}
use checkgate.Evaluator.Prerequisites.Cycles.{Leads, evaluate-stuck}
use checkgate.Evaluator.Rollout.{at_rollout, evaluate_variant-rollout_sticky, serve-rollout_iff}

-- Opens all that an evaluation calls.
evaluator : Unit {0}
unfolding contains starts_with ends_with trim as_bytes new upsert_flag get_flag murmurhash3_x86_32
    numeric_cmp operator_matches rule_matches pick_weighted_variant disabled_result rule_value
    matching_rule outside_rollout served_value meets prerequisite_met prerequisites_satisfied serve
    evaluate_step evaluate_with evaluate_variant_at_depth evaluate_variant evaluate without dedup
    weighted_sum digits
evaluator = tt

abbrev plain : String → Flag String
plain key = record {
  key = key;
  is_enabled = true;
  rollout_percentage = none;
  description = none;
  rules = [];
  flag_type = FlagType.boolean;
  default_value = none;
  disabled_value = none;
  variants = [];
  prerequisites = [];
}

abbrev needs : String → Prerequisite String
needs key = record { flag_key = key; required_value = none }

abbrev user : UserContext
user = record { key = "u1"; attributes = ("plan", "pro") ∷ ("age", " 30 ") ∷ [] }

abbrev parent : Flag String
parent = record (plain "parent") { prerequisites = needs "child" ∷ [] }

-- Two flags that require one another.
abbrev ping : Flag String
ping = record (plain "ping") { prerequisites = needs "pong" ∷ [] }

abbrev pong : Flag String
pong = record (plain "pong") { prerequisites = needs "ping" ∷ [] }

abbrev store : FlagStore concrete
store = ("child", plain "child") ∷ ("parent", parent) ∷ ("ping", ping) ∷ ("pong", pong) ∷ []

evaluate_runs :
    (evaluate concrete parent user store ≡ true)
    × (evaluate concrete ping user store ≡ false)
    × (evaluate concrete (record parent { is_enabled = false }) user store ≡ false)
    × (evaluate concrete (at_rollout parent 0) user store ≡ false)
unfolding evaluator
evaluate_runs = (refl, refl, refl, refl)

-- The rollout bucket of the user under `parent` is 68.
rollout_runs :
    (evaluate concrete (at_rollout parent 68) user store ≡ false)
    × (evaluate concrete (at_rollout parent 70) user store ≡ true)
unfolding evaluator
rollout_runs = (refl, refl)

evaluate_iff_example :
    (evaluate concrete parent user store ≡ true) ↔ Granted concrete user store 10 parent
evaluate_iff_example = evaluate_iff concrete user store parent

evaluate_variant-IsResult_example :
    IsResult concrete user store ping (evaluate_variant concrete ping user store)
evaluate_variant-IsResult_example = evaluate_variant-IsResult concrete user store ping

evaluate_variant_at_depth-step_example :
    evaluate_variant_at_depth concrete ping user store 10
    ≡ evaluate_step concrete
        (λ g. evaluate_variant_at_depth concrete g user store (saturating_add u64_max 10 1))
        ping
        user
        store
        10
evaluate_variant_at_depth-step_example = evaluate_variant_at_depth-step concrete user store ping 10

-- The two flags of the cycle, told apart by their keys.
abbrev InCycle : Flag String → Type 0
InCycle f = ((f ≡ ping) ⊎ (f ≡ pong))

cycle-Leads : (f : Flag String) → InCycle f → Leads concrete user store InCycle f
unfolding get_flag
cycle-Leads f (inl e) = (needs "pong", rw e (inl refl), inr (pong, refl, inr refl))
cycle-Leads f (inr e) = (needs "ping", rw e (inl refl), inr (ping, refl, inl refl))

evaluate-stuck_example : evaluate concrete ping user store ≡ false
evaluate-stuck_example = evaluate-stuck concrete user store InCycle cycle-Leads ping (inl refl)

evaluate_variant-rollout_sticky_example :
    evaluate_variant concrete (at_rollout parent 90) user store
    ≡ evaluate_variant concrete (at_rollout parent 70) user store
evaluate_variant-rollout_sticky_example =
    evaluate_variant-rollout_sticky concrete user store parent 70 90 (omega arith) rollout_runs.1

serve-rollout_iff_example :
    ((serve concrete (at_rollout parent 70) user).enabled ≡ true)
    ↔ (rollout_hash concrete parent user % 100 < 70)
unfolding matching_rule
serve-rollout_iff_example = serve-rollout_iff concrete user parent 70 refl

abbrev rule : String → Operator → String → TargetingRule String
rule attribute operator value = record {
  attribute = attribute;
  operator = operator;
  values = value ∷ [];
  segment_key = none;
  variant = some (str value);
}

abbrev too_old : TargetingRule String
too_old = rule "age" Operator.greater_than "65"

abbrev is_pro : TargetingRule String
is_pro = rule "plan" Operator.starts_with "pr"

rule_runs :
    (rule_matches concrete too_old user ≡ false)
    × (rule_matches concrete is_pro user ≡ true)
    × (rule_matches concrete (rule "age" Operator.less_than_or_equal "30") user ≡ true)
    × (rule_matches concrete (rule "org" Operator.not_equals "acme") user ≡ true)
    × (rule_matches concrete (rule "org" Operator.equals "acme") user ≡ false)
unfolding evaluator
rule_runs = (refl, refl, refl, refl, refl)

rule_matches_iff_example :
    (rule_matches concrete too_old user ≡ true) ↔ RuleHolds concrete too_old user
rule_matches_iff_example = rule_matches_iff concrete too_old user

-- A flag with targeting rules, at a rollout of nobody.
abbrev targeted : Flag String
targeted = record (plain "targeted") {
  rules = too_old ∷ is_pro ∷ too_old ∷ [];
  rollout_percentage = some 0;
}

abbrev variants : List (WeightedVariant String)
variants = split 10 30 60 (str "control") (str "a") (str "b")

-- The variant bucket of the user `u1` under the key `checkout` is 15.
pick_weighted_variant-stretch_example :
    pick_weighted_variant concrete "checkout" "u1" variants ≡ str "a"
unfolding evaluator weight_sum variant_hash bucket_of
pick_weighted_variant-stretch_example =
    pick_weighted_variant-stretch concrete "checkout" "u1" (weighted 10 (str "control") ∷ [])
      (weighted 30 (str "a")) (weighted 60 (str "b") ∷ []) (omega arith) (omega arith) (omega arith)

-- That of `u11` is 48, so 8 modulo 10.
pick-rescaled_example :
    (pick_weighted_variant concrete "checkout" "u11" (split 60 30 10 (str "a") null (str "c"))
      ≡ str "a")
    × (pick_weighted_variant concrete "checkout" "u11" (split 6 3 1 (str "a") null (str "c"))
        ≡ null)
    × (pick_weighted_variant concrete "checkout" "u11" (split 60 30 10 (str "a") null (str "c"))
        ≢ pick_weighted_variant concrete "checkout" "u11" (split 6 3 1 (str "a") null (str "c")))
unfolding evaluator variant_hash
pick-rescaled_example =
    pick-rescaled concrete "checkout" "u11" (str "a") null (str "c") 10 6 3 1 (omega arith)
      (omega arith) (omega arith) (omega arith) (omega arith) (λ e. cc)
