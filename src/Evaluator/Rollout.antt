-- ===== src/Evaluator/Rollout.antt =====
-- Rollout percentages and targeting rules: who is served, and what raising a percentage changes.
use checkgate.Common.{
  ℕ, ◌%◌, ◌≤◌, ◌<◌, ◌≡◌, ◌↔◌, ap, sym, ◌∙◌, true, false, none, some, List, [], ◌∷◌, ◌++◌, All,
  arith,
}
use checkgate.External.{External}
use checkgate.Types.{EvalResult, TargetingRule, Flag, UserContext}
use checkgate.Store.{FlagStore}
use checkgate.Evaluator.Rules.{rule_matches}
use checkgate.Evaluator.Depth.{evaluate_variant_at_depth-step}
use checkgate.Evaluator.Evaluate.{
  disabled_result, rule_value, matching_rule, rollout_hash, outside_rollout, served_value, serve,
  prerequisites_satisfied, evaluate_step, evaluate_variant, evaluate,
}

-- The flag at a rollout percentage.
abbrev pub at_rollout : {V : Type 0} → Flag V → ℕ → Flag V
at_rollout f percentage = record f { rollout_percentage = some percentage }

module _ (ext : External) (ctx : UserContext) where
  inside_grows :
      (f : Flag ext.Value) (p q : ℕ)
      → p ≤ q
      → outside_rollout ext (at_rollout f p) ctx ≡ false
      → outside_rollout ext (at_rollout f q) ctx ≡ false
  unfolding outside_rollout
  inside_grows f p q h inside = ground arith

  serve_grows :
      (f : Flag ext.Value) (p q : ℕ)
      → p ≤ q
      → (serve ext (at_rollout f p) ctx).enabled ≡ true
      → serve ext (at_rollout f q) ctx ≡ serve ext (at_rollout f p) ctx
  unfolding serve disabled_result rule_value served_value
  serve_grows f p q h on = ground (arith, inside_grows f p q h)

  matching_rule_first :
      (before after : List (TargetingRule ext.Value)) (rule : TargetingRule ext.Value)
      → All (λ r. rule_matches ext r ctx ≡ false) before
      → rule_matches ext rule ctx ≡ true
      → matching_rule ext (before ++ rule ∷ after) ctx ≡ some rule
  unfolding matching_rule
  matching_rule_first [] after rule missed hit = rw hit
  matching_rule_first (r ∷ before) after rule (miss, missed) hit =
      rw miss (matching_rule_first before after rule missed hit)

  -- With a rule that matches and none before it, the flag serves that rule's value (else the flag's
  -- default, else that of its type), whatever the rollout and the variants say.
  pub serve-first_match :
      (f : Flag ext.Value) (before after : List (TargetingRule ext.Value))
      (rule : TargetingRule ext.Value)
      → f.rules ≡ before ++ rule ∷ after
      → All (λ r. rule_matches ext r ctx ≡ false) before
      → rule_matches ext rule ctx ≡ true
      → serve ext f ctx ≡ record { enabled = true; value = rule_value f rule }
  unfolding serve
  serve-first_match f before after rule e missed hit =
      let found : matching_rule ext f.rules ctx ≡ some rule =
        ap (λ rs. matching_rule ext rs ctx) e ∙ matching_rule_first before after rule missed hit in
      rw (found, serve)

  module _ (store : FlagStore ext) where
    step_grows :
        (r : Flag ext.Value → EvalResult ext.Value) (f : Flag ext.Value) (p q : ℕ)
        → p ≤ q
        → (evaluate_step ext r (at_rollout f p) ctx store 0).enabled ≡ true
        → evaluate_step ext r (at_rollout f q) ctx store 0
          ≡ evaluate_step ext r (at_rollout f p) ctx store 0
    unfolding evaluate_step disabled_result prerequisites_satisfied
    step_grows r f p q h on = ground (arith, serve_grows f p q h)

    -- Rollouts are sticky: when the percentage of a flag is raised, each user for whom it was enabled
    -- keeps the same result, value and all.
    pub evaluate_variant-rollout_sticky :
        (f : Flag ext.Value) (p q : ℕ)
        → p ≤ q
        → evaluate ext (at_rollout f p) ctx store ≡ true
        → evaluate_variant ext (at_rollout f q) ctx store
          ≡ evaluate_variant ext (at_rollout f p) ctx store
    unfolding evaluate evaluate_variant
    evaluate_variant-rollout_sticky f p q h on =
        let step = λ (n : ℕ). evaluate_variant_at_depth-step ext ctx store (at_rollout f n) 0 in
        let on' = ap (λ (x : EvalResult ext.Value). x.enabled) (sym (step p)) ∙ on in
        step q ∙ step_grows _ f p q h on' ∙ sym (step p)

  -- With no matching rule, a flag is served to exactly the users whose hash modulo 100 is below the
  -- percentage: to nobody at 0, and to everybody at 100 and above.
  pub serve-rollout_iff :
      (f : Flag ext.Value) (p : ℕ)
      → matching_rule ext f.rules ctx ≡ none
      → ((serve ext (at_rollout f p) ctx).enabled ≡ true) ↔ (rollout_hash ext f ctx % 100 < p)
  unfolding serve outside_rollout disabled_result
  serve-rollout_iff f p none_matches = (λ h. ground arith, λ h. ground arith)
