-- ===== src/Evaluator/Prerequisites/Results.antt =====
-- What `evaluate_variant` of core/src/evaluator.rs returns, of flags that are granted and of others.
use mathlib.Core.Path.{subst}
use checkgate.Common.{
  ℕ, ◌≡◌, refl, sym, ◌∙◌, inl, inr, false, Option, none, some, arith, unwrap_or, Bool-cases,
  false-absurd, if◌then◌else◌,
}
use checkgate.External.{External}
use checkgate.Types.{FlagValue, bool, EvalResult, Flag, UserContext}
use checkgate.Store.{FlagStore}
use checkgate.Evaluator.Variants.{saturating_add, u64_max}
use checkgate.Evaluator.Depth.{evaluate_variant_at_depth-step}
use checkgate.Evaluator.Evaluate.{
  disabled_result, serve, evaluate_step, evaluate_variant_at_depth, evaluate_variant, evaluate,
}
use checkgate.Evaluator.Prerequisites.{Granted, evaluate_iff}

module _ (ext : External) (ctx : UserContext) (store : FlagStore ext) where
  step_result :
      (r : Flag ext.Value → EvalResult ext.Value) (f : Flag ext.Value) (depth : ℕ)
      → evaluate_step ext r f ctx store depth ≡ (
          if (evaluate_step ext r f ctx store depth).enabled
          then serve ext f ctx
          else disabled_result f)
  unfolding evaluate_step serve disabled_result
  step_result r f depth = ground arith

  -- What an evaluation returns: of a flag that is granted what it serves by its own rules and rollout, and of
  -- any other flag the value for users it is disabled for, which is false unless the flag has its own.
  pub data IsResult (f : Flag ext.Value) : EvalResult ext.Value → Type 0 where
    granted : Granted ext ctx store 10 f → IsResult f (serve ext f ctx)
    denied_value :
        (v : FlagValue ext.Value)
        → ¬ Granted ext ctx store 10 f
        → f.disabled_value ≡ some v
        → IsResult f (record { enabled = false; value = v })
    denied :
        ¬ Granted ext ctx store 10 f
        → f.disabled_value ≡ none
        → IsResult f (record { enabled = false; value = bool false })

  denied-IsResult :
      (f : Flag ext.Value) (own : Option (FlagValue ext.Value))
      → ¬ Granted ext ctx store 10 f
      → f.disabled_value ≡ own
      → IsResult f (record { enabled = false; value = unwrap_or own (bool false) })
  denied-IsResult f none g e = denied g e
  denied-IsResult f (some v) g e = denied_value v g e

  disabled-IsResult :
      (f : Flag ext.Value) → ¬ Granted ext ctx store 10 f → IsResult f (disabled_result f)
  unfolding disabled_result
  disabled-IsResult f g = denied-IsResult f f.disabled_value g refl

  evaluate_variant-cases :
      (f : Flag ext.Value)
      → evaluate_variant ext f ctx store
        ≡ (if evaluate ext f ctx store then serve ext f ctx else disabled_result f)
  unfolding evaluate evaluate_variant
  evaluate_variant-cases f =
      let deeper = λ (g : Flag ext.Value).
        evaluate_variant_at_depth ext g ctx store (saturating_add u64_max 0 1) in
      subst
        (λ (x : EvalResult ext.Value).
          x ≡ (if x.enabled then serve ext f ctx else disabled_result f))
        (sym (evaluate_variant_at_depth-step ext ctx store f 0)) (step_result deeper f 0)

  -- An evaluation returns what the flag serves by its own rules and rollout, when the flag is granted by a tree
  -- of prerequisites at most ten levels deep, and else the flag's value for users it is disabled for, or
  -- false: no other value comes back.
  pub evaluate_variant-IsResult :
      (f : Flag ext.Value) → IsResult f (evaluate_variant ext f ctx store)
  evaluate_variant-IsResult f =
      let (sound, complete) = evaluate_iff ext ctx store f in
      let same = evaluate_variant-cases f in
      elim (Bool-cases (evaluate ext f ctx store)) [
        | inl e ↦ subst (IsResult f) (sym (rw e at same)) (granted (sound e))
        | inr e ↦
            subst (IsResult f) (sym (rw e at same))
              (disabled-IsResult f (λ g. false-absurd (sym e ∙ complete g)))
      ]
