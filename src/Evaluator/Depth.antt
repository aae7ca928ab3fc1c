-- ===== src/Evaluator/Depth.antt =====
-- The recursion through prerequisites of core/src/evaluator.rs: its fuel, and the source's equation.
use mathlib.Core.Path.{fun_ext}
use checkgate.Common.{
  ℕ, zero, suc, ◌+◌, ◌-◌, ◌≤◌, ◌≡◌, refl, ap, ◌∙◌, inl, inr, arith, leb, Bool-cases,
}
use checkgate.External.{External}
use checkgate.Types.{EvalResult, Flag, UserContext}
use checkgate.Store.{FlagStore}
use checkgate.Evaluator.Variants.{saturating_add, u64_max}
use checkgate.Evaluator.Evaluate.{
  max_prerequisite_depth, prerequisites_satisfied, evaluate_step, evaluate_with,
  evaluate_variant_at_depth,
}

module _ (ext : External) (ctx : UserContext) (store : FlagStore ext) where
  -- From the greatest depth on, a step does not ask for a deeper evaluation.
  prerequisites_satisfied_guarded :
      (r r' : Flag ext.Value → EvalResult ext.Value) (f : Flag ext.Value) (depth : ℕ)
      → max_prerequisite_depth ≤ depth
      → prerequisites_satisfied ext r f store depth ≡ prerequisites_satisfied ext r' f store depth
  unfolding prerequisites_satisfied
  prerequisites_satisfied_guarded r r' f depth h = ground arith

  evaluate_step_guarded :
      (r r' : Flag ext.Value → EvalResult ext.Value) (f : Flag ext.Value) (depth : ℕ)
      → max_prerequisite_depth ≤ depth
      → evaluate_step ext r f ctx store depth ≡ evaluate_step ext r' f ctx store depth
  unfolding evaluate_step
  evaluate_step_guarded r r' f depth h = rw (prerequisites_satisfied_guarded r r' f depth h)

  evaluate_with_fuel :
      (m n : ℕ) (f : Flag ext.Value) (depth : ℕ)
      → max_prerequisite_depth ≤ m + depth
      → max_prerequisite_depth ≤ n + depth
      → evaluate_with ext m f ctx store depth ≡ evaluate_with ext n f ctx store depth
  unfolding evaluate_with
  evaluate_with_fuel zero zero f depth h k = refl
  evaluate_with_fuel zero (suc n) f depth h k = evaluate_step_guarded _ _ f depth (omega arith)
  evaluate_with_fuel (suc m) zero f depth h k = evaluate_step_guarded _ _ f depth (omega arith)
  evaluate_with_fuel (suc m) (suc n) f depth h k =
      elim (Bool-cases (leb max_prerequisite_depth depth)) [
        | inl deep ↦ evaluate_step_guarded _ _ f depth (ground arith)
        | inr shallow ↦
            ap (λ r. evaluate_step ext r f ctx store depth)
              (fun_ext λ g.
                evaluate_with_fuel m n g (saturating_add u64_max depth 1) (ground arith)
                  (ground arith))
      ]

  -- At every depth the evaluation is one step of the source's function, in which each prerequisite
  -- is evaluated by the same function one level deeper: the fuel never runs out.
  pub evaluate_variant_at_depth-step :
      (f : Flag ext.Value) (depth : ℕ)
      → evaluate_variant_at_depth ext f ctx store depth
        ≡ evaluate_step ext
            (λ g. evaluate_variant_at_depth ext g ctx store (saturating_add u64_max depth 1))
            f
            ctx
            store
            depth
  unfolding evaluate_variant_at_depth evaluate_with
  evaluate_variant_at_depth-step f depth =
      let room = max_prerequisite_depth - depth in
      evaluate_with_fuel room (suc room) f depth (omega arith) (omega arith)
      ∙ ap (λ r. evaluate_step ext r f ctx store depth)
          (fun_ext λ g.
            evaluate_with_fuel room (max_prerequisite_depth - saturating_add u64_max depth 1) g
              (saturating_add u64_max depth 1) (omega arith) (omega arith))
