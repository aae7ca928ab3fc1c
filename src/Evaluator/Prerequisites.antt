-- ===== src/Evaluator/Prerequisites.antt =====
-- Which flags are enabled for a user: the trees of prerequisites that grant a flag, and what the
-- evaluation returns. The trees are stated without depths, fuel or the code's tests.
pub mod Cycles
pub mod Results
use mathlib.Core.Path.{subst}
use checkgate.Common.{
  ℕ, zero, suc, ◌+◌, ◌-◌, ◌≤◌, ◌<◌, ◌≡◌, ◌↔◌, refl, ap, sym, ◌∙◌, inl, inr, Bool, true, false,
  Option, none, some, List, [], ◌∷◌, arith, all, is_empty, unwrap_or, Option-cases, Bool-cases,
  false-absurd, if◌then◌else◌,
}
use checkgate.External.{External}
use checkgate.Types.{FlagValue, bool, EvalResult, Prerequisite, Flag, UserContext}
use checkgate.Store.{FlagStore, get_flag}
use checkgate.Evaluator.Variants.{saturating_add, u64_max}
use checkgate.Evaluator.Depth.{evaluate_variant_at_depth-step}
use checkgate.Evaluator.Evaluate.{
  max_prerequisite_depth, disabled_result, serve, meets, prerequisite_met, prerequisites_satisfied,
  evaluate_step, evaluate_with, evaluate_variant_at_depth, evaluate_variant, evaluate,
}

module _ (ext : External) (ctx : UserContext) (store : FlagStore ext) where
  -- `Granted n f`: the flag `f` is on, passes its rules or its rollout, and each of its
  -- prerequisites is a flag of the store that is granted, by a tree of height below `n`, and
  -- serves the value required of it.
  mutual
    pub data Granted : ℕ → Flag ext.Value → Type 0 where
      leaf :
          {n : ℕ} {f : Flag ext.Value}
          → f.is_enabled ≡ true
          → f.prerequisites ≡ []
          → (serve ext f ctx).enabled ≡ true
          → Granted n f
      node :
          {n : ℕ} {f : Flag ext.Value}
          → f.is_enabled ≡ true
          → AllGranted n f.prerequisites
          → (serve ext f ctx).enabled ≡ true
          → Granted (suc n) f

    pub data AllGranted : ℕ → List (Prerequisite ext.Value) → Type 0 where
      done : {n : ℕ} → AllGranted n []
      more :
          {n : ℕ} {p : Prerequisite ext.Value} {ps : List (Prerequisite ext.Value)}
          → (g : Flag ext.Value) → get_flag ext store p.flag_key ≡ some g
          → Granted n g
          → meets ext p (serve ext g ctx) ≡ true
          → AllGranted n ps
          → AllGranted n (p ∷ ps)

  -- What an enabled step has established.
  step_enabled :
      (r : Flag ext.Value → EvalResult ext.Value) (f : Flag ext.Value) (depth : ℕ)
      → (evaluate_step ext r f ctx store depth).enabled ≡ true
      → (f.is_enabled ≡ true)
        × (prerequisites_satisfied ext r f store depth ≡ true)
        × ((serve ext f ctx).enabled ≡ true)
        × (evaluate_step ext r f ctx store depth ≡ serve ext f ctx)
  unfolding evaluate_step disabled_result
  step_enabled r f depth h = ground arith

  step_served :
      (r : Flag ext.Value → EvalResult ext.Value) (f : Flag ext.Value) (depth : ℕ)
      → f.is_enabled ≡ true
      → prerequisites_satisfied ext r f store depth ≡ true
      → evaluate_step ext r f ctx store depth ≡ serve ext f ctx
  unfolding evaluate_step
  step_served r f depth on ok = ground arith

  -- An evaluation that agrees with the trees of a height, and serves what it enables.
  record Agrees (r : Flag ext.Value → EvalResult ext.Value) (n : ℕ) : Type 0 where
    granted : (g : Flag ext.Value) → (r g).enabled ≡ true → Granted n g
    enabled : (g : Flag ext.Value) → Granted n g → r g ≡ serve ext g ctx
    served : (g : Flag ext.Value) → (r g).enabled ≡ true → r g ≡ serve ext g ctx

  meets-enabled :
      (p : Prerequisite ext.Value) (r : EvalResult ext.Value)
      → meets ext p r ≡ true
      → r.enabled ≡ true
  unfolding meets
  meets-enabled p r h = ground arith

  module _ {r : Flag ext.Value → EvalResult ext.Value} {n : ℕ} (a : Agrees r n) where
    AllGranted-of_all :
        (ps : List (Prerequisite ext.Value))
        → all (prerequisite_met ext r store) ps ≡ true
        → AllGranted n ps
    unfolding prerequisite_met
    AllGranted-of_all [] h = done
    AllGranted-of_all (p ∷ ps) h = elim (Option-cases (get_flag ext store p.flag_key)) [
      | inl missing ↦ ground arith
      | inr (g, found) ↦
          let met : meets ext p (r g) ≡ true = ground arith in
          let on = meets-enabled p (r g) met in
          more g found (a.granted g on) (rw (a.served g on) at met)
            (AllGranted-of_all ps (ground arith))
    ]

    all-AllGranted :
        {ps : List (Prerequisite ext.Value)}
        → AllGranted n ps
        → all (prerequisite_met ext r store) ps ≡ true
    unfolding prerequisite_met
    all-AllGranted done = refl
    all-AllGranted (more g found granted met rest) =
        ground (arith, found, a.enabled g granted, met, all-AllGranted rest)

  unmet_or_all :
      (r : Flag ext.Value → EvalResult ext.Value) (f : Flag ext.Value) (depth : ℕ)
      → prerequisites_satisfied ext r f store depth ≡ true
      → all (prerequisite_met ext r store) f.prerequisites ≡ true
  unfolding prerequisites_satisfied
  unmet_or_all r f depth h = ground arith

  none_below :
      (r : Flag ext.Value → EvalResult ext.Value) (f : Flag ext.Value) (depth : ℕ)
      → max_prerequisite_depth ≤ depth
      → prerequisites_satisfied ext r f store depth ≡ true
      → f.prerequisites ≡ []
  unfolding prerequisites_satisfied
  none_below r f depth deep h = ground arith

  satisfied_none :
      (r : Flag ext.Value → EvalResult ext.Value) (f : Flag ext.Value) (depth : ℕ)
      → f.prerequisites ≡ []
      → prerequisites_satisfied ext r f store depth ≡ true
  unfolding prerequisites_satisfied
  satisfied_none r f depth h = rw h

  satisfied_all :
      (r : Flag ext.Value → EvalResult ext.Value) (f : Flag ext.Value) (depth : ℕ)
      → depth < max_prerequisite_depth
      → all (prerequisite_met ext r store) f.prerequisites ≡ true
      → prerequisites_satisfied ext r f store depth ≡ true
  unfolding prerequisites_satisfied
  satisfied_all r f depth shallow h = ground arith

  -- A step below the greatest depth, over an evaluation that agrees with the trees one lower.
  step_Agrees :
      {r : Flag ext.Value → EvalResult ext.Value} {n : ℕ} (depth : ℕ)
      → depth < max_prerequisite_depth
      → Agrees r n
      → Agrees (λ f. evaluate_step ext r f ctx store depth) (suc n)
  step_Agrees {r} {n} depth shallow a = record {
    granted = λ f h.
        let (on, ok, serves, same) = step_enabled r f depth h in
        node on (AllGranted-of_all a f.prerequisites (unmet_or_all r f depth ok)) serves;
    enabled = grants;
    served = λ f h. (step_enabled r f depth h).3;
  }
    where
      grants :
          (f : Flag ext.Value)
          → Granted (suc n) f
          → evaluate_step ext r f ctx store depth ≡ serve ext f ctx
      grants f (leaf on empty serves) = step_served r f depth on (satisfied_none r f depth empty)
      grants f (node on met serves) =
          step_served r f depth on (satisfied_all r f depth shallow (all-AllGranted a met))

  -- A step at the greatest depth.
  last_Agrees :
      (r : Flag ext.Value → EvalResult ext.Value) (depth : ℕ)
      → max_prerequisite_depth ≤ depth
      → Agrees (λ f. evaluate_step ext r f ctx store depth) zero
  last_Agrees r depth deep = record {
    granted = λ f h.
        let (on, ok, serves, same) = step_enabled r f depth h in
        leaf on (none_below r f depth deep ok) serves;
    enabled = grants;
    served = λ f h. (step_enabled r f depth h).3;
  }
    where
      grants :
          (f : Flag ext.Value)
          → Granted zero f
          → evaluate_step ext r f ctx store depth ≡ serve ext f ctx
      grants f (leaf on empty serves) = step_served r f depth on (satisfied_none r f depth empty)

  evaluate_with-Agrees :
      (n depth : ℕ)
      → n + depth ≡ max_prerequisite_depth
      → Agrees (λ f. evaluate_with ext n f ctx store depth) n
  unfolding evaluate_with
  evaluate_with-Agrees zero depth h = last_Agrees disabled_result depth (omega arith)
  evaluate_with-Agrees (suc n) depth h =
      step_Agrees depth (omega arith)
        (evaluate_with-Agrees n (saturating_add u64_max depth 1) (omega arith))

  Granted-serves : {n : ℕ} {f : Flag ext.Value} → Granted n f → (serve ext f ctx).enabled ≡ true
  Granted-serves (leaf on empty serves) = serves
  Granted-serves (node on met serves) = serves

  -- A flag is enabled for a user exactly when it is granted by a tree of prerequisites at most ten
  -- levels deep: in it every flag is on, stands in the store, passes its own rules or its rollout
  -- and serves the value that is required of it.
  pub evaluate_iff : (f : Flag ext.Value) → (evaluate ext f ctx store ≡ true) ↔ Granted 10 f
  unfolding evaluate evaluate_variant evaluate_variant_at_depth
  evaluate_iff f =
      let a = evaluate_with-Agrees 10 0 refl in
      (
        λ h. a.granted f h,
        λ g. ap (λ (x : EvalResult ext.Value). x.enabled) (a.enabled f g) ∙ Granted-serves g,
      )
