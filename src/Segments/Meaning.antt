-- ===== src/Segments/Meaning.antt =====
-- What a segment reference means to the evaluation, stated over the rules as they are stored.
use checkgate.Common.{
  ◌≡◌, refl, ap, ◌∙◌, inl, inr, true, not, ◌&&◌, Option, none, some, List, [], ◌∷◌, ◌++◌, map,
  arith, is_some, or_else, unwrap_or, lookup, any, Bool-cases, Option-cases, if◌then◌else◌,
}
use checkgate.External.{External}
use checkgate.Types.{FlagValue, EvalResult, TargetingRule, Flag, UserContext}
use checkgate.Evaluator.Rules.{rule_matches}
use checkgate.Evaluator.Evaluate.{
  enabled_default, disabled_result, rule_value, matching_rule, outside_rollout, served_value, serve,
}
use checkgate.Segments.{
  SegmentMap, inherit_variant, expand_rule, expand_rules, expand_flag_with_segments,
}
use checkgate.Segments.Laws.{rules-expand_flag}

module _ (ext : External) (ctx : UserContext) where
  -- the variant of the first rule that matches
  first_variant : List (TargetingRule ext.Value) → Option (Option (FlagValue ext.Value))
  first_variant rules = elim (matching_rule ext rules ctx) [
    | some rule ↦ some rule.variant
    | none ↦ none
  ]

  -- What a rule yields for the user, as stored: a plain rule its variant, if it matches; a reference
  -- what the first matching rule of the segment yields, with the reference's variant in the place
  -- of a missing one; a reference to no segment, nothing.
  pub yields :
      SegmentMap ext.Value → TargetingRule ext.Value → Option (Option (FlagValue ext.Value))
  yields segment_map rule = elim rule.segment_key [
    | none ↦ if rule_matches ext rule ctx then some rule.variant else none
    | some key ↦ elim (lookup key segment_map) [
      | none ↦ none
      | some rules ↦ elim (first_variant rules) [
        | none ↦ none
        | some variant ↦ some (or_else variant rule.variant)
      ]
    ]
  ]

  -- The first rule that yields something decides.
  pub resolve :
      SegmentMap ext.Value → List (TargetingRule ext.Value) → Option (Option (FlagValue ext.Value))
  resolve segment_map [] = none
  resolve segment_map (rule ∷ rules) = or_else (yields segment_map rule) (resolve segment_map rules)

  first_variant-append :
      (xs ys : List (TargetingRule ext.Value))
      → first_variant (xs ++ ys) ≡ or_else (first_variant xs) (first_variant ys)
  unfolding first_variant matching_rule
  first_variant-append [] ys = refl
  first_variant-append (x ∷ xs) ys = ground (arith, first_variant-append xs ys)

  rule_matches-inherit :
      (variant : Option (FlagValue ext.Value)) (rule : TargetingRule ext.Value)
      → rule_matches ext (inherit_variant variant rule) ctx ≡ rule_matches ext rule ctx
  unfolding inherit_variant rule_matches
  rule_matches-inherit variant rule =
      elim (Bool-cases (not (is_some rule.variant) && is_some variant)) [
        | inl e ↦ rw e
        | inr e ↦ rw e
      ]

  variant-inherit :
      (variant : Option (FlagValue ext.Value)) (rule : TargetingRule ext.Value)
      → (inherit_variant variant rule).variant ≡ or_else rule.variant variant
  unfolding inherit_variant
  variant-inherit variant rule = ground arith

  first_variant-inherit :
      (variant : Option (FlagValue ext.Value)) (rules : List (TargetingRule ext.Value))
      → first_variant (map (inherit_variant variant) rules)
        ≡ elim (first_variant rules) [ none ↦ none | some v ↦ some (or_else v variant) ]
  unfolding first_variant matching_rule
  first_variant-inherit variant [] = refl
  first_variant-inherit variant (r ∷ rules) = ground (
    arith,
    rule_matches-inherit variant r,
    variant-inherit variant r,
    first_variant-inherit variant rules,
  )

  first_variant_nil : first_variant [] ≡ none
  unfolding first_variant matching_rule
  first_variant_nil = refl

  first_variant_one :
      (rule : TargetingRule ext.Value)
      → first_variant (rule ∷ []) ≡ (if rule_matches ext rule ctx then some rule.variant else none)
  unfolding first_variant matching_rule
  first_variant_one rule = ground arith

  first_variant-expand_rule :
      (segment_map : SegmentMap ext.Value) (rule : TargetingRule ext.Value)
      → first_variant (expand_rule segment_map rule) ≡ yields segment_map rule
  unfolding expand_rule yields
  first_variant-expand_rule segment_map rule = elim (Option-cases rule.segment_key) [
    | inl plain ↦ rw (plain, expand_rule, yields) (first_variant_one rule)
    | inr (key, e) ↦ elim (Option-cases (lookup key segment_map)) [
      | inl missing ↦
          rw (e, expand_rule, yields) (rw (missing, expand_rule, yields) first_variant_nil)
      | inr (rules, found) ↦
          rw (e, expand_rule, yields)
            (rw (found, expand_rule, yields) (first_variant-inherit rule.variant rules))
    ]
  ]

  first_variant-expand_rules :
      (segment_map : SegmentMap ext.Value) (rules : List (TargetingRule ext.Value))
      → first_variant (expand_rules segment_map rules) ≡ resolve segment_map rules
  unfolding expand_rules resolve
  first_variant-expand_rules segment_map [] = first_variant_nil
  first_variant-expand_rules segment_map (rule ∷ rules) =
      first_variant-append (expand_rule segment_map rule) (expand_rules segment_map rules)
      ∙ cc
          (first_variant-expand_rule segment_map rule, first_variant-expand_rules segment_map rules)

  -- What the flag serves for a variant that a rule yields, if any.
  pub serve_yield : Flag ext.Value → Option (Option (FlagValue ext.Value)) → EvalResult ext.Value
  serve_yield f (some variant) = record {
    enabled = true;
    value = unwrap_or (or_else variant f.default_value) (enabled_default f);
  }
  serve_yield f none =
      if outside_rollout ext f ctx
      then disabled_result f
      else record { enabled = true; value = served_value ext f ctx }

  serve-first_variant :
      (f : Flag ext.Value) → serve ext f ctx ≡ serve_yield f (first_variant f.rules)
  unfolding serve serve_yield first_variant rule_value enabled_default
  serve-first_variant f = ground arith

  serve_yield-expand :
      (f : Flag ext.Value) (segment_map : SegmentMap ext.Value)
      (o : Option (Option (FlagValue ext.Value)))
      → serve_yield (expand_flag_with_segments f segment_map) o ≡ serve_yield f o
  unfolding serve_yield expand_flag_with_segments outside_rollout disabled_result served_value
      enabled_default
  serve_yield-expand f segment_map (some variant) =
      elim (Bool-cases (any (λ r. is_some r.segment_key) f.rules)) [ inl e ↦ rw e | inr e ↦ rw e ]
  serve_yield-expand f segment_map none =
      elim (Bool-cases (any (λ r. is_some r.segment_key) f.rules)) [ inl e ↦ rw e | inr e ↦ rw e ]

  -- The expanded flag serves a user what the stored rules mean: the first rule that matches, or
  -- reference with a matching rule in its segment, decides; the variant is that rule's, else the
  -- reference's, else the flag's default; with none, the rollout decides as for the stored flag.
  pub serve-expand_flag :
      (f : Flag ext.Value) (segment_map : SegmentMap ext.Value)
      → serve ext (expand_flag_with_segments f segment_map) ctx
        ≡ serve_yield f (resolve segment_map f.rules)
  serve-expand_flag f segment_map =
      serve-first_variant (expand_flag_with_segments f segment_map)
      ∙ serve_yield-expand f segment_map _
      ∙ ap (serve_yield f) (
          ap first_variant (rules-expand_flag f segment_map)
          ∙ first_variant-expand_rules segment_map f.rules)
