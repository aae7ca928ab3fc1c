-- ===== src/Segments/Laws.antt =====
-- The expansion of segment references, beside the evaluation.
use mathlib.Core.Option.{some-injective}
use checkgate.Common.{
  String, ◌≡◌, refl, ap, sym, inl, inr, Bool, false, ◌||◌, Option, some, List, [], ◌∷◌, ◌++◌, map,
  arith, any, All, is_some, lookup, str_eq, Bool-cases, Option-cases,
}
use checkgate.Types.{FlagValue, TargetingRule, Flag}
use checkgate.Segments.{
  SegmentMap, inherit_variant, expand_rule, expand_rules, expand_flag_with_segments,
}

module _ {V : Type 0} where
  -- No rule of the list refers to a segment.
  abbrev pub HasNoReference : List (TargetingRule V) → Type 0
  HasNoReference rules = any (λ r. is_some r.segment_key) rules ≡ false

  -- Nor does one of a segment.
  abbrev pub AreConcrete : SegmentMap V → Type 0
  AreConcrete segment_map = All (λ e. HasNoReference e.1) segment_map

  expand_rule_id :
      (segment_map : SegmentMap V) (rule : TargetingRule V)
      → is_some rule.segment_key ≡ false
      → expand_rule segment_map rule ≡ rule ∷ []
  unfolding expand_rule
  expand_rule_id segment_map rule h = ground arith

  expand_rules_id :
      (segment_map : SegmentMap V) (rules : List (TargetingRule V))
      → HasNoReference rules
      → expand_rules segment_map rules ≡ rules
  unfolding expand_rules
  expand_rules_id segment_map [] h = refl
  expand_rules_id segment_map (rule ∷ rules) h =
      rw (expand_rule_id segment_map rule (ground arith))
        (ap (λ rs. rule ∷ rs) (expand_rules_id segment_map rules (ground arith)))

  expand_concrete :
      (f : Flag V) (segment_map : SegmentMap V)
      → HasNoReference f.rules
      → expand_flag_with_segments f segment_map ≡ f
  unfolding expand_flag_with_segments
  expand_concrete f segment_map h = rw h

  -- The rules of an expanded flag are the expanded rules, also where the function returns early;
  -- a flag with no reference is returned as it is.
  pub rules-expand_flag :
      (f : Flag V) (segment_map : SegmentMap V)
      → (expand_flag_with_segments f segment_map).rules ≡ expand_rules segment_map f.rules
  unfolding expand_flag_with_segments
  rules-expand_flag f segment_map = elim (Bool-cases (any (λ r. is_some r.segment_key) f.rules)) [
    | inl some_reference ↦ rw some_reference
    | inr no_reference ↦ rw no_reference (sym (expand_rules_id segment_map f.rules no_reference))
  ]

  any-append :
      (p : TargetingRule V → Bool) (xs ys : List (TargetingRule V))
      → any p (xs ++ ys) ≡ (any p xs || any p ys)
  any-append p [] ys = refl
  any-append p (x ∷ xs) ys = ground (arith, any-append p xs ys)

  inherited_none :
      (variant : Option (FlagValue V)) (rules : List (TargetingRule V))
      → HasNoReference rules
      → HasNoReference (map (inherit_variant variant) rules)
  unfolding inherit_variant
  inherited_none variant [] h = refl
  inherited_none variant (r ∷ rules) h = ground (arith, inherited_none variant rules)

  concrete_lookup :
      (segment_map : SegmentMap V) (key : String) (rules : List (TargetingRule V))
      → AreConcrete segment_map
      → lookup key segment_map ≡ some rules
      → HasNoReference rules
  concrete_lookup [] key rules c e = cc
  concrete_lookup ((k, rs) ∷ m) key rules c e = elim (Bool-cases (str_eq k key)) [
    | inl same ↦ rw (some-injective rs rules (rw same at e)) at c.0
    | inr other ↦ concrete_lookup m key rules c.1 (rw other at e)
  ]

  expand_rule_concrete :
      (segment_map : SegmentMap V) (rule : TargetingRule V)
      → AreConcrete segment_map
      → HasNoReference (expand_rule segment_map rule)
  unfolding expand_rule
  expand_rule_concrete segment_map rule c = elim (Option-cases rule.segment_key) [
    | inl plain ↦ ground arith
    | inr (key, e) ↦ elim (Option-cases (lookup key segment_map)) [
      | inl missing ↦ ground arith
      | inr (rules, found) ↦
          rw (e, expand_rule)
            (rw (found, expand_rule)
              (inherited_none rule.variant rules (concrete_lookup segment_map key rules c found)))
    ]
  ]

  expand_rules_concrete :
      (segment_map : SegmentMap V) (rules : List (TargetingRule V))
      → AreConcrete segment_map
      → HasNoReference (expand_rules segment_map rules)
  unfolding expand_rules
  expand_rules_concrete segment_map [] c = refl
  expand_rules_concrete segment_map (rule ∷ rules) c =
      rw (any-append _ (expand_rule segment_map rule) (expand_rules segment_map rules)) (
        ground (
          arith,
          expand_rule_concrete segment_map rule c,
          expand_rules_concrete segment_map rules c,
        ))

  -- If no segment's rule refers to a segment, an expanded flag refers to none, and to expand it again
  -- with any segments leaves it as it is.
  pub expand_flag-HasNoReference :
      (f : Flag V) (segment_map other : SegmentMap V)
      → AreConcrete segment_map
      → HasNoReference (expand_flag_with_segments f segment_map).rules
        × (expand_flag_with_segments (expand_flag_with_segments f segment_map) other
            ≡ expand_flag_with_segments f segment_map)
  expand_flag-HasNoReference f segment_map other c =
      let none_left : HasNoReference (expand_flag_with_segments f segment_map).rules =
        rw (rules-expand_flag f segment_map) (expand_rules_concrete segment_map f.rules c) in
      (none_left, expand_concrete (expand_flag_with_segments f segment_map) other none_left)
