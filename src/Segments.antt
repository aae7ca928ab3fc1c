-- ===== src/Segments.antt =====
-- Expansion of segment references: `expand_flag_with_segments` of server/src/api/segments.rs. The
-- server expands a flag's rules before it stores or broadcasts the flag.
pub mod Laws
pub mod Meaning
pub mod Handlers
mod Tests
use checkgate.Common.{
  String, Bool, true, false, not, ◌&&◌, Option, none, some, List, [], ◌∷◌, ◌++◌, map, any, is_some,
  lookup, if◌then◌else◌,
}
use checkgate.Types.{FlagValue, TargetingRule, Flag}

-- `HashMap<String, Vec<TargetingRule>>`, the rules of each segment by its key
abbrev pub SegmentMap : Type 0 → Type 0
SegmentMap V = List (String × List (TargetingRule V))

module _ {V : Type 0} where
  -- the closure over the segment's rules: the reference's variant where the rule has none
  unfoldable pub inherit_variant : Option (FlagValue V) → TargetingRule V → TargetingRule V
  inherit_variant variant sr =
      if not (is_some sr.variant) && is_some variant then record sr { variant = variant } else sr

  -- one round of the loop over the flag's rules: what it pushes on `expanded_rules`
  unfoldable pub expand_rule : SegmentMap V → TargetingRule V → List (TargetingRule V)
  expand_rule segment_map rule = elim rule.segment_key [
    | some seg_key ↦ elim (lookup seg_key segment_map) [
      | some seg_rules ↦ map (inherit_variant rule.variant) seg_rules
      | none ↦ []
    ]
    | none ↦ rule ∷ []
  ]

  unfoldable pub expand_rules : SegmentMap V → List (TargetingRule V) → List (TargetingRule V)
  expand_rules segment_map [] = []
  expand_rules segment_map (rule ∷ rules) =
      expand_rule segment_map rule ++ expand_rules segment_map rules

  unfoldable pub expand_flag_with_segments : Flag V → SegmentMap V → Flag V
  expand_flag_with_segments flag segment_map =
      if not (any (λ r. is_some r.segment_key) flag.rules)
      then flag
      else record flag { rules = expand_rules segment_map flag.rules }
