-- ===== src/Segments/Tests.antt =====
-- The theorems of the segment expansion at a flag with two references.
use checkgate.Common.{String, ◌≡◌, refl, true, none, some, [], ◌∷◌}
use checkgate.External.Concrete.{concrete}
use checkgate.Types.{FlagType, Operator, TargetingRule, FlagValue, str, Flag, UserContext}
use checkgate.Evaluator.Evaluate.{serve}
use checkgate.Segments.{
  SegmentMap, inherit_variant, expand_rule, expand_rules, expand_flag_with_segments,
}
use checkgate.Segments.Meaning.{resolve, serve_yield, serve-expand_flag}

abbrev is_plan : String → TargetingRule String
is_plan plan = record {
  attribute = "plan";
  operator = Operator.equals;
  values = plan ∷ [];
  segment_key = none;
  variant = none;
}

abbrev reference : String → FlagValue String → TargetingRule String
reference key value = record {
  attribute = "";
  operator = Operator.equals;
  values = [];
  segment_key = some key;
  variant = some value;
}

abbrev segments : SegmentMap String
segments = ("paying", is_plan "pro" ∷ is_plan "team" ∷ []) ∷ []

abbrev flag : Flag String
flag = record {
  key = "checkout";
  is_enabled = true;
  rollout_percentage = some 0;
  description = none;
  rules = reference "gone" (str "x") ∷ reference "paying" (str "y") ∷ [];
  flag_type = FlagType.string;
  default_value = none;
  disabled_value = none;
  variants = [];
  prerequisites = [];
}

abbrev user : UserContext
user = record { key = "u1"; attributes = ("plan", "team") ∷ [] }

expanded :
    (expand_flag_with_segments flag segments).rules
    ≡ record (is_plan "pro") { variant = some (str "y") }
      ∷ record (is_plan "team") { variant = some (str "y") }
      ∷ []
unfolding expand_flag_with_segments expand_rules expand_rule inherit_variant
expanded = refl

serve-expand_flag_example :
    serve concrete (expand_flag_with_segments flag segments) user
    ≡ serve_yield concrete user flag (resolve concrete user segments flag.rules)
serve-expand_flag_example = serve-expand_flag concrete user flag segments
