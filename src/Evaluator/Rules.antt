-- ===== src/Evaluator/Rules.antt =====
-- Targeting rules: `rule_matches` and `numeric_cmp` of core/src/evaluator.rs.
pub mod Laws
use checkgate.Common.{
  String, Bool, true, false, not, ◌&&◌, Ordering, Option, none, some, List, any, is_empty, str_eq,
  lookup,
}
use checkgate.External.{External}
use checkgate.Text.{contains, starts_with, ends_with, trim}
use checkgate.Types.{Operator, TargetingRule, UserContext, is_not_equals}

-- Rust's `a > b`, `a >= b`, `a < b` and `a <= b`, by what `partial_cmp` returns.
abbrev pub is_gt : Option Ordering → Bool
is_gt (some Ordering.gt) = true
is_gt _ = false

abbrev pub is_ge : Option Ordering → Bool
is_ge (some Ordering.gt) = true
is_ge (some Ordering.eq) = true
is_ge _ = false

abbrev pub is_lt : Option Ordering → Bool
is_lt (some Ordering.lt) = true
is_lt _ = false

abbrev pub is_le : Option Ordering → Bool
is_le (some Ordering.lt) = true
is_le (some Ordering.eq) = true
is_le _ = false

module _ (ext : External) where
  -- `v.trim().parse::<f64>().map(|b| cmp(a, b)).unwrap_or(false)`
  unfoldable pub value_compares : ext.F64 → (Option Ordering → Bool) → String → Bool
  value_compares a cmp v = elim (ext.parse_f64 (trim v)) [
    | some b ↦ cmp (ext.partial_cmp a b)
    | none ↦ false
  ]

  unfoldable pub numeric_cmp : String → List String → (Option Ordering → Bool) → Bool
  unfolding value_compares
  numeric_cmp attr values cmp = elim (ext.parse_f64 (trim attr)) [
    | some a ↦ any (value_compares a cmp) values
    | none ↦ false
  ]

  -- the `match` on `rule.operator`, for a user that has the attribute
  unfoldable pub operator_matches : Operator → List String → String → Bool
  operator_matches Operator.equals values attr = any (λ v. str_eq v attr) values
  operator_matches Operator.not_equals values attr = not (any (λ v. str_eq v attr) values)
  operator_matches Operator.contains values attr = any (λ v. contains attr v) values
  operator_matches Operator.starts_with values attr = any (λ v. starts_with attr v) values
  operator_matches Operator.ends_with values attr = any (λ v. ends_with attr v) values
  operator_matches Operator.greater_than values attr = numeric_cmp attr values is_gt
  operator_matches Operator.greater_than_or_equal values attr = numeric_cmp attr values is_ge
  operator_matches Operator.less_than values attr = numeric_cmp attr values is_lt
  operator_matches Operator.less_than_or_equal values attr = numeric_cmp attr values is_le

  unfoldable pub rule_matches : TargetingRule ext.Value → UserContext → Bool
  rule_matches rule user_context = elim (lookup rule.attribute user_context.attributes) [
    | some user_attr ↦ operator_matches rule.operator rule.values user_attr
    | none ↦ is_not_equals rule.operator && not (is_empty rule.values)
  ]
