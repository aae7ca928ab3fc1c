-- ===== src/Types.antt =====
-- The data of core/src/evaluator.rs: flags, targeting rules, variants, prerequisites, the user's
-- context and the result of an evaluation. `V` is `serde_json::Value`. An attribute map is an
-- association list; a `u32` or `u64` is a number, an `i64` an integer.
use checkgate.Common.{ℕ, String, Bool, true, false, Option, List, str_eq, ◌==◌}

pub data Operator : Type 0 where
  equals not_equals contains starts_with ends_with : Operator
  greater_than greater_than_or_equal less_than less_than_or_equal : Operator

pub data FlagType : Type 0 where
  boolean string integer json : FlagType

-- `negsuc n` is -(n + 1)
pub data ℤ : Type 0 where
  pos : ℕ → ℤ
  negsuc : ℕ → ℤ

pub data FlagValue (V : Type 0) : Type 0 where
  bool : Bool → FlagValue V
  str : String → FlagValue V
  int : ℤ → FlagValue V
  json : V → FlagValue V
  null : FlagValue V

pub record EvalResult (V : Type 0) : Type 0 where
  pub enabled : Bool
  pub value : FlagValue V

pub record TargetingRule (V : Type 0) : Type 0 where
  pub attribute : String
  pub operator : Operator
  pub values : List String
  pub segment_key : Option String
  pub variant : Option (FlagValue V)

pub record WeightedVariant (V : Type 0) : Type 0 where
  pub weight : ℕ
  pub value : FlagValue V

pub record Prerequisite (V : Type 0) : Type 0 where
  pub flag_key : String
  pub required_value : Option (FlagValue V)

pub record Flag (V : Type 0) : Type 0 where
  pub key : String
  pub is_enabled : Bool
  pub rollout_percentage : Option ℕ
  pub description : Option String
  pub rules : List (TargetingRule V)
  pub flag_type : FlagType
  pub default_value : Option (FlagValue V)
  pub disabled_value : Option (FlagValue V)
  pub variants : List (WeightedVariant V)
  pub prerequisites : List (Prerequisite V)

pub record UserContext : Type 0 where
  pub key : String
  pub attributes : List (String × String)

abbrev same_bool : Bool → Bool → Bool
same_bool true b = b
same_bool false true = false
same_bool false false = true

abbrev pub same_int : ℤ → ℤ → Bool
same_int (pos m) (pos n) = m == n
same_int (negsuc m) (negsuc n) = m == n
same_int _ _ = false

-- The derived `==` of `FlagValue`, over that of JSON values.
abbrev pub same_value : {V : Type 0} → (V → V → Bool) → FlagValue V → FlagValue V → Bool
same_value eq (bool a) (bool b) = same_bool a b
same_value eq (str a) (str b) = str_eq a b
same_value eq (int a) (int b) = same_int a b
same_value eq (json a) (json b) = eq a b
same_value eq null null = true
same_value eq _ _ = false

-- `rule.operator == Operator::NotEquals`
abbrev pub is_not_equals : Operator → Bool
is_not_equals Operator.not_equals = true
is_not_equals _ = false
