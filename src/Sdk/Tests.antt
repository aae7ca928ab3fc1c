-- ===== src/Sdk/Tests.antt =====
-- The bindings over a store with one flag; JSON values are trees.
use checkgate.Common.{
  ℕ, String, ◌≡◌, ◌↔◌, refl, ap, Bool, true, false, Option, none, some, List, [], ◌∷◌,
}
use checkgate.External.{External}
use checkgate.External.Concrete.{concrete}
use checkgate.Types.{FlagType, Flag, TargetingRule}
use checkgate.Store.Laws.{Write, upsert, delete, last_write, run}
use checkgate.Evaluator.Prerequisites.{Granted}
use checkgate.Sdk.{Serde, flag_json, optional_number}
use checkgate.Sdk.Node
use checkgate.Sdk.Laws.{positional, ReadsFlags, is_enabled-Granted}

data Json : Type 0 where
  null : Json
  boolean : Bool → Json
  number : ℕ → Json
  string : String → Json
  array : Json
  end : Json
  field : String → Json → Json → Json

abbrev object : List (String × Json) → Json
object [] = end
object ((k, v) ∷ fields) = field k v (object fields)

abbrev ext : External
ext = record concrete { Value = Json; value_eq = λ a b. false }

abbrev optional : Json → Option ℕ
optional (number n) = some n
optional _ = none

abbrev read_rules : Json → Option (List (TargetingRule Json))
read_rules array = some []
read_rules _ = none

abbrev with_rules :
    String → Bool → Option ℕ → Option (List (TargetingRule Json)) → Option (Flag Json)
with_rules key on rollout none = none
with_rules key on rollout (some rules) = some (record {
  key = key;
  is_enabled = on;
  rollout_percentage = rollout;
  description = none;
  rules = rules;
  flag_type = FlagType.boolean;
  default_value = none;
  disabled_value = none;
  variants = [];
  prerequisites = [];
})

abbrev read_flag : Json → Option (Flag Json)
read_flag
      (field a
        (string key)
        (field b (boolean on) (field c rollout (field d e (field f rules end))))) =
    with_rules key on (optional rollout) (read_rules rules)
read_flag _ = none

abbrev serde : Serde Json
serde = record {
  parse_flag = λ s. none;
  parse_json = λ s. none;
  parse_attributes = λ s. some (("plan", s) ∷ []);
  flag_of_json = read_flag;
  value_text = λ v. some "true";
  result_text = λ r. none;
  object = object;
  array = λ vs. array;
  string = string;
  boolean = boolean;
  number = number;
  null = null;
  rules_json = λ rs. array;
  Js = Json;
  js_null = null;
  js_attributes = λ j. none;
  js_rules = λ j. none;
  js_of_value = λ v. none;
  js_of_result = λ r. none;
}

abbrev calls : List (Write Json)
calls = upsert (positional ext serde "a" true none []) ∷ delete "b" ∷ []

is_enabled-Granted_example : (Node.is_enabled ext serde (run ext calls) "a" "u" [] ≡ true) ↔ (
    (flag : Flag Json) × (last_write calls "a" ≡ some flag)
    × Granted ext (record { key = "u"; attributes = [] }) (run ext calls) 10 flag)
is_enabled-Granted_example = is_enabled-Granted ext serde calls "a" "u" []

b_is_absent : last_write calls "b" ≡ none
unfolding last_write
b_is_absent = refl

reads_flag :
    (key : String) (on : Bool) (rollout : Option ℕ) (json : Json)
    (rules : List (TargetingRule Json))
    → read_rules json ≡ some rules
    → read_flag (flag_json serde key on (optional_number serde rollout) null json)
      ≡ some (positional ext serde key on rollout rules)
reads_flag key on none json rules h = ap (with_rules key on none) h
reads_flag key on (some n) json rules h = ap (with_rules key on (some n)) h

abbrev reads : ReadsFlags ext serde
reads = record { read_rules = read_rules; read_flag = reads_flag }
