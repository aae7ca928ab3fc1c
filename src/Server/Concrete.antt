-- ===== src/Server/Concrete.antt =====
-- Texts, numbers and objects as JSON values, for the examples.
use checkgate.Common.{
  ℕ, String, ◌≡◌, refl, ap, true, false, Option, none, some, List, [], ◌∷◌, lookup,
}
use checkgate.Types.{FlagType, Flag}
use checkgate.Server.{FlagJson}

-- A JSON value: a text, a number, or an object, field by field.
pub data Json : Type 0 where
  text : String → Json
  number : ℕ → Json
  end : Json
  field : String → Json → Json → Json

abbrev pub of_fields : List (String × Json) → Json
of_fields [] = end
of_fields ((k, v) ∷ m) = field k v (of_fields m)

abbrev pub cons_field :
    String → Json → Option (List (String × Json)) → Option (List (String × Json))
cons_field k v none = none
cons_field k v (some m) = some ((k, v) ∷ m)

abbrev pub fields_of : Json → Option (List (String × Json))
fields_of end = some []
fields_of (field k v rest) = cons_field k v (fields_of rest)
fields_of _ = none

pub fields_of-of_fields : (m : List (String × Json)) → fields_of (of_fields m) ≡ some m
fields_of-of_fields [] = refl
fields_of-of_fields ((k, v) ∷ m) = ap (cons_field k v) (fields_of-of_fields m)

abbrev pub number_of : Option Json → Option ℕ
number_of (some (number n)) = some n
number_of _ = none

abbrev pub flag_at : Option ℕ → Flag Json
flag_at rollout = record {
  key = "a";
  is_enabled = true;
  rollout_percentage = rollout;
  description = none;
  rules = [];
  flag_type = FlagType.boolean;
  default_value = none;
  disabled_value = none;
  variants = [];
  prerequisites = [];
}

abbrev pub read_flag : Option (List (String × Json)) → Option (Flag Json)
read_flag none = none
read_flag (some m) = some (flag_at (number_of (lookup "rollout_percentage" m)))

abbrev pub text_of : Json → Option String
text_of (text s) = some s
text_of _ = none

abbrev pub json : FlagJson Json
json = record {
  to_json = λ f. some end;
  of_json = λ v. read_flag (fields_of v);
  tags_of = λ v. none;
  as_object = fields_of;
  of_object = of_fields;
  as_str = text_of;
  is_null = λ v. false;
  of_str = text;
  of_bool = λ b. end;
}
