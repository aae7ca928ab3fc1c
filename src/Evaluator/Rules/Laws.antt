-- ===== src/Evaluator/Rules/Laws.antt =====
-- What a targeting rule means, stated without the code's tests, beside `rule_matches`.
use mathlib.Core.Path.{subst}
use mathlib.Core.Option.{some-injective}
use checkgate.Common.{
  String, ◌≡◌, ◌≢◌, ◌↔◌, refl, ◌⊎◌, inl, inr, Bool, true, not, ◌&&◌, Ordering, Option, none, some,
  List, [], ◌∷◌, arith, any, is_empty, str_eq, eq_iff, lookup, Some, In, any_iff, Option-cases,
  Bool-cases, sym, ◌∙◌,
}
use checkgate.External.{External}
use checkgate.Text.{trim}
use checkgate.Text.Laws.{
  StartsWith, EndsWith, Contains, starts_with_iff, ends_with_iff, contains_iff,
}
use checkgate.Types.{Operator, TargetingRule, UserContext, is_not_equals}
use checkgate.Evaluator.Rules.{
  is_gt, is_ge, is_lt, is_le, value_compares, numeric_cmp, operator_matches, rule_matches,
}

-- `Some` under an equivalence at each item.
Some-map :
    {A : Type 0} {P Q : A → Type 0} → ((a : A) → P a → Q a) → (xs : List A) → Some P xs → Some Q xs
Some-map f [] h = h
Some-map f (x ∷ xs) (inl h) = inl (f x h)
Some-map f (x ∷ xs) (inr h) = inr (Some-map f xs h)

any_as :
    {A : Type 0} {P : A → Type 0} (p : A → Bool)
    → ((a : A) → (p a ≡ true) ↔ P a)
    → (xs : List A) → (any p xs ≡ true) ↔ Some P xs
any_as p f xs = (
  λ h. Some-map (λ a. (f a).0) xs ((any_iff p xs).0 h),
  λ h. (any_iff p xs).1 (Some-map (λ a. (f a).1) xs h),
)

module _ (ext : External) where
  -- The value is a number that compares as asked with the number `a`.
  abbrev pub Compares : (Option Ordering → Bool) → ext.F64 → String → Type 0
  Compares cmp a v =
      (b : ext.F64) × (ext.parse_f64 (trim v) ≡ some b) × (cmp (ext.partial_cmp a b) ≡ true)

  -- The attribute is a number, and some value is one that compares with it as asked.
  abbrev pub IsNumeric : (Option Ordering → Bool) → List String → String → Type 0
  IsNumeric cmp values attr =
      (a : ext.F64) × (ext.parse_f64 (trim attr) ≡ some a) × Some (Compares cmp a) values

  -- What an operator asks of an attribute, given the values of the rule.
  abbrev pub Asks : Operator → List String → String → Type 0
  Asks Operator.equals values attr = In attr values
  Asks Operator.not_equals values attr = ¬ (In attr values)
  Asks Operator.contains values attr = Some (Contains attr) values
  Asks Operator.starts_with values attr = Some (StartsWith attr) values
  Asks Operator.ends_with values attr = Some (EndsWith attr) values
  Asks Operator.greater_than values attr = IsNumeric is_gt values attr
  Asks Operator.greater_than_or_equal values attr = IsNumeric is_ge values attr
  Asks Operator.less_than values attr = IsNumeric is_lt values attr
  Asks Operator.less_than_or_equal values attr = IsNumeric is_le values attr

  equals_iff :
      (values : List String) (attr : String)
      → (any (λ v. str_eq v attr) values ≡ true) ↔ In attr values
  equals_iff values attr = any_as (λ v. str_eq v attr) (λ v. eq_iff v attr) values

  value_compares_iff :
      (cmp : Option Ordering → Bool) (a : ext.F64) (v : String)
      → (value_compares ext a cmp v ≡ true) ↔ Compares cmp a v
  unfolding value_compares
  value_compares_iff cmp a v = elim (Option-cases (ext.parse_f64 (trim v))) [
    | inl e ↦ (λ h. cc (rw (e, value_compares) at h), λ (b, p, q). cc p)
    | inr (b, e) ↦ (λ h. (b, e, rw (e, value_compares) at h), λ (b', p, q). ground arith)
  ]

  IsNumeric-iff :
      (values : List String) (attr : String) (cmp : Option Ordering → Bool)
      → (numeric_cmp ext attr values cmp ≡ true) ↔ IsNumeric cmp values attr
  unfolding numeric_cmp
  IsNumeric-iff values attr cmp = elim (Option-cases (ext.parse_f64 (trim attr))) [
    | inl e ↦ (λ h. cc (rw (e, numeric_cmp) at h), λ (a, p, q). cc (e, p))
    | inr (a, e) ↦
        let values_iff = any_as (value_compares ext a cmp) (value_compares_iff cmp a) values in
        (
          λ h. (a, e, values_iff.0 (rw (e, numeric_cmp) at h)),
          λ (a', p, q).
              rw (e, numeric_cmp)
                (values_iff.1
                  (subst (λ x. Some (Compares cmp x) values) (some-injective a' a (sym p ∙ e)) q)),
        )
  ]

  operator_matches_iff :
      (op : Operator) (values : List String) (attr : String)
      → (operator_matches ext op values attr ≡ true) ↔ Asks op values attr
  unfolding operator_matches
  operator_matches_iff Operator.equals values attr = equals_iff values attr
  operator_matches_iff Operator.not_equals values attr = (
    λ h m. ground (arith, (equals_iff values attr).1 m),
    λ h. elim (Bool-cases (any (λ v. str_eq v attr) values)) [
      | inl found ↦ absurd (h ((equals_iff values attr).0 found))
      | inr none_found ↦ rw none_found
    ],
  )
  operator_matches_iff Operator.contains values attr = any_as _ (λ v. contains_iff attr v) values
  operator_matches_iff Operator.starts_with values attr =
      any_as _ (λ v. starts_with_iff attr v) values
  operator_matches_iff Operator.ends_with values attr = any_as _ (λ v. ends_with_iff attr v) values
  operator_matches_iff Operator.greater_than values attr = IsNumeric-iff values attr is_gt
  operator_matches_iff Operator.greater_than_or_equal values attr = IsNumeric-iff values attr is_ge
  operator_matches_iff Operator.less_than values attr = IsNumeric-iff values attr is_lt
  operator_matches_iff Operator.less_than_or_equal values attr = IsNumeric-iff values attr is_le

  not_equals_of :
      (op : Operator) (values : List String)
      → (is_not_equals op && not (is_empty values)) ≡ true
      → (op ≡ Operator.not_equals) × (values ≢ [])
  not_equals_of op values h = ground arith

  of_not_equals :
      (op : Operator) (values : List String)
      → op ≡ Operator.not_equals
      → values ≢ []
      → (is_not_equals op && not (is_empty values)) ≡ true
  of_not_equals op [] e h = absurd (h refl)
  of_not_equals op (v ∷ values) e h = rw e

  -- What a rule asks of a user: of the attribute if the user has it; a user without it passes a
  -- "not equals" rule that lists some value, and no other.
  abbrev pub RuleHolds : TargetingRule ext.Value → UserContext → Type 0
  RuleHolds rule ctx =
      ((attr : String) × (lookup rule.attribute ctx.attributes ≡ some attr)
        × Asks rule.operator rule.values attr)
      ⊎ ((lookup rule.attribute ctx.attributes ≡ none)
          × (rule.operator ≡ Operator.not_equals)
          × (rule.values ≢ []))

  rule_matches_sound :
      (rule : TargetingRule ext.Value) (ctx : UserContext)
      → rule_matches ext rule ctx ≡ true
      → RuleHolds rule ctx
  unfolding rule_matches
  rule_matches_sound rule ctx h = elim (Option-cases (lookup rule.attribute ctx.attributes)) [
    | inl e ↦
        let (op, some_value) =
          not_equals_of rule.operator rule.values (rw (e, rule_matches) at h) in
        inr (e, op, some_value)
    | inr (attr, e) ↦ inl (
      attr,
      e,
      (operator_matches_iff rule.operator rule.values attr).0 (rw (e, rule_matches) at h),
    )
  ]

  rule_matches_complete :
      (rule : TargetingRule ext.Value) (ctx : UserContext)
      → RuleHolds rule ctx
      → rule_matches ext rule ctx ≡ true
  unfolding rule_matches
  rule_matches_complete rule ctx (inl (attr, e, h)) =
      rw (e, rule_matches) ((operator_matches_iff rule.operator rule.values attr).1 h)
  rule_matches_complete rule ctx (inr (e, op, h)) =
      rw (e, rule_matches) (of_not_equals rule.operator rule.values op h)

  -- `rule_matches` is true exactly when the user meets what the rule asks: for an attribute that
  -- the user has, membership, its negation, a substring, a prefix, a suffix or a comparison of
  -- numbers with some listed value; without the attribute, only "not equals" with some value.
  pub rule_matches_iff :
      (rule : TargetingRule ext.Value) (ctx : UserContext)
      → (rule_matches ext rule ctx ≡ true) ↔ RuleHolds rule ctx
  rule_matches_iff rule ctx = (rule_matches_sound rule ctx, rule_matches_complete rule ctx)
