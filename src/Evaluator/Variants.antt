-- ===== src/Evaluator/Variants.antt =====
-- Weighted variants: `pick_weighted_variant` of core/src/evaluator.rs.
pub mod Laws
pub mod Rescaling
use Prim.Native.String.{◌++◌ as append}
use checkgate.Common.{
  ℕ, ◌+◌, ◌*◌, ◌-◌, ◌/◌, ◌%◌, ◌^◌, min, String, List, [], ◌∷◌, first, last, Option, none, some, ltb,
  leb, ◌==◌, if◌then◌else◌,
}
use checkgate.External.{External}
use checkgate.Text.Bytes.{as_bytes}
use checkgate.Types.{FlagValue, null, WeightedVariant}
use checkgate.Evaluator.Hashing.{murmurhash3_x86_32}

abbrev pub u32_max : ℕ
u32_max = 2 ^ 32 - 1

abbrev pub u64_max : ℕ
u64_max = 2 ^ 64 - 1

abbrev pub u128_max : ℕ
u128_max = 2 ^ 128 - 1

-- `saturating_add` and `saturating_mul`, at the width of which `most` is the greatest value
abbrev pub saturating_add : ℕ → ℕ → ℕ → ℕ
saturating_add most a b = min most (a + b)

abbrev pub saturating_mul : ℕ → ℕ → ℕ → ℕ
saturating_mul most a b = min most (a * b)

module _ {V : Type 0} where
  -- the `fold` of the weights
  unfoldable pub total_from : ℕ → List (WeightedVariant V) → ℕ
  total_from acc [] = acc
  total_from acc (v ∷ vs) = total_from (saturating_add u64_max acc v.weight) vs

  -- `variants.first()`, or `variants.last()`, `.map(|v| v.value.clone()).unwrap_or(Null)`
  abbrev pub value_or_null : Option (WeightedVariant V) → FlagValue V
  value_or_null none = null
  value_or_null (some v) = v.value

  -- the loop: the first variant whose cumulative weight is above the bucket
  unfoldable pub variant_at : ℕ → ℕ → List (WeightedVariant V) → Option (WeightedVariant V)
  variant_at bucket cumulative [] = none
  variant_at bucket cumulative (v ∷ vs) =
      let next = saturating_add u64_max cumulative v.weight in
      let rest = variant_at bucket next vs in if ltb bucket next then some v else rest

  -- the value that the loop returns, or the last variant's after it
  abbrev pub value_at : Option (WeightedVariant V) → List (WeightedVariant V) → FlagValue V
  value_at (some v) variants = v.value
  value_at none variants = value_or_null (last variants)

-- `u64::try_from(n).unwrap_or(0)`
abbrev pub u64_or_zero : ℕ → ℕ
u64_or_zero n = if leb n u64_max then n else 0

-- `hash_val % total`, or the top of a 128-bit product for a total beyond 32 bits
unfoldable pub bucket_of : ℕ → ℕ → ℕ
bucket_of hash_val total =
    if leb total u32_max
    then hash_val % total
    else u64_or_zero (saturating_mul u128_max hash_val total / 2 ^ 32)

module _ (ext : External) where
  unfoldable pub variant_hash : String → String → ℕ
  variant_hash flag_key user_key =
      murmurhash3_x86_32 ext (as_bytes (append flag_key (append ":" (append user_key ":variant"))))
        0

  unfoldable pub pick_weighted_variant :
      String → String → List (WeightedVariant ext.Value) → FlagValue ext.Value
  unfolding total_from variant_at bucket_of variant_hash
  pick_weighted_variant flag_key user_key variants =
      let total = total_from 0 variants in
      if total == 0
      then value_or_null (first variants)
      else let bucket = bucket_of (variant_hash flag_key user_key) total in
        value_at (variant_at bucket 0 variants) variants
