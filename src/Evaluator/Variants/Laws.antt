-- ===== src/Evaluator/Variants/Laws.antt =====
-- Weighted variants: the bucket, the total of the weights, and the stretch of buckets of each variant.
use native.Mathlib.Nat.{mod-lt}
use checkgate.Common.{
  ℕ, ◌+◌, ◌*◌, ◌/◌, ◌^◌, ◌≤◌, ◌<◌, min, String, ◌≡◌, refl, inl, inr, some, false, List, [], ◌∷◌,
  ◌++◌, arith, ltb, leb, ◌==◌, In, Bool-cases,
}
use checkgate.External.{External}
use checkgate.Types.{WeightedVariant}
use checkgate.Evaluator.Hashing.{murmurhash3_x86_32_bound}
use checkgate.Evaluator.Variants.{
  u32_max, u64_max, u128_max, saturating_add, total_from, variant_at, u64_or_zero, bucket_of,
  variant_hash, pick_weighted_variant,
}

mul_lt : (h t : ℕ) → h < 2 ^ 32 → 0 < t → h * t < 2 ^ 32 * t
mul_lt h t p q = grind arith

scaled_lt :
    (product total : ℕ)
    → product < 2 ^ 32 * total
    → 0 < total
    → u64_or_zero (min u128_max product / 2 ^ 32) < total
scaled_lt product total h pos = ground arith

-- The bucket of a 32-bit hash lies below a positive 64-bit total, in both ways to compute it.
pub bucket_of-lt :
    (hash total : ℕ) → hash < 2 ^ 32 → 0 < total → total ≤ u64_max → bucket_of hash total < total
unfolding bucket_of
bucket_of-lt hash total h pos fits = elim (Bool-cases (leb total u32_max)) [
  | inl small ↦ rw small (mod-lt hash pos)
  | inr large ↦ rw large (scaled_lt (hash * total) total (mul_lt hash total h pos) pos)
]

module _ {V : Type 0} where
  -- The sum of the weights, without a bound.
  unfoldable pub weight_sum : List (WeightedVariant V) → ℕ
  weight_sum [] = 0
  weight_sum (v ∷ vs) = v.weight + weight_sum vs

  total_from-sum :
      (acc : ℕ) (vs : List (WeightedVariant V))
      → acc ≤ u64_max
      → total_from acc vs ≡ min u64_max (acc + weight_sum vs)
  unfolding total_from weight_sum
  total_from-sum acc [] h = omega arith
  total_from-sum acc (v ∷ vs) h =
      omega (arith, total_from-sum (saturating_add u64_max acc v.weight) vs (omega arith))

  -- Below the total, the loop finds a variant, and its weight is positive.
  variant_at_found :
      (bucket cumulative : ℕ) (vs : List (WeightedVariant V))
      → cumulative ≤ bucket
      → bucket < min u64_max (cumulative + weight_sum vs)
      → (v : WeightedVariant V) × (variant_at bucket cumulative vs ≡ some v)
        × In v vs
        × (0 < v.weight)
  unfolding variant_at weight_sum
  variant_at_found bucket cumulative [] low high = absurd (omega arith)
  variant_at_found bucket cumulative (v ∷ vs) low high =
      elim (Bool-cases (ltb bucket (saturating_add u64_max cumulative v.weight))) [
        | inl here ↦ (v, rw here, inl refl, ground arith)
        | inr later ↦
            let (w, found, listed, pos) =
              variant_at_found bucket (saturating_add u64_max cumulative v.weight) vs (ground arith)
                (ground arith) in
            (w, rw later found, inr listed, pos)
      ]

  -- A bucket in the stretch of a variant, behind those of the variants before it, gives it.
  variant_at_stretch :
      (bucket cumulative : ℕ) (before : List (WeightedVariant V)) (v : WeightedVariant V)
      (after : List (WeightedVariant V))
      → cumulative + weight_sum before ≤ bucket
      → bucket < cumulative + weight_sum before + v.weight
      → cumulative + weight_sum (before ++ v ∷ after) ≤ u64_max
      → variant_at bucket cumulative (before ++ v ∷ after) ≡ some v
  unfolding variant_at weight_sum
  variant_at_stretch bucket cumulative [] v after low high fits = ground arith
  variant_at_stretch bucket cumulative (w ∷ before) v after low high fits =
      ground (
        arith,
        variant_at_stretch bucket (saturating_add u64_max cumulative w.weight) before v after,
      )

weight_sum_pos :
    {V : Type 0} (before : List (WeightedVariant V)) (v : WeightedVariant V)
    (after : List (WeightedVariant V))
    → 0 < v.weight
    → 0 < weight_sum (before ++ v ∷ after)
unfolding weight_sum
weight_sum_pos [] v after h = omega arith
weight_sum_pos (w ∷ before) v after h = omega (arith, weight_sum_pos before v after h)

variant_hash_bound :
    (ext : External) (flag_key user_key : String) → variant_hash ext flag_key user_key < 2 ^ 32
unfolding variant_hash
variant_hash_bound ext flag_key user_key = murmurhash3_x86_32_bound ext _ 0

positive_test : (n : ℕ) → 0 < n → (n == 0) ≡ false
positive_test n h = ground arith

module _ (ext : External) (flag_key user_key : String) where
  -- the bucket of the user among variants of a total weight
  abbrev pub bucket : ℕ → ℕ
  bucket total = bucket_of (variant_hash ext flag_key user_key) total

  -- If some weight is positive, every user gets the value of a listed variant of positive weight,
  -- also where the total of the weights saturates: the fallbacks behind the loop are not reached.
  pub pick_weighted_variant-In :
      (variants : List (WeightedVariant ext.Value))
      → 0 < weight_sum variants
      → (v : WeightedVariant ext.Value) × In v variants
        × (0 < v.weight)
        × (pick_weighted_variant ext flag_key user_key variants ≡ v.value)
  unfolding pick_weighted_variant
  pick_weighted_variant-In variants pos =
      let total = total_from 0 variants in
      let total_eq : total ≡ min u64_max (0 + weight_sum variants) =
        total_from-sum 0 variants (omega arith) in
      let total_pos : 0 < total = omega arith in
      let below : bucket total < total =
        bucket_of-lt (variant_hash ext flag_key user_key) total
          (variant_hash_bound ext flag_key user_key) total_pos (omega arith) in
      let (v, found, listed, weighs) =
        variant_at_found (bucket total) 0 variants (omega arith) (omega arith) in
      (v, listed, weighs, rw (positive_test total total_pos, found))

  -- For weights whose sum fits in 64 bits, a variant is served to the users whose bucket lies in
  -- its stretch: from the sum of the weights before it, as many buckets as its weight.
  pub pick_weighted_variant-stretch :
      (before : List (WeightedVariant ext.Value)) (v : WeightedVariant ext.Value)
      (after : List (WeightedVariant ext.Value))
      → weight_sum (before ++ v ∷ after) ≤ u64_max
      → weight_sum before ≤ bucket (weight_sum (before ++ v ∷ after))
      → bucket (weight_sum (before ++ v ∷ after)) < weight_sum before + v.weight
      → pick_weighted_variant ext flag_key user_key (before ++ v ∷ after) ≡ v.value
  unfolding pick_weighted_variant
  pick_weighted_variant-stretch before v after fits low high =
      let all = before ++ v ∷ after in
      let total_eq : total_from 0 all ≡ weight_sum all =
        omega (arith, total_from-sum 0 all (omega arith)) in
      let found : variant_at (bucket (weight_sum all)) 0 all ≡ some v =
        variant_at_stretch (bucket (weight_sum all)) 0 before v after (omega arith) (omega arith)
          (omega arith) in
      rw (
        total_eq,
        positive_test (weight_sum all) (weight_sum_pos before v after (omega arith)),
        found,
      )
