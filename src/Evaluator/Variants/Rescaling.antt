-- ===== src/Evaluator/Variants/Rescaling.antt =====
-- Weights in the same proportions, and the variants that users get.
use checkgate.Common.{
  ℕ, ◌+◌, ◌*◌, ◌%◌, ◌≤◌, ◌<◌, String, ◌≡◌, ◌≢◌, ap, sym, ◌∙◌, List, [], ◌∷◌, arith,
}
use checkgate.External.{External}
use checkgate.Types.{FlagValue, WeightedVariant}
use checkgate.Evaluator.Variants.{u32_max, bucket_of, variant_hash, pick_weighted_variant}
use checkgate.Evaluator.Variants.Laws.{weight_sum, pick_weighted_variant-stretch}

abbrev pub weighted : {V : Type 0} → ℕ → FlagValue V → WeightedVariant V
weighted n v = record { weight = n; value = v }

-- Three variants with the given weights.
abbrev pub split :
    {V : Type 0} → ℕ → ℕ → ℕ → FlagValue V → FlagValue V → FlagValue V → List (WeightedVariant V)
split m n k a b c = weighted m a ∷ weighted n b ∷ weighted k c ∷ []

bucket_small : (hash total : ℕ) → total ≤ u32_max → bucket_of hash total ≡ hash % total
unfolding bucket_of
bucket_small hash total h = ground arith

module _ (ext : External) (flag_key user_key : String) (a b c : FlagValue ext.Value) where
  abbrev hash_of_user : ℕ
  hash_of_user = variant_hash ext flag_key user_key

  pick-first :
      (m n k : ℕ)
      → m + n + k ≤ u32_max
      → hash_of_user % (m + n + k) < m
      → pick_weighted_variant ext flag_key user_key (split m n k a b c) ≡ a
  unfolding weight_sum
  pick-first m n k fits low =
      let total : weight_sum (split m n k a b c) ≡ m + n + k = omega arith in
      let at : bucket_of hash_of_user (weight_sum (split m n k a b c))
          ≡ hash_of_user % (m + n + k) =
        ap (bucket_of hash_of_user) total ∙ bucket_small hash_of_user (m + n + k) fits in
      pick_weighted_variant-stretch ext flag_key user_key [] (weighted m a)
        (weighted n b ∷ weighted k c ∷ []) (omega arith) (omega arith) (omega arith)

  pick-second :
      (m n k : ℕ)
      → m + n + k ≤ u32_max
      → m ≤ hash_of_user % (m + n + k)
      → hash_of_user % (m + n + k) < m + n
      → pick_weighted_variant ext flag_key user_key (split m n k a b c) ≡ b
  unfolding weight_sum
  pick-second m n k fits low high =
      let total : weight_sum (split m n k a b c) ≡ m + n + k = omega arith in
      let at : bucket_of hash_of_user (weight_sum (split m n k a b c))
          ≡ hash_of_user % (m + n + k) =
        ap (bucket_of hash_of_user) total ∙ bucket_small hash_of_user (m + n + k) fits in
      pick_weighted_variant-stretch ext flag_key user_key (weighted m a ∷ []) (weighted n b)
        (weighted k c ∷ []) (omega arith) (omega arith) (omega arith)

  -- Weights m, n, k of three variants, and the same times a factor, at most 2 ^ 32 - 1 in all. A user whose hash,
  -- modulo the larger total, is below the first of the larger weights, and, modulo the smaller total, in
  -- the second stretch of the smaller ones, gets the first variant with the larger weights and the second
  -- with the smaller: other variants, when these two differ, for the same proportions.
  pub pick-rescaled :
      (factor m n k : ℕ)
      → factor * m + factor * n + factor * k ≤ u32_max
      → m + n + k ≤ u32_max
      → hash_of_user % (factor * m + factor * n + factor * k) < factor * m
      → m ≤ hash_of_user % (m + n + k)
      → hash_of_user % (m + n + k) < m + n
      → a ≢ b
      → (pick_weighted_variant ext flag_key user_key
            (split (factor * m) (factor * n) (factor * k) a b c)
          ≡ a)
        × (pick_weighted_variant ext flag_key user_key (split m n k a b c) ≡ b)
        × (pick_weighted_variant ext flag_key user_key
              (split (factor * m) (factor * n) (factor * k) a b c)
            ≢ pick_weighted_variant ext flag_key user_key (split m n k a b c))
  pick-rescaled factor m n k fits fits' low mid high differ =
      let large = pick-first (factor * m) (factor * n) (factor * k) fits low in
      let small = pick-second m n k fits' mid high in
      (large, small, λ same. differ (sym large ∙ same ∙ small))
