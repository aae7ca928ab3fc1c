-- ===== src/External/Concrete.antt =====
-- One instance of the parameters, for the examples: an association list for the map, natural numbers
-- for the floats, texts for JSON values, and a weighted sum of the bytes for the hash.
use Prim.Native.Nat.{compare}
use Prim.Native.Char.{code}
use checkgate.Common.{
  ℕ, ◌+◌, ◌*◌, ◌-◌, ◌^◌, ◌%◌, ◌<◌, String, ◌≡◌, refl, ◌&&◌, Option, none, some, List, [], ◌∷◌,
  arith, leb, str_eq, eq_iff, eq_refl, lookup, if◌then◌else◌,
}
use checkgate.External.{HasDistinctKeys, DashMap, External}

module _ {A : Type 0} where
  unfoldable pub without : String → List (String × A) → List (String × A)
  without k [] = []
  without k ((j, v) ∷ m) = let rest = without k m in if str_eq j k then rest else (j, v) ∷ rest

  pub lookup-without :
      (m : List (String × A)) (k j : String)
      → lookup j (without k m) ≡ (if str_eq k j then none else lookup j m)
  unfolding without
  lookup-without [] k j = ground arith
  lookup-without ((i, v) ∷ m) k j =
      ground (arith, lookup-without m k j, eq_iff i k, eq_iff i j, eq_iff k j)

  pub without-HasDistinctKeys :
      (m : List (String × A)) (k : String) → HasDistinctKeys m → HasDistinctKeys (without k m)
  unfolding without
  without-HasDistinctKeys [] k h = tt
  without-HasDistinctKeys ((j, v) ∷ m) k h =
      ground (arith, without-HasDistinctKeys m k h.1, lookup-without m k j)

  unfoldable pub dedup : List (String × A) → List (String × A)
  dedup [] = []
  dedup ((k, v) ∷ m) = (k, v) ∷ without k (dedup m)

  pub dedup-HasDistinctKeys : (m : List (String × A)) → HasDistinctKeys (dedup m)
  unfolding dedup
  dedup-HasDistinctKeys [] = tt
  dedup-HasDistinctKeys ((k, v) ∷ m) = (
    ground (arith, lookup-without (dedup m) k k, eq_refl k),
    without-HasDistinctKeys (dedup m) k (dedup-HasDistinctKeys m),
  )

  pub lookup-dedup : (m : List (String × A)) (k : String) → lookup k (dedup m) ≡ lookup k m
  unfolding dedup
  lookup-dedup [] k = refl
  lookup-dedup ((j, v) ∷ m) k = ground (arith, lookup-without (dedup m) j k, lookup-dedup m k)

  pub lookup-insert :
      (m : List (String × A)) (k j : String) (v : A)
      → lookup j ((k, v) ∷ m) ≡ (if str_eq k j then some v else lookup j m)
  lookup-insert m k j v = refl

abbrev pub assoc_map : (A : Type 0) → DashMap A
assoc_map A = record {
  Map = List (String × A);
  new = [];
  insert = λ m k v. (k, v) ∷ m;
  get = λ m k. lookup k m;
  remove = λ m k. without k m;
  clear = λ m. [];
  iter = dedup;
  get_new = λ k. refl;
  get_insert = lookup-insert;
  get_remove = lookup-without;
  get_clear = λ m k. refl;
  lookup_iter = lookup-dedup;
  iter_distinct = dedup-HasDistinctKeys;
}

unfoldable pub weighted_sum : ℕ → List ℕ → ℕ
weighted_sum acc [] = acc % 2 ^ 32
weighted_sum acc (b ∷ bs) = weighted_sum (acc * 31 + b) bs

pub weighted_sum_bound : (acc : ℕ) (bs : List ℕ) → weighted_sum acc bs < 2 ^ 32
unfolding weighted_sum
weighted_sum_bound acc [] = omega arith
weighted_sum_bound acc (b ∷ bs) = weighted_sum_bound (acc * 31 + b) bs

-- Decimal digits, for numerals.
unfoldable pub digits : ℕ → String → Option ℕ
digits n String.[] = some n
digits n (String.◌∷◌ c s) =
    let rest = digits (n * 10 + (code c - 48)) s in
    if leb 48 (code c) && leb (code c) 57 then rest else none

abbrev pub concrete : External
concrete = record {
  Value = String;
  value_eq = str_eq;
  murmur3_32 = λ bs seed. weighted_sum seed bs;
  murmur3_32_bound = λ bs seed. weighted_sum_bound seed bs;
  F64 = ℕ;
  parse_f64 = λ s. if str_eq s "" then none else digits 0 s;
  partial_cmp = λ a b. some (compare a b);
  dash_map = assoc_map;
}
