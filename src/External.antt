-- ===== src/External.antt =====
-- What the sources use and do not implement: the concurrent map of `dashmap` behind core/src/store.rs,
-- the `murmur3` hash behind core/src/hashing.rs, `serde_json::Value`, and the 64-bit floats. They are
-- parameters of the development; the fields that are equations and bounds state what the code
-- relies on. `Concrete` gives one instance of each.
pub mod Concrete
use checkgate.Common.{
  ℕ, ◌^◌, ◌<◌, String, ◌≡◌, ◌⊎◌, Bool, Ordering, Option, none, some, List, [], ◌∷◌, str_eq, lookup,
  All, if◌then◌else◌,
}

-- No key stands twice in a list of entries.
abbrev pub HasDistinctKeys : {A : Type 0} → List (String × A) → Type 0
HasDistinctKeys [] = Unit
HasDistinctKeys ((k, v) ∷ es) = (lookup k es ≡ none) × HasDistinctKeys es

-- `DashMap<String, A>`, as a value that each call replaces. `iter` yields each entry once, in an
-- order that is not specified.
pub record DashMap (A : Type 0) : Type 1 where
  pub Map : Type 0
  pub new : Map
  pub insert : Map → String → A → Map
  pub get : Map → String → Option A
  pub remove : Map → String → Map
  pub clear : Map → Map
  pub iter : Map → List (String × A)
  pub get_new : (k : String) → get new k ≡ none
  pub get_insert :
      (m : Map) (k j : String) (v : A)
      → get (insert m k v) j ≡ (if str_eq k j then some v else get m j)
  pub get_remove :
      (m : Map) (k j : String) → get (remove m k) j ≡ (if str_eq k j then none else get m j)
  pub get_clear : (m : Map) (k : String) → get (clear m) k ≡ none
  pub lookup_iter : (m : Map) (k : String) → lookup k (iter m) ≡ get m k
  pub iter_distinct : (m : Map) → HasDistinctKeys (iter m)

pub record External : Type 1 where
  -- `serde_json::Value`, with its `==`
  pub Value : Type 0
  pub value_eq : Value → Value → Bool
  -- `murmur3_32(bytes, seed)`, a `u32`
  pub murmur3_32 : List ℕ → ℕ → ℕ
  pub murmur3_32_bound : (bytes : List ℕ) (seed : ℕ) → murmur3_32 bytes seed < 2 ^ 32
  -- `f64`, with `str::parse` (`none` for an error) and `PartialOrd`
  pub F64 : Type 0
  pub parse_f64 : String → Option F64
  pub partial_cmp : F64 → F64 → Option Ordering
  -- the map of flags
  pub dash_map : (A : Type 0) → DashMap A
