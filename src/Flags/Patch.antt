-- ===== src/Flags/Patch.antt =====
-- `merge_and_validate`: a patch merged onto the stored flag, and checked.
pub mod Laws
use checkgate.Common.{
  ℕ, String, Bool, true, false, not, ◌&&◌, Option, none, some, List, [], ◌∷◌, lookup, leb, is_some,
  if◌then◌else◌,
}
use checkgate.External.Concrete.{without}
use checkgate.Types.{Flag}
use checkgate.Status.{unprocessable_entity, not_found, Result, ok, err, ◌>>=◌, ok_or}
use checkgate.Server.{FlagJson, FlagRow, find_row}

pub record Merged (V : Type 0) : Type 0 where
  pub before : V
  pub value : V
  pub flag : Flag V
  pub new_tags : Option (List String)
  pub new_owner_email : Option (Option String)

-- `rollout_percentage.is_some_and(|p| p > 100)`
abbrev pub is_over : Option ℕ → Bool
is_over none = false
is_over (some p) = not (leb p 100)

module _ {V : Type 0} where
  -- `map.insert(k, v)` and the loop over the patch
  unfoldable pub insert_all : List (String × V) → List (String × V) → List (String × V)
  unfolding without
  insert_all fields [] = fields
  insert_all fields ((k, v) ∷ patch) = insert_all ((k, v) ∷ without k fields) patch

module _ {V : Type 0} (json : FlagJson V) where
  abbrev pub patched_tags : Option V → Result (Option (List String))
  patched_tags none = ok none
  patched_tags (some v) = do tags ← ok_or (json.tags_of v) unprocessable_entity; ok (some tags)

  abbrev pub patched_owner : Option V → Result (Option (Option String))
  patched_owner none = ok none
  patched_owner (some v) =
      if not (json.is_null v) && not (is_some (json.as_str v))
      then err unprocessable_entity
      else ok (some (json.as_str v))

  -- `flag_val`, where both values are objects
  abbrev pub merge : V → List (String × V) → V
  merge before patch = elim (json.as_object before) [
    | none ↦ before
    | some fields ↦ json.of_object (insert_all fields patch)
  ]

  unfoldable pub merge_and_validate : List (FlagRow V) → String → String → V → Result (Merged V)
  unfolding find_row insert_all without
  merge_and_validate rows env_id key patch = do
    fields ← ok_or (json.as_object patch) unprocessable_entity
    let no_key = without "key" fields
    new_tags ← patched_tags (lookup "tags" no_key)
    let no_tags = without "tags" no_key
    new_owner_email ← patched_owner (lookup "owner_email" no_tags)
    let rest = without "owner_email" no_tags
    row ← ok_or (find_row env_id key rows) not_found
    let value = merge row.value rest
    flag ← ok_or (json.of_json value) unprocessable_entity
    if is_over flag.rollout_percentage
        then err unprocessable_entity
        else ok (record {
          before = row.value;
          value = value;
          flag = flag;
          new_tags = new_tags;
          new_owner_email = new_owner_email;
        })
