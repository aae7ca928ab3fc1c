-- ===== src/Flags/Tests.antt =====
-- A patch of a stored flag that asks for another key.
use checkgate.Common.{
  ℕ, ◌≤◌, String, ◌≡◌, refl, true, false, none, some, List, [], ◌∷◌, lookup, or_else,
}
use checkgate.External.Concrete.{without}
use checkgate.Status.{conflict, fetched, unprocessable_entity, ok, err}
use checkgate.Types.{pos}
use checkgate.Auth.{AuthContext, AuthWorld}
use checkgate.Auth.Require.{by_session}
use checkgate.Flags.Handlers.{may_delete, delete_flag}
use checkgate.Flags.Handlers.Laws.{after, delete, after-protected}
use checkgate.Server.{FlagRow, Db, find_row}
use checkgate.Server.Concrete.{Json, text, number, of_fields, fields_of-of_fields, flag_at, json}
use checkgate.Flags.{is_valid_flag_key, all_key_chars}
use checkgate.Flags.Patch.{Merged, insert_all, merge_and_validate}
use checkgate.Flags.Patch.Laws.{of_patch, merge_and_validate-fields}

abbrev stored : List (String × Json)
stored = ("key", text "a") ∷ ("rollout_percentage", number 50) ∷ []

abbrev row : FlagRow Json
row = record {
  environment_id = "env-1";
  key = "a";
  value = of_fields stored;
  tags = [];
  owner_email = none;
  archived_at = none;
  revision = 1;
}

abbrev change : ℕ → List (String × Json)
change p = ("key", text "b") ∷ ("rollout_percentage", number p) ∷ []

abbrev changed : Json
changed = of_fields (("rollout_percentage", number 70) ∷ ("key", text "a") ∷ [])

abbrev merged : Merged Json
merged = record {
  before = of_fields stored;
  value = changed;
  flag = flag_at (some 70);
  new_tags = none;
  new_owner_email = none;
}

in_range : merge_and_validate json (row ∷ []) "env-1" "a" (of_fields (change 70)) ≡ ok merged
unfolding merge_and_validate find_row insert_all without
in_range = refl

out_of_range :
    merge_and_validate json (row ∷ []) "env-1" "a" (of_fields (change 170))
    ≡ err unprocessable_entity
unfolding merge_and_validate find_row insert_all without
out_of_range = refl

is_found : find_row "env-1" "a" (row ∷ []) ≡ some row
unfolding find_row
is_found = refl

merge_and_validate-fields_example :
    (json.of_json merged.value ≡ some merged.flag)
    × ((p : ℕ) → merged.flag.rollout_percentage ≡ some p → p ≤ 100)
    × ((new : List (String × Json)) × (json.as_object merged.value ≡ some new)
        × ((k : String) → lookup k new ≡ or_else (of_patch (change 70) k) (lookup k stored)))
merge_and_validate-fields_example =
    merge_and_validate-fields json (row ∷ []) "env-1" "a"
      (λ m d. (m, fields_of-of_fields m, λ k. refl)) (of_fields (change 70)) (change 70) stored row
      merged refl (refl, (refl, tt)) is_found refl (refl, (refl, tt)) in_range

keys_are_checked : (is_valid_flag_key "new-checkout_2" ≡ true) × (is_valid_flag_key "a b" ≡ false)
unfolding is_valid_flag_key all_key_chars
keys_are_checked = (refl, refl)

-- Tables in which `env-1` requires approval.
abbrev tables : Db Json
tables = record {
  environments = ("env-1", true) ∷ ("env-2", false) ∷ [];
  flags = row ∷ [];
  segments = [];
  change_requests = [];
  next_revision = 2;
  next_request = 1;
}

abbrev world : AuthWorld
world = record {
  user_by_id = λ i. fetched none;
  sdk_key_by_value = λ key. fetched none;
  pat_by_hash = λ hash. fetched none;
  project_role = λ env user. fetched (some "editor");
  now = pos 0;
  db_now = pos 0;
  env_sdk_key = none;
  sha256 = λ bytes. bytes;
  constant_time_eq = λ a b. false;
}

abbrev ada : AuthContext
ada =
    by_session
      (record { user_id = pos 1; expires_at = pos 9; email = "ada"; name = "Ada"; role = "admin" })

delete_is_refused : (delete_flag json world tables ada "env-1" "a").response ≡ err conflict
unfolding delete_flag may_delete
delete_is_refused = refl

after-protected_example :
    find_row "env-1" "a" (after json world tables ada (delete "env-1" "a")).flags ≡ some row
after-protected_example =
    after-protected json world tables ada (delete "env-1" "a") "env-1" "a" row refl is_found
