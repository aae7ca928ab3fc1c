-- ===== src/Store/Tests.antt =====
-- The theorems of the flag store at a run of calls.
use checkgate.Common.{String, ◌≡◌, ◌↔◌, refl, true, false, none, some, List, [], ◌∷◌, In}
use checkgate.External.Concrete.{concrete}
use checkgate.Types.{FlagType, Flag}
use checkgate.Store.{get_flag, list_flags}
use checkgate.Store.Laws.{
  Write, upsert, delete, clear_all, last_write, run, HasDistinctFlags, get_flag-run, list_flags-run,
}

abbrev switch : String → Flag String
switch key = record {
  key = key;
  is_enabled = true;
  rollout_percentage = none;
  description = none;
  rules = [];
  flag_type = FlagType.boolean;
  default_value = none;
  disabled_value = none;
  variants = [];
  prerequisites = [];
}

-- The latest call stands first.
abbrev calls : List (Write String)
calls =
    upsert (record (switch "a") { is_enabled = false })
    ∷ delete "b"
    ∷ upsert (switch "b")
    ∷ upsert (switch "a")
    ∷ clear_all
    ∷ []

last_write_runs :
    (last_write calls "a" ≡ some (record (switch "a") { is_enabled = false }))
    × (last_write calls "b" ≡ none)
unfolding last_write
last_write_runs = (refl, refl)

get_flag-run_example : get_flag concrete (run concrete calls) "b" ≡ last_write calls "b"
get_flag-run_example = get_flag-run concrete calls "b"

list_flags-run_example :
    ((f : Flag String)
      → In f (list_flags concrete (run concrete calls))
        ↔ (get_flag concrete (run concrete calls) f.key ≡ some f))
    × HasDistinctFlags (list_flags concrete (run concrete calls))
list_flags-run_example = list_flags-run concrete calls
